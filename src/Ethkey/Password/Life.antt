-- ===== src/Ethkey/Password/Life.antt =====
-- ethkey/src/password.rs: a program that makes, copies and drops passwords, as a step relation.
use mm2_parity_ethereum.Base.{
  Bytes, ℕ, ◌+◌, ◌≤◌, ◌≡◌, ◌∙◌, ◌⊎◌, inl, inr, List, [], ◌∷◌, ◌++◌, length, All, subst,
}
use mm2_parity_ethereum.Util.Mem.{Memory, Slice}
use mm2_parity_ethereum.Util.Mem.Laws.{Misses, write_zeros-outside, write_zeros-inside}
use mm2_parity_ethereum.Ethkey.Password.Buffer.{
  write_bytes-outside, length-read_from, Holds-or-Misses, All-remove, All-insert,
}
use mm2_parity_ethereum.Ethkey.Password.{
  Password, from_string, from_text, as_bytes, clone_password, drop_password,
}

pub record State : Type 0 where
  pub memory : Memory
  pub passwords : List Password

-- Two buffers that share no byte.
abbrev pub IsApart : Slice → Slice → Type 0
IsApart s t = (s.start + s.len ≤ t.start) ⊎ (t.start + t.len ≤ s.start)

-- The allocator gives a place that no other password has, and a password that is copied or dropped is
-- one that was made: what the language and its allocator see to.
pub data Step (s t : State) : Type 0 where
  make :
      (text : Bytes) (place : ℕ)
      → All
          (λ (q : Password). IsApart (record { start = place; len = length text }) q.buffer)
          s.passwords
      → t ≡ (
          let (p, memory) = from_text text place s.memory in
          record { memory = memory; passwords = p ∷ s.passwords })
      → Step s t
  copy :
      (before after : List Password) (p : Password) (place : ℕ)
      → s.passwords ≡ before ++ p ∷ after
      → All
          (λ (q : Password). IsApart (record { start = place; len = p.buffer.len }) q.buffer)
          s.passwords
      → t ≡ (
          let (p', memory) = clone_password p place s.memory in
          record { memory = memory; passwords = p' ∷ s.passwords })
      → Step s t
  forget :
      (before after : List Password) (p : Password)
      → s.passwords ≡ before ++ p ∷ after
      → t ≡ record { memory = drop_password p s.memory; passwords = before ++ after }
      → Step s t

pub data Reach (s : State) : State → Type 0 where
  here : Reach s s
  next : {t u : State} → Reach s t → Step t u → Reach s u

-- Buffers share no byte, and a byte of no buffer is zero.
abbrev pub AreApart : List Password → Type 0
AreApart [] = Unit
AreApart (p ∷ ps) = All (λ (q : Password). IsApart p.buffer q.buffer) ps × AreApart ps

abbrev pub IsOutside : List Password → ℕ → Type 0
IsOutside ps a = All (λ (q : Password). Misses q.buffer a) ps

pub record IsClean (s : State) : Type 0 where
  pub apart : AreApart s.passwords
  pub zeros : (a : ℕ) → IsOutside s.passwords a → s.memory a ≡ 0

pub length-as_bytes : (p : Password) (memory : Memory) → length (as_bytes p memory) ≡ p.buffer.len
unfolding as_bytes
length-as_bytes p memory = length-read_from p.buffer.len p.buffer.start memory

from_text-IsClean :
    (s : State) (text : Bytes) (place : ℕ)
    → All
        (λ (q : Password). IsApart (record { start = place; len = length text }) q.buffer)
        s.passwords
    → IsClean s
    → IsClean (record {
      memory = (from_text text place s.memory).1;
      passwords = (from_text text place s.memory).0 ∷ s.passwords;
    })
unfolding from_text from_string
from_text-IsClean s text place fresh h = record {
  apart = (fresh, h.apart);
  zeros = λ a (out, outs). write_bytes-outside text place s.memory a out ∙ h.zeros a outs;
}

module _ (p : Password) where
  AreApart-remove :
      (before after : List Password) → AreApart (before ++ p ∷ after) → AreApart (before ++ after)
  AreApart-remove [] after (_, h) = h
  AreApart-remove (q ∷ before) after (hq, h) = (
    All-remove (λ (r : Password). IsApart q.buffer r.buffer) before after p hq,
    AreApart-remove before after h,
  )

  zeros-forget :
      (before after : List Password) (memory : Memory) (a : ℕ)
      → (IsOutside (before ++ p ∷ after) a → memory a ≡ 0)
      → IsOutside (before ++ after) a
      → drop_password p memory a ≡ 0
  unfolding drop_password
  zeros-forget before after memory a zeros out = elim (Holds-or-Misses p.buffer a) [
    | inl (lo, hi) ↦ write_zeros-inside p.buffer.len p.buffer.start memory a lo hi
    | inr miss ↦
        write_zeros-outside p.buffer.len p.buffer.start memory a miss
        ∙ zeros (All-insert (λ (q : Password). Misses q.buffer a) before after p miss out)
  ]

pub Step-IsClean : (s t : State) → Step s t → IsClean s → IsClean t
unfolding clone_password from_text
Step-IsClean s t (make text place fresh e) h = rw e (from_text-IsClean s text place fresh h)
Step-IsClean s t (copy before after p place found fresh e) h =
    rw e (from_text-IsClean s (as_bytes p s.memory) place (rw (length-as_bytes p s.memory) fresh) h)
Step-IsClean s t (forget before after p found e) h =
    let apart : AreApart (before ++ p ∷ after) = subst AreApart found h.apart in
    rw e (record {
      apart = AreApart-remove p before after apart;
      zeros = λ a out. zeros-forget p before after s.memory a (λ k. h.zeros a (rw found k)) out;
    })

-- Whatever passwords a program makes, copies and drops, from a state whose buffers share no byte and in
-- which each byte of no buffer is zero: the buffers never share a byte, and each byte of no buffer,
-- those of dropped passwords too, is zero again.
pub Reach-IsClean : (s t : State) → IsClean s → Reach s t → IsClean t
Reach-IsClean s t h here = h
Reach-IsClean s t h (next {t = u} r step) = Step-IsClean u t step (Reach-IsClean s u h r)
