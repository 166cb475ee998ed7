-- ===== src/Ethkey/Password/Contents.antt =====
-- ethkey/src/password.rs: passwords seen as the list of their texts.
use mm2_parity_ethereum.Base.{
  Bytes, ℕ, ◌+◌, ◌≤◌, ◌<◌, ◌≡◌, refl, ap, ◌∙◌, subst, ◌⊎◌, arith, List, [], ◌∷◌, ◌++◌, length, All,
}
use mm2_parity_ethereum.Util.Mem.{Memory, Slice, write_zeros}
use mm2_parity_ethereum.Util.Mem.Laws.{read_from-eq, write_zeros-outside}
use mm2_parity_ethereum.Ethkey.Password.{
  Password, from_string, from_text, write_bytes, as_bytes, clone_password, drop_password,
}
use mm2_parity_ethereum.Ethkey.Password.Buffer.{
  write_bytes-outside, read_from-write_bytes, All-middle,
}
use mm2_parity_ethereum.Ethkey.Password.Life.{
  State, Step, make, copy, forget, IsApart, AreApart, IsClean, length-as_bytes,
}

abbrev pub texts : List Password → Memory → List Bytes
texts [] memory = []
texts (p ∷ ps) memory = as_bytes p memory ∷ texts ps memory

abbrev pub contents : State → List Bytes
contents s = texts s.passwords s.memory

-- The abstract program: a text is added, one that is there is added once more, or one is taken away.
pub data Change (xs ys : List Bytes) : Type 0 where
  add : (text : Bytes) → ys ≡ text ∷ xs → Change xs ys
  add_again :
      (before after : List Bytes) (text : Bytes)
      → xs ≡ before ++ text ∷ after
      → ys ≡ text ∷ xs
      → Change xs ys
  take_away :
      (before after : List Bytes) (text : Bytes)
      → xs ≡ before ++ text ∷ after
      → ys ≡ before ++ after
      → Change xs ys

texts-append :
    (ps qs : List Password) (memory : Memory)
    → texts (ps ++ qs) memory ≡ texts ps memory ++ texts qs memory
texts-append [] qs memory = refl
texts-append (p ∷ ps) qs memory = rw (texts-append ps qs memory)

-- A write to one buffer leaves the texts of the others.
module _ (s : Slice) (memory memory' : Memory)
    (outside : (a : ℕ) → (a < s.start) ⊎ (s.start + s.len ≤ a) → memory' a ≡ memory a) where
  texts-outside :
      (ps : List Password)
      → All (λ (q : Password). IsApart s q.buffer) ps
      → texts ps memory' ≡ texts ps memory
  unfolding as_bytes
  texts-outside [] h = refl
  texts-outside (q ∷ qs) (hq, h) = rw (
    read_from-eq q.buffer.len q.buffer.start memory' memory (λ a lo hi. outside a (omega arith)),
    texts-outside qs h,
  )

from_text-texts :
    (ps : List Password) (text : Bytes) (place : ℕ) (memory : Memory)
    → All (λ (q : Password). IsApart (record { start = place; len = length text }) q.buffer) ps
    → texts ((from_text text place memory).0 ∷ ps) (from_text text place memory).1
      ≡ text ∷ texts ps memory
unfolding from_text from_string as_bytes
from_text-texts ps text place memory fresh = rw (
  read_from-write_bytes text place memory,
  texts-outside (record { start = place; len = length text }) memory (write_bytes text place memory)
      (λ a out. write_bytes-outside text place memory a out) ps fresh,
)

IsApart-sym : (s t : Slice) → IsApart s t → IsApart t s
IsApart-sym s t h = grind arith

All-IsApart :
    (before after : List Password) (p : Password)
    → AreApart (before ++ p ∷ after)
    → All (λ (q : Password). IsApart p.buffer q.buffer) (before ++ after)
All-IsApart [] after p (h, _) = h
All-IsApart (q ∷ before) after p (hq, h) = (
  IsApart-sym q.buffer p.buffer
      (All-middle (λ (r : Password). IsApart q.buffer r.buffer) before after p hq),
  All-IsApart before after p h,
)

-- The texts of the other passwords stay when one is dropped.
texts-forget :
    (before after : List Password) (p : Password) (memory : Memory)
    → AreApart (before ++ p ∷ after)
    → texts (before ++ after) (drop_password p memory) ≡ texts before memory ++ texts after memory
unfolding drop_password
texts-forget before after p memory apart =
    texts-outside p.buffer memory (write_zeros p.buffer.len p.buffer.start memory)
      (λ a out. write_zeros-outside p.buffer.len p.buffer.start memory a out) (before ++ after)
      (All-IsApart before after p apart)
    ∙ texts-append before after memory

module _ (s : State) (before after : List Password) (p : Password)
    (found : s.passwords ≡ before ++ p ∷ after) where
  contents-found : contents s ≡ texts before s.memory ++ as_bytes p s.memory ∷ texts after s.memory
  contents-found = ap (λ ps. texts ps s.memory) found ∙ texts-append before (p ∷ after) s.memory

-- From a state whose buffers share no byte and in which each byte of no buffer is zero, each step of a
-- program changes the list of the texts that its passwords hold in one of three ways: a text is added,
-- one that is there is added once more, or one is taken away. So no password is changed by making,
-- copying or dropping another.
pub Step-Change : (s t : State) → IsClean s → Step s t → Change (contents s) (contents t)
unfolding clone_password
Step-Change s t h (make text place fresh e) =
    add text (ap contents e ∙ from_text-texts s.passwords text place s.memory fresh)
Step-Change s t h (copy before after p place found fresh e) =
    add_again (texts before s.memory) (texts after s.memory) (as_bytes p s.memory)
      (contents-found s before after p found)
      (ap contents e
        ∙ from_text-texts s.passwords (as_bytes p s.memory) place s.memory
            (rw (length-as_bytes p s.memory) fresh))
Step-Change s t h (forget before after p found e) =
    take_away (texts before s.memory) (texts after s.memory) (as_bytes p s.memory)
      (contents-found s before after p found)
      (ap contents e ∙ texts-forget before after p s.memory (subst AreApart found h.apart))
