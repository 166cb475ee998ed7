-- ===== src/Ethkey/Password/Buffer.antt =====
-- ethkey/src/password.rs: what a buffer holds after bytes are written, and lists of buffers.
use mm2_parity_ethereum.Base.{
  Bytes, ℕ, zero, suc, ◌+◌, ◌≤◌, ◌<◌, ◌≡◌, refl, ap, ◌∙◌, ◌⊎◌, arith, List, [], ◌∷◌, ◌++◌, length,
  All,
}
use mm2_parity_ethereum.Util.Mem.{Memory, Slice, write_volatile, read_from}
use mm2_parity_ethereum.Util.Mem.Laws.{Holds, Misses}
use mm2_parity_ethereum.Ethkey.Password.{write_bytes}

pub write_bytes-outside :
    (bs : Bytes) (p : ℕ) (memory : Memory) (a : ℕ)
    → (a < p) ⊎ (p + length bs ≤ a)
    → write_bytes bs p memory a ≡ memory a
unfolding write_bytes write_volatile
write_bytes-outside [] p memory a h = refl
write_bytes-outside (b ∷ bs) p memory a h =
    write_bytes-outside bs (p + 1) (write_volatile p b memory) a (omega arith) ∙ ground arith

pub length-read_from : (n p : ℕ) (memory : Memory) → length (read_from n p memory) ≡ n
unfolding read_from
length-read_from zero p memory = refl
length-read_from (suc n) p memory = ap suc (length-read_from n (p + 1) memory)

-- Written bytes are read back.
pub read_from-write_bytes :
    (bs : Bytes) (p : ℕ) (memory : Memory) → read_from (length bs) p (write_bytes bs p memory) ≡ bs
unfolding read_from write_bytes write_volatile
read_from-write_bytes [] p memory = refl
read_from-write_bytes (b ∷ bs) p memory =
    rw
      (
        write_bytes-outside bs (p + 1) (write_volatile p b memory) p (omega arith),
        read_from-write_bytes bs (p + 1) (write_volatile p b memory),
      )
      (ground arith)

pub Holds-or-Misses : (s : Slice) (a : ℕ) → Holds s a ⊎ Misses s a
Holds-or-Misses s a = grind arith

module _ {ℓ κ} {A : Type ℓ} (P : A → Type κ) where
  pub All-remove :
      (before after : List A) (x : A) → All P (before ++ x ∷ after) → All P (before ++ after)
  All-remove [] after x (_, h) = h
  All-remove (y ∷ before) after x (hy, h) = (hy, All-remove before after x h)

  pub All-insert :
      (before after : List A) (x : A) → P x → All P (before ++ after) → All P (before ++ x ∷ after)
  All-insert [] after x hx h = (hx, h)
  All-insert (y ∷ before) after x hx (hy, h) = (hy, All-insert before after x hx h)

  pub All-middle : (before after : List A) (x : A) → All P (before ++ x ∷ after) → P x
  All-middle [] after x (hx, _) = hx
  All-middle (y ∷ before) after x (_, h) = All-middle before after x h
