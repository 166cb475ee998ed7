-- ===== src/Util/Mem/Laws.antt =====
-- util/mem/src/lib.rs: what memory holds after the loop that writes zeros.
use mm2_parity_ethereum.Base.{
  le-cases, ℕ, zero, suc, ◌+◌, ◌≤◌, ◌<◌, ◌≡◌, refl, ◌∙◌, ◌⊎◌, inl, inr, arith, replicate,
}
use mm2_parity_ethereum.Util.Mem.{
  Memory, Slice, write_volatile, write_zeros, read_from, Memzero, deref, drop_memzero,
}

abbrev pub Holds : Slice → ℕ → Type 0
Holds s a = (s.start ≤ a) × (a < s.start + s.len)

abbrev pub Misses : Slice → ℕ → Type 0
Misses s a = (a < s.start) ⊎ (s.start + s.len ≤ a)

pub write_zeros-outside :
    (n p : ℕ) (memory : Memory) (a : ℕ)
    → (a < p) ⊎ (p + n ≤ a)
    → write_zeros n p memory a ≡ memory a
unfolding write_zeros write_volatile
write_zeros-outside zero p memory a h = refl
write_zeros-outside (suc n) p memory a h =
    write_zeros-outside n (p + 1) (write_volatile p 0 memory) a (omega arith) ∙ ground arith

pub write_zeros-inside :
    (n p : ℕ) (memory : Memory) (a : ℕ) → p ≤ a → a < p + n → write_zeros n p memory a ≡ 0
unfolding write_zeros write_volatile
write_zeros-inside zero p memory a lo hi = absurd (omega arith)
write_zeros-inside (suc n) p memory a lo hi = elim (le-cases p a lo) [
  | inl less ↦
      write_zeros-inside n (p + 1) (write_volatile p 0 memory) a (omega arith) (omega arith)
  | inr same ↦
      write_zeros-outside n (p + 1) (write_volatile p 0 memory) a (omega arith) ∙ ground arith
]

pub read_from-eq :
    (n p : ℕ) (memory memory' : Memory)
    → ((a : ℕ) → p ≤ a → a < p + n → memory a ≡ memory' a)
    → read_from n p memory ≡ read_from n p memory'
unfolding read_from
read_from-eq zero p memory memory' h = refl
read_from-eq (suc n) p memory memory' h = rw (
  h p (omega arith) (omega arith),
  read_from-eq n (p + 1) memory memory' (λ a lo hi. h a (omega arith) (omega arith)),
)

read_from-zeros :
    (n p : ℕ) (memory : Memory)
    → ((a : ℕ) → p ≤ a → a < p + n → memory a ≡ 0)
    → read_from n p memory ≡ replicate n 0
unfolding read_from
read_from-zeros zero p memory h = refl
read_from-zeros (suc n) p memory h = rw (
  h p (omega arith) (omega arith),
  read_from-zeros n (p + 1) memory (λ a lo hi. h a (omega arith) (omega arith)),
)

-- Dropping a value leaves zeros in all of its bytes, and an address that is none of its bytes as it
-- was.
pub drop_memzero_lem :
    (m : Memzero) (memory : Memory) (a : ℕ)
    → Misses m.mem a
    → (deref m (drop_memzero m memory) ≡ replicate m.mem.len 0)
      × (drop_memzero m memory a ≡ memory a)
unfolding deref drop_memzero
drop_memzero_lem m memory a h = (
  read_from-zeros m.mem.len m.mem.start (write_zeros m.mem.len m.mem.start memory)
      (λ a lo hi. write_zeros-inside m.mem.len m.mem.start memory a lo hi),
  write_zeros-outside m.mem.len m.mem.start memory a h,
)
