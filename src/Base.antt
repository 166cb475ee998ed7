-- ===== src/Base.antt =====
-- The names that all modules share: the libraries' and those of the children.
mod Tests
mod Lists
mod Outcome
pub use Tests.*
pub use Lists.*
pub use Outcome.*
pub use Prim.Native.Nat.{ℕ, zero, suc, ◌+◌, ◌-◌, ◌*◌, ◌/◌, ◌%◌, ◌^◌, ◌≤◌, ◌<◌}
pub use mathlib.Core.Path.{◌≡◌, refl, sym, ap, ◌∙◌, subst}
pub use mathlib.Core.Logic.{◌≢◌, ◌↔◌, ◌⊎◌, inl, inr}
pub use mathlib.Core.Bool.{Bool, true, false, not, ◌&&◌, ◌||◌}
pub use mathlib.Core.Option.{Option, none, some}
pub use mathlib.Core.List.{List, [], ◌∷◌, ◌++◌}
pub use native.Mathlib.Omega.{arith}

-- `Vec<u8>`, `[u8; n]` and the fixed hashes over them.
abbrev pub Bytes : Type 0
Bytes = List ℕ

-- `bytes[0]` and `&bytes[1..]`, which panic on no bytes.
abbrev pub first_byte {ℓ} : {E : Type ℓ} → Bytes → Result E ℕ
first_byte [] = panic
first_byte (b ∷ bs) = ok b

abbrev pub skip_byte {ℓ} : {E : Type ℓ} → Bytes → Result E Bytes
skip_byte [] = panic
skip_byte (b ∷ bs) = ok bs

-- The result of an addition or multiplication of `w` bits, which panics where it overflows.
abbrev pub checked {ℓ} : {E : Type ℓ} → ℕ → ℕ → Result E ℕ
checked w n = if ltb n (2 ^ w) then ok n else panic

abbrev pub IsByte : ℕ → Type 0
IsByte b = b < 256

-- An array `[u8; n]`.
abbrev pub IsArray : ℕ → Bytes → Type 0
IsArray n b = (length b ≡ n) × All IsByte b

abbrev pub IsU64 : ℕ → Type 0
IsU64 n = n < 2 ^ 64

abbrev pub IsU256 : ℕ → Type 0
IsU256 n = n < 2 ^ 256

pub get_or-IsByte : (b : Bytes) (i : ℕ) → All IsByte b → get_or b i 0 < 256
get_or-IsByte [] i h = omega arith
get_or-IsByte (x ∷ xs) zero (hx, h) = hx
get_or-IsByte (x ∷ xs) (suc i) (hx, h) = get_or-IsByte xs i h
