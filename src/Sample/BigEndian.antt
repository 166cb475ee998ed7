-- ===== src/Sample/BigEndian.antt =====
-- 32 byte numbers, most significant byte first.
use Prim.Native.String.{String}
use mm2_parity_ethereum.Sample.Hex.{to_hex, from_hex_after}
use mathlib.Core.List.{foldl-append}
use mm2_parity_ethereum.Base.{
  Result, ok, err, none, some, Option, Bytes, IsByte, All, ℕ, zero, suc, ◌+◌, ◌*◌, ◌/◌, ◌%◌, ◌^◌,
  ◌<◌, ◌≡◌, refl, ap, subst, sym, ◌∙◌, [], ◌∷◌, ◌++◌, leb, ltb, length, take, get_or, replicate,
  take-append-drop, drop-last, length-take, length-snoc, All-take, All-drop, All-append, arith,
}
use mm2_parity_ethereum.Crates.Types.{TypesCrate, TypesLaws, be_value}

abbrev to_be : ℕ → ℕ → Bytes
to_be zero n = []
to_be (suc k) n = to_be k (n / 256) ++ (n % 256) ∷ []

be_value-snoc : (xs : Bytes) (b : ℕ) → be_value (xs ++ b ∷ []) ≡ be_value xs * 256 + b
be_value-snoc xs b = foldl-append (λ (n : ℕ) (d : ℕ). n * 256 + d) 0 xs (b ∷ [])

length-to_be : (k n : ℕ) → length (to_be k n) ≡ k
length-to_be zero n = refl
length-to_be (suc k) n =
    length-snoc (to_be k (n / 256)) (n % 256) ∙ omega (arith, length-to_be k (n / 256))

to_be-IsByte : (k n : ℕ) → All IsByte (to_be k n)
to_be-IsByte zero n = tt
to_be-IsByte (suc k) n =
    All-append IsByte (to_be k (n / 256)) _ (to_be-IsByte k (n / 256)) (omega arith, tt)

be_value-to_be : (k n : ℕ) → n < 256 ^ k → be_value (to_be k n) ≡ n
be_value-to_be zero n h = omega arith
be_value-to_be (suc k) n h =
    be_value-snoc (to_be k (n / 256)) (n % 256)
    ∙ omega (arith, be_value-to_be k (n / 256) (omega arith))

-- The last byte of an array split off.
module _ (k : ℕ) (b : Bytes) (len : length b ≡ suc k) where
  split_last : take k b ++ get_or b k 0 ∷ [] ≡ b
  split_last = ap (λ t. take k b ++ t) (sym (drop-last k b 0 len)) ∙ take-append-drop k b

  last-IsByte : All IsByte b → get_or b k 0 < 256
  last-IsByte h =
      let last : All IsByte (get_or b k 0 ∷ []) =
        subst (All IsByte) (drop-last k b 0 len) (All-drop IsByte k b h) in
      last.0

to_be-snoc : (k m y : ℕ) → y < 256 → to_be (suc k) (m * 256 + y) ≡ to_be k m ++ y ∷ []
to_be-snoc k m y h =
    let high : (m * 256 + y) / 256 ≡ m = omega arith in
    let low : (m * 256 + y) % 256 ≡ y = omega arith in rw (high, low)

to_be-be_value : (k : ℕ) (b : Bytes) → length b ≡ k → All IsByte b → to_be k (be_value b) ≡ b
to_be-be_value zero [] len h = refl
to_be-be_value zero (x ∷ xs) len h = absurd (omega arith)
to_be-be_value (suc k) b len h =
    ap (to_be (suc k))
      (ap be_value (sym (split_last k b len)) ∙ be_value-snoc (take k b) (get_or b k 0))
    ∙ to_be-snoc k (be_value (take k b)) (get_or b k 0) (last-IsByte k b len h)
    ∙ ap (λ t. t ++ get_or b k 0 ∷ [])
        (to_be-be_value k (take k b) (length-take k b (omega arith)) (All-take IsByte k b h))
    ∙ split_last k b len

be_value-lt : (k : ℕ) (b : Bytes) → length b ≡ k → All IsByte b → be_value b < 256 ^ k
be_value-lt zero [] len h = omega arith
be_value-lt zero (x ∷ xs) len h = absurd (omega arith)
be_value-lt (suc k) b len h =
    rw (← split_last k b len, be_value-snoc (take k b) (get_or b k 0))
      (omega (
        arith,
        last-IsByte k b len h,
        be_value-lt k (take k b) (length-take k b (omega arith)) (All-take IsByte k b h),
      ))

abbrev ok_or_invalid : Option Bytes → Result String Bytes
ok_or_invalid (some b) = ok b
ok_or_invalid none = err "invalid"

-- The native order of bytes is little endian.
abbrev pub numbers : TypesCrate
numbers = record {
  h256_from_str = λ text. ok_or_invalid (from_hex_after text 0);
  h256_lower_hex = to_hex;
  u256_into_bytes = to_be 32;
  u256_from_bytes = be_value;
  h256_from_low_u64_ne = λ n. replicate 24 0 ++ n ∷ replicate 7 0;
  h256_le = λ a b. leb (be_value a) (be_value b);
  h256_lt = λ a b. ltb (be_value a) (be_value b);
}

pub numbers_laws : TypesLaws numbers
numbers_laws = record {
  u256_into_bytes-IsArray = λ n h. (length-to_be 32 n, to_be-IsByte 32 n);
  be_value-u256_into_bytes = λ n h. be_value-to_be 32 n h;
  u256_from_bytes_lem = λ b h. refl;
  u256_into_bytes-u256_from_bytes = λ b h. to_be-be_value 32 b h.0 h.1;
  u256_from_bytes-IsU256 = λ b h. be_value-lt 32 b h.0 h.1;
  h256_le_lem = λ a b ha hb. refl;
  h256_lt_lem = λ a b ha hb. refl;
}
