-- ===== src/Crates/Types.antt =====
-- The interface of the `ethereum_types` crate: conversions between `U256` and bytes, and `H256`.
use mm2_parity_ethereum.Base.{Bytes, Result, IsArray, IsU256, ℕ, ◌+◌, ◌*◌, Bool, ◌≡◌, ltb, leb}
use mathlib.Core.List.{foldl}
use Prim.Native.String.{String}

-- The number that a slice of bytes spells, most significant byte first.
abbrev pub be_value : Bytes → ℕ
be_value = foldl (λ n b. n * 256 + b) 0

pub record TypesCrate : Type 0 where
  -- `[u8; 32]: From<U256>`
  pub u256_into_bytes : ℕ → Bytes
  -- `U256: From<&[u8]>`
  pub u256_from_bytes : Bytes → ℕ
  -- `H256: From<[u8; 32]>` and `H256::from_low_u64_ne`; a hash is its 32 bytes.
  pub h256_from_low_u64_ne : ℕ → Bytes
  -- `FromStr` of `H256`, whose error is the text that it is debugged as, and `LowerHex`.
  pub h256_from_str : String → Result String Bytes
  pub h256_lower_hex : Bytes → String
  -- `PartialOrd` of `H256`.
  pub h256_le : Bytes → Bytes → Bool
  pub h256_lt : Bytes → Bytes → Bool

pub record TypesLaws (t : TypesCrate) : Type 0 where
  pub u256_into_bytes-IsArray : (n : ℕ) → IsU256 n → IsArray 32 (t.u256_into_bytes n)
  pub be_value-u256_into_bytes : (n : ℕ) → IsU256 n → be_value (t.u256_into_bytes n) ≡ n
  pub u256_from_bytes_lem : (b : Bytes) → IsArray 32 b → t.u256_from_bytes b ≡ be_value b
  pub u256_into_bytes-u256_from_bytes :
      (b : Bytes) → IsArray 32 b → t.u256_into_bytes (t.u256_from_bytes b) ≡ b
  pub u256_from_bytes-IsU256 : (b : Bytes) → IsArray 32 b → IsU256 (t.u256_from_bytes b)
  -- Hashes are ordered by their bytes, the first one counting most.
  pub h256_le_lem :
      (a b : Bytes) → IsArray 32 a → IsArray 32 b → t.h256_le a b ≡ leb (be_value a) (be_value b)
  pub h256_lt_lem :
      (a b : Bytes) → IsArray 32 a → IsArray 32 b → t.h256_lt a b ≡ ltb (be_value a) (be_value b)
