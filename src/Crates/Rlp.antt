-- ===== src/Crates/Rlp.antt =====
-- The interface of the `rlp` crate.
--
-- An `RlpStream` is modelled by the trace of the calls that the program makes on it: `begin_list`,
-- and `append` or `append_internal` of a value whose `Encodable` is the crates' own. `out` (also
-- `as_raw`) is the crate's: it turns a trace into bytes. An `Rlp` is the slice it looks at, the
-- one that `Rlp::new` takes and `as_raw` returns; `item_at` is `Rlp::at`.
pub mod Tree
pub mod Stream
pub mod Fields
use Prim.Native.String.{String}
use mm2_parity_ethereum.Base.{
  Bytes, IsByte, IsArray, IsU64, IsU256, All, ℕ, zero, suc, ◌<◌, ◌≤◌, ◌≡◌, Bool, true, false, List,
  [], ◌∷◌, ◌++◌, Option, none, some, Result, ok, panic, ◌≢◌, length,
}
use mm2_parity_ethereum.Crates.Rlp.Tree.{
  Value, Item, Items, Call, u8, u64, u256, vec_u8, address, h256, empty_str, leaf, list, nil, cons,
  calls_all, length_items, get_item?, IsItem, AreItems, IsValue,
}

pub data DecoderError : Type 0 where
  rlp_is_too_short : DecoderError
  rlp_incorrect_list_len : DecoderError
  custom : String → DecoderError
  -- The errors that only the crate itself returns.
  crate_error : ℕ → DecoderError

pub record RlpCrate : Type 0 where
  pub out : List Call → Bytes
  pub is_list : Bytes → Bool
  pub is_empty : Bytes → Bool
  pub item_count : Bytes → Result DecoderError ℕ
  pub item_at : Bytes → ℕ → Result DecoderError Bytes
  pub decode_u64 : Bytes → Result DecoderError ℕ
  pub decode_u256 : Bytes → Result DecoderError ℕ
  pub decode_vec_u8 : Bytes → Result DecoderError Bytes
  pub decode_address : Bytes → Result DecoderError Bytes
  pub decode_h256 : Bytes → Result DecoderError Bytes

-- What the crate documents. RLP serialises a tree of values, `encode`; the list functions read the
-- items of a serialised list, and each primitive type decodes what it encoded.
pub record RlpLaws (r : RlpCrate) : Type 0 where
  pub encode : Item → Bytes
  pub encode_all : Items → Bytes
  pub encode_all-nil : encode_all nil ≡ []
  pub encode_all-cons : (x : Item) (xs : Items) → encode_all (cons x xs) ≡ encode x ++ encode_all xs
  -- Complete items that are appended to a new stream are serialised one after the other.
  pub out-calls_all : (xs : Items) → AreItems xs → r.out (calls_all xs) ≡ encode_all xs
  -- A byte from 1 to 0x7f is its own encoding.
  pub encode-u8 : (b : ℕ) → suc zero ≤ b → b < 128 → encode (leaf (u8 b)) ≡ b ∷ []
  -- A list's first byte is 0xc0 or more.
  pub encode-list :
      (xs : Items) → AreItems xs → (b : ℕ) × (bs : Bytes) × (encode (list xs) ≡ b ∷ bs) × (192 ≤ b)
  pub is_list_above : (b : ℕ) (bs : Bytes) → 192 ≤ b → r.is_list (b ∷ bs) ≡ true
  pub is_list_below : (b : ℕ) (bs : Bytes) → b < 192 → r.is_list (b ∷ bs) ≡ false
  pub item_count-list :
      (xs : Items) → AreItems xs → r.item_count (encode (list xs)) ≡ ok (length_items xs)
  pub item_at-list :
      (xs : Items) (i : ℕ) (x : Item)
      → AreItems xs
      → get_item? xs i ≡ some x
      → r.item_at (encode (list xs)) i ≡ ok (encode x)
  pub is_empty-empty_str : r.is_empty (encode (leaf empty_str)) ≡ true
  pub is_empty-address : (a : Bytes) → IsArray 20 a → r.is_empty (encode (leaf (address a))) ≡ false
  pub decode_u64_lem : (n : ℕ) → IsU64 n → r.decode_u64 (encode (leaf (u64 n))) ≡ ok n
  pub decode_u256_lem : (n : ℕ) → IsU256 n → r.decode_u256 (encode (leaf (u256 n))) ≡ ok n
  pub decode_vec_u8_lem :
      (b : Bytes) → All IsByte b → r.decode_vec_u8 (encode (leaf (vec_u8 b))) ≡ ok b
  pub decode_address_lem :
      (a : Bytes) → IsArray 20 a → r.decode_address (encode (leaf (address a))) ≡ ok a
  pub decode_h256_lem : (h : Bytes) → IsArray 32 h → r.decode_h256 (encode (leaf (h256 h))) ≡ ok h

-- The functions that read return a value or an error, whatever the bytes.
pub record RlpReturns (r : RlpCrate) : Type 0 where
  pub item_count : (d : Bytes) → r.item_count d ≢ panic
  pub item_at : (d : Bytes) (i : ℕ) → r.item_at d i ≢ panic
  pub decode_u64 : (d : Bytes) → r.decode_u64 d ≢ panic
  pub decode_u256 : (d : Bytes) → r.decode_u256 d ≢ panic
  pub decode_vec_u8 : (d : Bytes) → r.decode_vec_u8 d ≢ panic
  pub decode_address : (d : Bytes) → r.decode_address d ≢ panic
  pub decode_h256 : (d : Bytes) → r.decode_h256 d ≢ panic

-- A value that is read is one of its Rust type.
pub record RlpRanges (r : RlpCrate) : Type 0 where
  pub decode_u64 : (d : Bytes) (n : ℕ) → r.decode_u64 d ≡ ok n → IsU64 n
  pub decode_u256 : (d : Bytes) (n : ℕ) → r.decode_u256 d ≡ ok n → IsU256 n
  pub decode_vec_u8 : (d b : Bytes) → r.decode_vec_u8 d ≡ ok b → All IsByte b
  pub decode_address : (d a : Bytes) → r.decode_address d ≡ ok a → IsArray 20 a
  pub decode_h256 : (d h : Bytes) → r.decode_h256 d ≡ ok h → IsArray 32 h

-- Items that are encoded alike, one by one.
abbrev pub SameEncodings : (Item → Bytes) → Items → Items → Type 0
SameEncodings encode nil nil = Unit
SameEncodings encode (cons x xs) (cons y ys) = (encode x ≡ encode y) × SameEncodings encode xs ys
SameEncodings encode _ _ = ⊥

-- A list is encoded by the encodings of its items, and zero alike at every width.
pub record RlpZeros (r : RlpCrate) (laws : RlpLaws r) : Type 0 where
  pub encode-same :
      (xs ys : Items)
      → SameEncodings laws.encode xs ys
      → laws.encode (list xs) ≡ laws.encode (list ys)
  pub encode-zero : laws.encode (leaf (u8 0)) ≡ laws.encode (leaf (u256 0))
