-- ===== src/Crates/Rlp/Fields.antt =====
-- Reading a field of a serialised list, and the bytes of a stream that holds one item.
use mathlib.Core.List.{append-nil}
use mm2_parity_ethereum.Base.{
  Bytes, IsByte, IsU64, IsU256, All, ℕ, ◌<◌, ◌≤◌, ◌≡◌, sym, ap, ◌∙◌, List, ◌∷◌, some, ok, ◌>>=◌,
  arith,
}
use mm2_parity_ethereum.Crates.Rlp.{RlpCrate, RlpLaws}
use mm2_parity_ethereum.Crates.Rlp.Tree.{
  Item, Items, Call, leaf, list, nil, cons, u8, u64, u256, vec_u8, calls, IsItem, AreItems,
  get_item?,
}

module _ (r : RlpCrate) (laws : RlpLaws r) where
  module _ (xs : Items) (items : AreItems xs) (i : ℕ) where
    pub item_at-u64 :
        (n : ℕ)
        → IsU64 n
        → get_item? xs i ≡ some (leaf (u64 n))
        → (r.item_at (laws.encode (list xs)) i >>= r.decode_u64) ≡ ok n
    item_at-u64 n h e = rw (laws.item_at-list xs i (leaf (u64 n)) items e) (laws.decode_u64_lem n h)

    pub item_at-u256 :
        (n : ℕ)
        → IsU256 n
        → get_item? xs i ≡ some (leaf (u256 n))
        → (r.item_at (laws.encode (list xs)) i >>= r.decode_u256) ≡ ok n
    item_at-u256 n h e =
        rw (laws.item_at-list xs i (leaf (u256 n)) items e) (laws.decode_u256_lem n h)

    pub item_at-vec_u8 :
        (b : Bytes)
        → All IsByte b
        → get_item? xs i ≡ some (leaf (vec_u8 b))
        → (r.item_at (laws.encode (list xs)) i >>= r.decode_vec_u8) ≡ ok b
    item_at-vec_u8 b h e =
        rw (laws.item_at-list xs i (leaf (vec_u8 b)) items e) (laws.decode_vec_u8_lem b h)

  pub out-calls : (x : Item) → IsItem x → r.out (calls x) ≡ laws.encode x
  out-calls x h =
      ap r.out (sym (append-nil (calls x)))
      ∙ laws.out-calls_all (cons x nil) (h, tt)
      ∙ rw (laws.encode_all-cons, laws.encode_all-nil, append-nil)

  -- A type byte in front of an item.
  pub out-typed :
      (b : ℕ) (x : Item)
      → 1 ≤ b
      → b < 128
      → IsItem x
      → r.out (Call.append (u8 b) ∷ calls x) ≡ b ∷ laws.encode x
  out-typed b x lo hi h =
      ap (λ (t : List Call). r.out (Call.append (u8 b) ∷ t)) (sym (append-nil (calls x)))
      ∙ laws.out-calls_all (cons (leaf (u8 b)) (cons x nil)) (omega arith, (h, tt))
      ∙ rw (
        laws.encode_all-cons,
        laws.encode_all-cons,
        laws.encode_all-nil,
        append-nil,
        laws.encode-u8 b lo hi,
      )
