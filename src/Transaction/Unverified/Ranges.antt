-- ===== src/Transaction/Unverified/Ranges.antt =====
-- ethcore/transaction/src: a field that is decoded has a value of its Rust type.
pub mod Kinds
use mm2_parity_ethereum.Base.{
  Bytes, IsByte, IsArray, IsU64, IsU256, All, ℕ, zero, suc, ◌+◌, ◌≤◌, ◌≡◌, refl, sym, ◌∙◌, subst,
  true, false, List, [], ◌∷◌, ◌++◌, Result, ok, err, panic, ◌>>=◌, >>=-eq-ok, ok-injective, arith,
  All-append,
}
use mm2_parity_ethereum.Crates.{Crates}
use mm2_parity_ethereum.Crates.Rlp.{RlpRanges, DecoderError}
use mm2_parity_ethereum.Crates.Rlp.Stream.{decode_each}
use mm2_parity_ethereum.Transaction.Action as Action
use mm2_parity_ethereum.Transaction.Action.Codec.{IsAction}
use mm2_parity_ethereum.Transaction.AccessList as AccessList
use mm2_parity_ethereum.Transaction.AccessList.Codec.{IsAccessListItem}

module _ (c : Crates) (ranges : RlpRanges c.rlp) where
  pub val_at-IsU64 : (d : Bytes) (i n : ℕ) → (c.item_at d i >>= c.decode_u64) ≡ ok n → IsU64 n
  val_at-IsU64 d i n e =
      let (item, _, read) = >>=-eq-ok (c.item_at d i) c.decode_u64 e in
      ranges.decode_u64 item n read

  pub val_at-IsU256 : (d : Bytes) (i n : ℕ) → (c.item_at d i >>= c.decode_u256) ≡ ok n → IsU256 n
  val_at-IsU256 d i n e =
      let (item, _, read) = >>=-eq-ok (c.item_at d i) c.decode_u256 e in
      ranges.decode_u256 item n read

  pub val_at-All :
      (d : Bytes) (i : ℕ) (b : Bytes) → (c.item_at d i >>= c.decode_vec_u8) ≡ ok b → All IsByte b
  val_at-All d i b e =
      let (item, _, read) = >>=-eq-ok (c.item_at d i) c.decode_vec_u8 e in
      ranges.decode_vec_u8 item b read

  -- What holds of each item that is read holds of all.
  decode_each-All {κ} :
      {A : Type 0} (P : A → Type κ) (decode_one : Bytes → Result DecoderError A)
      → ((d : Bytes) (x : A) → decode_one d ≡ ok x → P x)
      → (d : Bytes) (rounds i : ℕ) (before items : List A) → All P before
      → decode_each c.rlp decode_one d rounds i before ≡ ok items
      → All P items
  unfolding decode_each
  decode_each-All P decode_one h d zero i before items all e = subst (All P) (ok-injective e) all
  decode_each-All P decode_one h d (suc rounds) i before items all e =
      let (item, _, rest) = >>=-eq-ok (c.item_at d i) _ e in
      let (x, read, rest') = >>=-eq-ok (decode_one item) _ rest in
      decode_each-All P decode_one h d rounds (i + 1) (before ++ x ∷ []) items
        (All-append P before (x ∷ []) all (h item x read, tt)) rest'

  pub val_at-IsAction :
      (d : Bytes) (i : ℕ) (a : Action.Action)
      → (c.item_at d i >>= Action.decode c) ≡ ok a
      → IsAction a
  unfolding Action.decode
  val_at-IsAction d i Action.create e = tt
  val_at-IsAction d i (Action.call a) e =
      let (item, _, read) = >>=-eq-ok (c.item_at d i) (Action.decode c) e in
      ground (arith, ranges.decode_address item a)

  decode_item-IsAccessListItem :
      (d : Bytes) (x : AccessList.AccessListItem)
      → AccessList.decode_item c d ≡ ok x
      → IsAccessListItem x
  unfolding AccessList.decode_item
  decode_item-IsAccessListItem d x e =
      let (address_rlp, _, e1) = >>=-eq-ok (c.item_at d 0) _ e in
      let (address, read, e2) = >>=-eq-ok (c.decode_address address_rlp) _ e1 in
      let (keys_rlp, _, e3) = >>=-eq-ok (c.item_at d 1) _ e2 in
      let (n, _, e4) = >>=-eq-ok (c.item_count keys_rlp) _ e3 in
      let (keys, each, e5) = >>=-eq-ok (decode_each c.rlp c.decode_h256 keys_rlp n 0 []) _ e4 in
      subst IsAccessListItem (ok-injective e5) (
        ranges.decode_address address_rlp address read,
        decode_each-All (IsArray 32) c.decode_h256 ranges.decode_h256 keys_rlp n 0 [] keys tt each,
      )

  pub access_list-All :
      (d : Bytes) (i : ℕ) (xs : AccessList.AccessList)
      → (c.item_at d i >>= AccessList.decode c) ≡ ok xs
      → All IsAccessListItem xs
  unfolding AccessList.decode
  access_list-All d i xs e =
      let (item, _, e1) = >>=-eq-ok (c.item_at d i) (AccessList.decode c) e in
      let (n, _, e2) = >>=-eq-ok (c.item_count item) _ e1 in
      decode_each-All IsAccessListItem (AccessList.decode_item c) decode_item-IsAccessListItem item
        n 0 [] xs tt e2
