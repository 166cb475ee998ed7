-- ===== src/Transaction/AccessList/Codec.antt =====
-- ethcore/transaction/src/transaction/eip2930.rs: what an access list appends, and reading it back.
use mathlib.Core.List.{append_assoc, append-nil}
use mm2_parity_ethereum.Base.{Bytes, IsArray, All, ◌≡◌, refl, ◌++◌, ok}
use mm2_parity_ethereum.Crates.{Crates}
use mm2_parity_ethereum.Crates.Rlp.{RlpLaws}
use mm2_parity_ethereum.Crates.Rlp.Tree.{
  Value, Item, Items, leaf, list, nil, cons, calls, IsItem, AreItems,
}
use mm2_parity_ethereum.Crates.Rlp.Stream.{
  RlpStream, append_each_lem, items_of, length-items_of, items_of-AreItems, decode_each-items_of,
}
use mm2_parity_ethereum.Transaction.AccessList.{
  AccessListItem, AccessList, rlp_append_item, rlp_append, decode_item, decode,
}

-- An account has twenty bytes and a storage key has 32.
abbrev pub IsAccessListItem : AccessListItem → Type 0
IsAccessListItem x = IsArray 20 x.address × All (IsArray 32) x.storage_keys

abbrev pub key_item : Bytes → Item
key_item key = leaf (Value.h256 key)

abbrev pub item_item : AccessListItem → Item
item_item x =
    list
      (cons (leaf (Value.address x.address)) (cons (list (items_of key_item x.storage_keys)) nil))

abbrev pub access_list_item : AccessList → Item
access_list_item xs = list (items_of item_item xs)

item_item-IsItem : (x : AccessListItem) → IsAccessListItem x → IsItem (item_item x)
item_item-IsItem x (ha, hk) = (ha, (items_of-AreItems key_item (λ k h. h) x.storage_keys hk, tt))

pub access_list_item-IsItem :
    (xs : AccessList) → All IsAccessListItem xs → IsItem (access_list_item xs)
access_list_item-IsItem xs h = items_of-AreItems item_item item_item-IsItem xs h

rlp_append_item_lem :
    (x : AccessListItem) (s : RlpStream) → rlp_append_item x s ≡ s ++ calls (item_item x)
unfolding rlp_append_item
rlp_append_item_lem x s =
    rw (append_each_lem _ key_item (λ k t. refl), length-items_of key_item x.storage_keys)
      (simp (append_assoc, append-nil))

pub rlp_append_lem :
    (xs : AccessList) (s : RlpStream) → rlp_append xs s ≡ s ++ calls (access_list_item xs)
unfolding rlp_append
rlp_append_lem xs s =
    rw (append_each_lem _ item_item rlp_append_item_lem, length-items_of item_item xs, append_assoc)

module _ (c : Crates) (laws : RlpLaws c.rlp) where
  decode_item_lem :
      (x : AccessListItem) → IsAccessListItem x → decode_item c (laws.encode (item_item x)) ≡ ok x
  unfolding decode_item
  decode_item_lem x (ha, hk) =
      let keys : Item = list (items_of key_item x.storage_keys) in
      let fields : Items = cons (leaf (Value.address x.address)) (cons keys nil) in
      let ok_keys : IsItem keys = items_of-AreItems key_item (λ k h. h) x.storage_keys hk in
      let ok_fields : AreItems fields = (ha, (ok_keys, tt)) in
      rw (
        laws.item_at-list fields 0 (leaf (Value.address x.address)) ok_fields refl,
        laws.decode_address_lem x.address ha,
        laws.item_at-list fields 1 keys ok_fields refl,
        laws.item_count-list (items_of key_item x.storage_keys) ok_keys,
        length-items_of key_item x.storage_keys,
        decode_each-items_of c.rlp laws key_item c.decode_h256 laws.decode_h256_lem x.storage_keys
            ok_keys hk,
      )

  -- The encoding of an access list of valid fields, as a list of pairs of an address and the list of
  -- its keys, decodes to the access list.
  pub decode-access_list_item :
      (xs : AccessList)
      → All IsAccessListItem xs
      → decode c (laws.encode (access_list_item xs)) ≡ ok xs
  unfolding decode
  decode-access_list_item xs h =
      let items : AreItems (items_of item_item xs) = access_list_item-IsItem xs h in
      rw (laws.item_count-list (items_of item_item xs) items, length-items_of item_item xs)
        (decode_each-items_of c.rlp laws item_item (decode_item c) decode_item_lem xs items h)
