-- ===== src/Transaction/Eip2930/Codec.antt =====
-- ethcore/transaction/src/transaction/eip2930.rs: the serialised form of a transaction with an access
-- list, and reading it back.
use mathlib.Core.List.{append_assoc, append-nil}
use mm2_parity_ethereum.Base.{
  arith, ◌≤◌, ◌∷◌, IsByte, IsU64, IsU256, All, ◌≡◌, refl, ap, ◌∙◌, ◌++◌, ok,
}
use mm2_parity_ethereum.Crates.{Crates}
use mm2_parity_ethereum.Crates.Rlp.{RlpLaws}
use mm2_parity_ethereum.Crates.Rlp.Tree.{
  Item, Items, leaf, list, nil, cons, u8, u64, u256, vec_u8, calls, AreItems, IsItem, IsValue, Call,
}
use mm2_parity_ethereum.Crates.Rlp.Stream.{RlpStream, new}
use mm2_parity_ethereum.Crates.Rlp.Fields.{item_at-u64, item_at-u256, item_at-vec_u8, out-typed}
use mm2_parity_ethereum.Transaction.Action.Codec.{
  IsAction, action_value, action_value-IsValue, decode-action_value,
  rlp_append_lem as append-action,
}
use mm2_parity_ethereum.Transaction.TxType.{as_u8, from_u8, tx_type_eq}
use mm2_parity_ethereum.Transaction.AccessList.Codec.{
  IsAccessListItem, access_list_item, access_list_item-IsItem, decode-access_list_item,
  rlp_append_lem as append-access_list,
}
use mm2_parity_ethereum.Transaction.Eip2930.{
  Eip2930Transaction, UnverifiedEip2930Transaction, payload_size, sealed_payload_size, validate_v,
  rlp_append_unsigned_transaction, rlp_append_sealed_transaction, decode_fields, decode_unsigned,
  decode, compute_hash,
}

-- The ranges of the Rust types; `v` is a parity, since both constructors validate it.
pub record IsEip2930 (tx : Eip2930Transaction) : Type 0 where
  pub chain_id : IsU64 tx.chain_id
  pub nonce : IsU256 tx.nonce
  pub gas_price : IsU256 tx.gas_price
  pub gas : IsU256 tx.gas
  pub action : IsAction tx.action
  pub value : IsU256 tx.value
  pub tx_data : All IsByte tx.tx_data
  pub access_list : All IsAccessListItem tx.access_list

pub record IsUnverifiedEip2930 (tx : UnverifiedEip2930Transaction) : Type 0 where
  pub unsigned : IsEip2930 tx.unsigned
  pub v : tx.v ≤ 1
  pub r : IsU256 tx.r
  pub s : IsU256 tx.s

-- The eight fields, in front of `rest`.
abbrev pub fields : Eip2930Transaction → Items → Items
fields tx rest = cons (leaf (u64 tx.chain_id)) (
    cons (leaf (u256 tx.nonce)) (
      cons (leaf (u256 tx.gas_price)) (
        cons (leaf (u256 tx.gas)) (
          cons (leaf (action_value tx.action)) (
            cons (leaf (u256 tx.value))
              (cons (leaf (vec_u8 tx.tx_data)) (cons (access_list_item tx.access_list) rest)))))))

abbrev pub unsigned_item : Eip2930Transaction → Item
unsigned_item tx = list (fields tx nil)

abbrev pub signature_fields : UnverifiedEip2930Transaction → Items → Items
signature_fields tx more =
    cons (leaf (u64 tx.v)) (cons (leaf (u256 tx.r)) (cons (leaf (u256 tx.s)) more))

-- The fields of a signed transaction, in front of `more`.
abbrev pub sealed_fields_and : UnverifiedEip2930Transaction → Items → Items
sealed_fields_and tx more = fields tx.unsigned (signature_fields tx more)

abbrev pub sealed_fields : UnverifiedEip2930Transaction → Items
sealed_fields tx = sealed_fields_and tx nil

pub fields-AreItems :
    (tx : Eip2930Transaction) (rest : Items)
    → IsEip2930 tx
    → AreItems rest
    → AreItems (fields tx rest)
fields-AreItems tx rest h k =
    let access_list : IsItem (access_list_item tx.access_list) =
      access_list_item-IsItem tx.access_list h.access_list in
    let action : IsValue (action_value tx.action) = action_value-IsValue tx.action h.action in
    (
      h.chain_id,
      (h.nonce, (h.gas_price, (h.gas, (action, (h.value, (h.tx_data, (access_list, k))))))),
    )

pub sealed_fields_and-AreItems :
    (tx : UnverifiedEip2930Transaction) (more : Items)
    → IsUnverifiedEip2930 tx
    → AreItems more
    → AreItems (sealed_fields_and tx more)
sealed_fields_and-AreItems tx more h k =
    fields-AreItems tx.unsigned (signature_fields tx more) h.unsigned
      (omega (arith, h.v), (h.r, (h.s, k)))

-- The type byte comes first, and then a list of as many fields as `begin_list` announces.
pub rlp_append_unsigned_transaction_lem :
    (tx : Eip2930Transaction) (s : RlpStream)
    → rlp_append_unsigned_transaction tx s ≡ s ++ Call.append (u8 1) ∷ calls (unsigned_item tx)
unfolding rlp_append_unsigned_transaction payload_size as_u8
rlp_append_unsigned_transaction_lem tx s =
    simp (append-action, append-access_list, append_assoc, append-nil)

pub rlp_append_sealed_transaction_lem :
    (tx : UnverifiedEip2930Transaction) (s : RlpStream)
    → rlp_append_sealed_transaction tx s ≡ s ++ Call.append (u8 1) ∷ calls (list (sealed_fields tx))
unfolding rlp_append_sealed_transaction sealed_payload_size as_u8
rlp_append_sealed_transaction_lem tx s = simp (append-action, append-access_list, append_assoc)

module _ (c : Crates) (laws : RlpLaws c.rlp) where
  pub decode_fields-fields :
      (tx : Eip2930Transaction) (rest : Items)
      → IsEip2930 tx
      → AreItems (fields tx rest)
      → decode_fields c (laws.encode (list (fields tx rest))) ≡ ok tx
  unfolding decode_fields
  decode_fields-fields tx rest h items =
      let xs : Items = fields tx rest in
      rw (
        item_at-u64 c.rlp laws xs items 0 tx.chain_id h.chain_id refl,
        item_at-u256 c.rlp laws xs items 1 tx.nonce h.nonce refl,
        item_at-u256 c.rlp laws xs items 2 tx.gas_price h.gas_price refl,
        item_at-u256 c.rlp laws xs items 3 tx.gas h.gas refl,
        laws.item_at-list xs 4 (leaf (action_value tx.action)) items refl,
        decode-action_value c laws tx.action h.action,
        item_at-u256 c.rlp laws xs items 5 tx.value h.value refl,
        item_at-vec_u8 c.rlp laws xs items 6 tx.tx_data h.tx_data refl,
        laws.item_at-list xs 7 (access_list_item tx.access_list) items refl,
        decode-access_list_item c laws tx.access_list h.access_list,
      )

  -- Behind the type byte a list is never empty.
  pub decode_unsigned-typed :
      (xs : Items)
      → AreItems xs
      → decode_unsigned c (1 ∷ laws.encode (list xs)) ≡ decode_fields c (laws.encode (list xs))
  unfolding decode_unsigned from_u8 tx_type_eq
  decode_unsigned-typed xs items =
      let (b, bs, e, _) = laws.encode-list xs items in rw e (ground arith)

  -- Fields behind the signature's are not looked at, but they count for the hash.
  pub decode-fields :
      (tx : UnverifiedEip2930Transaction) (more : Items)
      → IsUnverifiedEip2930 tx
      → AreItems more
      → decode c (1 ∷ laws.encode (list (sealed_fields_and tx more)))
        ≡ ok (record tx { hash = c.keccak (1 ∷ laws.encode (list (sealed_fields_and tx more))) })
  unfolding decode payload_size validate_v
  decode-fields tx more h k =
      let xs : Items = sealed_fields_and tx more in
      let items : AreItems xs = sealed_fields_and-AreItems tx more h k in
      rw
        (
          decode_unsigned-typed xs items,
          decode_fields-fields tx.unsigned (signature_fields tx more) h.unsigned items,
          item_at-u64 c.rlp laws xs items 8 tx.v (omega (arith, h.v)) refl,
          item_at-u256 c.rlp laws xs items 9 tx.r h.r refl,
          item_at-u256 c.rlp laws xs items 10 tx.s h.s refl,
        )
        (ground (arith, h.v))

  pub out-rlp_append_sealed_transaction :
      (tx : UnverifiedEip2930Transaction)
      → IsUnverifiedEip2930 tx
      → c.out (rlp_append_sealed_transaction tx new) ≡ 1 ∷ laws.encode (list (sealed_fields tx))
  out-rlp_append_sealed_transaction tx h =
      ap c.out (rlp_append_sealed_transaction_lem tx new)
      ∙ out-typed c.rlp laws 1 (list (sealed_fields tx)) (omega arith) (omega arith)
          (sealed_fields_and-AreItems tx nil h tt)

  -- A serialised transaction decodes to itself, with its hash set.
  pub decode-rlp_append_sealed_transaction :
      (tx : UnverifiedEip2930Transaction)
      → IsUnverifiedEip2930 tx
      → decode c (c.out (rlp_append_sealed_transaction tx new)) ≡ ok (compute_hash c tx)
  unfolding compute_hash
  decode-rlp_append_sealed_transaction tx h =
      rw (out-rlp_append_sealed_transaction tx h) (decode-fields tx nil h tt)

  -- The bytes that are signed.
  pub out-rlp_append_unsigned_transaction :
      (tx : Eip2930Transaction)
      → IsEip2930 tx
      → c.out (rlp_append_unsigned_transaction tx new) ≡ 1 ∷ laws.encode (unsigned_item tx)
  out-rlp_append_unsigned_transaction tx h =
      ap c.out (rlp_append_unsigned_transaction_lem tx new)
      ∙ out-typed c.rlp laws 1 (unsigned_item tx) (omega arith) (omega arith)
          (fields-AreItems tx nil h tt)
