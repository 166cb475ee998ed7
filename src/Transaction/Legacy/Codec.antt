-- ===== src/Transaction/Legacy/Codec.antt =====
-- ethcore/transaction/src/transaction/legacy.rs: the serialised form of a legacy transaction, and
-- reading it back.
mod Fields
pub use Fields.*
use mathlib.Core.List.{append_assoc}
use mm2_parity_ethereum.Base.{
  arith, IsByte, IsU64, IsU256, All, ℕ, ◌≡◌, refl, ap, ◌∙◌, Option, none, some, ◌++◌, ok, ◌>>=◌,
}
use mm2_parity_ethereum.Crates.{Crates}
use mm2_parity_ethereum.Crates.Rlp.{RlpLaws}
use mm2_parity_ethereum.Crates.Rlp.Tree.{
  Item, Items, leaf, list, nil, cons, u8, u64, u256, vec_u8, calls, AreItems,
}
use mm2_parity_ethereum.Crates.Rlp.Stream.{RlpStream, new}
use mm2_parity_ethereum.Crates.Rlp.Fields.{item_at-u64, item_at-u256, item_at-vec_u8, out-calls}
use mm2_parity_ethereum.Transaction.Action.Codec.{
  IsAction, action_value, action_value-IsValue, decode-action_value,
  rlp_append_lem as append-action,
}
use mm2_parity_ethereum.Transaction.Legacy.{
  LegacyTransaction, UnverifiedLegacyTransaction, payload_size, append_chain_id,
  rlp_append_unsigned_transaction, rlp_append_sealed_transaction, decode_unsigned, decode,
  compute_hash,
}

module _ (c : Crates) (laws : RlpLaws c.rlp) where
  pub decode_unsigned-fields :
      (tx : LegacyTransaction) (rest : Items)
      → IsLegacy tx
      → AreItems (fields tx rest)
      → decode_unsigned c (laws.encode (list (fields tx rest))) ≡ ok tx
  unfolding decode_unsigned
  decode_unsigned-fields tx rest h items =
      let xs : Items = fields tx rest in
      rw (
        item_at-u256 c.rlp laws xs items 0 tx.nonce h.nonce refl,
        item_at-u256 c.rlp laws xs items 1 tx.gas_price h.gas_price refl,
        item_at-u256 c.rlp laws xs items 2 tx.gas h.gas refl,
        laws.item_at-list xs 3 (leaf (action_value tx.action)) items refl,
        decode-action_value c laws tx.action h.action,
        item_at-u256 c.rlp laws xs items 4 tx.value h.value refl,
        item_at-vec_u8 c.rlp laws xs items 5 tx.tx_data h.tx_data refl,
      )

  pub decode-sealed_fields :
      (tx : UnverifiedLegacyTransaction)
      → IsUnverifiedLegacy tx
      → decode c (laws.encode (list (sealed_fields tx)))
        ≡ ok (record tx { hash = c.keccak (laws.encode (list (sealed_fields tx))) })
  unfolding decode
  decode-sealed_fields tx h =
      let xs : Items = sealed_fields tx in
      let items : AreItems xs = sealed_fields-AreItems tx h in
      rw (
        laws.item_count-list xs items,
        decode_unsigned-fields tx.unsigned (signature_fields tx) h.unsigned items,
        item_at-u64 c.rlp laws xs items 6 tx.network_v h.network_v refl,
        item_at-u256 c.rlp laws xs items 7 tx.r h.r refl,
        item_at-u256 c.rlp laws xs items 8 tx.s h.s refl,
      )

  pub out-rlp_append_sealed_transaction :
      (tx : UnverifiedLegacyTransaction)
      → IsUnverifiedLegacy tx
      → c.out (rlp_append_sealed_transaction tx new) ≡ laws.encode (list (sealed_fields tx))
  out-rlp_append_sealed_transaction tx h =
      ap c.out (rlp_append_sealed_transaction_lem tx new)
      ∙ out-calls c.rlp laws (list (sealed_fields tx)) (sealed_fields-AreItems tx h)

  -- A serialised transaction decodes to itself, with its hash set.
  pub decode-rlp_append_sealed_transaction :
      (tx : UnverifiedLegacyTransaction)
      → IsUnverifiedLegacy tx
      → decode c (c.out (rlp_append_sealed_transaction tx new)) ≡ ok (compute_hash c tx)
  unfolding compute_hash
  decode-rlp_append_sealed_transaction tx h =
      rw (out-rlp_append_sealed_transaction tx h) (decode-sealed_fields tx h)

  -- The bytes that are signed.
  pub out-rlp_append_unsigned_transaction :
      (tx : LegacyTransaction) (chain_id : Option ℕ)
      → IsLegacy tx
      → IsChainId chain_id
      → c.out (rlp_append_unsigned_transaction tx chain_id new)
        ≡ laws.encode (unsigned_item tx chain_id)
  out-rlp_append_unsigned_transaction tx chain_id h k =
      ap c.out (rlp_append_unsigned_transaction_lem tx chain_id new)
      ∙ out-calls c.rlp laws (unsigned_item tx chain_id) (unsigned_fields-AreItems tx chain_id h k)

  unsigned_item-count :
      (tx : LegacyTransaction) (chain_id : Option ℕ)
      → IsLegacy tx
      → IsChainId chain_id
      → c.item_count (laws.encode (unsigned_item tx chain_id)) ≡ ok (payload_size chain_id)
  unfolding payload_size
  unsigned_item-count tx none h k =
      laws.item_count-list (fields tx nil) (fields-AreItems tx nil h tt)
  unsigned_item-count tx (some n) h k =
      laws.item_count-list (fields tx (replay_protection (some n)))
        (unsigned_fields-AreItems tx (some n) h k)

  unsigned_item-chain_id :
      (tx : LegacyTransaction) (n : ℕ)
      → IsLegacy tx
      → IsU64 n
      → (c.item_at (laws.encode (unsigned_item tx (some n))) 6 >>= c.decode_u64) ≡ ok n
  unsigned_item-chain_id tx n h k =
      item_at-u64 c.rlp laws (fields tx (replay_protection (some n)))
        (unsigned_fields-AreItems tx (some n) h k) 6 n k refl

  -- The chain id is read back from the number of fields and the seventh of them.
  pub encode-unsigned_item-chain_id :
      (tx tx' : LegacyTransaction) (chain_id chain_id' : Option ℕ)
      → IsLegacy tx
      → IsLegacy tx'
      → IsChainId chain_id
      → IsChainId chain_id'
      → laws.encode (unsigned_item tx chain_id) ≡ laws.encode (unsigned_item tx' chain_id')
      → chain_id ≡ chain_id'
  unfolding payload_size
  encode-unsigned_item-chain_id tx tx' none none h h' k k' e = refl
  encode-unsigned_item-chain_id tx tx' none (some m) h h' k k' e =
      cc
        (unsigned_item-count tx none h k, unsigned_item-count tx' (some m) h' k', ap c.item_count e)
  encode-unsigned_item-chain_id tx tx' (some n) none h h' k k' e =
      cc
        (unsigned_item-count tx (some n) h k, unsigned_item-count tx' none h' k', ap c.item_count e)
  encode-unsigned_item-chain_id tx tx' (some n) (some m) h h' k k' e = cc (
    unsigned_item-chain_id tx n h k,
    unsigned_item-chain_id tx' m h' k',
    ap (λ b. c.item_at b 6 >>= c.decode_u64) e,
  )
