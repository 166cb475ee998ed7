-- ===== src/Transaction/Legacy/Codec/Fields.antt =====
-- ethcore/transaction/src/transaction/legacy.rs: the items that a legacy transaction is
-- serialised as.
use mathlib.Core.List.{append_assoc}
use mm2_parity_ethereum.Base.{arith, IsByte, IsU64, IsU256, All, ℕ, ◌≡◌, Option, none, some, ◌++◌}
use mm2_parity_ethereum.Crates.Rlp.Tree.{
  Item, Items, leaf, list, nil, cons, u8, u64, u256, vec_u8, calls, AreItems,
}
use mm2_parity_ethereum.Crates.Rlp.Stream.{RlpStream}
use mm2_parity_ethereum.Transaction.Action.Codec.{
  IsAction, action_value, action_value-IsValue, rlp_append_lem as append-action,
}
use mm2_parity_ethereum.Transaction.Legacy.{
  LegacyTransaction, UnverifiedLegacyTransaction, payload_size, append_chain_id,
  rlp_append_unsigned_transaction, rlp_append_sealed_transaction,
}

-- The ranges of the Rust types.
pub record IsLegacy (tx : LegacyTransaction) : Type 0 where
  pub nonce : IsU256 tx.nonce
  pub gas_price : IsU256 tx.gas_price
  pub gas : IsU256 tx.gas
  pub action : IsAction tx.action
  pub value : IsU256 tx.value
  pub tx_data : All IsByte tx.tx_data

pub record IsUnverifiedLegacy (tx : UnverifiedLegacyTransaction) : Type 0 where
  pub unsigned : IsLegacy tx.unsigned
  pub network_v : IsU64 tx.network_v
  pub r : IsU256 tx.r
  pub s : IsU256 tx.s

-- The six fields, in front of `rest`.
abbrev pub fields : LegacyTransaction → Items → Items
fields tx rest = cons (leaf (u256 tx.nonce)) (
    cons (leaf (u256 tx.gas_price)) (
      cons (leaf (u256 tx.gas)) (
        cons (leaf (action_value tx.action))
          (cons (leaf (u256 tx.value)) (cons (leaf (vec_u8 tx.tx_data)) rest)))))

abbrev pub replay_protection : Option ℕ → Items
replay_protection none = nil
replay_protection (some n) = cons (leaf (u64 n)) (cons (leaf (u8 0)) (cons (leaf (u8 0)) nil))

abbrev pub unsigned_fields : LegacyTransaction → Option ℕ → Items
unsigned_fields tx chain_id = fields tx (replay_protection chain_id)

abbrev pub unsigned_item : LegacyTransaction → Option ℕ → Item
unsigned_item tx chain_id = list (unsigned_fields tx chain_id)

abbrev pub signature_fields : UnverifiedLegacyTransaction → Items
signature_fields tx =
    cons (leaf (u64 tx.network_v)) (cons (leaf (u256 tx.r)) (cons (leaf (u256 tx.s)) nil))

abbrev pub sealed_fields : UnverifiedLegacyTransaction → Items
sealed_fields tx = fields tx.unsigned (signature_fields tx)

pub fields-AreItems :
    (tx : LegacyTransaction) (rest : Items)
    → IsLegacy tx
    → AreItems rest
    → AreItems (fields tx rest)
fields-AreItems tx rest h k = (
  h.nonce,
  (h.gas_price, (h.gas, (action_value-IsValue tx.action h.action, (h.value, (h.tx_data, k))))),
)

pub sealed_fields-AreItems :
    (tx : UnverifiedLegacyTransaction) → IsUnverifiedLegacy tx → AreItems (sealed_fields tx)
sealed_fields-AreItems tx h =
    fields-AreItems tx.unsigned (signature_fields tx) h.unsigned (h.network_v, (h.r, (h.s, tt)))

abbrev pub IsChainId : Option ℕ → Type 0
IsChainId none = Unit
IsChainId (some n) = IsU64 n

pub unsigned_fields-AreItems :
    (tx : LegacyTransaction) (chain_id : Option ℕ)
    → IsLegacy tx
    → IsChainId chain_id
    → AreItems (unsigned_fields tx chain_id)
unsigned_fields-AreItems tx none h k = fields-AreItems tx nil h tt
unsigned_fields-AreItems tx (some n) h k =
    fields-AreItems tx (replay_protection (some n)) h (k, (omega arith, (omega arith, tt)))

-- What is appended for the signature is one whole list: `begin_list` announces as many items as
-- follow, with and without a chain id.
pub rlp_append_unsigned_transaction_lem :
    (tx : LegacyTransaction) (chain_id : Option ℕ) (s : RlpStream)
    → rlp_append_unsigned_transaction tx chain_id s ≡ s ++ calls (unsigned_item tx chain_id)
unfolding rlp_append_unsigned_transaction payload_size append_chain_id
rlp_append_unsigned_transaction_lem tx none s = simp (append-action, append_assoc)
rlp_append_unsigned_transaction_lem tx (some n) s = simp (append-action, append_assoc)

pub rlp_append_sealed_transaction_lem :
    (tx : UnverifiedLegacyTransaction) (s : RlpStream)
    → rlp_append_sealed_transaction tx s ≡ s ++ calls (list (sealed_fields tx))
unfolding rlp_append_sealed_transaction
rlp_append_sealed_transaction_lem tx s = simp (append-action, append_assoc)
