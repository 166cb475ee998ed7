-- ===== src/Transaction/Eip1559.antt =====
-- ethcore/transaction/src/transaction/eip1559.rs: transactions with a priority fee.
pub mod Codec
use mm2_parity_ethereum.Base.{
  Bytes, ℕ, ◌+◌, ◌<◌, ◌^◌, Bool, not, ◌&&◌, Result, ok, err, panic, ◌>>=◌, leb, ltb, if◌then◌else◌,
  length, first_byte, skip_byte, drop,
}
use mm2_parity_ethereum.Crates.{Crates}
use mm2_parity_ethereum.Crates.Rlp.{DecoderError}
use mm2_parity_ethereum.Crates.Rlp.Tree.{u8, u64, u256, vec_u8}
use mm2_parity_ethereum.Crates.Rlp.Stream.{RlpStream, new, begin_list, append, ◌|>◌}
use mm2_parity_ethereum.Transaction.TxType.{type2, from_u8, as_u8, tx_type_eq}
use mm2_parity_ethereum.Transaction.Action.{
  Action, rlp_append as rlp_append_action, decode as decode_action,
}
use mm2_parity_ethereum.Transaction.AccessList.{
  AccessList, rlp_append as rlp_append_access_list, decode as decode_access_list,
}
use mm2_parity_ethereum.Transaction.Error.{Error, invalid_signature}

pub record Eip1559Transaction : Type 0 where
  pub chain_id : ℕ
  pub nonce : ℕ
  pub max_fee_per_gas : ℕ
  pub max_priority_fee_per_gas : ℕ
  pub gas : ℕ
  pub action : Action
  pub value : ℕ
  pub tx_data : Bytes
  pub access_list : AccessList

-- The getters.
abbrev pub max_fee_per_gas : Eip1559Transaction → ℕ
max_fee_per_gas tx = tx.max_fee_per_gas

abbrev pub max_priority_fee_per_gas : Eip1559Transaction → ℕ
max_priority_fee_per_gas tx = tx.max_priority_fee_per_gas

abbrev pub access_list : Eip1559Transaction → AccessList
access_list tx = tx.access_list

unfoldable pub payload_size : ℕ
payload_size = 9

unfoldable pub rlp_append_unsigned_transaction : Eip1559Transaction → RlpStream → RlpStream
unfolding payload_size as_u8 rlp_append_action
rlp_append_unsigned_transaction tx s =
    s
    |> append (u8 (as_u8 type2))
    |> begin_list payload_size
    |> append (u64 tx.chain_id)
    |> append (u256 tx.nonce)
    |> append (u256 tx.max_priority_fee_per_gas)
    |> append (u256 tx.max_fee_per_gas)
    |> append (u256 tx.gas)
    |> rlp_append_action tx.action
    |> append (u256 tx.value)
    |> append (vec_u8 tx.tx_data)
    |> rlp_append_access_list tx.access_list

pub record UnverifiedEip1559Transaction : Type 0 where
  pub unsigned : Eip1559Transaction
  pub v : ℕ
  pub r : ℕ
  pub s : ℕ
  pub hash : Bytes

-- The getters, and `Deref`.
abbrev pub r : UnverifiedEip1559Transaction → ℕ
r tx = tx.r

abbrev pub s : UnverifiedEip1559Transaction → ℕ
s tx = tx.s

abbrev pub v : UnverifiedEip1559Transaction → ℕ
v tx = tx.v

abbrev pub hash : UnverifiedEip1559Transaction → Bytes
hash tx = tx.hash

abbrev pub deref : UnverifiedEip1559Transaction → Eip1559Transaction
deref tx = tx.unsigned

-- `(0..=1).contains(&v)`
unfoldable pub validate_v : ℕ → Bool
validate_v v = leb 0 v && leb v 1

-- `UnverifiedEip1559Transaction::new`
unfoldable pub new_unverified :
    Eip1559Transaction → ℕ → ℕ → ℕ → Bytes → Result Error UnverifiedEip1559Transaction
unfolding validate_v
new_unverified unsigned r s v hash =
    if not (validate_v v)
    then err (invalid_signature "invalid sig v")
    else ok (record { unsigned = unsigned; v = v; r = r; s = s; hash = hash })

-- `UnverifiedEip1559Transaction::payload_size`
unfoldable pub sealed_payload_size : ℕ
unfolding payload_size
sealed_payload_size = payload_size + 3

unfoldable pub rlp_append_sealed_transaction : UnverifiedEip1559Transaction → RlpStream → RlpStream
unfolding sealed_payload_size as_u8 rlp_append_action
rlp_append_sealed_transaction tx s =
    s
    |> append (u8 (as_u8 type2))
    |> begin_list sealed_payload_size
    |> append (u64 tx.unsigned.chain_id)
    |> append (u256 tx.unsigned.nonce)
    |> append (u256 tx.unsigned.max_priority_fee_per_gas)
    |> append (u256 tx.unsigned.max_fee_per_gas)
    |> append (u256 tx.unsigned.gas)
    |> rlp_append_action tx.unsigned.action
    |> append (u256 tx.unsigned.value)
    |> append (vec_u8 tx.unsigned.tx_data)
    |> rlp_append_access_list tx.unsigned.access_list
    |> append (u64 tx.v)
    |> append (u256 tx.r)
    |> append (u256 tx.s)

-- `Encodable`
abbrev pub rlp_append : UnverifiedEip1559Transaction → RlpStream → RlpStream
rlp_append tx s = rlp_append_sealed_transaction tx s

-- `self.v.try_into().expect(..)`, a `u64` as a `u8`.
unfoldable pub standard_v {ℓ} : {E : Type ℓ} → UnverifiedEip1559Transaction → Result E ℕ
standard_v tx = if ltb tx.v (2 ^ 8) then ok tx.v else panic

-- The trait's `set_hash`.
unfoldable pub set_hash : UnverifiedEip1559Transaction → Bytes → UnverifiedEip1559Transaction
set_hash tx hash = record tx { hash = hash }

module _ (c : Crates) where
  unfoldable pub message_hash : Eip1559Transaction → Bytes
  unfolding rlp_append_unsigned_transaction
  message_hash tx = c.keccak (c.out (rlp_append_unsigned_transaction tx new))

  -- The fields, from the list behind the type byte.
  unfoldable pub decode_fields : Bytes → Result DecoderError Eip1559Transaction
  unfolding decode_action decode_access_list
  decode_fields list = do
    chain_id ← c.item_at list 0 >>= c.decode_u64
    nonce ← c.item_at list 1 >>= c.decode_u256
    max_priority_fee_per_gas ← c.item_at list 2 >>= c.decode_u256
    max_fee_per_gas ← c.item_at list 3 >>= c.decode_u256
    gas ← c.item_at list 4 >>= c.decode_u256
    action ← c.item_at list 5 >>= decode_action c
    value ← c.item_at list 6 >>= c.decode_u256
    tx_data ← c.item_at list 7 >>= c.decode_vec_u8
    access_list ← c.item_at list 8 >>= decode_access_list c
    ok (record {
      chain_id = chain_id;
      nonce = nonce;
      max_fee_per_gas = max_fee_per_gas;
      max_priority_fee_per_gas = max_priority_fee_per_gas;
      gas = gas;
      action = action;
      value = value;
      tx_data = tx_data;
      access_list = access_list;
    })

  unfoldable pub decode_unsigned : Bytes → Result DecoderError Eip1559Transaction
  unfolding decode_fields from_u8 tx_type_eq
  decode_unsigned d = if ltb (length d) 2 then err DecoderError.rlp_is_too_short else do
    version ← first_byte d
    if not (tx_type_eq (from_u8 version) type2)
        then err (DecoderError.custom "bad tx version")
        else (do list ← skip_byte d; decode_fields list)

  unfoldable pub decode : Bytes → Result DecoderError UnverifiedEip1559Transaction
  unfolding decode_unsigned payload_size validate_v
  decode d = do
    unsigned ← decode_unsigned d
    let hash = c.keccak d
    let offset = payload_size
    list ← skip_byte d
    v ← c.item_at list offset >>= c.decode_u64
    let rest = do
      r ← c.item_at list (offset + 1) >>= c.decode_u256
      s ← c.item_at list (offset + 2) >>= c.decode_u256
      ok (record { unsigned = unsigned; v = v; r = r; s = s; hash = hash })
    if not (validate_v v) then err (DecoderError.custom "invalid sig v") else rest

  -- The trait's `compute_hash`.
  unfoldable pub compute_hash : UnverifiedEip1559Transaction → UnverifiedEip1559Transaction
  unfolding rlp_append_sealed_transaction set_hash
  compute_hash tx = set_hash tx (c.keccak (c.out (rlp_append_sealed_transaction tx new)))
