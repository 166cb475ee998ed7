-- ===== src/Transaction/Legacy.antt =====
-- ethcore/transaction/src/transaction/legacy.rs: legacy transactions.
pub mod Codec
use mm2_parity_ethereum.Base.{
  Bytes, ℕ, ◌+◌, ◌≤◌, Bool, not, ◌&&◌, Option, none, some, Result, ok, err, ◌>>=◌, leb, ◌==◌,
  if◌then◌else◌,
}
use mm2_parity_ethereum.Crates.{Crates}
use mm2_parity_ethereum.Crates.Rlp.{DecoderError}
use mm2_parity_ethereum.Crates.Rlp.Tree.{u8, u64, u256, vec_u8}
use mm2_parity_ethereum.Crates.Rlp.Stream.{RlpStream, new, begin_list, append, ◌|>◌}
use mm2_parity_ethereum.Transaction.Action.{
  Action, rlp_append as rlp_append_action, decode as decode_action,
}
use mm2_parity_ethereum.Transaction.Error.{Error, invalid_signature}
use mm2_parity_ethereum.Transaction.Eip155.{add_chain_replay_protection, check_replay_protection}

pub record LegacyTransaction : Type 0 where
  pub nonce : ℕ
  pub gas_price : ℕ
  pub gas : ℕ
  pub action : Action
  pub value : ℕ
  pub tx_data : Bytes

-- The getters.
abbrev pub gas_price : LegacyTransaction → ℕ
gas_price tx = tx.gas_price

unfoldable pub payload_size : Option ℕ → ℕ
payload_size none = 6
payload_size (some _) = 9

-- `if let Some(n) = chain_id`
unfoldable pub append_chain_id : Option ℕ → RlpStream → RlpStream
append_chain_id (some n) s = s |> append (u64 n) |> append (u8 0) |> append (u8 0)
append_chain_id none s = s

unfoldable pub rlp_append_unsigned_transaction :
    LegacyTransaction → Option ℕ → RlpStream → RlpStream
unfolding payload_size append_chain_id rlp_append_action
rlp_append_unsigned_transaction tx chain_id s =
    s
    |> begin_list (payload_size chain_id)
    |> append (u256 tx.nonce)
    |> append (u256 tx.gas_price)
    |> append (u256 tx.gas)
    |> rlp_append_action tx.action
    |> append (u256 tx.value)
    |> append (vec_u8 tx.tx_data)
    |> append_chain_id chain_id

pub record UnverifiedLegacyTransaction : Type 0 where
  pub unsigned : LegacyTransaction
  pub network_v : ℕ
  pub r : ℕ
  pub s : ℕ
  pub hash : Bytes

-- The getters, and `Deref`.
abbrev pub r : UnverifiedLegacyTransaction → ℕ
r tx = tx.r

abbrev pub s : UnverifiedLegacyTransaction → ℕ
s tx = tx.s

abbrev pub v : UnverifiedLegacyTransaction → ℕ
v tx = tx.network_v

abbrev pub hash : UnverifiedLegacyTransaction → Bytes
hash tx = tx.hash

abbrev pub deref : UnverifiedLegacyTransaction → LegacyTransaction
deref tx = tx.unsigned

abbrev pub to_network_v : ℕ → Option ℕ → ℕ
to_network_v v chain_id = add_chain_replay_protection v chain_id

-- `(0..=1).contains(&v)`
unfoldable pub validate_v : ℕ → Bool
validate_v v = leb 0 v && leb v 1

unfoldable pub new_with_chain_id :
    LegacyTransaction → ℕ → ℕ → ℕ → Option ℕ → Bytes → Result Error UnverifiedLegacyTransaction
unfolding validate_v add_chain_replay_protection
new_with_chain_id unsigned r s v chain_id hash =
    if not (validate_v v)
    then err (invalid_signature "invalid sig v")
    else ok (record {
      unsigned = unsigned;
      network_v = to_network_v v chain_id;
      r = r;
      s = s;
      hash = hash;
    })

unfoldable pub new_with_network_v :
    LegacyTransaction → ℕ → ℕ → ℕ → Bytes → Result Error UnverifiedLegacyTransaction
new_with_network_v unsigned r s network_v hash =
    ok (record { unsigned = unsigned; network_v = network_v; r = r; s = s; hash = hash })

unfoldable pub rlp_append_sealed_transaction : UnverifiedLegacyTransaction → RlpStream → RlpStream
unfolding rlp_append_action
rlp_append_sealed_transaction tx s =
    s
    |> begin_list 9
    |> append (u256 tx.unsigned.nonce)
    |> append (u256 tx.unsigned.gas_price)
    |> append (u256 tx.unsigned.gas)
    |> rlp_append_action tx.unsigned.action
    |> append (u256 tx.unsigned.value)
    |> append (vec_u8 tx.unsigned.tx_data)
    |> append (u64 tx.network_v)
    |> append (u256 tx.r)
    |> append (u256 tx.s)

-- `Encodable`
abbrev pub rlp_append : UnverifiedLegacyTransaction → RlpStream → RlpStream
rlp_append tx s = rlp_append_sealed_transaction tx s

unfoldable pub standard_v : UnverifiedLegacyTransaction → ℕ
unfolding check_replay_protection
standard_v tx = check_replay_protection tx.network_v

-- The trait's `set_hash`.
unfoldable pub set_hash : UnverifiedLegacyTransaction → Bytes → UnverifiedLegacyTransaction
set_hash tx hash = record tx { hash = hash }

module _ (c : Crates) where
  unfoldable pub message_hash : LegacyTransaction → Option ℕ → Bytes
  unfolding rlp_append_unsigned_transaction
  message_hash tx chain_id = c.keccak (c.out (rlp_append_unsigned_transaction tx chain_id new))

  unfoldable pub decode_unsigned : Bytes → Result DecoderError LegacyTransaction
  unfolding decode_action
  decode_unsigned d = do
    nonce ← c.item_at d 0 >>= c.decode_u256
    gas_price ← c.item_at d 1 >>= c.decode_u256
    gas ← c.item_at d 2 >>= c.decode_u256
    action ← c.item_at d 3 >>= decode_action c
    value ← c.item_at d 4 >>= c.decode_u256
    tx_data ← c.item_at d 5 >>= c.decode_vec_u8
    ok (record {
      nonce = nonce;
      gas_price = gas_price;
      gas = gas;
      action = action;
      value = value;
      tx_data = tx_data;
    })

  unfoldable pub decode : Bytes → Result DecoderError UnverifiedLegacyTransaction
  unfolding decode_unsigned
  decode d = do
    n ← c.item_count d
    let body = do
      unsigned ← decode_unsigned d
      network_v ← c.item_at d 6 >>= c.decode_u64
      r ← c.item_at d 7 >>= c.decode_u256
      s ← c.item_at d 8 >>= c.decode_u256
      ok (record { unsigned = unsigned; network_v = network_v; r = r; s = s; hash = c.keccak d })
    if not (n == 9) then err DecoderError.rlp_incorrect_list_len else body

  -- The trait's `compute_hash`.
  unfoldable pub compute_hash : UnverifiedLegacyTransaction → UnverifiedLegacyTransaction
  unfolding rlp_append_sealed_transaction set_hash
  compute_hash tx = set_hash tx (c.keccak (c.out (rlp_append_sealed_transaction tx new)))
