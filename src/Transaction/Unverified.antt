-- ===== src/Transaction/Unverified.antt =====
-- ethcore/transaction/src/transaction.rs: `TransactionWrapper` and `UnverifiedTransactionWrapper`,
-- signed transactions of any kind whose signature is not verified.
pub mod Codec
pub mod Hashes
pub mod Total
pub mod Parts
pub mod Verify
pub mod Parity
pub mod Twin
pub mod Refused
pub mod Ranges
pub mod Canonical
use mm2_parity_ethereum.Base.{
  Bytes, ℕ, zero, ◌+◌, ◌-◌, ◌*◌, ◌/◌, ◌<◌, Bool, true, false, not, ◌&&◌, Option, none, some, List,
  length, Result, ok, err, panic, ◌>>=◌, ◌>>◌, map_err, ltb, ◌==◌, if◌then◌else◌, first_byte,
}
use mm2_parity_ethereum.Crates.{Crates}
use mm2_parity_ethereum.Crates.Rlp.{DecoderError}
use mm2_parity_ethereum.Crates.Rlp.Stream.{RlpStream}
use mm2_parity_ethereum.Ethkey.Error as EthkeyError
use mm2_parity_ethereum.Ethkey.Signature.{Signature, from_rsv, is_low_s, recover}
use mm2_parity_ethereum.Transaction.TxType.{TxType, type1, type2, from_u8}
use mm2_parity_ethereum.Transaction.Error.{Error, from_ethkey, invalid_chain_id}
use mm2_parity_ethereum.Transaction.Shared.{
  TransactionShared, legacy_shared, eip2930_shared, eip1559_shared,
}
use mm2_parity_ethereum.Transaction.Legacy as Legacy
use mm2_parity_ethereum.Transaction.Eip2930 as Eip2930
use mm2_parity_ethereum.Transaction.Eip1559 as Eip1559

pub data TransactionWrapper : Type 0 where
  legacy : Legacy.LegacyTransaction → TransactionWrapper
  eip2930 : Eip2930.Eip2930Transaction → TransactionWrapper
  eip1559 : Eip1559.Eip1559Transaction → TransactionWrapper

pub data UnverifiedTransactionWrapper : Type 0 where
  legacy : Legacy.UnverifiedLegacyTransaction → UnverifiedTransactionWrapper
  eip2930 : Eip2930.UnverifiedEip2930Transaction → UnverifiedTransactionWrapper
  eip1559 : Eip1559.UnverifiedEip1559Transaction → UnverifiedTransactionWrapper

unfoldable pub rlp_append_sealed_transaction : UnverifiedTransactionWrapper → RlpStream → RlpStream
rlp_append_sealed_transaction (UnverifiedTransactionWrapper.legacy tx) =
    Legacy.rlp_append_sealed_transaction tx
rlp_append_sealed_transaction (UnverifiedTransactionWrapper.eip2930 tx) =
    Eip2930.rlp_append_sealed_transaction tx
rlp_append_sealed_transaction (UnverifiedTransactionWrapper.eip1559 tx) =
    Eip1559.rlp_append_sealed_transaction tx

unfoldable pub r : UnverifiedTransactionWrapper → ℕ
r (UnverifiedTransactionWrapper.legacy tx) = Legacy.r tx
r (UnverifiedTransactionWrapper.eip2930 tx) = Eip2930.r tx
r (UnverifiedTransactionWrapper.eip1559 tx) = Eip1559.r tx

unfoldable pub s : UnverifiedTransactionWrapper → ℕ
s (UnverifiedTransactionWrapper.legacy tx) = Legacy.s tx
s (UnverifiedTransactionWrapper.eip2930 tx) = Eip2930.s tx
s (UnverifiedTransactionWrapper.eip1559 tx) = Eip1559.s tx

unfoldable pub v : UnverifiedTransactionWrapper → ℕ
v (UnverifiedTransactionWrapper.legacy tx) = Legacy.v tx
v (UnverifiedTransactionWrapper.eip2930 tx) = Eip2930.v tx
v (UnverifiedTransactionWrapper.eip1559 tx) = Eip1559.v tx

unfoldable pub tx_hash : UnverifiedTransactionWrapper → Bytes
tx_hash (UnverifiedTransactionWrapper.legacy tx) = Legacy.hash tx
tx_hash (UnverifiedTransactionWrapper.eip2930 tx) = Eip2930.hash tx
tx_hash (UnverifiedTransactionWrapper.eip1559 tx) = Eip1559.hash tx

unfoldable pub standard_v {ℓ} : {E : Type ℓ} → UnverifiedTransactionWrapper → Result E ℕ
standard_v (UnverifiedTransactionWrapper.legacy tx) = ok (Legacy.standard_v tx)
standard_v (UnverifiedTransactionWrapper.eip2930 tx) = Eip2930.standard_v tx
standard_v (UnverifiedTransactionWrapper.eip1559 tx) = Eip1559.standard_v tx

unfoldable pub is_unsigned : UnverifiedTransactionWrapper → Bool
unfolding r s
is_unsigned tx = r tx == 0 && s tx == 0

unfoldable pub chain_id_from_v : UnverifiedTransactionWrapper → Option ℕ
unfolding v
chain_id_from_v tx =
    if is_unsigned tx then some (v tx) else if ltb 36 (v tx) then some ((v tx - 35) / 2) else none

unfoldable pub validate_empty_sig : UnverifiedTransactionWrapper → Bool
validate_empty_sig tx = false

-- `UnverifiedTransactionWrapper::new`
unfoldable pub new_wrapper :
    TransactionWrapper → ℕ → ℕ → ℕ → Option ℕ → Bytes → Result Error UnverifiedTransactionWrapper
new_wrapper (TransactionWrapper.legacy unsigned) r s v chain_id hash = do
  tx ← Legacy.new_with_chain_id unsigned r s v chain_id hash
  ok (UnverifiedTransactionWrapper.legacy tx)
new_wrapper (TransactionWrapper.eip2930 unsigned) r s v chain_id hash = do
  tx ← Eip2930.new_unverified unsigned r s v hash
  ok (UnverifiedTransactionWrapper.eip2930 tx)
new_wrapper (TransactionWrapper.eip1559 unsigned) r s v chain_id hash = do
  tx ← Eip1559.new_unverified unsigned r s v hash
  ok (UnverifiedTransactionWrapper.eip1559 tx)

module _ (c : Crates) where
  -- `&&` looks at the first byte only where there is one.
  unfoldable pub is_typed_transaction {ℓ} : {E : Type ℓ} → Bytes → Result E Bool
  is_typed_transaction d =
      if not (not (c.is_list d) && not (length d == 0))
      then ok false
      else do b ← first_byte d; ok (ltb b 0x7f)

  -- `match TxType::from(..)` of a typed transaction.
  unfoldable pub decode_typed : TxType → Bytes → Result DecoderError UnverifiedTransactionWrapper
  decode_typed type1 d = do tx ← Eip2930.decode c d; ok (UnverifiedTransactionWrapper.eip2930 tx)
  decode_typed type2 d = do tx ← Eip1559.decode c d; ok (UnverifiedTransactionWrapper.eip1559 tx)
  decode_typed _ d = err (DecoderError.custom "unsupported tx version")

  unfoldable pub decode : Bytes → Result DecoderError UnverifiedTransactionWrapper
  unfolding is_typed_transaction decode_typed from_u8
  decode d = do
    typed ← is_typed_transaction d
    if typed
        then (do version ← first_byte d; decode_typed (from_u8 version) d)
        else do tx ← Legacy.decode c d; ok (UnverifiedTransactionWrapper.legacy tx)

  unfoldable pub compute_hash : UnverifiedTransactionWrapper → UnverifiedTransactionWrapper
  compute_hash (UnverifiedTransactionWrapper.legacy tx) =
      UnverifiedTransactionWrapper.legacy (Legacy.compute_hash c tx)
  compute_hash (UnverifiedTransactionWrapper.eip2930 tx) =
      UnverifiedTransactionWrapper.eip2930 (Eip2930.compute_hash c tx)
  compute_hash (UnverifiedTransactionWrapper.eip1559 tx) =
      UnverifiedTransactionWrapper.eip1559 (Eip1559.compute_hash c tx)

  unfoldable pub unsigned : UnverifiedTransactionWrapper → TransactionShared
  unsigned (UnverifiedTransactionWrapper.legacy tx) = legacy_shared c tx.unsigned
  unsigned (UnverifiedTransactionWrapper.eip2930 tx) = eip2930_shared c tx.unsigned
  unsigned (UnverifiedTransactionWrapper.eip1559 tx) = eip1559_shared c tx.unsigned

  unfoldable pub h256_from_u256 : ℕ → Bytes
  h256_from_u256 num = c.u256_into_bytes num

  unfoldable pub signature {ℓ} : {E : Type ℓ} → UnverifiedTransactionWrapper → Result E Signature
  signature tx = do
    v ← standard_v tx
    ok (from_rsv (h256_from_u256 (r tx)) (h256_from_u256 (s tx)) v)

  unfoldable pub check_low_s : UnverifiedTransactionWrapper → Result EthkeyError.Error (Unit {0})
  check_low_s tx = do
    sig ← signature tx
    if not (is_low_s c sig) then err EthkeyError.Error.invalid_signature else ok tt

  unfoldable pub recover_public : UnverifiedTransactionWrapper → Result EthkeyError.Error Bytes
  recover_public tx = do
    sig ← signature tx
    recover c sig ((unsigned tx).message_hash (chain_id_from_v tx))

  -- `match (self.chain_id_from_v(), chain_id)`
  unfoldable pub check_chain_id : Option ℕ → Option ℕ → Result Error (Unit {0})
  check_chain_id none _ = ok tt
  check_chain_id (some n) (some m) = if n == m then ok tt else err invalid_chain_id
  check_chain_id (some n) none = err invalid_chain_id

  unfoldable pub verify_basic :
      UnverifiedTransactionWrapper → Bool → Option ℕ → Bool → Result Error (Unit {0})
  unfolding validate_empty_sig check_chain_id
  verify_basic tx check_low_s? chain_id allow_empty_signature =
      (if check_low_s? && not (allow_empty_signature && is_unsigned tx)
        then map_err from_ethkey (check_low_s tx)
        else ok tt)
      >> (if not allow_empty_signature && is_unsigned tx
          then err (from_ethkey EthkeyError.Error.invalid_signature)
          else if allow_empty_signature && is_unsigned tx && validate_empty_sig tx
          then err (from_ethkey EthkeyError.Error.invalid_signature)
          else check_chain_id (chain_id_from_v tx) chain_id)
