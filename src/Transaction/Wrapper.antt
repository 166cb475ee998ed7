-- ===== src/Transaction/Wrapper.antt =====
-- ethcore/transaction/src/transaction.rs: hashing and signing a `TransactionWrapper`.
pub mod Sealed
pub mod Sign
pub mod Fails
pub mod Null
pub mod Refused
pub mod Cases
pub mod Checked
pub mod Preimage
pub mod Transmit
pub mod Given
pub mod Accepted
pub mod Obtained
use mm2_parity_ethereum.Base.{Bytes, ℕ, Option, none, some, Result, ok, ◌>>=◌, map_err, unwrap}
use mm2_parity_ethereum.Crates.{Crates}
use mm2_parity_ethereum.Ethkey.Signature as Signature
use mm2_parity_ethereum.Transaction.Error.{Error, from_ethkey}
use mm2_parity_ethereum.Transaction.Shared.{
  TransactionShared, legacy_shared, eip2930_shared, eip1559_shared,
}
use mm2_parity_ethereum.Transaction.Legacy as Legacy
use mm2_parity_ethereum.Transaction.Eip2930 as Eip2930
use mm2_parity_ethereum.Transaction.Eip1559 as Eip1559
use mm2_parity_ethereum.Transaction.Unverified.{
  TransactionWrapper, UnverifiedTransactionWrapper, new_wrapper, compute_hash,
}
use mm2_parity_ethereum.Transaction.Signed.{SignedTransaction, new_signed}

module _ (c : Crates) where
  unfoldable pub shared : TransactionWrapper → TransactionShared
  shared (TransactionWrapper.legacy tx) = legacy_shared c tx
  shared (TransactionWrapper.eip2930 tx) = eip2930_shared c tx
  shared (TransactionWrapper.eip1559 tx) = eip1559_shared c tx

  unfoldable pub message_hash : TransactionWrapper → Option ℕ → Bytes
  message_hash (TransactionWrapper.legacy tx) chain_id = Legacy.message_hash c tx chain_id
  message_hash (TransactionWrapper.eip2930 tx) chain_id = Eip2930.message_hash c tx
  message_hash (TransactionWrapper.eip1559 tx) chain_id = Eip1559.message_hash c tx

  unfoldable pub with_signature :
      TransactionWrapper → Bytes → Option ℕ → Result Error UnverifiedTransactionWrapper
  with_signature tx sig chain_id = do
    unverified ←
        new_wrapper tx (c.u256_from_bytes (Signature.r sig)) (c.u256_from_bytes (Signature.s sig))
          (Signature.v sig) chain_id (c.h256_from_low_u64_ne 0)
    ok (compute_hash c unverified)

  unfoldable pub sign : TransactionWrapper → Bytes → Option ℕ → Result Error SignedTransaction
  sign tx secret chain_id = do
    sig ← map_err from_ethkey (Signature.sign c secret (message_hash tx chain_id))
    unverified ← with_signature tx sig chain_id
    map_err from_ethkey (new_signed c unverified)

  unfoldable pub fake_sign {ℓ} :
      {E : Type ℓ} → TransactionWrapper → Bytes → Result E SignedTransaction
  fake_sign tx from = do
    unverified ← unwrap (new_wrapper tx 1 1 0 none (c.h256_from_low_u64_ne 0))
    ok (record { transaction = compute_hash c unverified; sender = from; public = none })
