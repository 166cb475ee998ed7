-- ===== src/Transaction/Signed.antt =====
-- ethcore/transaction/src/transaction.rs: transactions whose sender is recovered.
pub mod Laws
pub mod Cache
pub mod Address
pub mod Received
use mm2_parity_ethereum.Base.{
  Bytes, ℕ, Bool, Option, none, some, Result, ok, ◌>>=◌, unwrap, [], ◌∷◌, ◌++◌, replicate,
  if◌then◌else◌,
}
use mm2_parity_ethereum.Crates.{Crates}
use mm2_parity_ethereum.Crates.Rlp.Stream.{RlpStream}
use mm2_parity_ethereum.Ethkey.Error as EthkeyError
use mm2_parity_ethereum.Ethkey.KeyPair.{public_to_address}
use mm2_parity_ethereum.Transaction.Shared.{TransactionShared}
use mm2_parity_ethereum.Transaction.Unverified as Unverified
use mm2_parity_ethereum.Transaction.Unverified.{UnverifiedTransactionWrapper}

abbrev pub unsigned_sender : Bytes
unsigned_sender = replicate 20 0xff

abbrev pub system_address : Bytes
system_address = replicate 19 0xff ++ 0xfe ∷ []

pub record SignedTransaction : Type 0 where
  pub transaction : UnverifiedTransactionWrapper
  pub sender : Bytes
  pub public : Option Bytes

unfoldable pub rlp_append : SignedTransaction → RlpStream → RlpStream
rlp_append tx s = Unverified.rlp_append_sealed_transaction tx.transaction s

-- `From<SignedTransaction>`
unfoldable pub unverified_from : SignedTransaction → UnverifiedTransactionWrapper
unverified_from tx = tx.transaction

unfoldable pub is_unsigned : SignedTransaction → Bool
is_unsigned tx = Unverified.is_unsigned tx.transaction

unfoldable pub deconstruct : SignedTransaction → UnverifiedTransactionWrapper × Bytes × Option Bytes
deconstruct tx = (tx.transaction, tx.sender, tx.public)

pub record LocalizedTransaction : Type 0 where
  pub signed : UnverifiedTransactionWrapper
  pub block_number : ℕ
  pub block_hash : Bytes
  pub transaction_index : ℕ
  pub cached_sender : Option Bytes

pub data Condition : Type 0 where
  number timestamp : ℕ → Condition

pub record PendingTransaction : Type 0 where
  pub transaction : SignedTransaction
  pub condition : Option Condition

unfoldable pub new_pending : SignedTransaction → Option Condition → PendingTransaction
new_pending signed condition = record { transaction = signed; condition = condition }

-- `From<SignedTransaction>`
unfoldable pub pending_from : SignedTransaction → PendingTransaction
pending_from t = record { transaction = t; condition = none }

module _ (c : Crates) where
  -- `SignedTransaction::new`
  unfoldable pub new_signed :
      UnverifiedTransactionWrapper → Result EthkeyError.Error SignedTransaction
  new_signed transaction =
      if Unverified.is_unsigned transaction
      then ok (record { transaction = transaction; sender = unsigned_sender; public = none })
      else do
        public ← Unverified.recover_public c transaction
        let sender = public_to_address c public
        ok (record { transaction = transaction; sender = sender; public = some public })

  unfoldable pub unsigned : SignedTransaction → TransactionShared
  unfolding Unverified.unsigned
  unsigned tx = Unverified.unsigned c tx.transaction

  -- `LocalizedTransaction::sender` without a cached sender.
  unfoldable pub sender_uncached {ℓ} :
      {E : Type ℓ} → LocalizedTransaction → Result E (Bytes × LocalizedTransaction)
  sender_uncached tx = if Unverified.is_unsigned tx.signed then ok (unsigned_sender, tx) else do
    public ← unwrap (Unverified.recover_public c tx.signed)
    let sender = public_to_address c public
    ok (sender, record tx { cached_sender = some sender })

  unfoldable pub sender {ℓ} :
      {E : Type ℓ} → LocalizedTransaction → Result E (Bytes × LocalizedTransaction)
  unfolding sender_uncached
  sender tx = elim tx.cached_sender [ some cached ↦ ok (cached, tx) | none ↦ sender_uncached tx ]
