-- ===== src/Transaction/Signed/Laws.antt =====
-- ethcore/transaction/src/transaction.rs: the senders of signed and of localized transactions.
use mm2_parity_ethereum.Base.{
  Bytes, ◌≡◌, true, false, none, some, ok, err, panic, arith, if◌then◌else◌, ◌⊎◌,
}
use mm2_parity_ethereum.Crates.{Crates}
use mm2_parity_ethereum.Ethkey.Error as EthkeyError
use mm2_parity_ethereum.Ethkey.KeyPair.{public_to_address}
use mm2_parity_ethereum.Transaction.Unverified as Unverified
use mm2_parity_ethereum.Transaction.Unverified.{UnverifiedTransactionWrapper, recover_public}
use mm2_parity_ethereum.Transaction.Signed.{
  SignedTransaction, LocalizedTransaction, new_signed, sender, unsigned_sender,
}

module _ (c : Crates) where
  -- What `SignedTransaction::new` returns keeps the transaction. An unsigned one has no public key and
  -- the sender of unsigned ones; a signed one has the recovered key, and its address as the sender.
  pub new_signed_lem :
      (tx : UnverifiedTransactionWrapper) (signed : SignedTransaction)
      → new_signed c tx ≡ ok signed
      → (signed.transaction ≡ tx)
        × (((Unverified.is_unsigned tx ≡ true)
              × (signed.public ≡ none)
              × (signed.sender ≡ unsigned_sender))
            ⊎ ((Unverified.is_unsigned tx ≡ false)
                × (key : Bytes) × (recover_public c tx ≡ ok key)
                × (signed.public ≡ some key)
                × (signed.sender ≡ public_to_address c key)))
  unfolding new_signed
  new_signed_lem tx signed e = ground arith

  module _ (tx : LocalizedTransaction) where
    -- Without a cached sender, `sender` returns the sender that `SignedTransaction::new` finds, and
    -- caches it unless the transaction is unsigned.
    pub sender-new_signed {ℓ} :
        {E : Type ℓ} (signed : SignedTransaction)
        → tx.cached_sender ≡ none
        → new_signed c tx.signed ≡ ok signed
        → sender c {E = E} tx
          ≡ ok (
            signed.sender,
            if Unverified.is_unsigned tx.signed
                then tx
                else record tx { cached_sender = some signed.sender },
          )
    unfolding sender new_signed
    sender-new_signed signed empty e = ground arith

    -- Without a cached sender, `sender` panics where `SignedTransaction::new` fails.
    pub sender-panic {ℓ} :
        {E : Type ℓ} (e : EthkeyError.Error)
        → tx.cached_sender ≡ none
        → new_signed c tx.signed ≡ err e
        → sender c {E = E} tx ≡ panic
    unfolding sender new_signed
    sender-panic e empty h = ground arith

    -- After a call that returns, a second call returns the same sender and the same transaction; the
    -- first leaves the signed transaction and its place in the chain as they are.
    pub sender-sender {ℓ} :
        {E : Type ℓ} (account : Bytes) (tx' : LocalizedTransaction)
        → sender c {E = E} tx ≡ ok (account, tx')
        → (sender c {E = E} tx' ≡ ok (account, tx'))
          × (tx'.signed ≡ tx.signed)
          × (tx'.block_number ≡ tx.block_number)
          × (tx'.block_hash ≡ tx.block_hash)
          × (tx'.transaction_index ≡ tx.transaction_index)
    unfolding sender
    sender-sender account tx' e = ground arith
