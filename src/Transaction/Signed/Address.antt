-- ===== src/Transaction/Signed/Address.antt =====
-- ethcore/transaction/src/transaction.rs and ethkey/src/signature.rs: the sender of a transaction, and
-- verification of its signature against an address.
use mm2_parity_ethereum.Base.{
  Bytes, ◌≡◌, refl, ap, sym, ◌∙◌, ◌↔◌, true, false, some, Result, ok, err, panic, bytes_eq_refl,
  bytes_eq→eq, ok-injective,
}
use mm2_parity_ethereum.Crates.{Crates}
use mm2_parity_ethereum.Ethkey.Error as EthkeyError
use mm2_parity_ethereum.Ethkey.Signature.{Signature, recover}
use mm2_parity_ethereum.Ethkey.KeyPair.{public_to_address, verify_address}
use mm2_parity_ethereum.Transaction.Unverified.{
  UnverifiedTransactionWrapper, is_unsigned, signature, chain_id_from_v, unsigned, recover_public,
}
use mm2_parity_ethereum.Transaction.Signed.{SignedTransaction, new_signed}

module _ (c : Crates) (tx : UnverifiedTransactionWrapper) where
  -- The hash that the signature of a transaction is of.
  abbrev pub signed_hash : Bytes
  signed_hash = (unsigned c tx).message_hash (chain_id_from_v tx)

  abbrev pub HasSender : Bytes → Type 0
  HasSender account =
      (signed : SignedTransaction) × (new_signed c tx ≡ ok signed) × (signed.sender ≡ account)

  module _ (sig : Signature) (account : Bytes) (is_signed : is_unsigned tx ≡ false)
      (spelled : signature c {E = EthkeyError.Error} tx ≡ ok sig) where
    recover_public-signature : recover_public c tx ≡ recover c sig signed_hash
    unfolding recover_public
    recover_public-signature = rw spelled refl

    verify_address_iff :
        (public : Result EthkeyError.Error Bytes)
        → recover c sig signed_hash ≡ public
        → (verify_address c account sig signed_hash ≡ ok true) ↔ HasSender account
    unfolding verify_address new_signed
    verify_address_iff (ok public) e =
        let signed : SignedTransaction = record {
          transaction = tx;
          sender = public_to_address c public;
          public = some public;
        } in
        let made : new_signed c tx ≡ ok signed = rw (is_signed, recover_public-signature, e) refl in
        rw e (
          (λ h. (
            signed,
            made,
            sym (bytes_eq→eq account (public_to_address c public) (ok-injective h)),
          )),
          (λ (other, made', same).
              let eq : other ≡ signed = ok-injective (sym made' ∙ made) in
              let own : public_to_address c public ≡ account =
                ap (λ (t : SignedTransaction). t.sender) (sym eq) ∙ same in
              rw own (ap ok (bytes_eq_refl account))),
        )
    verify_address_iff (err x) e =
        let fails : new_signed c tx ≡ err x = rw (is_signed, recover_public-signature, e) refl in
        rw e ((λ h. cc), (λ (other, made', same). cc))
    verify_address_iff panic e =
        let fails : new_signed c tx ≡ panic = rw (is_signed, recover_public-signature, e) refl in
        rw e ((λ h. cc), (λ (other, made', same). cc))

    -- `SignedTransaction::new` finds an account to be the sender of a signed transaction exactly where
    -- `verify_address` accepts the transaction's signature of the hash that was signed for the account.
    pub verify_address-new_signed :
        (verify_address c account sig signed_hash ≡ ok true) ↔ HasSender account
    verify_address-new_signed = verify_address_iff (recover c sig signed_hash) refl
