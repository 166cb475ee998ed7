-- ===== src/Tests/Signing.antt =====
-- Signing, and the sender of a signed transaction: the theorems at concrete inputs.
use mm2_parity_ethereum.Base.{
  ℕ, ◌≢◌, Bytes, ◌≡◌, refl, true, false, none, some, [], ◌∷◌, ◌++◌, ok, replicate, arith, ◌⊎◌, ◌↔◌,
  inl, All, ◌≤◌,
}
use mm2_parity_ethereum.Sample.{crates, crates_laws}
use mm2_parity_ethereum.Sample.Keys.{key}
use mm2_parity_ethereum.Ethkey.Error as EthkeyError
use mm2_parity_ethereum.Ethkey.KeyPair.{public_to_address, verify_address}
use mm2_parity_ethereum.Transaction.Error.{Error}
use mm2_parity_ethereum.Transaction.Eip155.{add_chain_replay_protection, check_replay_protection}
use mm2_parity_ethereum.Transaction.Eip155.Laws.{
  Suits, chain_id_of, add_chain_replay_protection_iff,
}
use mm2_parity_ethereum.Ethkey.Signature.{from_rsv, recover}
use mm2_parity_ethereum.Transaction.Legacy as Legacy
use mm2_parity_ethereum.Transaction.Shared.{legacy_shared}
use mm2_parity_ethereum.Transaction.Unverified as Unverified
use mm2_parity_ethereum.Transaction.Unverified.{
  decode, TransactionWrapper, UnverifiedTransactionWrapper, is_unsigned, chain_id_from_v,
  recover_public, verify_basic,
}
use mm2_parity_ethereum.Transaction.Signed.{
  rlp_append, SignedTransaction, LocalizedTransaction, new_signed, sender, sender_uncached,
}
use mm2_parity_ethereum.Transaction.Signed.Address.{
  signed_hash, HasSender, verify_address-new_signed,
}
use mm2_parity_ethereum.Transaction.Signed.Cache as Cache
use mm2_parity_ethereum.Transaction.Signed.Cache.{
  IsCoherent, placed, none_yet, call, Panics, Returns, sender-account, Calls-account,
}
use mm2_parity_ethereum.Transaction.Wrapper.Accepted.{verify_basic-sign}
use mm2_parity_ethereum.Transaction.Wrapper.{sign, with_signature, message_hash}
use mm2_parity_ethereum.Transaction.Wrapper.Given.{recover_public-with_signature}
use mm2_parity_ethereum.Ethkey.Signature as Signature
use mm2_parity_ethereum.Transaction.Wrapper.Sealed.{held_chain_id}
use mm2_parity_ethereum.Transaction.Wrapper.Sign.{sign-recovers, sender_key}
use mm2_parity_ethereum.Transaction.Wrapper.Transmit.{decode-sign}
use mm2_parity_ethereum.Crates.Rlp.Stream.{new}
use mm2_parity_ethereum.Tests.Inputs.{legacy_tx-IsLegacy, legacy_tx, sealed_legacy}

abbrev tx : TransactionWrapper
tx = TransactionWrapper.legacy legacy_tx

sign-recovers_example :
    (signed : SignedTransaction) × (sign crates tx key (some 69) ≡ ok signed)
    × (signed.sender
        ≡ public_to_address crates (sender_key crates crates_laws tx key (some 69) refl))
    × (signed.public ≡ some (sender_key crates crates_laws tx key (some 69) refl))
    × (chain_id_from_v signed.transaction ≡ held_chain_id tx (some 69))
sign-recovers_example =
    sign-recovers crates crates_laws tx key (some 69) refl (omega arith) (omega arith)

decode-sign_example :
    (signed_tx : SignedTransaction) × (sign crates tx key (some 69) ≡ ok signed_tx)
    × (decode crates (crates.out (rlp_append signed_tx new)) ≡ ok signed_tx.transaction)
    × (new_signed crates signed_tx.transaction ≡ ok signed_tx)
decode-sign_example =
    decode-sign crates crates_laws tx key (some 69) refl (omega arith) (omega arith)
      legacy_tx-IsLegacy

-- A legacy transaction signed for the chain 1.
abbrev sealed_tx : UnverifiedTransactionWrapper
sealed_tx = UnverifiedTransactionWrapper.legacy sealed_legacy

abbrev signed_tx : SignedTransaction
signed_tx = record {
  transaction = sealed_tx;
  sender = public_to_address crates (replicate 64 0);
  public = some (replicate 31 0 ++ 5 ∷ (replicate 31 0 ++ 5 ∷ []));
}

new_signed_sealed : new_signed crates sealed_tx ≡ ok signed_tx
unfolding new_signed is_unsigned recover_public Unverified.signature Unverified.standard_v
    public_to_address Unverified.h256_from_u256 Legacy.standard_v check_replay_protection from_rsv
    recover Unverified.unsigned legacy_shared Legacy.message_hash
new_signed_sealed = refl

abbrev mined : UnverifiedTransactionWrapper → LocalizedTransaction
mined t = record {
  signed = t;
  block_number = 12;
  block_hash = replicate 32 1;
  transaction_index = 2;
  cached_sender = none;
}

verify_basic-sign_example :
    (signed : SignedTransaction) × (sign crates tx key (some 69) ≡ ok signed)
    × ((verify_basic crates signed.transaction true (some 69) false ≡ ok tt)
        ↔ ((held_chain_id tx (some 69) ≡ none) ⊎ (held_chain_id tx (some 69) ≡ some 69)))
verify_basic-sign_example =
    verify_basic-sign crates crates_laws tx key (some 69) refl (omega arith) (omega arith) true
      false (some 69) legacy_tx-IsLegacy

sender-account_example : Panics crates (mined sealed_tx) ⊎ Returns crates (mined sealed_tx)
sender-account_example = sender-account crates (mined sealed_tx) (inl refl)

abbrev after_call : LocalizedTransaction
after_call = record (mined sealed_tx) { cached_sender = some signed_tx.sender }

first_call : sender crates {E = Error} (mined sealed_tx) ≡ ok (signed_tx.sender, after_call)
unfolding sender sender_uncached is_unsigned recover_public Unverified.signature
    Unverified.standard_v public_to_address Unverified.h256_from_u256 Legacy.standard_v
    check_replay_protection from_rsv recover Unverified.unsigned legacy_shared Legacy.message_hash
first_call = refl

Calls-account_example :
    All
      (λ a. Cache.account crates (placed (mined sealed_tx)) ≡ ok a)
      (signed_tx.sender ∷ signed_tx.sender ∷ [])
    × (placed after_call ≡ placed (mined sealed_tx))
    × IsCoherent crates after_call
unfolding sender
Calls-account_example =
    Calls-account crates (mined sealed_tx) after_call (signed_tx.sender ∷ signed_tx.sender ∷ [])
      (inl refl) (call (call none_yet first_call) refl)

abbrev sealed_signature : Bytes
sealed_signature = replicate 31 0 ++ 5 ∷ (replicate 31 0 ++ 6 ∷ 0 ∷ [])

sealed_signature-spelled :
    Unverified.signature crates {E = EthkeyError.Error} sealed_tx ≡ ok sealed_signature
unfolding Unverified.r Unverified.s Unverified.signature Unverified.standard_v
    Unverified.h256_from_u256 Legacy.standard_v check_replay_protection from_rsv
sealed_signature-spelled = refl

verify_address-new_signed_example :
    (verify_address crates signed_tx.sender sealed_signature (signed_hash crates sealed_tx)
      ≡ ok true)
    ↔ HasSender crates sealed_tx signed_tx.sender
unfolding is_unsigned
verify_address-new_signed_example =
    verify_address-new_signed crates sealed_tx sealed_signature signed_tx.sender refl
      sealed_signature-spelled

recover_public-with_signature_example :
    (tx' : UnverifiedTransactionWrapper) × (with_signature crates tx sealed_signature (some 69)
      ≡ ok tx')
    × (Unverified.signature crates {E = EthkeyError.Error} tx' ≡ ok sealed_signature)
    × (recover_public crates tx'
        ≡ recover crates sealed_signature (message_hash crates tx (some 69)))
unfolding Signature.r Signature.v
recover_public-with_signature_example =
    recover_public-with_signature crates crates_laws tx (some 69) sealed_signature (omega arith)
      (omega arith) (omega arith) (omega arith)

add_chain_replay_protection_iff_example :
    ((0 ≤ 1) × Suits 0 (some 69) × (add_chain_replay_protection 0 (some 69) ≡ 173))
    ↔ ((check_replay_protection 173 ≡ 0) × (◌≢◌ {A = ℕ} 0 4) × (chain_id_of 173 ≡ some 69))
add_chain_replay_protection_iff_example =
    add_chain_replay_protection_iff 173 0 (some 69) (omega arith)
