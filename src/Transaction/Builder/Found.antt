-- ===== src/Transaction/Builder/Found.antt =====
-- ethkey/src/prefix.rs with ethcore/transaction/src: transactions that are signed with the key of an
-- address that was searched for.
use mm2_parity_ethereum.Base.{Bytes, ℕ, ◌≤◌, ◌≡◌, ap, ◌∙◌, true, Option, ok, length}
use mm2_parity_ethereum.Crates.{Crates, CratesLaws}
use mm2_parity_ethereum.Ethkey.KeyPair.{KeyPair, address}
use mm2_parity_ethereum.Ethkey.Generator.{starts_with, prefix_generator}
use mm2_parity_ethereum.Ethkey.Generator.Live.{generate_prefix-from_secret}
use mm2_parity_ethereum.Transaction.Unverified.{TransactionWrapper}
use mm2_parity_ethereum.Transaction.Signed.{SignedTransaction}
use mm2_parity_ethereum.Transaction.Wrapper.{message_hash, sign}
use mm2_parity_ethereum.Transaction.Wrapper.Sealed.{IsReplaySafe}
use mm2_parity_ethereum.Transaction.Builder.{TransactionWrapperBuilder, build}
use mm2_parity_ethereum.Transaction.Builder.Sent.{IsBuilder, IsReceived, sign-build}

-- Where the drawn keys are valid: a transaction of any type that is built of values in range and signed
-- with the secret of a pair that the search for a prefix returned, where the recovery id of the
-- signature is a parity and the chain id suits a legacy `v`, is received as it was sent, from the
-- pair's address, and the sender that the receiver recovers starts with the prefix.
pub sign-generate_prefix :
    (c : Crates) (laws : CratesLaws c) (draw : ℕ → Bytes) (prefix : Bytes) (iterations n : ℕ)
    (found : KeyPair) (n' : ℕ) (b : TransactionWrapperBuilder) (tx : TransactionWrapper)
    (chain_id : Option ℕ)
    → ((i : ℕ) → (length (draw i) ≡ 32) × (c.secret_key_from_slice (draw i) ≡ ok (draw i)))
    → (prefix_generator c draw prefix iterations).generate n ≡ (ok found, n')
    → IsBuilder b
    → build b ≡ ok tx
    → (c.sign_recoverable (message_hash c tx chain_id) found.secret).0 ≤ 1
    → IsReplaySafe tx chain_id
    → (signed : SignedTransaction) × (sign c tx found.secret chain_id ≡ ok signed)
      × IsReceived c signed chain_id (address c found)
      × (starts_with signed.sender prefix ≡ true)
sign-generate_prefix c laws draw prefix iterations n found n' b tx chain_id keys returned ranges
      built parity safe =
    let (made, starts) =
      generate_prefix-from_secret c laws draw prefix iterations n found n' keys returned in
    let (signed, signs, received) =
      sign-build c laws b tx found.secret found chain_id ranges built made parity safe in
    (signed, signs, received, ap (λ (a : Bytes). starts_with a prefix) (received.3) ∙ starts)
