-- ===== src/Tests/Verifying.antt =====
-- `verify_basic`: the theorems at concrete inputs.
use mm2_parity_ethereum.Base.{ℕ, ◌≢◌, ◌^◌, ◌≡◌, ◌↔◌, true, false, some, ok, err, arith}
use mm2_parity_ethereum.Sample.{crates, crates_laws}
use mm2_parity_ethereum.Ethkey.Error as EthkeyError
use mm2_parity_ethereum.Transaction.Error.{from_ethkey, invalid_chain_id}
use mm2_parity_ethereum.Transaction.Unverified.{
  UnverifiedTransactionWrapper, verify_basic, chain_id_from_v,
}
use mm2_parity_ethereum.Transaction.Unverified.Verify.{
  Accepts, verify_basic_outcomes, HasBadSignature,
}
use mm2_parity_ethereum.Tests.Inputs.{sealed_legacy, sealed_eip1559}

abbrev legacy_tx : UnverifiedTransactionWrapper
legacy_tx = UnverifiedTransactionWrapper.legacy sealed_legacy

abbrev typed_tx : UnverifiedTransactionWrapper
typed_tx = UnverifiedTransactionWrapper.eip1559 sealed_eip1559

abbrev high_tx : UnverifiedTransactionWrapper
high_tx = UnverifiedTransactionWrapper.legacy (record sealed_legacy { s = 2 ^ 255 })

verify_basic_outcomes_example :
    ((verify_basic crates high_tx true (some 2) false ≡ ok tt)
      ↔ Accepts high_tx true (some 2) false)
    × ((verify_basic crates high_tx true (some 2) false
          ≡ err (from_ethkey EthkeyError.Error.invalid_signature))
        ↔ HasBadSignature high_tx true false)
    × ((verify_basic crates high_tx true (some 2) false ≡ err invalid_chain_id) ↔ (
        (¬ HasBadSignature high_tx true false)
        × ((n : ℕ) × (chain_id_from_v high_tx ≡ some n) × (some 2 ≢ some n))))
verify_basic_outcomes_example =
    verify_basic_outcomes crates crates_laws high_tx (omega arith) true (some 2) false
