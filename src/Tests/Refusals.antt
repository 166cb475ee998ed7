-- ===== src/Tests/Refusals.antt =====
-- Errors, overflow and the second signature: the theorems at concrete inputs.
use mm2_parity_ethereum.Base.{
  refl, ◌≡◌, ◌≢◌, ◌↔◌, ◌⊎◌, ◌^◌, none, some, ok, err, panic, [], ◌∷◌, ◌++◌, replicate, arith,
}
use mm2_parity_ethereum.Crates.Rlp.{DecoderError}
use mm2_parity_ethereum.Crates.Rlp.Tree.{list, nil}
use mm2_parity_ethereum.Sample.{crates, crates_laws, crates_with, crates_with_laws}
use mm2_parity_ethereum.Sample.RlpCodec.{codec_laws}
use mm2_parity_ethereum.Sample.Keys.{key, keys_with_symmetry}
use mm2_parity_ethereum.Ethkey.Signature.{
  Signature, into_electrum, from_electrum, default_signature,
}
use mm2_parity_ethereum.Ethkey.Signature.Checked.{into_electrum_checked, into_electrum_checked_lem}
use mm2_parity_ethereum.Transaction.Error.{Error}
use mm2_parity_ethereum.Transaction.Eip155.{add_chain_replay_protection, check_replay_protection}
use mm2_parity_ethereum.Transaction.Eip155.Laws.{chain_id_of}
use mm2_parity_ethereum.Transaction.Eip155.Checked.{
  add_chain_replay_protection_checked, add_chain_replay_protection_checked_lem,
}
use mm2_parity_ethereum.Transaction.Eip1559.{UnverifiedEip1559Transaction}
use mm2_parity_ethereum.Transaction.Eip1559.Codec.{sealed_fields_and}
use mm2_parity_ethereum.Transaction.Unverified.{
  TransactionWrapper, UnverifiedTransactionWrapper, decode, recover_public, check_low_s, s, v,
}
use mm2_parity_ethereum.Transaction.Unverified.Codec.{IsUnverified}
use mm2_parity_ethereum.Transaction.Unverified.Twin.{twin, HasTwin, check_low_s-twin}
use mm2_parity_ethereum.Transaction.Legacy as Legacy
use mm2_parity_ethereum.Transaction.Unverified.Refused.{eip1559_parity, decode-Refused}
use mm2_parity_ethereum.Transaction.Wrapper.Cases.{Succeeds, Fails, sign_cases}
use mm2_parity_ethereum.Transaction.Wrapper.{sign}
use mm2_parity_ethereum.Transaction.Wrapper.Checked.{Overflows, sign_checked, sign_checked_lem}
use mm2_parity_ethereum.Tests.Inputs.{
  eip1559_tx, sealed_eip1559, sealed_legacy, sealed_legacy-IsUnverifiedLegacy,
}

abbrev typed_tx : TransactionWrapper
typed_tx = TransactionWrapper.eip1559 eip1559_tx

-- A typed transaction with the `v` of a legacy one.
abbrev odd : UnverifiedEip1559Transaction
odd = record sealed_eip1559 { v = 27 }

decode-Refused_example :
    decode crates (2 ∷ codec_laws.encode (list (sealed_fields_and odd nil)))
    ≡ err (DecoderError.custom "invalid sig v")
decode-Refused_example =
    decode-Refused crates codec_laws _ _ (eip1559_parity odd nil (omega arith) tt)

sign_cases_example :
    Succeeds (crates_with 2) (crates_with_laws 2 (omega arith)) key typed_tx none
    ⊎ Fails (crates_with 2) (crates_with_laws 2 (omega arith)) key typed_tx none
sign_cases_example =
    sign_cases (crates_with 2) (crates_with_laws 2 (omega arith)) key typed_tx none (λ e. cc) tt

add_chain_replay_protection_checked_lem_example :
    ((add_chain_replay_protection_checked {E = Error} 1 (some (2 ^ 63))
        ≡ ok (add_chain_replay_protection 1 (some (2 ^ 63))))
      × (chain_id_of (add_chain_replay_protection 1 (some (2 ^ 63))) ≡ some (2 ^ 63)))
    ⊎ ((add_chain_replay_protection_checked {E = Error} 1 (some (2 ^ 63)) ≡ panic)
        × (chain_id_of (add_chain_replay_protection 1 (some (2 ^ 63))) ≢ some (2 ^ 63)))
add_chain_replay_protection_checked_lem_example =
    add_chain_replay_protection_checked_lem 1 (some (2 ^ 63)) (omega arith) (omega arith)

abbrev high_v : Signature
high_v = replicate 64 3 ++ 230 ∷ []

into_electrum_checked_lem_example :
    ((into_electrum_checked {E = Error} high_v ≡ ok (into_electrum high_v))
      × (from_electrum (into_electrum high_v) ≡ high_v))
    ⊎ ((into_electrum_checked {E = Error} high_v ≡ panic)
        × (from_electrum (into_electrum high_v) ≡ default_signature))
into_electrum_checked_lem_example = into_electrum_checked_lem high_v (omega arith)

abbrev sealed_tx_unsigned : TransactionWrapper
sealed_tx_unsigned = TransactionWrapper.legacy sealed_legacy.unsigned

abbrev sealed_tx : UnverifiedTransactionWrapper
sealed_tx = UnverifiedTransactionWrapper.legacy sealed_legacy

sealed_tx-HasTwin : HasTwin sealed_tx
unfolding s v Legacy.standard_v check_replay_protection
sealed_tx-HasTwin = omega arith

check_low_s-twin_example :
    IsUnverified (twin sealed_tx)
    × (recover_public crates (twin sealed_tx) ≡ recover_public crates sealed_tx)
    × ((check_low_s crates (twin sealed_tx) ≡ ok tt) ↔ (check_low_s crates sealed_tx ≢ ok tt))
check_low_s-twin_example =
    check_low_s-twin crates crates_laws sealed_tx sealed_legacy-IsUnverifiedLegacy sealed_tx-HasTwin
      (keys_with_symmetry 0)

sign_checked_lem_example :
    let overflow = Overflows sealed_tx_unsigned 0 (some (2 ^ 63)) in
    ((¬ overflow)
      × (sign_checked crates sealed_tx_unsigned key (some (2 ^ 63))
          ≡ sign crates sealed_tx_unsigned key (some (2 ^ 63))))
    ⊎ (overflow × (sign_checked crates sealed_tx_unsigned key (some (2 ^ 63)) ≡ panic))
sign_checked_lem_example =
    sign_checked_lem crates crates_laws sealed_tx_unsigned key (some (2 ^ 63)) refl (omega arith)
