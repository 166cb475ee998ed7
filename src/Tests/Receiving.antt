-- ===== src/Tests/Receiving.antt =====
-- Transactions that came as bytes: the theorems at concrete inputs.
use mm2_parity_ethereum.Base.{
  Bytes, ◌≡◌, ◌≤◌, ◌⊎◌, inl, inr, refl, true, false, none, some, ok, [], ◌∷◌, ◌++◌, replicate,
  arith,
}
use mm2_parity_ethereum.Crates.{Crates, CratesLaws}
use mm2_parity_ethereum.Crates.Types.{be_value}
use mm2_parity_ethereum.Crates.Rlp.Tree.{list, nil, cons, leaf, u64}
use mm2_parity_ethereum.Sample.{crates, crates_laws}
use mm2_parity_ethereum.Sample.RlpCodec.{codec, codec_laws}
use mm2_parity_ethereum.Sample.Ranged.{ranged, ranged_laws, ranged_ranges}
use mm2_parity_ethereum.Ethkey.Error as EthkeyError
use mm2_parity_ethereum.Ethkey.KeyPair.{public_to_address, verify_address}
use mm2_parity_ethereum.Ethkey.Signature.{Signature, half_order, from_rsv, recover}
use mm2_parity_ethereum.Transaction.Eip155.{check_replay_protection}
use mm2_parity_ethereum.Transaction.Legacy as Legacy
use mm2_parity_ethereum.Transaction.Eip1559.Codec.{sealed_fields_and}
use mm2_parity_ethereum.Transaction.Shared.{legacy_shared}
use mm2_parity_ethereum.Transaction.Unverified as Unverified
use mm2_parity_ethereum.Transaction.Unverified.{
  UnverifiedTransactionWrapper, decode, verify_basic, is_unsigned, chain_id_from_v, tx_hash,
  compute_hash, recover_public,
}
use mm2_parity_ethereum.Transaction.Unverified.Codec.{
  IsUnverified, decode-typed_and, decode-rlp_append_sealed_transaction,
}
use mm2_parity_ethereum.Transaction.Unverified.Verify.{verify_basic_iff}
use mm2_parity_ethereum.Transaction.Unverified.Canonical.{canonical, decode-canonical}
use mm2_parity_ethereum.Transaction.Signed.{SignedTransaction, new_signed}
use mm2_parity_ethereum.Transaction.Signed.Address.{signed_hash}
use mm2_parity_ethereum.Transaction.Signed.Received.{new_signed-decode}
use mm2_parity_ethereum.Tests.Inputs.{
  sealed_legacy, sealed_legacy-IsUnverifiedLegacy, sealed_eip2930,
  sealed_eip2930-IsUnverifiedEip2930, sealed_eip1559, sealed_eip1559-IsUnverifiedEip1559,
}

abbrev strict : Crates
strict = record crates { rlp = ranged codec }

strict_laws : CratesLaws strict
strict_laws = record {
  rlp_laws = ranged_laws codec codec_laws;
  types_laws = crates_laws.types_laws;
  secp_laws = crates_laws.secp_laws;
  keccak_laws = crates_laws.keccak_laws;
  from_hex-to_hex = crates_laws.from_hex-to_hex;
}

-- A transaction with an item behind its signature.
abbrev longer : Bytes
longer =
    2
    ∷ (ranged_laws codec codec_laws).encode
        (list (sealed_fields_and sealed_eip1559 (cons (leaf (u64 9)) nil)))

abbrev longer_tx : UnverifiedTransactionWrapper
longer_tx =
    UnverifiedTransactionWrapper.eip1559 (record sealed_eip1559 { hash = strict.keccak longer })

longer_decoded : decode strict longer ≡ ok longer_tx
longer_decoded =
    (decode-typed_and strict (ranged_laws codec codec_laws) sealed_eip2930 sealed_eip1559
      (cons (leaf (u64 9)) nil) sealed_eip2930-IsUnverifiedEip2930
      sealed_eip1559-IsUnverifiedEip1559 (omega arith, tt)).1

decode-canonical_example :
    IsUnverified longer_tx
    × (tx_hash longer_tx ≡ strict.keccak longer)
    × (decode strict (canonical strict longer_tx) ≡ ok (compute_hash strict longer_tx))
    × (tx_hash (compute_hash strict longer_tx) ≡ strict.keccak (canonical strict longer_tx))
    × (canonical strict (compute_hash strict longer_tx) ≡ canonical strict longer_tx)
decode-canonical_example =
    decode-canonical strict (ranged_laws codec codec_laws) (ranged_ranges codec) longer longer_tx
      longer_decoded

-- A legacy transaction signed for the chain 1.
abbrev sealed_tx : UnverifiedTransactionWrapper
sealed_tx = UnverifiedTransactionWrapper.legacy sealed_legacy

abbrev signed_tx : SignedTransaction
signed_tx = record {
  transaction = sealed_tx;
  sender = public_to_address strict (replicate 64 0);
  public = some (replicate 31 0 ++ 5 ∷ (replicate 31 0 ++ 5 ∷ []));
}

sealed_decoded : decode strict (canonical strict sealed_tx) ≡ ok sealed_tx
unfolding compute_hash Legacy.compute_hash Legacy.set_hash
sealed_decoded =
    decode-rlp_append_sealed_transaction strict (ranged_laws codec codec_laws) sealed_tx
      sealed_legacy-IsUnverifiedLegacy

sealed_passes : verify_basic strict sealed_tx true (some 1) false ≡ ok tt
unfolding is_unsigned chain_id_from_v Unverified.s Unverified.v
sealed_passes =
    (verify_basic_iff strict strict_laws sealed_tx sealed_legacy-IsUnverifiedLegacy true (some 1)
        false).1
      (inl refl, inr (inr (omega arith)), inr refl)

sealed_recovered : new_signed strict sealed_tx ≡ ok signed_tx
unfolding new_signed is_unsigned recover_public Unverified.signature Unverified.standard_v
    public_to_address Unverified.h256_from_u256 Legacy.standard_v check_replay_protection from_rsv
    recover Unverified.unsigned legacy_shared Legacy.message_hash
sealed_recovered = refl

new_signed-decode_example :
    (tx_hash sealed_tx ≡ strict.keccak (canonical strict sealed_tx))
    × (is_unsigned sealed_tx ≡ false)
    × (Unverified.s sealed_tx ≤ be_value half_order)
    × ((chain_id_from_v sealed_tx ≡ none) ⊎ (chain_id_from_v sealed_tx ≡ some 1))
    × ((sig : Signature) × (Unverified.signature strict {E = EthkeyError.Error} sealed_tx ≡ ok sig)
        × (verify_address strict signed_tx.sender sig (signed_hash strict sealed_tx) ≡ ok true))
new_signed-decode_example =
    new_signed-decode strict strict_laws (ranged_ranges codec) (canonical strict sealed_tx)
      sealed_tx (some 1) signed_tx sealed_decoded sealed_passes sealed_recovered
