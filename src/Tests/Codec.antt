-- ===== src/Tests/Codec.antt =====
-- Serialisation: runs, and the theorems at concrete inputs.
use mm2_parity_ethereum.Base.{
  none, ◌≡◌, refl, some, [], ◌∷◌, ok, panic, ◌≢◌, replicate, true, false, arith,
}
use mm2_parity_ethereum.Crates.Rlp.Tree.{
  begin_list, append, u8, u64, u256, vec_u8, empty_str, Items, list, nil, cons, leaf,
}
use mm2_parity_ethereum.Crates.Rlp.Stream.{new}
use mm2_parity_ethereum.Sample.{crates}
use mm2_parity_ethereum.Sample.RlpCodec.{codec_laws, codec_returns, codec_zeros}
use mm2_parity_ethereum.Ethkey.Signature.{Signature}
use mm2_parity_ethereum.Transaction.Error.{Error}
use mm2_parity_ethereum.Transaction.Legacy as Legacy
use mm2_parity_ethereum.Transaction.Eip2930.Codec as Eip2930Codec
use mm2_parity_ethereum.Transaction.Eip1559.Codec.{sealed_fields_and}
use mm2_parity_ethereum.Transaction.Unverified.{
  signature, tx_hash, verify_basic, TransactionWrapper, UnverifiedTransactionWrapper, decode,
  compute_hash, rlp_append_sealed_transaction, is_unsigned, chain_id_from_v,
}
use mm2_parity_ethereum.Transaction.Unverified.Codec.{
  decode-rlp_append_sealed_transaction, decode-typed_and,
}
use mm2_parity_ethereum.Transaction.Unverified.Total.{decode-returns}
use mm2_parity_ethereum.Transaction.Unverified.Hashes.{HasKind, decode_lem, tx_hash-injective}
use mm2_parity_ethereum.Transaction.Wrapper.Obtained.{decoded, Obtained-verify_basic}
use mm2_parity_ethereum.Transaction.Wrapper.Preimage.{
  message_hash-injective, message_hash_lem, preimage,
}
use mm2_parity_ethereum.Transaction.Wrapper.{message_hash}
use mm2_parity_ethereum.Transaction.Wrapper.Sealed.{held_chain_id}
use mm2_parity_ethereum.Transaction.Signed.{unsigned_sender, new_signed}
use mm2_parity_ethereum.Transaction.Wrapper.Null.{null_signed, message_hash-null_signed}
use mm2_parity_ethereum.Tests.Inputs.{
  hello, legacy_tx, legacy_tx-IsLegacy, sealed_eip1559, sealed_eip1559-IsUnverifiedEip1559,
  sealed_eip2930, sealed_eip2930-IsUnverifiedEip2930,
}

-- The calls for the signed bytes of a legacy transaction with a chain id.
legacy_calls :
    Legacy.rlp_append_unsigned_transaction legacy_tx (some 69) new
    ≡ begin_list 9
      ∷ append (u256 42)
      ∷ append (u256 3000)
      ∷ append (u256 50_000)
      ∷ append empty_str
      ∷ append (u256 1)
      ∷ append (vec_u8 hello)
      ∷ append (u64 69)
      ∷ append (u8 0)
      ∷ append (u8 0)
      ∷ []
unfolding Legacy.rlp_append_unsigned_transaction
legacy_calls = refl

abbrev wrapped : UnverifiedTransactionWrapper
wrapped = UnverifiedTransactionWrapper.eip1559 sealed_eip1559

decode-rlp_append_sealed_transaction_example :
    decode crates (crates.out (rlp_append_sealed_transaction wrapped new))
    ≡ ok (compute_hash crates wrapped)
decode-rlp_append_sealed_transaction_example =
    decode-rlp_append_sealed_transaction crates codec_laws wrapped
      sealed_eip1559-IsUnverifiedEip1559

message_hash-injective_example :
    (TransactionWrapper.legacy legacy_tx ≡ TransactionWrapper.legacy legacy_tx)
    × (held_chain_id (TransactionWrapper.legacy legacy_tx) (some 69)
        ≡ held_chain_id (TransactionWrapper.legacy legacy_tx) (some 69))
message_hash-injective_example =
    message_hash-injective crates codec_laws (TransactionWrapper.legacy legacy_tx)
      (TransactionWrapper.legacy legacy_tx) (some 69) (some 69) legacy_tx-IsLegacy
      legacy_tx-IsLegacy (omega arith) (omega arith) (λ e. refl) refl

decode_lem_example :
    (tx_hash (compute_hash crates wrapped)
      ≡ crates.keccak (crates.out (rlp_append_sealed_transaction wrapped new)))
    × HasKind crates
        (crates.out (rlp_append_sealed_transaction wrapped new))
        (compute_hash crates wrapped)
decode_lem_example =
    decode_lem crates (crates.out (rlp_append_sealed_transaction wrapped new))
      (compute_hash crates wrapped) decode-rlp_append_sealed_transaction_example

tx_hash-injective_example : compute_hash crates wrapped ≡ compute_hash crates wrapped
tx_hash-injective_example =
    tx_hash-injective crates codec_laws wrapped wrapped sealed_eip1559-IsUnverifiedEip1559
      sealed_eip1559-IsUnverifiedEip1559 (λ _. refl) refl

Obtained-verify_basic_example :
    ((sig : Signature) × (signature crates {E = Error} (compute_hash crates wrapped) ≡ ok sig))
    × (verify_basic crates (compute_hash crates wrapped) true (some 3) false ≢ panic)
Obtained-verify_basic_example =
    Obtained-verify_basic crates (compute_hash crates wrapped) true (some 3) false (
      decoded (crates.out (rlp_append_sealed_transaction wrapped new))
        decode-rlp_append_sealed_transaction_example)

message_hash_lem_example :
    message_hash crates (TransactionWrapper.legacy legacy_tx) (some 69)
    ≡ crates.keccak (preimage crates codec_laws (TransactionWrapper.legacy legacy_tx) (some 69))
message_hash_lem_example =
    message_hash_lem crates codec_laws (TransactionWrapper.legacy legacy_tx) (some 69)
      legacy_tx-IsLegacy (omega arith)

decode-returns_example : decode crates (1 ∷ []) ≢ panic
decode-returns_example = decode-returns crates codec_returns (1 ∷ [])

abbrev more : Items
more = cons (leaf (u64 9)) nil

decode-typed_and_example :
    (decode crates
        (1 ∷ codec_laws.encode (list (Eip2930Codec.sealed_fields_and sealed_eip2930 more)))
      ≡ ok (UnverifiedTransactionWrapper.eip2930 (record sealed_eip2930 { hash = replicate 32 0 })))
    × (decode crates (2 ∷ codec_laws.encode (list (sealed_fields_and sealed_eip1559 more)))
        ≡ ok (
            UnverifiedTransactionWrapper.eip1559 (record sealed_eip1559 { hash = replicate 32 0 })))
decode-typed_and_example =
    decode-typed_and crates codec_laws sealed_eip2930 sealed_eip1559 more
      sealed_eip2930-IsUnverifiedEip2930 sealed_eip1559-IsUnverifiedEip1559 (omega arith, tt)

message_hash-null_signed_example :
    (message_hash crates (TransactionWrapper.legacy legacy_tx) (some 69)
      ≡ tx_hash (compute_hash crates (null_signed legacy_tx 69 (replicate 32 0))))
    × (is_unsigned (null_signed legacy_tx 69 (replicate 32 0)) ≡ true)
    × (chain_id_from_v (null_signed legacy_tx 69 (replicate 32 0)) ≡ some 69)
    × (new_signed crates (null_signed legacy_tx 69 (replicate 32 0))
        ≡ ok (record {
          transaction = null_signed legacy_tx 69 (replicate 32 0);
          sender = unsigned_sender;
          public = none;
        }))
message_hash-null_signed_example =
    message_hash-null_signed crates codec_laws codec_zeros legacy_tx 69 (replicate 32 0)
      legacy_tx-IsLegacy (omega arith)
