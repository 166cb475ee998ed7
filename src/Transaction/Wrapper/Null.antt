-- ===== src/Transaction/Wrapper/Null.antt =====
-- ethcore/transaction/src: a legacy transaction with a null signature, which holds a chain id in `v`.
use mm2_parity_ethereum.Base.{Bytes, IsU64, ℕ, ◌≡◌, refl, ap, sym, ◌∙◌, true, none, some, ok, arith}
use mm2_parity_ethereum.Crates.{Crates}
use mm2_parity_ethereum.Crates.Rlp.{RlpLaws, RlpZeros}
use mm2_parity_ethereum.Crates.Rlp.Tree.{list}
use mm2_parity_ethereum.Transaction.Legacy as Legacy
use mm2_parity_ethereum.Transaction.Legacy.Codec.{IsLegacy}
use mm2_parity_ethereum.Transaction.Legacy.Codec as LegacyCodec
use mm2_parity_ethereum.Transaction.Unverified.{
  TransactionWrapper, UnverifiedTransactionWrapper, is_unsigned, chain_id_from_v, compute_hash,
  tx_hash, r, s, v,
}
use mm2_parity_ethereum.Transaction.Signed.{unsigned_sender, new_signed}
use mm2_parity_ethereum.Transaction.Wrapper.{message_hash}
use mm2_parity_ethereum.Transaction.Wrapper.Preimage.{message_hash_lem}

abbrev pub null_fields : Legacy.LegacyTransaction → ℕ → Bytes → Legacy.UnverifiedLegacyTransaction
null_fields tx chain_id hash = record {
  unsigned = tx;
  network_v = chain_id;
  r = 0;
  s = 0;
  hash = hash;
}

-- The transaction whose signature is the number of a chain and two zeros.
abbrev pub null_signed : Legacy.LegacyTransaction → ℕ → Bytes → UnverifiedTransactionWrapper
null_signed tx chain_id hash = UnverifiedTransactionWrapper.legacy (null_fields tx chain_id hash)

module _ (c : Crates) (laws : RlpLaws c.rlp) (zeros : RlpZeros c.rlp laws)
    (tx : Legacy.LegacyTransaction) (n : ℕ) (hash : Bytes) where
  -- The bytes that are signed for the chain, and those of the null signature.
  same_bytes :
      laws.encode (LegacyCodec.unsigned_item tx (some n))
      ≡ laws.encode (list (LegacyCodec.sealed_fields (null_fields tx n hash)))
  same_bytes = zeros.encode-same _ _ (
    refl,
    (refl, (refl, (refl, (refl, (refl, (refl, (zeros.encode-zero, (zeros.encode-zero, tt)))))))),
  )

  -- A legacy transaction of valid fields is hashed for a chain as the one with the chain id in `v` and a
  -- null signature is, if zeros of every width are encoded alike; and this one is taken for an unsigned
  -- transaction of that chain, whose sender is the unsigned one.
  pub message_hash-null_signed :
      IsLegacy tx
      → IsU64 n
      → (message_hash c (TransactionWrapper.legacy tx) (some n)
          ≡ tx_hash (compute_hash c (null_signed tx n hash)))
        × (is_unsigned (null_signed tx n hash) ≡ true)
        × (chain_id_from_v (null_signed tx n hash) ≡ some n)
        × (new_signed c (null_signed tx n hash)
            ≡ ok (record {
              transaction = null_signed tx n hash;
              sender = unsigned_sender;
              public = none;
            }))
  unfolding tx_hash compute_hash Legacy.compute_hash is_unsigned chain_id_from_v r s v new_signed
  message_hash-null_signed h k = (
    message_hash_lem c laws (TransactionWrapper.legacy tx) (some n) h k
        ∙ ap c.keccak same_bytes
        ∙ ap c.keccak (
            sym (
              LegacyCodec.out-rlp_append_sealed_transaction c laws (null_fields tx n hash)
                (record { unsigned = h; network_v = k; r = omega arith; s = omega arith }))),
    refl,
    refl,
    refl,
  )
