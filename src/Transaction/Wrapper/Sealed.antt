-- ===== src/Transaction/Wrapper/Sealed.antt =====
-- ethcore/transaction/src/transaction.rs: the signed transaction that a signature makes, and what
-- recovery reads of it.
use mm2_parity_ethereum.Base.{
  Bytes, ℕ, ◌+◌, ◌*◌, ◌^◌, ◌≤◌, ◌<◌, ◌≡◌, refl, ap, false, Option, none, some, ok, arith,
}
use mm2_parity_ethereum.Crates.{Crates}
use mm2_parity_ethereum.Transaction.Shared.{legacy_shared, eip2930_shared, eip1559_shared}
use mm2_parity_ethereum.Transaction.Legacy as Legacy
use mm2_parity_ethereum.Transaction.Eip2930 as Eip2930
use mm2_parity_ethereum.Transaction.Eip1559 as Eip1559
use mm2_parity_ethereum.Transaction.Eip155.{add_chain_replay_protection}
use mm2_parity_ethereum.Transaction.Eip155.Laws.{
  add_chain_replay_protection-none, add_chain_replay_protection-some,
}
use mm2_parity_ethereum.Transaction.Unverified as Unverified
use mm2_parity_ethereum.Transaction.Unverified.{
  TransactionWrapper, UnverifiedTransactionWrapper, new_wrapper, is_unsigned, chain_id_from_v,
  unsigned, standard_v, recover_public, compute_hash, signature, h256_from_u256,
}
use mm2_parity_ethereum.Transaction.Wrapper.{message_hash}

-- A legacy transaction has a chain id for which `v` neither is invalid nor wraps, or none.
abbrev pub IsReplaySafe : TransactionWrapper → Option ℕ → Type 0
IsReplaySafe (TransactionWrapper.legacy tx) (some n) = (1 ≤ n) × (n * 2 + 36 < 2 ^ 64)
IsReplaySafe _ _ = Unit

-- The chain id that `v` holds: typed transactions hold theirs elsewhere.
abbrev pub held_chain_id : TransactionWrapper → Option ℕ → Option ℕ
held_chain_id (TransactionWrapper.legacy tx) chain_id = chain_id
held_chain_id _ chain_id = none

-- The transaction that `with_signature` makes, before its hash is set.
abbrev pub sealed : TransactionWrapper → ℕ → ℕ → ℕ → Option ℕ → Bytes → UnverifiedTransactionWrapper
sealed (TransactionWrapper.legacy tx) r s v chain_id hash =
    UnverifiedTransactionWrapper.legacy (record {
      unsigned = tx;
      network_v = add_chain_replay_protection v chain_id;
      r = r;
      s = s;
      hash = hash;
    })
sealed (TransactionWrapper.eip2930 tx) r s v chain_id hash =
    UnverifiedTransactionWrapper.eip2930
      (record { unsigned = tx; v = v; r = r; s = s; hash = hash })
sealed (TransactionWrapper.eip1559 tx) r s v chain_id hash =
    UnverifiedTransactionWrapper.eip1559
      (record { unsigned = tx; v = v; r = r; s = s; hash = hash })

pub new_wrapper-sealed :
    (tx : TransactionWrapper) (r s v : ℕ) (chain_id : Option ℕ) (hash : Bytes)
    → v ≤ 1
    → new_wrapper tx r s v chain_id hash ≡ ok (sealed tx r s v chain_id hash)
unfolding new_wrapper Legacy.new_with_chain_id Eip2930.new_unverified Eip1559.new_unverified
new_wrapper-sealed (TransactionWrapper.legacy tx) r s v chain_id hash h = ground arith
new_wrapper-sealed _ r s v chain_id hash h = ground arith

-- What recovery reads of the sealed transaction once its hash is set.
module _ (c : Crates) (r s v : ℕ) (hash : Bytes) (parity : v ≤ 1) where
  abbrev pub result : TransactionWrapper → Option ℕ → UnverifiedTransactionWrapper
  result tx chain_id = compute_hash c (sealed tx r s v chain_id hash)

  pub result-r :
      (tx : TransactionWrapper) (chain_id : Option ℕ) → Unverified.r (result tx chain_id) ≡ r
  unfolding compute_hash Unverified.r Legacy.compute_hash Eip2930.compute_hash Eip1559.compute_hash
  result-r (TransactionWrapper.legacy tx) chain_id = refl
  result-r _ chain_id = refl

  pub result-s :
      (tx : TransactionWrapper) (chain_id : Option ℕ) → Unverified.s (result tx chain_id) ≡ s
  unfolding compute_hash Unverified.s Legacy.compute_hash Eip2930.compute_hash Eip1559.compute_hash
  result-s (TransactionWrapper.legacy tx) chain_id = refl
  result-s _ chain_id = refl

  pub result-standard_v {ℓ} :
      {E : Type ℓ} (tx : TransactionWrapper) (chain_id : Option ℕ)
      → IsReplaySafe tx chain_id
      → standard_v {E = E} (result tx chain_id) ≡ ok v
  unfolding compute_hash standard_v Legacy.standard_v Eip2930.standard_v Eip1559.standard_v
      Legacy.compute_hash Eip2930.compute_hash Eip1559.compute_hash
  result-standard_v (TransactionWrapper.legacy tx) none safe =
      ap ok (add_chain_replay_protection-none v parity).1
  result-standard_v (TransactionWrapper.legacy tx) (some n) safe =
      ap ok (add_chain_replay_protection-some v parity n safe.0 safe.1).1
  result-standard_v _ chain_id safe = ground arith

  pub result-signed :
      (tx : TransactionWrapper) (chain_id : Option ℕ)
      → 0 < r
      → is_unsigned (result tx chain_id) ≡ false
  unfolding is_unsigned
  result-signed tx chain_id signed = rw (result-r tx chain_id) (ground arith)

  pub result-chain_id_from_v :
      (tx : TransactionWrapper) (chain_id : Option ℕ)
      → 0 < r
      → IsReplaySafe tx chain_id
      → chain_id_from_v (result tx chain_id) ≡ held_chain_id tx chain_id
  unfolding chain_id_from_v compute_hash Legacy.compute_hash Eip2930.compute_hash
      Eip1559.compute_hash
  result-chain_id_from_v (TransactionWrapper.legacy tx) none signed safe =
      rw (result-signed (TransactionWrapper.legacy tx) none signed)
        (ground (arith, (add_chain_replay_protection-none v parity).0))
  result-chain_id_from_v (TransactionWrapper.legacy tx) (some n) signed safe =
      rw (result-signed (TransactionWrapper.legacy tx) (some n) signed)
        (ground (arith, add_chain_replay_protection-some v parity n safe.0 safe.1))
  result-chain_id_from_v (TransactionWrapper.eip2930 tx) chain_id signed safe =
      rw (result-signed (TransactionWrapper.eip2930 tx) chain_id signed) (ground arith)
  result-chain_id_from_v (TransactionWrapper.eip1559 tx) chain_id signed safe =
      rw (result-signed (TransactionWrapper.eip1559 tx) chain_id signed) (ground arith)

  -- Recovery hashes the message that was signed.
  pub result-message_hash :
      (tx : TransactionWrapper) (chain_id : Option ℕ)
      → (unsigned c (result tx chain_id)).message_hash (held_chain_id tx chain_id)
        ≡ message_hash c tx chain_id
  unfolding unsigned message_hash compute_hash Legacy.compute_hash Eip2930.compute_hash
      Eip1559.compute_hash legacy_shared eip2930_shared eip1559_shared
  result-message_hash (TransactionWrapper.legacy tx) chain_id = refl
  result-message_hash _ chain_id = refl
