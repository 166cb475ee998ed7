-- ===== src/Transaction/Wrapper/Transmit.antt =====
-- ethcore/transaction/src/transaction.rs: a transaction that is signed, serialised and decoded.
use mm2_parity_ethereum.Base.{
  Bytes, IsU256, ℕ, ◌≤◌, ◌≡◌, refl, ap, ◌∙◌, Option, some, none, ok, arith,
}
use mm2_parity_ethereum.Crates.{Crates, CratesLaws}
use mm2_parity_ethereum.Crates.Rlp.Stream.{new}
use mm2_parity_ethereum.Ethkey.Signature as Signature
use mm2_parity_ethereum.Ethkey.Signature.Laws.{r-IsArray, s-IsArray}
use mm2_parity_ethereum.Transaction.Eip155.{add_chain_replay_protection}
use mm2_parity_ethereum.Transaction.Legacy as Legacy
use mm2_parity_ethereum.Transaction.Eip2930 as Eip2930
use mm2_parity_ethereum.Transaction.Eip1559 as Eip1559
use mm2_parity_ethereum.Transaction.Unverified.{TransactionWrapper, compute_hash, decode}
use mm2_parity_ethereum.Transaction.Unverified.Codec.{
  IsUnverified, decode-rlp_append_sealed_transaction,
}
use mm2_parity_ethereum.Transaction.Signed.{SignedTransaction, new_signed, rlp_append}
use mm2_parity_ethereum.Transaction.Wrapper.{message_hash, sign}
use mm2_parity_ethereum.Transaction.Wrapper.Preimage.{IsTransaction}
use mm2_parity_ethereum.Transaction.Wrapper.Sealed.{IsReplaySafe, result}
use mm2_parity_ethereum.Transaction.Wrapper.Sign.{
  sig, sig-IsSignature, r_value, s_value, rec, made, signed, new_signed-made, sign-made,
}

module _ (c : Crates) (r s v : ℕ) (hash : Bytes) (parity : v ≤ 1) where
  -- The fields of a signed transaction are in range.
  pub result-IsUnverified :
      (tx : TransactionWrapper) (chain_id : Option ℕ)
      → IsU256 r
      → IsU256 s
      → IsTransaction tx
      → IsUnverified (result c r s v hash parity tx chain_id)
  unfolding compute_hash Legacy.compute_hash Eip2930.compute_hash Eip1559.compute_hash
      add_chain_replay_protection
  result-IsUnverified (TransactionWrapper.legacy tx) none hr hs h = record {
    unsigned = h;
    network_v = omega arith;
    r = hr;
    s = hs;
  }
  result-IsUnverified (TransactionWrapper.legacy tx) (some n) hr hs h = record {
    unsigned = h;
    network_v = omega arith;
    r = hr;
    s = hs;
  }
  result-IsUnverified (TransactionWrapper.eip2930 tx) chain_id hr hs h = record {
    unsigned = h;
    v = parity;
    r = hr;
    s = hs;
  }
  result-IsUnverified (TransactionWrapper.eip1559 tx) chain_id hr hs h = record {
    unsigned = h;
    v = parity;
    r = hr;
    s = hs;
  }

  -- The hash is not part of what it is taken of.
  compute_hash-result :
      (tx : TransactionWrapper) (chain_id : Option ℕ)
      → compute_hash c (result c r s v hash parity tx chain_id)
        ≡ result c r s v hash parity tx chain_id
  unfolding compute_hash Legacy.compute_hash Eip2930.compute_hash Eip1559.compute_hash
      Legacy.rlp_append_sealed_transaction Eip2930.rlp_append_sealed_transaction
      Eip1559.rlp_append_sealed_transaction
  compute_hash-result (TransactionWrapper.legacy tx) chain_id = refl
  compute_hash-result _ chain_id = refl

module _ (c : Crates) (laws : CratesLaws c) (tx : TransactionWrapper) (secret : Bytes)
    (chain_id : Option ℕ) (valid : c.secret_key_from_slice secret ≡ ok secret)
    (parity : (c.sign_recoverable (message_hash c tx chain_id) secret).0 ≤ 1)
    (safe : IsReplaySafe tx chain_id) where
  pub r_value-IsU256 : IsU256 (r_value c laws tx secret chain_id valid)
  r_value-IsU256 =
      laws.types_laws.u256_from_bytes-IsU256 (Signature.r (sig c laws tx secret chain_id valid)) (
        r-IsArray (sig c laws tx secret chain_id valid)
          (sig-IsSignature c laws tx secret chain_id valid))

  pub s_value-IsU256 : IsU256 (s_value c laws tx secret chain_id valid)
  s_value-IsU256 =
      laws.types_laws.u256_from_bytes-IsU256 (Signature.s (sig c laws tx secret chain_id valid)) (
        s-IsArray (sig c laws tx secret chain_id valid)
          (sig-IsSignature c laws tx secret chain_id valid))

  -- A transaction of any kind and of valid fields, signed with a valid key where the recovery id is a
  -- parity and the chain id suits a legacy `v`, and serialised, is decoded to the same transaction, and
  -- recovery gives the receiver the signer's own `SignedTransaction`.
  pub decode-sign :
      IsTransaction tx
      → (signed_tx : SignedTransaction) × (sign c tx secret chain_id ≡ ok signed_tx)
        × (decode c (c.out (rlp_append signed_tx new)) ≡ ok signed_tx.transaction)
        × (new_signed c signed_tx.transaction ≡ ok signed_tx)
  unfolding rlp_append
  decode-sign h =
      let h0 = c.h256_from_low_u64_ne 0 in
      let rv = r_value c laws tx secret chain_id valid in
      let sv = s_value c laws tx secret chain_id valid in
      let v = rec c laws tx secret chain_id valid parity safe in
      (
        signed c laws tx secret chain_id valid parity safe,
        sign-made c laws tx secret chain_id valid parity safe,
        decode-rlp_append_sealed_transaction c laws.rlp_laws
              (made c laws tx secret chain_id valid parity safe)
              (result-IsUnverified c rv sv v h0 parity tx chain_id r_value-IsU256 s_value-IsU256 h)
            ∙ ap ok (compute_hash-result c rv sv v h0 parity tx chain_id),
        new_signed-made c laws tx secret chain_id valid parity safe,
      )
