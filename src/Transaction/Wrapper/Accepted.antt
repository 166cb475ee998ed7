-- ===== src/Transaction/Wrapper/Accepted.antt =====
-- ethcore/transaction/src/transaction.rs: `verify_basic` on what `sign` returns.
use mm2_parity_ethereum.Base.{Bytes, ℕ, ◌≤◌, ◌≡◌, ◌↔◌, Bool, Option, none, ok, inl, inr, ◌⊎◌}
use mm2_parity_ethereum.Crates.{Crates, CratesLaws}
use mm2_parity_ethereum.Crates.Types.{be_value}
use mm2_parity_ethereum.Ethkey.Signature as Signature
use mm2_parity_ethereum.Ethkey.Signature.{half_order}
use mm2_parity_ethereum.Ethkey.Signature.Laws.{s-IsArray}
use mm2_parity_ethereum.Ethkey.Signature.Recovery.{s-sign}
use mm2_parity_ethereum.Transaction.Unverified.{TransactionWrapper, s, verify_basic}
use mm2_parity_ethereum.Transaction.Unverified.Verify.{Accepts, verify_basic_iff}
use mm2_parity_ethereum.Transaction.Signed.{SignedTransaction}
use mm2_parity_ethereum.Transaction.Wrapper.{message_hash, sign}
use mm2_parity_ethereum.Transaction.Wrapper.Preimage.{IsTransaction}
use mm2_parity_ethereum.Transaction.Wrapper.Sealed.{
  IsReplaySafe, held_chain_id, result-s, result-signed, result-chain_id_from_v,
}
use mm2_parity_ethereum.Transaction.Wrapper.Transmit.{
  result-IsUnverified, r_value-IsU256, s_value-IsU256,
}
use mm2_parity_ethereum.Transaction.Wrapper.Sign.{
  hash, hash-IsArray, sig, sig-IsSignature, r_value, r_value-pos, s_value, rec, made, signed,
  sign-made,
}

module _ (c : Crates) (laws : CratesLaws c) (tx : TransactionWrapper) (secret : Bytes)
    (chain_id : Option ℕ) (valid : c.secret_key_from_slice secret ≡ ok secret)
    (parity : (c.sign_recoverable (message_hash c tx chain_id) secret).0 ≤ 1)
    (safe : IsReplaySafe tx chain_id) where
  s_value-low : s_value c laws tx secret chain_id valid ≤ be_value half_order
  s_value-low =
      let sg = sig c laws tx secret chain_id valid in
      rw
        (laws.types_laws.u256_from_bytes_lem (Signature.s sg)
          (s-IsArray sg (sig-IsSignature c laws tx secret chain_id valid)))
        (s-sign c laws (hash c laws tx secret chain_id valid) secret
          (hash-IsArray c laws tx secret chain_id valid) valid)

  -- What a transaction that `sign` returns is accepted for.
  Accepts-made :
      (low allow : Bool) (given : Option ℕ)
      → Accepts (made c laws tx secret chain_id valid parity safe) low given allow
        ↔ ((held_chain_id tx chain_id ≡ none) ⊎ (held_chain_id tx chain_id ≡ given))
  Accepts-made low allow given =
      let h0 = c.h256_from_low_u64_ne 0 in
      let rv = r_value c laws tx secret chain_id valid in
      let sv = s_value c laws tx secret chain_id valid in
      let v = rec c laws tx secret chain_id valid parity safe in
      let pos = r_value-pos c laws tx secret chain_id valid in
      let held = result-chain_id_from_v c rv sv v h0 parity tx chain_id pos safe in
      let is_signed = result-signed c rv sv v h0 parity tx chain_id pos in
      let low_s : s (made c laws tx secret chain_id valid parity safe) ≤ be_value half_order =
        rw (result-s c rv sv v h0 parity tx chain_id) s_value-low in
      rw (held) (λ (_, _, k). k, λ k. (inl is_signed, inr (inr low_s), k))

  -- A transaction of any kind and of valid fields, signed with a valid key where the recovery id is a
  -- parity and the chain id suits a legacy `v`, passes `verify_basic`, with or without the test for a
  -- low `s` and whether or not null signatures are allowed, exactly when the chain id that `v` holds,
  -- if it holds one, is the given one.
  pub verify_basic-sign :
      (low allow_empty_signature : Bool) (given : Option ℕ)
      → IsTransaction tx
      → (signed_tx : SignedTransaction) × (sign c tx secret chain_id ≡ ok signed_tx)
        × ((verify_basic c signed_tx.transaction low given allow_empty_signature ≡ ok tt)
            ↔ ((held_chain_id tx chain_id ≡ none) ⊎ (held_chain_id tx chain_id ≡ given)))
  verify_basic-sign low allow given h =
      let h0 = c.h256_from_low_u64_ne 0 in
      let rv = r_value c laws tx secret chain_id valid in
      let sv = s_value c laws tx secret chain_id valid in
      let v = rec c laws tx secret chain_id valid parity safe in
      let r_range = r_value-IsU256 c laws tx secret chain_id valid parity safe in
      let s_range = s_value-IsU256 c laws tx secret chain_id valid parity safe in
      let (to, from) =
        verify_basic_iff c laws (made c laws tx secret chain_id valid parity safe)
          (result-IsUnverified c rv sv v h0 parity tx chain_id r_range s_range h) low given allow in
      let (there, back) = Accepts-made low allow given in
      (
        signed c laws tx secret chain_id valid parity safe,
        sign-made c laws tx secret chain_id valid parity safe,
        (λ e. there (to e), λ k. from (back k)),
      )
