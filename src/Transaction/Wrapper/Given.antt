-- ===== src/Transaction/Wrapper/Given.antt =====
-- ethcore/transaction/src/transaction.rs: a signature that was made elsewhere, put on a transaction.
use mm2_parity_ethereum.Base.{ℕ, ◌≤◌, ◌<◌, ◌≡◌, refl, ap, Option, ok}
use mm2_parity_ethereum.Crates.{Crates, CratesLaws}
use mm2_parity_ethereum.Crates.Types.{be_value}
use mm2_parity_ethereum.Ethkey.Error as EthkeyError
use mm2_parity_ethereum.Ethkey.Signature as Signature
use mm2_parity_ethereum.Ethkey.Signature.{Signature}
use mm2_parity_ethereum.Ethkey.Signature.Laws.{IsSignature, from_rsv-parts, r-IsArray, s-IsArray}
use mm2_parity_ethereum.Transaction.Unverified.{
  TransactionWrapper, UnverifiedTransactionWrapper, recover_public, signature, h256_from_u256,
}
use mm2_parity_ethereum.Transaction.Wrapper.{message_hash, with_signature}
use mm2_parity_ethereum.Transaction.Wrapper.Sealed.{
  IsReplaySafe, new_wrapper-sealed, result, result-r, result-s, result-standard_v,
  result-chain_id_from_v, result-message_hash,
}

module _ (c : Crates) (laws : CratesLaws c) (tx : TransactionWrapper) (chain_id : Option ℕ)
    (sig : Signature) (h : IsSignature sig) where
  abbrev pub r_value : ℕ
  r_value = c.u256_from_bytes (Signature.r sig)

  abbrev pub s_value : ℕ
  s_value = c.u256_from_bytes (Signature.s sig)

  module _ (v : ℕ) (last : Signature.v sig ≡ v) (parity : v ≤ 1) where
    abbrev pub made : UnverifiedTransactionWrapper
    made = result c r_value s_value v (c.h256_from_low_u64_ne 0) parity tx chain_id

    pub with_signature-made : with_signature c tx sig chain_id ≡ ok made
    unfolding with_signature
    with_signature-made =
        rw
          (last, new_wrapper-sealed tx r_value s_value v chain_id (c.h256_from_low_u64_ne 0) parity)

    -- The fields of the transaction spell the signature that was given.
    pub signature-made {ℓ} :
        {E : Type ℓ} → IsReplaySafe tx chain_id → signature c {E = E} made ≡ ok sig
    unfolding signature h256_from_u256
    signature-made safe =
        let t = laws.types_laws in
        rw
          (
            result-standard_v c r_value s_value v (c.h256_from_low_u64_ne 0) parity tx chain_id
                safe,
            result-r c r_value s_value v (c.h256_from_low_u64_ne 0) parity tx chain_id,
            result-s c r_value s_value v (c.h256_from_low_u64_ne 0) parity tx chain_id,
            t.u256_into_bytes-u256_from_bytes (Signature.r sig) (r-IsArray sig h),
            t.u256_into_bytes-u256_from_bytes (Signature.s sig) (s-IsArray sig h),
          )
          (ap ok (rw last at (from_rsv-parts sig h.0)))

    pub recover_public-made :
        IsReplaySafe tx chain_id
        → 0 < r_value
        → recover_public c made ≡ Signature.recover c sig (message_hash c tx chain_id)
    unfolding recover_public
    recover_public-made safe pos =
        rw
          (
            signature-made {E = EthkeyError.Error} safe,
            result-chain_id_from_v c r_value s_value v (c.h256_from_low_u64_ne 0) parity tx chain_id
                pos safe,
            result-message_hash c r_value s_value v (c.h256_from_low_u64_ne 0) parity tx chain_id,
          )
          refl

  -- A signature of 65 bytes whose first half is not zero and whose last byte is a parity, put on a
  -- transaction of any kind where the chain id suits a legacy `v`, is the signature that is read from
  -- the result, and the key recovered there is the one that is recovered from the signature and the
  -- message hash.
  pub recover_public-with_signature :
      Signature.v sig ≤ 1
      → IsReplaySafe tx chain_id
      → 0 < be_value (Signature.r sig)
      → (tx' : UnverifiedTransactionWrapper) × (with_signature c tx sig chain_id ≡ ok tx')
        × (signature c {E = EthkeyError.Error} tx' ≡ ok sig)
        × (recover_public c tx' ≡ Signature.recover c sig (message_hash c tx chain_id))
  recover_public-with_signature parity safe pos =
      let r_pos : 0 < r_value =
        rw (laws.types_laws.u256_from_bytes_lem (Signature.r sig) (r-IsArray sig h)) pos in
      (
        made (Signature.v sig) refl parity,
        with_signature-made (Signature.v sig) refl parity,
        signature-made (Signature.v sig) refl parity safe,
        recover_public-made (Signature.v sig) refl parity safe r_pos,
      )
