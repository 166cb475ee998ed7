-- ===== src/Transaction/Wrapper/Fails.antt =====
-- ethcore/transaction/src/transaction.rs: when signing is refused, and signing without a key.
use mm2_parity_ethereum.Base.{
  Bytes, IsU256, ℕ, ◌≤◌, ◌<◌, ◌≡◌, refl, ap, ◌∙◌, false, Option, none, some, ok, err, arith, length,
}
use mm2_parity_ethereum.Crates.{Crates, CratesLaws}
use mm2_parity_ethereum.Ethkey.Error as EthkeyError
use mm2_parity_ethereum.Ethkey.Signature as Signature
use mm2_parity_ethereum.Ethkey.Signature.{from_rsv}
use mm2_parity_ethereum.Ethkey.Signature.Laws.{recover_high, v-from_rsv, r-IsArray, s-IsArray}
use mm2_parity_ethereum.Ethkey.Signature.Recovery.{rec_id, sign_lem, v-sign}
use mm2_parity_ethereum.Transaction.Error.{from_ethkey, invalid_signature}
use mm2_parity_ethereum.Transaction.Legacy as Legacy
use mm2_parity_ethereum.Transaction.Eip2930 as Eip2930
use mm2_parity_ethereum.Transaction.Eip1559 as Eip1559
use mm2_parity_ethereum.Transaction.Eip155.Laws.{add_chain_replay_protection-zero}
use mm2_parity_ethereum.Transaction.Unverified.{
  TransactionWrapper, UnverifiedTransactionWrapper, new_wrapper, is_unsigned, chain_id_from_v,
  unsigned, standard_v, recover_public, compute_hash, signature, h256_from_u256,
}
use mm2_parity_ethereum.Transaction.Signed.{SignedTransaction, new_signed}
use mm2_parity_ethereum.Transaction.Wrapper.{message_hash, with_signature, sign, fake_sign}
use mm2_parity_ethereum.Transaction.Wrapper.Sign.{
  hash-IsArray, sig, sig-IsSignature, r_value, s_value, r_value-pos,
}
use mm2_parity_ethereum.Transaction.Wrapper.Sealed.{
  IsReplaySafe, held_chain_id, new_wrapper-sealed, result, result-r, result-s, result-signed,
  result-chain_id_from_v,
}

new_wrapper-no_parity :
    (tx : TransactionWrapper) (r s v : ℕ) (chain_id : Option ℕ) (hash : Bytes)
    → 2 ≤ v
    → new_wrapper tx r s v chain_id hash ≡ err (invalid_signature "invalid sig v")
unfolding new_wrapper Legacy.new_with_chain_id Eip2930.new_unverified Eip1559.new_unverified
new_wrapper-no_parity (TransactionWrapper.legacy tx) r s v chain_id hash h = ground arith
new_wrapper-no_parity _ r s v chain_id hash h = ground arith

-- The recovery id 4 that the chain id 0 leads to is refused.
module _ (c : Crates) (laws : CratesLaws c) (tx : Legacy.LegacyTransaction) (r s v : ℕ)
    (hash : Bytes) (parity : v ≤ 1) (hr : IsU256 r) (hs : IsU256 s) (signed : 0 < r) where
  abbrev zero_result : UnverifiedTransactionWrapper
  zero_result = result c r s v hash parity (TransactionWrapper.legacy tx) (some 0)

  t32 : (n : ℕ) → IsU256 n → length (c.u256_into_bytes n) ≡ 32
  t32 n h = (laws.types_laws.u256_into_bytes-IsArray n h).0

  standard_v-zero {ℓ} : {E : Type ℓ} → standard_v {E = E} zero_result ≡ ok 4
  unfolding standard_v Legacy.standard_v compute_hash Legacy.compute_hash
  standard_v-zero = ap ok (add_chain_replay_protection-zero v parity)

  recover_public-zero : recover_public c zero_result ≡ err EthkeyError.Error.invalid_signature
  unfolding recover_public signature h256_from_u256
  recover_public-zero =
      let t = TransactionWrapper.legacy tx in
      let a = t32 r hr in
      let b = t32 s hs in
      rw (
        standard_v-zero,
        result-r c r s v hash parity t (some 0),
        result-s c r s v hash parity t (some 0),
        recover_high c laws (from_rsv (c.u256_into_bytes r) (c.u256_into_bytes s) 4)
            ((unsigned c zero_result).message_hash (chain_id_from_v zero_result))
            (rw (v-from_rsv (c.u256_into_bytes r) (c.u256_into_bytes s) 4 a b) (omega arith)),
      )

module _ (c : Crates) (laws : CratesLaws c) (tx : TransactionWrapper) (secret : Bytes)
    (chain_id : Option ℕ) (valid : c.secret_key_from_slice secret ≡ ok secret) where
  -- A signature whose recovery id is no parity is refused, for every kind of transaction.
  pub sign-no_parity :
      2 ≤ (c.sign_recoverable (message_hash c tx chain_id) secret).0
      → sign c tx secret chain_id ≡ err (invalid_signature "invalid sig v")
  unfolding sign with_signature
  sign-no_parity h =
      let hm = hash-IsArray c laws tx secret chain_id valid in
      rw (
        sign_lem c laws (message_hash c tx chain_id) secret hm valid,
        v-sign c laws (message_hash c tx chain_id) secret hm valid,
        new_wrapper-no_parity tx _ _ _ chain_id _ h,
      )

-- A legacy transaction cannot be signed for the chain id 0: its `v` is invalid, so that the
-- recovery of the sender fails.
pub sign-chain_id_zero :
    (c : Crates) (laws : CratesLaws c) (tx : Legacy.LegacyTransaction) (secret : Bytes)
    (valid : c.secret_key_from_slice secret ≡ ok secret)
    → (c.sign_recoverable (message_hash c (TransactionWrapper.legacy tx) (some 0)) secret).0 ≤ 1
    → sign c (TransactionWrapper.legacy tx) secret (some 0)
      ≡ err (from_ethkey EthkeyError.Error.invalid_signature)
unfolding sign with_signature new_signed
sign-chain_id_zero c laws tx secret valid parity =
    let t = TransactionWrapper.legacy tx in
    let hm = hash-IsArray c laws t secret (some 0) valid in
    let m = message_hash c t (some 0) in
    let rv = r_value c laws t secret (some 0) valid in
    let sv = s_value c laws t secret (some 0) valid in
    let h0 = c.h256_from_low_u64_ne 0 in
    let is_sig = sig-IsSignature c laws t secret (some 0) valid in
    let whole = sig c laws t secret (some 0) valid in
    let hr = laws.types_laws.u256_from_bytes-IsU256 (Signature.r whole) (r-IsArray whole is_sig) in
    let hs = laws.types_laws.u256_from_bytes-IsU256 (Signature.s whole) (s-IsArray whole is_sig) in
    let pos = r_value-pos c laws t secret (some 0) valid in
    rw (
      sign_lem c laws m secret hm valid,
      v-sign c laws m secret hm valid,
      new_wrapper-sealed t rv sv (rec_id c laws m secret hm valid) (some 0) h0 parity,
      result-signed c rv sv (rec_id c laws m secret hm valid) h0 parity t (some 0) pos,
      recover_public-zero c laws tx rv sv (rec_id c laws m secret hm valid) h0 parity hr hs pos,
    )

IsReplaySafe-none : (tx : TransactionWrapper) → IsReplaySafe tx none
IsReplaySafe-none (TransactionWrapper.legacy tx) = tt
IsReplaySafe-none _ = tt

held_chain_id-none : (tx : TransactionWrapper) → held_chain_id tx none ≡ none
held_chain_id-none (TransactionWrapper.legacy tx) = refl
held_chain_id-none _ = refl

-- `fake_sign` does not panic. Its result has the given sender, holds no chain id, and is not taken
-- for an unsigned transaction.
pub fake_sign_lem {ℓ} :
    {E : Type ℓ} (c : Crates) (tx : TransactionWrapper) (from : Bytes)
    → (signed : SignedTransaction) × (fake_sign c {E = E} tx from ≡ ok signed)
      × (signed.sender ≡ from)
      × (signed.public ≡ none)
      × (is_unsigned signed.transaction ≡ false)
      × (chain_id_from_v signed.transaction ≡ none)
unfolding fake_sign
fake_sign_lem c tx from =
    let h0 = c.h256_from_low_u64_ne 0 in
    (
      record {
        transaction = result c 1 1 0 h0 (omega arith) tx none;
        sender = from;
        public = none;
      },
      rw (new_wrapper-sealed tx 1 1 0 none h0 (omega arith)),
      refl,
      refl,
      result-signed c 1 1 0 h0 (omega arith) tx none (omega arith),
      result-chain_id_from_v c 1 1 0 h0 (omega arith) tx none (omega arith) (IsReplaySafe-none tx)
          ∙ held_chain_id-none tx,
    )
