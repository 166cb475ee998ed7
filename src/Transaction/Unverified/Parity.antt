-- ===== src/Transaction/Unverified/Parity.antt =====
-- ethcore/transaction/src/transaction.rs: the parity in `v` of typed transactions, and the `expect`
-- of `standard_v`.
use mm2_parity_ethereum.Base.{Bytes, get_or, ℕ, ◌≤◌, ◌≡◌, refl, Option, ok, panic, ◌≢◌, Bool, arith}
use mm2_parity_ethereum.Crates.{Crates}
use mm2_parity_ethereum.Ethkey.Signature.{Signature, from_rsv}
use mm2_parity_ethereum.Ethkey.Error as EthkeyError
use mm2_parity_ethereum.Transaction.Error.{Error}
use mm2_parity_ethereum.Transaction.TxType.{TxType, type1, type2, from_u8}
use mm2_parity_ethereum.Transaction.Unverified.{
  TransactionWrapper, UnverifiedTransactionWrapper, standard_v, signature, h256_from_u256, r, s,
  check_low_s, check_chain_id, validate_empty_sig, verify_basic, new_wrapper, decode, decode_typed,
}
use mm2_parity_ethereum.Transaction.Legacy as Legacy
use mm2_parity_ethereum.Transaction.Eip2930 as Eip2930
use mm2_parity_ethereum.Transaction.Eip1559 as Eip1559

abbrev pub HasParity : UnverifiedTransactionWrapper → Type 0
HasParity (UnverifiedTransactionWrapper.legacy tx) = Unit
HasParity (UnverifiedTransactionWrapper.eip2930 tx) = tx.v ≤ 1
HasParity (UnverifiedTransactionWrapper.eip1559 tx) = tx.v ≤ 1

-- A typed transaction that `UnverifiedTransactionWrapper::new` returns holds a parity in `v`.
pub new_wrapper-HasParity :
    (tx : TransactionWrapper) (r s v : ℕ) (chain_id : Option ℕ) (hash : Bytes)
    (result : UnverifiedTransactionWrapper)
    → new_wrapper tx r s v chain_id hash ≡ ok result
    → HasParity result
unfolding new_wrapper Eip2930.new_unverified Eip1559.new_unverified
new_wrapper-HasParity (TransactionWrapper.legacy tx) r s v chain_id hash
      (UnverifiedTransactionWrapper.legacy result) e =
    tt
new_wrapper-HasParity _ r s v chain_id hash _ e = ground arith

module _ (c : Crates) (d : Bytes) where
  pub eip2930-parity :
      (tx : Eip2930.UnverifiedEip2930Transaction) → Eip2930.decode c d ≡ ok tx → tx.v ≤ 1
  unfolding Eip2930.decode
  eip2930-parity tx e = ground arith

  pub eip1559-parity :
      (tx : Eip1559.UnverifiedEip1559Transaction) → Eip1559.decode c d ≡ ok tx → tx.v ≤ 1
  unfolding Eip1559.decode
  eip1559-parity tx e = ground arith

  decode_typed-HasParity :
      (type : TxType) (tx : UnverifiedTransactionWrapper)
      → decode_typed c type d ≡ ok tx
      → HasParity tx
  unfolding decode_typed
  decode_typed-HasParity type1 (UnverifiedTransactionWrapper.legacy tx) e = tt
  decode_typed-HasParity _ (UnverifiedTransactionWrapper.legacy tx) e = tt
  decode_typed-HasParity type1 (UnverifiedTransactionWrapper.eip2930 tx) e =
      ground (arith, eip2930-parity tx)
  decode_typed-HasParity type2 (UnverifiedTransactionWrapper.eip1559 tx) e =
      ground (arith, eip1559-parity tx)
  decode_typed-HasParity _ _ e = ground arith

  -- Whatever the bytes, a typed transaction that `decode` returns holds a parity in `v`.
  pub decode-HasParity : (tx : UnverifiedTransactionWrapper) → decode c d ≡ ok tx → HasParity tx
  unfolding decode
  decode-HasParity (UnverifiedTransactionWrapper.legacy tx) e = tt
  decode-HasParity (UnverifiedTransactionWrapper.eip2930 tx) e = ground (
    arith,
    decode_typed-HasParity (from_u8 (get_or d 0 0)) (UnverifiedTransactionWrapper.eip2930 tx),
  )
  decode-HasParity (UnverifiedTransactionWrapper.eip1559 tx) e = ground (
    arith,
    decode_typed-HasParity (from_u8 (get_or d 0 0)) (UnverifiedTransactionWrapper.eip1559 tx),
  )

-- Where a typed transaction holds a parity, the `expect` of `standard_v` is not reached.
pub standard_v-HasParity {ℓ} :
    {E : Type ℓ} (tx : UnverifiedTransactionWrapper)
    → HasParity tx
    → (n : ℕ) × (standard_v {E = E} tx ≡ ok n)
unfolding standard_v Eip2930.standard_v Eip1559.standard_v
standard_v-HasParity (UnverifiedTransactionWrapper.legacy tx) h = (Legacy.standard_v tx, refl)
standard_v-HasParity (UnverifiedTransactionWrapper.eip2930 tx) h = (tx.v, ground arith)
standard_v-HasParity (UnverifiedTransactionWrapper.eip1559 tx) h = (tx.v, ground arith)

-- The callers of `standard_v`.
module _ (c : Crates) (tx : UnverifiedTransactionWrapper) (parity : HasParity tx) where
  pub signature-HasParity {ℓ} : {E : Type ℓ} → (sig : Signature) × (signature c {E = E} tx ≡ ok sig)
  unfolding signature
  signature-HasParity {E = E} =
      let (n, e) = standard_v-HasParity {E = E} tx parity in
      (from_rsv (h256_from_u256 c (r tx)) (h256_from_u256 c (s tx)) n, rw e refl)

  check_low_s-HasParity : check_low_s c tx ≢ panic
  unfolding check_low_s
  check_low_s-HasParity =
      let (sig, e) = signature-HasParity {E = EthkeyError.Error} in rw e (ground arith)

  pub verify_basic-HasParity :
      (low : Bool) (chain_id : Option ℕ) (allow : Bool)
      → verify_basic c tx low chain_id allow ≢ panic
  unfolding verify_basic check_chain_id validate_empty_sig
  verify_basic-HasParity low chain_id allow = ground (arith, check_low_s-HasParity)

-- Whatever the bytes, a transaction that `decode` returns has a signature, and `verify_basic` does not
-- panic on it.
pub decode-verify_basic :
    (c : Crates) (d : Bytes) (tx : UnverifiedTransactionWrapper) (low : Bool) (chain_id : Option ℕ)
    (allow_empty_signature : Bool)
    → decode c d ≡ ok tx
    → ((sig : Signature) × (signature c {E = Error} tx ≡ ok sig))
      × (verify_basic c tx low chain_id allow_empty_signature ≢ panic)
decode-verify_basic c d tx low chain_id allow e =
    let parity = decode-HasParity c d tx e in
    (signature-HasParity c tx parity, verify_basic-HasParity c tx parity low chain_id allow)
