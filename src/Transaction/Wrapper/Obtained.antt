-- ===== src/Transaction/Wrapper/Obtained.antt =====
-- ethcore/transaction/src/transaction.rs: the ways in which a program comes by a transaction with a
-- signature, as an inductive family.
use mm2_parity_ethereum.Base.{
  Bytes, ℕ, ◌≡◌, ◌≢◌, subst, sym, ◌∙◌, Bool, Option, none, Result, ok, panic, arith, >>=-eq-ok,
  unwrap-eq-ok, ◌>>=◌, map_err-eq-ok, unwrap, map_err,
}
use mm2_parity_ethereum.Crates.{Crates}
use mm2_parity_ethereum.Ethkey.Signature as Signature
use mm2_parity_ethereum.Ethkey.Signature.{Signature}
use mm2_parity_ethereum.Transaction.Error.{Error, from_ethkey}
use mm2_parity_ethereum.Transaction.Unverified.{
  TransactionWrapper, UnverifiedTransactionWrapper, signature, verify_basic, decode, compute_hash,
  new_wrapper,
}
use mm2_parity_ethereum.Transaction.Unverified.Parity.{
  HasParity, new_wrapper-HasParity, decode-HasParity, eip2930-parity, eip1559-parity,
  signature-HasParity, verify_basic-HasParity,
}
use mm2_parity_ethereum.Transaction.Legacy as Legacy
use mm2_parity_ethereum.Transaction.Eip2930 as Eip2930
use mm2_parity_ethereum.Transaction.Eip1559 as Eip1559
use mm2_parity_ethereum.Transaction.Signed.{SignedTransaction, new_signed}
use mm2_parity_ethereum.Transaction.Signed.Laws.{new_signed_lem}
use mm2_parity_ethereum.Transaction.Wrapper.{message_hash, with_signature, sign, fake_sign}

-- The fields of these types are private, so that a transaction comes from bytes, from a constructor of
-- its own type, from signing, or from another one.
pub data Obtained (c : Crates) : UnverifiedTransactionWrapper → Type 0 where
  decoded : {tx : UnverifiedTransactionWrapper} (d : Bytes) → decode c d ≡ ok tx → Obtained c tx
  legacy :
      (tx : Legacy.UnverifiedLegacyTransaction)
      → Obtained c (UnverifiedTransactionWrapper.legacy tx)
  eip2930_decoded :
      {tx : Eip2930.UnverifiedEip2930Transaction} (d : Bytes)
      → Eip2930.decode c d ≡ ok tx
      → Obtained c (UnverifiedTransactionWrapper.eip2930 tx)
  eip2930_new :
      {tx : Eip2930.UnverifiedEip2930Transaction} (unsigned : Eip2930.Eip2930Transaction)
      (r s v : ℕ) (hash : Bytes)
      → Eip2930.new_unverified unsigned r s v hash ≡ ok tx
      → Obtained c (UnverifiedTransactionWrapper.eip2930 tx)
  eip1559_decoded :
      {tx : Eip1559.UnverifiedEip1559Transaction} (d : Bytes)
      → Eip1559.decode c d ≡ ok tx
      → Obtained c (UnverifiedTransactionWrapper.eip1559 tx)
  eip1559_new :
      {tx : Eip1559.UnverifiedEip1559Transaction} (unsigned : Eip1559.Eip1559Transaction)
      (r s v : ℕ) (hash : Bytes)
      → Eip1559.new_unverified unsigned r s v hash ≡ ok tx
      → Obtained c (UnverifiedTransactionWrapper.eip1559 tx)
  from_signature :
      {tx : UnverifiedTransactionWrapper} (unsigned : TransactionWrapper) (sig : Signature)
      (chain_id : Option ℕ)
      → with_signature c unsigned sig chain_id ≡ ok tx
      → Obtained c tx
  from_sign :
      {tx : UnverifiedTransactionWrapper} (unsigned : TransactionWrapper) (secret : Bytes)
      (chain_id : Option ℕ) (signed : SignedTransaction)
      → sign c unsigned secret chain_id ≡ ok signed
      → tx ≡ signed.transaction
      → Obtained c tx
  from_fake_sign :
      {tx : UnverifiedTransactionWrapper} (unsigned : TransactionWrapper) (from : Bytes)
      (signed : SignedTransaction)
      → fake_sign c {E = Error} unsigned from ≡ ok signed
      → tx ≡ signed.transaction
      → Obtained c tx
  from_signed :
      {tx : UnverifiedTransactionWrapper} (before : UnverifiedTransactionWrapper)
      (signed : SignedTransaction)
      → Obtained c before
      → new_signed c before ≡ ok signed
      → tx ≡ signed.transaction
      → Obtained c tx
  from_hash :
      {tx : UnverifiedTransactionWrapper} (before : UnverifiedTransactionWrapper)
      → Obtained c before
      → tx ≡ compute_hash c before
      → Obtained c tx

module _ (c : Crates) where
  compute_hash-HasParity :
      (tx : UnverifiedTransactionWrapper) → HasParity tx → HasParity (compute_hash c tx)
  unfolding compute_hash Eip2930.compute_hash Eip1559.compute_hash
  compute_hash-HasParity (UnverifiedTransactionWrapper.legacy tx) h = h
  compute_hash-HasParity (UnverifiedTransactionWrapper.eip2930 tx) h = h
  compute_hash-HasParity (UnverifiedTransactionWrapper.eip1559 tx) h = h

  with_signature-HasParity :
      (unsigned : TransactionWrapper) (sig : Signature) (chain_id : Option ℕ)
      (tx : UnverifiedTransactionWrapper)
      → with_signature c unsigned sig chain_id ≡ ok tx
      → HasParity tx
  unfolding with_signature
  with_signature-HasParity unsigned sig chain_id tx e =
      let (before, made, hashed) = >>=-eq-ok _ _ e in
      let same : compute_hash c before ≡ tx = cc in
      subst HasParity same
        (compute_hash-HasParity before (new_wrapper-HasParity unsigned _ _ _ _ _ before made))

  fake_sign-HasParity :
      (unsigned : TransactionWrapper) (from : Bytes) (signed : SignedTransaction)
      → fake_sign c {E = Error} unsigned from ≡ ok signed
      → HasParity signed.transaction
  unfolding fake_sign
  fake_sign-HasParity unsigned from signed e =
      let next : UnverifiedTransactionWrapper → Result Error SignedTransaction =
        λ tx. ok (record { transaction = compute_hash c tx; sender = from; public = none }) in
      let first : Result Error UnverifiedTransactionWrapper =
        new_wrapper unsigned 1 1 0 none (c.h256_from_low_u64_ne 0) in
      let (before, made, kept) = >>=-eq-ok (unwrap first) next e in
      let same : compute_hash c before ≡ signed.transaction = cc in
      subst HasParity same (
        compute_hash-HasParity before (
          new_wrapper-HasParity unsigned 1 1 0 none (c.h256_from_low_u64_ne 0) before
            (unwrap-eq-ok first made)))

  sign-HasParity :
      (unsigned : TransactionWrapper) (secret : Bytes) (chain_id : Option ℕ)
      (signed : SignedTransaction)
      → sign c unsigned secret chain_id ≡ ok signed
      → HasParity signed.transaction
  unfolding sign
  sign-HasParity unsigned secret chain_id signed e =
      let signature =
        map_err from_ethkey (Signature.sign c secret (message_hash c unsigned chain_id)) in
      let recover : UnverifiedTransactionWrapper → Result Error SignedTransaction =
        λ tx. map_err from_ethkey (new_signed c tx) in
      let (sig, signs, rest) =
        >>=-eq-ok signature (λ sig. with_signature c unsigned sig chain_id >>= recover) e in
      let (before, made, after) = >>=-eq-ok (with_signature c unsigned sig chain_id) recover rest in
      let (same, _) =
        new_signed_lem c before signed (map_err-eq-ok from_ethkey (new_signed c before) after) in
      subst HasParity (sym same) (with_signature-HasParity unsigned sig chain_id before made)

  -- Whatever way a transaction was come by, a typed one holds a parity in `v`.
  pub Obtained-HasParity : (tx : UnverifiedTransactionWrapper) → Obtained c tx → HasParity tx
  unfolding Eip2930.new_unverified Eip1559.new_unverified
  Obtained-HasParity tx (decoded d e) = decode-HasParity c d tx e
  Obtained-HasParity _ (legacy tx) = tt
  Obtained-HasParity _ (eip2930_decoded {tx = tx} d e) = eip2930-parity c d tx e
  Obtained-HasParity _ (eip2930_new {tx = tx} unsigned r s v hash e) = ground arith
  Obtained-HasParity _ (eip1559_decoded {tx = tx} d e) = eip1559-parity c d tx e
  Obtained-HasParity _ (eip1559_new {tx = tx} unsigned r s v hash e) = ground arith
  Obtained-HasParity tx (from_signature unsigned sig chain_id e) =
      with_signature-HasParity unsigned sig chain_id tx e
  Obtained-HasParity tx (from_sign unsigned secret chain_id signed e same) =
      subst HasParity (sym same) (sign-HasParity unsigned secret chain_id signed e)
  Obtained-HasParity tx (from_fake_sign unsigned from signed e same) =
      subst HasParity (sym same) (fake_sign-HasParity unsigned from signed e)
  Obtained-HasParity tx (from_signed before signed made e same) =
      let (kept, _) = new_signed_lem c before signed e in
      subst HasParity (sym (same ∙ kept)) (Obtained-HasParity before made)
  Obtained-HasParity tx (from_hash before made same) =
      subst HasParity (sym same) (compute_hash-HasParity before (Obtained-HasParity before made))

  -- However a program comes by a transaction, by decoding bytes, by constructing or signing one or by
  -- hashing it anew: it has a signature, and `verify_basic` does not panic on it.
  pub Obtained-verify_basic :
      (tx : UnverifiedTransactionWrapper) (low : Bool) (chain_id : Option ℕ)
      (allow_empty_signature : Bool)
      → Obtained c tx
      → ((sig : Signature) × (signature c {E = Error} tx ≡ ok sig))
        × (verify_basic c tx low chain_id allow_empty_signature ≢ panic)
  Obtained-verify_basic tx low chain_id allow made =
      let parity = Obtained-HasParity tx made in
      (signature-HasParity c tx parity, verify_basic-HasParity c tx parity low chain_id allow)
