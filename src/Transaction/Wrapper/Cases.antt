-- ===== src/Transaction/Wrapper/Cases.antt =====
-- ethcore/transaction/src/transaction.rs: signing either succeeds or is refused for a known reason.
use mm2_parity_ethereum.Base.{
  Bytes, ℕ, zero, suc, ◌+◌, ◌*◌, ◌^◌, ◌≤◌, ◌<◌, ◌≡◌, ◌≢◌, refl, ◌∙◌, ap, ◌⊎◌, inl, inr, Option,
  none, some, Result, ok, err, panic, arith,
}
use mm2_parity_ethereum.Crates.{Crates, CratesLaws}
use mm2_parity_ethereum.Crates.Secp.{SecpError}
use mm2_parity_ethereum.Ethkey.KeyPair.{public_to_address}
use mm2_parity_ethereum.Ethkey.Signature.Recovery.{public_bytes}
use mm2_parity_ethereum.Transaction.Error.{Error}
use mm2_parity_ethereum.Transaction.Unverified.{TransactionWrapper}
use mm2_parity_ethereum.Transaction.Signed.{SignedTransaction}
use mm2_parity_ethereum.Transaction.Wrapper.{message_hash, sign}
use mm2_parity_ethereum.Transaction.Wrapper.Sealed.{IsReplaySafe}
use mm2_parity_ethereum.Transaction.Wrapper.Sign.{sign-recovers}
use mm2_parity_ethereum.Transaction.Wrapper.Refused.{
  Refused, bad_key, no_parity, chain_id_zero, sign-Refused,
}

-- With the chain id nothing wraps in a legacy transaction's `v`.
abbrev pub Fits : TransactionWrapper → Option ℕ → Type 0
Fits (TransactionWrapper.legacy tx) (some n) = n * 2 + 36 < 2 ^ 64
Fits _ _ = Unit

module _ (c : Crates) (laws : CratesLaws c) (secret : Bytes) (tx : TransactionWrapper)
    (chain_id : Option ℕ) where
  -- A transaction of the key's own address.
  abbrev pub Succeeds : Type 0
  Succeeds =
      (signed : SignedTransaction) × (sign c tx secret chain_id ≡ ok signed)
      × (signed.sender ≡ public_to_address c (public_bytes (c.public_key_from_secret secret)))

  abbrev pub Fails : Type 0
  Fails = (e : Error) × Refused c secret tx chain_id e × (sign c tx secret chain_id ≡ err e)

  refused : (e : Error) → Refused c secret tx chain_id e → Fails
  refused e r = (e, r, sign-Refused c laws secret tx chain_id e r)

parity-cases : (n : ℕ) → (n ≤ 1) ⊎ (2 ≤ n)
parity-cases zero = inl (omega arith)
parity-cases (suc zero) = inl (omega arith)
parity-cases (suc (suc n)) = inr (omega arith)

module _ (c : Crates) (laws : CratesLaws c) (secret : Bytes) where
  -- With a key that the crate takes, a parity and a chain id that suits.
  succeeds :
      (tx : TransactionWrapper) (chain_id : Option ℕ)
      → c.secret_key_from_slice secret ≡ ok secret
      → (c.sign_recoverable (message_hash c tx chain_id) secret).0 ≤ 1
      → IsReplaySafe tx chain_id
      → Succeeds c laws secret tx chain_id
  succeeds tx chain_id valid parity safe =
      let (signed, signs, account, _, _) =
        sign-recovers c laws tx secret chain_id valid parity safe in
      (signed, signs, account)

  sign-parity :
      (tx : TransactionWrapper) (chain_id : Option ℕ)
      → c.secret_key_from_slice secret ≡ ok secret
      → (c.sign_recoverable (message_hash c tx chain_id) secret).0 ≤ 1
      → Fits tx chain_id
      → Succeeds c laws secret tx chain_id ⊎ Fails c laws secret tx chain_id
  sign-parity (TransactionWrapper.legacy tx) none valid parity fits =
      inl (succeeds (TransactionWrapper.legacy tx) none valid parity tt)
  sign-parity (TransactionWrapper.legacy tx) (some zero) valid parity fits = inr (
      refused c laws secret (TransactionWrapper.legacy tx) (some 0) _
        (chain_id_zero tx valid parity))
  sign-parity (TransactionWrapper.legacy tx) (some (suc n)) valid parity fits =
      inl (succeeds (TransactionWrapper.legacy tx) (some (suc n)) valid parity (omega arith, fits))
  sign-parity (TransactionWrapper.eip2930 tx) chain_id valid parity fits =
      inl (succeeds (TransactionWrapper.eip2930 tx) chain_id valid parity tt)
  sign-parity (TransactionWrapper.eip1559 tx) chain_id valid parity fits =
      inl (succeeds (TransactionWrapper.eip1559 tx) chain_id valid parity tt)

  -- For any transaction and chain id with which a legacy `v` does not wrap, and any secret on which the
  -- crate's check does not panic: signing returns a transaction whose sender is the address of the
  -- secret's public key, or it is refused, and never panics. It is refused with the crate's error, where
  -- the secret is not taken for a key; for an invalid `v`, where the recovery id of the signature is no
  -- parity; or for an invalid signature, where a legacy transaction is signed for the chain id 0.
  pub sign_cases :
      (tx : TransactionWrapper) (chain_id : Option ℕ)
      → c.secret_key_from_slice secret ≢ panic
      → Fits tx chain_id
      → Succeeds c laws secret tx chain_id ⊎ Fails c laws secret tx chain_id
  sign_cases tx chain_id returns fits = go (c.secret_key_from_slice secret) refl
    where
      go :
          (k : Result SecpError Bytes)
          → c.secret_key_from_slice secret ≡ k
          → Succeeds c laws secret tx chain_id ⊎ Fails c laws secret tx chain_id
      go (ok key) e =
          let valid : c.secret_key_from_slice secret ≡ ok secret =
            e ∙ ap ok (laws.secp_laws.secret_key_from_slice_lem secret key e) in
          elim (parity-cases (c.sign_recoverable (message_hash c tx chain_id) secret).0) [
            | inl parity ↦ sign-parity tx chain_id valid parity fits
            | inr high ↦
                inr (refused c laws secret tx chain_id _ (no_parity tx chain_id valid high))
          ]
      go (err e) bad = inr (refused c laws secret tx chain_id _ (bad_key tx chain_id e bad))
      go panic bad = absurd (returns bad)
