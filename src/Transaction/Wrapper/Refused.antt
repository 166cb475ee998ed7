-- ===== src/Transaction/Wrapper/Refused.antt =====
-- ethcore/transaction/src/transaction.rs: when `sign` is refused, and its errors.
use mm2_parity_ethereum.Base.{Bytes, IsArray, ℕ, ◌≤◌, ◌≡◌, Option, some, ok, err}
use mm2_parity_ethereum.Crates.{Crates, CratesLaws}
use mm2_parity_ethereum.Crates.Secp.{SecpError}
use mm2_parity_ethereum.Ethkey.Error as EthkeyError
use mm2_parity_ethereum.Ethkey.Signature as Signature
use mm2_parity_ethereum.Transaction.Error.{Error, from_ethkey, invalid_signature}
use mm2_parity_ethereum.Transaction.Legacy as Legacy
use mm2_parity_ethereum.Transaction.Eip2930 as Eip2930
use mm2_parity_ethereum.Transaction.Eip1559 as Eip1559
use mm2_parity_ethereum.Transaction.Unverified.{TransactionWrapper}
use mm2_parity_ethereum.Transaction.Wrapper.{message_hash, sign}
use mm2_parity_ethereum.Transaction.Wrapper.Fails.{sign-no_parity, sign-chain_id_zero}

-- A transaction and a chain id that cannot be signed for with the secret, and the error.
pub data Refused (c : Crates) (secret : Bytes)
    : TransactionWrapper → Option ℕ → Error → Type 0 where
  -- The crate does not take the secret for a key.
  bad_key :
      (tx : TransactionWrapper) (chain_id : Option ℕ) (e : SecpError)
      → c.secret_key_from_slice secret ≡ err e
      → Refused c secret tx chain_id (from_ethkey (EthkeyError.from_secp e))
  -- The recovery id of the signature is no parity.
  no_parity :
      (tx : TransactionWrapper) (chain_id : Option ℕ)
      → c.secret_key_from_slice secret ≡ ok secret
      → 2 ≤ (c.sign_recoverable (message_hash c tx chain_id) secret).0
      → Refused c secret tx chain_id (invalid_signature "invalid sig v")
  -- A legacy transaction for the chain id 0.
  chain_id_zero :
      (tx : Legacy.LegacyTransaction)
      → c.secret_key_from_slice secret ≡ ok secret
      → (c.sign_recoverable (message_hash c (TransactionWrapper.legacy tx) (some 0)) secret).0 ≤ 1
      → Refused c secret
          (TransactionWrapper.legacy tx)
          (some 0)
          (from_ethkey EthkeyError.Error.invalid_signature)

module _ (c : Crates) (laws : CratesLaws c) (secret : Bytes) where
  message_hash-IsArray :
      (tx : TransactionWrapper) (chain_id : Option ℕ) → IsArray 32 (message_hash c tx chain_id)
  unfolding message_hash Legacy.message_hash Eip2930.message_hash Eip1559.message_hash
  message_hash-IsArray (TransactionWrapper.legacy tx) chain_id = laws.keccak-IsArray _
  message_hash-IsArray (TransactionWrapper.eip2930 tx) chain_id = laws.keccak-IsArray _
  message_hash-IsArray (TransactionWrapper.eip1559 tx) chain_id = laws.keccak-IsArray _

  sign-bad_key :
      (tx : TransactionWrapper) (chain_id : Option ℕ) (e : SecpError)
      → c.secret_key_from_slice secret ≡ err e
      → sign c tx secret chain_id ≡ err (from_ethkey (EthkeyError.from_secp e))
  unfolding sign Signature.sign
  sign-bad_key tx chain_id e bad = rw (
    laws.secp_laws.message_from_slice_lem (message_hash c tx chain_id)
        (message_hash-IsArray tx chain_id),
    bad,
  )

  -- A transaction that cannot be signed for is refused with the error.
  pub sign-Refused :
      (tx : TransactionWrapper) (chain_id : Option ℕ) (e : Error)
      → Refused c secret tx chain_id e
      → sign c tx secret chain_id ≡ err e
  sign-Refused _ _ _ (bad_key tx chain_id e bad) = sign-bad_key tx chain_id e bad
  sign-Refused _ _ _ (no_parity tx chain_id valid high) =
      sign-no_parity c laws tx secret chain_id valid high
  sign-Refused _ _ _ (chain_id_zero tx valid parity) =
      sign-chain_id_zero c laws tx secret valid parity
