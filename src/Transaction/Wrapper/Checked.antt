-- ===== src/Transaction/Wrapper/Checked.antt =====
-- ethcore/transaction/src: signing, as a build with overflow checks runs it.
use mm2_parity_ethereum.Base.{
  Bytes, ℕ, ◌+◌, ◌*◌, ◌^◌, ◌≤◌, ◌≡◌, refl, ap, ◌⊎◌, inl, inr, not, Option, none, some, Result, ok,
  err, panic, ◌>>=◌, map_err, arith, ltb, if◌then◌else◌, Bool-cases, ltb→lt,
}
use mm2_parity_ethereum.Crates.{Crates, CratesLaws}
use mm2_parity_ethereum.Ethkey.Signature as Signature
use mm2_parity_ethereum.Ethkey.Signature.Recovery.{sign_lem, v-sign}
use mm2_parity_ethereum.Transaction.Error.{Error, from_ethkey, invalid_signature}
use mm2_parity_ethereum.Transaction.Eip155.{add_chain_replay_protection}
use mm2_parity_ethereum.Transaction.Eip155.Checked.{add_chain_replay_protection_checked}
use mm2_parity_ethereum.Transaction.Legacy as Legacy
use mm2_parity_ethereum.Transaction.Unverified.{
  TransactionWrapper, UnverifiedTransactionWrapper, new_wrapper, compute_hash,
}
use mm2_parity_ethereum.Transaction.Signed.{SignedTransaction, new_signed}
use mm2_parity_ethereum.Transaction.Wrapper.{message_hash, with_signature, sign}
use mm2_parity_ethereum.Transaction.Wrapper.Sign.{hash-IsArray}

unfoldable pub new_with_chain_id_checked :
    Legacy.LegacyTransaction
    → ℕ
    → ℕ
    → ℕ
    → Option ℕ
    → Bytes
    → Result Error Legacy.UnverifiedLegacyTransaction
unfolding add_chain_replay_protection_checked
new_with_chain_id_checked unsigned r s v chain_id hash =
    if not (Legacy.validate_v v) then err (invalid_signature "invalid sig v") else do
      network_v ← add_chain_replay_protection_checked v chain_id
      ok (record { unsigned = unsigned; network_v = network_v; r = r; s = s; hash = hash })

-- Only a legacy transaction's `v` is computed.
unfoldable pub new_wrapper_checked :
    TransactionWrapper → ℕ → ℕ → ℕ → Option ℕ → Bytes → Result Error UnverifiedTransactionWrapper
unfolding new_with_chain_id_checked
new_wrapper_checked (TransactionWrapper.legacy unsigned) r s v chain_id hash = do
  tx ← new_with_chain_id_checked unsigned r s v chain_id hash
  ok (UnverifiedTransactionWrapper.legacy tx)
new_wrapper_checked (TransactionWrapper.eip2930 unsigned) r s v chain_id hash =
    new_wrapper (TransactionWrapper.eip2930 unsigned) r s v chain_id hash
new_wrapper_checked (TransactionWrapper.eip1559 unsigned) r s v chain_id hash =
    new_wrapper (TransactionWrapper.eip1559 unsigned) r s v chain_id hash

module _ (c : Crates) where
  unfoldable pub with_signature_checked :
      TransactionWrapper → Bytes → Option ℕ → Result Error UnverifiedTransactionWrapper
  unfolding new_wrapper_checked
  with_signature_checked tx sig chain_id = do
    unverified ←
        new_wrapper_checked tx (c.u256_from_bytes (Signature.r sig))
          (c.u256_from_bytes (Signature.s sig)) (Signature.v sig) chain_id
          (c.h256_from_low_u64_ne 0)
    ok (compute_hash c unverified)

  unfoldable pub sign_checked :
      TransactionWrapper → Bytes → Option ℕ → Result Error SignedTransaction
  unfolding with_signature_checked
  sign_checked tx secret chain_id = do
    sig ← map_err from_ethkey (Signature.sign c secret (message_hash c tx chain_id))
    unverified ← with_signature_checked tx sig chain_id
    map_err from_ethkey (new_signed c unverified)

-- The `v` of a legacy transaction, made of a recovery id and a chain id, is no `u64`.
abbrev pub Overflows : TransactionWrapper → ℕ → Option ℕ → Type 0
Overflows (TransactionWrapper.legacy tx) v (some n) = 2 ^ 64 ≤ v + 35 + n * 2
Overflows _ v _ = ⊥

-- One of two runs: the same as that of a build without checks, or a panic.
abbrev Differs {ℓ} : {A : Type ℓ} → Type 0 → Result Error A → Result Error A → Type ℓ
Differs overflow checked plain = ((¬ overflow) × (checked ≡ plain)) ⊎ (overflow × (checked ≡ panic))

new_wrapper_checked_lem :
    (tx : TransactionWrapper) (r s v : ℕ) (chain_id : Option ℕ) (hash : Bytes)
    → v ≤ 1
    → Differs
        (Overflows tx v chain_id)
        (new_wrapper_checked tx r s v chain_id hash)
        (new_wrapper tx r s v chain_id hash)
unfolding new_wrapper_checked new_wrapper Legacy.new_with_chain_id add_chain_replay_protection
    Legacy.validate_v
new_wrapper_checked_lem (TransactionWrapper.legacy tx) r s v none hash parity =
    inl (λ h. h, ground arith)
new_wrapper_checked_lem (TransactionWrapper.legacy tx) r s v (some n) hash parity =
    elim (Bool-cases (ltb (v + 35 + n * 2) (2 ^ 64))) [
      | inl fits ↦ inl (λ h. omega (arith, ltb→lt (v + 35 + n * 2) (2 ^ 64) fits), ground arith)
      | inr over ↦ inr (ground arith, ground arith)
    ]
new_wrapper_checked_lem (TransactionWrapper.eip2930 tx) r s v chain_id hash parity =
    inl (λ h. h, refl)
new_wrapper_checked_lem (TransactionWrapper.eip1559 tx) r s v chain_id hash parity =
    inl (λ h. h, refl)

-- What follows a first step that differs.
Differs-bind :
    {A B : Type 0} (overflow : Type 0) (checked plain : Result Error A) (next : A → Result Error B)
    → Differs overflow checked plain
    → Differs overflow (checked >>= next) (plain >>= next)
Differs-bind overflow checked plain next (inl (no_overflow, e)) =
    inl (no_overflow, ap (λ m. m >>= next) e)
Differs-bind overflow checked plain next (inr (over, e)) = inr (over, rw e refl)

-- A transaction of any kind is signed with a valid key where the recovery id of the signature is a
-- parity: a build with overflow checks panics exactly where it is a legacy one and 35, the parity and
-- twice the chain id are together no `u64`, and returns what a build without them does otherwise.
pub sign_checked_lem :
    (c : Crates) (laws : CratesLaws c) (tx : TransactionWrapper) (secret : Bytes)
    (chain_id : Option ℕ)
    → c.secret_key_from_slice secret ≡ ok secret
    → (c.sign_recoverable (message_hash c tx chain_id) secret).0 ≤ 1
    → let overflow =
        Overflows tx (c.sign_recoverable (message_hash c tx chain_id) secret).0 chain_id in
      ((¬ overflow) × (sign_checked c tx secret chain_id ≡ sign c tx secret chain_id))
      ⊎ (overflow × (sign_checked c tx secret chain_id ≡ panic))
unfolding sign sign_checked with_signature with_signature_checked
sign_checked_lem c laws tx secret chain_id valid parity =
    let hm = hash-IsArray c laws tx secret chain_id valid in
    let m = message_hash c tx chain_id in
    let overflow = Overflows tx (c.sign_recoverable m secret).0 chain_id in
    rw (sign_lem c laws m secret hm valid, v-sign c laws m secret hm valid)
      (Differs-bind overflow _ _ (λ u. map_err from_ethkey (new_signed c u))
        (Differs-bind overflow _ _ (λ u. ok (compute_hash c u))
          (new_wrapper_checked_lem tx _ _ (c.sign_recoverable m secret).0 chain_id _ parity)))
