-- ===== src/Transaction/Unverified/Parts.antt =====
-- ethcore/transaction/src/transaction.rs: the signature that a transaction's fields spell, and the
-- chain id that its `v` holds.
use mm2_parity_ethereum.Base.{IsU256, ℕ, ◌≤◌, ◌≡◌, refl, false, none, ok, arith}
use mm2_parity_ethereum.Crates.{Crates}
use mm2_parity_ethereum.Ethkey.Signature.{from_rsv}
use mm2_parity_ethereum.Transaction.Unverified.{
  UnverifiedTransactionWrapper, r, s, v, standard_v, is_unsigned, chain_id_from_v, h256_from_u256,
  signature,
}
use mm2_parity_ethereum.Transaction.Legacy as Legacy
use mm2_parity_ethereum.Transaction.Eip2930 as Eip2930
use mm2_parity_ethereum.Transaction.Eip1559 as Eip1559
use mm2_parity_ethereum.Transaction.Unverified.Codec.{IsUnverified}

-- The parity, as a total function.
abbrev pub parity : UnverifiedTransactionWrapper → ℕ
parity (UnverifiedTransactionWrapper.legacy tx) = Legacy.standard_v tx
parity (UnverifiedTransactionWrapper.eip2930 tx) = tx.v
parity (UnverifiedTransactionWrapper.eip1559 tx) = tx.v

pub r-IsU256 : (tx : UnverifiedTransactionWrapper) → IsUnverified tx → IsU256 (r tx)
unfolding r
r-IsU256 (UnverifiedTransactionWrapper.legacy tx) h = h.r
r-IsU256 (UnverifiedTransactionWrapper.eip2930 tx) h = h.r
r-IsU256 (UnverifiedTransactionWrapper.eip1559 tx) h = h.r

pub s-IsU256 : (tx : UnverifiedTransactionWrapper) → IsUnverified tx → IsU256 (s tx)
unfolding s
s-IsU256 (UnverifiedTransactionWrapper.legacy tx) h = h.s
s-IsU256 (UnverifiedTransactionWrapper.eip2930 tx) h = h.s
s-IsU256 (UnverifiedTransactionWrapper.eip1559 tx) h = h.s

-- The `expect` of `standard_v` is never reached.
pub standard_v_lem {ℓ} :
    {E : Type ℓ} (tx : UnverifiedTransactionWrapper)
    → IsUnverified tx
    → standard_v {E = E} tx ≡ ok (parity tx)
unfolding standard_v Eip2930.standard_v Eip1559.standard_v
standard_v_lem (UnverifiedTransactionWrapper.legacy tx) h = refl
standard_v_lem (UnverifiedTransactionWrapper.eip2930 tx) h = ground (arith, h.v)
standard_v_lem (UnverifiedTransactionWrapper.eip1559 tx) h = ground (arith, h.v)

pub signature_lem {ℓ} :
    {E : Type ℓ} (c : Crates) (tx : UnverifiedTransactionWrapper)
    → IsUnverified tx
    → signature c {E = E} tx
      ≡ ok (from_rsv (c.u256_into_bytes (r tx)) (c.u256_into_bytes (s tx)) (parity tx))
unfolding signature h256_from_u256
signature_lem c tx h = rw (standard_v_lem tx h)

-- In a signed transaction the parity and the chain id are told apart by `v`.
pub chain_id_from_v-typed :
    (tx : UnverifiedTransactionWrapper)
    → is_unsigned tx ≡ false
    → v tx ≤ 36
    → chain_id_from_v tx ≡ none
unfolding chain_id_from_v
chain_id_from_v-typed tx signed h = ground arith
