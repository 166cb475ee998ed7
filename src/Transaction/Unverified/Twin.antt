-- ===== src/Transaction/Unverified/Twin.antt =====
-- ethcore/transaction/src/transaction.rs: the second signature that every signed transaction has.
use mm2_parity_ethereum.Base.{
  IsArray, IsU256, ℕ, ◌+◌, ◌-◌, ◌≤◌, ◌<◌, ◌≡◌, ◌≢◌, ◌↔◌, refl, ok, arith, ◌==◌, if◌then◌else◌,
  Option,
}
use mm2_parity_ethereum.Crates.{Crates, CratesLaws}
use mm2_parity_ethereum.Crates.Secp.{SecpSymmetry}
use mm2_parity_ethereum.Crates.Types.{be_value}
use mm2_parity_ethereum.Ethkey.Signature.{order}
use mm2_parity_ethereum.Ethkey.Signature.Negated.{recover-negated}
use mm2_parity_ethereum.Transaction.Eip155.{check_replay_protection}
use mm2_parity_ethereum.Transaction.Legacy as Legacy
use mm2_parity_ethereum.Transaction.Eip2930 as Eip2930
use mm2_parity_ethereum.Transaction.Eip1559 as Eip1559
use mm2_parity_ethereum.Transaction.Shared.{legacy_shared, eip2930_shared, eip1559_shared}
use mm2_parity_ethereum.Transaction.Unverified.{
  UnverifiedTransactionWrapper, r, s, v, is_unsigned, chain_id_from_v, check_low_s, unsigned,
  recover_public,
}
use mm2_parity_ethereum.Transaction.Unverified.Codec.{IsUnverified}
use mm2_parity_ethereum.Transaction.Unverified.Parts.{parity, signature_lem, r-IsU256, s-IsU256}
use mm2_parity_ethereum.Transaction.Unverified.Verify.{check_low_s_lem}

-- The same transaction with the other signature of its hash: the negative of `s`, and the other parity.
abbrev pub twin : UnverifiedTransactionWrapper → UnverifiedTransactionWrapper
twin (UnverifiedTransactionWrapper.legacy tx) = UnverifiedTransactionWrapper.legacy (record tx {
  network_v =
      if check_replay_protection tx.network_v == 0 then tx.network_v + 1 else tx.network_v - 1;
  s = be_value order - tx.s;
})
twin (UnverifiedTransactionWrapper.eip2930 tx) =
    UnverifiedTransactionWrapper.eip2930 (record tx { v = 1 - tx.v; s = be_value order - tx.s })
twin (UnverifiedTransactionWrapper.eip1559 tx) =
    UnverifiedTransactionWrapper.eip1559 (record tx { v = 1 - tx.v; s = be_value order - tx.s })

-- An `s` that has a negative, and a valid `v` other than the last one of `u64`.
pub record HasTwin (tx : UnverifiedTransactionWrapper) : Type 0 where
  pub s_pos : 0 < s tx
  pub s_lt : s tx < be_value order
  pub v_lt : v tx + 1 < 0x10000000000000000
  pub parity_le : parity tx ≤ 1

-- The twin has valid fields too.
twin-IsUnverified :
    (tx : UnverifiedTransactionWrapper) → IsUnverified tx → HasTwin tx → IsUnverified (twin tx)
unfolding check_replay_protection s v Legacy.standard_v
twin-IsUnverified (UnverifiedTransactionWrapper.legacy tx) h t = ground arith
twin-IsUnverified (UnverifiedTransactionWrapper.eip2930 tx) h t = ground arith
twin-IsUnverified (UnverifiedTransactionWrapper.eip1559 tx) h t = ground arith

r-twin : (tx : UnverifiedTransactionWrapper) → r (twin tx) ≡ r tx
unfolding r
r-twin (UnverifiedTransactionWrapper.legacy tx) = refl
r-twin (UnverifiedTransactionWrapper.eip2930 tx) = refl
r-twin (UnverifiedTransactionWrapper.eip1559 tx) = refl

s-twin : (tx : UnverifiedTransactionWrapper) → HasTwin tx → s tx + s (twin tx) ≡ be_value order
unfolding s
s-twin (UnverifiedTransactionWrapper.legacy tx) t = ground arith
s-twin (UnverifiedTransactionWrapper.eip2930 tx) t = ground arith
s-twin (UnverifiedTransactionWrapper.eip1559 tx) t = ground arith

parity-twin : (tx : UnverifiedTransactionWrapper) → HasTwin tx → parity (twin tx) ≡ 1 - parity tx
unfolding check_replay_protection Legacy.standard_v v
parity-twin (UnverifiedTransactionWrapper.legacy tx) t = ground arith
parity-twin (UnverifiedTransactionWrapper.eip2930 tx) t = ground arith
parity-twin (UnverifiedTransactionWrapper.eip1559 tx) t = ground arith

chain_id_from_v-twin :
    (tx : UnverifiedTransactionWrapper)
    → HasTwin tx
    → chain_id_from_v (twin tx) ≡ chain_id_from_v tx
unfolding chain_id_from_v is_unsigned r s v check_replay_protection Legacy.standard_v
chain_id_from_v-twin (UnverifiedTransactionWrapper.legacy tx) t = ground arith
chain_id_from_v-twin (UnverifiedTransactionWrapper.eip2930 tx) t = ground arith
chain_id_from_v-twin (UnverifiedTransactionWrapper.eip1559 tx) t = ground arith

unsigned-twin :
    (c : Crates) (tx : UnverifiedTransactionWrapper) → unsigned c (twin tx) ≡ unsigned c tx
unfolding unsigned
unsigned-twin c (UnverifiedTransactionWrapper.legacy tx) = refl
unsigned-twin c (UnverifiedTransactionWrapper.eip2930 tx) = refl
unsigned-twin c (UnverifiedTransactionWrapper.eip1559 tx) = refl

module _ (c : Crates) (laws : CratesLaws c) where
  message_hash-IsArray :
      (tx : UnverifiedTransactionWrapper) (chain_id : Option ℕ)
      → IsArray 32 ((unsigned c tx).message_hash chain_id)
  unfolding unsigned legacy_shared eip2930_shared eip1559_shared Legacy.message_hash
      Eip2930.message_hash Eip1559.message_hash
  message_hash-IsArray (UnverifiedTransactionWrapper.legacy tx) chain_id = laws.keccak-IsArray _
  message_hash-IsArray (UnverifiedTransactionWrapper.eip2930 tx) chain_id = laws.keccak-IsArray _
  message_hash-IsArray (UnverifiedTransactionWrapper.eip1559 tx) chain_id = laws.keccak-IsArray _

  module _ (tx : UnverifiedTransactionWrapper) (h : IsUnverified tx) (t : HasTwin tx) where
    -- The bytes of a half of the signature.
    word-IsArray : (n : ℕ) → IsU256 n → IsArray 32 (c.u256_into_bytes n)
    word-IsArray = laws.types_laws.u256_into_bytes-IsArray

    recover_public-twin : SecpSymmetry c.secp → recover_public c (twin tx) ≡ recover_public c tx
    unfolding recover_public
    recover_public-twin symmetry =
        let h' = twin-IsUnverified tx h t in
        let hs = s-IsU256 tx h in
        let hs' = s-IsU256 (twin tx) h' in
        let value = laws.types_laws.be_value-u256_into_bytes in
        rw
          (
            signature_lem c tx h,
            signature_lem c (twin tx) h',
            r-twin tx,
            parity-twin tx t,
            chain_id_from_v-twin tx t,
            unsigned-twin c tx,
          )
          (recover-negated c laws symmetry (c.u256_into_bytes (r tx)) (c.u256_into_bytes (s tx))
            (c.u256_into_bytes (s (twin tx))) _ (parity tx) (word-IsArray (r tx) (r-IsU256 tx h))
            (word-IsArray (s tx) hs) (word-IsArray (s (twin tx)) hs')
            (message_hash-IsArray tx (chain_id_from_v tx)) (rw (value (s tx) hs) t.s_pos)
            (rw (value (s (twin tx)) hs') (omega (arith, s-twin tx t, t.s_lt)))
            (rw (value (s tx) hs, value (s (twin tx)) hs') (s-twin tx t)) t.parity_le)

    -- A transaction of valid fields, whose `s` is neither 0 nor as high as the order and whose `v` is
    -- valid and not the last one of `u64`, has a twin: with the negative of `s` and the other parity in
    -- `v`. The twin has valid fields too; where the crate's curve is symmetric, the same key is recovered
    -- from it, or the same error; and exactly one of the two passes the test for a low `s`.
    pub check_low_s-twin :
        SecpSymmetry c.secp
        → IsUnverified (twin tx)
          × (recover_public c (twin tx) ≡ recover_public c tx)
          × ((check_low_s c (twin tx) ≡ ok tt) ↔ (check_low_s c tx ≢ ok tt))
    check_low_s-twin symmetry = (
      twin-IsUnverified tx h t,
      recover_public-twin symmetry,
      rw (check_low_s_lem c laws tx h, check_low_s_lem c laws (twin tx) (twin-IsUnverified tx h t))
          (ground (arith, s-twin tx t)),
    )
