-- ===== src/Transaction/Unverified/Canonical.antt =====
-- ethcore/transaction/src/transaction.rs: bytes that decode, and the ones that they should have been.
use mm2_parity_ethereum.Base.{
  Bytes, ◌≡◌, refl, subst, Bool, ◌>>=◌, if◌then◌else◌, true, false, ok, >>=-eq-ok, ok-injective,
  first_byte,
}
use mm2_parity_ethereum.Crates.{Crates}
use mm2_parity_ethereum.Crates.Rlp.{RlpLaws, RlpRanges, DecoderError}
use mm2_parity_ethereum.Crates.Rlp.Stream.{new}
use mm2_parity_ethereum.Transaction.TxType.{TxType, type1, type2, from_u8}
use mm2_parity_ethereum.Transaction.Legacy as Legacy
use mm2_parity_ethereum.Transaction.Eip2930 as Eip2930
use mm2_parity_ethereum.Transaction.Eip1559 as Eip1559
use mm2_parity_ethereum.Transaction.Unverified.{
  UnverifiedTransactionWrapper, is_typed_transaction, decode_typed, decode, compute_hash, tx_hash,
  rlp_append_sealed_transaction,
}
use mm2_parity_ethereum.Transaction.Unverified.Codec.{
  IsUnverified, decode-rlp_append_sealed_transaction,
}
use mm2_parity_ethereum.Transaction.Unverified.Hashes.{decode_lem}
use mm2_parity_ethereum.Transaction.Unverified.Ranges.Kinds.{
  decode-IsUnverifiedLegacy, decode-IsUnverifiedEip2930, decode-IsUnverifiedEip1559,
}

module _ (c : Crates) (ranges : RlpRanges c.rlp) (d : Bytes) where
  decode_legacy-IsUnverified :
      (tx : UnverifiedTransactionWrapper)
      → (Legacy.decode c d >>= λ t. ok (UnverifiedTransactionWrapper.legacy t)) ≡ ok tx
      → IsUnverified tx
  decode_legacy-IsUnverified tx e =
      let (t, read, made) = >>=-eq-ok (Legacy.decode c d) _ e in
      subst IsUnverified (ok-injective made) (decode-IsUnverifiedLegacy c ranges d t read)

  decode_typed-IsUnverified :
      (type : TxType) (tx : UnverifiedTransactionWrapper)
      → decode_typed c type d ≡ ok tx
      → IsUnverified tx
  unfolding decode_typed
  decode_typed-IsUnverified type1 tx e =
      let (t, read, made) = >>=-eq-ok (Eip2930.decode c d) _ e in
      subst IsUnverified (ok-injective made) (decode-IsUnverifiedEip2930 c ranges d t read)
  decode_typed-IsUnverified type2 tx e =
      let (t, read, made) = >>=-eq-ok (Eip1559.decode c d) _ e in
      subst IsUnverified (ok-injective made) (decode-IsUnverifiedEip1559 c ranges d t read)
  decode_typed-IsUnverified _ tx e = cc

  decode_as-IsUnverified :
      (typed : Bool) (tx : UnverifiedTransactionWrapper)
      → (if typed
          then (do version ← first_byte d; decode_typed c (from_u8 version) d)
          else do t ← Legacy.decode c d; ok (UnverifiedTransactionWrapper.legacy t))
        ≡ ok tx
      → IsUnverified tx
  decode_as-IsUnverified true tx e =
      let (version, _, rest) = >>=-eq-ok (first_byte d) _ e in
      decode_typed-IsUnverified (from_u8 version) tx rest
  decode_as-IsUnverified false tx e = decode_legacy-IsUnverified tx e

  -- Whatever the bytes, a transaction that they decode to has fields of their Rust types.
  pub decode-IsUnverified :
      (tx : UnverifiedTransactionWrapper) → decode c d ≡ ok tx → IsUnverified tx
  unfolding decode
  decode-IsUnverified tx e =
      let (typed, _, rest) = >>=-eq-ok (is_typed_transaction c {E = DecoderError} d) _ e in
      decode_as-IsUnverified typed tx rest

-- The bytes that a transaction is serialised to.
abbrev pub canonical : Crates → UnverifiedTransactionWrapper → Bytes
canonical c tx = c.out (rlp_append_sealed_transaction tx new)

-- The hash is not serialised.
canonical-compute_hash :
    (c : Crates) (tx : UnverifiedTransactionWrapper)
    → canonical c (compute_hash c tx) ≡ canonical c tx
unfolding rlp_append_sealed_transaction compute_hash Legacy.compute_hash Eip2930.compute_hash
    Eip1559.compute_hash
canonical-compute_hash c (UnverifiedTransactionWrapper.legacy tx) = refl
canonical-compute_hash c (UnverifiedTransactionWrapper.eip2930 tx) = refl
canonical-compute_hash c (UnverifiedTransactionWrapper.eip1559 tx) = refl

-- Whatever the bytes, if the values that the crate reads are of their Rust types: a transaction that
-- they decode to has fields of their types, and is serialised to bytes that decode to the same
-- transaction with the hash of these bytes in place of that of the first ones; and this is serialised to
-- the same bytes again.
pub decode-canonical :
    (c : Crates) (laws : RlpLaws c.rlp) (ranges : RlpRanges c.rlp) (d : Bytes)
    (tx : UnverifiedTransactionWrapper)
    → decode c d ≡ ok tx
    → IsUnverified tx
      × (tx_hash tx ≡ c.keccak d)
      × (decode c (canonical c tx) ≡ ok (compute_hash c tx))
      × (tx_hash (compute_hash c tx) ≡ c.keccak (canonical c tx))
      × (canonical c (compute_hash c tx) ≡ canonical c tx)
decode-canonical c laws ranges d tx e =
    let valid = decode-IsUnverified c ranges d tx e in
    let again = decode-rlp_append_sealed_transaction c laws tx valid in
    (
      valid,
      (decode_lem c d tx e).0,
      again,
      (decode_lem c (canonical c tx) (compute_hash c tx) again).0,
      canonical-compute_hash c tx,
    )
