-- ===== src/Transaction/Unverified/Hashes.antt =====
-- ethcore/transaction/src/transaction.rs: the hash and the kind of a transaction that bytes decode to.
use mm2_parity_ethereum.Base.{
  Bytes, ◌≡◌, ◌∙◌, ap, sym, >>=-eq-ok, true, false, first_byte, ok, arith, Bool-cases, inl, inr,
  refl,
}
use mm2_parity_ethereum.Crates.{Crates}
use mm2_parity_ethereum.Crates.Rlp.{DecoderError, RlpLaws}
use mm2_parity_ethereum.Crates.Rlp.Stream.{new}
use mm2_parity_ethereum.Transaction.Unverified.Codec.{
  IsUnverified, decode-rlp_append_sealed_transaction,
}
use mm2_parity_ethereum.Transaction.TxType.{from_u8}
use mm2_parity_ethereum.Transaction.Unverified.{
  UnverifiedTransactionWrapper, is_typed_transaction, decode_typed, decode, tx_hash, compute_hash,
  rlp_append_sealed_transaction,
}
use mm2_parity_ethereum.Transaction.Legacy as Legacy
use mm2_parity_ethereum.Transaction.Eip2930 as Eip2930
use mm2_parity_ethereum.Transaction.Eip1559 as Eip1559

module _ (c : Crates) (d : Bytes) where
  -- The kind of a transaction is the one that its bytes announce.
  abbrev pub HasKind : UnverifiedTransactionWrapper → Type 0
  HasKind (UnverifiedTransactionWrapper.legacy tx) =
      is_typed_transaction c {E = DecoderError} d ≡ ok false
  HasKind (UnverifiedTransactionWrapper.eip2930 tx) =
      (is_typed_transaction c {E = DecoderError} d ≡ ok true)
      × (first_byte {E = DecoderError} d ≡ ok 1)
  HasKind (UnverifiedTransactionWrapper.eip1559 tx) =
      (is_typed_transaction c {E = DecoderError} d ≡ ok true)
      × (first_byte {E = DecoderError} d ≡ ok 2)

  legacy-hash :
      (tx : Legacy.UnverifiedLegacyTransaction) → Legacy.decode c d ≡ ok tx → tx.hash ≡ c.keccak d
  unfolding Legacy.decode
  legacy-hash tx e = ground arith

  eip2930-hash :
      (tx : Eip2930.UnverifiedEip2930Transaction)
      → Eip2930.decode c d ≡ ok tx
      → tx.hash ≡ c.keccak d
  unfolding Eip2930.decode
  eip2930-hash tx e = ground arith

  eip1559-hash :
      (tx : Eip1559.UnverifiedEip1559Transaction)
      → Eip1559.decode c d ≡ ok tx
      → tx.hash ≡ c.keccak d
  unfolding Eip1559.decode
  eip1559-hash tx e = ground arith

  decode-typed :
      (tx : UnverifiedTransactionWrapper)
      → is_typed_transaction c {E = DecoderError} d ≡ ok true
      → decode c d ≡ ok tx
      → (tx_hash tx ≡ c.keccak d) × HasKind tx
  unfolding decode decode_typed tx_hash from_u8
  decode-typed (UnverifiedTransactionWrapper.legacy tx) typed e = ground arith
  decode-typed (UnverifiedTransactionWrapper.eip2930 tx) typed e = ground (arith, eip2930-hash tx)
  decode-typed (UnverifiedTransactionWrapper.eip1559 tx) typed e = ground (arith, eip1559-hash tx)

  decode-untyped :
      (tx : UnverifiedTransactionWrapper)
      → is_typed_transaction c {E = DecoderError} d ≡ ok false
      → decode c d ≡ ok tx
      → (tx_hash tx ≡ c.keccak d) × HasKind tx
  unfolding decode tx_hash
  decode-untyped (UnverifiedTransactionWrapper.legacy tx) untyped e = ground (arith, legacy-hash tx)
  decode-untyped (UnverifiedTransactionWrapper.eip2930 tx) untyped e = ground arith
  decode-untyped (UnverifiedTransactionWrapper.eip1559 tx) untyped e = ground arith

  -- Whatever the bytes, a transaction that they decode to has the hash of all of them, and its kind is
  -- the one they announce: EIP-2930 or EIP-1559 where they are a type byte 1 or 2 and what follows, and
  -- legacy where they are of no typed transaction.
  pub decode_lem :
      (tx : UnverifiedTransactionWrapper)
      → decode c d ≡ ok tx
      → (tx_hash tx ≡ c.keccak d) × HasKind tx
  unfolding decode
  decode_lem tx e =
      let (typed, announced, _) = >>=-eq-ok (is_typed_transaction c {E = DecoderError} d) _ e in
      elim (Bool-cases typed) [
        | inl true_typed ↦ decode-typed tx (announced ∙ ap ok true_typed) e
        | inr false_typed ↦ decode-untyped tx (announced ∙ ap ok false_typed) e
      ]

module _ (c : Crates) where
  -- The bytes that a transaction is serialised to.
  abbrev pub sealed_bytes : UnverifiedTransactionWrapper → Bytes
  sealed_bytes tx = c.out (rlp_append_sealed_transaction tx new)

  tx_hash-compute_hash :
      (tx : UnverifiedTransactionWrapper) → tx_hash (compute_hash c tx) ≡ c.keccak (sealed_bytes tx)
  unfolding tx_hash compute_hash Legacy.compute_hash Eip2930.compute_hash Eip1559.compute_hash
      rlp_append_sealed_transaction
  tx_hash-compute_hash (UnverifiedTransactionWrapper.legacy tx) = refl
  tx_hash-compute_hash (UnverifiedTransactionWrapper.eip2930 tx) = refl
  tx_hash-compute_hash (UnverifiedTransactionWrapper.eip1559 tx) = refl

  -- Two transactions of any kinds, of valid fields, whose hashes were computed have the same hash only
  -- if they are the same, of one kind and with the same fields and signature, unless the hash function
  -- collides on the bytes that the two are serialised to.
  pub tx_hash-injective :
      (laws : RlpLaws c.rlp) (tx tx' : UnverifiedTransactionWrapper)
      → IsUnverified tx
      → IsUnverified tx'
      → (c.keccak (sealed_bytes tx) ≡ c.keccak (sealed_bytes tx')
          → sealed_bytes tx ≡ sealed_bytes tx')
      → tx_hash (compute_hash c tx) ≡ tx_hash (compute_hash c tx')
      → compute_hash c tx ≡ compute_hash c tx'
  tx_hash-injective laws tx tx' h h' no_collision e =
      let bytes = no_collision (sym (tx_hash-compute_hash tx) ∙ e ∙ tx_hash-compute_hash tx') in
      let decoded =
        sym (decode-rlp_append_sealed_transaction c laws tx h)
        ∙ ap (decode c) bytes
        ∙ decode-rlp_append_sealed_transaction c laws tx' h' in
      cc
