-- ===== src/Transaction/Unverified/Codec.antt =====
-- ethcore/transaction/src/transaction.rs: decoding the bytes of a signed transaction of any kind.
use mm2_parity_ethereum.Base.{Bytes, ℕ, ◌<◌, ◌≡◌, ◌≢◌, ◌∷◌, ok, err, ◌>>=◌, arith}
use mm2_parity_ethereum.Crates.{Crates}
use mm2_parity_ethereum.Crates.Rlp.{RlpLaws, DecoderError}
use mm2_parity_ethereum.Crates.Rlp.Tree.{Items, list, AreItems, length_items}
use mm2_parity_ethereum.Crates.Rlp.Stream.{new}
use mm2_parity_ethereum.Transaction.TxType.{from_u8}
use mm2_parity_ethereum.Transaction.Unverified.{
  UnverifiedTransactionWrapper, is_typed_transaction, decode_typed, decode, compute_hash,
  rlp_append_sealed_transaction,
}
use mm2_parity_ethereum.Transaction.Legacy as Legacy
use mm2_parity_ethereum.Transaction.Legacy.Codec as LegacyCodec
use mm2_parity_ethereum.Transaction.Eip2930 as Eip2930
use mm2_parity_ethereum.Transaction.Eip2930.Codec as Eip2930Codec
use mm2_parity_ethereum.Transaction.Eip1559 as Eip1559
use mm2_parity_ethereum.Transaction.Eip1559.Codec as Eip1559Codec

-- The ranges of the Rust types, and a parity in typed transactions.
abbrev pub IsUnverified : UnverifiedTransactionWrapper → Type 0
IsUnverified (UnverifiedTransactionWrapper.legacy tx) = LegacyCodec.IsUnverifiedLegacy tx
IsUnverified (UnverifiedTransactionWrapper.eip2930 tx) = Eip2930Codec.IsUnverifiedEip2930 tx
IsUnverified (UnverifiedTransactionWrapper.eip1559 tx) = Eip1559Codec.IsUnverifiedEip1559 tx

module _ (c : Crates) (laws : RlpLaws c.rlp) where
  decode-list :
      (xs : Items)
      → AreItems xs
      → decode c (laws.encode (list xs)) ≡ (
          Legacy.decode c (laws.encode (list xs)) >>= λ tx.
          ok (UnverifiedTransactionWrapper.legacy tx))
  unfolding decode is_typed_transaction
  decode-list xs items =
      let (b, bs, e, high) = laws.encode-list xs items in rw (e, laws.is_list_above b bs high)

  pub decode-type_byte :
      (b : ℕ) (bs : Bytes) → b < 0x7f → decode c (b ∷ bs) ≡ decode_typed c (from_u8 b) (b ∷ bs)
  unfolding decode is_typed_transaction
  decode-type_byte b bs h = rw (laws.is_list_below b bs (omega arith)) (ground arith)

  unsupported :
      (b : ℕ) (bs : Bytes)
      → b ≢ 1
      → b ≢ 2
      → decode_typed c (from_u8 b) (b ∷ bs) ≡ err (DecoderError.custom "unsupported tx version")
  unfolding decode_typed from_u8
  unsupported b bs one two = ground arith

  -- The bytes that a signed transaction of any kind, of valid fields, is serialised to decode to it, with its hash set to the hash
  -- of these bytes.
  pub decode-rlp_append_sealed_transaction :
      (tx : UnverifiedTransactionWrapper)
      → IsUnverified tx
      → decode c (c.out (rlp_append_sealed_transaction tx new)) ≡ ok (compute_hash c tx)
  unfolding rlp_append_sealed_transaction compute_hash decode_typed from_u8
  decode-rlp_append_sealed_transaction (UnverifiedTransactionWrapper.legacy tx) h =
      let bytes = LegacyCodec.out-rlp_append_sealed_transaction c laws tx h in
      rw (
        bytes,
        decode-list (LegacyCodec.sealed_fields tx) (LegacyCodec.sealed_fields-AreItems tx h),
        ← bytes,
        LegacyCodec.decode-rlp_append_sealed_transaction c laws tx h,
      )
  decode-rlp_append_sealed_transaction (UnverifiedTransactionWrapper.eip2930 tx) h =
      let bytes = Eip2930Codec.out-rlp_append_sealed_transaction c laws tx h in
      rw (
        bytes,
        decode-type_byte 1 (laws.encode (list (Eip2930Codec.sealed_fields tx))) (omega arith),
        ← bytes,
        Eip2930Codec.decode-rlp_append_sealed_transaction c laws tx h,
      )
  decode-rlp_append_sealed_transaction (UnverifiedTransactionWrapper.eip1559 tx) h =
      let bytes = Eip1559Codec.out-rlp_append_sealed_transaction c laws tx h in
      rw (
        bytes,
        decode-type_byte 2 (laws.encode (list (Eip1559Codec.sealed_fields tx))) (omega arith),
        ← bytes,
        Eip1559Codec.decode-rlp_append_sealed_transaction c laws tx h,
      )

  -- Bytes whose first is below 0x7f and neither 1 nor 2 are refused as of an unsupported version,
  -- whatever follows.
  pub decode-unsupported :
      (b : ℕ) (bs : Bytes)
      → b < 0x7f
      → b ≢ 1
      → b ≢ 2
      → decode c (b ∷ bs) ≡ err (DecoderError.custom "unsupported tx version")
  decode-unsupported b bs h one two = rw (decode-type_byte b bs h) (unsupported b bs one two)

  decode-eip1559_and :
      (tx : Eip1559.UnverifiedEip1559Transaction) (more : Items)
      → Eip1559Codec.IsUnverifiedEip1559 tx
      → AreItems more
      → decode c (2 ∷ laws.encode (list (Eip1559Codec.sealed_fields_and tx more)))
        ≡ ok (
            UnverifiedTransactionWrapper.eip1559 (record tx {
              hash = c.keccak (2 ∷ laws.encode (list (Eip1559Codec.sealed_fields_and tx more)));
            }))
  unfolding decode_typed from_u8
  decode-eip1559_and tx more h k = rw (
    decode-type_byte 2 (laws.encode (list (Eip1559Codec.sealed_fields_and tx more))) (omega arith),
    Eip1559Codec.decode-fields c laws tx more h k,
  )

  decode-eip2930_and :
      (tx : Eip2930.UnverifiedEip2930Transaction) (more : Items)
      → Eip2930Codec.IsUnverifiedEip2930 tx
      → AreItems more
      → decode c (1 ∷ laws.encode (list (Eip2930Codec.sealed_fields_and tx more)))
        ≡ ok (
            UnverifiedTransactionWrapper.eip2930 (record tx {
              hash = c.keccak (1 ∷ laws.encode (list (Eip2930Codec.sealed_fields_and tx more)));
            }))
  unfolding decode_typed from_u8
  decode-eip2930_and tx more h k = rw (
    decode-type_byte 1 (laws.encode (list (Eip2930Codec.sealed_fields_and tx more))) (omega arith),
    Eip2930Codec.decode-fields c laws tx more h k,
  )

  -- Typed transactions of valid fields, EIP-2930 and EIP-1559, are accepted with any items in range
  -- behind their signature: the items are dropped, and only the hash depends on them.
  pub decode-typed_and :
      (a : Eip2930.UnverifiedEip2930Transaction) (b : Eip1559.UnverifiedEip1559Transaction)
      (more : Items)
      → Eip2930Codec.IsUnverifiedEip2930 a
      → Eip1559Codec.IsUnverifiedEip1559 b
      → AreItems more
      → (decode c (1 ∷ laws.encode (list (Eip2930Codec.sealed_fields_and a more)))
          ≡ ok (
              UnverifiedTransactionWrapper.eip2930 (record a {
                hash = c.keccak (1 ∷ laws.encode (list (Eip2930Codec.sealed_fields_and a more)));
              })))
        × (decode c (2 ∷ laws.encode (list (Eip1559Codec.sealed_fields_and b more)))
            ≡ ok (
                UnverifiedTransactionWrapper.eip1559 (record b {
                  hash = c.keccak (2 ∷ laws.encode (list (Eip1559Codec.sealed_fields_and b more)));
                })))
  decode-typed_and a b more ha hb k =
      (decode-eip2930_and a more ha k, decode-eip1559_and b more hb k)

  -- The bytes of a list of any items but nine, which is not the number of a legacy transaction's fields
  -- and signature, are refused as of a wrong length, whatever the items are.
  pub decode-legacy_count :
      (xs : Items)
      → AreItems xs
      → length_items xs ≢ 9
      → decode c (laws.encode (list xs)) ≡ err DecoderError.rlp_incorrect_list_len
  unfolding Legacy.decode
  decode-legacy_count xs items count =
      rw (decode-list xs items, laws.item_count-list xs items) (ground arith)
