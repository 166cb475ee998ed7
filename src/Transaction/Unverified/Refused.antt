-- ===== src/Transaction/Unverified/Refused.antt =====
-- ethcore/transaction/src/transaction.rs: bytes that `decode` refuses, and its errors.
use mm2_parity_ethereum.Base.{
  Bytes, IsU64, IsU256, ℕ, ◌≤◌, ◌<◌, ◌≡◌, ◌≢◌, refl, ◌⊎◌, inl, inr, [], ◌∷◌, err, arith,
}
use mm2_parity_ethereum.Crates.{Crates}
use mm2_parity_ethereum.Crates.Rlp.{DecoderError, RlpLaws}
use mm2_parity_ethereum.Crates.Rlp.Tree.{Items, list, length_items, AreItems}
use mm2_parity_ethereum.Crates.Rlp.Fields.{item_at-u64}
use mm2_parity_ethereum.Transaction.TxType.{from_u8}
use mm2_parity_ethereum.Transaction.Eip2930 as Eip2930
use mm2_parity_ethereum.Transaction.Eip1559 as Eip1559
use mm2_parity_ethereum.Transaction.Eip2930.Codec as Eip2930Codec
use mm2_parity_ethereum.Transaction.Eip1559.Codec as Eip1559Codec
use mm2_parity_ethereum.Transaction.Unverified.{decode, decode_typed}
use mm2_parity_ethereum.Transaction.Unverified.Codec.{
  decode-type_byte, decode-unsupported, decode-legacy_count,
}

-- The fields of a signed typed transaction in range, but for a `v` that is no parity.
pub record IsOddEip2930 (tx : Eip2930.UnverifiedEip2930Transaction) : Type 0 where
  pub unsigned : Eip2930Codec.IsEip2930 tx.unsigned
  pub v_ge : 2 ≤ tx.v
  pub v_lt : IsU64 tx.v
  pub r : IsU256 tx.r
  pub s : IsU256 tx.s

pub record IsOddEip1559 (tx : Eip1559.UnverifiedEip1559Transaction) : Type 0 where
  pub unsigned : Eip1559Codec.IsEip1559 tx.unsigned
  pub v_ge : 2 ≤ tx.v
  pub v_lt : IsU64 tx.v
  pub r : IsU256 tx.r
  pub s : IsU256 tx.s

-- Bytes and the error that they are refused with.
pub data Refused (c : Crates) (laws : RlpLaws c.rlp) : Bytes → DecoderError → Type 0 where
  -- A first byte of a typed transaction that is not supported, whatever follows.
  unsupported :
      (b : ℕ) (bs : Bytes)
      → b < 0x7f
      → b ≢ 1
      → b ≢ 2
      → Refused c laws (b ∷ bs) (DecoderError.custom "unsupported tx version")
  -- A type byte with nothing behind it.
  alone : (b : ℕ) → (b ≡ 1) ⊎ (b ≡ 2) → Refused c laws (b ∷ []) DecoderError.rlp_is_too_short
  -- A list of any items but nine, the number of a legacy transaction's fields and signature.
  legacy_count :
      (xs : Items)
      → AreItems xs
      → length_items xs ≢ 9
      → Refused c laws (laws.encode (list xs)) DecoderError.rlp_incorrect_list_len
  -- A typed transaction whose `v` is no parity, with any items behind the signature.
  eip2930_parity :
      (tx : Eip2930.UnverifiedEip2930Transaction) (more : Items)
      → IsOddEip2930 tx
      → AreItems more
      → Refused c laws
          (1 ∷ laws.encode (list (Eip2930Codec.sealed_fields_and tx more)))
          (DecoderError.custom "invalid sig v")
  eip1559_parity :
      (tx : Eip1559.UnverifiedEip1559Transaction) (more : Items)
      → IsOddEip1559 tx
      → AreItems more
      → Refused c laws
          (2 ∷ laws.encode (list (Eip1559Codec.sealed_fields_and tx more)))
          (DecoderError.custom "invalid sig v")

module _ (c : Crates) (laws : RlpLaws c.rlp) where
  decode-alone : (b : ℕ) → (b ≡ 1) ⊎ (b ≡ 2) → decode c (b ∷ []) ≡ err DecoderError.rlp_is_too_short
  unfolding decode_typed from_u8 Eip2930.decode Eip1559.decode
  decode-alone b (inl e) = rw (e, decode-type_byte c laws 1 [] (omega arith))
  decode-alone b (inr e) = rw (e, decode-type_byte c laws 2 [] (omega arith))

  decode-eip2930_parity :
      (tx : Eip2930.UnverifiedEip2930Transaction) (more : Items)
      → IsOddEip2930 tx
      → AreItems more
      → decode c (1 ∷ laws.encode (list (Eip2930Codec.sealed_fields_and tx more)))
        ≡ err (DecoderError.custom "invalid sig v")
  unfolding decode_typed from_u8 Eip2930.decode Eip2930.payload_size Eip2930.validate_v
  decode-eip2930_parity tx more h k =
      let rest : Items = Eip2930Codec.signature_fields tx more in
      let xs : Items = Eip2930Codec.sealed_fields_and tx more in
      let items : AreItems xs =
        Eip2930Codec.fields-AreItems tx.unsigned rest h.unsigned (h.v_lt, (h.r, (h.s, k))) in
      rw
        (
          decode-type_byte c laws 1 (laws.encode (list xs)) (omega arith),
          Eip2930Codec.decode_unsigned-typed c laws xs items,
          Eip2930Codec.decode_fields-fields c laws tx.unsigned rest h.unsigned items,
          item_at-u64 c.rlp laws xs items 8 tx.v h.v_lt refl,
        )
        (ground (arith, h.v_ge))

  decode-eip1559_parity :
      (tx : Eip1559.UnverifiedEip1559Transaction) (more : Items)
      → IsOddEip1559 tx
      → AreItems more
      → decode c (2 ∷ laws.encode (list (Eip1559Codec.sealed_fields_and tx more)))
        ≡ err (DecoderError.custom "invalid sig v")
  unfolding decode_typed from_u8 Eip1559.decode Eip1559.payload_size Eip1559.validate_v
  decode-eip1559_parity tx more h k =
      let rest : Items = Eip1559Codec.signature_fields tx more in
      let xs : Items = Eip1559Codec.sealed_fields_and tx more in
      let items : AreItems xs =
        Eip1559Codec.fields-AreItems tx.unsigned rest h.unsigned (h.v_lt, (h.r, (h.s, k))) in
      rw
        (
          decode-type_byte c laws 2 (laws.encode (list xs)) (omega arith),
          Eip1559Codec.decode_unsigned-typed c laws xs items,
          Eip1559Codec.decode_fields-fields c laws tx.unsigned rest h.unsigned items,
          item_at-u64 c.rlp laws xs items 9 tx.v h.v_lt refl,
        )
        (ground (arith, h.v_ge))

  -- These bytes are refused, with these errors: as of an unsupported version, where the first is below
  -- 0x7f and neither 1 nor 2; as too short, where they are a type byte alone; as of a wrong length, where
  -- they are a list of items in range, but not of nine; and for the signature's `v`, where they are a
  -- typed transaction whose other fields are in range, with any items behind, and whose `v` is no parity.
  pub decode-Refused : (d : Bytes) (e : DecoderError) → Refused c laws d e → decode c d ≡ err e
  decode-Refused _ _ (unsupported b bs h one two) = decode-unsupported c laws b bs h one two
  decode-Refused _ _ (alone b typed) = decode-alone b typed
  decode-Refused _ _ (legacy_count xs items count) = decode-legacy_count c laws xs items count
  decode-Refused _ _ (eip2930_parity tx more h k) = decode-eip2930_parity tx more h k
  decode-Refused _ _ (eip1559_parity tx more h k) = decode-eip1559_parity tx more h k
