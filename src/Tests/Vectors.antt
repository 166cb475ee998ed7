-- ===== src/Tests/Vectors.antt =====
-- The transactions of the tests in ethcore/transaction/src/transaction.rs, as the bytes that stand
-- there: decoded, and serialised again.
use mm2_parity_ethereum.Base.{Bytes, ◌≡◌, refl, [], ◌∷◌, ok, none, replicate}
use mm2_parity_ethereum.Crates.Rlp.Stream.{new}
use mm2_parity_ethereum.Sample.Wire.{wire_crates}
use mm2_parity_ethereum.Transaction.Action as Action
use mm2_parity_ethereum.Transaction.AccessList as AccessList
use mm2_parity_ethereum.Transaction.TxType.{from_u8, as_u8, tx_type_eq}
use mm2_parity_ethereum.Transaction.Legacy as Legacy
use mm2_parity_ethereum.Transaction.Eip2930 as Eip2930
use mm2_parity_ethereum.Transaction.Eip1559 as Eip1559
use mm2_parity_ethereum.Transaction.Unverified.{
  UnverifiedTransactionWrapper, decode, decode_typed, is_typed_transaction, chain_id_from_v,
  is_unsigned, rlp_append_sealed_transaction,
}

abbrev legacy_bytes : Bytes
legacy_bytes =
    0xf8 ∷ 0x5f ∷ 0x80 ∷ 0x01 ∷ 0x82 ∷ 0x52 ∷ 0x08 ∷ 0x94 ∷ 0x09 ∷ 0x5e ∷ 0x7b ∷ 0xae ∷ 0xa6 ∷ 0xa6
    ∷ 0xc7 ∷ 0xc4 ∷ 0xc2 ∷ 0xdf ∷ 0xeb ∷ 0x97 ∷ 0x7e ∷ 0xfa ∷ 0xc3 ∷ 0x26 ∷ 0xaf ∷ 0x55 ∷ 0x2d
    ∷ 0x87 ∷ 0x0a ∷ 0x80 ∷ 0x1b ∷ 0xa0 ∷ 0x48 ∷ 0xb5 ∷ 0x5b ∷ 0xfa ∷ 0x91 ∷ 0x5a ∷ 0xc7 ∷ 0x95
    ∷ 0xc4 ∷ 0x31 ∷ 0x97 ∷ 0x8d ∷ 0x8a ∷ 0x6a ∷ 0x99 ∷ 0x2b ∷ 0x62 ∷ 0x8d ∷ 0x55 ∷ 0x7d ∷ 0xa5
    ∷ 0xff ∷ 0x75 ∷ 0x9b ∷ 0x30 ∷ 0x7d ∷ 0x49 ∷ 0x5a ∷ 0x36 ∷ 0x64 ∷ 0x93 ∷ 0x53 ∷ 0xa0 ∷ 0xef
    ∷ 0xff ∷ 0xd3 ∷ 0x10 ∷ 0xac ∷ 0x74 ∷ 0x3f ∷ 0x37 ∷ 0x1d ∷ 0xe3 ∷ 0xb9 ∷ 0xf7 ∷ 0xf9 ∷ 0xcb
    ∷ 0x56 ∷ 0xc0 ∷ 0xb2 ∷ 0x8a ∷ 0xd4 ∷ 0x36 ∷ 0x01 ∷ 0xb4 ∷ 0xab ∷ 0x94 ∷ 0x9f ∷ 0x53 ∷ 0xfa
    ∷ 0xa0 ∷ 0x7b ∷ 0xd2 ∷ 0xc8 ∷ 0x04 ∷ []

abbrev legacy_tx : Legacy.UnverifiedLegacyTransaction
legacy_tx = record {
  unsigned = record {
    nonce = 0;
    gas_price = 1;
    gas = 21000;
    action = Action.call (
        0x09 ∷ 0x5e ∷ 0x7b ∷ 0xae ∷ 0xa6 ∷ 0xa6 ∷ 0xc7 ∷ 0xc4 ∷ 0xc2 ∷ 0xdf ∷ 0xeb ∷ 0x97 ∷ 0x7e
        ∷ 0xfa ∷ 0xc3 ∷ 0x26 ∷ 0xaf ∷ 0x55 ∷ 0x2d ∷ 0x87 ∷ []);
    value = 10;
    tx_data = [];
  };
  network_v = 27;
  r = 32886959230931919120748662916110619501838190146643992583529828535682419954515;
  s = 108554773530919009690862025236804877512265079149956987664931008736109259835396;
  hash = replicate 32 0;
}

legacy_decoded :
    decode wire_crates legacy_bytes ≡ ok (UnverifiedTransactionWrapper.legacy legacy_tx)
unfolding decode is_typed_transaction Legacy.decode Legacy.decode_unsigned Action.decode
legacy_decoded = refl

legacy_encoded :
    wire_crates.out
      (rlp_append_sealed_transaction (UnverifiedTransactionWrapper.legacy legacy_tx) new)
    ≡ legacy_bytes
unfolding rlp_append_sealed_transaction Legacy.rlp_append_sealed_transaction Action.rlp_append
legacy_encoded = refl

abbrev eip2930_bytes : Bytes
eip2930_bytes =
    0x01 ∷ 0xf8 ∷ 0x72 ∷ 0x01 ∷ 0x83 ∷ 0x01 ∷ 0x80 ∷ 0x05 ∷ 0x85 ∷ 0x04 ∷ 0x37 ∷ 0x5e ∷ 0x83 ∷ 0x90
    ∷ 0x83 ∷ 0x07 ∷ 0xa1 ∷ 0x20 ∷ 0x94 ∷ 0x2f ∷ 0x3e ∷ 0x89 ∷ 0xbb ∷ 0x84 ∷ 0x70 ∷ 0x50 ∷ 0x85
    ∷ 0xdd ∷ 0x2a ∷ 0xfc ∷ 0x1f ∷ 0x00 ∷ 0xca ∷ 0x5f ∷ 0x82 ∷ 0x3f ∷ 0xf7 ∷ 0xf6 ∷ 0x08 ∷ 0x88
    ∷ 0x01 ∷ 0xaa ∷ 0xaf ∷ 0x11 ∷ 0x8d ∷ 0x61 ∷ 0x2c ∷ 0x00 ∷ 0x80 ∷ 0xc0 ∷ 0x80 ∷ 0xa0 ∷ 0x4f
    ∷ 0x08 ∷ 0xe1 ∷ 0x18 ∷ 0x60 ∷ 0x45 ∷ 0x9e ∷ 0x94 ∷ 0x4e ∷ 0x28 ∷ 0xa3 ∷ 0x91 ∷ 0x93 ∷ 0xb7
    ∷ 0x6c ∷ 0xc2 ∷ 0xca ∷ 0x05 ∷ 0x66 ∷ 0xbe ∷ 0xa4 ∷ 0x0c ∷ 0x08 ∷ 0x61 ∷ 0x60 ∷ 0xf6 ∷ 0xc4
    ∷ 0x4c ∷ 0xe4 ∷ 0x3d ∷ 0xd6 ∷ 0xfc ∷ 0xa0 ∷ 0x73 ∷ 0x33 ∷ 0xd8 ∷ 0xb6 ∷ 0xc8 ∷ 0x72 ∷ 0xa4
    ∷ 0xd5 ∷ 0x99 ∷ 0xcb ∷ 0x40 ∷ 0x27 ∷ 0xc9 ∷ 0x12 ∷ 0x99 ∷ 0x41 ∷ 0xc2 ∷ 0x69 ∷ 0x1f ∷ 0x09
    ∷ 0xce ∷ 0x1c ∷ 0xbe ∷ 0xa3 ∷ 0x61 ∷ 0xa8 ∷ 0x27 ∷ 0xbc ∷ 0x30 ∷ 0xe7 ∷ 0x8e ∷ 0x54 ∷ []

abbrev eip2930_tx : Eip2930.UnverifiedEip2930Transaction
eip2930_tx = record {
  unsigned = record {
    chain_id = 1;
    nonce = 98309;
    gas_price = 18108810128;
    gas = 500000;
    action = Action.call (
        0x2f ∷ 0x3e ∷ 0x89 ∷ 0xbb ∷ 0x84 ∷ 0x70 ∷ 0x50 ∷ 0x85 ∷ 0xdd ∷ 0x2a ∷ 0xfc ∷ 0x1f ∷ 0x00
        ∷ 0xca ∷ 0x5f ∷ 0x82 ∷ 0x3f ∷ 0xf7 ∷ 0xf6 ∷ 0x08 ∷ []);
    value = 120100830000000000;
    tx_data = [];
    access_list = [];
  };
  v = 0;
  r = 35748403364701639425530580284181860513526126533403517797752746461469790295804;
  s = 52107582492410152539163591579229365047058065157464980147225738231705497996884;
  hash = replicate 32 0;
}

eip2930_decoded :
    decode wire_crates eip2930_bytes ≡ ok (UnverifiedTransactionWrapper.eip2930 eip2930_tx)
unfolding decode is_typed_transaction decode_typed from_u8 Eip2930.decode Eip2930.decode_unsigned
    Eip2930.decode_fields Action.decode AccessList.decode tx_type_eq Eip2930.payload_size
    Eip2930.validate_v
eip2930_decoded = refl

eip2930_encoded :
    wire_crates.out
      (rlp_append_sealed_transaction (UnverifiedTransactionWrapper.eip2930 eip2930_tx) new)
    ≡ eip2930_bytes
unfolding rlp_append_sealed_transaction Eip2930.rlp_append_sealed_transaction Action.rlp_append
    AccessList.rlp_append Eip2930.sealed_payload_size as_u8
eip2930_encoded = refl

abbrev eip1559_bytes : Bytes
eip1559_bytes =
    0x02 ∷ 0xf8 ∷ 0x71 ∷ 0x01 ∷ 0x03 ∷ 0x83 ∷ 0x0f ∷ 0x42 ∷ 0x40 ∷ 0x85 ∷ 0x18 ∷ 0xad ∷ 0x08 ∷ 0x49
    ∷ 0xc4 ∷ 0x82 ∷ 0x52 ∷ 0x08 ∷ 0x94 ∷ 0x17 ∷ 0x49 ∷ 0xb8 ∷ 0xec ∷ 0xcc ∷ 0x62 ∷ 0x2d ∷ 0x81
    ∷ 0x60 ∷ 0x0a ∷ 0xb7 ∷ 0xfa ∷ 0x32 ∷ 0x2a ∷ 0x17 ∷ 0xb9 ∷ 0x9d ∷ 0xef ∷ 0x83 ∷ 0xd2 ∷ 0x87
    ∷ 0x6b ∷ 0x80 ∷ 0x3d ∷ 0x5c ∷ 0xcd ∷ 0x43 ∷ 0x85 ∷ 0x80 ∷ 0xc0 ∷ 0x01 ∷ 0xa0 ∷ 0x83 ∷ 0x03
    ∷ 0xe6 ∷ 0x2f ∷ 0x4d ∷ 0x77 ∷ 0x79 ∷ 0xb0 ∷ 0x9a ∷ 0xb9 ∷ 0xda ∷ 0xea ∷ 0xef ∷ 0x86 ∷ 0x8a
    ∷ 0x8a ∷ 0xd3 ∷ 0xbc ∷ 0x93 ∷ 0x7b ∷ 0x43 ∷ 0x5a ∷ 0x60 ∷ 0xe8 ∷ 0xcc ∷ 0x43 ∷ 0x2d ∷ 0x22
    ∷ 0x4b ∷ 0xd8 ∷ 0xb1 ∷ 0xfb ∷ 0xa0 ∷ 0x52 ∷ 0x0a ∷ 0xe4 ∷ 0xb5 ∷ 0x90 ∷ 0x6f ∷ 0x39 ∷ 0x78
    ∷ 0xff ∷ 0x41 ∷ 0x3e ∷ 0xef ∷ 0x41 ∷ 0x31 ∷ 0xc1 ∷ 0xd2 ∷ 0x46 ∷ 0xb1 ∷ 0x5e ∷ 0xb6 ∷ 0x76
    ∷ 0xa1 ∷ 0x93 ∷ 0x24 ∷ 0xce ∷ 0x9a ∷ 0xd2 ∷ 0x3a ∷ 0xc4 ∷ 0x8a ∷ 0xa9 ∷ 0x87 ∷ []

abbrev eip1559_tx : Eip1559.UnverifiedEip1559Transaction
eip1559_tx = record {
  unsigned = record {
    chain_id = 1;
    nonce = 3;
    max_fee_per_gas = 105982216644;
    max_priority_fee_per_gas = 1000000;
    gas = 21000;
    action = Action.call (
        0x17 ∷ 0x49 ∷ 0xb8 ∷ 0xec ∷ 0xcc ∷ 0x62 ∷ 0x2d ∷ 0x81 ∷ 0x60 ∷ 0x0a ∷ 0xb7 ∷ 0xfa ∷ 0x32
        ∷ 0x2a ∷ 0x17 ∷ 0xb9 ∷ 0x9d ∷ 0xef ∷ 0x83 ∷ 0xd2 ∷ []);
    value = 30258823546356613;
    tx_data = [];
    access_list = [];
  };
  v = 1;
  r = 59259872382537682982771735641214750833650953715924681452018336662291587052027;
  s = 37108900547603767799435212547179165789772408750095839922013374438801763117447;
  hash = replicate 32 0;
}

eip1559_decoded :
    decode wire_crates eip1559_bytes ≡ ok (UnverifiedTransactionWrapper.eip1559 eip1559_tx)
unfolding decode is_typed_transaction decode_typed from_u8 Eip1559.decode Eip1559.decode_unsigned
    Eip1559.decode_fields Action.decode AccessList.decode tx_type_eq Eip1559.payload_size
    Eip1559.validate_v
eip1559_decoded = refl

eip1559_encoded :
    wire_crates.out
      (rlp_append_sealed_transaction (UnverifiedTransactionWrapper.eip1559 eip1559_tx) new)
    ≡ eip1559_bytes
unfolding rlp_append_sealed_transaction Eip1559.rlp_append_sealed_transaction Action.rlp_append
    AccessList.rlp_append Eip1559.sealed_payload_size as_u8
eip1559_encoded = refl

legacy_chain_id : chain_id_from_v (UnverifiedTransactionWrapper.legacy legacy_tx) ≡ none
unfolding chain_id_from_v is_unsigned
legacy_chain_id = refl
