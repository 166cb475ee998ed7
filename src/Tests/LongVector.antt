-- ===== src/Tests/LongVector.antt =====
-- The transaction with data and an access list of the tests in
-- ethcore/transaction/src/transaction.rs.
use mm2_parity_ethereum.Base.{Bytes, ◌≡◌, refl, [], ◌∷◌, Result, ok, ◌>>=◌}
use mm2_parity_ethereum.Crates.Rlp.{DecoderError}
use mm2_parity_ethereum.Crates.Rlp.Stream.{new, append_each, decode_each}
use mm2_parity_ethereum.Sample.Wire.{wire_crates}
use mm2_parity_ethereum.Transaction.Action as Action
use mm2_parity_ethereum.Transaction.AccessList as AccessList
use mm2_parity_ethereum.Transaction.TxType.{from_u8, as_u8, tx_type_eq}
use mm2_parity_ethereum.Transaction.Eip1559 as Eip1559
use mm2_parity_ethereum.Transaction.Unverified.{
  decode, decode_typed, is_typed_transaction, rlp_append_sealed_transaction,
}

abbrev bytes : Bytes
bytes =
    0x02 ∷ 0xf9 ∷ 0x07 ∷ 0x67 ∷ 0x01 ∷ 0x83 ∷ 0x18 ∷ 0x0a ∷ 0x51 ∷ 0x80 ∷ 0x85 ∷ 0x07 ∷ 0xa6 ∷ 0xa2
    ∷ 0xc5 ∷ 0x07 ∷ 0x83 ∷ 0x09 ∷ 0x17 ∷ 0xaf ∷ 0x94 ∷ 0x6b ∷ 0x75 ∷ 0xd8 ∷ 0xaf ∷ 0x00 ∷ 0x00
    ∷ 0x00 ∷ 0xe2 ∷ 0x0b ∷ 0x7a ∷ 0x7d ∷ 0xdf ∷ 0x00 ∷ 0x0b ∷ 0xa9 ∷ 0x00 ∷ 0xb4 ∷ 0x00 ∷ 0x9a
    ∷ 0x80 ∷ 0x80 ∷ 0xb8 ∷ 0x9c ∷ 0x0c ∷ 0x8e ∷ 0xe8 ∷ 0x19 ∷ 0xc1 ∷ 0x0e ∷ 0x1f ∷ 0x20 ∷ 0xdf
    ∷ 0x3a ∷ 0x8c ∷ 0x2a ∷ 0xc9 ∷ 0x3a ∷ 0x62 ∷ 0xd7 ∷ 0xfb ∷ 0xa7 ∷ 0x19 ∷ 0xfa ∷ 0x77 ∷ 0x70
    ∷ 0x26 ∷ 0xc0 ∷ 0x2d ∷ 0x33 ∷ 0x76 ∷ 0x17 ∷ 0xb0 ∷ 0x29 ∷ 0x98 ∷ 0x48 ∷ 0x00 ∷ 0x49 ∷ 0x64
    ∷ 0x21 ∷ 0x10 ∷ 0xb7 ∷ 0x12 ∷ 0xc1 ∷ 0xfd ∷ 0x72 ∷ 0x61 ∷ 0xbc ∷ 0x07 ∷ 0x41 ∷ 0x05 ∷ 0xe9
    ∷ 0xe4 ∷ 0x46 ∷ 0x76 ∷ 0xc6 ∷ 0x8f ∷ 0xc0 ∷ 0x2a ∷ 0xaa ∷ 0x39 ∷ 0xb2 ∷ 0x23 ∷ 0xfe ∷ 0x8d
    ∷ 0x0a ∷ 0x0e ∷ 0x5c ∷ 0x4f ∷ 0x27 ∷ 0xea ∷ 0xd9 ∷ 0x08 ∷ 0x3c ∷ 0x75 ∷ 0x6c ∷ 0xc2 ∷ 0x27
    ∷ 0x10 ∷ 0xf2 ∷ 0xfe ∷ 0x52 ∷ 0x50 ∷ 0xfe ∷ 0x53 ∷ 0x18 ∷ 0xb0 ∷ 0x3d ∷ 0x53 ∷ 0x65 ∷ 0x66
    ∷ 0xb0 ∷ 0x29 ∷ 0x98 ∷ 0xff ∷ 0xff ∷ 0xc0 ∷ 0x76 ∷ 0xc4 ∷ 0xff ∷ 0xff ∷ 0x93 ∷ 0x00 ∷ 0x1a
    ∷ 0x6c ∷ 0xd7 ∷ 0xc3 ∷ 0xa2 ∷ 0x1b ∷ 0xda ∷ 0x7c ∷ 0xf6 ∷ 0xa0 ∷ 0xcd ∷ 0x5d ∷ 0x5e ∷ 0x8d
    ∷ 0x10 ∷ 0xab ∷ 0x55 ∷ 0xd8 ∷ 0xba ∷ 0x58 ∷ 0x25 ∷ 0x78 ∷ 0x13 ∷ 0xa2 ∷ 0x39 ∷ 0xca ∷ 0x81
    ∷ 0x9d ∷ 0x95 ∷ 0x10 ∷ 0xa7 ∷ 0x3c ∷ 0x42 ∷ 0x44 ∷ 0x85 ∷ 0xf8 ∷ 0x9e ∷ 0xa5 ∷ 0x28 ∷ 0x39
    ∷ 0xfd ∷ 0xb3 ∷ 0x06 ∷ 0x40 ∷ 0xeb ∷ 0x7d ∷ 0xd7 ∷ 0xe0 ∷ 0x07 ∷ 0x8e ∷ 0x12 ∷ 0xfb ∷ 0x0a
    ∷ 0x4e ∷ 0xac ∷ 0x74 ∷ 0x2d ∷ 0xf9 ∷ 0x06 ∷ 0x5d ∷ 0xf8 ∷ 0x9b ∷ 0x94 ∷ 0xc0 ∷ 0x2a ∷ 0xaa
    ∷ 0x39 ∷ 0xb2 ∷ 0x23 ∷ 0xfe ∷ 0x8d ∷ 0x0a ∷ 0x0e ∷ 0x5c ∷ 0x4f ∷ 0x27 ∷ 0xea ∷ 0xd9 ∷ 0x08
    ∷ 0x3c ∷ 0x75 ∷ 0x6c ∷ 0xc2 ∷ 0xf8 ∷ 0x84 ∷ 0xa0 ∷ 0x12 ∷ 0x23 ∷ 0x1c ∷ 0xd4 ∷ 0xc7 ∷ 0x53
    ∷ 0xcb ∷ 0x55 ∷ 0x30 ∷ 0xa4 ∷ 0x3a ∷ 0x74 ∷ 0xc4 ∷ 0x51 ∷ 0x06 ∷ 0xc2 ∷ 0x47 ∷ 0x65 ∷ 0xe6
    ∷ 0xf8 ∷ 0x1d ∷ 0xc8 ∷ 0x92 ∷ 0x7d ∷ 0x4f ∷ 0x4b ∷ 0xe7 ∷ 0xe5 ∷ 0x33 ∷ 0x15 ∷ 0xd5 ∷ 0xa8
    ∷ 0xa0 ∷ 0x93 ∷ 0xf4 ∷ 0xf2 ∷ 0x10 ∷ 0x9c ∷ 0x73 ∷ 0x36 ∷ 0x5b ∷ 0x91 ∷ 0x27 ∷ 0x0d ∷ 0xe7
    ∷ 0x1d ∷ 0x7c ∷ 0xe6 ∷ 0x1b ∷ 0x41 ∷ 0xcf ∷ 0xce ∷ 0xb9 ∷ 0x4f ∷ 0x27 ∷ 0xf2 ∷ 0x6e ∷ 0x2b
    ∷ 0x6e ∷ 0x30 ∷ 0x14 ∷ 0x2e ∷ 0xa5 ∷ 0x29 ∷ 0xe5 ∷ 0xa0 ∷ 0xaf ∷ 0x99 ∷ 0x87 ∷ 0x88 ∷ 0x8a
    ∷ 0xb7 ∷ 0x5f ∷ 0x8c ∷ 0xdc ∷ 0x0e ∷ 0xee ∷ 0x17 ∷ 0x9d ∷ 0xff ∷ 0x70 ∷ 0x4e ∷ 0x6c ∷ 0x0a
    ∷ 0x13 ∷ 0xb4 ∷ 0x62 ∷ 0xf5 ∷ 0x8a ∷ 0xac ∷ 0x23 ∷ 0xab ∷ 0x8e ∷ 0xb7 ∷ 0x7f ∷ 0x3d ∷ 0x71
    ∷ 0xcd ∷ 0xa0 ∷ 0x17 ∷ 0x6d ∷ 0x9f ∷ 0x00 ∷ 0x06 ∷ 0x6a ∷ 0xf8 ∷ 0x84 ∷ 0x81 ∷ 0x0a ∷ 0x42
    ∷ 0xc6 ∷ 0x7f ∷ 0xf9 ∷ 0xa8 ∷ 0xc1 ∷ 0x37 ∷ 0x4b ∷ 0xe6 ∷ 0x13 ∷ 0x5e ∷ 0x1e ∷ 0xe8 ∷ 0x5e
    ∷ 0xdb ∷ 0x8c ∷ 0x9c ∷ 0xf0 ∷ 0x21 ∷ 0xf1 ∷ 0xfd ∷ 0xd5 ∷ 0xf8 ∷ 0xdd ∷ 0x94 ∷ 0xda ∷ 0x7c
    ∷ 0xf6 ∷ 0xa0 ∷ 0xcd ∷ 0x5d ∷ 0x5e ∷ 0x8d ∷ 0x10 ∷ 0xab ∷ 0x55 ∷ 0xd8 ∷ 0xba ∷ 0x58 ∷ 0x25
    ∷ 0x78 ∷ 0x13 ∷ 0xa2 ∷ 0x39 ∷ 0xca ∷ 0xf8 ∷ 0xc6 ∷ 0xa0 ∷ 0x00 ∷ 0x00 ∷ 0x00 ∷ 0x00 ∷ 0x00
    ∷ 0x00 ∷ 0x00 ∷ 0x00 ∷ 0x00 ∷ 0x00 ∷ 0x00 ∷ 0x00 ∷ 0x00 ∷ 0x00 ∷ 0x00 ∷ 0x00 ∷ 0x00 ∷ 0x00
    ∷ 0x00 ∷ 0x00 ∷ 0x00 ∷ 0x00 ∷ 0x00 ∷ 0x00 ∷ 0x00 ∷ 0x00 ∷ 0x00 ∷ 0x00 ∷ 0x00 ∷ 0x00 ∷ 0x00
    ∷ 0x0c ∷ 0xa0 ∷ 0x00 ∷ 0x00 ∷ 0x00 ∷ 0x00 ∷ 0x00 ∷ 0x00 ∷ 0x00 ∷ 0x00 ∷ 0x00 ∷ 0x00 ∷ 0x00
    ∷ 0x00 ∷ 0x00 ∷ 0x00 ∷ 0x00 ∷ 0x00 ∷ 0x00 ∷ 0x00 ∷ 0x00 ∷ 0x00 ∷ 0x00 ∷ 0x00 ∷ 0x00 ∷ 0x00
    ∷ 0x00 ∷ 0x00 ∷ 0x00 ∷ 0x00 ∷ 0x00 ∷ 0x00 ∷ 0x00 ∷ 0x08 ∷ 0xa0 ∷ 0x00 ∷ 0x00 ∷ 0x00 ∷ 0x00
    ∷ 0x00 ∷ 0x00 ∷ 0x00 ∷ 0x00 ∷ 0x00 ∷ 0x00 ∷ 0x00 ∷ 0x00 ∷ 0x00 ∷ 0x00 ∷ 0x00 ∷ 0x00 ∷ 0x00
    ∷ 0x00 ∷ 0x00 ∷ 0x00 ∷ 0x00 ∷ 0x00 ∷ 0x00 ∷ 0x00 ∷ 0x00 ∷ 0x00 ∷ 0x00 ∷ 0x00 ∷ 0x00 ∷ 0x00
    ∷ 0x00 ∷ 0x06 ∷ 0xa0 ∷ 0x00 ∷ 0x00 ∷ 0x00 ∷ 0x00 ∷ 0x00 ∷ 0x00 ∷ 0x00 ∷ 0x00 ∷ 0x00 ∷ 0x00
    ∷ 0x00 ∷ 0x00 ∷ 0x00 ∷ 0x00 ∷ 0x00 ∷ 0x00 ∷ 0x00 ∷ 0x00 ∷ 0x00 ∷ 0x00 ∷ 0x00 ∷ 0x00 ∷ 0x00
    ∷ 0x00 ∷ 0x00 ∷ 0x00 ∷ 0x00 ∷ 0x00 ∷ 0x00 ∷ 0x00 ∷ 0x00 ∷ 0x07 ∷ 0xa0 ∷ 0x00 ∷ 0x00 ∷ 0x00
    ∷ 0x00 ∷ 0x00 ∷ 0x00 ∷ 0x00 ∷ 0x00 ∷ 0x00 ∷ 0x00 ∷ 0x00 ∷ 0x00 ∷ 0x00 ∷ 0x00 ∷ 0x00 ∷ 0x00
    ∷ 0x00 ∷ 0x00 ∷ 0x00 ∷ 0x00 ∷ 0x00 ∷ 0x00 ∷ 0x00 ∷ 0x00 ∷ 0x00 ∷ 0x00 ∷ 0x00 ∷ 0x00 ∷ 0x00
    ∷ 0x00 ∷ 0x00 ∷ 0x09 ∷ 0xa0 ∷ 0x00 ∷ 0x00 ∷ 0x00 ∷ 0x00 ∷ 0x00 ∷ 0x00 ∷ 0x00 ∷ 0x00 ∷ 0x00
    ∷ 0x00 ∷ 0x00 ∷ 0x00 ∷ 0x00 ∷ 0x00 ∷ 0x00 ∷ 0x00 ∷ 0x00 ∷ 0x00 ∷ 0x00 ∷ 0x00 ∷ 0x00 ∷ 0x00
    ∷ 0x00 ∷ 0x00 ∷ 0x00 ∷ 0x00 ∷ 0x00 ∷ 0x00 ∷ 0x00 ∷ 0x00 ∷ 0x00 ∷ 0x0a ∷ 0xf8 ∷ 0xbc ∷ 0x94
    ∷ 0x99 ∷ 0x38 ∷ 0x64 ∷ 0xe4 ∷ 0x3c ∷ 0xaa ∷ 0x7f ∷ 0x7f ∷ 0x12 ∷ 0x95 ∷ 0x3a ∷ 0xd6 ∷ 0xfe
    ∷ 0xb1 ∷ 0xd1 ∷ 0xca ∷ 0x63 ∷ 0x5b ∷ 0x87 ∷ 0x5f ∷ 0xf8 ∷ 0xa5 ∷ 0xa0 ∷ 0x00 ∷ 0x00 ∷ 0x00
    ∷ 0x00 ∷ 0x00 ∷ 0x00 ∷ 0x00 ∷ 0x00 ∷ 0x00 ∷ 0x00 ∷ 0x00 ∷ 0x00 ∷ 0x00 ∷ 0x00 ∷ 0x00 ∷ 0x00
    ∷ 0x00 ∷ 0x00 ∷ 0x00 ∷ 0x00 ∷ 0x00 ∷ 0x00 ∷ 0x00 ∷ 0x00 ∷ 0x00 ∷ 0x00 ∷ 0x00 ∷ 0x00 ∷ 0x00
    ∷ 0x00 ∷ 0x00 ∷ 0x03 ∷ 0xa0 ∷ 0xd9 ∷ 0x3f ∷ 0x98 ∷ 0x7b ∷ 0x59 ∷ 0xbb ∷ 0xb5 ∷ 0x78 ∷ 0x0f
    ∷ 0xe5 ∷ 0x99 ∷ 0x4c ∷ 0x71 ∷ 0x12 ∷ 0xf1 ∷ 0x06 ∷ 0x57 ∷ 0x80 ∷ 0x9c ∷ 0xae ∷ 0x45 ∷ 0xc6
    ∷ 0x27 ∷ 0xa3 ∷ 0x19 ∷ 0xf9 ∷ 0x62 ∷ 0xc4 ∷ 0x02 ∷ 0x35 ∷ 0x42 ∷ 0x8c ∷ 0xa0 ∷ 0xa6 ∷ 0xea
    ∷ 0xbb ∷ 0x9b ∷ 0x2c ∷ 0x01 ∷ 0x0e ∷ 0xc4 ∷ 0x70 ∷ 0x45 ∷ 0xc5 ∷ 0x2e ∷ 0xb6 ∷ 0x46 ∷ 0x82
    ∷ 0xc8 ∷ 0xa0 ∷ 0x9f ∷ 0xe5 ∷ 0x2a ∷ 0x86 ∷ 0x05 ∷ 0xfe ∷ 0xf8 ∷ 0x7e ∷ 0xe3 ∷ 0x12 ∷ 0xfa
    ∷ 0x68 ∷ 0x17 ∷ 0xbd ∷ 0xe7 ∷ 0xa0 ∷ 0x1f ∷ 0x31 ∷ 0xc7 ∷ 0x23 ∷ 0xd1 ∷ 0xf4 ∷ 0x39 ∷ 0x5a
    ∷ 0x6d ∷ 0xac ∷ 0x2d ∷ 0x34 ∷ 0x82 ∷ 0x7b ∷ 0xb7 ∷ 0x57 ∷ 0x75 ∷ 0x89 ∷ 0x38 ∷ 0x47 ∷ 0x35
    ∷ 0xf0 ∷ 0xdf ∷ 0x95 ∷ 0xb7 ∷ 0x33 ∷ 0x89 ∷ 0xf4 ∷ 0xd2 ∷ 0x7d ∷ 0x87 ∷ 0x69 ∷ 0xa0 ∷ 0x6e
    ∷ 0x89 ∷ 0xd4 ∷ 0x60 ∷ 0xfe ∷ 0xfb ∷ 0x1c ∷ 0x8f ∷ 0x5b ∷ 0x2b ∷ 0x8f ∷ 0x2e ∷ 0x96 ∷ 0x09
    ∷ 0xee ∷ 0x9a ∷ 0x4e ∷ 0xf3 ∷ 0xf9 ∷ 0xb7 ∷ 0xff ∷ 0x01 ∷ 0x4b ∷ 0xe9 ∷ 0x59 ∷ 0xa8 ∷ 0x6f
    ∷ 0xab ∷ 0xed ∷ 0x2b ∷ 0x4a ∷ 0xf8 ∷ 0xf8 ∷ 0x7a ∷ 0x94 ∷ 0x9c ∷ 0xe9 ∷ 0x70 ∷ 0x4b ∷ 0x19
    ∷ 0x93 ∷ 0xff ∷ 0x30 ∷ 0x8f ∷ 0x18 ∷ 0x15 ∷ 0xe0 ∷ 0xfd ∷ 0x44 ∷ 0xb0 ∷ 0xdf ∷ 0xfe ∷ 0xe2
    ∷ 0xd0 ∷ 0xdc ∷ 0xf8 ∷ 0x63 ∷ 0xa0 ∷ 0x6d ∷ 0x0c ∷ 0xc4 ∷ 0xc2 ∷ 0x00 ∷ 0xc8 ∷ 0xaf ∷ 0x0f
    ∷ 0xfd ∷ 0x8b ∷ 0x25 ∷ 0x4b ∷ 0xae ∷ 0x44 ∷ 0xf0 ∷ 0x7d ∷ 0x6b ∷ 0xc5 ∷ 0xc1 ∷ 0x5a ∷ 0xc8
    ∷ 0x54 ∷ 0xd2 ∷ 0xa3 ∷ 0xdb ∷ 0xf7 ∷ 0x61 ∷ 0x29 ∷ 0x9f ∷ 0xfa ∷ 0x9c ∷ 0x56 ∷ 0xa0 ∷ 0x10
    ∷ 0x1e ∷ 0xd5 ∷ 0x68 ∷ 0x0b ∷ 0x1c ∷ 0xfc ∷ 0x12 ∷ 0xbf ∷ 0xd6 ∷ 0xf2 ∷ 0xc9 ∷ 0x9e ∷ 0xe4
    ∷ 0x9a ∷ 0xbc ∷ 0xf5 ∷ 0xd7 ∷ 0x5b ∷ 0x12 ∷ 0x22 ∷ 0x3f ∷ 0x90 ∷ 0x40 ∷ 0x66 ∷ 0x4d ∷ 0x08
    ∷ 0x3b ∷ 0x09 ∷ 0xf1 ∷ 0xc7 ∷ 0xd7 ∷ 0xa0 ∷ 0x00 ∷ 0x00 ∷ 0x00 ∷ 0x00 ∷ 0x00 ∷ 0x00 ∷ 0x00
    ∷ 0x00 ∷ 0x00 ∷ 0x00 ∷ 0x00 ∷ 0x00 ∷ 0x00 ∷ 0x00 ∷ 0x00 ∷ 0x00 ∷ 0x00 ∷ 0x00 ∷ 0x00 ∷ 0x00
    ∷ 0x00 ∷ 0x00 ∷ 0x00 ∷ 0x00 ∷ 0x00 ∷ 0x00 ∷ 0x00 ∷ 0x00 ∷ 0x00 ∷ 0x00 ∷ 0x00 ∷ 0x02 ∷ 0xf8
    ∷ 0xdd ∷ 0x94 ∷ 0x42 ∷ 0x44 ∷ 0x85 ∷ 0xf8 ∷ 0x9e ∷ 0xa5 ∷ 0x28 ∷ 0x39 ∷ 0xfd ∷ 0xb3 ∷ 0x06
    ∷ 0x40 ∷ 0xeb ∷ 0x7d ∷ 0xd7 ∷ 0xe0 ∷ 0x07 ∷ 0x8e ∷ 0x12 ∷ 0xfb ∷ 0xf8 ∷ 0xc6 ∷ 0xa0 ∷ 0x00
    ∷ 0x00 ∷ 0x00 ∷ 0x00 ∷ 0x00 ∷ 0x00 ∷ 0x00 ∷ 0x00 ∷ 0x00 ∷ 0x00 ∷ 0x00 ∷ 0x00 ∷ 0x00 ∷ 0x00
    ∷ 0x00 ∷ 0x00 ∷ 0x00 ∷ 0x00 ∷ 0x00 ∷ 0x00 ∷ 0x00 ∷ 0x00 ∷ 0x00 ∷ 0x00 ∷ 0x00 ∷ 0x00 ∷ 0x00
    ∷ 0x00 ∷ 0x00 ∷ 0x00 ∷ 0x00 ∷ 0x0c ∷ 0xa0 ∷ 0x00 ∷ 0x00 ∷ 0x00 ∷ 0x00 ∷ 0x00 ∷ 0x00 ∷ 0x00
    ∷ 0x00 ∷ 0x00 ∷ 0x00 ∷ 0x00 ∷ 0x00 ∷ 0x00 ∷ 0x00 ∷ 0x00 ∷ 0x00 ∷ 0x00 ∷ 0x00 ∷ 0x00 ∷ 0x00
    ∷ 0x00 ∷ 0x00 ∷ 0x00 ∷ 0x00 ∷ 0x00 ∷ 0x00 ∷ 0x00 ∷ 0x00 ∷ 0x00 ∷ 0x00 ∷ 0x00 ∷ 0x08 ∷ 0xa0
    ∷ 0x00 ∷ 0x00 ∷ 0x00 ∷ 0x00 ∷ 0x00 ∷ 0x00 ∷ 0x00 ∷ 0x00 ∷ 0x00 ∷ 0x00 ∷ 0x00 ∷ 0x00 ∷ 0x00
    ∷ 0x00 ∷ 0x00 ∷ 0x00 ∷ 0x00 ∷ 0x00 ∷ 0x00 ∷ 0x00 ∷ 0x00 ∷ 0x00 ∷ 0x00 ∷ 0x00 ∷ 0x00 ∷ 0x00
    ∷ 0x00 ∷ 0x00 ∷ 0x00 ∷ 0x00 ∷ 0x00 ∷ 0x06 ∷ 0xa0 ∷ 0x00 ∷ 0x00 ∷ 0x00 ∷ 0x00 ∷ 0x00 ∷ 0x00
    ∷ 0x00 ∷ 0x00 ∷ 0x00 ∷ 0x00 ∷ 0x00 ∷ 0x00 ∷ 0x00 ∷ 0x00 ∷ 0x00 ∷ 0x00 ∷ 0x00 ∷ 0x00 ∷ 0x00
    ∷ 0x00 ∷ 0x00 ∷ 0x00 ∷ 0x00 ∷ 0x00 ∷ 0x00 ∷ 0x00 ∷ 0x00 ∷ 0x00 ∷ 0x00 ∷ 0x00 ∷ 0x00 ∷ 0x07
    ∷ 0xa0 ∷ 0x00 ∷ 0x00 ∷ 0x00 ∷ 0x00 ∷ 0x00 ∷ 0x00 ∷ 0x00 ∷ 0x00 ∷ 0x00 ∷ 0x00 ∷ 0x00 ∷ 0x00
    ∷ 0x00 ∷ 0x00 ∷ 0x00 ∷ 0x00 ∷ 0x00 ∷ 0x00 ∷ 0x00 ∷ 0x00 ∷ 0x00 ∷ 0x00 ∷ 0x00 ∷ 0x00 ∷ 0x00
    ∷ 0x00 ∷ 0x00 ∷ 0x00 ∷ 0x00 ∷ 0x00 ∷ 0x00 ∷ 0x09 ∷ 0xa0 ∷ 0x00 ∷ 0x00 ∷ 0x00 ∷ 0x00 ∷ 0x00
    ∷ 0x00 ∷ 0x00 ∷ 0x00 ∷ 0x00 ∷ 0x00 ∷ 0x00 ∷ 0x00 ∷ 0x00 ∷ 0x00 ∷ 0x00 ∷ 0x00 ∷ 0x00 ∷ 0x00
    ∷ 0x00 ∷ 0x00 ∷ 0x00 ∷ 0x00 ∷ 0x00 ∷ 0x00 ∷ 0x00 ∷ 0x00 ∷ 0x00 ∷ 0x00 ∷ 0x00 ∷ 0x00 ∷ 0x00
    ∷ 0x0a ∷ 0xf9 ∷ 0x02 ∷ 0x6a ∷ 0x94 ∷ 0x19 ∷ 0xc1 ∷ 0x0e ∷ 0x1f ∷ 0x20 ∷ 0xdf ∷ 0x3a ∷ 0x8c
    ∷ 0x2a ∷ 0xc9 ∷ 0x3a ∷ 0x62 ∷ 0xd7 ∷ 0xfb ∷ 0xa7 ∷ 0x19 ∷ 0xfa ∷ 0x77 ∷ 0x70 ∷ 0x26 ∷ 0xf9
    ∷ 0x02 ∷ 0x52 ∷ 0xa0 ∷ 0x00 ∷ 0x00 ∷ 0x00 ∷ 0x00 ∷ 0x00 ∷ 0x00 ∷ 0x00 ∷ 0x00 ∷ 0x00 ∷ 0x00
    ∷ 0x00 ∷ 0x00 ∷ 0x00 ∷ 0x00 ∷ 0x00 ∷ 0x00 ∷ 0x00 ∷ 0x00 ∷ 0x00 ∷ 0x00 ∷ 0x00 ∷ 0x00 ∷ 0x00
    ∷ 0x00 ∷ 0x00 ∷ 0x00 ∷ 0x00 ∷ 0x00 ∷ 0x00 ∷ 0x00 ∷ 0x00 ∷ 0x04 ∷ 0xa0 ∷ 0x00 ∷ 0x00 ∷ 0x00
    ∷ 0x00 ∷ 0x00 ∷ 0x00 ∷ 0x00 ∷ 0x00 ∷ 0x00 ∷ 0x00 ∷ 0x00 ∷ 0x00 ∷ 0x00 ∷ 0x00 ∷ 0x00 ∷ 0x00
    ∷ 0x00 ∷ 0x00 ∷ 0x00 ∷ 0x00 ∷ 0x00 ∷ 0x00 ∷ 0x00 ∷ 0x00 ∷ 0x00 ∷ 0x00 ∷ 0x00 ∷ 0x00 ∷ 0x00
    ∷ 0x00 ∷ 0x00 ∷ 0x08 ∷ 0xa0 ∷ 0x73 ∷ 0x50 ∷ 0xe6 ∷ 0x2d ∷ 0x40 ∷ 0x0d ∷ 0xa1 ∷ 0xaa ∷ 0xd2
    ∷ 0x4e ∷ 0xb9 ∷ 0x8f ∷ 0x7b ∷ 0xa1 ∷ 0x20 ∷ 0x04 ∷ 0x60 ∷ 0xb1 ∷ 0x3f ∷ 0xa4 ∷ 0xeb ∷ 0xae
    ∷ 0xbc ∷ 0xcf ∷ 0x69 ∷ 0xf1 ∷ 0xec ∷ 0x15 ∷ 0xe9 ∷ 0x89 ∷ 0x67 ∷ 0x37 ∷ 0xa0 ∷ 0x2b ∷ 0xb5
    ∷ 0x54 ∷ 0x04 ∷ 0x61 ∷ 0xad ∷ 0xf3 ∷ 0xeb ∷ 0x1d ∷ 0x87 ∷ 0xaf ∷ 0xfe ∷ 0xc4 ∷ 0x12 ∷ 0x0a
    ∷ 0xd0 ∷ 0x2c ∷ 0x1d ∷ 0x3d ∷ 0xfe ∷ 0xb5 ∷ 0x58 ∷ 0xa4 ∷ 0x4a ∷ 0x41 ∷ 0xbd ∷ 0xb5 ∷ 0x46
    ∷ 0x36 ∷ 0x0c ∷ 0x8b ∷ 0x2c ∷ 0xa0 ∷ 0x57 ∷ 0xe1 ∷ 0x5a ∷ 0xf2 ∷ 0xcd ∷ 0xc4 ∷ 0xea ∷ 0x5a
    ∷ 0xf6 ∷ 0x47 ∷ 0x7b ∷ 0xe8 ∷ 0x52 ∷ 0xd0 ∷ 0xd5 ∷ 0x5b ∷ 0x2e ∷ 0x8b ∷ 0x80 ∷ 0x39 ∷ 0xf9
    ∷ 0x55 ∷ 0xb0 ∷ 0xdb ∷ 0x74 ∷ 0x00 ∷ 0x69 ∷ 0x2f ∷ 0x43 ∷ 0xf3 ∷ 0x5f ∷ 0x78 ∷ 0xa0 ∷ 0x2b
    ∷ 0xb5 ∷ 0x54 ∷ 0x04 ∷ 0x61 ∷ 0xad ∷ 0xf3 ∷ 0xeb ∷ 0x1d ∷ 0x87 ∷ 0xaf ∷ 0xfe ∷ 0xc4 ∷ 0x12
    ∷ 0x0a ∷ 0xd0 ∷ 0x2c ∷ 0x1d ∷ 0x3d ∷ 0xfe ∷ 0xb5 ∷ 0x58 ∷ 0xa4 ∷ 0x4a ∷ 0x41 ∷ 0xbd ∷ 0xb5
    ∷ 0x46 ∷ 0x36 ∷ 0x0c ∷ 0x8b ∷ 0x2d ∷ 0xa0 ∷ 0x57 ∷ 0xe1 ∷ 0x5a ∷ 0xf2 ∷ 0xcd ∷ 0xc4 ∷ 0xea
    ∷ 0x5a ∷ 0xf6 ∷ 0x47 ∷ 0x7b ∷ 0xe8 ∷ 0x52 ∷ 0xd0 ∷ 0xd5 ∷ 0x5b ∷ 0x2e ∷ 0x8b ∷ 0x80 ∷ 0x39
    ∷ 0xf9 ∷ 0x55 ∷ 0xb0 ∷ 0xdb ∷ 0x74 ∷ 0x00 ∷ 0x69 ∷ 0x2f ∷ 0x43 ∷ 0xf3 ∷ 0x5f ∷ 0x76 ∷ 0xa0
    ∷ 0x00 ∷ 0x00 ∷ 0x00 ∷ 0x00 ∷ 0x00 ∷ 0x00 ∷ 0x00 ∷ 0x00 ∷ 0x00 ∷ 0x00 ∷ 0x00 ∷ 0x00 ∷ 0x00
    ∷ 0x00 ∷ 0x00 ∷ 0x00 ∷ 0x00 ∷ 0x00 ∷ 0x00 ∷ 0x00 ∷ 0x00 ∷ 0x00 ∷ 0x00 ∷ 0x00 ∷ 0x00 ∷ 0x00
    ∷ 0x00 ∷ 0x00 ∷ 0x00 ∷ 0x00 ∷ 0x00 ∷ 0x02 ∷ 0xa0 ∷ 0xc0 ∷ 0xd1 ∷ 0xc0 ∷ 0x00 ∷ 0x78 ∷ 0x41
    ∷ 0x0f ∷ 0xd0 ∷ 0x16 ∷ 0x45 ∷ 0x80 ∷ 0xb0 ∷ 0xba ∷ 0xd9 ∷ 0x3d ∷ 0x8a ∷ 0x57 ∷ 0x95 ∷ 0x80
    ∷ 0xd0 ∷ 0x6c ∷ 0xf4 ∷ 0x5f ∷ 0xc2 ∷ 0x69 ∷ 0x6a ∷ 0x82 ∷ 0x34 ∷ 0x98 ∷ 0x09 ∷ 0x7b ∷ 0x8a
    ∷ 0xa0 ∷ 0x2b ∷ 0xb5 ∷ 0x54 ∷ 0x04 ∷ 0x61 ∷ 0xad ∷ 0xf3 ∷ 0xeb ∷ 0x1d ∷ 0x87 ∷ 0xaf ∷ 0xfe
    ∷ 0xc4 ∷ 0x12 ∷ 0x0a ∷ 0xd0 ∷ 0x2c ∷ 0x1d ∷ 0x3d ∷ 0xfe ∷ 0xb5 ∷ 0x58 ∷ 0xa4 ∷ 0x4a ∷ 0x41
    ∷ 0xbd ∷ 0xb5 ∷ 0x46 ∷ 0x36 ∷ 0x0c ∷ 0x8b ∷ 0x2a ∷ 0xa0 ∷ 0x2b ∷ 0xb5 ∷ 0x54 ∷ 0x04 ∷ 0x61
    ∷ 0xad ∷ 0xf3 ∷ 0xeb ∷ 0x1d ∷ 0x87 ∷ 0xaf ∷ 0xfe ∷ 0xc4 ∷ 0x12 ∷ 0x0a ∷ 0xd0 ∷ 0x2c ∷ 0x1d
    ∷ 0x3d ∷ 0xfe ∷ 0xb5 ∷ 0x58 ∷ 0xa4 ∷ 0x4a ∷ 0x41 ∷ 0xbd ∷ 0xb5 ∷ 0x46 ∷ 0x36 ∷ 0x0c ∷ 0x8b
    ∷ 0x2b ∷ 0xa0 ∷ 0x57 ∷ 0xe1 ∷ 0x5a ∷ 0xf2 ∷ 0xcd ∷ 0xc4 ∷ 0xea ∷ 0x5a ∷ 0xf6 ∷ 0x47 ∷ 0x7b
    ∷ 0xe8 ∷ 0x52 ∷ 0xd0 ∷ 0xd5 ∷ 0x5b ∷ 0x2e ∷ 0x8b ∷ 0x80 ∷ 0x39 ∷ 0xf9 ∷ 0x55 ∷ 0xb0 ∷ 0xdb
    ∷ 0x74 ∷ 0x00 ∷ 0x69 ∷ 0x2f ∷ 0x43 ∷ 0xf3 ∷ 0x5f ∷ 0x75 ∷ 0xa0 ∷ 0x00 ∷ 0x00 ∷ 0x00 ∷ 0x00
    ∷ 0x00 ∷ 0x00 ∷ 0x00 ∷ 0x00 ∷ 0x00 ∷ 0x00 ∷ 0x00 ∷ 0x00 ∷ 0x00 ∷ 0x00 ∷ 0x00 ∷ 0x00 ∷ 0x00
    ∷ 0x00 ∷ 0x00 ∷ 0x00 ∷ 0x00 ∷ 0x00 ∷ 0x00 ∷ 0x00 ∷ 0x00 ∷ 0x00 ∷ 0x00 ∷ 0x00 ∷ 0x00 ∷ 0x00
    ∷ 0x00 ∷ 0x00 ∷ 0xa0 ∷ 0x00 ∷ 0x00 ∷ 0x00 ∷ 0x00 ∷ 0x00 ∷ 0x00 ∷ 0x00 ∷ 0x00 ∷ 0x00 ∷ 0x00
    ∷ 0x00 ∷ 0x00 ∷ 0x00 ∷ 0x00 ∷ 0x00 ∷ 0x00 ∷ 0x00 ∷ 0x00 ∷ 0x00 ∷ 0x00 ∷ 0x00 ∷ 0x00 ∷ 0x00
    ∷ 0x00 ∷ 0x00 ∷ 0x00 ∷ 0x00 ∷ 0x00 ∷ 0x00 ∷ 0x00 ∷ 0x00 ∷ 0x01 ∷ 0xa0 ∷ 0x73 ∷ 0x50 ∷ 0xe6
    ∷ 0x2d ∷ 0x40 ∷ 0x0d ∷ 0xa1 ∷ 0xaa ∷ 0xd2 ∷ 0x4e ∷ 0xb9 ∷ 0x8f ∷ 0x7b ∷ 0xa1 ∷ 0x20 ∷ 0x04
    ∷ 0x60 ∷ 0xb1 ∷ 0x3f ∷ 0xa4 ∷ 0xeb ∷ 0xae ∷ 0xbc ∷ 0xcf ∷ 0x69 ∷ 0xf1 ∷ 0xec ∷ 0x15 ∷ 0xe9
    ∷ 0x89 ∷ 0x67 ∷ 0x38 ∷ 0xa0 ∷ 0x73 ∷ 0x50 ∷ 0xe6 ∷ 0x2d ∷ 0x40 ∷ 0x0d ∷ 0xa1 ∷ 0xaa ∷ 0xd2
    ∷ 0x4e ∷ 0xb9 ∷ 0x8f ∷ 0x7b ∷ 0xa1 ∷ 0x20 ∷ 0x04 ∷ 0x60 ∷ 0xb1 ∷ 0x3f ∷ 0xa4 ∷ 0xeb ∷ 0xae
    ∷ 0xbc ∷ 0xcf ∷ 0x69 ∷ 0xf1 ∷ 0xec ∷ 0x15 ∷ 0xe9 ∷ 0x89 ∷ 0x67 ∷ 0x39 ∷ 0xa0 ∷ 0x73 ∷ 0x50
    ∷ 0xe6 ∷ 0x2d ∷ 0x40 ∷ 0x0d ∷ 0xa1 ∷ 0xaa ∷ 0xd2 ∷ 0x4e ∷ 0xb9 ∷ 0x8f ∷ 0x7b ∷ 0xa1 ∷ 0x20
    ∷ 0x04 ∷ 0x60 ∷ 0xb1 ∷ 0x3f ∷ 0xa4 ∷ 0xeb ∷ 0xae ∷ 0xbc ∷ 0xcf ∷ 0x69 ∷ 0xf1 ∷ 0xec ∷ 0x15
    ∷ 0xe9 ∷ 0x89 ∷ 0x67 ∷ 0x3a ∷ 0xa0 ∷ 0x57 ∷ 0xe1 ∷ 0x5a ∷ 0xf2 ∷ 0xcd ∷ 0xc4 ∷ 0xea ∷ 0x5a
    ∷ 0xf6 ∷ 0x47 ∷ 0x7b ∷ 0xe8 ∷ 0x52 ∷ 0xd0 ∷ 0xd5 ∷ 0x5b ∷ 0x2e ∷ 0x8b ∷ 0x80 ∷ 0x39 ∷ 0xf9
    ∷ 0x55 ∷ 0xb0 ∷ 0xdb ∷ 0x74 ∷ 0x00 ∷ 0x69 ∷ 0x2f ∷ 0x43 ∷ 0xf3 ∷ 0x5f ∷ 0x77 ∷ 0xf8 ∷ 0x59
    ∷ 0x94 ∷ 0x49 ∷ 0x64 ∷ 0x21 ∷ 0x10 ∷ 0xb7 ∷ 0x12 ∷ 0xc1 ∷ 0xfd ∷ 0x72 ∷ 0x61 ∷ 0xbc ∷ 0x07
    ∷ 0x41 ∷ 0x05 ∷ 0xe9 ∷ 0xe4 ∷ 0x46 ∷ 0x76 ∷ 0xc6 ∷ 0x8f ∷ 0xf8 ∷ 0x42 ∷ 0xa0 ∷ 0xb3 ∷ 0x9e
    ∷ 0x9b ∷ 0xa9 ∷ 0x2c ∷ 0x3c ∷ 0x47 ∷ 0xc7 ∷ 0x6d ∷ 0x4f ∷ 0x70 ∷ 0xe3 ∷ 0xbc ∷ 0x9c ∷ 0x32
    ∷ 0x70 ∷ 0xab ∷ 0x78 ∷ 0xd2 ∷ 0x59 ∷ 0x27 ∷ 0x18 ∷ 0xd3 ∷ 0x77 ∷ 0xc8 ∷ 0xf5 ∷ 0x43 ∷ 0x3a
    ∷ 0x34 ∷ 0xd3 ∷ 0x47 ∷ 0x0a ∷ 0xa0 ∷ 0x5f ∷ 0x19 ∷ 0x93 ∷ 0x3e ∷ 0x8e ∷ 0xcb ∷ 0xa4 ∷ 0x77
    ∷ 0xd2 ∷ 0x44 ∷ 0x13 ∷ 0xf2 ∷ 0x9d ∷ 0xa8 ∷ 0xdd ∷ 0x30 ∷ 0x35 ∷ 0xe3 ∷ 0x6c ∷ 0xa2 ∷ 0x49
    ∷ 0xde ∷ 0x11 ∷ 0x4b ∷ 0xc9 ∷ 0x8e ∷ 0xa2 ∷ 0x8d ∷ 0x25 ∷ 0x1d ∷ 0x02 ∷ 0xb5 ∷ 0x80 ∷ 0xa0
    ∷ 0xa0 ∷ 0x0d ∷ 0x83 ∷ 0xa1 ∷ 0x28 ∷ 0x35 ∷ 0xab ∷ 0x96 ∷ 0x53 ∷ 0xee ∷ 0x11 ∷ 0x07 ∷ 0x7d
    ∷ 0x5d ∷ 0xd3 ∷ 0x10 ∷ 0xa4 ∷ 0x24 ∷ 0xdd ∷ 0x67 ∷ 0x88 ∷ 0x54 ∷ 0x45 ∷ 0xf5 ∷ 0x31 ∷ 0x92
    ∷ 0x07 ∷ 0xe7 ∷ 0xa5 ∷ 0xa2 ∷ 0xae ∷ 0x15 ∷ 0xa0 ∷ 0x59 ∷ 0xc4 ∷ 0x64 ∷ 0x2a ∷ 0x2a ∷ 0xc7
    ∷ 0x7f ∷ 0x31 ∷ 0xd8 ∷ 0x8d ∷ 0xe1 ∷ 0xa4 ∷ 0xe0 ∷ 0xf7 ∷ 0x0e ∷ 0xb2 ∷ 0x20 ∷ 0xbe ∷ 0x8a
    ∷ 0x82 ∷ 0x19 ∷ 0x94 ∷ 0x3c ∷ 0x3a ∷ 0xf9 ∷ 0xcf ∷ 0x9c ∷ 0x71 ∷ 0xe3 ∷ 0x14 ∷ 0x3e ∷ 0xbd ∷ []

abbrev read_and_write : Bytes → Result DecoderError Bytes
read_and_write d = do
  tx ← decode wire_crates d
  ok (wire_crates.out (rlp_append_sealed_transaction tx new))

bytes_again : read_and_write bytes ≡ ok bytes
unfolding decode is_typed_transaction decode_typed from_u8 tx_type_eq as_u8 Eip1559.decode
    Eip1559.decode_unsigned Eip1559.decode_fields Eip1559.payload_size Eip1559.validate_v
    Action.decode AccessList.decode AccessList.decode_item decode_each rlp_append_sealed_transaction
    Eip1559.rlp_append_sealed_transaction Eip1559.sealed_payload_size Action.rlp_append
    AccessList.rlp_append AccessList.rlp_append_item append_each
bytes_again = refl
