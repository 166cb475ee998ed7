-- ===== src/Tests/Inputs.antt =====
-- Transactions and signatures for the tests: those of the tests in
-- ethcore/transaction/src/transaction.rs where they are short.
use mm2_parity_ethereum.Base.{Bytes, [], ◌∷◌, replicate, arith}
use mm2_parity_ethereum.Transaction.Action.{create, call}
use mm2_parity_ethereum.Transaction.AccessList.{AccessList}
use mm2_parity_ethereum.Transaction.Legacy.{LegacyTransaction, UnverifiedLegacyTransaction}
use mm2_parity_ethereum.Transaction.Legacy.Codec.{IsLegacy, IsUnverifiedLegacy}
use mm2_parity_ethereum.Transaction.Eip2930.{UnverifiedEip2930Transaction}
use mm2_parity_ethereum.Transaction.Eip2930.Codec.{IsUnverifiedEip2930}
use mm2_parity_ethereum.Transaction.Eip1559.{Eip1559Transaction, UnverifiedEip1559Transaction}
use mm2_parity_ethereum.Transaction.Eip1559.Codec.{IsEip1559, IsUnverifiedEip1559}

abbrev pub hello : Bytes
hello = 0x48 ∷ 0x65 ∷ 0x6c ∷ 0x6c ∷ 0x6f ∷ 0x21 ∷ []

abbrev pub legacy_tx : LegacyTransaction
legacy_tx = record {
  nonce = 42;
  gas_price = 3000;
  gas = 50_000;
  action = create;
  value = 1;
  tx_data = hello;
}

pub legacy_tx-IsLegacy : IsLegacy legacy_tx
legacy_tx-IsLegacy = omega arith

abbrev pub account : Bytes
account = replicate 20 7

abbrev pub access_list : AccessList
access_list =
    record { address = account; storage_keys = replicate 32 1 ∷ replicate 32 2 ∷ [] }
    ∷ record { address = replicate 20 9; storage_keys = [] }
    ∷ []

abbrev pub eip1559_tx : Eip1559Transaction
eip1559_tx = record {
  chain_id = 3;
  nonce = 7;
  max_fee_per_gas = 9000;
  max_priority_fee_per_gas = 100;
  gas = 21_000;
  action = call account;
  value = 5;
  tx_data = hello;
  access_list = access_list;
}

pub eip1559_tx-IsEip1559 : IsEip1559 eip1559_tx
eip1559_tx-IsEip1559 = omega arith

abbrev pub sealed_legacy : UnverifiedLegacyTransaction
sealed_legacy = record { unsigned = legacy_tx; network_v = 37; r = 5; s = 6; hash = replicate 32 0 }

pub sealed_legacy-IsUnverifiedLegacy : IsUnverifiedLegacy sealed_legacy
sealed_legacy-IsUnverifiedLegacy = omega arith

abbrev pub sealed_eip1559 : UnverifiedEip1559Transaction
sealed_eip1559 = record { unsigned = eip1559_tx; v = 1; r = 5; s = 6; hash = replicate 32 0 }

pub sealed_eip1559-IsUnverifiedEip1559 : IsUnverifiedEip1559 sealed_eip1559
sealed_eip1559-IsUnverifiedEip1559 = omega arith

abbrev pub sealed_eip2930 : UnverifiedEip2930Transaction
sealed_eip2930 = record {
  unsigned = record {
    chain_id = 3;
    nonce = 7;
    gas_price = 9000;
    gas = 21_000;
    action = call account;
    value = 5;
    tx_data = hello;
    access_list = access_list;
  };
  v = 0;
  r = 5;
  s = 6;
  hash = replicate 32 0;
}

pub sealed_eip2930-IsUnverifiedEip2930 : IsUnverifiedEip2930 sealed_eip2930
sealed_eip2930-IsUnverifiedEip2930 = omega arith
