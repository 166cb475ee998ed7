-- ===== src/Tests/Building.antt =====
-- The builder: the theorems at concrete inputs.
use mm2_parity_ethereum.Base.{◌≡◌, ◌↔◌, refl, ok, err, some, ◌++◌, arith}
use mm2_parity_ethereum.Sample.{crates, crates_laws}
use mm2_parity_ethereum.Transaction.TxType.{type2}
use mm2_parity_ethereum.Transaction.Action as Action
use mm2_parity_ethereum.Transaction.Unverified.{TransactionWrapper}
use mm2_parity_ethereum.Transaction.Wrapper.{shared, sign}
use mm2_parity_ethereum.Transaction.Signed.{SignedTransaction}
use mm2_parity_ethereum.Ethkey.KeyPair.{KeyPair, from_secret, address}
use mm2_parity_ethereum.Transaction.Builder.Sent.{IsBuilder, IsReceived, sign-build}
use mm2_parity_ethereum.Sample.Keys.{key}
use mm2_parity_ethereum.Transaction.Builder.{
  TransactionWrapperBuilder, new, with_chain_id, with_priority_fee_per_gas, with_access_list, build,
  no_chain_id_set,
}
use mm2_parity_ethereum.Transaction.Builder.Laws.{
  type_of, Carries, Misses, build_fields, build_errors,
}
use mm2_parity_ethereum.Tests.Inputs.{hello, account, access_list, eip1559_tx}

abbrev started : TransactionWrapperBuilder
started = new type2 7 21_000 (Action.call account) 5 hello

abbrev pub completed : TransactionWrapperBuilder
completed =
    with_access_list (with_priority_fee_per_gas (with_chain_id started 3) 9000 100) access_list

pub built : build completed ≡ ok (TransactionWrapper.eip1559 eip1559_tx)
unfolding build new with_chain_id with_priority_fee_per_gas with_access_list
built = refl

build_fields_example :
    (type_of (TransactionWrapper.eip1559 eip1559_tx) ≡ completed.tx_type)
    × ((shared crates (TransactionWrapper.eip1559 eip1559_tx)).nonce ≡ completed.nonce)
    × ((shared crates (TransactionWrapper.eip1559 eip1559_tx)).action ≡ completed.action)
    × ((shared crates (TransactionWrapper.eip1559 eip1559_tx)).value ≡ completed.value)
    × ((shared crates (TransactionWrapper.eip1559 eip1559_tx)).gas ≡ completed.gas)
    × ((shared crates (TransactionWrapper.eip1559 eip1559_tx)).tx_data ≡ completed.tx_data)
    × Carries completed (TransactionWrapper.eip1559 eip1559_tx)
build_fields_example = build_fields crates completed (TransactionWrapper.eip1559 eip1559_tx) built

build_errors_example :
    (build started ≡ err no_chain_id_set) ↔ Misses started.tx_type started no_chain_id_set
build_errors_example = build_errors started no_chain_id_set

pub completed-IsBuilder : IsBuilder completed
unfolding with_access_list with_priority_fee_per_gas with_chain_id new
completed-IsBuilder = omega arith

abbrev key_pair : KeyPair
key_pair = record { secret = key; public = key ++ key }

sign-build_example :
    (signed : SignedTransaction) × (sign crates (TransactionWrapper.eip1559 eip1559_tx) key (some 3)
      ≡ ok signed)
    × IsReceived crates signed (some 3) (address crates key_pair)
unfolding from_secret
sign-build_example =
    sign-build crates crates_laws completed (TransactionWrapper.eip1559 eip1559_tx) key key_pair
      (some 3) completed-IsBuilder built refl (omega arith) tt
