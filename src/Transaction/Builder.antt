-- ===== src/Transaction/Builder.antt =====
-- ethcore/transaction/src/transaction/tx_builders.rs: the builder of transactions.
pub mod Laws
pub mod Sent
pub mod Found
use Prim.Native.String.{String, ◌++◌}
use mm2_parity_ethereum.Base.{Bytes, ℕ, Option, none, some, Result, ok, err, ◌>>=◌}
use mm2_parity_ethereum.Transaction.TxType.{TxType, legacy, type1, type2, invalid}
use mm2_parity_ethereum.Transaction.Action.{Action}
use mm2_parity_ethereum.Transaction.AccessList.{AccessList, default_access_list}
use mm2_parity_ethereum.Transaction.Unverified.{TransactionWrapper}

pub data TxBuilderError : Type 0 where
  invalid_tx_type no_gas_price_set no_fee_per_gas_set no_chain_id_set : TxBuilderError

unfoldable pub message : TxBuilderError → String
message invalid_tx_type = "Invalid transaction type set"
message no_gas_price_set = "No gas price set"
message no_fee_per_gas_set = "No gas fee or priority fee per gas set"
message no_chain_id_set = "Chain id must be set"

unfoldable pub display : TxBuilderError → String
unfolding message
display e = "Transaction builder error (" ++ message e ++ ")"

pub record TransactionWrapperBuilder : Type 0 where
  pub tx_type : TxType
  pub chain_id : Option ℕ
  pub nonce : ℕ
  pub gas_price : Option ℕ
  pub max_fee_per_gas : Option ℕ
  pub max_priority_fee_per_gas : Option ℕ
  pub gas : ℕ
  pub action : Action
  pub value : ℕ
  pub tx_data : Bytes
  pub access_list : Option AccessList

unfoldable pub new : TxType → ℕ → ℕ → Action → ℕ → Bytes → TransactionWrapperBuilder
new tx_type nonce gas action value tx_data = record {
  tx_type = tx_type;
  chain_id = none;
  nonce = nonce;
  gas_price = none;
  max_fee_per_gas = none;
  max_priority_fee_per_gas = none;
  gas = gas;
  action = action;
  value = value;
  tx_data = tx_data;
  access_list = none;
}

unfoldable pub with_chain_id : TransactionWrapperBuilder → ℕ → TransactionWrapperBuilder
with_chain_id b chain_id = record b { chain_id = some chain_id }

unfoldable pub with_gas_price : TransactionWrapperBuilder → ℕ → TransactionWrapperBuilder
with_gas_price b gas_price = record b { gas_price = some gas_price }

unfoldable pub with_priority_fee_per_gas :
    TransactionWrapperBuilder → ℕ → ℕ → TransactionWrapperBuilder
with_priority_fee_per_gas b max_fee_per_gas max_priority_fee_per_gas = record b {
  max_fee_per_gas = some max_fee_per_gas;
  max_priority_fee_per_gas = some max_priority_fee_per_gas;
}

unfoldable pub with_access_list : TransactionWrapperBuilder → AccessList → TransactionWrapperBuilder
with_access_list b access_list = record b { access_list = some access_list }

-- `Option::ok_or`
abbrev pub ok_or {ℓ} : {A : Type ℓ} → Option A → TxBuilderError → Result TxBuilderError A
ok_or (some a) e = ok a
ok_or none e = err e

-- `if let Some(access_list) = self.access_list`
unfoldable pub access_list_or_default : Option AccessList → AccessList
access_list_or_default (some access_list) = access_list
access_list_or_default none = default_access_list

-- The arms of `match self.tx_type`.
unfoldable pub build_as :
    TxType → TransactionWrapperBuilder → Result TxBuilderError TransactionWrapper
unfolding access_list_or_default
build_as legacy b = do
  gas_price ← ok_or b.gas_price no_gas_price_set
  ok (
      TransactionWrapper.legacy (record {
        nonce = b.nonce;
        gas_price = gas_price;
        gas = b.gas;
        action = b.action;
        value = b.value;
        tx_data = b.tx_data;
      }))
build_as type1 b = do
  chain_id ← ok_or b.chain_id no_chain_id_set
  gas_price ← ok_or b.gas_price no_gas_price_set
  ok (
      TransactionWrapper.eip2930 (record {
        chain_id = chain_id;
        nonce = b.nonce;
        gas_price = gas_price;
        gas = b.gas;
        action = b.action;
        value = b.value;
        tx_data = b.tx_data;
        access_list = access_list_or_default b.access_list;
      }))
build_as type2 b = do
  chain_id ← ok_or b.chain_id no_chain_id_set
  max_fee_per_gas ← ok_or b.max_fee_per_gas no_fee_per_gas_set
  max_priority_fee_per_gas ← ok_or b.max_priority_fee_per_gas no_fee_per_gas_set
  ok (
      TransactionWrapper.eip1559 (record {
        chain_id = chain_id;
        nonce = b.nonce;
        max_fee_per_gas = max_fee_per_gas;
        max_priority_fee_per_gas = max_priority_fee_per_gas;
        gas = b.gas;
        action = b.action;
        value = b.value;
        tx_data = b.tx_data;
        access_list = access_list_or_default b.access_list;
      }))
build_as invalid b = err invalid_tx_type

unfoldable pub build : TransactionWrapperBuilder → Result TxBuilderError TransactionWrapper
unfolding build_as
build b = build_as b.tx_type b
