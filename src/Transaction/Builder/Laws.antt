-- ===== src/Transaction/Builder/Laws.antt =====
-- ethcore/transaction/src/transaction/tx_builders.rs: what the builder accepts and what it builds.
use mm2_parity_ethereum.Base.{refl, [], ℕ, ◌≡◌, ◌≢◌, Option, none, some, ok, err, arith, ◌↔◌, ◌⊎◌}
use mm2_parity_ethereum.Transaction.AccessList.{AccessList}
use mm2_parity_ethereum.Transaction.TxType.{TxType, legacy, type1, type2, invalid}
use mm2_parity_ethereum.Transaction.Unverified.{TransactionWrapper}
use mm2_parity_ethereum.Crates.{Crates}
use mm2_parity_ethereum.Transaction.Shared.{legacy_shared, eip2930_shared, eip1559_shared}
use mm2_parity_ethereum.Transaction.Wrapper.{shared}
use mm2_parity_ethereum.Transaction.Builder.{
  TransactionWrapperBuilder, TxBuilderError, invalid_tx_type, no_gas_price_set, no_fee_per_gas_set,
  no_chain_id_set, build, build_as, access_list_or_default,
}

-- The prices that a type needs are set.
abbrev pub IsSet? : Option ℕ → Type 0
IsSet? o = (n : ℕ) × (o ≡ some n)

-- The type that a built transaction has.
abbrev pub type_of : TransactionWrapper → TxType
type_of (TransactionWrapper.legacy tx) = legacy
type_of (TransactionWrapper.eip2930 tx) = type1
type_of (TransactionWrapper.eip1559 tx) = type2

-- What each type needs.
abbrev pub IsComplete : TxType → TransactionWrapperBuilder → Type 0
IsComplete legacy b = IsSet? b.gas_price
IsComplete type1 b = IsSet? b.chain_id × IsSet? b.gas_price
IsComplete type2 b =
    IsSet? b.chain_id × IsSet? b.max_fee_per_gas × IsSet? b.max_priority_fee_per_gas
IsComplete invalid b = ⊥

-- An access list that was set is the list that is sent; where none was set, an empty one is.
abbrev pub HoldsList : Option AccessList → AccessList → Type 0
HoldsList (some set) list = list ≡ set
HoldsList none list = list ≡ []

-- The fields that only some types have.
abbrev pub Carries : TransactionWrapperBuilder → TransactionWrapper → Type 0
Carries b (TransactionWrapper.legacy tx) = b.gas_price ≡ some tx.gas_price
Carries b (TransactionWrapper.eip2930 tx) =
    (b.chain_id ≡ some tx.chain_id)
    × (b.gas_price ≡ some tx.gas_price)
    × HoldsList b.access_list tx.access_list
Carries b (TransactionWrapper.eip1559 tx) =
    (b.chain_id ≡ some tx.chain_id)
    × (b.max_fee_per_gas ≡ some tx.max_fee_per_gas)
    × (b.max_priority_fee_per_gas ≡ some tx.max_priority_fee_per_gas)
    × HoldsList b.access_list tx.access_list

build_as-IsComplete :
    (type : TxType) (b : TransactionWrapperBuilder) (tx : TransactionWrapper)
    → build_as type b ≡ ok tx
    → IsComplete type b
unfolding build_as
build_as-IsComplete legacy b tx e = ground arith
build_as-IsComplete _ b tx e = ground arith

build_as-eq-ok :
    (type : TxType) (b : TransactionWrapperBuilder)
    → IsComplete type b
    → (tx : TransactionWrapper) × (build_as type b ≡ ok tx)
unfolding build_as
build_as-eq-ok legacy b (p, e) = (
  TransactionWrapper.legacy (record {
    nonce = b.nonce;
    gas_price = p;
    gas = b.gas;
    action = b.action;
    value = b.value;
    tx_data = b.tx_data;
  }),
  rw e,
)
build_as-eq-ok type1 b ((i, ei), (p, ep)) = (
  TransactionWrapper.eip2930 (record {
    chain_id = i;
    nonce = b.nonce;
    gas_price = p;
    gas = b.gas;
    action = b.action;
    value = b.value;
    tx_data = b.tx_data;
    access_list = access_list_or_default b.access_list;
  }),
  rw (ei, ep),
)
build_as-eq-ok type2 b ((i, ei), (m, em), (p, ep)) = (
  TransactionWrapper.eip1559 (record {
    chain_id = i;
    nonce = b.nonce;
    max_fee_per_gas = m;
    max_priority_fee_per_gas = p;
    gas = b.gas;
    action = b.action;
    value = b.value;
    tx_data = b.tx_data;
    access_list = access_list_or_default b.access_list;
  }),
  rw (ei, em, ep),
)
build_as-eq-ok invalid b h = elim h [ ]

-- A transaction is built exactly when all that its type needs is set: a gas price for legacy ones, a
-- chain id and the prices for typed ones. None is built of an invalid type.
pub build_iff :
    (b : TransactionWrapperBuilder)
    → ((tx : TransactionWrapper) × (build b ≡ ok tx)) ↔ IsComplete b.tx_type b
unfolding build
build_iff b = ((λ (tx, e). build_as-IsComplete b.tx_type b tx e), build_as-eq-ok b.tx_type b)

access_list_or_default-HoldsList :
    (set : Option AccessList) → HoldsList set (access_list_or_default set)
unfolding access_list_or_default
access_list_or_default-HoldsList (some set) = refl
access_list_or_default-HoldsList none = refl

-- A built transaction has the builder's type, nonce, action, value, gas and data, and the prices,
-- the chain id and the access list (empty where none is set) that its type carries.
pub build_fields :
    (c : Crates) (b : TransactionWrapperBuilder) (tx : TransactionWrapper)
    → build b ≡ ok tx
    → (type_of tx ≡ b.tx_type)
      × ((shared c tx).nonce ≡ b.nonce)
      × ((shared c tx).action ≡ b.action)
      × ((shared c tx).value ≡ b.value)
      × ((shared c tx).gas ≡ b.gas)
      × ((shared c tx).tx_data ≡ b.tx_data)
      × Carries b tx
unfolding build build_as shared legacy_shared eip2930_shared eip1559_shared
build_fields c b (TransactionWrapper.legacy tx) e = ground arith
build_fields c b _ e =
    let holds : HoldsList b.access_list (access_list_or_default b.access_list) =
      access_list_or_default-HoldsList b.access_list in
    ground arith

-- The error that each type gives: the first missing field decides.
abbrev pub Misses : TxType → TransactionWrapperBuilder → TxBuilderError → Type 0
Misses legacy b e = (b.gas_price ≡ none) × (e ≡ no_gas_price_set)
Misses type1 b e =
    ((b.chain_id ≡ none) × (e ≡ no_chain_id_set))
    ⊎ ((b.chain_id ≢ none) × (b.gas_price ≡ none) × (e ≡ no_gas_price_set))
Misses type2 b e =
    ((b.chain_id ≡ none) × (e ≡ no_chain_id_set))
    ⊎ ((b.chain_id ≢ none)
        × ((b.max_fee_per_gas ≡ none) ⊎ (b.max_priority_fee_per_gas ≡ none))
        × (e ≡ no_fee_per_gas_set))
Misses invalid b e = e ≡ invalid_tx_type

build_as_errors :
    (type : TxType) (b : TransactionWrapperBuilder) (e : TxBuilderError)
    → (build_as type b ≡ err e) ↔ Misses type b e
unfolding build_as
build_as_errors legacy b e = ground arith
build_as_errors type1 b e = ground arith
build_as_errors type2 b e = ground arith
build_as_errors invalid b e = ground arith

-- Building is refused with an error exactly when the first thing missing for the type is the one
-- that the error names: the chain id of a typed transaction, then a price; an invalid type always.
pub build_errors :
    (b : TransactionWrapperBuilder) (e : TxBuilderError) → (build b ≡ err e) ↔ Misses b.tx_type b e
unfolding build
build_errors b e = build_as_errors b.tx_type b e
