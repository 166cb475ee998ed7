-- ===== src/Transaction/TxType.antt =====
-- ethcore/transaction/src/transaction.rs: the transaction types.
use mm2_parity_ethereum.Base.{ℕ, Bool, true, false, ◌==◌, if◌then◌else◌}

pub data TxType : Type 0 where
  legacy type1 type2 invalid : TxType

-- `TxType::from`
unfoldable pub from_u8 : ℕ → TxType
from_u8 v = if v == 1 then type1 else if v == 2 then type2 else invalid

-- `as u8`
unfoldable pub as_u8 : TxType → ℕ
as_u8 legacy = 0
as_u8 type1 = 1
as_u8 type2 = 2
as_u8 invalid = 3

-- `PartialEq`
unfoldable pub tx_type_eq : TxType → TxType → Bool
tx_type_eq legacy legacy = true
tx_type_eq type1 type1 = true
tx_type_eq type2 type2 = true
tx_type_eq invalid invalid = true
tx_type_eq _ _ = false
