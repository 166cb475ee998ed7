-- ===== src/Transaction/Shared.antt =====
-- ethcore/transaction/src/transaction.rs: the trait object that all unsigned transactions give.
use mm2_parity_ethereum.Base.{Bytes, ℕ, Option}
use mm2_parity_ethereum.Crates.{Crates}
use mm2_parity_ethereum.Transaction.Action.{Action}
use mm2_parity_ethereum.Transaction.Legacy as Legacy
use mm2_parity_ethereum.Transaction.Eip2930 as Eip2930
use mm2_parity_ethereum.Transaction.Eip1559 as Eip1559

pub record TransactionShared : Type 0 where
  pub nonce : ℕ
  pub action : Action
  pub value : ℕ
  pub gas : ℕ
  pub tx_data : Bytes
  pub message_hash : Option ℕ → Bytes

module _ (c : Crates) where
  unfoldable pub legacy_shared : Legacy.LegacyTransaction → TransactionShared
  unfolding Legacy.message_hash
  legacy_shared tx = record {
    nonce = tx.nonce;
    action = tx.action;
    value = tx.value;
    gas = tx.gas;
    tx_data = tx.tx_data;
    message_hash = Legacy.message_hash c tx;
  }

  unfoldable pub eip2930_shared : Eip2930.Eip2930Transaction → TransactionShared
  unfolding Eip2930.message_hash
  eip2930_shared tx = record {
    nonce = tx.nonce;
    action = tx.action;
    value = tx.value;
    gas = tx.gas;
    tx_data = tx.tx_data;
    message_hash = λ _. Eip2930.message_hash c tx;
  }

  unfoldable pub eip1559_shared : Eip1559.Eip1559Transaction → TransactionShared
  unfolding Eip1559.message_hash
  eip1559_shared tx = record {
    nonce = tx.nonce;
    action = tx.action;
    value = tx.value;
    gas = tx.gas;
    tx_data = tx.tx_data;
    message_hash = λ _. Eip1559.message_hash c tx;
  }
