-- ===== src/Transaction/Error.antt =====
-- ethcore/transaction/src/error.rs: the errors of transaction processing.
use Prim.Native.String.{String, ◌++◌}
use mm2_parity_ethereum.Base.{ℕ}
use mm2_parity_ethereum.Util.Unexpected.{OutOfBounds, display_out_of_bounds}
use mm2_parity_ethereum.Ethkey.Error as EthkeyError
use mm2_parity_ethereum.Crates.Rlp.{DecoderError}

pub data Error : Type 0 where
  already_imported old too_cheap_to_replace limit_reached : Error
  -- The minimum and the value that was given.
  insufficient_gas_price insufficient_gas : ℕ → ℕ → Error
  -- The balance and the cost.
  insufficient_balance : ℕ → ℕ → Error
  -- The limit and the transaction's gas.
  gas_limit_exceeded : ℕ → ℕ → Error
  invalid_gas_limit : OutOfBounds ℕ → Error
  sender_banned recipient_banned code_banned invalid_chain_id not_allowed : Error
  invalid_signature : String → Error
  too_big : Error
  invalid_rlp : String → Error

-- `From<ethkey::Error>`
unfoldable pub from_ethkey : EthkeyError.Error → Error
unfolding EthkeyError.display
from_ethkey e = invalid_signature (EthkeyError.display e)

-- `From<rlp::DecoderError>`, where `show_decoder_error` is the crate's `Display`.
unfoldable pub from_decoder : (DecoderError → String) → DecoderError → Error
from_decoder show_decoder_error e = invalid_rlp (show_decoder_error e)

-- `error::Error`
unfoldable pub description : Error → String
description e = "Transaction error"

-- `Display`, where `show` is that of `U256`.
module _ (show : ℕ → String) where
  unfoldable pub message : Error → String
  unfolding display_out_of_bounds
  message already_imported = "Already imported"
  message old = "No longer valid"
  message too_cheap_to_replace = "Gas price too low to replace"
  message limit_reached = "Transaction limit reached"
  message (insufficient_gas_price minimal got) =
      "Insufficient gas price. Min=" ++ show minimal ++ ", Given=" ++ show got
  message (insufficient_gas minimal got) =
      "Insufficient gas. Min=" ++ show minimal ++ ", Given=" ++ show got
  message (insufficient_balance balance cost) =
      "Insufficient balance for transaction. Balance=" ++ show balance ++ ", Cost=" ++ show cost
  message (gas_limit_exceeded limit got) =
      "Gas limit exceeded. Limit=" ++ show limit ++ ", Given=" ++ show got
  message (invalid_gas_limit e) = "Invalid gas limit. " ++ display_out_of_bounds show e
  message sender_banned = "Sender is temporarily banned."
  message recipient_banned = "Recipient is temporarily banned."
  message code_banned = "Contract code is temporarily banned."
  message invalid_chain_id = "Transaction of this chain ID is not allowed on this chain."
  message (invalid_signature e) = "Transaction has invalid signature: " ++ e ++ "."
  message not_allowed = "Sender does not have permissions to execute this type of transction"
  message too_big = "Transaction too big"
  message (invalid_rlp e) = "Transaction has invalid RLP structure: " ++ e ++ "."

  unfoldable pub display : Error → String
  unfolding message
  display e = "Transaction error (" ++ message e ++ ")"
