-- ===== src/Transaction/Action.antt =====
-- ethcore/transaction/src/transaction.rs: the action of a transaction.
pub mod Codec
use mm2_parity_ethereum.Base.{Bytes, Result, ok, ◌>>=◌, if◌then◌else◌}
use mm2_parity_ethereum.Crates.{Crates}
use mm2_parity_ethereum.Crates.Rlp.{DecoderError}
use mm2_parity_ethereum.Crates.Rlp.Tree.{empty_str, address}
use mm2_parity_ethereum.Crates.Rlp.Stream.{RlpStream, append}

pub data Action : Type 0 where
  create : Action
  call : Bytes → Action

unfoldable pub default_action : Action
default_action = create

unfoldable pub rlp_append : Action → RlpStream → RlpStream
rlp_append create s = append empty_str s
rlp_append (call addr) s = append (address addr) s

unfoldable pub decode : Crates → Bytes → Result DecoderError Action
decode c rlp = if c.is_empty rlp then ok create else do addr ← c.decode_address rlp; ok (call addr)
