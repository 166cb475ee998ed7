-- ===== src/Transaction/AccessList.antt =====
-- ethcore/transaction/src/transaction/eip2930.rs: access lists.
pub mod Codec
use mm2_parity_ethereum.Base.{Bytes, ℕ, List, [], length, Result, ok, ◌>>=◌}
use mm2_parity_ethereum.Crates.{Crates}
use mm2_parity_ethereum.Crates.Rlp.{DecoderError}
use mm2_parity_ethereum.Crates.Rlp.Tree.{Value}
use mm2_parity_ethereum.Crates.Rlp.Stream.{
  RlpStream, begin_list, append, ◌|>◌, append_each, decode_each,
}

pub record AccessListItem : Type 0 where
  pub address : Bytes
  pub storage_keys : List Bytes

-- `AccessList(pub Vec<AccessListItem>)`
abbrev pub AccessList : Type 0
AccessList = List AccessListItem

abbrev pub default_access_list : AccessList
default_access_list = []

unfoldable pub rlp_append_item : AccessListItem → RlpStream → RlpStream
unfolding append_each
rlp_append_item item s =
    s
    |> begin_list 2
    |> append (Value.address item.address)
    |> begin_list (length item.storage_keys)
    |> append_each (λ key. append (Value.h256 key)) item.storage_keys

unfoldable pub rlp_append : AccessList → RlpStream → RlpStream
unfolding append_each rlp_append_item
rlp_append access_list s =
    s |> begin_list (length access_list) |> append_each rlp_append_item access_list

module _ (c : Crates) where
  unfoldable pub decode_item : Bytes → Result DecoderError AccessListItem
  unfolding decode_each
  decode_item d = do
    address_rlp ← c.item_at d 0
    address ← c.decode_address address_rlp
    keys_rlp ← c.item_at d 1
    n ← c.item_count keys_rlp
    storage_keys ← decode_each c.rlp c.decode_h256 keys_rlp n 0 []
    ok (record { address = address; storage_keys = storage_keys })

  unfoldable pub decode : Bytes → Result DecoderError AccessList
  unfolding decode_each decode_item
  decode d = do n ← c.item_count d; decode_each c.rlp decode_item d n 0 []
