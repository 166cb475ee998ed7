-- ===== src/Transaction/Action/Codec.antt =====
-- ethcore/transaction/src/transaction.rs: what an action appends, and reading it back.
use mm2_parity_ethereum.Base.{IsArray, ◌≡◌, refl, ◌++◌, ok}
use mm2_parity_ethereum.Crates.{Crates}
use mm2_parity_ethereum.Crates.Rlp.{RlpLaws}
use mm2_parity_ethereum.Crates.Rlp.Tree.{Value, empty_str, address, leaf, calls, IsValue}
use mm2_parity_ethereum.Crates.Rlp.Stream.{RlpStream}
use mm2_parity_ethereum.Transaction.Action.{Action, create, call, rlp_append, decode}

-- An address has twenty bytes.
abbrev pub IsAction : Action → Type 0
IsAction create = Unit
IsAction (call a) = IsArray 20 a

abbrev pub action_value : Action → Value
action_value create = empty_str
action_value (call a) = address a

pub action_value-IsValue : (a : Action) → IsAction a → IsValue (action_value a)
action_value-IsValue create h = tt
action_value-IsValue (call a) h = h

pub rlp_append_lem :
    (a : Action) (s : RlpStream) → rlp_append a s ≡ s ++ calls (leaf (action_value a))
unfolding rlp_append
rlp_append_lem create s = refl
rlp_append_lem (call a) s = refl

pub decode-action_value :
    (c : Crates) (laws : RlpLaws c.rlp) (a : Action)
    → IsAction a
    → decode c (laws.encode (leaf (action_value a))) ≡ ok a
unfolding decode
decode-action_value c laws create h = rw laws.is_empty-empty_str
decode-action_value c laws (call a) h = rw (laws.is_empty-address a h, laws.decode_address_lem a h)
