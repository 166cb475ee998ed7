-- ===== src/Crates/Rlp/Tree.antt =====
-- The data model of RLP, nested lists of values, and the calls on a stream that append an item.
use mm2_parity_ethereum.Base.{
  Bytes, IsByte, IsArray, IsU64, IsU256, All, ℕ, zero, suc, List, [], ◌∷◌, ◌++◌, Option, none, some,
}

-- The types that the program appends and whose `Encodable` is the crates' own.
pub data Value : Type 0 where
  u8 u64 u256 : ℕ → Value
  vec_u8 address h256 : Bytes → Value
  empty_str : Value

pub data Call : Type 0 where
  begin_list : ℕ → Call
  append : Value → Call

mutual
  pub data Item : Type 0 where
    leaf : Value → Item
    list : Items → Item

  pub data Items : Type 0 where
    nil : Items
    cons : Item → Items → Items

-- The values of the Rust types.
abbrev pub IsValue : Value → Type 0
IsValue (u8 n) = IsByte n
IsValue (u64 n) = IsU64 n
IsValue (u256 n) = IsU256 n
IsValue (vec_u8 b) = All IsByte b
IsValue (address a) = IsArray 20 a
IsValue (h256 h) = IsArray 32 h
IsValue empty_str = Unit

abbrev mutual
  pub IsItem : Item → Type 0
  IsItem (leaf v) = IsValue v
  IsItem (list xs) = AreItems xs

  pub AreItems : Items → Type 0
  AreItems nil = Unit
  AreItems (cons x xs) = IsItem x × AreItems xs

abbrev pub length_items : Items → ℕ
length_items nil = 0
length_items (cons x xs) = suc (length_items xs)

abbrev pub get_item? : Items → ℕ → Option Item
get_item? nil i = none
get_item? (cons x xs) zero = some x
get_item? (cons x xs) (suc i) = get_item? xs i

abbrev mutual
  pub calls : Item → List Call
  calls (leaf v) = append v ∷ []
  calls (list xs) = begin_list (length_items xs) ∷ calls_all xs

  pub calls_all : Items → List Call
  calls_all nil = []
  calls_all (cons x xs) = calls x ++ calls_all xs
