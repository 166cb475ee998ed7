-- ===== src/Crates/Rlp/Stream.antt =====
-- The calls on an `RlpStream`, as additions to the end of its trace.
use mm2_parity_ethereum.Base.{
  ℕ, zero, suc, ◌+◌, ◌≡◌, refl, ap, ◌∙◌, sym, List, [], ◌∷◌, ◌++◌, length, All, length-snoc, some,
  Result, ok, ◌>>=◌, Bytes,
}
use mathlib.Core.List.{append_assoc, append-nil}
use mm2_parity_ethereum.Crates.Rlp.{RlpCrate, RlpLaws, DecoderError}
use mm2_parity_ethereum.Crates.Rlp.Tree.{
  Value, Call, Item, Items, calls, calls_all, cons, nil, list, length_items, get_item?, IsItem,
  AreItems,
}

abbrev pub RlpStream : Type 0
RlpStream = List Call

-- `RlpStream::new`
abbrev pub new : RlpStream
new = []

abbrev pub begin_list : ℕ → RlpStream → RlpStream
begin_list n s = s ++ Call.begin_list n ∷ []

-- `append` and `append_internal` of a value whose `Encodable` is the crates' own.
abbrev pub append : Value → RlpStream → RlpStream
append v s = s ++ Call.append v ∷ []

-- `s.f(x)` in a chain.
infixl 1 ◌|>◌
abbrev pub ◌|>◌ {ℓ κ} : {A : Type ℓ} {B : Type κ} → A → (A → B) → B
s |> f = f s

-- `for x in xs { s.append(x) }`, where `f x` is what `x` appends.
module _ {ℓ} {A : Type ℓ} (f : A → RlpStream → RlpStream) where
  unfoldable pub append_each : List A → RlpStream → RlpStream
  append_each [] s = s
  append_each (x ∷ xs) s = append_each xs (f x s)

-- `for i in i..i + rounds { out.push(decode(at(i)?)?) }`
module _ {ℓ} {A : Type ℓ} (r : RlpCrate) (decode : Bytes → Result DecoderError A) (d : Bytes) where
  unfoldable pub decode_each : ℕ → ℕ → List A → Result DecoderError (List A)
  decode_each zero i out = ok out
  decode_each (suc rounds) i out = do
    x_rlp ← r.item_at d i
    x ← decode x_rlp
    decode_each rounds (i + 1) (out ++ x ∷ [])

-- The items of a list of values, by the item of each.
module _ {ℓ} {A : Type ℓ} (f : A → Item) where
  abbrev pub items_of : List A → Items
  items_of [] = nil
  items_of (x ∷ xs) = cons (f x) (items_of xs)

  pub length-items_of : (xs : List A) → length_items (items_of xs) ≡ length xs
  length-items_of [] = refl
  length-items_of (x ∷ xs) = ap suc (length-items_of xs)

  pub get_item?-items_of :
      (xs ys : List A) (y : A) → get_item? (items_of (xs ++ y ∷ ys)) (length xs) ≡ some (f y)
  get_item?-items_of [] ys y = refl
  get_item?-items_of (x ∷ xs) ys y = get_item?-items_of xs ys y

  pub items_of-AreItems {κ} :
      {P : A → Type κ}
      → ((x : A) → P x → IsItem (f x))
      → (xs : List A) → All P xs
      → AreItems (items_of xs)
  items_of-AreItems h [] p = tt
  items_of-AreItems h (x ∷ xs) (p, ps) = (h x p, items_of-AreItems h xs ps)

-- What `append_each` adds to the trace.
pub append_each_lem {ℓ} :
    {A : Type ℓ} (f : A → RlpStream → RlpStream) (g : A → Item)
    → ((x : A) (s : RlpStream) → f x s ≡ s ++ calls (g x))
    → (xs : List A) (s : RlpStream) → append_each f xs s ≡ s ++ calls_all (items_of g xs)
unfolding append_each
append_each_lem f g h [] s = sym (append-nil s)
append_each_lem f g h (x ∷ xs) s = append_each_lem f g h xs (f x s) ∙ rw (h, append_assoc)

-- The loop reads back the items of a list whose items the decoder reads back.
module _ {ℓ κ} {A : Type ℓ} {P : A → Type κ} (r : RlpCrate) (laws : RlpLaws r) (f : A → Item)
    (decode : Bytes → Result DecoderError A)
    (reads : (x : A) → P x → decode (laws.encode (f x)) ≡ ok x) (xs : List A)
    (items : AreItems (items_of f xs)) where
  decode_each-suffix :
      (front back : List A)
      → All P back
      → front ++ back ≡ xs
      → decode_each r decode (laws.encode (list (items_of f xs))) (length back) (length front) front
        ≡ ok xs
  unfolding decode_each
  decode_each-suffix front [] h e = ap ok (sym (append-nil front) ∙ e)
  decode_each-suffix front (x ∷ back) (hx, h) e =
      let found : get_item? (items_of f xs) (length front) ≡ some (f x) =
        rw (← e) (get_item?-items_of f front back x) in
      rw
        (
          laws.item_at-list (items_of f xs) (length front) (f x) items found,
          reads x hx,
          ← length-snoc front x,
        )
        (decode_each-suffix (front ++ x ∷ []) back h (append_assoc front (x ∷ []) back ∙ e))

  pub decode_each-items_of :
      All P xs → decode_each r decode (laws.encode (list (items_of f xs))) (length xs) 0 [] ≡ ok xs
  decode_each-items_of h = decode_each-suffix [] xs h refl
