-- ===== src/Util/Derive/Run.antt =====
-- util/rlp_derive: what the generated code does when it runs. The field types' own code, and the
-- functions of the `rlp` crate that it is called by, are a parameter.
use mm2_parity_ethereum.Base.{
  Bytes, ℕ, ◌≡◌, ◌++◌, Option, none, some, List, [], ◌∷◌, Result, ok, panic, ◌>>=◌,
}
use mm2_parity_ethereum.Crates.Rlp.{RlpCrate, RlpLaws, DecoderError}
use mm2_parity_ethereum.Crates.Rlp.Tree.{Item, Items, list, calls, IsItem, AreItems, get_item?}
use mm2_parity_ethereum.Crates.Rlp.Stream as Stream
use mm2_parity_ethereum.Crates.Rlp.Stream.{RlpStream}
use mm2_parity_ethereum.Util.Derive.{
  FieldType, Member, EncodableStmt, EncodableImpl, append, append_list, DecodableField, Reader,
  val_at, list_at, as_val, as_list,
}

-- The values of all field types, and the functions of the `rlp` crate at each. The type of a field
-- decides which implementation a call is.
pub record FieldCodec (A : Type 0) : Type 0 where
  pub append : A → RlpStream → RlpStream
  pub append_list : A → RlpStream → RlpStream
  pub val_at : FieldType → Bytes → ℕ → Result DecoderError A
  pub list_at : FieldType → Bytes → ℕ → Result DecoderError A
  pub as_val : FieldType → Bytes → Result DecoderError A
  pub as_list : FieldType → Bytes → Result DecoderError A

-- `append` appends what the value's `Encodable` does, `append_list` a list of its elements, and each
-- reader undoes the function it belongs to.
pub record FieldCodecLaws {A : Type 0} (codec : FieldCodec A) (r : RlpCrate) (laws : RlpLaws r)
    : Type 1 where
  pub HasType : FieldType → A → Type 0
  pub item : A → Item
  pub list_item : A → Item
  pub item-IsItem : (t : FieldType) (a : A) → HasType t a → IsItem (item a)
  pub list_item-IsItem : (t : FieldType) (a : A) → HasType t a → IsItem (list_item a)
  pub append_lem : (a : A) (s : RlpStream) → codec.append a s ≡ s ++ calls (item a)
  pub append_list_lem : (a : A) (s : RlpStream) → codec.append_list a s ≡ s ++ calls (list_item a)
  pub val_at_lem :
      (t : FieldType) (a : A) (xs : Items) (i : ℕ)
      → HasType t a
      → AreItems xs
      → get_item? xs i ≡ some (item a)
      → codec.val_at t (laws.encode (list xs)) i ≡ ok a
  pub list_at_lem :
      (t : FieldType) (a : A) (xs : Items) (i : ℕ)
      → HasType t a
      → AreItems xs
      → get_item? xs i ≡ some (list_item a)
      → codec.list_at t (laws.encode (list xs)) i ≡ ok a
  pub as_val_lem :
      (t : FieldType) (a : A) → HasType t a → codec.as_val t (laws.encode (item a)) ≡ ok a
  pub as_list_lem :
      (t : FieldType) (a : A) → HasType t a → codec.as_list t (laws.encode (list_item a)) ≡ ok a

module _ {A : Type 0} (codec : FieldCodec A) where
  -- `self` is a function from its members to their values.
  unfoldable pub run_stmt : EncodableStmt → (Member → A) → RlpStream → RlpStream
  run_stmt (append id) self stream = codec.append (self id) stream
  run_stmt (append_list inner id) self stream = codec.append_list (self id) stream

  unfoldable pub run_stmts : List EncodableStmt → (Member → A) → RlpStream → RlpStream
  run_stmts [] self stream = stream
  run_stmts (stmt ∷ stmts) self stream = run_stmts stmts self (run_stmt stmt self stream)

  unfoldable pub begin : Option ℕ → RlpStream → RlpStream
  begin (some n) stream = Stream.begin_list n stream
  begin none stream = stream

  -- The generated `rlp_append`.
  unfoldable pub run_encodable : EncodableImpl → (Member → A) → RlpStream → RlpStream
  run_encodable e self stream = run_stmts e.stmts self (begin e.begin_list stream)

  -- The call that is quoted. The other ones do not compile, and no quotes give them.
  unfoldable pub run_reader : Reader → Option ℕ → FieldType → Bytes → Result DecoderError A
  run_reader val_at (some i) t rlp = codec.val_at t rlp i
  run_reader list_at (some i) t rlp = codec.list_at t rlp i
  run_reader as_val none t rlp = codec.as_val t rlp
  run_reader as_list none t rlp = codec.as_list t rlp
  run_reader _ _ t rlp = panic

  unfoldable pub run_field :
      (Member → FieldType) → DecodableField → Bytes → Result DecoderError (Member × A)
  unfolding run_reader
  run_field type_of field rlp = do
    a ← run_reader field.reader field.at (type_of field.id) rlp
    ok (field.id, a)

  -- The generated `decode`: the members of the struct that is made.
  unfoldable pub run_fields :
      (Member → FieldType) → List DecodableField → Bytes → Result DecoderError (List (Member × A))
  run_fields type_of [] rlp = ok []
  run_fields type_of (field ∷ fields) rlp = do
    x ← run_field type_of field rlp
    xs ← run_fields type_of fields rlp
    ok (x ∷ xs)
