-- ===== src/Util/Derive.antt =====
-- util/rlp_derive/src: the code that the derive macros generate for a struct. `syn`'s trees are cut
-- down to what the macros look at, and a `quote!` template is a constructor with its holes as fields.
pub mod Run
pub mod Entry
pub mod Fields
pub mod Laws
pub mod Support
pub mod Macros
pub mod Both
use Prim.Native.String.{String, ◌++◌}
use text.Mathlib.Text.{◌==◌}
use mm2_parity_ethereum.Base.{
  ℕ, suc, Option, none, some, List, [], ◌∷◌, Result, ok, panic, ◌>>=◌, if◌then◌else◌, length, Bool,
  true, false,
}

mutual
  -- `syn::Type`
  pub data FieldType : Type 0 where
    path : PathSegments → FieldType
    other_type : FieldType

  -- The segments of a path: identifier and arguments of each.
  pub data PathSegments : Type 0 where
    end : PathSegments
    segment : String → PathArguments → PathSegments → PathSegments

  pub data PathArguments : Type 0 where
    bare parenthesized : PathArguments
    angle_bracketed : GenericArguments → PathArguments

  pub data GenericArguments : Type 0 where
    no_more : GenericArguments
    type_argument : FieldType → GenericArguments → GenericArguments
    other_argument : GenericArguments → GenericArguments

pub record Field : Type 0 where
  pub ident : Option String
  pub type : FieldType

pub data InputData : Type 0 where
  struct : List Field → InputData
  enum union : InputData

pub record DeriveInput : Type 0 where
  pub ident : String
  pub input : InputData

-- `self.#ident` or `self.#index`
pub data Member : Type 0 where
  named : String → Member
  index : ℕ → Member

pub data EncodableStmt : Type 0 where
  -- `stream.append(&self.#id);`
  append : Member → EncodableStmt
  -- `stream.append_list::<#inner_ident, _>(&self.#id);`
  append_list : String → Member → EncodableStmt

pub record EncodableImpl : Type 0 where
  pub name : String
  pub dummy_const : String
  -- `stream.begin_list(#stmts_len);` if the struct is a list.
  pub begin_list : Option ℕ
  pub stmts : List EncodableStmt

-- `rlp.val_at`, `rlp.list_at`, `rlp.as_val` and `rlp.as_list`.
pub data Reader : Type 0 where
  val_at list_at as_val as_list : Reader

-- `#id: #reader(#index)?,` and, without an index, `#id: #reader()?,`.
pub record DecodableField : Type 0 where
  pub id : Member
  pub reader : Reader
  pub at : Option ℕ

pub record DecodableImpl : Type 0 where
  pub name : String
  pub dummy_const : String
  pub fields : List DecodableField

unfoldable pub member : ℕ → Option String → Member
member i (some ident) = named ident
member i none = index i

-- en.rs

abbrev pub encodable_impl : String → Option ℕ → List EncodableStmt → EncodableImpl
encodable_impl name begin_list stmts = record {
  name = name;
  dummy_const = "_IMPL_RLP_ENCODABLE_FOR_" ++ name;
  begin_list = begin_list;
  stmts = stmts;
}

-- The identifier inside the brackets of `Vec<..>`.
unfoldable pub inner_ident {ℓ} : {E : Type ℓ} → PathArguments → Result E String
inner_ident (angle_bracketed (type_argument (path (segment ident arguments rest)) more)) = ok ident
inner_ident _ = panic

unfoldable pub encodable_type {ℓ} : {E : Type ℓ} → Member → FieldType → Result E EncodableStmt
unfolding inner_ident
encodable_type id (path (segment ident arguments rest)) =
    if ident == "Vec"
    then (do inner ← inner_ident arguments; ok (append_list inner id))
    else ok (append id)
encodable_type id (path end) = panic
encodable_type id other_type = panic

unfoldable pub encodable_field {ℓ} : {E : Type ℓ} → ℕ → Field → Result E EncodableStmt
unfolding member encodable_type
encodable_field i field = encodable_type (member i field.ident) field.type

-- `fields.iter().enumerate().map(encodable_field_map).collect()`, from the index `i` on.
unfoldable pub encodable_fields {ℓ} : {E : Type ℓ} → ℕ → List Field → Result E (List EncodableStmt)
unfolding encodable_field
encodable_fields i [] = ok []
encodable_fields i (field ∷ fields) = do
  stmt ← encodable_field i field
  stmts ← encodable_fields (suc i) fields
  ok (stmt ∷ stmts)

unfoldable pub impl_encodable {ℓ} : {E : Type ℓ} → DeriveInput → Result E EncodableImpl
unfolding encodable_fields
impl_encodable ast = elim ast.input [
  | struct fields ↦ do
    stmts ← encodable_fields 0 fields
    ok (encodable_impl ast.ident (some (length stmts)) stmts)
  | enum ↦ panic
  | union ↦ panic
]

unfoldable pub impl_encodable_wrapper {ℓ} : {E : Type ℓ} → DeriveInput → Result E EncodableImpl
unfolding encodable_field
impl_encodable_wrapper ast = elim ast.input [
  | struct (field ∷ []) ↦ do
    stmt ← encodable_field 0 field
    ok (encodable_impl ast.ident none (stmt ∷ []))
  | _ ↦ panic
]

-- de.rs

abbrev pub decodable_impl : String → List DecodableField → DecodableImpl
decodable_impl name fields = record {
  name = name;
  dummy_const = "_IMPL_RLP_DECODABLE_FOR_" ++ name;
  fields = fields;
}

pub record ParseQuotes : Type 0 where
  pub single : Reader
  pub list : Reader
  pub takes_index : Bool

abbrev pub decodable_parse_quotes : ParseQuotes
decodable_parse_quotes = record { single = val_at; list = list_at; takes_index = true }

abbrev pub decodable_wrapper_parse_quotes : ParseQuotes
decodable_wrapper_parse_quotes = record { single = as_val; list = as_list; takes_index = false }

-- The code of one field, by the quotes.
abbrev pub field_code : ParseQuotes → Reader → ℕ → Member → DecodableField
field_code quotes reader i id = record {
  id = id;
  reader = reader;
  at = if quotes.takes_index then some i else none;
}

unfoldable pub decodable_type {ℓ} :
    {E : Type ℓ} → ParseQuotes → ℕ → Member → FieldType → Result E DecodableField
decodable_type quotes i id (path (segment ident arguments rest)) =
    if ident == "Vec"
    then ok (field_code quotes quotes.list i id)
    else ok (field_code quotes quotes.single i id)
decodable_type quotes i id (path end) = panic
decodable_type quotes i id other_type = panic

unfoldable pub decodable_field {ℓ} :
    {E : Type ℓ} → ℕ → Field → ParseQuotes → Result E DecodableField
unfolding member decodable_type
decodable_field i field quotes = decodable_type quotes i (member i field.ident) field.type

-- `decodable_field_map`
unfoldable pub decodable_field_map {ℓ} : {E : Type ℓ} → ℕ → Field → Result E DecodableField
unfolding decodable_field
decodable_field_map i field = decodable_field i field decodable_parse_quotes

unfoldable pub decodable_fields {ℓ} : {E : Type ℓ} → ℕ → List Field → Result E (List DecodableField)
unfolding decodable_field_map
decodable_fields i [] = ok []
decodable_fields i (field ∷ fields) = do
  stmt ← decodable_field_map i field
  stmts ← decodable_fields (suc i) fields
  ok (stmt ∷ stmts)

unfoldable pub impl_decodable {ℓ} : {E : Type ℓ} → DeriveInput → Result E DecodableImpl
unfolding decodable_fields
impl_decodable ast = elim ast.input [
  | struct fields ↦ do stmts ← decodable_fields 0 fields; ok (decodable_impl ast.ident stmts)
  | enum ↦ panic
  | union ↦ panic
]

unfoldable pub impl_decodable_wrapper {ℓ} : {E : Type ℓ} → DeriveInput → Result E DecodableImpl
unfolding decodable_field
impl_decodable_wrapper ast = elim ast.input [
  | struct (field ∷ []) ↦ do
    stmt ← decodable_field 0 field decodable_wrapper_parse_quotes
    ok (decodable_impl ast.ident (stmt ∷ []))
  | _ ↦ panic
]
