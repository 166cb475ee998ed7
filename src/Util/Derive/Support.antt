-- ===== src/Util/Derive/Support.antt =====
-- util/rlp_derive/src: the types of fields that the macros support.
use Prim.Native.String.{String}
use text.Mathlib.Text.{◌==◌}
use mm2_parity_ethereum.Base.{
  ℕ, suc, ◌≡◌, refl, ◌⊎◌, inl, inr, All, List, [], ◌∷◌, ok, false, Bool-cases, >>=-eq-ok, ◌>>=◌,
}
use mm2_parity_ethereum.Util.Derive.{
  FieldType, PathArguments, path, segment, angle_bracketed, type_argument, Field, InputData, struct,
  Member, member, EncodableStmt, DecodableField, inner_ident, encodable_type, encodable_field,
  encodable_fields, decodable_type, decodable_field, decodable_field_map, field_code, ParseQuotes,
  decodable_parse_quotes, decodable_fields,
}

-- `Vec<T>` where `T` has a name.
abbrev pub HasElement : PathArguments → Type 0
HasElement (angle_bracketed (type_argument (path (segment ident arguments rest)) more)) = Unit
HasElement _ = ⊥

-- A type with a name, a `Vec` with that of its elements.
abbrev pub CanEncode : FieldType → Type 0
CanEncode (path (segment ident arguments rest)) = ((ident == "Vec") ≡ false) ⊎ HasElement arguments
CanEncode _ = ⊥

-- The decoder does not look at the elements.
abbrev pub CanDecode : FieldType → Type 0
CanDecode (path (segment ident arguments rest)) = Unit
CanDecode _ = ⊥

abbrev pub IsStruct : (FieldType → Type 0) → InputData → Type 0
IsStruct P (struct fields) = All (λ (f : Field). P f.type) fields
IsStruct P _ = ⊥

abbrev pub IsWrapper : (FieldType → Type 0) → InputData → Type 0
IsWrapper P (struct (field ∷ [])) = P field.type
IsWrapper P _ = ⊥

module _ {ℓ} {E : Type ℓ} where
  inner_ident-ok :
      (arguments : PathArguments) (s : String)
      → inner_ident {E = E} arguments ≡ ok s
      → HasElement arguments
  unfolding inner_ident
  inner_ident-ok (angle_bracketed (type_argument (path (segment ident arguments rest)) more)) s e =
      tt
  inner_ident-ok _ s e = cc

  ok-inner_ident :
      (arguments : PathArguments)
      → HasElement arguments
      → (s : String) × (inner_ident {E = E} arguments ≡ ok s)
  unfolding inner_ident
  ok-inner_ident (angle_bracketed (type_argument (path (segment ident arguments rest)) more)) h =
      (ident, refl)
  ok-inner_ident _ h = elim h [ ]

  pub encodable_type-ok :
      (id : Member) (t : FieldType) (stmt : EncodableStmt)
      → encodable_type {E = E} id t ≡ ok stmt
      → CanEncode t
  unfolding encodable_type
  encodable_type-ok id (path (segment ident arguments rest)) stmt e =
      elim (Bool-cases (ident == "Vec")) [
        | inl vec ↦
            let named : (inner_ident {E = E} arguments >>= λ s. ok (EncodableStmt.append_list s id))
                ≡ ok stmt =
              rw vec at e in
            let (s, found, _) = >>=-eq-ok (inner_ident {E = E} arguments) _ named in
            inr (inner_ident-ok arguments s found)
        | inr other ↦ inl other
      ]
  encodable_type-ok id _ stmt e = cc

  pub ok-encodable_type :
      (id : Member) (t : FieldType)
      → CanEncode t
      → (stmt : EncodableStmt) × (encodable_type {E = E} id t ≡ ok stmt)
  unfolding encodable_type
  ok-encodable_type id (path (segment ident arguments rest)) (inl other) =
      (EncodableStmt.append id, rw other refl)
  ok-encodable_type id (path (segment ident arguments rest)) (inr element) =
      let (s, e) = ok-inner_ident arguments element in
      elim (Bool-cases (ident == "Vec")) [
        | inl vec ↦ (EncodableStmt.append_list s id, rw (vec, e) refl)
        | inr other ↦ (EncodableStmt.append id, rw other refl)
      ]
  ok-encodable_type id _ h = elim h [ ]

  pub encodable_fields-ok :
      (i : ℕ) (fields : List Field) (stmts : List EncodableStmt)
      → encodable_fields {E = E} i fields ≡ ok stmts
      → IsStruct CanEncode (struct fields)
  unfolding encodable_fields encodable_field
  encodable_fields-ok i [] stmts e = tt
  encodable_fields-ok i (field ∷ fields) stmts e =
      let (stmt, first, after) =
        >>=-eq-ok (encodable_type {E = E} (member i field.ident) field.type) _ e in
      let (more, others, _) = >>=-eq-ok (encodable_fields {E = E} (suc i) fields) _ after in
      (
        encodable_type-ok (member i field.ident) field.type stmt first,
        encodable_fields-ok (suc i) fields more others,
      )

  pub ok-encodable_fields :
      (i : ℕ) (fields : List Field)
      → IsStruct CanEncode (struct fields)
      → (stmts : List EncodableStmt) × (encodable_fields {E = E} i fields ≡ ok stmts)
  unfolding encodable_fields encodable_field
  ok-encodable_fields i [] h = ([], refl)
  ok-encodable_fields i (field ∷ fields) (h, hs) =
      let (stmt, first) = ok-encodable_type (member i field.ident) field.type h in
      let (more, others) = ok-encodable_fields (suc i) fields hs in
      (stmt ∷ more, rw (first, others) refl)

  pub decodable_type-ok :
      (quotes : ParseQuotes) (i : ℕ) (id : Member) (t : FieldType) (field : DecodableField)
      → decodable_type {E = E} quotes i id t ≡ ok field
      → CanDecode t
  unfolding decodable_type
  decodable_type-ok quotes i id (path (segment ident arguments rest)) field e = tt
  decodable_type-ok quotes i id _ field e = cc

  pub ok-decodable_type :
      (quotes : ParseQuotes) (i : ℕ) (id : Member) (t : FieldType)
      → CanDecode t
      → (field : DecodableField) × (decodable_type {E = E} quotes i id t ≡ ok field)
  unfolding decodable_type
  ok-decodable_type quotes i id (path (segment ident arguments rest)) h =
      elim (Bool-cases (ident == "Vec")) [
        | inl vec ↦ (field_code quotes quotes.list i id, rw vec refl)
        | inr other ↦ (field_code quotes quotes.single i id, rw other refl)
      ]
  ok-decodable_type quotes i id _ h = elim h [ ]

  pub decodable_fields-ok :
      (i : ℕ) (fields : List Field) (made : List DecodableField)
      → decodable_fields {E = E} i fields ≡ ok made
      → IsStruct CanDecode (struct fields)
  unfolding decodable_fields decodable_field decodable_field_map
  decodable_fields-ok i [] made e = tt
  decodable_fields-ok i (field ∷ fields) made e =
      let (f, first, after) =
        >>=-eq-ok
          (decodable_type {E = E} decodable_parse_quotes i (member i field.ident) field.type) _ e in
      let (more, others, _) = >>=-eq-ok (decodable_fields {E = E} (suc i) fields) _ after in
      (
        decodable_type-ok decodable_parse_quotes i (member i field.ident) field.type f first,
        decodable_fields-ok (suc i) fields more others,
      )

  pub ok-decodable_fields :
      (i : ℕ) (fields : List Field)
      → IsStruct CanDecode (struct fields)
      → (made : List DecodableField) × (decodable_fields {E = E} i fields ≡ ok made)
  unfolding decodable_fields decodable_field decodable_field_map
  ok-decodable_fields i [] h = ([], refl)
  ok-decodable_fields i (field ∷ fields) (h, hs) =
      let (f, first) =
        ok-decodable_type decodable_parse_quotes i (member i field.ident) field.type h in
      let (more, others) = ok-decodable_fields (suc i) fields hs in
      (f ∷ more, rw (first, others) refl)
