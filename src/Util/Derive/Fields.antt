-- ===== src/Util/Derive/Fields.antt =====
-- util/rlp_derive: what one field and the fields of a struct append, and reading them back.
use text.Mathlib.Text.{◌==◌}
use mathlib.Core.List.{append_assoc, append-nil}
use mm2_parity_ethereum.Base.{
  ℕ, suc, ◌+◌, ◌≡◌, refl, sym, ap, ◌∙◌, ◌++◌, some, List, [], ◌∷◌, ok, length, arith, Bool, false,
  if◌then◌else◌, >>=-eq-ok, Bool-cases, inl, inr,
}
use mm2_parity_ethereum.Crates.Rlp.{RlpCrate, RlpLaws}
use mm2_parity_ethereum.Crates.Rlp.Tree.{
  Item, Items, list, nil, cons, calls, calls_all, length_items, IsItem, AreItems, get_item?,
}
use mm2_parity_ethereum.Crates.Rlp.Stream.{RlpStream}
use mm2_parity_ethereum.Util.Derive.{
  FieldType, path, segment, end, other_type, Field, Member, EncodableStmt, DecodableField, val_at,
  list_at, as_val, as_list, member, encodable_type, encodable_field, encodable_fields,
  decodable_type, decodable_field, decodable_field_map, field_code, decodable_parse_quotes,
  decodable_wrapper_parse_quotes, decodable_fields,
}
use mm2_parity_ethereum.Util.Derive.Run.{
  FieldCodec, FieldCodecLaws, run_stmt, run_stmts, run_reader, run_field, run_fields,
}

abbrev is_vec : FieldType → Bool
is_vec (path (segment ident given rest)) = ident == "Vec"
is_vec _ = false

-- The value of each field, by its member.
abbrev pub members_of {ℓ} : {B : Type ℓ} → ℕ → List Field → (Member → B) → List (Member × B)
members_of i [] self = []
members_of i (field ∷ fields) self =
    (member i field.ident, self (member i field.ident)) ∷ members_of (suc i) fields self

-- The values and the declared types are those of the fields.
abbrev pub HasTypes :
    {B : Type 0}
    → (FieldType → B → Type 0)
    → (Member → FieldType)
    → (Member → B)
    → ℕ
    → List Field
    → Type 0
HasTypes P type_of self i [] = Unit
HasTypes P type_of self i (field ∷ fields) =
    (type_of (member i field.ident) ≡ field.type)
    × P field.type (self (member i field.ident))
    × HasTypes P type_of self (suc i) fields

module _ {A : Type 0} (codec : FieldCodec A) (r : RlpCrate) (laws : RlpLaws r)
    (reads : FieldCodecLaws codec r laws) (type_of : Member → FieldType) (self : Member → A) where
  abbrev pub field_item : Member → FieldType → Item
  field_item id t = if is_vec t then reads.list_item (self id) else reads.item (self id)

  abbrev pub field_items : ℕ → List Field → Items
  field_items i [] = nil
  field_items i (field ∷ fields) =
      cons (field_item (member i field.ident) field.type) (field_items (suc i) fields)

  pub field_item-IsItem :
      (id : Member) (t : FieldType) → reads.HasType t (self id) → IsItem (field_item id t)
  field_item-IsItem id t h = elim (Bool-cases (is_vec t)) [
    | inl vec ↦ rw vec (reads.list_item-IsItem t (self id) h)
    | inr other ↦ rw other (reads.item-IsItem t (self id) h)
  ]

  pub field_items-AreItems :
      (i : ℕ) (fields : List Field)
      → HasTypes reads.HasType type_of self i fields
      → AreItems (field_items i fields)
  field_items-AreItems i [] h = tt
  field_items-AreItems i (field ∷ fields) (_, h, hs) = (
    field_item-IsItem (member i field.ident) field.type h,
    field_items-AreItems (suc i) fields hs,
  )

  module _ {ℓ} {E : Type ℓ} where
    pub run_stmt_lem :
        (id : Member) (t : FieldType) (stmt : EncodableStmt) (s : RlpStream)
        → encodable_type {E = E} id t ≡ ok stmt
        → run_stmt codec stmt self s ≡ s ++ calls (field_item id t)
    unfolding run_stmt encodable_type
    run_stmt_lem id (path (segment ident given rest)) stmt s e =
        ground (arith, reads.append_lem (self id) s, reads.append_list_lem (self id) s)
    run_stmt_lem id (path end) stmt s e = cc
    run_stmt_lem id other_type stmt s e = cc

    pub run_stmts_lem :
        (i : ℕ) (fields : List Field) (stmts : List EncodableStmt) (s : RlpStream)
        → encodable_fields {E = E} i fields ≡ ok stmts
        → (run_stmts codec stmts self s ≡ s ++ calls_all (field_items i fields))
          × (length stmts ≡ length_items (field_items i fields))
    unfolding run_stmts encodable_fields encodable_field
    run_stmts_lem i [] [] s e = (sym (append-nil s), refl)
    run_stmts_lem i [] (stmt ∷ stmts) s e = cc
    run_stmts_lem i (field ∷ fields) stmts s e =
        let id = member i field.ident in
        let (stmt, made, after) = >>=-eq-ok (encodable_type {E = E} id field.type) _ e in
        let (more, made_more, whole) =
          >>=-eq-ok (encodable_fields {E = E} (suc i) fields) _ after in
        let same : stmt ∷ more ≡ stmts = cc in
        let (appended, count) =
          run_stmts_lem (suc i) fields more (run_stmt codec stmt self s) made_more in
        rw (← same, appended, run_stmt_lem id field.type stmt s made, count)
          (append_assoc s _ _, refl)

    -- A type that can be encoded can be decoded, and the decoder reads the field's item.
    decodable_type_lem :
        (i : ℕ) (id : Member) (t : FieldType) (stmt : EncodableStmt) (xs : Items)
        → encodable_type {E = E} id t ≡ ok stmt
        → AreItems xs
        → type_of id ≡ t
        → reads.HasType t (self id)
        → get_item? xs i ≡ some (field_item id t)
        → (field : DecodableField) × (decodable_type {E = E} decodable_parse_quotes i id t
            ≡ ok field)
          × (run_field codec type_of field (laws.encode (list xs)) ≡ ok (id, self id))
    unfolding decodable_type run_field run_reader encodable_type
    decodable_type_lem i id (path end) stmt xs e items same h found = cc
    decodable_type_lem i id other_type stmt xs e items same h found = cc
    decodable_type_lem i id (path (segment ident given rest)) stmt xs e items same h found =
        elim (Bool-cases (ident == "Vec")) [
          | inl vec ↦ (
            field_code decodable_parse_quotes list_at i id,
            rw vec refl,
            rw (same, reads.list_at_lem _ (self id) xs i h items (rw vec at found)),
          )
          | inr other ↦ (
            field_code decodable_parse_quotes val_at i id,
            rw other refl,
            rw (same, reads.val_at_lem _ (self id) xs i h items (rw other at found)),
          )
        ]

    pub run_fields_lem :
        (i : ℕ) (fields : List Field) (stmts : List EncodableStmt) (xs : Items)
        → encodable_fields {E = E} i fields ≡ ok stmts
        → AreItems xs
        → HasTypes reads.HasType type_of self i fields
        → ((j : ℕ) → get_item? xs (i + j) ≡ get_item? (field_items i fields) j)
        → (made : List DecodableField) × (decodable_fields {E = E} i fields ≡ ok made)
          × (run_fields codec type_of made (laws.encode (list xs)) ≡ ok (members_of i fields self))
    unfolding decodable_fields decodable_field decodable_field_map run_fields encodable_fields
        encodable_field
    run_fields_lem i [] stmts xs e items h found = ([], refl, refl)
    run_fields_lem i (field ∷ fields) stmts xs e items (same, h, hs) found =
        let id = member i field.ident in
        let (stmt, made, after) = >>=-eq-ok (encodable_type {E = E} id field.type) _ e in
        let (more, made_more, whole) =
          >>=-eq-ok (encodable_fields {E = E} (suc i) fields) _ after in
        let here : get_item? xs i ≡ some (field_item id field.type) =
          ap (get_item? xs) (omega arith) ∙ found 0 in
        let (first, first_made, first_read) =
          decodable_type_lem i id field.type stmt xs made items same h here in
        let (others, others_made, others_read) =
          run_fields_lem (suc i) fields more xs made_more items hs
            (λ j. ap (get_item? xs) (omega arith) ∙ found (suc j)) in
        (first ∷ others, rw (first_made, others_made), rw (first_read, others_read))

    pub as_val_lem :
        (id : Member) (t : FieldType) (stmt : EncodableStmt)
        → encodable_type {E = E} id t ≡ ok stmt
        → type_of id ≡ t
        → reads.HasType t (self id)
        → (field : DecodableField) × (decodable_type {E = E} decodable_wrapper_parse_quotes 0 id t
            ≡ ok field)
          × (run_field codec type_of field (laws.encode (field_item id t)) ≡ ok (id, self id))
    unfolding decodable_type run_field run_reader encodable_type
    as_val_lem id (path end) stmt e same h = cc
    as_val_lem id other_type stmt e same h = cc
    as_val_lem id (path (segment ident given rest)) stmt e same h =
        elim (Bool-cases (ident == "Vec")) [
          | inl vec ↦ (
            field_code decodable_wrapper_parse_quotes as_list 0 id,
            rw vec refl,
            rw (vec, same, reads.as_list_lem _ (self id) h) refl,
          )
          | inr other ↦ (
            field_code decodable_wrapper_parse_quotes as_val 0 id,
            rw other refl,
            rw (other, same, reads.as_val_lem _ (self id) h) refl,
          )
        ]
