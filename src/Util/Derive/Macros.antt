-- ===== src/Util/Derive/Macros.antt =====
-- util/rlp_derive/src: the structs that the macros generate code for, and those on which they panic.
use Prim.Native.String.{String}
use mm2_parity_ethereum.Base.{◌≡◌, refl, ◌↔◌, [], ◌∷◌, ok, >>=-eq-ok, length, some, none}
use mm2_parity_ethereum.Util.Derive.{
  InputData, struct, member, EncodableImpl, DecodableImpl, encodable_impl, decodable_impl,
  encodable_type, encodable_field, encodable_fields, impl_encodable, impl_encodable_wrapper,
  decodable_type, decodable_field, decodable_wrapper_parse_quotes, decodable_fields, impl_decodable,
  impl_decodable_wrapper,
}
use mm2_parity_ethereum.Util.Derive.Support.{
  CanEncode, CanDecode, IsStruct, IsWrapper, encodable_type-ok, ok-encodable_type,
  encodable_fields-ok, ok-encodable_fields, decodable_fields-ok, ok-decodable_fields,
  decodable_type-ok, ok-decodable_type,
}

module _ {ℓ} {E : Type ℓ} (name : String) where
  impl_encodable-ok :
      (input : InputData) (e : EncodableImpl)
      → impl_encodable {E = E} (record { ident = name; input = input }) ≡ ok e
      → IsStruct CanEncode input
  unfolding impl_encodable
  impl_encodable-ok (struct fields) e made =
      let (stmts, all_made, _) = >>=-eq-ok (encodable_fields {E = E} 0 fields) _ made in
      encodable_fields-ok {E = E} 0 fields stmts all_made
  impl_encodable-ok _ e made = cc

  ok-impl_encodable :
      (input : InputData)
      → IsStruct CanEncode input
      → (e : EncodableImpl) × (impl_encodable {E = E} (record { ident = name; input = input })
          ≡ ok e)
  unfolding impl_encodable
  ok-impl_encodable (struct fields) h =
      let (stmts, made) = ok-encodable_fields {E = E} 0 fields h in
      (encodable_impl name (some (length stmts)) stmts, rw made refl)
  ok-impl_encodable _ h = elim h [ ]

  impl_decodable-ok :
      (input : InputData) (d : DecodableImpl)
      → impl_decodable {E = E} (record { ident = name; input = input }) ≡ ok d
      → IsStruct CanDecode input
  unfolding impl_decodable
  impl_decodable-ok (struct fields) d made =
      let (fs, all_made, _) = >>=-eq-ok (decodable_fields {E = E} 0 fields) _ made in
      decodable_fields-ok {E = E} 0 fields fs all_made
  impl_decodable-ok _ d made = cc

  ok-impl_decodable :
      (input : InputData)
      → IsStruct CanDecode input
      → (d : DecodableImpl) × (impl_decodable {E = E} (record { ident = name; input = input })
          ≡ ok d)
  unfolding impl_decodable
  ok-impl_decodable (struct fields) h =
      let (fs, made) = ok-decodable_fields {E = E} 0 fields h in
      (decodable_impl name fs, rw made refl)
  ok-impl_decodable _ h = elim h [ ]

  impl_encodable_wrapper-ok :
      (input : InputData) (e : EncodableImpl)
      → impl_encodable_wrapper {E = E} (record { ident = name; input = input }) ≡ ok e
      → IsWrapper CanEncode input
  unfolding impl_encodable_wrapper encodable_field
  impl_encodable_wrapper-ok (struct (field ∷ [])) e made =
      let (stmt, first, _) =
        >>=-eq-ok (encodable_type {E = E} (member 0 field.ident) field.type) _ made in
      encodable_type-ok {E = E} (member 0 field.ident) field.type stmt first
  impl_encodable_wrapper-ok _ e made = cc

  ok-impl_encodable_wrapper :
      (input : InputData)
      → IsWrapper CanEncode input
      → (e : EncodableImpl) × (impl_encodable_wrapper {E = E}
            (record { ident = name; input = input })
          ≡ ok e)
  unfolding impl_encodable_wrapper encodable_field
  ok-impl_encodable_wrapper (struct (field ∷ [])) h =
      let (stmt, made) = ok-encodable_type {E = E} (member 0 field.ident) field.type h in
      (encodable_impl name none (stmt ∷ []), rw made refl)
  ok-impl_encodable_wrapper _ h = elim h [ ]

  impl_decodable_wrapper-ok :
      (input : InputData) (d : DecodableImpl)
      → impl_decodable_wrapper {E = E} (record { ident = name; input = input }) ≡ ok d
      → IsWrapper CanDecode input
  unfolding impl_decodable_wrapper decodable_field
  impl_decodable_wrapper-ok (struct (field ∷ [])) d made =
      let (f, first, _) =
        >>=-eq-ok
          (decodable_type {E = E} decodable_wrapper_parse_quotes 0 (member 0 field.ident)
            field.type)
          _ made in
      decodable_type-ok {E = E} decodable_wrapper_parse_quotes 0 (member 0 field.ident) field.type f
        first
  impl_decodable_wrapper-ok _ d made = cc

  ok-impl_decodable_wrapper :
      (input : InputData)
      → IsWrapper CanDecode input
      → (d : DecodableImpl) × (impl_decodable_wrapper {E = E}
            (record { ident = name; input = input })
          ≡ ok d)
  unfolding impl_decodable_wrapper decodable_field
  ok-impl_decodable_wrapper (struct (field ∷ [])) h =
      let (f, made) =
        ok-decodable_type {E = E} decodable_wrapper_parse_quotes 0 (member 0 field.ident) field.type
          h in
      (decodable_impl name (f ∷ []), rw made refl)
  ok-impl_decodable_wrapper _ h = elim h [ ]

  -- The macros for lists generate code for a struct, and the macros for wrappers for a struct of one
  -- field, exactly where every field's type has a name; for an encoder a `Vec` must name its elements'
  -- type too, which a decoder does not look at.
  pub impl_iff :
      (input : InputData)
      → (((e : EncodableImpl) × (impl_encodable {E = E} (record { ident = name; input = input })
              ≡ ok e))
          ↔ IsStruct CanEncode input)
        × (((d : DecodableImpl) × (impl_decodable {E = E} (record { ident = name; input = input })
                ≡ ok d))
            ↔ IsStruct CanDecode input)
        × (((e : EncodableImpl) × (impl_encodable_wrapper {E = E}
                  (record { ident = name; input = input })
                ≡ ok e))
            ↔ IsWrapper CanEncode input)
        × (((d : DecodableImpl) × (impl_decodable_wrapper {E = E}
                  (record { ident = name; input = input })
                ≡ ok d))
            ↔ IsWrapper CanDecode input)
  impl_iff input = (
    ((λ (e, made). impl_encodable-ok input e made), ok-impl_encodable input),
    ((λ (d, made). impl_decodable-ok input d made), ok-impl_decodable input),
    ((λ (e, made). impl_encodable_wrapper-ok input e made), ok-impl_encodable_wrapper input),
    ((λ (d, made). impl_decodable_wrapper-ok input d made), ok-impl_decodable_wrapper input),
  )
