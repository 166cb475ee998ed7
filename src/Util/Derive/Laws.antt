-- ===== src/Util/Derive/Laws.antt =====
-- util/rlp_derive: the generated encoder and decoder of a struct together.
use Prim.Native.String.{String}
use mm2_parity_ethereum.Base.{
  ◌≡◌, refl, ap, none, some, List, [], ◌∷◌, ok, length, arith, >>=-eq-ok,
}
use mm2_parity_ethereum.Crates.Rlp.{RlpCrate, RlpLaws}
use mm2_parity_ethereum.Crates.Rlp.Tree.{list, get_item?, Call}
use mm2_parity_ethereum.Crates.Rlp.Stream.{new}
use mm2_parity_ethereum.Crates.Rlp.Fields.{out-calls}
use mm2_parity_ethereum.Util.Derive.{
  FieldType, Field, struct, Member, EncodableImpl, DecodableImpl, decodable_impl, member,
  encodable_type, encodable_field, encodable_fields, impl_encodable, impl_decodable,
  impl_encodable_wrapper, impl_decodable_wrapper,
}
use mm2_parity_ethereum.Util.Derive.Run.{
  FieldCodec, FieldCodecLaws, run_stmts, begin, run_encodable, run_fields,
}
use mm2_parity_ethereum.Util.Derive.Fields.{
  members_of, HasTypes, field_item, field_items, field_item-IsItem, field_items-AreItems,
  run_stmt_lem, run_stmts_lem, run_fields_lem, as_val_lem,
}

module _ {A : Type 0} (codec : FieldCodec A) (r : RlpCrate) (laws : RlpLaws r)
    (reads : FieldCodecLaws codec r laws) (type_of : Member → FieldType) (self : Member → A) where
  module _ {ℓ} {E : Type ℓ} where
    -- Where the macros generate an encoder for a struct, they generate a decoder, and it reads the
    -- members that were encoded from the encoder's bytes.
    pub decode-encode :
        (name : String) (fields : List Field) (encodable : EncodableImpl)
        → impl_encodable {E = E} (record { ident = name; input = struct fields }) ≡ ok encodable
        → HasTypes reads.HasType type_of self 0 fields
        → (decodable : DecodableImpl) × (impl_decodable {E = E}
              (record { ident = name; input = struct fields })
            ≡ ok decodable)
          × (run_fields codec type_of decodable.fields
                (r.out (run_encodable codec encodable self new))
              ≡ ok (members_of 0 fields self))
    unfolding impl_encodable impl_decodable run_encodable begin
    decode-encode name fields encodable e h =
        let (stmts, made, whole) = >>=-eq-ok (encodable_fields {E = E} 0 fields) _ e in
        let items = field_items-AreItems codec r laws reads type_of self 0 fields h in
        let (decoders, decoders_made, read) =
          run_fields_lem codec r laws reads type_of self {E = E} 0 fields stmts
            (field_items codec r laws reads type_of self 0 fields) made items h
            (λ j.
              ap (get_item? (field_items codec r laws reads type_of self 0 fields))
                (omega arith)) in
        let (appended, count) =
          run_stmts_lem codec r laws reads type_of self {E = E} 0 fields stmts
            (Call.begin_list (length stmts) ∷ []) made in
        let same_stmts : encodable.stmts ≡ stmts = cc in
        let same_begin : encodable.begin_list ≡ some (length stmts) = cc in
        (
          decodable_impl name decoders,
          rw decoders_made refl,
          rw
              (
                same_stmts,
                same_begin,
                appended,
                count,
                out-calls r laws (list (field_items codec r laws reads type_of self 0 fields))
                    items,
              )
              read,
        )

    -- Where the macros generate a wrapper's encoder for a struct of one field, they generate a wrapper's
    -- decoder, and it reads the member that was encoded from the encoder's bytes.
    pub decode_wrapper-encode_wrapper :
        (name : String) (field : Field) (encodable : EncodableImpl)
        → impl_encodable_wrapper {E = E} (record { ident = name; input = struct (field ∷ []) })
          ≡ ok encodable
        → HasTypes reads.HasType type_of self 0 (field ∷ [])
        → (decodable : DecodableImpl) × (impl_decodable_wrapper {E = E}
              (record { ident = name; input = struct (field ∷ []) })
            ≡ ok decodable)
          × (run_fields codec type_of decodable.fields
                (r.out (run_encodable codec encodable self new))
              ≡ ok (members_of 0 (field ∷ []) self))
    unfolding impl_encodable_wrapper impl_decodable_wrapper run_encodable begin run_stmts run_fields
        encodable_field
    decode_wrapper-encode_wrapper name field encodable e (same, h, _) =
        let id = member 0 field.ident in
        let (stmt, made, whole) = >>=-eq-ok (encodable_type {E = E} id field.type) _ e in
        let (decoder, decoder_made, read) =
          as_val_lem codec r laws reads type_of self {E = E} id field.type stmt made same h in
        let same_stmts : encodable.stmts ≡ stmt ∷ [] = cc in
        let same_begin : encodable.begin_list ≡ none = cc in
        (
          decodable_impl name (decoder ∷ []),
          rw decoder_made refl,
          rw
              (
                same_stmts,
                same_begin,
                run_stmt_lem codec r laws reads type_of self {E = E} id field.type stmt new made,
                out-calls r laws (field_item codec r laws reads type_of self id field.type)
                    (field_item-IsItem codec r laws reads type_of self id field.type h),
                read,
              )
              refl,
        )
