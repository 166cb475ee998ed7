-- ===== src/Util/Derive/Both.antt =====
-- util/rlp_derive: the macros for lists and those for wrappers, by their pairs.
use Prim.Native.String.{String}
use mm2_parity_ethereum.Base.{◌≡◌, List, [], ◌∷◌, Result, ok}
use mm2_parity_ethereum.Crates.Rlp.{RlpCrate, RlpLaws}
use mm2_parity_ethereum.Crates.Rlp.Stream.{new}
use mm2_parity_ethereum.Util.Derive.{
  DeriveInput, FieldType, Field, struct, Member, EncodableImpl, DecodableImpl, impl_encodable,
  impl_decodable, impl_encodable_wrapper, impl_decodable_wrapper,
}
use mm2_parity_ethereum.Util.Derive.Run.{FieldCodec, FieldCodecLaws, run_encodable, run_fields}
use mm2_parity_ethereum.Util.Derive.Fields.{members_of, HasTypes}
use mm2_parity_ethereum.Util.Derive.Laws.{decode-encode, decode_wrapper-encode_wrapper}

-- The two pairs of macros.
pub data Macros : Type 0 where
  lists wrappers : Macros

abbrev pub encoder {ℓ} : {E : Type ℓ} → Macros → DeriveInput → Result E EncodableImpl
encoder lists = impl_encodable
encoder wrappers = impl_encodable_wrapper

abbrev pub decoder {ℓ} : {E : Type ℓ} → Macros → DeriveInput → Result E DecodableImpl
decoder lists = impl_decodable
decoder wrappers = impl_decodable_wrapper

module _ {A : Type 0} (codec : FieldCodec A) (r : RlpCrate) (laws : RlpLaws r)
    (reads : FieldCodecLaws codec r laws) (type_of : Member → FieldType) (self : Member → A) where
  -- With the macros for lists and with those for wrappers: where an encoder is generated for a struct of
  -- any fields, a decoder is generated too, and it reads the members that were encoded from the
  -- encoder's bytes.
  pub decode-encode_both {ℓ} :
      {E : Type ℓ} (macros : Macros) (name : String) (fields : List Field)
      (encodable : EncodableImpl)
      → encoder {E = E} macros (record { ident = name; input = struct fields }) ≡ ok encodable
      → HasTypes reads.HasType type_of self 0 fields
      → (decodable : DecodableImpl) × (decoder {E = E} macros
            (record { ident = name; input = struct fields })
          ≡ ok decodable)
        × (run_fields codec type_of decodable.fields
              (r.out (run_encodable codec encodable self new))
            ≡ ok (members_of 0 fields self))
  unfolding impl_encodable_wrapper
  decode-encode_both lists name fields encodable e h =
      decode-encode codec r laws reads type_of self name fields encodable e h
  decode-encode_both wrappers name (field ∷ []) encodable e h =
      decode_wrapper-encode_wrapper codec r laws reads type_of self name field encodable e h
  decode-encode_both wrappers name [] encodable e h = cc
  decode-encode_both wrappers name (a ∷ b ∷ more) encodable e h = cc
