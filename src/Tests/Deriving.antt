-- ===== src/Tests/Deriving.antt =====
-- The derive macros: runs, and the theorems at concrete inputs.
use text.Mathlib.Text.{◌==◌}
use mm2_parity_ethereum.Base.{
  ℕ, ◌≡◌, refl, none, some, List, [], ◌∷◌, ok, panic, arith, if◌then◌else◌, ◌↔◌,
}
use mm2_parity_ethereum.Crates.Rlp.{DecoderError}
use mm2_parity_ethereum.Crates.Rlp.Stream.{new}
use mm2_parity_ethereum.Sample.RlpCodec.{codec, codec_laws}
use mm2_parity_ethereum.Sample.FieldCodec.{field_codec, field_codec_laws}
use mm2_parity_ethereum.Util.Derive.{
  FieldType, path, segment, end, bare, angle_bracketed, type_argument, no_more, Field, struct, enum,
  Member, named, index, member, append, append_list, EncodableImpl, DecodableImpl, impl_encodable,
  impl_decodable, impl_encodable_wrapper, impl_decodable_wrapper,
}
use mm2_parity_ethereum.Util.Derive.Support.{CanEncode, CanDecode, IsStruct, IsWrapper}
use mm2_parity_ethereum.Util.Derive.Macros.{impl_iff}
use mm2_parity_ethereum.Util.Derive.Run.{run_encodable, run_fields}
use mm2_parity_ethereum.Util.Derive.Fields.{members_of}
use mm2_parity_ethereum.Util.Derive.Both.{lists, decode-encode_both}

abbrev u64_type : FieldType
u64_type = path (segment "u64" bare end)

abbrev vec_type : FieldType
vec_type = path (segment "Vec" (angle_bracketed (type_argument u64_type no_more)) end)

abbrev a_field : Field
a_field = record { ident = some "a"; type = u64_type }

abbrev fields : List Field
fields = a_field ∷ record { ident = some "b"; type = vec_type } ∷ []

abbrev type_of : Member → FieldType
type_of (named ident) = if ident == "b" then vec_type else u64_type
type_of (index i) = u64_type

abbrev self : Member → ℕ
self (named ident) = if ident == "b" then 8 else 5
self (index i) = 5

abbrev encodable : EncodableImpl
encodable = record {
  name = "Foo";
  dummy_const = "_IMPL_RLP_ENCODABLE_FOR_Foo";
  begin_list = some 2;
  stmts = append (named "a") ∷ append_list "u64" (named "b") ∷ [];
}

abbrev wrapper : EncodableImpl
wrapper = record {
  name = "FooWrapper";
  dummy_const = "_IMPL_RLP_ENCODABLE_FOR_FooWrapper";
  begin_list = none;
  stmts = append (named "a") ∷ [];
}

impl_encodable-fields :
    impl_encodable {E = DecoderError} (record { ident = "Foo"; input = struct fields })
    ≡ ok encodable
unfolding impl_encodable
impl_encodable-fields = refl

impl_encodable_wrapper-field :
    impl_encodable_wrapper {E = DecoderError}
      (record { ident = "FooWrapper"; input = struct (a_field ∷ []) })
    ≡ ok wrapper
unfolding impl_encodable_wrapper
impl_encodable_wrapper-field = refl

impl_encodable-enum :
    impl_encodable {E = DecoderError} (record { ident = "Foo"; input = enum }) ≡ panic
unfolding impl_encodable
impl_encodable-enum = refl

decode-encode_both_example :
    (decodable : DecodableImpl) × (impl_decodable {E = DecoderError}
        (record { ident = "Foo"; input = struct fields })
      ≡ ok decodable)
    × (run_fields
          (field_codec codec)
          type_of
          decodable.fields
          (codec.out (run_encodable (field_codec codec) encodable self new))
        ≡ ok (members_of 0 fields self))
unfolding member
decode-encode_both_example =
    decode-encode_both (field_codec codec) codec codec_laws (field_codec_laws codec codec_laws)
      type_of self lists "Foo" fields encodable impl_encodable-fields
      (refl, omega arith, (refl, omega arith, tt))

-- A `Vec` that does not name its elements' type.
abbrev bare_vec : List Field
bare_vec = record { ident = none; type = path (segment "Vec" bare end) } ∷ []

impl_iff_example :
    (((e : EncodableImpl) × (impl_encodable {E = DecoderError}
            (record { ident = "Foo"; input = struct bare_vec })
          ≡ ok e))
      ↔ IsStruct CanEncode (struct bare_vec))
    × (((d : DecodableImpl) × (impl_decodable {E = DecoderError}
              (record { ident = "Foo"; input = struct bare_vec })
            ≡ ok d))
        ↔ IsStruct CanDecode (struct bare_vec))
    × (((e : EncodableImpl) × (impl_encodable_wrapper {E = DecoderError}
              (record { ident = "Foo"; input = struct bare_vec })
            ≡ ok e))
        ↔ IsWrapper CanEncode (struct bare_vec))
    × (((d : DecodableImpl) × (impl_decodable_wrapper {E = DecoderError}
              (record { ident = "Foo"; input = struct bare_vec })
            ≡ ok d))
        ↔ IsWrapper CanDecode (struct bare_vec))
impl_iff_example = impl_iff {E = DecoderError} "Foo" (struct bare_vec)
