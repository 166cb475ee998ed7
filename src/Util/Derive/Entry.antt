-- ===== src/Util/Derive/Entry.antt =====
-- util/rlp_derive/src/lib.rs: the four derive macros. `parse` is the crate `syn`'s, with its error.
use mm2_parity_ethereum.Base.{Result, ◌>>=◌, unwrap}
use mm2_parity_ethereum.Util.Derive.{
  DeriveInput, EncodableImpl, DecodableImpl, impl_encodable, impl_decodable, impl_encodable_wrapper,
  impl_decodable_wrapper,
}

module _ {ℓ κ μ} {TokenStream : Type ℓ} {ParseError : Type κ} {E : Type μ}
    (parse : TokenStream → Result ParseError DeriveInput) where
  unfoldable pub encodable : TokenStream → Result E EncodableImpl
  unfolding impl_encodable
  encodable input = do ast ← unwrap (parse input); impl_encodable ast

  unfoldable pub encodable_wrapper : TokenStream → Result E EncodableImpl
  unfolding impl_encodable_wrapper
  encodable_wrapper input = do ast ← unwrap (parse input); impl_encodable_wrapper ast

  unfoldable pub decodable : TokenStream → Result E DecodableImpl
  unfolding impl_decodable
  decodable input = do ast ← unwrap (parse input); impl_decodable ast

  unfoldable pub decodable_wrapper : TokenStream → Result E DecodableImpl
  unfolding impl_decodable_wrapper
  decodable_wrapper input = do ast ← unwrap (parse input); impl_decodable_wrapper ast
