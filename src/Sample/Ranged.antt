-- ===== src/Sample/Ranged.antt =====
-- A codec that reads only values of their Rust types, made of any codec.
use mm2_parity_ethereum.Base.{
  Bytes, IsByte, IsArray, All, ℕ, ◌≡◌, refl, ◌^◌, Bool, true, ◌&&◌, [], ◌∷◌, Result, ok, err, panic,
  ltb, ◌==◌, if◌then◌else◌, length, arith, lt→ltb,
}
use mm2_parity_ethereum.Crates.Rlp.{DecoderError, RlpCrate, RlpLaws, RlpRanges}

abbrev are_bytes : Bytes → Bool
are_bytes [] = true
are_bytes (b ∷ bs) = ltb b 256 && are_bytes bs

are_bytes→All : (bs : Bytes) → are_bytes bs ≡ true → All IsByte bs
are_bytes→All [] h = tt
are_bytes→All (b ∷ bs) h = ground (arith, are_bytes→All bs)

All→are_bytes : (bs : Bytes) → All IsByte bs → are_bytes bs ≡ true
All→are_bytes [] h = refl
All→are_bytes (b ∷ bs) h = ground (arith, All→are_bytes bs)

abbrev is_array : ℕ → Bytes → Bool
is_array n bs = length bs == n && are_bytes bs

is_array→IsArray : (n : ℕ) (bs : Bytes) → is_array n bs ≡ true → IsArray n bs
is_array→IsArray n bs h = ground (arith, are_bytes→All bs)

IsArray→is_array : (n : ℕ) (bs : Bytes) → IsArray n bs → is_array n bs ≡ true
IsArray→is_array n bs h = ground (arith, All→are_bytes bs)

-- A result that passes the test, or an error.
module _ {A : Type 0} (test : A → Bool) where
  abbrev kept : Result DecoderError A → Result DecoderError A
  kept (ok a) = if test a then ok a else err (DecoderError.crate_error 1)
  kept (err e) = err e
  kept panic = panic

  kept-test : (result : Result DecoderError A) (a : A) → kept result ≡ ok a → test a ≡ true
  kept-test (ok a) b e = ground arith
  kept-test (err x) b e = cc
  kept-test panic b e = cc

  kept-ok :
      (result : Result DecoderError A) (a : A) → result ≡ ok a → test a ≡ true → kept result ≡ ok a
  kept-ok result a e h = rw (e, h)

abbrev pub ranged : RlpCrate → RlpCrate
ranged r = record r {
  decode_u64 = λ d. kept (λ n. ltb n (2 ^ 64)) (r.decode_u64 d);
  decode_u256 = λ d. kept (λ n. ltb n (2 ^ 256)) (r.decode_u256 d);
  decode_vec_u8 = λ d. kept are_bytes (r.decode_vec_u8 d);
  decode_address = λ d. kept (is_array 20) (r.decode_address d);
  decode_h256 = λ d. kept (is_array 32) (r.decode_h256 d);
}

pub ranged_ranges : (r : RlpCrate) → RlpRanges (ranged r)
ranged_ranges r = record {
  decode_u64 = λ d n e. ground (arith, kept-test (λ (m : ℕ). ltb m (2 ^ 64)) (r.decode_u64 d) n);
  decode_u256 = λ d n e. ground (arith, kept-test (λ (m : ℕ). ltb m (2 ^ 256)) (r.decode_u256 d) n);
  decode_vec_u8 = λ d b e. are_bytes→All b (kept-test are_bytes (r.decode_vec_u8 d) b e);
  decode_address =
      λ d a e. is_array→IsArray 20 a (kept-test (is_array 20) (r.decode_address d) a e);
  decode_h256 = λ d h e. is_array→IsArray 32 h (kept-test (is_array 32) (r.decode_h256 d) h e);
}

pub ranged_laws : (r : RlpCrate) → RlpLaws r → RlpLaws (ranged r)
ranged_laws r laws = record {
  encode = laws.encode;
  encode_all = laws.encode_all;
  encode_all-nil = laws.encode_all-nil;
  encode_all-cons = laws.encode_all-cons;
  out-calls_all = laws.out-calls_all;
  encode-u8 = laws.encode-u8;
  encode-list = laws.encode-list;
  is_list_above = laws.is_list_above;
  is_list_below = laws.is_list_below;
  item_count-list = laws.item_count-list;
  item_at-list = laws.item_at-list;
  is_empty-empty_str = laws.is_empty-empty_str;
  is_empty-address = laws.is_empty-address;
  decode_u64_lem =
      λ n h. kept-ok (λ m. ltb m (2 ^ 64)) _ n (laws.decode_u64_lem n h) (lt→ltb n (2 ^ 64) h);
  decode_u256_lem =
      λ n h. kept-ok (λ m. ltb m (2 ^ 256)) _ n (laws.decode_u256_lem n h) (lt→ltb n (2 ^ 256) h);
  decode_vec_u8_lem = λ b h. kept-ok are_bytes _ b (laws.decode_vec_u8_lem b h) (All→are_bytes b h);
  decode_address_lem =
      λ a h. kept-ok (is_array 20) _ a (laws.decode_address_lem a h) (IsArray→is_array 20 a h);
  decode_h256_lem =
      λ b h. kept-ok (is_array 32) _ b (laws.decode_h256_lem b h) (IsArray→is_array 32 b h);
}
