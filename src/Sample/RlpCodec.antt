-- ===== src/Sample/RlpCodec.antt =====
-- A codec for nested lists: a list is the byte 0xc0, the number of its items, and each item behind
-- its length. Lengths and numbers are single elements, of any size.
use mathlib.Core.List.{append_assoc, append-nil}
use mm2_parity_ethereum.Base.{
  Bytes, ℕ, zero, suc, ◌≤◌, ◌<◌, ◌≡◌, refl, ap, sym, ◌∙◌, Bool, List, [], ◌∷◌, ◌++◌, some, Result,
  ok, err, panic, ◌≢◌, leb, ◌==◌, if◌then◌else◌, length, take, drop, take-append, drop-append,
  arith,
}
use mm2_parity_ethereum.Crates.Rlp.{
  DecoderError, RlpCrate, RlpLaws, RlpReturns, RlpZeros, SameEncodings,
}
use mm2_parity_ethereum.Crates.Rlp.Tree.{
  Value, Item, Items, Call, u8, u64, u256, vec_u8, address, h256, empty_str, leaf, list, nil, cons,
  calls, calls_all, length_items, get_item?,
}

abbrev encode_value : Value → Bytes
encode_value (u8 zero) = 0xa0 ∷ 0 ∷ []
encode_value (u8 (suc n)) = suc n ∷ []
encode_value (u64 n) = 0x88 ∷ n ∷ []
encode_value (u256 n) = 0xa0 ∷ n ∷ []
encode_value (vec_u8 b) = 0xb8 ∷ b
encode_value (address a) = 0x94 ∷ a
encode_value (h256 h) = 0xa1 ∷ h
encode_value empty_str = 0x80 ∷ []

abbrev frames : List Bytes → Bytes
frames [] = []
frames (x ∷ xs) = length x ∷ (x ++ frames xs)

abbrev frame : List Bytes → Bytes
frame xs = 0xc0 ∷ length xs ∷ frames xs

abbrev concat : List Bytes → Bytes
concat [] = []
concat (x ∷ xs) = x ++ concat xs

abbrev mutual
  encode : Item → Bytes
  encode (leaf v) = encode_value v
  encode (list xs) = frame (encodings xs)

  encodings : Items → List Bytes
  encodings nil = []
  encodings (cons x xs) = encode x ∷ encodings xs

-- A trace, read from its end: `begin_list` takes the items behind it.
abbrev outs : List Call → List Bytes
outs [] = []
outs (Call.append v ∷ cs) = encode_value v ∷ outs cs
outs (Call.begin_list n ∷ cs) = frame (take n (outs cs)) ∷ drop n (outs cs)

abbrev error : DecoderError
error = DecoderError.crate_error 0

abbrev frame_at : ℕ → Bytes → Result DecoderError Bytes
frame_at i [] = err error
frame_at zero (n ∷ bytes) = ok (take n bytes)
frame_at (suc i) (n ∷ bytes) = frame_at i (drop n bytes)

abbrev item_at : Bytes → ℕ → Result DecoderError Bytes
item_at (t ∷ n ∷ bytes) i = if t == 0xc0 then frame_at i bytes else err error
item_at _ i = err error

abbrev item_count : Bytes → Result DecoderError ℕ
item_count (t ∷ n ∷ bytes) = if t == 0xc0 then ok n else err error
item_count _ = err error

abbrev decode_number : Bytes → Result DecoderError ℕ
decode_number (t ∷ n ∷ []) = ok n
decode_number _ = err error

abbrev decode_bytes : Bytes → Result DecoderError Bytes
decode_bytes (t ∷ bytes) = ok bytes
decode_bytes _ = err error

abbrev is_list : Bytes → Bool
is_list (t ∷ bytes) = leb 192 t
is_list [] = leb 1 0

abbrev is_empty : Bytes → Bool
is_empty (t ∷ bytes) = t == 0x80
is_empty [] = leb 1 0

abbrev pub codec : RlpCrate
codec = record {
  out = λ cs. concat (outs cs);
  is_list = is_list;
  is_empty = is_empty;
  item_count = item_count;
  item_at = item_at;
  decode_u64 = decode_number;
  decode_u256 = decode_number;
  decode_vec_u8 = decode_bytes;
  decode_address = decode_bytes;
  decode_h256 = decode_bytes;
}

length-encodings : (xs : Items) → length (encodings xs) ≡ length_items xs
length-encodings nil = refl
length-encodings (cons x xs) = ap suc (length-encodings xs)

mutual
  outs-calls : (x : Item) (cs : List Call) → outs (calls x ++ cs) ≡ encode x ∷ outs cs
  outs-calls (leaf v) cs = refl
  outs-calls (list xs) cs = rw (
    outs-calls_all xs cs,
    take-append (length_items xs) (encodings xs) (outs cs) (length-encodings xs),
    drop-append (length_items xs) (encodings xs) (outs cs) (length-encodings xs),
  )

  outs-calls_all :
      (xs : Items) (cs : List Call) → outs (calls_all xs ++ cs) ≡ encodings xs ++ outs cs
  outs-calls_all nil cs = refl
  outs-calls_all (cons x xs) cs =
      rw (append_assoc, outs-calls x (calls_all xs ++ cs), outs-calls_all xs cs)

frame_at-encodings :
    (xs : Items) (i : ℕ) (x : Item)
    → get_item? xs i ≡ some x
    → frame_at i (frames (encodings xs)) ≡ ok (encode x)
frame_at-encodings nil i x e = cc
frame_at-encodings (cons y xs) zero x e =
    rw (take-append (length (encode y)) (encode y) (frames (encodings xs)) refl)
      (ap ok (ap encode (cc)))
frame_at-encodings (cons y xs) (suc i) x e =
    ap (frame_at i) (drop-append (length (encode y)) (encode y) (frames (encodings xs)) refl)
    ∙ frame_at-encodings xs i x e

encode-u8 : (b : ℕ) → suc zero ≤ b → b < 128 → encode (leaf (u8 b)) ≡ b ∷ []
encode-u8 zero lo hi = absurd (omega arith)
encode-u8 (suc b) lo hi = refl

is_list-above : (b : ℕ) (bs : Bytes) → 192 ≤ b → is_list (b ∷ bs) ≡ Bool.true
is_list-above b bs h = ground arith

is_list-below : (b : ℕ) (bs : Bytes) → b < 192 → is_list (b ∷ bs) ≡ Bool.false
is_list-below b bs h = ground arith

pub codec_laws : RlpLaws codec
codec_laws = record {
  encode = encode;
  encode_all = λ xs. concat (encodings xs);
  encode_all-nil = refl;
  encode_all-cons = λ x xs. refl;
  out-calls_all = λ xs h. out-calls_all xs;
  encode-u8 = encode-u8;
  encode-list = λ xs h. (0xc0, length (encodings xs) ∷ frames (encodings xs), refl, omega arith);
  is_list_above = is_list-above;
  is_list_below = is_list-below;
  item_count-list = λ xs h. ap ok (length-encodings xs);
  item_at-list = λ xs i x h e. frame_at-encodings xs i x e;
  is_empty-empty_str = refl;
  is_empty-address = λ a h. refl;
  decode_u64_lem = λ n h. refl;
  decode_u256_lem = λ n h. refl;
  decode_vec_u8_lem = λ b h. refl;
  decode_address_lem = λ a h. refl;
  decode_h256_lem = λ b h. refl;
}
  where
    out-calls_all : (xs : Items) → concat (outs (calls_all xs)) ≡ concat (encodings xs)
    out-calls_all xs = ap concat (
        ap outs (sym (append-nil (calls_all xs)))
        ∙ outs-calls_all xs []
        ∙ append-nil (encodings xs))

frame_at-returns : (i : ℕ) (d : Bytes) → frame_at i d ≢ panic
frame_at-returns i [] = λ e. cc
frame_at-returns zero (n ∷ bytes) = λ e. cc
frame_at-returns (suc i) (n ∷ bytes) = frame_at-returns i (drop n bytes)

item_at-returns : (d : Bytes) (i : ℕ) → item_at d i ≢ panic
item_at-returns [] i = λ e. cc
item_at-returns (t ∷ []) i = λ e. cc
item_at-returns (t ∷ n ∷ bytes) i = ground (arith, frame_at-returns i bytes)

item_count-returns : (d : Bytes) → item_count d ≢ panic
item_count-returns [] = λ e. cc
item_count-returns (t ∷ []) = λ e. cc
item_count-returns (t ∷ n ∷ bytes) = ground arith

decode_number-returns : (d : Bytes) → decode_number d ≢ panic
decode_number-returns [] = λ e. cc
decode_number-returns (t ∷ []) = λ e. cc
decode_number-returns (t ∷ n ∷ []) = λ e. cc
decode_number-returns (t ∷ n ∷ m ∷ bytes) = λ e. cc

decode_bytes-returns : (d : Bytes) → decode_bytes d ≢ panic
decode_bytes-returns [] = λ e. cc
decode_bytes-returns (t ∷ bytes) = λ e. cc

pub codec_returns : RlpReturns codec
codec_returns = record {
  item_count = item_count-returns;
  item_at = item_at-returns;
  decode_u64 = decode_number-returns;
  decode_u256 = decode_number-returns;
  decode_vec_u8 = decode_bytes-returns;
  decode_address = decode_bytes-returns;
  decode_h256 = decode_bytes-returns;
}

encodings-same : (xs ys : Items) → SameEncodings encode xs ys → encodings xs ≡ encodings ys
encodings-same nil nil same = refl
encodings-same (cons x xs) (cons y ys) (e, same) = cc (e, encodings-same xs ys same)
encodings-same nil (cons y ys) same = elim same [ ]
encodings-same (cons x xs) nil same = elim same [ ]

pub codec_zeros : RlpZeros codec codec_laws
unfolding codec_laws
codec_zeros = record {
  encode-same = λ xs ys same. ap frame (encodings-same xs ys same);
  encode-zero = refl;
}
