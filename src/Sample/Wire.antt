-- ===== src/Sample/Wire.antt =====
-- The bytes of RLP: a string or a list behind a header with its length. Here only to run the program's
-- serialisation on the bytes of the repository's tests.
use mm2_parity_ethereum.Base.{
  Bytes, ℕ, zero, suc, ◌+◌, ◌-◌, ◌/◌, ◌%◌, Bool, not, ◌&&◌, List, [], ◌∷◌, ◌++◌, Result, ok, err,
  ◌>>=◌, ltb, ◌==◌, if◌then◌else◌, length, take, drop, get_or,
}
use mm2_parity_ethereum.Crates.{Crates}
use mm2_parity_ethereum.Crates.Types.{be_value}
use mm2_parity_ethereum.Crates.Rlp.{RlpCrate, DecoderError}
use mm2_parity_ethereum.Crates.Rlp.Tree.{
  Value, Call, u8, u64, u256, vec_u8, address, h256, empty_str,
}
use mm2_parity_ethereum.Sample.{crates}

-- The bytes of a number, the first one not zero, of at most `digits` bytes.
abbrev number_bytes : ℕ → ℕ → Bytes
number_bytes zero n = []
number_bytes (suc digits) n =
    let high = number_bytes digits (n / 256) in if n == 0 then [] else high ++ (n % 256) ∷ []

abbrev header : ℕ → ℕ → Bytes
header offset n =
    let len = number_bytes 8 n in
    if ltb n 56 then (offset + n) ∷ [] else (offset + 55 + length len) ∷ len

abbrev string_bytes : Bytes → Bytes
string_bytes b = if length b == 1 && ltb (get_or b 0 0) 0x80 then b else header 0x80 (length b) ++ b

abbrev value_bytes : Value → Bytes
value_bytes (u8 n) = string_bytes (number_bytes 1 n)
value_bytes (u64 n) = string_bytes (number_bytes 8 n)
value_bytes (u256 n) = string_bytes (number_bytes 32 n)
value_bytes (vec_u8 b) = string_bytes b
value_bytes (address a) = string_bytes a
value_bytes (h256 h) = string_bytes h
value_bytes empty_str = string_bytes []

abbrev concat : List Bytes → Bytes
concat [] = []
concat (x ∷ xs) = x ++ concat xs

abbrev list_bytes : Bytes → Bytes
list_bytes payload = header 0xc0 (length payload) ++ payload

-- A trace, read from its end: `begin_list` takes the items behind it.
abbrev outs : List Call → List Bytes
outs [] = []
outs (Call.append v ∷ cs) = value_bytes v ∷ outs cs
outs (Call.begin_list n ∷ cs) = list_bytes (concat (take n (outs cs))) ∷ drop n (outs cs)

abbrev error : DecoderError
error = DecoderError.crate_error 0

-- The lengths of the header and of what it is about.
abbrev lengths : Bytes → ℕ × ℕ
lengths [] = (0, 0)
lengths (t ∷ bytes) =
    if ltb t 0x80
    then (0, 1)
    else if ltb t 0xb8
    then (1, t - 0x80)
    else if ltb t 0xc0
    then (t - 0xb6, be_value (take (t - 0xb7) bytes))
    else if ltb t 0xf8
    then (1, t - 0xc0)
    else (t - 0xf6, be_value (take (t - 0xf7) bytes))

abbrev is_list : Bytes → Bool
is_list d = not (ltb (get_or d 0 0) 0xc0)

abbrev payload : Bytes → Bytes
payload d = let (h, n) = lengths d in take n (drop h d)

abbrev item_from : ℕ → Bytes → Result DecoderError Bytes
item_from i [] = err error
item_from zero (t ∷ bytes) = let (h, n) = lengths (t ∷ bytes) in ok (take (h + n) (t ∷ bytes))
item_from (suc i) (t ∷ bytes) =
    let (h, n) = lengths (t ∷ bytes) in item_from i (drop (h + n) (t ∷ bytes))

abbrev count : ℕ → Bytes → ℕ
count zero d = 0
count (suc rounds) [] = 0
count (suc rounds) (t ∷ bytes) =
    let (h, n) = lengths (t ∷ bytes) in suc (count rounds (drop (h + n) (t ∷ bytes)))

abbrev decode_string : Bytes → Result DecoderError Bytes
decode_string d = if is_list d then err error else ok (payload d)

abbrev decode_number : Bytes → Result DecoderError ℕ
decode_number d = do b ← decode_string d; ok (be_value b)

abbrev wire : RlpCrate
wire = record {
  out = λ cs. concat (outs cs);
  is_list = is_list;
  is_empty = λ d. length (payload d) == 0;
  item_count = λ d. if is_list d then ok (count (length d) (payload d)) else err error;
  item_at = λ d i. if is_list d then item_from i (payload d) else err error;
  decode_u64 = decode_number;
  decode_u256 = decode_number;
  decode_vec_u8 = decode_string;
  decode_address = decode_string;
  decode_h256 = decode_string;
}

abbrev pub wire_crates : Crates
wire_crates = record crates { rlp = wire }
