-- ===== src/Sample.antt =====
-- Concrete functions that meet the laws of the crates' interfaces, for the tests. They are simpler
-- than the crates: no function here is a model of one.
pub mod Hex
pub mod RlpCodec
pub mod BigEndian
pub mod Keys
pub mod FieldCodec
pub mod Wire
pub mod Ranged
use Prim.Native.String.{String}
use Prim.Native.Char.{Char, code}
use mm2_parity_ethereum.Base.{
  Bytes, IsByte, IsArray, All, ℕ, zero, suc, ◌+◌, ◌≡◌, ◌≤◌, refl, ap, Option, none, some, [], ◌∷◌,
  ◌∙◌, replicate, arith, ◌==◌, if◌then◌else◌,
}
use mm2_parity_ethereum.Crates.{Crates, CratesLaws}
use mm2_parity_ethereum.Sample.Hex.{to_hex, from_hex_after, from_hex-to_hex}
use mm2_parity_ethereum.Sample.RlpCodec.{codec, codec_laws}
use mm2_parity_ethereum.Sample.BigEndian.{numbers, numbers_laws}
use mm2_parity_ethereum.Sample.Keys.{keys_with, keys_with_laws}

-- Every message hashes to zeros.
abbrev pub crates_with : ℕ → Crates
crates_with id = record {
  rlp = codec;
  types = numbers;
  secp = keys_with id;
  hashes = record { finalize = λ k out. replicate 32 0; keccak = λ b. replicate 32 0 };
  from_hex = λ text. from_hex_after text 0;
  to_hex = to_hex;
}

pub crates_with_laws : (id : ℕ) → id ≤ 3 → CratesLaws (crates_with id)
crates_with_laws id small = record {
  rlp_laws = codec_laws;
  types_laws = numbers_laws;
  secp_laws = keys_with_laws id small;
  keccak_laws = record { keccak-IsArray = λ b. omega arith; finalize-update = λ b out h. refl };
  from_hex-to_hex = λ b h. from_hex-to_hex b;
}

abbrev pub crates : Crates
crates = crates_with 0

pub crates_laws : CratesLaws crates
crates_laws = crates_with_laws 0 (omega arith)
