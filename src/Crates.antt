-- ===== src/Crates.antt =====
-- The third-party crates that the program calls, as interfaces: records of operations, and records
-- of the documented behaviour that the theorems rely on.
pub mod Rlp
pub mod Types
pub mod Secp
pub mod Keccak
use Prim.Native.String.{String}
use mm2_parity_ethereum.Base.{Bytes, IsByte, IsArray, All, Option, some, ◌≡◌}
use mm2_parity_ethereum.Crates.Rlp.{RlpCrate, RlpLaws}
use mm2_parity_ethereum.Crates.Types.{TypesCrate, TypesLaws}
use mm2_parity_ethereum.Crates.Secp.{SecpCrate, SecpLaws}
use mm2_parity_ethereum.Crates.Keccak.{KeccakCrate, KeccakLaws}

pub record Crates : Type 0 where
  pub rlp : RlpCrate
  pub open rlp use *
  pub types : TypesCrate
  pub open types use *
  pub secp : SecpCrate
  pub open secp use *
  pub hashes : KeccakCrate
  pub open hashes use *
  -- `rustc_hex`: `from_hex` (`none` is its error) and `to_hex`.
  pub from_hex : String → Option Bytes
  pub to_hex : Bytes → String

pub record CratesLaws (c : Crates) : Type 0 where
  pub rlp_laws : RlpLaws c.rlp
  pub types_laws : TypesLaws c.types
  pub secp_laws : SecpLaws c.secp
  pub keccak_laws : KeccakLaws c.hashes
  pub open keccak_laws use *
  pub from_hex-to_hex : (b : Bytes) → All IsByte b → c.from_hex (c.to_hex b) ≡ some b
