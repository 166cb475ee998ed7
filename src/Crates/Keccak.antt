-- ===== src/Crates/Keccak.antt =====
-- The interface of the `tiny_keccak` and `keccak_hash` crates.
--
-- A `tiny_keccak::Keccak` is modelled by the slices that it was updated with, in order. `finalize`
-- fills the buffer that it is given and returns it.
use mm2_parity_ethereum.Base.{Bytes, IsArray, ◌≡◌, List, [], ◌∷◌, ◌++◌, length}

abbrev pub Keccak : Type 0
Keccak = List Bytes

abbrev pub new_keccak256 : Keccak
new_keccak256 = []

abbrev pub update : Keccak → Bytes → Keccak
update keccak slice = keccak ++ slice ∷ []

pub record KeccakCrate : Type 0 where
  pub finalize : Keccak → Bytes → Bytes
  -- `keccak_hash::keccak`
  pub keccak : Bytes → Bytes

pub record KeccakLaws (k : KeccakCrate) : Type 0 where
  pub keccak-IsArray : (b : Bytes) → IsArray 32 (k.keccak b)
  -- Both crates compute Keccak-256: a buffer of 32 bytes is filled with the hash, whatever it held.
  pub finalize-update :
      (b buffer : Bytes)
      → length buffer ≡ 32
      → k.finalize (update new_keccak256 b) buffer ≡ k.keccak b
