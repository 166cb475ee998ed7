-- ===== src/Ethkey/Keccak.antt =====
-- ethkey/src/keccak.rs: the trait `Keccak256`, for slices of bytes.
use mm2_parity_ethereum.Base.{Bytes, IsArray, ◌≡◌, subst, sym, refl, replicate}
use mm2_parity_ethereum.Crates.{Crates, CratesLaws}
use mm2_parity_ethereum.Crates.Keccak.{new_keccak256, update}

unfoldable pub keccak256 : Crates → Bytes → Bytes
keccak256 c self =
    let result = replicate 32 0 in
    let keccak = update new_keccak256 self in c.finalize keccak result

module _ (c : Crates) (laws : CratesLaws c) (b : Bytes) where
  -- It is the hash that transactions are hashed with.
  pub keccak256_lem : keccak256 c b ≡ c.keccak b
  unfolding keccak256
  keccak256_lem = laws.finalize-update b (replicate 32 0) refl

  pub keccak256-IsArray : IsArray 32 (keccak256 c b)
  keccak256-IsArray = subst (IsArray 32) (sym keccak256_lem) (laws.keccak-IsArray b)
