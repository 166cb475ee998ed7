-- ===== src/Ethkey/KeyPair.antt =====
-- ethkey/src/keypair.rs: key pairs and addresses, and `verify_address` of ethkey/src/signature.rs.
pub mod Laws
use Prim.Native.String.{String, ◌++◌}
use mm2_parity_ethereum.Base.{Bytes, ℕ, Bool, Result, ok, ◌>>=◌, map_err, bytes_eq, take, drop}
use mm2_parity_ethereum.Crates.{Crates}
use mm2_parity_ethereum.Ethkey.Keccak.{keccak256}
use mm2_parity_ethereum.Ethkey.Error.{Error, from_secp}
use mm2_parity_ethereum.Ethkey.Secret.{Secret, from_unsafe_slice, to_hex}
use mm2_parity_ethereum.Ethkey.Signature.{Signature, recover}

pub record KeyPair : Type 0 where
  pub secret : Secret
  pub public : Bytes

-- The getters.
abbrev pub secret : KeyPair → Secret
secret pair = pair.secret

abbrev pub public : KeyPair → Bytes
public pair = pair.public

module _ (c : Crates) where
  unfoldable pub public_to_address : Bytes → Bytes
  unfolding keccak256
  public_to_address public = drop 12 (keccak256 c public)

  unfoldable pub from_secret : Secret → Result Error KeyPair
  from_secret secret = do
    sec ← map_err from_secp (c.secret_key_from_slice secret)
    let serialized = c.public_key_from_secret sec
    ok (record { secret = secret; public = take 64 (drop 1 serialized) })

  unfoldable pub from_secret_slice : Bytes → Result Error KeyPair
  unfolding from_secret from_unsafe_slice
  from_secret_slice slice = do secret ← from_unsafe_slice c slice; from_secret secret

  -- The public key is given in its 65 byte form.
  unfoldable pub from_keypair : Bytes → Bytes → KeyPair
  from_keypair sec serialized = record {
    secret = take 32 sec;
    public = take 64 (drop 1 serialized);
  }

  unfoldable pub address : KeyPair → Bytes
  unfolding public_to_address
  address pair = public_to_address pair.public

  unfoldable pub verify_address : Bytes → Signature → Bytes → Result Error Bool
  unfolding public_to_address recover
  verify_address account signature message = do
    public ← recover c signature message
    ok (bytes_eq account (public_to_address public))

  -- `Display`
  unfoldable pub display : KeyPair → String
  unfolding address to_hex
  display pair =
      "secret:  "
      ++ (to_hex c pair.secret
          ++ ("\npublic:  "
              ++ (c.to_hex pair.public ++ ("\naddress: " ++ c.to_hex (address pair)))))
