-- ===== src/Ethkey/Secret.antt =====
-- ethkey/src/secret.rs: a secret is the 32 bytes of a hash, valid or not.
pub mod Laws
use Prim.Native.String.{String, ◌++◌}
use mm2_parity_ethereum.Base.{
  unwrap, ◌/◌, ◌%◌, ltb, get_or, List, [], ◌∷◌, ℕ, Bytes, not, Option, none, some, Result, ok,
  ◌>>=◌, map_err, ◌==◌, if◌then◌else◌, length, take, replicate,
}
use mm2_parity_ethereum.Crates.{Crates}
use mm2_parity_ethereum.Ethkey.Error.{Error, from_secp}

-- `Secret { inner: Memzero<H256> }`, as its bytes.
abbrev pub Secret : Type 0
Secret = Bytes

unfoldable pub from_slice : Bytes → Option Secret
from_slice key = if not (length key == 32) then none else some (take 32 key)

unfoldable pub zero_secret : Secret
zero_secret = replicate 32 0

-- `From<[u8; 32]>` and `From<H256>`.
unfoldable pub from_array : Bytes → Secret
from_array k = k

unfoldable pub from_h256 : Bytes → Secret
unfolding from_array
from_h256 s = from_array s

-- `From<SecretKey>` copies the key's bytes.
unfoldable pub from_secret_key : Bytes → Secret
unfolding from_array
from_secret_key key = from_array (take 32 key)

-- `Deref`
abbrev pub deref : Secret → Bytes
deref secret = secret

-- `{:x}` of a `u8`: one or two digits.
unfoldable pub lower_hex : ℕ → String
lower_hex b =
    let digits : List String =
      "0" ∷ "1" ∷ "2" ∷ "3" ∷ "4" ∷ "5" ∷ "6" ∷ "7" ∷ "8" ∷ "9" ∷ "a" ∷ "b" ∷ "c" ∷ "d" ∷ "e" ∷ "f"
      ∷ [] in
    if ltb b 16 then get_or digits b "" else get_or digits (b / 16) "" ++ get_or digits (b % 16) ""

-- `Display` shows the first two and the last two bytes.
unfoldable pub display : Secret → String
unfolding lower_hex
display secret =
    "Secret: 0x"
    ++ (lower_hex (get_or secret 0 0)
        ++ (lower_hex (get_or secret 1 0)
            ++ (".." ++ (lower_hex (get_or secret 30 0) ++ lower_hex (get_or secret 31 0)))))

module _ (c : Crates) where
  unfoldable pub from_str : String → Result Error Secret
  unfolding from_h256
  from_str text = do h ← map_err Error.custom (c.h256_from_str text); ok (from_h256 h)

  -- `From<&'static str>`
  unfoldable pub from_literal {ℓ} : {E : Type ℓ} → String → Result E Secret
  unfolding from_str
  from_literal text = unwrap (from_str text)

  -- `ToHex`
  unfoldable pub to_hex : Secret → String
  to_hex secret = c.h256_lower_hex secret

  -- The key's 32 bytes are copied out of the validated key.
  unfoldable pub from_unsafe_slice : Bytes → Result Error Secret
  unfolding from_secret_key
  from_unsafe_slice key = do
    secret ← map_err from_secp (c.secret_key_from_slice key)
    ok (from_secret_key secret)

  unfoldable pub to_secp256k1_secret : Secret → Result Error Bytes
  to_secp256k1_secret secret = map_err from_secp (c.secret_key_from_slice secret)

  unfoldable pub check_validity : Secret → Result Error (Unit {0})
  unfolding to_secp256k1_secret
  check_validity secret = do _ ← to_secp256k1_secret secret; ok tt
