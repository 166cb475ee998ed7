-- ===== src/Tests/Ethkey.antt =====
-- ethkey/: runs, and the theorems at concrete inputs.
use mm2_parity_ethereum.Base.{
  length, err, ◌⊎◌, Bytes, ◌≤◌, ◌<◌, ◌≡◌, ◌↔◌, refl, true, [], ◌∷◌, ◌++◌, ok, replicate, arith,
  Option, ◌^◌,
}
use mm2_parity_ethereum.Crates.Types.{be_value}
use mm2_parity_ethereum.Sample.{crates, crates_laws}
use mm2_parity_ethereum.Sample.Keys.{key, keys_with_size}
use mm2_parity_ethereum.Ethkey.Secret as Secret
use mm2_parity_ethereum.Ethkey.Signature.{
  Signature, r, s, v, into_electrum, from_electrum, default_signature, order, is_valid, sign,
  recover,
}
use mm2_parity_ethereum.Ethkey.Signature.Laws.{IsSignature, is_valid_iff}
use mm2_parity_ethereum.Ethkey.Secret.Laws.{from_unsafe_slice_iff}
use mm2_parity_ethereum.Ethkey.Error.{Error, from_secp}
use mm2_parity_ethereum.Ethkey.KeyPair.{KeyPair, from_secret, address, verify_address}
use mm2_parity_ethereum.Ethkey.KeyPair.Laws.{sign-from_secret}

abbrev signature : Signature
signature = replicate 63 0 ++ 5 ∷ 1 ∷ []

abbrev high_v : Signature
high_v = replicate 64 3 ++ 230 ∷ []

signature-IsSignature : IsSignature signature
signature-IsSignature = omega arith

abbrev message : Bytes
message = replicate 32 8

electrum_v : into_electrum signature ≡ replicate 63 0 ++ 5 ∷ 28 ∷ []
unfolding into_electrum
electrum_v = refl

electrum_too_short : from_electrum (1 ∷ 2 ∷ []) ≡ default_signature
unfolding from_electrum
electrum_too_short = refl

secret_of_wrong_length : Secret.from_slice (1 ∷ 2 ∷ []) ≡ Option.none
unfolding Secret.from_slice
secret_of_wrong_length = refl

is_valid_iff_example : (is_valid crates signature ≡ true) ↔ (
    (v signature ≤ 1)
    × (be_value (r signature) < be_value order)
    × (2 ^ 56 ≤ be_value (r signature))
    × (be_value (s signature) < be_value order)
    × (2 ^ 56 ≤ be_value (s signature)))
is_valid_iff_example = is_valid_iff crates crates_laws signature signature-IsSignature (omega arith)

abbrev key_pair : KeyPair
key_pair = record { secret = key; public = key ++ key }

long_slice_refused : Secret.from_unsafe_slice crates (key ++ 0 ∷ []) ≡ err Error.invalid_secret
unfolding Secret.from_unsafe_slice from_secp
long_slice_refused = refl

from_unsafe_slice_iff_example :
    ((Secret.from_slice key ≡ Option.some key) ↔ ((length key ≡ 32) × (key ≡ key)))
    × ((Secret.from_unsafe_slice crates key ≡ ok key)
        ↔ ((Secret.from_slice key ≡ Option.some key) × (Secret.check_validity crates key ≡ ok tt)))
    × ((Secret.from_unsafe_slice crates key ≡ err Error.invalid_secret) ↔ (
        ((Secret.from_slice key ≡ Option.none) × (Error.invalid_secret ≡ Error.invalid_secret))
        ⊎ ((s : Secret.Secret) × (Secret.from_slice key ≡ Option.some s)
            × (Secret.check_validity crates s ≡ err Error.invalid_secret))))
from_unsafe_slice_iff_example =
    from_unsafe_slice_iff crates crates_laws (keys_with_size 0) key key Error.invalid_secret

key_pair_made : from_secret crates key ≡ ok key_pair
unfolding from_secret
key_pair_made = refl

sign-from_secret_example :
    (sig : Signature) × (sign crates key message ≡ ok sig)
    × IsSignature sig
    × (recover crates sig message ≡ ok (key ++ key))
    × ((verify_address crates (replicate 20 0) sig message ≡ ok true)
        ↔ (replicate 20 0 ≡ address crates key_pair))
sign-from_secret_example =
    sign-from_secret crates crates_laws key message key_pair (replicate 20 0) (omega arith)
      key_pair_made
