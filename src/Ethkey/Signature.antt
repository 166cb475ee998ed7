-- ===== src/Ethkey/Signature.antt =====
-- ethkey/src/signature.rs: the 65 bytes of a signature, and signing and recovery over secp256k1.
pub mod Laws
pub mod Recovery
pub mod Checked
pub mod Negated
use Prim.Native.String.{String}
use mm2_parity_ethereum.Base.{
  Bytes, ℕ, ◌+◌, ◌-◌, ◌%◌, ◌^◌, Bool, not, ◌&&◌, ◌||◌, List, [], ◌∷◌, ◌++◌, Option, none, some,
  Result, ok, err, ◌>>=◌, map_err, ltb, leb, ◌==◌, if◌then◌else◌, bytes_eq, length, get_or, set,
  take, drop, replicate,
}
use mm2_parity_ethereum.Crates.{Crates}
use mm2_parity_ethereum.Ethkey.Error.{Error, from_secp}

-- `Signature([u8; 65])`, as its bytes.
abbrev pub Signature : Type 0
Signature = Bytes

unfoldable pub r : Signature → Bytes
r sig = take 32 sig

unfoldable pub s : Signature → Bytes
s sig = take 32 (drop 32 sig)

unfoldable pub v : Signature → ℕ
v sig = get_or sig 64 0

abbrev pub default_signature : Signature
default_signature = replicate 65 0

-- `u8` addition wraps.
unfoldable pub into_electrum : Signature → Bytes
into_electrum sig = set sig 64 ((get_or sig 64 0 + 27) % 2 ^ 8)

unfoldable pub from_electrum : Bytes → Signature
from_electrum bytes =
    if not (length bytes == 65) || ltb (get_or bytes 64 0) 27
    then default_signature
    else set bytes 64 (get_or bytes 64 0 - 27)

-- `r` and `s` are hashes, so they fill the first 64 bytes.
unfoldable pub from_rsv : Bytes → Bytes → ℕ → Signature
from_rsv r s v = r ++ (s ++ v ∷ [])

-- 7FFFFFFFFFFFFFFFFFFFFFFFFFFFFFFF5D576E7357A4501DDFE92F46681B20A0
abbrev pub half_order : Bytes
half_order =
    0x7f ∷ 0xff ∷ 0xff ∷ 0xff ∷ 0xff ∷ 0xff ∷ 0xff ∷ 0xff ∷ 0xff ∷ 0xff ∷ 0xff ∷ 0xff ∷ 0xff ∷ 0xff
    ∷ 0xff ∷ 0xff ∷ 0x5d ∷ 0x57 ∷ 0x6e ∷ 0x73 ∷ 0x57 ∷ 0xa4 ∷ 0x50 ∷ 0x1d ∷ 0xdf ∷ 0xe9 ∷ 0x2f
    ∷ 0x46 ∷ 0x68 ∷ 0x1b ∷ 0x20 ∷ 0xa0 ∷ []

-- fffffffffffffffffffffffffffffffebaaedce6af48a03bbfd25e8cd0364141
abbrev pub order : Bytes
order =
    0xff ∷ 0xff ∷ 0xff ∷ 0xff ∷ 0xff ∷ 0xff ∷ 0xff ∷ 0xff ∷ 0xff ∷ 0xff ∷ 0xff ∷ 0xff ∷ 0xff ∷ 0xff
    ∷ 0xff ∷ 0xfe ∷ 0xba ∷ 0xae ∷ 0xdc ∷ 0xe6 ∷ 0xaf ∷ 0x48 ∷ 0xa0 ∷ 0x3b ∷ 0xbf ∷ 0xd2 ∷ 0x5e
    ∷ 0x8c ∷ 0xd0 ∷ 0x36 ∷ 0x41 ∷ 0x41 ∷ []

-- `PartialEq`
unfoldable pub signature_eq : Signature → Signature → Bool
signature_eq sig other = bytes_eq sig other

-- `Clone`, and the conversions from and to `[u8; 65]` and `H520`, which is its bytes.
unfoldable pub clone_signature : Signature → Signature
clone_signature sig = sig

unfoldable pub from_array : Bytes → Signature
from_array bytes = bytes

unfoldable pub into_array : Signature → Bytes
into_array sig = sig

unfoldable pub from_h520 : Bytes → Signature
from_h520 bytes = bytes

unfoldable pub into_h520 : Signature → Bytes
into_h520 sig = sig

-- `Deref`, and `DerefMut`: what a write through the reference makes of the array.
abbrev pub deref : Signature → Bytes
deref sig = sig

abbrev pub deref_mut : (Bytes → Bytes) → Signature → Signature
deref_mut write sig = write (deref sig)

-- `Hash`, over the crate's hash of the same bytes into a hasher's state.
abbrev pub hash {ℓ} : {S : Type ℓ} → (Bytes → S → S) → Signature → S → S
hash hash_h520 sig state = hash_h520 (into_h520 sig) state

module _ (c : Crates) where
  unfoldable pub is_low_s : Signature → Bool
  unfolding s
  is_low_s sig = c.h256_le (s sig) half_order

  unfoldable pub is_valid : Signature → Bool
  unfolding r s v
  is_valid sig =
      let one = c.h256_from_low_u64_ne 1 in
      leb (v sig) 1
      && c.h256_lt (r sig) order
      && c.h256_le one (r sig)
      && c.h256_lt (s sig) order
      && c.h256_le one (s sig)

  unfoldable pub from_str : String → Result Error Signature
  from_str text = elim (c.from_hex text) [
    | some hex ↦ if length hex == 65 then ok (take 65 hex) else err Error.invalid_signature
    | none ↦ err Error.invalid_signature
  ]

  -- `Display`
  unfoldable pub to_string : Signature → String
  to_string sig = c.to_hex sig

  -- `Debug`: the fields of the debugged struct and the texts that they show.
  unfoldable pub debug_fields : Signature → List (String × String)
  debug_fields sig =
      ("r", c.to_hex (take 32 sig))
      ∷ ("s", c.to_hex (take 32 (drop 32 sig)))
      ∷ ("v", c.to_hex (take 1 (drop 64 sig)))
      ∷ []

  unfoldable pub sign : Bytes → Bytes → Result Error Signature
  sign secret message = do
    msg ← map_err from_secp (c.message_from_slice message)
    sec ← map_err from_secp (c.secret_key_from_slice secret)
    let (rec_id, compact) = c.sign_recoverable msg sec
    ok (compact ++ (rec_id % 2 ^ 8) ∷ [])

  unfoldable pub recover : Signature → Bytes → Result Error Bytes
  recover signature message = do
    recovery_id ← map_err from_secp (c.recovery_id_from_i32 (get_or signature 64 0))
    sig ← map_err from_secp (c.signature_from_compact (take 64 signature) recovery_id)
    msg ← map_err from_secp (c.message_from_slice message)
    serialized ← map_err from_secp (c.recover_public_key msg sig)
    ok (take 64 (drop 1 serialized))
