-- ===== src/Ethkey/Signature/Laws.antt =====
-- ethkey/src/signature.rs: the parts of a signature, the Electrum notation, and text.
use mm2_parity_ethereum.Base.{
  bytes_eq→eq, ltb, ltb→lt, if◌then◌else◌, get_or-IsByte, Bytes, IsByte, IsArray, ℕ, ◌+◌, ◌-◌, ◌%◌,
  ◌^◌, ◌≤◌, ◌<◌, ◌≡◌, refl, ap, ◌∙◌, ◌↔◌, true, false, [], ◌∷◌, ◌++◌, ok, err, arith, length,
  get_or, set, drop, replicate, take-append, drop-append, get_or-append, drop-drop, drop-last,
  length-set, get_or-set_self, set-set, set-get_or, length-take, length-drop, All-take, All-drop,
  take-append-drop, take-all, Bool-cases, inl, inr,
}
use mm2_parity_ethereum.Crates.{Crates, CratesLaws}
use mm2_parity_ethereum.Crates.Types.{be_value}
use mm2_parity_ethereum.Ethkey.Error.{Error, from_secp}
use mm2_parity_ethereum.Ethkey.Signature.{
  Signature, r, s, v, from_rsv, into_electrum, from_electrum, default_signature, half_order, order,
  is_low_s, is_valid, from_str, to_string, recover, signature_eq, hash,
}

abbrev pub IsSignature : Signature → Type 0
IsSignature sig = IsArray 65 sig

-- A signature is read back from its parts.
module _ (a b : Bytes) (p : ℕ) (ha : length a ≡ 32) (hb : length b ≡ 32) where
  pub r-from_rsv : r (from_rsv a b p) ≡ a
  unfolding r from_rsv
  r-from_rsv = take-append 32 a _ ha

  pub s-from_rsv : s (from_rsv a b p) ≡ b
  unfolding s from_rsv
  s-from_rsv = rw (drop-append 32 a (b ++ p ∷ []) ha) (take-append 32 b _ hb)

  pub v-from_rsv : v (from_rsv a b p) ≡ p
  unfolding v from_rsv
  v-from_rsv =
      get_or-append a (b ++ p ∷ []) 64 32 0 (omega arith)
      ∙ get_or-append b (p ∷ []) 32 0 0 (omega arith)

pub from_rsv-parts : (sig : Signature) → length sig ≡ 65 → from_rsv (r sig) (s sig) (v sig) ≡ sig
unfolding from_rsv r s v
from_rsv-parts sig h =
    let last : drop 32 (drop 32 sig) ≡ get_or sig 64 0 ∷ [] =
      drop-drop 32 32 64 sig refl ∙ drop-last 64 sig 0 h in
    rw (← last, take-append-drop 32 (drop 32 sig)) (take-append-drop 32 sig)

into_electrum_lem :
    (sig : Signature)
    → length sig ≡ 65
    → (length (into_electrum sig) ≡ 65) × (get_or (into_electrum sig) 64 0 ≡ (v sig + 27) % 256)
unfolding into_electrum v
into_electrum_lem sig h =
    (length-set sig 64 _ ∙ h, get_or-set_self sig 64 ((get_or sig 64 0 + 27) % 256) 0 (omega arith))

set-into_electrum : (sig : Signature) → set (into_electrum sig) 64 (v sig) ≡ sig
unfolding into_electrum v
set-into_electrum sig = set-set sig 64 _ (get_or sig 64 0) ∙ set-get_or sig 64 0

from_electrum_valid :
    (bytes : Bytes)
    → length bytes ≡ 65
    → 27 ≤ get_or bytes 64 0
    → from_electrum bytes ≡ set bytes 64 (get_or bytes 64 0 - 27)
unfolding from_electrum
from_electrum_valid bytes h k = ground arith

from_electrum_invalid :
    (bytes : Bytes) → get_or bytes 64 0 < 27 → from_electrum bytes ≡ default_signature
unfolding from_electrum
from_electrum_invalid bytes k = ground arith

-- The last byte of a signature.
v-IsByte : (sig : Signature) → IsSignature sig → v sig < 256
unfolding v
v-IsByte sig h = get_or-IsByte sig 64 h.1

-- For a signature of 65 bytes, `from_electrum` undoes `into_electrum` if 27 can be added to the last byte.
pub from_electrum-into_electrum :
    (sig : Signature) → length sig ≡ 65 → v sig + 27 < 256 → from_electrum (into_electrum sig) ≡ sig
from_electrum-into_electrum sig h k =
    let (len, last) = into_electrum_lem sig h in
    from_electrum_valid (into_electrum sig) len (omega (arith, last))
    ∙ ap (set (into_electrum sig) 64) (omega (arith, last))
    ∙ set-into_electrum sig

-- Where adding 27 to the last byte wraps, `from_electrum` of `into_electrum` is the empty signature.
pub from_electrum-into_electrum_wraps :
    (sig : Signature)
    → length sig ≡ 65
    → 229 ≤ v sig
    → v sig < 256
    → from_electrum (into_electrum sig) ≡ default_signature
from_electrum-into_electrum_wraps sig h lo hi =
    let (_, last) = into_electrum_lem sig h in
    from_electrum_invalid (into_electrum sig) (omega (arith, last))

-- `from_electrum` undoes `into_electrum` if 27 can be added to the last byte; otherwise the byte wraps,
-- and the result is the empty signature.
pub from_electrum-into_electrum_cases :
    (sig : Signature)
    → IsSignature sig
    → from_electrum (into_electrum sig) ≡ (if ltb (v sig + 27) 256 then sig else default_signature)
from_electrum-into_electrum_cases sig h = elim (Bool-cases (ltb (v sig + 27) 256)) [
  | inl fits ↦ rw fits (from_electrum-into_electrum sig h.0 (ltb→lt (v sig + 27) 256 fits))
  | inr wraps ↦ rw wraps (from_electrum-into_electrum_wraps sig h.0 (ground arith) (v-IsByte sig h))
]

module _ (sig : Signature) (h : IsSignature sig) where
  pub s-IsArray : IsArray 32 (s sig)
  unfolding s
  s-IsArray = (
    length-take 32 (drop 32 sig) (omega (arith, length-drop 32 sig)),
    All-take IsByte 32 (drop 32 sig) (All-drop IsByte 32 sig h.1),
  )

  pub r-IsArray : IsArray 32 (r sig)
  unfolding r
  r-IsArray = (length-take 32 sig (omega arith), All-take IsByte 32 sig h.1)

pub is_low_s_lem : (c : Crates) (sig : Signature) → is_low_s c sig ≡ c.h256_le (s sig) half_order
unfolding is_low_s
is_low_s_lem c sig = refl

module _ (c : Crates) (laws : CratesLaws c) (sig : Signature) (h : IsSignature sig) where
  -- The text that a signature is displayed as parses to the signature.
  pub from_str-to_string : from_str c (to_string c sig) ≡ ok sig
  unfolding from_str to_string
  from_str-to_string = rw (from_str, laws.from_hex-to_hex sig h.1, h.0, take-all 65 sig h.0)

  -- A signature is low exactly when its second half, as a number, is at most half the order.
  pub is_low_s_iff : (is_low_s c sig ≡ true) ↔ (be_value (s sig) ≤ be_value half_order)
  unfolding is_low_s
  is_low_s_iff =
      rw (laws.types_laws.h256_le_lem (s sig) half_order (s-IsArray sig h) (omega arith))
        (ground arith)

  -- `is_valid` accepts a signature exactly when its last byte is a parity and both halves, as numbers,
  -- are below the order and at least the number that `H256::from_low_u64_ne(1)` spells.
  pub is_valid_iff :
      IsArray 32 (c.h256_from_low_u64_ne 1)
      → (is_valid c sig ≡ true) ↔ (
          (v sig ≤ 1)
          × (be_value (r sig) < be_value order)
          × (be_value (c.h256_from_low_u64_ne 1) ≤ be_value (r sig))
          × (be_value (s sig) < be_value order)
          × (be_value (c.h256_from_low_u64_ne 1) ≤ be_value (s sig)))
  unfolding is_valid
  is_valid_iff one =
      rw
        (
          laws.types_laws.h256_lt_lem (r sig) order (r-IsArray sig h) (omega arith),
          laws.types_laws.h256_le_lem (c.h256_from_low_u64_ne 1) (r sig) one (r-IsArray sig h),
          laws.types_laws.h256_lt_lem (s sig) order (s-IsArray sig h) (omega arith),
          laws.types_laws.h256_le_lem (c.h256_from_low_u64_ne 1) (s sig) one (s-IsArray sig h),
        )
        (ground arith)

  -- Where `H256::from_low_u64_ne(1)` puts the byte 1 first among its last eight bytes, as on a little
  -- endian machine, every signature whose first half is below 2 ^ 56 is invalid.
  pub is_valid-little_endian :
      c.h256_from_low_u64_ne 1 ≡ replicate 24 0 ++ 1 ∷ replicate 7 0
      → be_value (r sig) < 2 ^ 56
      → is_valid c sig ≡ false
  is_valid-little_endian one small = elim (Bool-cases (is_valid c sig)) [
    | inl valid ↦
        let accepted = (is_valid_iff (rw one (omega arith))).0 valid in
        absurd (omega (arith, accepted.2, ap be_value one))
    | inr invalid ↦ invalid
  ]

-- A last byte that is no recovery id makes recovery fail.
pub recover_high :
    (c : Crates) (laws : CratesLaws c) (sig : Signature) (message : Bytes)
    → 4 ≤ v sig
    → recover c sig message ≡ err Error.invalid_signature
unfolding recover from_secp v
recover_high c laws sig message h =
    rw (laws.secp_laws.recovery_id_from_i32_high (get_or sig 64 0) h)

-- Signatures that `PartialEq` takes for equal have the same hash, as the users of `Hash` rely on.
hash-signature_eq {ℓ} :
    {S : Type ℓ} (hash_h520 : Bytes → S → S) (sig other : Signature) (state : S)
    → signature_eq sig other ≡ true
    → hash hash_h520 sig state ≡ hash hash_h520 other state
unfolding signature_eq
hash-signature_eq hash_h520 sig other state e =
    ap (λ (b : Bytes). hash hash_h520 b state) (bytes_eq→eq sig other e)
