-- ===== src/Ethkey/Signature/Recovery.antt =====
-- ethkey/src/signature.rs: what `sign` returns and what `recover` makes of it.
use mm2_parity_ethereum.Base.{
  Bytes, IsByte, IsArray, ℕ, ◌%◌, ◌^◌, ◌≤◌, ◌≡◌, ◌∙◌, [], ◌∷◌, ◌++◌, ok, arith, take, drop,
  take-append_le, drop-append_le, length, length-drop, ◌-◌, All-append, ◌<◌, take-append,
  get_or-append, length-append,
}
use mm2_parity_ethereum.Crates.{Crates, CratesLaws}
use mm2_parity_ethereum.Crates.Types.{be_value}
use mm2_parity_ethereum.Ethkey.Signature.Laws.{IsSignature}
use mm2_parity_ethereum.Ethkey.Signature.{Signature, r, s, v, half_order, sign, recover}

-- The 64 bytes that `serialize_uncompressed` has behind the tag.
abbrev pub public_bytes : Bytes → Bytes
public_bytes serialized = take 64 (drop 1 serialized)

module _ (c : Crates) (laws : CratesLaws c) (message secret : Bytes) (hm : IsArray 32 message)
    (valid : c.secret_key_from_slice secret ≡ ok secret) where
  abbrev pub compact : Bytes
  compact = (c.sign_recoverable message secret).1

  abbrev pub rec_id : ℕ
  rec_id = (c.sign_recoverable message secret).0

  compact-IsArray : IsArray 64 compact
  compact-IsArray = laws.secp_laws.sign_recoverable-IsArray message secret hm valid

  pub rec_id-le : rec_id ≤ 3
  rec_id-le = laws.secp_laws.sign_recoverable_id message secret hm valid

  small : rec_id % 2 ^ 8 ≡ rec_id
  small = omega (arith, rec_id-le)

  -- `sign` never fails on a valid key and a hash.
  pub sign_lem : sign c secret message ≡ ok (compact ++ rec_id ∷ [])
  unfolding sign
  sign_lem = rw (laws.secp_laws.message_from_slice_lem message hm, valid, small)

  pub v-sign : v (compact ++ rec_id ∷ []) ≡ rec_id
  unfolding v
  v-sign = get_or-append compact (rec_id ∷ []) 64 0 0 (omega (arith, compact-IsArray.0))

  take-sign : take 64 (compact ++ rec_id ∷ []) ≡ compact
  take-sign = take-append 64 compact _ compact-IsArray.0

  -- The key of the signer is recovered from a signature.
  pub recover-sign :
      recover c (compact ++ rec_id ∷ []) message
      ≡ ok (public_bytes (c.public_key_from_secret secret))
  unfolding recover
  recover-sign =
      let (sig, read, recovered) = laws.secp_laws.recover-sign message secret hm valid in
      rw (
        get_or-append compact (rec_id ∷ []) 64 0 0 (omega (arith, compact-IsArray.0)),
        laws.secp_laws.recovery_id_from_i32_lem rec_id rec_id-le,
        take-sign,
        read,
        laws.secp_laws.message_from_slice_lem message hm,
        recovered,
      )

  -- The parts of the signature.
  pub sign-IsSignature : IsSignature (compact ++ rec_id ∷ [])
  sign-IsSignature = (
    length-append compact (rec_id ∷ []) ∙ omega (arith, compact-IsArray.0),
    All-append IsByte compact (rec_id ∷ []) compact-IsArray.1 (omega (arith, rec_id-le), tt),
  )

  pub r-sign : 0 < be_value (r (compact ++ rec_id ∷ []))
  unfolding r
  r-sign =
      rw (take-append_le 32 compact (rec_id ∷ []) (omega (arith, compact-IsArray.0)))
        (laws.secp_laws.sign_recoverable_r message secret hm valid)

  pub s-sign : be_value (s (compact ++ rec_id ∷ [])) ≤ be_value half_order
  unfolding s
  s-sign =
      let halves : drop 32 (compact ++ rec_id ∷ []) ≡ drop 32 compact ++ rec_id ∷ [] =
        drop-append_le 32 compact (rec_id ∷ []) (omega (arith, compact-IsArray.0)) in
      let second : length (drop 32 compact) ≡ length compact - 32 = length-drop 32 compact in
      rw
        (
          halves,
          take-append_le 32 (drop 32 compact) (rec_id ∷ [])
              (omega (arith, second, compact-IsArray.0)),
        )
        (omega (arith, laws.secp_laws.sign_recoverable_s message secret hm valid))

  -- Signing a hash with a valid key succeeds; the signature has 65 bytes and recovers the key's public key.
  pub sign-recover :
      (sig : Signature) × (sign c secret message ≡ ok sig)
      × IsSignature sig
      × (recover c sig message ≡ ok (public_bytes (c.public_key_from_secret secret)))
  sign-recover = (compact ++ rec_id ∷ [], sign_lem, sign-IsSignature, recover-sign)
