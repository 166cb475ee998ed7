-- ===== src/Ethkey/KeyPair/Laws.antt =====
-- ethkey/src/keypair.rs: the ways to make a key pair, and its address against signatures.
use mm2_parity_ethereum.Base.{
  Bytes, IsArray, ◌≡◌, refl, ap, ◌∙◌, true, ok, err, panic, Result, map_err, length, take-all,
  bytes_eq_refl, >>=-eq-ok, map_err-eq-ok, ◌↔◌, sym, bytes_eq→eq, ok-injective, ◌++◌, ◌∷◌, [],
}
use mm2_parity_ethereum.Crates.{Crates, CratesLaws}
use mm2_parity_ethereum.Crates.Secp.{SecpError}
use mm2_parity_ethereum.Ethkey.Error.{from_secp}
use mm2_parity_ethereum.Ethkey.Secret.{from_unsafe_slice, from_secret_key, from_array}
use mm2_parity_ethereum.Ethkey.Signature.{Signature, sign, recover}
use mm2_parity_ethereum.Ethkey.Signature.Laws.{IsSignature}
use mm2_parity_ethereum.Ethkey.Signature.Recovery.{
  public_bytes, sign_lem, recover-sign, compact, rec_id, sign-recover,
}
use mm2_parity_ethereum.Ethkey.KeyPair.{
  KeyPair, public_to_address, from_secret, from_secret_slice, from_keypair, address, verify_address,
}

module _ (c : Crates) (laws : CratesLaws c) where
  -- The key pair of a valid secret, and no other is made from it.
  pub from_secret_lem :
      (secret : Bytes) (pair : KeyPair)
      → from_secret c secret ≡ ok pair
      → (c.secret_key_from_slice secret ≡ ok secret)
        × (pair.secret ≡ secret)
        × (pair.public ≡ public_bytes (c.public_key_from_secret secret))
  unfolding from_secret
  from_secret_lem secret pair e =
      let (key, made, rest) = >>=-eq-ok (map_err from_secp (c.secret_key_from_slice secret)) _ e in
      let accepted : c.secret_key_from_slice secret ≡ ok key =
        map_err-eq-ok from_secp (c.secret_key_from_slice secret) made in
      let same : key ≡ secret = laws.secp_laws.secret_key_from_slice_lem secret key accepted in
      (accepted ∙ ap ok same, cc, cc)

  -- A slice of 32 bytes gives what the secret that holds it gives, errors included.
  pub from_secret_slice-eq :
      (slice : Bytes) → length slice ≡ 32 → from_secret_slice c slice ≡ from_secret c slice
  unfolding from_secret_slice from_secret from_unsafe_slice from_secret_key from_array
  from_secret_slice-eq slice h = go (c.secret_key_from_slice slice) refl
    where
      go :
          (k : Result SecpError Bytes)
          → c.secret_key_from_slice slice ≡ k
          → from_secret_slice c slice ≡ from_secret c slice
      go (ok key) e =
          let same : key ≡ slice = laws.secp_laws.secret_key_from_slice_lem slice key e in
          rw (e, same, take-all 32 slice h, e, same)
      go (err x) e = rw e
      go panic e = rw e

  -- The generators make the pair that `from_secret` makes of the drawn key.
  pub from_secret-from_keypair :
      (key : Bytes)
      → length key ≡ 32
      → c.secret_key_from_slice key ≡ ok key
      → from_secret c key ≡ ok (from_keypair c key (c.public_key_from_secret key))
  unfolding from_secret from_keypair
  from_secret-from_keypair key h e = rw (e, take-all 32 key h)

  -- The signature of a hash made with a pair's secret verifies against the pair's address.
  pub verify_address-sign :
      (secret message : Bytes) (pair : KeyPair) (sig : Signature)
      → IsArray 32 message
      → from_secret c secret ≡ ok pair
      → sign c secret message ≡ ok sig
      → verify_address c (address c pair) sig message ≡ ok true
  unfolding verify_address address
  verify_address-sign secret message pair sig hm e signed =
      let (valid, _, public) = from_secret_lem secret pair e in
      let same : sig
          ≡ compact c laws message secret hm valid ++ rec_id c laws message secret hm valid ∷ [] =
        cc (signed, sign_lem c laws message secret hm valid) in
      rw (same, recover-sign c laws message secret hm valid, public)
        (ap ok
          (bytes_eq_refl (public_to_address c (public_bytes (c.public_key_from_secret secret)))))

  -- A hash is signed with the secret of every pair that `from_secret` makes; the signature has 65 bytes,
  -- the pair's public key is recovered from it, and `verify_address` accepts it for the pair's address
  -- and for no other.
  pub sign-from_secret :
      (secret message : Bytes) (pair : KeyPair) (account : Bytes)
      → IsArray 32 message
      → from_secret c secret ≡ ok pair
      → (sig : Signature) × (sign c pair.secret message ≡ ok sig)
        × IsSignature sig
        × (recover c sig message ≡ ok pair.public)
        × ((verify_address c account sig message ≡ ok true) ↔ (account ≡ address c pair))
  unfolding verify_address address
  sign-from_secret secret message pair account hm e =
      let (valid, own, public) = from_secret_lem secret pair e in
      let (sig, signs, shape, recovers) = sign-recover c laws message secret hm valid in
      let key : recover c sig message ≡ ok pair.public = recovers ∙ ap ok (sym public) in
      (
        sig,
        ap (λ (k : Bytes). sign c k message) own ∙ signs,
        shape,
        key,
        rw key (
          λ h. bytes_eq→eq account (public_to_address c pair.public) (ok-injective h),
          λ h. rw h (ap ok (bytes_eq_refl (public_to_address c pair.public))),
        ),
      )
