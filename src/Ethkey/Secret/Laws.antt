-- ===== src/Ethkey/Secret/Laws.antt =====
-- ethkey/src/secret.rs: which slices are secrets, and which of them are valid.
use mm2_parity_ethereum.Base.{
  Bool-cases, Bytes, ◌≡◌, ◌≢◌, ◌↔◌, ◌⊎◌, inl, inr, refl, ap, ◌∙◌, sym, some, none, Result, ok, err,
  panic, ◌>>=◌, length, take-all, ◌==◌, arith,
}
use mm2_parity_ethereum.Crates.{Crates, CratesLaws}
use mm2_parity_ethereum.Crates.Secp.{SecpError, SecpKeySize}
use mm2_parity_ethereum.Ethkey.Error.{Error, from_secp}
use mm2_parity_ethereum.Ethkey.Secret.{
  Secret, from_array, from_slice, from_unsafe_slice, from_secret_key, check_validity,
  to_secp256k1_secret,
}

from_slice-sized : (key : Bytes) → length key ≡ 32 → from_slice key ≡ some key
unfolding from_slice
from_slice-sized key size = rw (size, take-all 32 key size) refl

from_slice-unsized : (key : Bytes) → length key ≢ 32 → from_slice key ≡ none
unfolding from_slice
from_slice-unsized key other_size = ground arith

size_cases : (key : Bytes) → (length key ≡ 32) ⊎ (length key ≢ 32)
size_cases key = elim (Bool-cases (length key == 32)) [
  | inl same ↦ inl (ground arith)
  | inr differs ↦ inr (ground arith)
]

from_slice-eq-some :
    (key : Bytes) (secret : Secret)
    → (from_slice key ≡ some secret) ↔ ((length key ≡ 32) × (secret ≡ key))
from_slice-eq-some key secret = elim (size_cases key) [
  | inl size ↦ let made = from_slice-sized key size in (λ e. (size, cc), λ (_, e). cc)
  | inr other_size ↦
      let made = from_slice-unsized key other_size in
      (λ e. cc, λ (size, _). elim (other_size size) [ ])
]

after-eq-ok :
    (v : Result Error (Unit {0})) (key secret : Bytes)
    → ((v >>= λ _. ok key) ≡ ok secret) ↔ ((v ≡ ok tt) × (key ≡ secret))
after-eq-ok (ok _) key secret = ground arith
after-eq-ok (err x) key secret = ground arith
after-eq-ok panic key secret = ground arith

after-eq-err :
    (v : Result Error (Unit {0})) (key : Bytes) (e : Error)
    → ((v >>= λ _. ok key) ≡ err e) ↔ (v ≡ err e)
after-eq-err (ok _) key e = ground arith
after-eq-err (err x) key e = ground arith
after-eq-err panic key e = ground arith

module _ (c : Crates) (laws : CratesLaws c) (sizes : SecpKeySize c.secp) where
  -- Of 32 bytes, the two functions return what the crate says.
  from_unsafe_slice-sized :
      (key : Bytes)
      → length key ≡ 32
      → from_unsafe_slice c key ≡ (check_validity c key >>= λ _. ok key)
  unfolding from_unsafe_slice check_validity to_secp256k1_secret from_secret_key from_array
  from_unsafe_slice-sized key size = go (c.secret_key_from_slice key) refl
    where
      go :
          (k : Result SecpError Bytes)
          → c.secret_key_from_slice key ≡ k
          → from_unsafe_slice c key ≡ (check_validity c key >>= λ _. ok key)
      go (ok k) e =
          let same : k ≡ key = laws.secp_laws.secret_key_from_slice_lem key k e in
          rw (e, same, take-all 32 key size) refl
      go (err x) e = rw e refl
      go panic e = rw e refl

  from_unsafe_slice-unsized :
      (key : Bytes) → length key ≢ 32 → from_unsafe_slice c key ≡ err Error.invalid_secret
  unfolding from_unsafe_slice from_secp
  from_unsafe_slice-unsized key other_size = rw (sizes.refused key other_size) refl

  from_unsafe_slice-eq-ok :
      (key : Bytes) (secret : Secret)
      → (from_unsafe_slice c key ≡ ok secret)
        ↔ ((from_slice key ≡ some secret) × (check_validity c secret ≡ ok tt))
  from_unsafe_slice-eq-ok key secret = elim (size_cases key) [
    | inl size ↦
        let made = from_slice-sized key size in
        let checked = from_unsafe_slice-sized key size in
        let (there, back) = after-eq-ok (check_validity c key) key secret in
        (
          λ e. let (valid, same) = there (sym checked ∙ e) in (cc, cc),
          λ (e, valid).
              let same : key ≡ secret = cc in
              checked ∙ back (ap (check_validity c) same ∙ valid, same),
        )
    | inr other_size ↦
        let made = from_slice-unsized key other_size in
        let refused = from_unsafe_slice-unsized key other_size in (λ e. cc, λ (e, valid). cc)
  ]

  from_unsafe_slice-eq-err :
      (key : Bytes) (e : Error)
      → (from_unsafe_slice c key ≡ err e) ↔ (
          ((from_slice key ≡ none) × (e ≡ Error.invalid_secret))
          ⊎ ((s : Secret) × (from_slice key ≡ some s) × (check_validity c s ≡ err e)))
  from_unsafe_slice-eq-err key e = elim (size_cases key) [
    | inl size ↦
        let made = from_slice-sized key size in
        let checked = from_unsafe_slice-sized key size in
        let (there, back) = after-eq-err (check_validity c key) key e in
        (
          λ h. inr (key, made, there (sym checked ∙ h)),
          λ h. elim h [
            | inl (empty, _) ↦ cc
            | inr (s, e', h') ↦
                let same : key ≡ s = cc in checked ∙ back (ap (check_validity c) same ∙ h')
          ],
        )
    | inr other_size ↦
        let made = from_slice-unsized key other_size in
        let refused = from_unsafe_slice-unsized key other_size in
        (λ h. inl (made, cc), λ h. elim h [ inl (_, same) ↦ cc | inr (s, e', _) ↦ cc ])
  ]

  -- For bytes of any number: `from_slice` makes a secret exactly of 32 of them, namely these bytes.
  -- Where the crate refuses a key of another size as invalid, `from_unsafe_slice` makes exactly the
  -- secrets that `from_slice` makes and `check_validity` accepts. Its error is `InvalidSecret` where
  -- `from_slice` makes none, and else the one that `check_validity` gives.
  pub from_unsafe_slice_iff :
      (key : Bytes) (secret : Secret) (e : Error)
      → ((from_slice key ≡ some secret) ↔ ((length key ≡ 32) × (secret ≡ key)))
        × ((from_unsafe_slice c key ≡ ok secret)
            ↔ ((from_slice key ≡ some secret) × (check_validity c secret ≡ ok tt)))
        × ((from_unsafe_slice c key ≡ err e) ↔ (
            ((from_slice key ≡ none) × (e ≡ Error.invalid_secret))
            ⊎ ((s : Secret) × (from_slice key ≡ some s) × (check_validity c s ≡ err e))))
  from_unsafe_slice_iff key secret e = (
    from_slice-eq-some key secret,
    from_unsafe_slice-eq-ok key secret,
    from_unsafe_slice-eq-err key e,
  )
