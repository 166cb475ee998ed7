-- ===== src/Sample/Keys.antt =====
-- One key pair: the key 1 signs every message with itself, with the recovery id `id`.
use mm2_parity_ethereum.Base.{
  Bytes, ℕ, ◌≤◌, ◌≡◌, refl, [], ◌∷◌, ◌++◌, ok, err, leb, ◌==◌, if◌then◌else◌, bytes_eq, bytes_eq→eq,
  length, take, replicate, arith, Bool-cases, inl, inr, ap, ◌∙◌, sym, take-append,
}
use mm2_parity_ethereum.Crates.Secp.{
  invalid_message, invalid_secret_key, other, SecpCrate, SecpLaws, SecpKeySize, SecpSymmetry,
}

abbrev pub key : Bytes
key = replicate 31 0 ++ 1 ∷ []

abbrev public_key : Bytes → Bytes
public_key k = 4 ∷ (k ++ k)

abbrev pub keys_with : ℕ → SecpCrate
keys_with id = record {
  message_from_slice = λ m. if length m == 32 then ok m else err invalid_message;
  secret_key_from_slice = λ k. if bytes_eq k key then ok k else err invalid_secret_key;
  sign_recoverable = λ m k. (id, k ++ k);
  recovery_id_from_i32 = λ i. if leb i 3 then ok i else err other;
  signature_from_compact = λ b i. ok (b, i);
  recover_public_key = λ m sig. ok (public_key (take 32 sig.0));
  public_key_from_secret = public_key;
}

accepted : (id : ℕ) (k : Bytes) → (keys_with id).secret_key_from_slice k ≡ ok k → k ≡ key
accepted id k h = elim (Bool-cases (bytes_eq k key)) [
  | inl same ↦ bytes_eq→eq k key same
  | inr differs ↦ ground arith
]

pub keys_with_laws : (id : ℕ) → id ≤ 3 → SecpLaws (keys_with id)
keys_with_laws id small = record {
  message_from_slice_lem = λ m h. ground arith;
  secret_key_from_slice_lem = λ k k' h. ground arith;
  sign_recoverable-IsArray = λ m k h valid. rw (accepted id k valid) (omega arith);
  sign_recoverable_id = λ m k h valid. omega arith;
  sign_recoverable_r = λ m k h valid. rw (accepted id k valid) (omega arith);
  sign_recoverable_s = λ m k h valid. rw (accepted id k valid) (omega arith);
  recovery_id_from_i32_lem = λ i h. ground arith;
  recovery_id_from_i32_high = λ i h. ground arith;
  recover-sign = λ m k h valid. rw (accepted id k valid) ((key ++ key, id), refl, refl);
}

pub keys_with_size : (id : ℕ) → SecpKeySize (keys_with id)
keys_with_size id = record {
  refused = λ k other_size. elim (Bool-cases (bytes_eq k key)) [
    | inl same ↦
        let size : length k ≡ 32 = ap length (bytes_eq→eq k key same) in elim (other_size size) [ ]
    | inr differs ↦ rw differs refl
  ];
}

pub keys_with_symmetry : (id : ℕ) → SecpSymmetry (keys_with id)
keys_with_symmetry id = record {
  negated = λ m r b b' p hr hb hb' pos pos' sum hp.
      ap (λ (k : Bytes). ok (public_key k))
        (take-append 32 r b' hr.0 ∙ sym (take-append 32 r b hr.0));
}
