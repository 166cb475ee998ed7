-- ===== src/Crates/Secp.antt =====
-- The interface of the `secp256k1` crate.
use mm2_parity_ethereum.Crates.Types.{be_value}
use mm2_parity_ethereum.Base.{
  Bytes, IsArray, ℕ, length, ◌≢◌, ◌<◌, ◌≤◌, ◌≡◌, Result, ok, err, take, drop, ◌*◌, ◌+◌, ◌-◌, ◌++◌,
  ◌>>=◌,
}

pub data SecpError : Type 0 where
  invalid_message invalid_public_key invalid_secret_key : SecpError
  -- Every other constructor of the crate's error.
  other : SecpError

-- Keys, messages, recovery ids and signatures are the values that their constructors checked.
pub record SecpCrate : Type 0 where
  pub message_from_slice : Bytes → Result SecpError Bytes
  pub secret_key_from_slice : Bytes → Result SecpError Bytes
  -- `sign_recoverable(&msg, &sec).serialize_compact()`: the recovery id and the 64 bytes.
  pub sign_recoverable : Bytes → Bytes → ℕ × Bytes
  pub recovery_id_from_i32 : ℕ → Result SecpError ℕ
  -- `RecoverableSignature::from_compact`
  pub signature_from_compact : Bytes → ℕ → Result SecpError (Bytes × ℕ)
  -- `recover(&msg, &sig)`, then `serialize_uncompressed`: 65 bytes, the first of them a tag.
  pub recover_public_key : Bytes → Bytes × ℕ → Result SecpError Bytes
  -- `PublicKey::from_secret_key`, then `serialize_uncompressed`.
  pub public_key_from_secret : Bytes → Bytes

pub record SecpLaws (s : SecpCrate) : Type 0 where
  pub message_from_slice_lem : (m : Bytes) → IsArray 32 m → s.message_from_slice m ≡ ok m
  -- A key is accepted as it stands or refused.
  pub secret_key_from_slice_lem : (k key : Bytes) → s.secret_key_from_slice k ≡ ok key → key ≡ k
  pub sign_recoverable-IsArray :
      (m k : Bytes)
      → IsArray 32 m
      → s.secret_key_from_slice k ≡ ok k
      → IsArray 64 (s.sign_recoverable m k).1
  pub sign_recoverable_id :
      (m k : Bytes)
      → IsArray 32 m
      → s.secret_key_from_slice k ≡ ok k
      → (s.sign_recoverable m k).0 ≤ 3
  -- Neither half of a signature is the number zero.
  pub sign_recoverable_r :
      (m k : Bytes)
      → IsArray 32 m
      → s.secret_key_from_slice k ≡ ok k
      → 0 < be_value (take 32 (s.sign_recoverable m k).1)
  -- The second half is never above half of the curve's order.
  pub sign_recoverable_s :
      (m k : Bytes)
      → IsArray 32 m
      → s.secret_key_from_slice k ≡ ok k
      → be_value (take 32 (drop 32 (s.sign_recoverable m k).1)) * 2
        < 0xfffffffffffffffffffffffffffffffebaaedce6af48a03bbfd25e8cd0364141
  pub recovery_id_from_i32_lem : (i : ℕ) → i ≤ 3 → s.recovery_id_from_i32 i ≡ ok i
  pub recovery_id_from_i32_high : (i : ℕ) → 4 ≤ i → s.recovery_id_from_i32 i ≡ err other
  -- A signature that the crate made is read back, and its key is recovered from it.
  pub recover-sign :
      (m k : Bytes)
      → IsArray 32 m
      → s.secret_key_from_slice k ≡ ok k
      → (sig : Bytes × ℕ) × (s.signature_from_compact
            (s.sign_recoverable m k).1
            (s.sign_recoverable m k).0
          ≡ ok sig)
        × (s.recover_public_key m sig ≡ ok (s.public_key_from_secret k))

-- A secret key has 32 bytes: a slice of another length is refused.
pub record SecpKeySize (s : SecpCrate) : Type 0 where
  pub refused : (k : Bytes) → length k ≢ 32 → s.secret_key_from_slice k ≡ err invalid_secret_key

-- The curve's symmetry: with `s` replaced by its negative and the other parity, the same key is
-- recovered, or none.
pub record SecpSymmetry (s : SecpCrate) : Type 0 where
  pub negated :
      (m r b b' : Bytes) (id : ℕ)
      → IsArray 32 r
      → IsArray 32 b
      → IsArray 32 b'
      → 0 < be_value b
      → 0 < be_value b'
      → be_value b + be_value b'
        ≡ 0xfffffffffffffffffffffffffffffffebaaedce6af48a03bbfd25e8cd0364141
      → id ≤ 1
      → (s.signature_from_compact (r ++ b') (1 - id) >>= s.recover_public_key m)
        ≡ (s.signature_from_compact (r ++ b) id >>= s.recover_public_key m)
