-- ===== src/Ethkey/Generator.antt =====
-- ethkey/src/lib.rs, ethkey/src/random.rs and ethkey/src/prefix.rs: generators of key pairs. The random
-- number generator is a parameter: `draw i` is the secret key that the i-th call of `SecretKey::new`
-- returns, and a generator's state is the number of draws made so far.
-- The iterations of a `Prefix`, a `usize`, are any natural number: every `usize` is covered.
pub mod Laws
pub mod Live
use Prim.Native.String.{String}
use mm2_parity_ethereum.Base.{
  Bytes, ℕ, zero, suc, ◌+◌, Bool, true, false, ◌&&◌, List, [], ◌∷◌, Result, ok, err, panic, map_err,
  ◌==◌,
}
use mm2_parity_ethereum.Crates.{Crates}
use mm2_parity_ethereum.Ethkey.Error.{Error, from_io}
use mm2_parity_ethereum.Ethkey.KeyPair.{KeyPair, from_keypair, address}

-- `Void`, which has no value.
pub data Void : Type 0 where

-- The trait `Generator`, by its type of errors: `generate` returns the draws made after it.
pub record Generator (E : Type 0) : Type 0 where
  pub generate : ℕ → Result E KeyPair × ℕ

-- `starts_with` of slices.
unfoldable pub starts_with : Bytes → Bytes → Bool
starts_with bytes [] = true
starts_with [] (p ∷ ps) = false
starts_with (b ∷ bs) (p ∷ ps) = b == p && starts_with bs ps

-- `Random.generate`'s `match`: the error of the thread's generator has no value.
unfoldable pub without_void {ℓ} : {E : Type ℓ} → Result Void KeyPair → Result E KeyPair
without_void (ok pair) = ok pair
without_void (err void) = elim void [ ]
without_void panic = panic

module _ (c : Crates) (draw : ℕ → Bytes) where
  -- `ThreadRng`
  unfoldable pub thread_rng : Generator Void
  unfolding from_keypair
  thread_rng = record {
    generate = λ n. (ok (from_keypair c (draw n) (c.public_key_from_secret (draw n))), n + 1);
  }

  -- `Random`, whose error is an I/O error, as the text that it displays.
  unfoldable pub random : Generator String
  unfolding thread_rng without_void
  random = record {
    generate = λ n. let (pair, n') = thread_rng.generate n in (without_void pair, n');
  }

  -- The loop of `Prefix::generate`, with the iterations left: `?` ends it at an error.
  unfoldable pub generate_loop : Bytes → ℕ → ℕ → Result Error KeyPair × ℕ
  unfolding random from_io starts_with address
  generate_loop prefix zero n = (err (Error.custom "Could not find keypair"), n)
  generate_loop prefix (suc iterations) n =
      let (drawn, n') = random.generate n in
      elim (map_err from_io drawn) [
        | ok keypair ↦ elim (starts_with (address c keypair) prefix) [
          | true ↦ (ok keypair, n')
          | false ↦ generate_loop prefix iterations n'
        ]
        | err e ↦ (err e, n')
        | panic ↦ (panic, n')
      ]

  -- `Prefix::new`
  unfoldable pub prefix_generator : Bytes → ℕ → Generator Error
  unfolding generate_loop
  prefix_generator prefix iterations = record { generate = generate_loop prefix iterations }
