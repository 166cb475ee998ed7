-- ===== src/Ethkey/Generator/Laws.antt =====
-- ethkey/src/prefix.rs: which key pair the search for a prefix returns, and when it gives up.
use mm2_parity_ethereum.Base.{
  Bytes, ℕ, zero, suc, ◌+◌, ◌≡◌, ◌<◌, refl, ◌∙◌, true, false, ok, err, arith, inl, inr, ◌⊎◌, List,
  [], ◌∷◌, All, Result, Bool-cases,
}
use mm2_parity_ethereum.Crates.{Crates}
use mm2_parity_ethereum.Ethkey.Error.{Error}
use mm2_parity_ethereum.Ethkey.KeyPair.{KeyPair, from_keypair, address}
use mm2_parity_ethereum.Ethkey.Generator.{
  starts_with, generate_loop, random, thread_rng, without_void, prefix_generator,
}

-- `count` numbers from `n` on.
abbrev pub range : ℕ → ℕ → List ℕ
range n zero = []
range n (suc count) = n ∷ range (n + 1) count

module _ (c : Crates) (draw : ℕ → Bytes) (prefix : Bytes) where
  abbrev pub pair : ℕ → KeyPair
  pair n = from_keypair c (draw n) (c.public_key_from_secret (draw n))

  abbrev pub Matches : ℕ → Type 0
  Matches n = starts_with (address c (pair n)) prefix ≡ true

  abbrev pub Differs : ℕ → Type 0
  Differs n = starts_with (address c (pair n)) prefix ≡ false

  -- The search returns the pair of the first draw that matches, and draws no more.
  abbrev pub Finds : ℕ → ℕ → Result Error KeyPair × ℕ → Type 0
  Finds iterations n result =
      (i : ℕ) × (i < iterations)
      × All Differs (range n i)
      × Matches (n + i)
      × (result ≡ (ok (pair (n + i)), n + i + 1))

  -- It gives up after all iterations.
  abbrev pub GivesUp : ℕ → ℕ → Result Error KeyPair × ℕ → Type 0
  GivesUp iterations n result =
      All Differs (range n iterations)
      × (result ≡ (err (Error.custom "Could not find keypair"), n + iterations))

  pub generate_loop-hit :
      (iterations n : ℕ)
      → Matches n
      → generate_loop c draw prefix (suc iterations) n ≡ (ok (pair n), n + 1)
  unfolding generate_loop random thread_rng without_void
  generate_loop-hit iterations n hit = rw (generate_loop, hit) refl

  pub generate_loop-miss :
      (iterations n : ℕ)
      → Differs n
      → generate_loop c draw prefix (suc iterations) n
        ≡ generate_loop c draw prefix iterations (n + 1)
  unfolding generate_loop random thread_rng without_void
  generate_loop-miss iterations n miss = rw (generate_loop, miss) refl

  Finds-miss :
      (iterations n : ℕ)
      → Differs n
      → Finds iterations (n + 1) (generate_loop c draw prefix iterations (n + 1))
      → Finds (suc iterations) n (generate_loop c draw prefix (suc iterations) n)
  Finds-miss iterations n miss (i, hi, before, hit, e) =
      let same : n + 1 + i ≡ n + suc i = omega arith in
      (
        suc i,
        omega arith,
        (miss, before),
        rw (← same) hit,
        generate_loop-miss iterations n miss ∙ e ∙ rw same refl,
      )

  generate_loop_lem :
      (iterations n : ℕ)
      → Finds iterations n (generate_loop c draw prefix iterations n)
        ⊎ GivesUp iterations n (generate_loop c draw prefix iterations n)
  unfolding generate_loop
  generate_loop_lem zero n = let same : n ≡ n + 0 = omega arith in inr (tt, rw (← same) refl)
  generate_loop_lem (suc iterations) n =
      elim (Bool-cases (starts_with (address c (pair n)) prefix)) [
        | inl hit ↦
            let same : n ≡ n + 0 = omega arith in
            inl (
              0,
              omega arith,
              tt,
              rw (← same) hit,
              generate_loop-hit iterations n hit ∙ rw (← same) refl,
            )
        | inr miss ↦ elim (generate_loop_lem iterations (n + 1)) [
          | inl found ↦ inl (Finds-miss iterations n miss found)
          | inr (none_found, e) ↦ inr (
            (miss, none_found),
            let same : n + 1 + iterations ≡ n + suc iterations = omega arith in
                generate_loop-miss iterations n miss ∙ e ∙ rw same refl,
          )
        ]
      ]

  -- Whatever the draws, the search ends: with the pair of the first draw, among the iterations, whose
  -- address starts with the prefix, and then no further draw is made; or, where the address of none
  -- does, with the error after as many draws as iterations.
  pub generate_prefix_lem :
      (iterations n : ℕ)
      → Finds iterations n ((prefix_generator c draw prefix iterations).generate n)
        ⊎ GivesUp iterations n ((prefix_generator c draw prefix iterations).generate n)
  unfolding prefix_generator
  generate_prefix_lem iterations n = generate_loop_lem iterations n
