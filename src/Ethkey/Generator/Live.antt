-- ===== src/Ethkey/Generator/Live.antt =====
-- ethkey/src/prefix.rs: that the search for a prefix succeeds, if it is given enough iterations.
use mm2_parity_ethereum.Base.{
  Bytes, ℕ, zero, suc, ◌+◌, ◌≡◌, ◌≤◌, ◌<◌, refl, ◌∙◌, subst, true, ok, arith, inl, inr, Bool-cases,
  length, take-all, ap,
}
use mm2_parity_ethereum.Crates.{Crates, CratesLaws}
use mm2_parity_ethereum.Ethkey.KeyPair.{KeyPair, address, from_secret, from_keypair}
use mm2_parity_ethereum.Ethkey.KeyPair.Laws.{from_secret-from_keypair}
use mm2_parity_ethereum.Ethkey.Generator.{starts_with, generate_loop, prefix_generator}
use mm2_parity_ethereum.Ethkey.Generator.Laws.{
  pair, Matches, Differs, generate_loop-hit, generate_loop-miss, generate_prefix_lem,
}

module _ (c : Crates) (draw : ℕ → Bytes) (prefix : Bytes) where
  -- From the state `n` on, every search of more than `k` iterations returns the pair of one and the
  -- same draw, whose address starts with the prefix.
  abbrev pub Settles : ℕ → ℕ → Type 0
  Settles n k =
      (i : ℕ) × (i ≤ k)
      × Matches c draw prefix (n + i)
      × ((iterations : ℕ)
          → k < iterations
          → generate_loop c draw prefix iterations n ≡ (ok (pair c draw prefix (n + i)), n + i + 1))

  Settles-hit : (n k : ℕ) → Matches c draw prefix n → Settles n k
  Settles-hit n k hit =
      let same : n ≡ n + 0 = omega arith in
      (
        0,
        omega arith,
        subst (Matches c draw prefix) same hit,
        λ iterations more. go iterations more,
      )
    where
      go :
          (iterations : ℕ)
          → k < iterations
          → generate_loop c draw prefix iterations n ≡ (ok (pair c draw prefix (n + 0)), n + 0 + 1)
      go zero more = absurd (omega arith)
      go (suc iterations) more =
          let same : n ≡ n + 0 = omega arith in
          generate_loop-hit c draw prefix iterations n hit ∙ rw (← same) refl

  Settles-miss : (n k : ℕ) → Differs c draw prefix n → Settles (n + 1) k → Settles n (suc k)
  Settles-miss n k miss (i, le, hit, found) =
      let same : n + 1 + i ≡ n + suc i = omega arith in
      (
        suc i,
        omega arith,
        subst (Matches c draw prefix) same hit,
        λ iterations more. go iterations more,
      )
    where
      go :
          (iterations : ℕ)
          → suc k < iterations
          → generate_loop c draw prefix iterations n
            ≡ (ok (pair c draw prefix (n + suc i)), n + suc i + 1)
      go zero more = absurd (omega arith)
      go (suc iterations) more =
          let same : n + 1 + i ≡ n + suc i = omega arith in
          generate_loop-miss c draw prefix iterations n miss
          ∙ found iterations (omega arith)
          ∙ rw same refl

  settles : (k n : ℕ) → Matches c draw prefix (n + k) → Settles n k
  settles zero n hit =
      let same : n + 0 ≡ n = omega arith in Settles-hit n 0 (subst (Matches c draw prefix) same hit)
  settles (suc k) n hit =
      elim (Bool-cases (starts_with (address c (pair c draw prefix n)) prefix)) [
        | inl now ↦ Settles-hit n (suc k) now
        | inr miss ↦
            let same : n + suc k ≡ n + 1 + k = omega arith in
            Settles-miss n k miss (settles k (n + 1) (subst (Matches c draw prefix) same hit))
      ]

  -- If from every draw on there is one whose address starts with the prefix, then from every state
  -- there is a number of iterations from which on the search succeeds, after at least one draw, and
  -- always with the same pair, whose address starts with the prefix.
  pub generate_prefix-live :
      (fair : (n : ℕ) → (k : ℕ) × Matches c draw prefix (n + k)) (n : ℕ)
      → (bound : ℕ) × (found : KeyPair) × (n' : ℕ) × (n < n')
        × (starts_with (address c found) prefix ≡ true)
        × ((iterations : ℕ)
            → bound < iterations
            → (prefix_generator c draw prefix iterations).generate n ≡ (ok found, n'))
  unfolding prefix_generator
  generate_prefix-live fair n =
      let (k, hit) = fair n in
      let (i, _, matches, finds) = settles k n hit in
      (k, pair c draw prefix (n + i), n + i + 1, omega arith, matches, finds)

from_keypair_secret :
    (c : Crates) (key serialized : Bytes)
    → length key ≡ 32
    → (from_keypair c key serialized).secret ≡ key
unfolding from_keypair
from_keypair_secret c key serialized h = take-all 32 key h

-- A pair that the search returns is the one that `from_secret` makes of its secret, if the drawn keys
-- are valid, and its address starts with the prefix.
pub generate_prefix-from_secret :
    (c : Crates) (laws : CratesLaws c) (draw : ℕ → Bytes) (prefix : Bytes) (iterations n : ℕ)
    (found : KeyPair) (n' : ℕ)
    → ((i : ℕ) → (length (draw i) ≡ 32) × (c.secret_key_from_slice (draw i) ≡ ok (draw i)))
    → (prefix_generator c draw prefix iterations).generate n ≡ (ok found, n')
    → (from_secret c found.secret ≡ ok found) × (starts_with (address c found) prefix ≡ true)
generate_prefix-from_secret c laws draw prefix iterations n found n' keys returned =
    elim (generate_prefix_lem c draw prefix iterations n) [
      | inl (i, _, _, hit, e) ↦
          let (len, valid) = keys (n + i) in
          let same : pair c draw prefix (n + i) ≡ found = cc (returned, e) in
          let own : (pair c draw prefix (n + i)).secret ≡ draw (n + i) =
            from_keypair_secret c (draw (n + i)) (c.public_key_from_secret (draw (n + i))) len in
          let made : from_secret c (pair c draw prefix (n + i)).secret
              ≡ ok (pair c draw prefix (n + i)) =
            ap (from_secret c) own ∙ from_secret-from_keypair c laws (draw (n + i)) len valid in
          subst
            (λ (p : KeyPair).
              (from_secret c p.secret ≡ ok p) × (starts_with (address c p) prefix ≡ true))
            same (made, hit)
      | inr (_, e) ↦ absurd (cc (returned, e))
    ]
