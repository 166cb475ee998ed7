-- ===== src/Tests/Generators.antt =====
-- ethkey/src/prefix.rs: runs of the search for a prefix, and the theorems at concrete inputs.
use mathlib.Core.List.{foldr}
use mm2_parity_ethereum.Base.{
  ◌∙◌, Bytes, ℕ, ◌+◌, ◌-◌, ◌%◌, ◌<◌, ◌≡◌, ◌⊎◌, refl, true, [], ◌∷◌, ◌++◌, ok, err, some, replicate,
  take, arith, ◌==◌,
}
use mm2_parity_ethereum.Crates.{Crates}
use mm2_parity_ethereum.Sample.{crates, crates_laws}
use mm2_parity_ethereum.Sample.Keys.{key}
use mm2_parity_ethereum.Ethkey.Error.{Error}
use mm2_parity_ethereum.Ethkey.KeyPair.{KeyPair, from_keypair, address}
use mm2_parity_ethereum.Ethkey.Generator.{
  prefix_generator, generate_loop, random, thread_rng, without_void, starts_with,
}
use mm2_parity_ethereum.Ethkey.Generator.Laws.{pair, Matches, Finds, GivesUp, generate_prefix_lem}
use mm2_parity_ethereum.Ethkey.Generator.Live.{generate_prefix-live}
use mm2_parity_ethereum.Transaction.Unverified.{TransactionWrapper}
use mm2_parity_ethereum.Transaction.Wrapper.{sign}
use mm2_parity_ethereum.Transaction.Signed.{SignedTransaction}
use mm2_parity_ethereum.Transaction.Builder.Sent.{IsReceived}
use mm2_parity_ethereum.Transaction.Builder.Found.{sign-generate_prefix}
use mm2_parity_ethereum.Tests.Inputs.{eip1559_tx}
use mm2_parity_ethereum.Tests.Building.{completed, built, completed-IsBuilder}

-- Crates whose addresses are part of the key, and keys that differ in the address's first byte.
abbrev plain : Crates
plain = record crates {
  hashes = record { finalize = λ k out. take 32 (foldr ◌++◌ [] k); keccak = take 32 };
}

abbrev draw : ℕ → Bytes
draw i = replicate 12 0 ++ i ∷ replicate 19 0

prefix_found :
    (prefix_generator plain draw (7 ∷ []) 5).generate 5 ≡ (ok (pair plain draw (7 ∷ []) 7), 8)
unfolding prefix_generator generate_loop random thread_rng without_void starts_with address
    from_keypair
prefix_found = refl

prefix_not_found :
    (prefix_generator plain draw (7 ∷ []) 2).generate 5
    ≡ (err (Error.custom "Could not find keypair"), 7)
unfolding prefix_generator generate_loop random thread_rng without_void starts_with address
    from_keypair
prefix_not_found = refl

generate_prefix_lem_example :
    Finds plain draw (7 ∷ []) 5 5 ((prefix_generator plain draw (7 ∷ []) 5).generate 5)
    ⊎ GivesUp plain draw (7 ∷ []) 5 5 ((prefix_generator plain draw (7 ∷ []) 5).generate 5)
generate_prefix_lem_example = generate_prefix_lem plain draw (7 ∷ []) 5 5

-- Every tenth draw has the address's first byte 7.
abbrev digit : ℕ → Bytes
digit i = draw (i % 10)

first_byte-digit :
    (n : ℕ) → starts_with (address plain (pair plain digit (7 ∷ []) n)) (7 ∷ []) ≡ (n % 10 == 7)
unfolding starts_with address from_keypair
first_byte-digit n = ground arith

digit_fair : (n : ℕ) → (k : ℕ) × Matches plain digit (7 ∷ []) (n + k)
digit_fair n = (17 - n % 10, first_byte-digit (n + (17 - n % 10)) ∙ ground arith)

generate_prefix-live_example :
    (bound : ℕ) × (found : KeyPair) × (n' : ℕ) × (8 < n')
    × (starts_with (address plain found) (7 ∷ []) ≡ true)
    × ((iterations : ℕ)
        → bound < iterations
        → (prefix_generator plain digit (7 ∷ []) iterations).generate 8 ≡ (ok found, n'))
generate_prefix-live_example = generate_prefix-live plain digit (7 ∷ []) digit_fair 8

-- The sample's only key, whose address is zeros.
abbrev found : KeyPair
found = record { secret = key; public = key ++ key }

found_now : (prefix_generator crates (λ i. key) (0 ∷ 0 ∷ []) 3).generate 4 ≡ (ok found, 5)
unfolding prefix_generator generate_loop random thread_rng without_void starts_with address
    from_keypair
found_now = refl

sign-generate_prefix_example :
    (signed : SignedTransaction) × (sign crates (TransactionWrapper.eip1559 eip1559_tx) key (some 3)
      ≡ ok signed)
    × IsReceived crates signed (some 3) (address crates found)
    × (starts_with signed.sender (0 ∷ 0 ∷ []) ≡ true)
sign-generate_prefix_example =
    sign-generate_prefix crates crates_laws (λ i. key) (0 ∷ 0 ∷ []) 3 4 found 5 completed
      (TransactionWrapper.eip1559 eip1559_tx) (some 3) (λ i. (refl, refl)) found_now
      completed-IsBuilder built (omega arith) tt
