-- ===== src/Transaction/Eip155/Checked.antt =====
-- ethcore/transaction/src/transaction/legacy.rs, `eip155_methods`, as a build with overflow
-- checks runs it.
use mm2_parity_ethereum.Base.{
  checked, IsU64, ℕ, ◌+◌, ◌*◌, ◌^◌, ◌≤◌, ◌≡◌, ◌≢◌, ◌⊎◌, inl, inr, Option, none, some, Result, ok,
  panic, ◌>>=◌, arith, ltb, Bool-cases,
}
use mm2_parity_ethereum.Transaction.Eip155.{add_chain_replay_protection}
use mm2_parity_ethereum.Transaction.Eip155.Laws.{chain_id_of}

unfoldable pub add_chain_replay_protection_checked {ℓ} : {E : Type ℓ} → ℕ → Option ℕ → Result E ℕ
add_chain_replay_protection_checked v (some n) = do
  twice ← checked 64 (n * 2)
  offset ← checked 64 (35 + twice)
  checked 64 (v + offset)
add_chain_replay_protection_checked v none = checked 64 (v + 27)

-- The chain ids that a program may ask for: none, or one of `u64` from 1 on.
abbrev pub IsChainId : Option ℕ → Type 0
IsChainId none = Unit
IsChainId (some n) = (1 ≤ n) × IsU64 n

-- For a parity and a chain id, none or one of `u64` from 1 on: where a build with overflow checks does
-- not panic, it makes the `v` that a build without them makes, and the chain id is read back from it;
-- where it panics, the `v` of a build without them holds another chain id or none.
pub add_chain_replay_protection_checked_lem :
    {E : Type 0} (v : ℕ) (chain_id : Option ℕ)
    → v ≤ 1
    → IsChainId chain_id
    → ((add_chain_replay_protection_checked {E = E} v chain_id
          ≡ ok (add_chain_replay_protection v chain_id))
        × (chain_id_of (add_chain_replay_protection v chain_id) ≡ chain_id))
      ⊎ ((add_chain_replay_protection_checked {E = E} v chain_id ≡ panic)
          × (chain_id_of (add_chain_replay_protection v chain_id) ≢ chain_id))
unfolding add_chain_replay_protection add_chain_replay_protection_checked
add_chain_replay_protection_checked_lem v none parity range = inl (ground arith, ground arith)
add_chain_replay_protection_checked_lem v (some n) parity range =
    elim (Bool-cases (ltb (v + 35 + n * 2) (2 ^ 64))) [
      | inl fits ↦ inl (ground arith, ground arith)
      | inr over ↦ inr (ground arith, λ e. ground arith)
    ]
