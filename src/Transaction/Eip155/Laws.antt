-- ===== src/Transaction/Eip155/Laws.antt =====
-- ethcore/transaction/src/transaction/legacy.rs, `eip155_methods`: the parity and the chain id
-- in `v`.
use mm2_parity_ethereum.Base.{
  ℕ, ◌+◌, ◌-◌, ◌*◌, ◌/◌, ◌^◌, ◌≤◌, ◌<◌, ◌≡◌, ◌≢◌, Option, none, some, arith, IsU64, ltb,
  if◌then◌else◌, ◌↔◌, subst, ap, sym, ◌∙◌,
}
use mm2_parity_ethereum.Transaction.Eip155.{add_chain_replay_protection, check_replay_protection}

module _ (v : ℕ) (parity : v ≤ 1) where
  -- Without a chain id a parity `v` becomes `v + 27`, from which the parity is read back.
  pub add_chain_replay_protection-none :
      (add_chain_replay_protection v none ≡ v + 27)
      × (check_replay_protection (add_chain_replay_protection v none) ≡ v)
  unfolding add_chain_replay_protection check_replay_protection
  add_chain_replay_protection-none = ground arith

  -- With a chain id from 1 on, as long as nothing wraps, a parity `v` becomes `v + 35 + 2 * chain_id`,
  -- from which parity and chain id are read back.
  pub add_chain_replay_protection-some :
      (n : ℕ)
      → 1 ≤ n
      → n * 2 + 36 < 2 ^ 64
      → (add_chain_replay_protection v (some n) ≡ v + 35 + n * 2)
        × (check_replay_protection (add_chain_replay_protection v (some n)) ≡ v)
        × ((add_chain_replay_protection v (some n) - 35) / 2 ≡ n)
  unfolding add_chain_replay_protection check_replay_protection
  add_chain_replay_protection-some n lo hi = ground arith

  -- The chain id 0 gives an invalid `v`.
  pub add_chain_replay_protection-zero :
      check_replay_protection (add_chain_replay_protection v (some 0)) ≡ 4
  unfolding add_chain_replay_protection check_replay_protection
  add_chain_replay_protection-zero = ground arith

-- The arithmetic wraps: two chain ids that are 2 ^ 63 apart give the same `v`.
pub add_chain_replay_protection-wraps :
    (v n : ℕ)
    → add_chain_replay_protection v (some (n + 2 ^ 63)) ≡ add_chain_replay_protection v (some n)
unfolding add_chain_replay_protection
add_chain_replay_protection-wraps v n = omega arith

-- The chain ids that a parity `v` can hold: none, or one from 1 on with which nothing wraps.
abbrev pub Suits : ℕ → Option ℕ → Type 0
Suits v none = Unit
Suits v (some n) = (1 ≤ n) × (v + 35 + n * 2 < 2 ^ 64)

-- The chain id that a `v` of a signature holds, as EIP-155 says.
abbrev pub chain_id_of : ℕ → Option ℕ
chain_id_of w = if ltb 36 w then some ((w - 35) / 2) else none

-- A parity and a chain id that suits it are read back from the `v` that they make.
pub check_replay_protection-add_chain_replay_protection :
    (v : ℕ) (chain_id : Option ℕ)
    → v ≤ 1
    → Suits v chain_id
    → (check_replay_protection (add_chain_replay_protection v chain_id) ≡ v)
      × (chain_id_of (add_chain_replay_protection v chain_id) ≡ chain_id)
unfolding add_chain_replay_protection check_replay_protection
check_replay_protection-add_chain_replay_protection v none parity suits = ground arith
check_replay_protection-add_chain_replay_protection v (some n) parity suits = ground arith

-- Every `v` in the range of `u64` that is not refused is made by the parity and the chain id that are
-- read from it.
pub add_chain_replay_protection-check_replay_protection :
    (w : ℕ)
    → IsU64 w
    → check_replay_protection w ≢ 4
    → (check_replay_protection w ≤ 1)
      × Suits (check_replay_protection w) (chain_id_of w)
      × (add_chain_replay_protection (check_replay_protection w) (chain_id_of w) ≡ w)
unfolding add_chain_replay_protection check_replay_protection
add_chain_replay_protection-check_replay_protection w h valid = ground arith

-- For every `v` of `u64`: it is made of a parity and a chain id that suits it exactly where these are the
-- ones that are read from it, and it is not refused.
pub add_chain_replay_protection_iff :
    (w v : ℕ) (chain_id : Option ℕ)
    → IsU64 w
    → ((v ≤ 1) × Suits v chain_id × (add_chain_replay_protection v chain_id ≡ w))
      ↔ ((check_replay_protection w ≡ v) × (v ≢ 4) × (chain_id_of w ≡ chain_id))
add_chain_replay_protection_iff w v chain_id h = (
  λ (parity, suits, made).
      let (reads, holds) =
        check_replay_protection-add_chain_replay_protection v chain_id parity suits in
      (
        ap check_replay_protection (sym made) ∙ reads,
        λ four. omega arith,
        ap chain_id_of (sym made) ∙ holds,
      ),
  λ (reads, valid, holds).
      let (parity, suits, made) =
        add_chain_replay_protection-check_replay_protection w h
          (λ four. valid (sym reads ∙ four)) in
      (
        subst (λ (n : ℕ). n ≤ 1) reads parity,
        subst (Suits v) holds (subst (λ (n : ℕ). Suits n (chain_id_of w)) reads suits),
        ap (add_chain_replay_protection v) (sym holds)
            ∙ ap (λ (n : ℕ). add_chain_replay_protection n (chain_id_of w)) (sym reads)
            ∙ made,
      ),
)
