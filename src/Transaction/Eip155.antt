-- ===== src/Transaction/Eip155.antt =====
-- ethcore/transaction/src/transaction/legacy.rs, `eip155_methods`: replay protection in `v`.
pub mod Laws
pub mod Checked
use mm2_parity_ethereum.Base.{
  ℕ, ◌+◌, ◌-◌, ◌*◌, ◌%◌, ◌^◌, Option, none, some, ltb, ◌==◌, if◌then◌else◌,
}

-- `u64` arithmetic that wraps.
unfoldable pub add_chain_replay_protection : ℕ → Option ℕ → ℕ
add_chain_replay_protection v (some n) = (v + (35 + n * 2 % 2 ^ 64) % 2 ^ 64) % 2 ^ 64
add_chain_replay_protection v none = (v + 27) % 2 ^ 64

unfoldable pub check_replay_protection : ℕ → ℕ
check_replay_protection v =
    if v == 27 then 0 else if v == 28 then 1 else if ltb 36 v then (v - 1) % 2 % 2 ^ 8 else 4
