-- ===== src/Ethkey/Signature/Checked.antt =====
-- ethkey/src/signature.rs: the Electrum notation, as a build with overflow checks makes it.
use mm2_parity_ethereum.Base.{
  Bytes, ◌+◌, ◌≡◌, ◌∙◌, ◌⊎◌, inl, inr, Result, ok, panic, ◌>>=◌, checked, ltb, get_or, set,
  Bool-cases, arith,
}
use mm2_parity_ethereum.Ethkey.Signature.{
  Signature, v, into_electrum, from_electrum, default_signature,
}
use mm2_parity_ethereum.Ethkey.Signature.Laws.{IsSignature, from_electrum-into_electrum_cases}

unfoldable pub into_electrum_checked {ℓ} : {E : Type ℓ} → Signature → Result E Bytes
into_electrum_checked sig = do last ← checked 8 (get_or sig 64 0 + 27); ok (set sig 64 last)

-- For a signature: where a build with overflow checks does not panic in `into_electrum`, it returns what
-- a build without them does, and `from_electrum` reads the signature back; where it panics,
-- `from_electrum` makes the empty signature of what a build without them returns.
pub into_electrum_checked_lem :
    {E : Type 0} (sig : Signature)
    → IsSignature sig
    → ((into_electrum_checked {E = E} sig ≡ ok (into_electrum sig))
        × (from_electrum (into_electrum sig) ≡ sig))
      ⊎ ((into_electrum_checked {E = E} sig ≡ panic)
          × (from_electrum (into_electrum sig) ≡ default_signature))
unfolding into_electrum_checked into_electrum v
into_electrum_checked_lem sig h = elim (Bool-cases (ltb (get_or sig 64 0 + 27) 256)) [
  | inl fits ↦ inl (ground arith, from_electrum-into_electrum_cases sig h ∙ rw fits)
  | inr wraps ↦ inr (rw wraps, from_electrum-into_electrum_cases sig h ∙ rw wraps)
]
