-- ===== src/Ethkey/Signature/Negated.antt =====
-- ethkey/src/signature.rs: the key that is recovered from the other signature of a message.
use mm2_parity_ethereum.Base.{
  Bytes, IsArray, ℕ, ◌+◌, ◌-◌, ◌≤◌, ◌<◌, ◌≡◌, refl, ap, ◌∙◌, sym, [], ◌∷◌, ◌++◌, ok, err, panic,
  Result, ◌>>=◌, map_err, arith, take, drop, length, take-append, length-append,
}
use mathlib.Core.List.{append_assoc}
use mm2_parity_ethereum.Crates.{Crates, CratesLaws}
use mm2_parity_ethereum.Crates.Secp.{SecpError, SecpSymmetry}
use mm2_parity_ethereum.Crates.Types.{be_value}
use mm2_parity_ethereum.Ethkey.Error.{Error, from_secp}
use mm2_parity_ethereum.Ethkey.Signature.{from_rsv, recover, v}
use mm2_parity_ethereum.Ethkey.Signature.Laws.{v-from_rsv}

-- What `recover` makes of the crate's key.
abbrev finish : Result SecpError Bytes → Result Error Bytes
finish serialized = map_err from_secp serialized >>= λ key. ok (take 64 (drop 1 key))

finish-bind :
    {A : Type 0} (sig : Result SecpError A) (next : A → Result SecpError Bytes)
    → (map_err from_secp sig >>= λ s. finish (next s)) ≡ finish (sig >>= next)
finish-bind (ok s) next = refl
finish-bind (err e) next = refl
finish-bind panic next = refl

compact-from_rsv :
    (a b : Bytes) (p : ℕ) → length a ≡ 32 → length b ≡ 32 → take 64 (from_rsv a b p) ≡ a ++ b
unfolding from_rsv
compact-from_rsv a b p ha hb =
    ap (take 64) (sym (append_assoc a b (p ∷ [])))
    ∙ take-append 64 (a ++ b) (p ∷ []) (length-append a b ∙ omega arith)

module _ (c : Crates) (laws : CratesLaws c) where
  recover-from_rsv :
      (a b m : Bytes) (p : ℕ)
      → length a ≡ 32
      → length b ≡ 32
      → IsArray 32 m
      → p ≤ 1
      → recover c (from_rsv a b p) m
        ≡ finish (c.signature_from_compact (a ++ b) p >>= c.recover_public_key m)
  unfolding recover v
  recover-from_rsv a b m p ha hb hm hp =
      rw
        (
          v-from_rsv a b p ha hb,
          laws.secp_laws.recovery_id_from_i32_lem p (omega arith),
          compact-from_rsv a b p ha hb,
          laws.secp_laws.message_from_slice_lem m hm,
        )
        (finish-bind (c.signature_from_compact (a ++ b) p) (c.recover_public_key m))

  -- With `s` replaced by its negative and the other parity, the same key is recovered, or none.
  pub recover-negated :
      SecpSymmetry c.secp
      → (a b b' m : Bytes) (p : ℕ) → IsArray 32 a
      → IsArray 32 b
      → IsArray 32 b'
      → IsArray 32 m
      → 0 < be_value b
      → 0 < be_value b'
      → be_value b + be_value b'
        ≡ 0xfffffffffffffffffffffffffffffffebaaedce6af48a03bbfd25e8cd0364141
      → p ≤ 1
      → recover c (from_rsv a b' (1 - p)) m ≡ recover c (from_rsv a b p) m
  recover-negated symmetry a b b' m p ha hb hb' hm pos pos' sum hp =
      recover-from_rsv a b' m (1 - p) ha.0 hb'.0 hm (omega arith)
      ∙ ap finish (symmetry.negated m a b b' p ha hb hb' pos pos' sum hp)
      ∙ sym (recover-from_rsv a b m p ha.0 hb.0 hm hp)
