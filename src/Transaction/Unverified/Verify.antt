-- ===== src/Transaction/Unverified/Verify.antt =====
-- ethcore/transaction/src/transaction.rs: what `verify_basic` accepts.
use mm2_parity_ethereum.Base.{
  IsArray, ℕ, ◌≤◌, ◌≡◌, ◌↔◌, Bool, true, false, Option, none, some, ok, err, arith, leb,
  if◌then◌else◌, ◌⊎◌, ◌<◌, ◌≢◌,
}
use mm2_parity_ethereum.Crates.{Crates, CratesLaws}
use mm2_parity_ethereum.Crates.Types.{be_value}
use mm2_parity_ethereum.Ethkey.Error as EthkeyError
use mm2_parity_ethereum.Ethkey.Signature.{from_rsv, half_order, is_low_s}
use mm2_parity_ethereum.Ethkey.Signature.Laws.{s-from_rsv, is_low_s_lem}
use mm2_parity_ethereum.Transaction.Error.{from_ethkey, invalid_chain_id}
use mm2_parity_ethereum.Transaction.Unverified.{
  UnverifiedTransactionWrapper, r, s, v, is_unsigned, chain_id_from_v, check_low_s, verify_basic,
  validate_empty_sig, check_chain_id,
}
use mm2_parity_ethereum.Transaction.Unverified.Codec.{IsUnverified}
use mm2_parity_ethereum.Transaction.Unverified.Parts.{
  parity, r-IsU256, s-IsU256, signature_lem, chain_id_from_v-typed,
}

-- What `verify_basic` promises. A null signature must be allowed; a signed transaction has a low `s`
-- if that is asked for; and a chain id that `v` holds is the given one.
abbrev pub Accepts : UnverifiedTransactionWrapper → Bool → Option ℕ → Bool → Type 0
Accepts tx low chain_id allow_empty_signature =
    ((is_unsigned tx ≡ false) ⊎ (allow_empty_signature ≡ true))
    × ((low ≡ false) ⊎ (is_unsigned tx ≡ true) ⊎ (s tx ≤ be_value half_order))
    × ((chain_id_from_v tx ≡ none) ⊎ (chain_id_from_v tx ≡ chain_id))

module _ (c : Crates) (laws : CratesLaws c) (tx : UnverifiedTransactionWrapper)
    (h : IsUnverified tx) where
  low_s :
      is_low_s c (from_rsv (c.u256_into_bytes (r tx)) (c.u256_into_bytes (s tx)) (parity tx))
      ≡ leb (s tx) (be_value half_order)
  low_s =
      let t = laws.types_laws in
      let hr : IsArray 32 (c.u256_into_bytes (r tx)) =
        t.u256_into_bytes-IsArray (r tx) (r-IsU256 tx h) in
      let hs : IsArray 32 (c.u256_into_bytes (s tx)) =
        t.u256_into_bytes-IsArray (s tx) (s-IsU256 tx h) in
      rw (
        is_low_s_lem,
        s-from_rsv (c.u256_into_bytes (r tx)) (c.u256_into_bytes (s tx)) (parity tx) hr.0 hs.0,
        t.h256_le_lem (c.u256_into_bytes (s tx)) half_order hs (omega arith),
        t.be_value-u256_into_bytes (s tx) (s-IsU256 tx h),
      )

  pub check_low_s_lem : check_low_s c tx ≡ (
      if leb (s tx) (be_value half_order) then ok tt else err EthkeyError.Error.invalid_signature)
  unfolding check_low_s
  check_low_s_lem = rw (signature_lem c tx h, low_s) (ground arith)

  -- `verify_basic` accepts a transaction of valid fields exactly when a null signature is allowed if
  -- it has one, a signed one has a low `s` if that is asked for, and a chain id that `v` holds is the
  -- given one.
  pub verify_basic_iff :
      (low : Bool) (chain_id : Option ℕ) (allow_empty_signature : Bool)
      → (verify_basic c tx low chain_id allow_empty_signature ≡ ok tt)
        ↔ Accepts tx low chain_id allow_empty_signature
  unfolding verify_basic check_chain_id validate_empty_sig
  verify_basic_iff low chain_id allow = rw (check_low_s_lem) (ground arith)

  verify_basic_signature :
      (low : Bool) (chain_id : Option ℕ) (allow_empty_signature : Bool)
      → ((is_unsigned tx ≡ true) × (allow_empty_signature ≡ false))
        ⊎ ((is_unsigned tx ≡ false) × (low ≡ true) × (be_value half_order < s tx))
      → verify_basic c tx low chain_id allow_empty_signature
        ≡ err (from_ethkey EthkeyError.Error.invalid_signature)
  unfolding verify_basic
  verify_basic_signature low chain_id allow bad = rw (check_low_s_lem) (ground arith)

-- A null signature that is not allowed, or a high `s` where a low one is asked for.
abbrev pub HasBadSignature : UnverifiedTransactionWrapper → Bool → Bool → Type 0
HasBadSignature tx low allow_empty_signature =
    ((is_unsigned tx ≡ true) × (allow_empty_signature ≡ false))
    ⊎ ((is_unsigned tx ≡ false) × (low ≡ true) × (be_value half_order < s tx))

module _ (c : Crates) (laws : CratesLaws c) (tx : UnverifiedTransactionWrapper)
    (h : IsUnverified tx) (low : Bool) (chain_id : Option ℕ) (allow : Bool) where
  to_signature_error :
      verify_basic c tx low chain_id allow ≡ err (from_ethkey EthkeyError.Error.invalid_signature)
      → HasBadSignature tx low allow
  unfolding verify_basic check_chain_id validate_empty_sig from_ethkey
  to_signature_error = rw (check_low_s_lem c laws tx h) (ground arith)

  to_chain_id_error :
      verify_basic c tx low chain_id allow ≡ err invalid_chain_id
      → (n : ℕ) × (chain_id_from_v tx ≡ some n) × (chain_id ≢ some n)
  unfolding verify_basic check_chain_id validate_empty_sig from_ethkey
  to_chain_id_error = rw (check_low_s_lem c laws tx h) (ground arith)

  to_no_signature_error :
      verify_basic c tx low chain_id allow ≡ err invalid_chain_id → ¬ HasBadSignature tx low allow
  unfolding verify_basic check_chain_id validate_empty_sig from_ethkey
  to_no_signature_error = rw (check_low_s_lem c laws tx h) (ground arith)

  from_chain_id_error :
      ¬ HasBadSignature tx low allow
      → (n : ℕ) × (chain_id_from_v tx ≡ some n) × (chain_id ≢ some n)
      → verify_basic c tx low chain_id allow ≡ err invalid_chain_id
  unfolding verify_basic check_chain_id validate_empty_sig
  from_chain_id_error fine (n, held, other) = rw (check_low_s_lem c laws tx h) (ground arith)

  -- `verify_basic` refuses a transaction of valid fields for its signature exactly when it has a null
  -- one that is not allowed or a high `s` where a low one is asked for, and for its chain id exactly
  -- when it is not refused for its signature and `v` holds a chain id that is not the given one.
  pub verify_basic_errors :
      ((verify_basic c tx low chain_id allow
          ≡ err (from_ethkey EthkeyError.Error.invalid_signature))
        ↔ HasBadSignature tx low allow)
      × ((verify_basic c tx low chain_id allow ≡ err invalid_chain_id) ↔ (
          (¬ HasBadSignature tx low allow)
          × ((n : ℕ) × (chain_id_from_v tx ≡ some n) × (chain_id ≢ some n))))
  verify_basic_errors = (
    (to_signature_error, verify_basic_signature c laws tx h low chain_id allow),
    (
      λ e. (to_no_signature_error e, to_chain_id_error e),
      λ (fine, held). from_chain_id_error fine held,
    ),
  )

-- `verify_basic` of a transaction of valid fields accepts exactly when a null signature is allowed if it
-- has one, a signed one has a low `s` if that is asked for, and a chain id that `v` holds is the given
-- one. It refuses for the signature exactly when there is a null one that is not allowed, or a high `s`
-- where a low one is asked for; and for the chain id exactly when it does not refuse for the signature
-- and `v` holds a chain id that is not the given one.
pub verify_basic_outcomes :
    (c : Crates) (laws : CratesLaws c) (tx : UnverifiedTransactionWrapper) (h : IsUnverified tx)
    (low : Bool) (chain_id : Option ℕ) (allow : Bool)
    → ((verify_basic c tx low chain_id allow ≡ ok tt) ↔ Accepts tx low chain_id allow)
      × ((verify_basic c tx low chain_id allow
            ≡ err (from_ethkey EthkeyError.Error.invalid_signature))
          ↔ HasBadSignature tx low allow)
      × ((verify_basic c tx low chain_id allow ≡ err invalid_chain_id) ↔ (
          (¬ HasBadSignature tx low allow)
          × ((n : ℕ) × (chain_id_from_v tx ≡ some n) × (chain_id ≢ some n))))
verify_basic_outcomes c laws tx h low chain_id allow =
    let (signature, chain) = verify_basic_errors c laws tx h low chain_id allow in
    (verify_basic_iff c laws tx h low chain_id allow, signature, chain)

-- A signed transaction whose `v` is a parity is not held to a chain: `verify_basic` gives the same
-- answer for every chain id that is asked for.
pub verify_basic-any_chain :
    (c : Crates) (tx : UnverifiedTransactionWrapper) (low : Bool) (chain_id chain_id' : Option ℕ)
    (allow_empty_signature : Bool)
    → is_unsigned tx ≡ false
    → v tx ≤ 1
    → verify_basic c tx low chain_id allow_empty_signature
      ≡ verify_basic c tx low chain_id' allow_empty_signature
unfolding verify_basic check_chain_id
verify_basic-any_chain c tx low chain_id chain_id' allow signed small =
    rw (chain_id_from_v-typed tx signed (omega arith))
