-- ===== src/Transaction/Signed/Cache.antt =====
-- ethcore/transaction/src/transaction.rs: calls of `LocalizedTransaction::sender` one after another,
-- and what its cache may hold.
use mm2_parity_ethereum.Base.{
  Bytes, ℕ, ◌≡◌, refl, ap, subst, ◌∙◌, sym, Bool-cases, true, false, none, some, List, [], ◌∷◌, All,
  Result, ok, err, panic, ◌>>=◌, unwrap, ◌⊎◌, inl, inr,
}
use mm2_parity_ethereum.Crates.{Crates}
use mm2_parity_ethereum.Ethkey.Error as EthkeyError
use mm2_parity_ethereum.Ethkey.KeyPair.{public_to_address}
use mm2_parity_ethereum.Transaction.Error.{Error}
use mm2_parity_ethereum.Transaction.Unverified as Unverified
use mm2_parity_ethereum.Transaction.Unverified.{UnverifiedTransactionWrapper}
use mm2_parity_ethereum.Transaction.Signed.{
  LocalizedTransaction, new_signed, sender, sender_uncached, unsigned_sender,
}

-- A transaction and its place in the chain, without the cache.
pub record Placed : Type 0 where
  pub signed : UnverifiedTransactionWrapper
  pub block_number : ℕ
  pub block_hash : Bytes
  pub transaction_index : ℕ

abbrev pub placed : LocalizedTransaction → Placed
placed tx = record {
  signed = tx.signed;
  block_number = tx.block_number;
  block_hash = tx.block_hash;
  transaction_index = tx.transaction_index;
}

module _ (c : Crates) where
  -- The sender as a function of the transaction alone: that of `SignedTransaction::new`, where a
  -- failure ends in a panic.
  abbrev pub account : Placed → Result Error Bytes
  account tx = unwrap (new_signed c tx.signed) >>= λ signed. ok signed.sender

  -- The cache is empty or holds the sender.
  abbrev pub IsCoherent : LocalizedTransaction → Type 0
  IsCoherent tx =
      (tx.cached_sender ≡ none)
      ⊎ ((a : Bytes) × (tx.cached_sender ≡ some a) × (account (placed tx) ≡ ok a))

  abbrev pub Panics : LocalizedTransaction → Type 0
  Panics tx = (sender c {E = Error} tx ≡ panic) × (account (placed tx) ≡ panic)

  abbrev pub Returns : LocalizedTransaction → Type 0
  Returns tx =
      (a : Bytes) × (tx' : LocalizedTransaction) × (sender c {E = Error} tx ≡ ok (a, tx'))
      × (account (placed tx) ≡ ok a)
      × (placed tx' ≡ placed tx)
      × IsCoherent tx'

  sender-hit :
      (tx : LocalizedTransaction) (a : Bytes)
      → tx.cached_sender ≡ some a
      → account (placed tx) ≡ ok a
      → Returns tx
  unfolding sender
  sender-hit tx a cached e = (a, tx, rw cached refl, e, refl, inr (a, cached, e))

  sender-unsigned :
      (tx : LocalizedTransaction)
      → tx.cached_sender ≡ none
      → Unverified.is_unsigned tx.signed ≡ true
      → Returns tx
  unfolding sender new_signed sender_uncached
  sender-unsigned tx empty bare =
      (unsigned_sender, tx, rw (empty, bare) refl, rw bare refl, refl, inl empty)

  sender-signed :
      (tx : LocalizedTransaction) (key : Result EthkeyError.Error Bytes)
      → tx.cached_sender ≡ none
      → Unverified.is_unsigned tx.signed ≡ false
      → Unverified.recover_public c tx.signed ≡ key
      → Panics tx ⊎ Returns tx
  unfolding sender new_signed sender_uncached
  sender-signed tx (ok public) empty is_signed recovered =
      let a = public_to_address c public in
      inr (
        a,
        record tx { cached_sender = some a },
        rw (empty, is_signed, recovered) refl,
        rw (is_signed, recovered) refl,
        refl,
        inr (a, refl, rw (is_signed, recovered) refl),
      )
  sender-signed tx (err e) empty is_signed failed =
      inl (rw (empty, is_signed, failed) refl, rw (is_signed, failed) refl)
  sender-signed tx panic empty is_signed failed =
      inl (rw (empty, is_signed, failed) refl, rw (is_signed, failed) refl)

  -- The cache cannot be seen: with one that is empty or holds the sender, `sender` panics exactly where
  -- the sender of the transaction alone does, and otherwise returns that sender, the transaction and
  -- its place as they are, and a cache that is empty or holds the sender.
  pub sender-account : (tx : LocalizedTransaction) → IsCoherent tx → Panics tx ⊎ Returns tx
  sender-account tx (inr (a, cached, e)) = inr (sender-hit tx a cached e)
  sender-account tx (inl empty) = elim (Bool-cases (Unverified.is_unsigned tx.signed)) [
    | inl bare ↦ inr (sender-unsigned tx empty bare)
    | inr is_signed ↦ sender-signed tx (Unverified.recover_public c tx.signed) empty is_signed refl
  ]

  -- Calls of `sender` that return, the last one first, and the transaction after them.
  pub data Calls (start : LocalizedTransaction) : List Bytes → LocalizedTransaction → Type 0 where
    none_yet : Calls start [] start
    call :
        {answers : List Bytes} {tx tx' : LocalizedTransaction} {a : Bytes}
        → Calls start answers tx
        → sender c {E = Error} tx ≡ ok (a, tx')
        → Calls start (a ∷ answers) tx'

  call-account :
      (tx tx' : LocalizedTransaction) (a : Bytes)
      → IsCoherent tx
      → sender c {E = Error} tx ≡ ok (a, tx')
      → (account (placed tx) ≡ ok a) × (placed tx' ≡ placed tx) × IsCoherent tx'
  call-account tx tx' a h e = elim (sender-account tx h) [
    | inl (stops, _) ↦ cc
    | inr (b, ty, returns, is_account, same, coherent) ↦
        let answer : b ≡ a = cc in
        let after : ty ≡ tx' = cc in
        (is_account ∙ ap ok answer, ap placed (sym after) ∙ same, subst IsCoherent after coherent)
  ]

  -- However often `sender` is called, from a cache that is empty or holds the sender: each answer is
  -- the sender of the transaction that the first call was given, and the transaction, its place in the
  -- chain and the invariant of the cache stay.
  pub Calls-account :
      (start tx : LocalizedTransaction) (answers : List Bytes)
      → IsCoherent start
      → Calls start answers tx
      → All (λ a. account (placed start) ≡ ok a) answers
        × (placed tx ≡ placed start)
        × IsCoherent tx
  Calls-account start _ _ h none_yet = (tt, refl, h)
  Calls-account start _ _ h (call {answers = answers} {tx = tx} {tx' = tx'} {a = a} before e) =
      let (agree, same, coherent) = Calls-account start tx answers h before in
      let (now, kept, after) = call-account tx tx' a coherent e in
      ((subst (λ p. account p ≡ ok a) same now, agree), kept ∙ same, after)
