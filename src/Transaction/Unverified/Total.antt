-- ===== src/Transaction/Unverified/Total.antt =====
-- ethcore/transaction/src: decoding bytes that are not trusted.
use mm2_parity_ethereum.Base.{
  Bytes, ℕ, zero, suc, ◌+◌, ◌≡◌, ◌≢◌, refl, Bool, true, false, List, [], ◌∷◌, Result, ok, err,
  panic, ◌>>=◌, arith, if◌then◌else◌,
}
use mm2_parity_ethereum.Crates.{Crates}
use mm2_parity_ethereum.Crates.Rlp.{RlpReturns, DecoderError}
use mm2_parity_ethereum.Crates.Rlp.Stream.{decode_each}
use mm2_parity_ethereum.Transaction.Action as Action
use mm2_parity_ethereum.Transaction.AccessList as AccessList
use mm2_parity_ethereum.Transaction.Legacy as Legacy
use mm2_parity_ethereum.Transaction.Eip2930 as Eip2930
use mm2_parity_ethereum.Transaction.Eip1559 as Eip1559
use mm2_parity_ethereum.Transaction.TxType.{TxType, type1, type2}
use mm2_parity_ethereum.Transaction.Unverified.{
  UnverifiedTransactionWrapper, is_typed_transaction, decode_typed, decode,
}

>>=-returns {ℓ κ μ} :
    {E : Type ℓ} {A : Type κ} {B : Type μ} (first : Result E A) (next : A → Result E B)
    → first ≢ panic
    → ((a : A) → next a ≢ panic)
    → (first >>= next) ≢ panic
>>=-returns panic next h k = absurd (h refl)
>>=-returns (err e) next h k = cc
>>=-returns (ok a) next h k = k a

ok-returns {ℓ κ} : {E : Type ℓ} {A : Type κ} (a : A) → ◌≢◌ {A = Result E A} (ok a) panic
ok-returns a e = cc

err-returns {ℓ κ} : {E : Type ℓ} {A : Type κ} (e : E) → ◌≢◌ {A = Result E A} (err e) panic
err-returns e h = cc

if-returns {ℓ κ} :
    {E : Type ℓ} {A : Type κ} (test : Bool) (yea nay : Result E A)
    → yea ≢ panic
    → nay ≢ panic
    → (if test then yea else nay) ≢ panic
if-returns true yea nay h k = h
if-returns false yea nay h k = k

ruleset results = (>>=-returns, ok-returns, err-returns, if-returns)

module _ (c : Crates) (total : RlpReturns c.rlp) where
  decode_each-returns :
      {A : Type 0} (decode_one : Bytes → Result DecoderError A)
      → ((d : Bytes) → decode_one d ≢ panic)
      → (d : Bytes) (rounds i : ℕ) (items : List A)
      → decode_each c.rlp decode_one d rounds i items ≢ panic
  unfolding decode_each
  decode_each-returns decode_one returns d zero i items = λ e. cc
  decode_each-returns decode_one returns d (suc rounds) i items =
      >>=-returns _ _ (total.item_at d i) (λ x_rlp.
        >>=-returns _ _ (returns x_rlp)
          (λ x. decode_each-returns decode_one returns d rounds (i + 1) _))

  decode_action-returns : (d : Bytes) → Action.decode c d ≢ panic
  unfolding Action.decode
  decode_action-returns d = ground (arith, total.decode_address d)

  decode_item-returns : (d : Bytes) → AccessList.decode_item c d ≢ panic
  unfolding AccessList.decode_item
  decode_item-returns d =
      search
        (
          results, total.item_at, total.decode_address, total.item_count, total.decode_h256,
          decode_each-returns,
        )
        depth 20

  decode_list-returns : (d : Bytes) → AccessList.decode c d ≢ panic
  unfolding AccessList.decode
  decode_list-returns d =
      search (results, total.item_count, decode_each-returns, decode_item-returns)

  legacy_unsigned-returns : (d : Bytes) → Legacy.decode_unsigned c d ≢ panic
  unfolding Legacy.decode_unsigned
  legacy_unsigned-returns d =
      search (results, total.item_at, total.decode_u256, total.decode_vec_u8, decode_action-returns)
        depth 60 fits 4000

  legacy-returns : (d : Bytes) → Legacy.decode c d ≢ panic
  unfolding Legacy.decode
  legacy-returns d =
      search
        (
          results, total.item_count, total.item_at, total.decode_u64, total.decode_u256,
          legacy_unsigned-returns,
        )
        depth 60 fits 4000

  eip2930_fields-returns : (d : Bytes) → Eip2930.decode_fields c d ≢ panic
  unfolding Eip2930.decode_fields
  eip2930_fields-returns d =
      search
        (
          results, total.item_at, total.decode_u64, total.decode_u256, total.decode_vec_u8,
          decode_action-returns, decode_list-returns,
        )
        depth 60 fits 4000

  eip1559_fields-returns : (d : Bytes) → Eip1559.decode_fields c d ≢ panic
  unfolding Eip1559.decode_fields
  eip1559_fields-returns d =
      search
        (
          results, total.item_at, total.decode_u64, total.decode_u256, total.decode_vec_u8,
          decode_action-returns, decode_list-returns,
        )
        depth 60 fits 4000

  -- The type byte is looked at where there are two bytes.
  eip2930_unsigned-returns : (d : Bytes) → Eip2930.decode_unsigned c d ≢ panic
  unfolding Eip2930.decode_unsigned
  eip2930_unsigned-returns [] = err-returns DecoderError.rlp_is_too_short
  eip2930_unsigned-returns (b ∷ bs) = search (results, eip2930_fields-returns)

  eip1559_unsigned-returns : (d : Bytes) → Eip1559.decode_unsigned c d ≢ panic
  unfolding Eip1559.decode_unsigned
  eip1559_unsigned-returns [] = err-returns DecoderError.rlp_is_too_short
  eip1559_unsigned-returns (b ∷ bs) = search (results, eip1559_fields-returns)

  eip2930-returns : (d : Bytes) → Eip2930.decode c d ≢ panic
  unfolding Eip2930.decode Eip2930.decode_unsigned
  eip2930-returns [] = err-returns DecoderError.rlp_is_too_short
  eip2930-returns (b ∷ bs) =
      >>=-returns (Eip2930.decode_unsigned c (b ∷ bs)) _ (eip2930_unsigned-returns (b ∷ bs))
        (λ unsigned. search (results, total.item_at, total.decode_u64, total.decode_u256) depth 20)

  eip1559-returns : (d : Bytes) → Eip1559.decode c d ≢ panic
  unfolding Eip1559.decode Eip1559.decode_unsigned
  eip1559-returns [] = err-returns DecoderError.rlp_is_too_short
  eip1559-returns (b ∷ bs) =
      >>=-returns (Eip1559.decode_unsigned c (b ∷ bs)) _ (eip1559_unsigned-returns (b ∷ bs))
        (λ unsigned. search (results, total.item_at, total.decode_u64, total.decode_u256) depth 20)

  decode_typed-returns : (type : TxType) (d : Bytes) → decode_typed c type d ≢ panic
  unfolding decode_typed
  decode_typed-returns type1 d = search (results, eip2930-returns)
  decode_typed-returns type2 d = search (results, eip1559-returns)
  decode_typed-returns _ d = err-returns (DecoderError.custom "unsupported tx version")

  is_typed_transaction-nil : is_typed_transaction c {E = DecoderError} [] ≡ ok false
  unfolding is_typed_transaction
  is_typed_transaction-nil = ground arith

  typed-returns : (b : ℕ) (bs : Bytes) → is_typed_transaction c {E = DecoderError} (b ∷ bs) ≢ panic
  unfolding is_typed_transaction
  typed-returns b bs = search (results)

  -- Whatever the bytes, `decode` returns a transaction or an error and does not panic, if the crate's
  -- own functions do not: no byte is looked at that is not there.
  pub decode-returns : (d : Bytes) → decode c d ≢ panic
  unfolding decode
  decode-returns [] = rw (is_typed_transaction-nil) (
      >>=-returns (Legacy.decode c []) (λ tx. ok (UnverifiedTransactionWrapper.legacy tx))
        (legacy-returns []) (λ tx. ok-returns (UnverifiedTransactionWrapper.legacy tx)))
  decode-returns (b ∷ bs) =
      >>=-returns (is_typed_transaction c (b ∷ bs)) _ (typed-returns b bs)
        (λ typed. search (results, decode_typed-returns, legacy-returns) depth 10)
