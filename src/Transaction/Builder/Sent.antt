-- ===== src/Transaction/Builder/Sent.antt =====
-- ethcore/transaction/src: a transaction from the builder to the one that receives its bytes.
use mm2_parity_ethereum.Base.{
  Bytes, IsByte, IsU64, IsU256, All, ℕ, ◌≤◌, ◌≡◌, refl, subst, ap, sym, true, false, Option, none,
  some, ok, ◌⊎◌, ◌∙◌, inl, inr, ok-injective, >>=-eq-ok,
}
use mm2_parity_ethereum.Crates.{Crates, CratesLaws}
use mm2_parity_ethereum.Crates.Rlp.Stream as Stream
use mm2_parity_ethereum.Ethkey.KeyPair.Laws.{from_secret_lem}
use mm2_parity_ethereum.Ethkey.KeyPair.{KeyPair, from_secret, address, public_to_address}
use mm2_parity_ethereum.Transaction.TxType.{TxType, legacy, type1, type2, invalid}
use mm2_parity_ethereum.Transaction.Action.Codec.{IsAction}
use mm2_parity_ethereum.Transaction.AccessList.{AccessList}
use mm2_parity_ethereum.Transaction.AccessList.Codec.{IsAccessListItem}
use mm2_parity_ethereum.Transaction.Unverified.{TransactionWrapper, decode, verify_basic}
use mm2_parity_ethereum.Transaction.Signed.{SignedTransaction, new_signed, rlp_append}
use mm2_parity_ethereum.Transaction.Wrapper.{message_hash, sign}
use mm2_parity_ethereum.Transaction.Wrapper.Preimage.{IsTransaction}
use mm2_parity_ethereum.Transaction.Wrapper.Sealed.{IsReplaySafe, held_chain_id}
use mm2_parity_ethereum.Transaction.Wrapper.Sign.{sign-recovers}
use mm2_parity_ethereum.Transaction.Wrapper.Transmit.{decode-sign}
use mm2_parity_ethereum.Transaction.Wrapper.Accepted.{verify_basic-sign}
use mm2_parity_ethereum.Transaction.Builder.{
  TransactionWrapperBuilder, TxBuilderError, ok_or, access_list_or_default, build, build_as,
  no_gas_price_set, no_chain_id_set, no_fee_per_gas_set,
}

-- What is set is in range.
abbrev pub IsUnsetOr {ℓ} : {A : Type ℓ} → (A → Type 0) → Option A → Type 0
IsUnsetOr P none = Unit
IsUnsetOr P (some a) = P a

-- The ranges of the Rust types.
pub record IsBuilder (b : TransactionWrapperBuilder) : Type 0 where
  pub chain_id : IsUnsetOr IsU64 b.chain_id
  pub nonce : IsU256 b.nonce
  pub gas_price : IsUnsetOr IsU256 b.gas_price
  pub max_fee_per_gas : IsUnsetOr IsU256 b.max_fee_per_gas
  pub max_priority_fee_per_gas : IsUnsetOr IsU256 b.max_priority_fee_per_gas
  pub gas : IsU256 b.gas
  pub action : IsAction b.action
  pub value : IsU256 b.value
  pub tx_data : All IsByte b.tx_data
  pub access_list : IsUnsetOr (All IsAccessListItem) b.access_list

ok_or-IsUnsetOr {ℓ} :
    {A : Type ℓ} (P : A → Type 0) (o : Option A) (e : TxBuilderError) (a : A)
    → IsUnsetOr P o
    → ok_or o e ≡ ok a
    → P a
ok_or-IsUnsetOr P none e a h set = cc
ok_or-IsUnsetOr P (some b) e a h set = let same : b ≡ a = cc in subst P same h

access_list_or_default-IsUnsetOr :
    (o : Option AccessList)
    → IsUnsetOr (All IsAccessListItem) o
    → All IsAccessListItem (access_list_or_default o)
unfolding access_list_or_default
access_list_or_default-IsUnsetOr none h = tt
access_list_or_default-IsUnsetOr (some xs) h = h

module _ (b : TransactionWrapperBuilder) (h : IsBuilder b) (tx : TransactionWrapper) where
  build_as-IsTransaction : (type : TxType) → build_as type b ≡ ok tx → IsTransaction tx
  unfolding build_as
  build_as-IsTransaction legacy e =
      let (p, set_p, made) = >>=-eq-ok (ok_or b.gas_price no_gas_price_set) _ e in
      subst IsTransaction (ok-injective made) (record {
        nonce = h.nonce;
        gas_price = ok_or-IsUnsetOr IsU256 b.gas_price no_gas_price_set p h.gas_price set_p;
        gas = h.gas;
        action = h.action;
        value = h.value;
        tx_data = h.tx_data;
      })
  build_as-IsTransaction type1 e =
      let (i, set_i, rest) = >>=-eq-ok (ok_or b.chain_id no_chain_id_set) _ e in
      let (p, set_p, made) = >>=-eq-ok (ok_or b.gas_price no_gas_price_set) _ rest in
      subst IsTransaction (ok-injective made) (record {
        chain_id = ok_or-IsUnsetOr IsU64 b.chain_id no_chain_id_set i h.chain_id set_i;
        nonce = h.nonce;
        gas_price = ok_or-IsUnsetOr IsU256 b.gas_price no_gas_price_set p h.gas_price set_p;
        gas = h.gas;
        action = h.action;
        value = h.value;
        tx_data = h.tx_data;
        access_list = access_list_or_default-IsUnsetOr b.access_list h.access_list;
      })
  build_as-IsTransaction type2 e =
      let (i, set_i, rest) = >>=-eq-ok (ok_or b.chain_id no_chain_id_set) _ e in
      let (m, set_m, rest') = >>=-eq-ok (ok_or b.max_fee_per_gas no_fee_per_gas_set) _ rest in
      let (p, set_p, made) =
        >>=-eq-ok (ok_or b.max_priority_fee_per_gas no_fee_per_gas_set) _ rest' in
      let h_m =
        ok_or-IsUnsetOr IsU256 b.max_fee_per_gas no_fee_per_gas_set m h.max_fee_per_gas set_m in
      let h_p =
        ok_or-IsUnsetOr IsU256 b.max_priority_fee_per_gas no_fee_per_gas_set p
          h.max_priority_fee_per_gas set_p in
      subst IsTransaction (ok-injective made) (record {
        chain_id = ok_or-IsUnsetOr IsU64 b.chain_id no_chain_id_set i h.chain_id set_i;
        nonce = h.nonce;
        max_fee_per_gas = h_m;
        max_priority_fee_per_gas = h_p;
        gas = h.gas;
        action = h.action;
        value = h.value;
        tx_data = h.tx_data;
        access_list = access_list_or_default-IsUnsetOr b.access_list h.access_list;
      })
  build_as-IsTransaction invalid e = cc

  -- A transaction that is built of values in range has its own in range.
  build-IsTransaction : build b ≡ ok tx → IsTransaction tx
  unfolding build
  build-IsTransaction e = build_as-IsTransaction b.tx_type e

-- The chain id that a signed transaction holds is the one it is signed for.
held_chain_id-own :
    (tx : TransactionWrapper) (chain_id : Option ℕ)
    → (held_chain_id tx chain_id ≡ none) ⊎ (held_chain_id tx chain_id ≡ chain_id)
held_chain_id-own (TransactionWrapper.legacy tx) chain_id = inr refl
held_chain_id-own (TransactionWrapper.eip2930 tx) chain_id = inl refl
held_chain_id-own (TransactionWrapper.eip1559 tx) chain_id = inl refl

address-from_secret :
    (c : Crates) (pair : KeyPair) (public : Bytes)
    → pair.public ≡ public
    → address c pair ≡ public_to_address c public
unfolding address
address-from_secret c pair public e = ap (public_to_address c) e

-- What the receiver of the bytes of a signed transaction makes of them.
abbrev pub IsReceived : Crates → SignedTransaction → Option ℕ → Bytes → Type 0
IsReceived c signed chain_id account =
    (decode c (c.out (rlp_append signed Stream.new)) ≡ ok signed.transaction)
    × (verify_basic c signed.transaction true chain_id false ≡ ok tt)
    × (new_signed c signed.transaction ≡ ok signed)
    × (signed.sender ≡ account)

-- A transaction of any type that is built of values in range and signed with a key pair, where the
-- recovery id of the signature is a parity and the chain id suits a legacy `v`, is received as it was
-- sent: its bytes decode to it, it passes `verify_basic` with the test for a low `s` and for the chain
-- id, no null signature allowed, and the sender that is recovered is the key pair's address.
pub sign-build :
    (c : Crates) (laws : CratesLaws c) (b : TransactionWrapperBuilder) (tx : TransactionWrapper)
    (secret : Bytes) (pair : KeyPair) (chain_id : Option ℕ)
    → IsBuilder b
    → build b ≡ ok tx
    → from_secret c secret ≡ ok pair
    → (c.sign_recoverable (message_hash c tx chain_id) secret).0 ≤ 1
    → IsReplaySafe tx chain_id
    → (signed : SignedTransaction) × (sign c tx secret chain_id ≡ ok signed)
      × IsReceived c signed chain_id (address c pair)
sign-build c laws b tx secret pair chain_id ranges built paired parity safe =
    let (valid, _, key) = from_secret_lem c laws secret pair paired in
    let h = build-IsTransaction b ranges tx built in
    let (signed, signs, decoded, recovered) =
      decode-sign c laws tx secret chain_id valid parity safe h in
    let (other, signs', account, _, _) =
      sign-recovers c laws tx secret chain_id valid parity safe in
    let (third, signs'', (_, accept)) =
      verify_basic-sign c laws tx secret chain_id valid parity safe true false chain_id h in
    let same : other ≡ signed = ok-injective (sym signs' ∙ signs) in
    let same' : third ≡ signed = ok-injective (sym signs'' ∙ signs) in
    let passes : verify_basic c third.transaction true chain_id false ≡ ok tt =
      accept (held_chain_id-own tx chain_id) in
    (
      signed,
      signs,
      (
        decoded,
        subst (λ (t : SignedTransaction). verify_basic c t.transaction true chain_id false ≡ ok tt)
            same' passes,
        recovered,
        ap (λ (t : SignedTransaction). t.sender) (sym same)
            ∙ account
            ∙ sym (address-from_secret c pair _ key),
      ),
    )
