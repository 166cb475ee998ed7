-- ===== src/Transaction/Unverified/Ranges/Kinds.antt =====
-- ethcore/transaction/src: a transaction of each kind that is decoded has fields of their Rust types.
use mm2_parity_ethereum.Base.{
  Bool, not, ◌==◌, if◌then◌else◌, ltb, length, first_byte, skip_byte, Result, err, Bytes, ◌≡◌, ◌≤◌,
  subst, true, false, ok, ◌>>=◌, >>=-eq-ok, ok-injective,
}
use mm2_parity_ethereum.Crates.{Crates}
use mm2_parity_ethereum.Crates.Rlp.{RlpRanges, DecoderError}
use mm2_parity_ethereum.Transaction.TxType.{type1, type2, from_u8, tx_type_eq}
use mm2_parity_ethereum.Transaction.Action as Action
use mm2_parity_ethereum.Transaction.AccessList as AccessList
use mm2_parity_ethereum.Transaction.Legacy as Legacy
use mm2_parity_ethereum.Transaction.Legacy.Codec.{IsLegacy, IsUnverifiedLegacy}
use mm2_parity_ethereum.Transaction.Eip2930 as Eip2930
use mm2_parity_ethereum.Transaction.Eip2930.Codec.{IsEip2930, IsUnverifiedEip2930}
use mm2_parity_ethereum.Transaction.Eip1559 as Eip1559
use mm2_parity_ethereum.Transaction.Eip1559.Codec.{IsEip1559, IsUnverifiedEip1559}
use mm2_parity_ethereum.Transaction.Unverified.Parity.{eip2930-parity, eip1559-parity}
use mm2_parity_ethereum.Transaction.Unverified.Ranges.{
  val_at-IsU64, val_at-IsU256, val_at-All, val_at-IsAction, access_list-All,
}

-- A branch that returns an error is not taken where there is a result.
if-err-eq-ok {ℓ κ} :
    {E : Type ℓ} {A : Type κ} (test : Bool) (reason : E) (rest : Result E A) {a : A}
    → (if test then err reason else rest) ≡ ok a
    → rest ≡ ok a
if-err-eq-ok true reason rest e = cc
if-err-eq-ok false reason rest e = e

module _ (c : Crates) (ranges : RlpRanges c.rlp) where
  decode_unsigned-IsLegacy :
      (d : Bytes) (tx : Legacy.LegacyTransaction) → Legacy.decode_unsigned c d ≡ ok tx → IsLegacy tx
  unfolding Legacy.decode_unsigned
  decode_unsigned-IsLegacy d tx e =
      let (nonce, h0, e1) = >>=-eq-ok (c.item_at d 0 >>= c.decode_u256) _ e in
      let (gas_price, h1, e2) = >>=-eq-ok (c.item_at d 1 >>= c.decode_u256) _ e1 in
      let (gas, h2, e3) = >>=-eq-ok (c.item_at d 2 >>= c.decode_u256) _ e2 in
      let (action, h3, e4) = >>=-eq-ok (c.item_at d 3 >>= Action.decode c) _ e3 in
      let (value, h4, e5) = >>=-eq-ok (c.item_at d 4 >>= c.decode_u256) _ e4 in
      let (tx_data, h5, e6) = >>=-eq-ok (c.item_at d 5 >>= c.decode_vec_u8) _ e5 in
      subst IsLegacy (ok-injective e6) (record {
        nonce = val_at-IsU256 c ranges d 0 nonce h0;
        gas_price = val_at-IsU256 c ranges d 1 gas_price h1;
        gas = val_at-IsU256 c ranges d 2 gas h2;
        action = val_at-IsAction c ranges d 3 action h3;
        value = val_at-IsU256 c ranges d 4 value h4;
        tx_data = val_at-All c ranges d 5 tx_data h5;
      })

  decode_fields-IsEip2930 :
      (d : Bytes) (tx : Eip2930.Eip2930Transaction)
      → Eip2930.decode_fields c d ≡ ok tx
      → IsEip2930 tx
  unfolding Eip2930.decode_fields
  decode_fields-IsEip2930 d tx e =
      let (chain_id, h0, e1) = >>=-eq-ok (c.item_at d 0 >>= c.decode_u64) _ e in
      let (nonce, h1, e2) = >>=-eq-ok (c.item_at d 1 >>= c.decode_u256) _ e1 in
      let (gas_price, h2, e3) = >>=-eq-ok (c.item_at d 2 >>= c.decode_u256) _ e2 in
      let (gas, h3, e4) = >>=-eq-ok (c.item_at d 3 >>= c.decode_u256) _ e3 in
      let (action, h4, e5) = >>=-eq-ok (c.item_at d 4 >>= Action.decode c) _ e4 in
      let (value, h5, e6) = >>=-eq-ok (c.item_at d 5 >>= c.decode_u256) _ e5 in
      let (tx_data, h6, e7) = >>=-eq-ok (c.item_at d 6 >>= c.decode_vec_u8) _ e6 in
      let (access_list, h7, e8) = >>=-eq-ok (c.item_at d 7 >>= AccessList.decode c) _ e7 in
      subst IsEip2930 (ok-injective e8) (record {
        chain_id = val_at-IsU64 c ranges d 0 chain_id h0;
        nonce = val_at-IsU256 c ranges d 1 nonce h1;
        gas_price = val_at-IsU256 c ranges d 2 gas_price h2;
        gas = val_at-IsU256 c ranges d 3 gas h3;
        action = val_at-IsAction c ranges d 4 action h4;
        value = val_at-IsU256 c ranges d 5 value h5;
        tx_data = val_at-All c ranges d 6 tx_data h6;
        access_list = access_list-All c ranges d 7 access_list h7;
      })

  decode_fields-IsEip1559 :
      (d : Bytes) (tx : Eip1559.Eip1559Transaction)
      → Eip1559.decode_fields c d ≡ ok tx
      → IsEip1559 tx
  unfolding Eip1559.decode_fields
  decode_fields-IsEip1559 d tx e =
      let (chain_id, h0, e1) = >>=-eq-ok (c.item_at d 0 >>= c.decode_u64) _ e in
      let (nonce, h1, e2) = >>=-eq-ok (c.item_at d 1 >>= c.decode_u256) _ e1 in
      let (max_priority_fee_per_gas, h2, e3) = >>=-eq-ok (c.item_at d 2 >>= c.decode_u256) _ e2 in
      let (max_fee_per_gas, h3, e4) = >>=-eq-ok (c.item_at d 3 >>= c.decode_u256) _ e3 in
      let (gas, h4, e5) = >>=-eq-ok (c.item_at d 4 >>= c.decode_u256) _ e4 in
      let (action, h5, e6) = >>=-eq-ok (c.item_at d 5 >>= Action.decode c) _ e5 in
      let (value, h6, e7) = >>=-eq-ok (c.item_at d 6 >>= c.decode_u256) _ e6 in
      let (tx_data, h7, e8) = >>=-eq-ok (c.item_at d 7 >>= c.decode_vec_u8) _ e7 in
      let (access_list, h8, e9) = >>=-eq-ok (c.item_at d 8 >>= AccessList.decode c) _ e8 in
      subst IsEip1559 (ok-injective e9) (record {
        chain_id = val_at-IsU64 c ranges d 0 chain_id h0;
        nonce = val_at-IsU256 c ranges d 1 nonce h1;
        max_priority_fee_per_gas = val_at-IsU256 c ranges d 2 max_priority_fee_per_gas h2;
        max_fee_per_gas = val_at-IsU256 c ranges d 3 max_fee_per_gas h3;
        gas = val_at-IsU256 c ranges d 4 gas h4;
        action = val_at-IsAction c ranges d 5 action h5;
        value = val_at-IsU256 c ranges d 6 value h6;
        tx_data = val_at-All c ranges d 7 tx_data h7;
        access_list = access_list-All c ranges d 8 access_list h8;
      })

  pub decode-IsUnverifiedLegacy :
      (d : Bytes) (tx : Legacy.UnverifiedLegacyTransaction)
      → Legacy.decode c d ≡ ok tx
      → IsUnverifiedLegacy tx
  unfolding Legacy.decode
  decode-IsUnverifiedLegacy d tx e =
      let (n, _, e1) = >>=-eq-ok (c.item_count d) _ e in
      let e2 = if-err-eq-ok (not (n == 9)) DecoderError.rlp_incorrect_list_len _ e1 in
      let (unsigned, h, e3) = >>=-eq-ok (Legacy.decode_unsigned c d) _ e2 in
      let (network_v, hv, e4) = >>=-eq-ok (c.item_at d 6 >>= c.decode_u64) _ e3 in
      let (r, hr, e5) = >>=-eq-ok (c.item_at d 7 >>= c.decode_u256) _ e4 in
      let (s, hs, e6) = >>=-eq-ok (c.item_at d 8 >>= c.decode_u256) _ e5 in
      subst IsUnverifiedLegacy (ok-injective e6) (record {
        unsigned = decode_unsigned-IsLegacy d unsigned h;
        network_v = val_at-IsU64 c ranges d 6 network_v hv;
        r = val_at-IsU256 c ranges d 7 r hr;
        s = val_at-IsU256 c ranges d 8 s hs;
      })

  decode_unsigned-IsEip2930 :
      (d : Bytes) (tx : Eip2930.Eip2930Transaction)
      → Eip2930.decode_unsigned c d ≡ ok tx
      → IsEip2930 tx
  unfolding Eip2930.decode_unsigned
  decode_unsigned-IsEip2930 d tx e =
      let e1 = if-err-eq-ok (ltb (length d) 2) DecoderError.rlp_is_too_short _ e in
      let (version, _, e2) = >>=-eq-ok (first_byte d) _ e1 in
      let e3 =
        if-err-eq-ok (not (tx_type_eq (from_u8 version) type1))
          (DecoderError.custom "bad tx version") _ e2 in
      let (fields, _, e4) = >>=-eq-ok (skip_byte d) _ e3 in decode_fields-IsEip2930 fields tx e4

  pub decode-IsUnverifiedEip2930 :
      (d : Bytes) (tx : Eip2930.UnverifiedEip2930Transaction)
      → Eip2930.decode c d ≡ ok tx
      → IsUnverifiedEip2930 tx
  unfolding Eip2930.decode Eip2930.payload_size
  decode-IsUnverifiedEip2930 d tx e =
      let (unsigned, h, e1) = >>=-eq-ok (Eip2930.decode_unsigned c d) _ e in
      let (fields, _, e2) = >>=-eq-ok (skip_byte d) _ e1 in
      let (v, _, e3) = >>=-eq-ok (c.item_at fields 8 >>= c.decode_u64) _ e2 in
      let e4 =
        if-err-eq-ok (not (Eip2930.validate_v v)) (DecoderError.custom "invalid sig v") _ e3 in
      let (r, hr, e5) = >>=-eq-ok (c.item_at fields 9 >>= c.decode_u256) _ e4 in
      let (s, hs, e6) = >>=-eq-ok (c.item_at fields 10 >>= c.decode_u256) _ e5 in
      subst (λ (t : Eip2930.UnverifiedEip2930Transaction). t.v ≤ 1 → IsUnverifiedEip2930 t)
        (ok-injective e6)
        (λ parity. record {
          unsigned = decode_unsigned-IsEip2930 d unsigned h;
          v = parity;
          r = val_at-IsU256 c ranges fields 9 r hr;
          s = val_at-IsU256 c ranges fields 10 s hs;
        })
        (eip2930-parity c d tx e)

  decode_unsigned-IsEip1559 :
      (d : Bytes) (tx : Eip1559.Eip1559Transaction)
      → Eip1559.decode_unsigned c d ≡ ok tx
      → IsEip1559 tx
  unfolding Eip1559.decode_unsigned
  decode_unsigned-IsEip1559 d tx e =
      let e1 = if-err-eq-ok (ltb (length d) 2) DecoderError.rlp_is_too_short _ e in
      let (version, _, e2) = >>=-eq-ok (first_byte d) _ e1 in
      let e3 =
        if-err-eq-ok (not (tx_type_eq (from_u8 version) type2))
          (DecoderError.custom "bad tx version") _ e2 in
      let (fields, _, e4) = >>=-eq-ok (skip_byte d) _ e3 in decode_fields-IsEip1559 fields tx e4

  pub decode-IsUnverifiedEip1559 :
      (d : Bytes) (tx : Eip1559.UnverifiedEip1559Transaction)
      → Eip1559.decode c d ≡ ok tx
      → IsUnverifiedEip1559 tx
  unfolding Eip1559.decode Eip1559.payload_size
  decode-IsUnverifiedEip1559 d tx e =
      let (unsigned, h, e1) = >>=-eq-ok (Eip1559.decode_unsigned c d) _ e in
      let (fields, _, e2) = >>=-eq-ok (skip_byte d) _ e1 in
      let (v, _, e3) = >>=-eq-ok (c.item_at fields 9 >>= c.decode_u64) _ e2 in
      let e4 =
        if-err-eq-ok (not (Eip1559.validate_v v)) (DecoderError.custom "invalid sig v") _ e3 in
      let (r, hr, e5) = >>=-eq-ok (c.item_at fields 10 >>= c.decode_u256) _ e4 in
      let (s, hs, e6) = >>=-eq-ok (c.item_at fields 11 >>= c.decode_u256) _ e5 in
      subst (λ (t : Eip1559.UnverifiedEip1559Transaction). t.v ≤ 1 → IsUnverifiedEip1559 t)
        (ok-injective e6)
        (λ parity. record {
          unsigned = decode_unsigned-IsEip1559 d unsigned h;
          v = parity;
          r = val_at-IsU256 c ranges fields 10 r hr;
          s = val_at-IsU256 c ranges fields 11 s hs;
        })
        (eip1559-parity c d tx e)
