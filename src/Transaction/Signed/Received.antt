-- ===== src/Transaction/Signed/Received.antt =====
-- ethcore/transaction/src/transaction.rs: what is known of a transaction that came as bytes and passed
-- every check.
use mm2_parity_ethereum.Base.{
  Bytes, ℕ, ◌≡◌, ◌≤◌, refl, ◌⊎◌, inl, inr, true, false, Option, none, ok,
}
use mm2_parity_ethereum.Crates.{Crates, CratesLaws}
use mm2_parity_ethereum.Crates.Rlp.{RlpRanges}
use mm2_parity_ethereum.Crates.Types.{be_value}
use mm2_parity_ethereum.Ethkey.Error as EthkeyError
use mm2_parity_ethereum.Ethkey.KeyPair.{verify_address}
use mm2_parity_ethereum.Ethkey.Signature.{Signature, half_order}
use mm2_parity_ethereum.Transaction.Unverified.{
  UnverifiedTransactionWrapper, decode, verify_basic, is_unsigned, chain_id_from_v, s, tx_hash,
  signature,
}
use mm2_parity_ethereum.Transaction.Unverified.Canonical.{decode-IsUnverified}
use mm2_parity_ethereum.Transaction.Unverified.Hashes.{decode_lem}
use mm2_parity_ethereum.Transaction.Unverified.Parts.{signature_lem}
use mm2_parity_ethereum.Transaction.Unverified.Verify.{verify_basic_iff}
use mm2_parity_ethereum.Transaction.Signed.{SignedTransaction, new_signed}
use mm2_parity_ethereum.Transaction.Signed.Address.{signed_hash, verify_address-new_signed}

-- Whatever the bytes, if the values that the crate reads are of their Rust types: a transaction that
-- they decode to, that passes `verify_basic` with the test for a low `s` and no null signature allowed,
-- and whose sender is recovered, has the hash of the bytes, a signature that is not null and has a low
-- `s`, and in `v` the given chain id or none; and its signature of the hash that was signed verifies
-- against the sender.
pub new_signed-decode :
    (c : Crates) (laws : CratesLaws c) (ranges : RlpRanges c.rlp) (d : Bytes)
    (tx : UnverifiedTransactionWrapper) (chain_id : Option ℕ) (signed : SignedTransaction)
    → decode c d ≡ ok tx
    → verify_basic c tx true chain_id false ≡ ok tt
    → new_signed c tx ≡ ok signed
    → (tx_hash tx ≡ c.keccak d)
      × (is_unsigned tx ≡ false)
      × (s tx ≤ be_value half_order)
      × ((chain_id_from_v tx ≡ none) ⊎ (chain_id_from_v tx ≡ chain_id))
      × ((sig : Signature) × (signature c {E = EthkeyError.Error} tx ≡ ok sig)
          × (verify_address c signed.sender sig (signed_hash c tx) ≡ ok true))
new_signed-decode c laws ranges d tx chain_id signed decoded passed recovered =
    let valid = decode-IsUnverified c ranges d tx decoded in
    let (not_null, low, chain) = (verify_basic_iff c laws tx valid true chain_id false).0 passed in
    let is_signed : is_unsigned tx ≡ false = elim not_null [ inl h ↦ h | inr h ↦ cc ] in
    let is_low : s tx ≤ be_value half_order = elim low [
      | inl h ↦ cc
      | inr (inl h) ↦ cc
      | inr (inr h) ↦ h
    ] in
    let spelled = signature_lem {E = EthkeyError.Error} c tx valid in
    (
      (decode_lem c d tx decoded).0,
      is_signed,
      is_low,
      chain,
      (
        _,
        spelled,
        (verify_address-new_signed c tx _ signed.sender is_signed spelled).1
            (signed, recovered, refl),
      ),
    )
