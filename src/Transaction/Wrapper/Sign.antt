-- ===== src/Transaction/Wrapper/Sign.antt =====
-- ethcore/transaction/src/transaction.rs: signing a transaction, and recovering who signed it.
use mm2_parity_ethereum.Base.{
  Bytes, IsArray, ℕ, ◌≤◌, ◌<◌, ◌≡◌, refl, ◌∙◌, Option, some, ok, ◌++◌, ◌∷◌, [],
}
use mm2_parity_ethereum.Crates.{Crates, CratesLaws}
use mm2_parity_ethereum.Ethkey.KeyPair.{public_to_address}
use mm2_parity_ethereum.Ethkey.Signature as Signature
use mm2_parity_ethereum.Ethkey.Signature.Laws.{IsSignature, r-IsArray}
use mm2_parity_ethereum.Ethkey.Signature.Recovery.{
  public_bytes, compact, rec_id, sign_lem, recover-sign, v-sign, sign-IsSignature, r-sign,
}
use mm2_parity_ethereum.Transaction.Legacy as Legacy
use mm2_parity_ethereum.Transaction.Eip2930 as Eip2930
use mm2_parity_ethereum.Transaction.Eip1559 as Eip1559
use mm2_parity_ethereum.Transaction.Unverified.{
  TransactionWrapper, UnverifiedTransactionWrapper, chain_id_from_v, recover_public,
}
use mm2_parity_ethereum.Transaction.Signed.{SignedTransaction, new_signed}
use mm2_parity_ethereum.Transaction.Wrapper.{message_hash, sign}
use mm2_parity_ethereum.Transaction.Wrapper.Given.{with_signature-made, recover_public-made}
use mm2_parity_ethereum.Transaction.Wrapper.Sealed.{
  IsReplaySafe, held_chain_id, result, result-signed, result-chain_id_from_v,
}

module _ (c : Crates) (laws : CratesLaws c) (tx : TransactionWrapper) (secret : Bytes)
    (chain_id : Option ℕ) (valid : c.secret_key_from_slice secret ≡ ok secret) where
  abbrev pub hash : Bytes
  hash = message_hash c tx chain_id

  pub hash-IsArray : IsArray 32 hash
  unfolding message_hash Legacy.message_hash Eip2930.message_hash Eip1559.message_hash
  hash-IsArray = go tx
    where
      go : (t : TransactionWrapper) → IsArray 32 (message_hash c t chain_id)
      go (TransactionWrapper.legacy t) = laws.keccak-IsArray _
      go (TransactionWrapper.eip2930 t) = laws.keccak-IsArray _
      go (TransactionWrapper.eip1559 t) = laws.keccak-IsArray _

  abbrev pub sig : Bytes
  sig =
      compact c laws hash secret hash-IsArray valid
      ++ rec_id c laws hash secret hash-IsArray valid ∷ []

  abbrev pub sender_key : Bytes
  sender_key = public_bytes (c.public_key_from_secret secret)

  abbrev pub r_value : ℕ
  r_value = c.u256_from_bytes (Signature.r sig)

  abbrev pub s_value : ℕ
  s_value = c.u256_from_bytes (Signature.s sig)

  pub sig-IsSignature : IsSignature sig
  sig-IsSignature = sign-IsSignature c laws hash secret hash-IsArray valid

  pub r_value-pos : 0 < r_value
  r_value-pos =
      rw (laws.types_laws.u256_from_bytes_lem (Signature.r sig) (r-IsArray sig sig-IsSignature))
        (r-sign c laws hash secret hash-IsArray valid)

  module _ (parity : (c.sign_recoverable (message_hash c tx chain_id) secret).0 ≤ 1)
      (safe : IsReplaySafe tx chain_id) where
    abbrev pub rec : ℕ
    rec = rec_id c laws hash secret hash-IsArray valid

    abbrev pub made : UnverifiedTransactionWrapper
    made = result c r_value s_value rec (c.h256_from_low_u64_ne 0) parity tx chain_id

    last : Signature.v sig ≡ rec
    last = v-sign c laws hash secret hash-IsArray valid

    recover_public-sign : recover_public c made ≡ ok sender_key
    recover_public-sign =
        recover_public-made c laws tx chain_id sig sig-IsSignature rec last parity safe r_value-pos
        ∙ recover-sign c laws hash secret hash-IsArray valid

    abbrev pub signed : SignedTransaction
    signed = record {
      transaction = made;
      sender = public_to_address c sender_key;
      public = some sender_key;
    }

    pub new_signed-made : new_signed c made ≡ ok signed
    unfolding new_signed
    new_signed-made = rw (
      result-signed c r_value s_value rec (c.h256_from_low_u64_ne 0) parity tx chain_id r_value-pos,
      recover_public-sign,
    )

    pub sign-made : sign c tx secret chain_id ≡ ok signed
    unfolding sign
    sign-made = rw (
      sign_lem c laws hash secret hash-IsArray valid,
      with_signature-made c laws tx chain_id sig sig-IsSignature rec last parity,
      new_signed-made,
    )

    -- A transaction of any kind signed with a valid key, where the recovery id of the signature is a
    -- parity and the chain id suits a legacy `v` (none, or from 1 on with no wrap), is accepted: its
    -- sender is the address of the key's public key, which it keeps, and a legacy one holds in `v` the
    -- chain id it was signed for.
    pub sign-recovers :
        (signed : SignedTransaction) × (sign c tx secret chain_id ≡ ok signed)
        × (signed.sender ≡ public_to_address c sender_key)
        × (signed.public ≡ some sender_key)
        × (chain_id_from_v signed.transaction ≡ held_chain_id tx chain_id)
    sign-recovers = (
      signed,
      sign-made,
      refl,
      refl,
      result-chain_id_from_v c r_value s_value rec (c.h256_from_low_u64_ne 0) parity tx chain_id
          r_value-pos safe,
    )
