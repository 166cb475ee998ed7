-- ===== src/Transaction/Wrapper/Preimage.antt =====
-- ethcore/transaction/src/transaction.rs: the bytes under the message hash of each kind of
-- transaction.
use mm2_parity_ethereum.Base.{Bytes, ℕ, ◌≤◌, ◌≡◌, refl, sym, ap, ◌∙◌, Option, ◌∷◌, arith, get_or}
use mm2_parity_ethereum.Crates.{Crates}
use mm2_parity_ethereum.Crates.Rlp.{RlpLaws}
use mm2_parity_ethereum.Crates.Rlp.Tree.{nil}
use mm2_parity_ethereum.Crates.Rlp.Stream.{RlpStream, new}
use mm2_parity_ethereum.Transaction.Legacy as Legacy
use mm2_parity_ethereum.Transaction.Legacy.Codec as LegacyCodec
use mm2_parity_ethereum.Transaction.Eip2930 as Eip2930
use mm2_parity_ethereum.Transaction.Eip2930.Codec as Eip2930Codec
use mm2_parity_ethereum.Transaction.Eip1559 as Eip1559
use mm2_parity_ethereum.Transaction.Eip1559.Codec as Eip1559Codec
use mm2_parity_ethereum.Transaction.Unverified.{TransactionWrapper}
use mm2_parity_ethereum.Transaction.Wrapper.{message_hash}
use mm2_parity_ethereum.Transaction.Wrapper.Sealed.{held_chain_id}

-- The ranges of the Rust types.
abbrev pub IsTransaction : TransactionWrapper → Type 0
IsTransaction (TransactionWrapper.legacy tx) = LegacyCodec.IsLegacy tx
IsTransaction (TransactionWrapper.eip2930 tx) = Eip2930Codec.IsEip2930 tx
IsTransaction (TransactionWrapper.eip1559 tx) = Eip1559Codec.IsEip1559 tx

-- What each kind appends before the hash is taken.
abbrev pub unsigned_stream : TransactionWrapper → Option ℕ → RlpStream
unsigned_stream (TransactionWrapper.legacy tx) chain_id =
    Legacy.rlp_append_unsigned_transaction tx chain_id new
unsigned_stream (TransactionWrapper.eip2930 tx) chain_id =
    Eip2930.rlp_append_unsigned_transaction tx new
unsigned_stream (TransactionWrapper.eip1559 tx) chain_id =
    Eip1559.rlp_append_unsigned_transaction tx new

-- The first byte tells the kinds apart.
abbrev IsHead : TransactionWrapper → ℕ → Type 0
IsHead (TransactionWrapper.legacy tx) b = 192 ≤ b
IsHead (TransactionWrapper.eip2930 tx) b = b ≡ 1
IsHead (TransactionWrapper.eip1559 tx) b = b ≡ 2

module _ (c : Crates) (laws : RlpLaws c.rlp) where
  unsigned_stream-IsHead :
      (tx : TransactionWrapper) (chain_id : Option ℕ)
      → IsTransaction tx
      → LegacyCodec.IsChainId chain_id
      → IsHead tx (get_or (c.out (unsigned_stream tx chain_id)) 0 0)
  unsigned_stream-IsHead (TransactionWrapper.legacy tx) chain_id h k =
      let items = LegacyCodec.unsigned_fields-AreItems tx chain_id h k in
      let bytes = LegacyCodec.out-rlp_append_unsigned_transaction c laws tx chain_id h k in
      let (b, bs, e, high) = laws.encode-list (LegacyCodec.unsigned_fields tx chain_id) items in
      omega (arith, ap (λ l. get_or l 0 0) (bytes ∙ e))
  unsigned_stream-IsHead (TransactionWrapper.eip2930 tx) chain_id h k =
      ap (λ l. get_or l 0 0) (Eip2930Codec.out-rlp_append_unsigned_transaction c laws tx h)
  unsigned_stream-IsHead (TransactionWrapper.eip1559 tx) chain_id h k =
      ap (λ l. get_or l 0 0) (Eip1559Codec.out-rlp_append_unsigned_transaction c laws tx h)

  message_hash-keccak :
      (tx : TransactionWrapper) (chain_id : Option ℕ)
      → message_hash c tx chain_id ≡ c.keccak (c.out (unsigned_stream tx chain_id))
  unfolding message_hash Legacy.message_hash Eip2930.message_hash Eip1559.message_hash
  message_hash-keccak (TransactionWrapper.legacy tx) chain_id = refl
  message_hash-keccak _ chain_id = refl

  -- What the EIPs have each kind hashed as: the list of a legacy transaction's fields, with the chain id
  -- and two zeros behind them if there is one, and a type byte before the list of a typed one's fields.
  abbrev pub preimage : TransactionWrapper → Option ℕ → Bytes
  preimage (TransactionWrapper.legacy tx) chain_id =
      laws.encode (LegacyCodec.unsigned_item tx chain_id)
  preimage (TransactionWrapper.eip2930 tx) chain_id =
      1 ∷ laws.encode (Eip2930Codec.unsigned_item tx)
  preimage (TransactionWrapper.eip1559 tx) chain_id =
      2 ∷ laws.encode (Eip1559Codec.unsigned_item tx)

  -- The message hash of a transaction of any kind and of valid fields is the hash of the RLP encoding
  -- of its fields, in the order of the EIPs, behind the type byte of a typed one; a chain id is part of
  -- a legacy one's, with two zeros behind it, and is ignored for a typed one.
  pub message_hash_lem :
      (tx : TransactionWrapper) (chain_id : Option ℕ)
      → IsTransaction tx
      → LegacyCodec.IsChainId chain_id
      → message_hash c tx chain_id ≡ c.keccak (preimage tx chain_id)
  message_hash_lem (TransactionWrapper.legacy tx) chain_id h k =
      message_hash-keccak (TransactionWrapper.legacy tx) chain_id
      ∙ ap c.keccak (LegacyCodec.out-rlp_append_unsigned_transaction c laws tx chain_id h k)
  message_hash_lem (TransactionWrapper.eip2930 tx) chain_id h k =
      message_hash-keccak (TransactionWrapper.eip2930 tx) chain_id
      ∙ ap c.keccak (Eip2930Codec.out-rlp_append_unsigned_transaction c laws tx h)
  message_hash_lem (TransactionWrapper.eip1559 tx) chain_id h k =
      message_hash-keccak (TransactionWrapper.eip1559 tx) chain_id
      ∙ ap c.keccak (Eip1559Codec.out-rlp_append_unsigned_transaction c laws tx h)

  -- Each kind reads its fields back from the bytes.
  legacy-injective :
      (tx tx' : Legacy.LegacyTransaction) (chain_id chain_id' : Option ℕ)
      → LegacyCodec.IsLegacy tx
      → LegacyCodec.IsLegacy tx'
      → LegacyCodec.IsChainId chain_id
      → LegacyCodec.IsChainId chain_id'
      → laws.encode (LegacyCodec.unsigned_item tx chain_id)
        ≡ laws.encode (LegacyCodec.unsigned_item tx' chain_id')
      → (tx ≡ tx') × (chain_id ≡ chain_id')
  legacy-injective tx tx' n n' h h' k k' e =
      let read =
        LegacyCodec.decode_unsigned-fields c laws tx (LegacyCodec.replay_protection n) h
          (LegacyCodec.unsigned_fields-AreItems tx n h k) in
      let read' =
        LegacyCodec.decode_unsigned-fields c laws tx' (LegacyCodec.replay_protection n') h'
          (LegacyCodec.unsigned_fields-AreItems tx' n' h' k') in
      (cc (read, read'), LegacyCodec.encode-unsigned_item-chain_id c laws tx tx' n n' h h' k k' e)

  eip2930-injective :
      (tx tx' : Eip2930.Eip2930Transaction)
      → Eip2930Codec.IsEip2930 tx
      → Eip2930Codec.IsEip2930 tx'
      → ◌≡◌ {A = Bytes}
          (1 ∷ laws.encode (Eip2930Codec.unsigned_item tx))
          (1 ∷ laws.encode (Eip2930Codec.unsigned_item tx'))
      → tx ≡ tx'
  eip2930-injective tx tx' h h' e = cc (
    Eip2930Codec.decode_fields-fields c laws tx nil h (Eip2930Codec.fields-AreItems tx nil h tt),
    Eip2930Codec.decode_fields-fields c laws tx' nil h'
        (Eip2930Codec.fields-AreItems tx' nil h' tt),
  )

  eip1559-injective :
      (tx tx' : Eip1559.Eip1559Transaction)
      → Eip1559Codec.IsEip1559 tx
      → Eip1559Codec.IsEip1559 tx'
      → ◌≡◌ {A = Bytes}
          (2 ∷ laws.encode (Eip1559Codec.unsigned_item tx))
          (2 ∷ laws.encode (Eip1559Codec.unsigned_item tx'))
      → tx ≡ tx'
  eip1559-injective tx tx' h h' e = cc (
    Eip1559Codec.decode_fields-fields c laws tx nil h (Eip1559Codec.fields-AreItems tx nil h tt),
    Eip1559Codec.decode_fields-fields c laws tx' nil h'
        (Eip1559Codec.fields-AreItems tx' nil h' tt),
  )

  -- The bytes under the message hash determine the transaction and a legacy one's chain id.
  unsigned_stream-injective :
      (tx tx' : TransactionWrapper) (chain_id chain_id' : Option ℕ)
      → IsTransaction tx
      → IsTransaction tx'
      → LegacyCodec.IsChainId chain_id
      → LegacyCodec.IsChainId chain_id'
      → c.out (unsigned_stream tx chain_id) ≡ c.out (unsigned_stream tx' chain_id')
      → (tx ≡ tx') × (held_chain_id tx chain_id ≡ held_chain_id tx' chain_id')
  unsigned_stream-injective (TransactionWrapper.legacy tx) (TransactionWrapper.legacy tx') n n' h h'
        k k' e =
      let (same, same_id) = legacy-injective tx tx' n n' h h' k k' (
        sym (LegacyCodec.out-rlp_append_unsigned_transaction c laws tx n h k)
        ∙ e
        ∙ LegacyCodec.out-rlp_append_unsigned_transaction c laws tx' n' h' k') in
      (ap TransactionWrapper.legacy same, same_id)
  unsigned_stream-injective (TransactionWrapper.eip2930 tx) (TransactionWrapper.eip2930 tx') n n' h
        h' k k' e =
      let same = eip2930-injective tx tx' h h' (
        sym (Eip2930Codec.out-rlp_append_unsigned_transaction c laws tx h)
        ∙ e
        ∙ Eip2930Codec.out-rlp_append_unsigned_transaction c laws tx' h') in
      (ap TransactionWrapper.eip2930 same, refl)
  unsigned_stream-injective (TransactionWrapper.eip1559 tx) (TransactionWrapper.eip1559 tx') n n' h
        h' k k' e =
      let same = eip1559-injective tx tx' h h' (
        sym (Eip1559Codec.out-rlp_append_unsigned_transaction c laws tx h)
        ∙ e
        ∙ Eip1559Codec.out-rlp_append_unsigned_transaction c laws tx' h') in
      (ap TransactionWrapper.eip1559 same, refl)
  unsigned_stream-injective tx tx' n n' h h' k k' e = absurd (
      omega (
        arith,
        unsigned_stream-IsHead tx n h k,
        unsigned_stream-IsHead tx' n' h' k',
        ap (λ l. get_or l 0 0) e,
      ))

  -- Two transactions of any kinds, of valid fields, have the same message hash only if they are the
  -- same and, being legacy transactions, were hashed for the same chain id, unless the hash function
  -- collides on the bytes that the two are hashed as.
  pub message_hash-injective :
      (tx tx' : TransactionWrapper) (chain_id chain_id' : Option ℕ)
      → IsTransaction tx
      → IsTransaction tx'
      → LegacyCodec.IsChainId chain_id
      → LegacyCodec.IsChainId chain_id'
      → (c.keccak (c.out (unsigned_stream tx chain_id))
            ≡ c.keccak (c.out (unsigned_stream tx' chain_id'))
          → c.out (unsigned_stream tx chain_id) ≡ c.out (unsigned_stream tx' chain_id'))
      → message_hash c tx chain_id ≡ message_hash c tx' chain_id'
      → (tx ≡ tx') × (held_chain_id tx chain_id ≡ held_chain_id tx' chain_id')
  message_hash-injective tx tx' n n' h h' k k' no_collision e =
      unsigned_stream-injective tx tx' n n' h h' k k'
        (no_collision (sym (message_hash-keccak tx n) ∙ e ∙ message_hash-keccak tx' n'))
