-- ===== src/Lib.antt =====
-- Verification of the Ethereum transaction and key libraries.
--
-- Parts and files. Paths of the source are from the repository's root.
--
-- - ethkey/src: Ethkey/Signature (signature.rs), Ethkey/Secret (secret.rs), Ethkey/KeyPair
--   (keypair.rs, and `verify_address` of signature.rs), Ethkey/Keccak (keccak.rs), Ethkey/Generator
--   (lib.rs, random.rs, prefix.rs), Ethkey/Password (password.rs) and Ethkey/Error (error.rs). A
--   signature is its 65 bytes, a secret its 32 bytes.
-- - ethcore/transaction/src: Transaction/TxType, Action, Shared, Unverified, Wrapper and Signed
--   (transaction.rs), Transaction/Legacy and Eip155 (transaction/legacy.rs), Transaction/Eip2930 and
--   AccessList (transaction/eip2930.rs), Transaction/Eip1559 (transaction/eip1559.rs),
--   Transaction/Builder (transaction/tx_builders.rs) and Transaction/Error (error.rs).
-- - util/unexpected/src: Util/Unexpected. util/mem/src: Util/Mem.
-- - util/rlp_derive/src: Util/Derive, the statements that the macros generate (en.rs, de.rs), and
--   Util/Derive/Run, what they do; Util/Derive/Entry, the macros (lib.rs). The trees of syn are cut
--   down to what the macros look at.
-- - Crates: the interfaces of the third-party crates rlp, ethereum_types, secp256k1, keccak-hash,
--   tiny-keccak and rustc-hex, as records of operations that the definitions take as a parameter,
--   with records of the documented behaviour (`...Laws`, `RlpReturns`, `RlpRanges`, `RlpZeros`) that
--   theorems take as a hypothesis; `SecpSymmetry` is a property of the curve, and `SecpKeySize` says that
--   a secret key has 32 bytes. Sample has simple functions that meet the laws; the runs in Tests use
--   it. Sample/Wire has the bytes of RLP, for runs on the transactions of the repository's tests (Tests/Vectors, Tests/LongVector).
-- - Base: results, tests on numbers, lists over the native numbers, and lemmas on them.
--
-- How the parts interact. A builder (`Builder.build`) or a caller makes a `TransactionWrapper`.
-- `Wrapper.sign` hashes its serialisation (`rlp_append_unsigned_transaction`), signs the hash with
-- `Ethkey.Signature.sign`, puts the signature into the fields (`Unverified.new_wrapper`; a legacy `v`
-- takes the chain id in, `Eip155.add_chain_replay_protection`), sets the hash and recovers the sender
-- (`Signed.new_signed`). `Unverified.decode` reads the bytes that `rlp_append_sealed_transaction`
-- writes, and `Unverified.verify_basic` checks the signature and the chain id.
--
-- A function has the name of the Rust function. Where one module would have two of a name, a word is
-- added: `new_wrapper`, `new_unverified`, `new_signed` and `new_pending` are constructors named `new`,
-- `decode_unsigned` decodes the transaction without its signature, and `tx_data` is the field `data`.
--
-- How the code is modelled.
--
-- - Numbers are natural numbers. That a `u64`, a `U256` or an array is in range is a hypothesis
--   (`IsU64`, `IsU256`, `IsArray`, and `IsLegacy`, `IsEip1559` and the like of whole transactions).
--   Sums that the code may overflow have the wrap-around of a release build written out; they are
--   modelled once more as a build with overflow checks runs them, where they panic (Eip155/Checked,
--   Wrapper/Checked, Signature/Checked).
-- - An error is a value of `Result`; `unwrap` and `expect` of an error are its third outcome, `panic`.
-- - An `RlpStream` is the sequence of calls made on it. The crate's `out` turns a sequence that is one
--   whole item into bytes, and its decoder reads the items of these bytes back: `RlpLaws`. An `Rlp` is
--   the slice of bytes that it views. A `Keccak` is the slices that it was updated with.
-- - `LocalizedTransaction::sender` changes a cache: the model returns the changed record.
-- - The random number generator is a function from the number of the draw to the drawn key; a
--   generator of key pairs takes and returns the number of draws made. The iterations of a
--   `Prefix`, a `usize` in the code, are any natural number.
-- - Memory (Util/Mem, Ethkey/Password) is the content of each address. A password is the place of its
--   string's bytes; the allocator is a parameter, and a program that makes, copies and drops passwords
--   is a step relation (Ethkey/Password/Life) whose steps get places that no password has. A value
--   stays in place from its creation until it is dropped, and a string has no spare capacity.
-- - The ways in which a program comes by a transaction with a signature are an inductive family
--   (Transaction/Wrapper/Obtained); calls of `sender` one after another are another
--   (Transaction/Signed/Cache).
-- - Loops are over a list or a number of rounds that is given, so that no fuel is needed.
--
-- Not modelled: values that are moved in memory and spare capacity of strings, which are not
-- overwritten on drop; the serialisation of passwords, which is derived; parsing of the macros'
-- input and printing of their output; `invalid_sign`, which exists in test builds only; `LowerHex` and `Debug` of
-- secrets, which forward to a crate's.
pub mod Base
pub mod Crates
pub mod Util
pub mod Ethkey
pub mod Transaction
pub mod Sample
pub mod Tests
