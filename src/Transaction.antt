-- ===== src/Transaction.antt =====
-- ethcore/transaction/: the three kinds of Ethereum transaction, their encodings and signatures.
pub mod TxType
pub mod Action
pub mod AccessList
pub mod Error
pub mod Eip155
pub mod Legacy
pub mod Eip2930
pub mod Eip1559
pub mod Shared
pub mod Unverified
pub mod Wrapper
pub mod Signed
pub mod Builder
