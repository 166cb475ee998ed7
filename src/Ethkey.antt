-- ===== src/Ethkey.antt =====
-- ethkey/: secrets, key pairs, signatures.
pub mod Error
pub mod Signature
pub mod Secret
pub mod Keccak
pub mod Password
pub mod KeyPair
pub mod Generator
