-- ===== src/Util.antt =====
-- util/: small crates that the others use.
pub mod Unexpected
pub mod Derive
pub mod Mem
