-- ===== src/Tests.antt =====
-- Runs of the definitions, and the theorems at concrete inputs.
pub mod Inputs
mod Ethkey
mod Passwords
mod Vectors
mod LongVector
mod Codec
mod Signing
mod Verifying
mod Building
mod Deriving
mod Generators
mod Refusals
mod Receiving
