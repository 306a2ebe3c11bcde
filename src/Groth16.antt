-- ===== src/Groth16.antt =====
-- The crate `groth16-verify`: a module for each of its source files.
pub mod Constants
pub mod Errors
pub mod Tag
pub mod Scalar
pub mod Proof
pub mod VerifyingKey
pub mod Syscall
pub mod Curve
pub mod Validation
pub mod Verifier
pub mod State
pub mod Instruction
