-- ===== src/Tests.antt =====
-- Concrete inputs for the theorems of the library.
pub mod Parity
pub mod Verifier
pub mod Cluster
pub mod Registry
pub mod Session
pub mod Returns
pub mod Examples
pub mod Layouts
pub mod Stages
pub mod Toy
pub mod Convert
pub mod ToyGroup
