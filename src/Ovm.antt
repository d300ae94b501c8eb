-- ===== src/Ovm.antt =====
-- packages/ovm: properties and the deciders that evaluate them.
pub mod Types
pub mod Quantifiers
pub mod Ranges
pub mod Loops
pub mod Deciders
pub mod Semantics
pub mod Combining
pub mod Quantifying
pub mod Soundness
pub mod Kleene
pub mod Agreement
pub mod MerkleInclusion
pub mod Databases
mod Examples
