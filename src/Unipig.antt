-- ===== src/Unipig.antt =====
-- packages/unipig: the rollup's data, its state machine and the submission of its blocks.
pub mod Types
pub mod Keys
pub mod Effects
pub mod Machine
pub mod Submitter
pub mod Validator
pub mod Aggregator
