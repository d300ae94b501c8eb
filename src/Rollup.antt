-- ===== src/Rollup.antt =====
-- packages/rollup-aggregator, with the types of packages/rollup-core
pub mod BlockBuilder
