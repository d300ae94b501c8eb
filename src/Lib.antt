-- ===== src/Lib.antt =====
-- Verification of the rollup, OVM and range code of the plasma-group monorepo. All paths are from
-- the repository's root.
--
-- Ovm models packages/ovm: a property is a decider with an input, and a decider decides whether it
-- holds, fails, or cannot be decided. Types and Deciders have the data and the evaluation `decide`
-- (the `decide` methods of packages/ovm/src/app/deciders), Loops has the loops and results of the
-- single deciders, Quantifiers has packages/ovm/src/app/quantifiers/integer-quantifiers.ts.
-- Deciders and quantifiers that read databases or check signatures are a parameter, the
-- environment. `decide` is recursion on the property, so it needs no fuel. Semantics says when a
-- property holds. Databases has packages/ovm/src/app/db with the deciders and the quantifier that
-- read them; it fills the environment. MerkleInclusion has the decider of inclusion proofs, over
-- CoreDb/MerkleTree.
--
-- CoreDb models packages/core-db: CoreDb/Range and CoreDb/BlockRanges have the functions and the
-- block ranges of packages/core-db/src/app/utils/range.ts. Their `BigNumber`s are natural numbers;
-- the sort of the block ranges throws where two starts that it compares are 2 ^ 53 or more apart (JavaScript leaves open which ones it compares; the model compares those of an insertion sort).
-- CoreDb/MerkleTree has packages/core-db/src/app/block-production/merkle-tree.ts with the hash
-- function and the IDs of nodes as parameters; IDs are hashes, and are taken to be different for
-- different nodes: Data and Nodes below it have the nodes, their paths and the database, and
-- CoreDb/MerkleTree itself the operations. Its getMerkleProof is modelled up to the answer under
-- the lock, without the second attempt for an empty leaf. CoreDb/RangeBucket has
-- packages/core-db/src/app/range-bucket.ts: its store is the part of the key-value store under the
-- bucket's prefix, in the order of the keys.
--
-- Unipig models packages/unipig. Types has packages/unipig/src/types. Keys has the address keys and
-- Machine has the transactions of packages/unipig/src/common/rollup-state-machine.ts; Effects has
-- the state of that machine, the parameters that stand for the sparse Merkle tree, the ABI
-- encoding, the recovery of a signer and JavaScript's arithmetic, and the actions that change the
-- state and may throw. Machine/Payments and Machine/Swaps have what its transfers and swaps do. Submitter has packages/unipig/src/aggregator/rollup-block-submitter.ts.
-- Aggregator has packages/unipig/src/aggregator/rollup-aggregator.ts over the submitter and an
-- interface of the state machine: Data its fields and transitions, Pending the pending block, and
-- Aggregator itself the requests and the start. Validator has
-- packages/unipig/src/validator/rollup-state-validator.ts with the block of validator/types.ts; the
-- rollup state machine, the ABI encoding and the tree of a block are parameters there. The machine
-- stores each account's balances in the tree, under the key that Keys gives its address; the
-- aggregator applies transactions to its machine, adds their transitions to the pending block and
-- hands full blocks to the submitter; the submitter queues the blocks of transitions and sends them
-- to the contract one at a time; the validator applies the transitions of a block to a machine of
-- its own and compares the state roots.
--
-- Rollup models packages/rollup-aggregator/src/app/block-builder.ts with the types of
-- packages/rollup-core/src/types/types.ts: BlockBuilder/Data has the state and the parameters,
-- among them the sparse Merkle trees and the block submitter, BlockBuilder/Storage the storage of
-- the contracts, and BlockBuilder itself the calls. A transaction result is added to the pending
-- block; a block that is full, or old enough, is built and handed to the submitter. The trees use the
-- builder's database: their nodes are in the state of the trees, and the modelled database has the
-- builder's own entries.
--
-- Bounds: the search for an open key gets as fuel the number of keys from the last open key to the
-- maximum, and one more; each step of the loop raises the key, so that the fuel lasts
-- (Keys.Numbering). The range of a balance in the tree, a uint32, is the
-- encoding's, a parameter. Whole numbers are integers of any size.
--
-- Not modelled: interleavings of concurrent calls (each call runs to its end, as under the lock of
-- the state machine), log messages, ABI texts, HTTP servers, leveldb, wallets and the Solidity
-- contracts.
pub mod Prelude
pub mod CoreDb
pub mod Ovm
pub mod Rollup
pub mod Unipig
