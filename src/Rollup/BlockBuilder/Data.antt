-- ===== src/Rollup/BlockBuilder/Data.antt =====
-- The state of packages/rollup-aggregator/src/app/block-builder.ts, the types of packages/rollup-core
-- that it uses, and the parameters: the trees, the JSON texts and the block submitter.
use pigi.Prelude.{ℕ, Bool, Option, none, some, List, String}

pub record TransactionStorage : Type 0 where
  pub contract_slot_index : ℕ
  pub storage_slot_index : ℕ
  pub storage : String

-- `X` is the type of signed transactions.
pub record TransactionResult (X : Type 0) : Type 0 where
  pub transaction_number : ℕ
  pub signed_transaction : X
  pub modified_storage : List TransactionStorage

-- A root is a buffer of type `B`.
pub record RollupBlock (X B : Type 0) : Type 0 where
  pub block_number : ℕ
  pub state_root : B
  pub signed_transactions : List X

pub record PendingBlock (X : Type 0) : Type 0 where
  pub block_number : ℕ
  pub transaction_results : List (TransactionResult X)

-- A call that may throw, and keeps what it changed before that
abbrev pub Action : Type 0 → Type 0 → Type 0
Action M A = M → Option A × M

infixl 5 ◌>>=◌
unfoldable pub ◌>>=◌ : {M A B : Type 0} → Action M A → (A → Action M B) → Action M B
◌>>=◌ a f m = let (r, m') = a m in elim r [ none ↦ (none, m') | some x ↦ f x m' ]

abbrev pub pure : {M A : Type 0} → A → Action M A
pure a m = (some a, m)

abbrev pub raise : {M A : Type 0} → Action M A
raise m = (none, m)

-- What the builder uses of `SparseMerkleTree`: a tree is an object of type `H`, and the states of all of
-- them, and their database, are in `W`. The height is an argument of `create`.
pub record Trees (W H B : Type 0) : Type 0 where
  pub create : Option B → ℕ → Action W H
  pub get_leaf : H → ℕ → Action W (Option B)
  pub update : H → ℕ → B → Action W Bool
  pub get_root_hash : H → Action W B

pub record Forest (W H : Type 0) : Type 0 where
  pub world : W
  pub tree : H
  pub subtrees : ℕ → Option H

-- The builder's own entries in the database. The nodes of the trees, which are in the same database, are
-- in the state of the trees.
pub record BuilderDb (E B : Type 0) : Type 0 where
  pub stored_last_submission : Option ℕ
  pub stored_pending_block : Option ℕ
  pub stored_tx_count : Option ℕ
  pub stored_tree_root : Option B
  pub stored_tx : ℕ → Option E

pub record Services (W H B X S E : Type 0) : Type 0 where
  pub trees : Trees W H B
  pub to_buffer : String → B
  pub encode : TransactionResult X → E
  pub decode : E → Option (TransactionResult X)
  pub submit : RollupBlock X B → Action S Unit
  pub max_transactions_per_block : ℕ
  pub max_delay_between_blocks_millis : ℕ

-- The builder, with the submitter that it was given, and the timeouts that it has set
pub record BlockBuilder (W H B X S E : Type 0) : Type 0 where
  pub forest : Forest W H
  pub last_block_submission : ℕ
  pub pending_block : PendingBlock X
  pub submitter : S
  pub timeouts : List ℕ
  pub db : BuilderDb E B
