-- ===== src/Rollup/BlockBuilder.antt =====
-- `DefaultRollupBlockBuilder` of packages/rollup-aggregator/src/app/block-builder.ts. Each call runs to
-- its end before the next; `now` is the time of the clock during the call. A timeout of zero stands for
-- one that is not given.
pub mod Data
pub mod Storage
pub mod Writes
pub mod Outcomes
pub mod Ledger
pub mod Runs
pub mod Stored
pub mod Restart
mod Examples
use pigi.Prelude.{
  ℕ, zero, suc, ◌+◌, ◌-◌, Bool, true, false, Option, none, some, List, [], ◌∷◌, ◌++◌, map, length,
  ltb, leb, ◌==◌, if◌then◌else◌,
}
use pigi.Rollup.BlockBuilder.Data.{
  TransactionStorage, TransactionResult, RollupBlock, PendingBlock, Action, Forest, BuilderDb,
  Services, BlockBuilder, Trees,
}
use pigi.Rollup.BlockBuilder.Storage.{update_forest}

-- Whether the last of the results has the number
abbrev pub repeats_last : {X : Type 0} → ℕ → List (TransactionResult X) → Bool
repeats_last n [] = false
repeats_last n (r ∷ []) = r.transaction_number == n
repeats_last n (r ∷ q ∷ rs) = repeats_last n (q ∷ rs)

abbrev pub signed_transactions_of : {X : Type 0} → List (TransactionResult X) → List X
signed_transactions_of = map (λ r. r.signed_transaction)

module _ {W H B X S E : Type 0} (services : Services W H B X S E) where
  -- `setBlockSubmissionTimeout`
  unfoldable pub set_block_submission_timeout :
      ℕ → BlockBuilder W H B X S E → BlockBuilder W H B X S E
  set_block_submission_timeout millis s = record s {
    timeouts =
        s.timeouts
        ++ (if millis == 0 then services.max_delay_between_blocks_millis else millis) ∷ [];
  }

  -- `buildBlock`: the next pending block is there before the trees are updated.
  unfoldable pub build_block : Action (BlockBuilder W H B X S E) (RollupBlock X B)
  unfolding update_forest
  build_block s =
      let block = s.pending_block in
      let (root, f) = update_forest services block.transaction_results s.forest in
      let s' = record s {
        forest = f;
        pending_block = record { block_number = block.block_number + 1; transaction_results = [] };
      } in
      elim root [
        | none ↦ (none, s')
        | some r ↦ (
          some (record {
            block_number = block.block_number;
            state_root = r;
            signed_transactions = signed_transactions_of block.transaction_results;
          }),
          s',
        )
      ]

  -- The end of `submitBlock`, once the submitter has the block
  unfoldable pub after_submission : ℕ → BlockBuilder W H B X S E → BlockBuilder W H B X S E
  unfolding set_block_submission_timeout
  after_submission now s = set_block_submission_timeout 0 (record s {
    last_block_submission = now;
    db = record s.db {
      stored_tx_count = some 0;
      stored_pending_block = some s.pending_block.block_number;
    };
  })

  -- `submitBlock`, after its tests
  unfoldable pub submit_pending : ℕ → Action (BlockBuilder W H B X S E) Unit
  unfolding build_block after_submission
  submit_pending now s =
      let (built, s') = build_block s in
      elim built [
        | none ↦ (none, s')
        | some block ↦
            let (answer, submitter) = services.submit block s'.submitter in
            let s'' = record s' { submitter = submitter } in
            elim answer [ none ↦ (none, s'') | some _ ↦ (some tt, after_submission now s'') ]
      ]

  -- `submitBlock`
  unfoldable pub submit_block : ℕ → Action (BlockBuilder W H B X S E) Unit
  unfolding set_block_submission_timeout submit_pending
  submit_block now s =
      let size = length s.pending_block.transaction_results in
      let due = s.last_block_submission + services.max_delay_between_blocks_millis in
      if ltb size services.max_transactions_per_block
      then (if ltb now due
          then (some tt, set_block_submission_timeout (due - now) s)
          else (if size == 0
              then (
                some tt,
                set_block_submission_timeout services.max_delay_between_blocks_millis s,
              )
              else submit_pending now s))
      else submit_pending now s

  -- `push` and the two `put`s of `addTransactionResult`
  unfoldable pub push_result :
      TransactionResult X → BlockBuilder W H B X S E → BlockBuilder W H B X S E
  push_result r s =
      let size = length s.pending_block.transaction_results + 1 in
      record s {
        pending_block = record s.pending_block {
          transaction_results = s.pending_block.transaction_results ++ r ∷ [];
        };
        db = record s.db {
          stored_tx = λ i. if i == size then some (services.encode r) else s.db.stored_tx i;
          stored_tx_count = some size;
        };
      }

  -- `addTransactionResult`
  unfoldable pub add_transaction_result :
      ℕ → TransactionResult X → Action (BlockBuilder W H B X S E) Unit
  unfolding push_result submit_block
  add_transaction_result now r s =
      if repeats_last r.transaction_number s.pending_block.transaction_results
      then (some tt, s)
      else (let s' = push_result r s in
          if leb services.max_transactions_per_block (length s'.pending_block.transaction_results)
          then submit_block now s'
          else (some tt, s'))

  -- The stored results from the first to the given number
  unfoldable pub load_results : (ℕ → Option E) → ℕ → Option (List (TransactionResult X))
  load_results stored zero = some []
  load_results stored (suc n) = elim (load_results stored n) [
    | none ↦ none
    | some rs ↦ elim (stored (suc n)) [
      | none ↦ none
      | some e ↦ elim (services.decode e) [ none ↦ none | some r ↦ some (rs ++ r ∷ []) ]
    ]
  ]

  -- A builder with no subtrees and no timeouts
  abbrev pub builder :
      W → H → ℕ → ℕ → List (TransactionResult X) → S → BuilderDb E B → BlockBuilder W H B X S E
  builder w h date n rs submitter db = record {
    forest = record { world = w; tree = h; subtrees = λ i. none };
    last_block_submission = date;
    pending_block = record { block_number = n; transaction_results = rs };
    submitter = submitter;
    timeouts = [];
    db = db;
  }

  -- `init`, on the database; `none` where it throws before the pending block is set, or else the result of
  -- `submitBlock` and the builder
  unfoldable pub init :
      ℕ → BuilderDb E B → S → W → Option (Option (Unit {0}) × BlockBuilder W H B X S E)
  unfolding set_block_submission_timeout load_results submit_block
  init now db submitter w = elim db.stored_tx_count [
    | none ↦
        let (tree, w') = services.trees.create none 16 w in
        elim tree [
          | none ↦ none
          | some h ↦
              some (some tt, set_block_submission_timeout 0 (builder w' h now 0 [] submitter db))
        ]
    | some count ↦
        let (tree, w') = services.trees.create db.stored_tree_root 16 w in
        elim tree [
          | none ↦ none
          | some h ↦ elim (load_results db.stored_tx count) [
            | none ↦ none
            | some rs ↦ some (
                submit_block now (
                  builder w' h (elim db.stored_last_submission [ none ↦ now | some d ↦ d ])
                    (elim db.stored_pending_block [ none ↦ 1 | some n ↦ n ]) rs submitter db))
          ]
        ]
  ]
