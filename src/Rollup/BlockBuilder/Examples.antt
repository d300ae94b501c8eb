-- ===== src/Rollup/BlockBuilder/Examples.antt =====
-- A builder of packages/rollup-aggregator/src/app/block-builder.ts that submits two transactions at a time
use pigi.Prelude.{
  ℕ, ◌+◌, ◌≡◌, refl, true, Option, none, some, List, [], ◌∷◌, ◌++◌, ◌&&◌, ◌==◌, if◌then◌else◌, ltb,
  arith,
}
use pigi.Rollup.BlockBuilder.{submit_block, add_transaction_result, init, builder}
use pigi.Rollup.BlockBuilder.Data.{
  TransactionStorage, TransactionResult, RollupBlock, ◌>>=◌, Trees, Services, BlockBuilder,
}
use pigi.Rollup.BlockBuilder.Storage.{modified_storage_map}
use pigi.Rollup.BlockBuilder.Outcomes.{submit_block-throws}
use pigi.Rollup.BlockBuilder.Writes.{
  IsDistinct, lookup_slot, last_write, writes_of, modified_storage_map-last_write,
}
use pigi.Rollup.BlockBuilder.Ledger.{Call, result, timeout, run, IsLedger}
use pigi.Rollup.BlockBuilder.Runs.{run-IsLedger}
use pigi.Rollup.BlockBuilder.Stored.{empty_db}
use pigi.Rollup.BlockBuilder.Restart.{restored_number, init_restores}

-- Trees are numbered, and the root of a tree is the sum of its number and what was last put into it.
abbrev World : Type 0
World = ℕ × (ℕ → ℕ → Option ℕ) × (ℕ → ℕ)

abbrev numbered_trees : Trees World ℕ ℕ
numbered_trees = record {
  create = λ root height w. (some w.0, (w.0 + 1, w.1, w.2));
  get_leaf = λ h k w. (some (w.1 h k), w);
  update = λ h k v w. (
    some true,
    (
      w.0,
      (λ g i. if g == h && i == k then some v else w.1 g i),
      (λ g. if g == h then v else w.2 g),
    ),
  );
  get_root_hash = λ h w. (some (h + w.2 h), w);
}

abbrev no_trees : World
no_trees = (0, (λ h k. none), (λ h. 0))

abbrev one_tree : World
one_tree = (1, (λ h k. none), (λ h. 0))

abbrev services : Services World ℕ ℕ ℕ (List (RollupBlock ℕ ℕ)) (TransactionResult ℕ)
services = record {
  trees = numbered_trees;
  to_buffer = λ s. 5;
  encode = λ r. r;
  decode = some;
  submit = λ b q. (some tt, q ++ b ∷ []);
  max_transactions_per_block = 2;
  max_delay_between_blocks_millis = 1000;
}

abbrev write : ℕ → ℕ → TransactionStorage
write c s = record { contract_slot_index = c; storage_slot_index = s; storage = "new" }

abbrev transaction : ℕ → TransactionResult ℕ
transaction n = record {
  transaction_number = n;
  signed_transaction = n;
  modified_storage = write 3 1 ∷ write n 2 ∷ [];
}

abbrev calls : List (Call ℕ)
calls =
    result 1 (transaction 7) ∷ result 2 (transaction 8) ∷ timeout 3 ∷ result 4 (transaction 9) ∷ []

abbrev start : BlockBuilder World ℕ ℕ ℕ (List (RollupBlock ℕ ℕ)) (TransactionResult ℕ)
start = record (builder services one_tree 0 0 0 [] [] empty_db) { timeouts = 1000 ∷ [] }

start_test : init services 0 empty_db [] no_trees ≡ some (some tt, start)
unfolding init
start_test = refl

abbrev end_of :
    Option (BlockBuilder World ℕ ℕ ℕ (List (RollupBlock ℕ ℕ)) (TransactionResult ℕ))
    → BlockBuilder World ℕ ℕ ℕ (List (RollupBlock ℕ ℕ)) (TransactionResult ℕ)
end_of none = start
end_of (some s) = s

calls_return : run services calls start ≡ some (end_of (run services calls start))
unfolding add_transaction_result submit_block ◌>>=◌
calls_return = refl

-- A submitter that takes the blocks with numbers above that of the last one that it took, and ignores
-- others
abbrev Queued : Type 0
Queued = ℕ × List (RollupBlock ℕ ℕ)

abbrev queueing : Services World ℕ ℕ ℕ Queued (TransactionResult ℕ)
queueing = record {
  trees = numbered_trees;
  to_buffer = λ s. 5;
  encode = λ r. r;
  decode = some;
  submit = λ b q. (some tt, if ltb q.0 b.block_number then (b.block_number, q.1 ++ b ∷ []) else q);
  max_transactions_per_block = 2;
  max_delay_between_blocks_millis = 1000;
}

abbrev start_at_one : BlockBuilder World ℕ ℕ ℕ Queued (TransactionResult ℕ)
start_at_one = builder queueing one_tree 0 0 1 [] (0, []) empty_db

abbrev end_or :
    BlockBuilder World ℕ ℕ ℕ Queued (TransactionResult ℕ)
    → Option (BlockBuilder World ℕ ℕ ℕ Queued (TransactionResult ℕ))
    → BlockBuilder World ℕ ℕ ℕ Queued (TransactionResult ℕ)
end_or s none = s
end_or s (some s') = s'

queueing_returns :
    run queueing calls start_at_one ≡ some (end_or start_at_one (run queueing calls start_at_one))
unfolding add_transaction_result submit_block ◌>>=◌
queueing_returns = refl

run-IsLedger_example :
    IsLedger queueing
      (λ q. q.1)
      1
      (transaction 7 ∷ transaction 8 ∷ transaction 9 ∷ [])
      (end_or start_at_one (run queueing calls start_at_one))
run-IsLedger_example =
    run-IsLedger queueing (λ q. q.1) (omega arith) (λ q. q.0) (λ b q q' e h. ground (arith, e, h)) 1
      calls start_at_one (end_or start_at_one (run queueing calls start_at_one)) refl refl
      (omega arith) (refl, (refl, (refl, tt))) queueing_returns

init_restores_example :
    init services 5 (end_of (run services calls start)).db [] no_trees
    ≡ some (
        submit_block services 5 (
          builder services one_tree 0 5
            (restored_number (end_of (run services calls start)).pending_block.block_number)
            (end_of (run services calls start)).pending_block.transaction_results
            []
            (end_of (run services calls start)).db))
init_restores_example =
    init_restores services (λ r. refl) 0 1 5 (transaction 7)
      (result 2 (transaction 8) ∷ timeout 3 ∷ result 4 (transaction 9) ∷ []) [] [] no_trees no_trees
      one_tree 0 start (end_of (run services calls start)) start_test calls_return refl

modified_storage_map-last_write_example :
    IsDistinct (modified_storage_map (transaction 7 ∷ transaction 8 ∷ []) [])
    × ((contract slot : ℕ)
        → lookup_slot contract slot (modified_storage_map (transaction 7 ∷ transaction 8 ∷ []) [])
          ≡ last_write contract slot (writes_of (transaction 7 ∷ transaction 8 ∷ [])))
modified_storage_map-last_write_example =
    modified_storage_map-last_write (transaction 7 ∷ transaction 8 ∷ [])

-- A submitter that throws
abbrev failing : Services World ℕ ℕ ℕ (List (RollupBlock ℕ ℕ)) (TransactionResult ℕ)
failing = record services { submit = λ b q. (none, q) }

abbrev pending : BlockBuilder World ℕ ℕ ℕ (List (RollupBlock ℕ ℕ)) (TransactionResult ℕ)
pending = builder services one_tree 0 0 4 (transaction 7 ∷ transaction 8 ∷ []) [] empty_db

failing_test : submit_block failing 1 pending ≡ (none, (submit_block failing 1 pending).1)
unfolding submit_block ◌>>=◌
failing_test = refl

submit_block-throws_example :
    ((submit_block failing 1 pending).1.pending_block
      ≡ record { block_number = 5; transaction_results = [] })
    × ((submit_block failing 1 pending).1.db ≡ empty_db)
submit_block-throws_example =
    submit_block-throws failing 1 pending (submit_block failing 1 pending).1 failing_test
