-- ===== src/Unipig/Submitter/Examples.antt =====
-- The theorems on the block submitter at concrete blocks.
use pigi.Prelude.{ℕ, ◌≡◌, refl, true, false, some, List, [], ◌∷◌, ◌++◌, map, arith}
use pigi.Unipig.Submitter.{
  Codec, RollupBlock, Submitter, init, submit_block, handle_new_rollup_block,
}
use pigi.Unipig.Submitter.Invariant.{IsValid}
use pigi.Unipig.Submitter.Runs.{Call, submit, confirm, fresh, run, run-IsValid}
use pigi.Unipig.Submitter.Restart.{with_sent, Restarts, init-Restarts}
use pigi.Unipig.Submitter.Order.{wire, confirm_all, confirm_all_lem}

-- Transitions that are numbers, each encoded as itself.
abbrev plain : Codec ℕ ℕ
plain = record { encode = λ t. t; decode = λ t. some t; decode-encode = λ t. refl }

abbrev block : ℕ → RollupBlock ℕ
block n = record { block_number = n; transitions = n ∷ [] }

-- Two blocks, of which the first is refused by the contract and then confirmed all the same.
abbrev calls : List (Call ℕ)
calls = submit false (block 1) ∷ submit true (block 2) ∷ submit true (block 3) ∷ confirm true 7 ∷ []

abbrev state : Submitter ℕ ℕ
state = run plain calls (fresh plain)

run-IsValid_example : IsValid plain state
run-IsValid_example = run-IsValid plain calls

-- The contract refused the only block.
abbrev refused_calls : List (Call ℕ)
refused_calls = submit false (block 1) ∷ []

abbrev refused : Submitter ℕ ℕ
refused = run plain refused_calls (fresh plain)

init-Restarts_example : Restarts plain true refused (init plain true refused.db refused.sent)
unfolding submit_block
init-Restarts_example = init-Restarts plain true refused_calls (omega arith)

-- A restart sends it.
restart_sends : init plain true refused.db refused.sent ≡ some (with_sent plain (block 1) refused)
unfolding run submit_block init
restart_sends = refl

state_queue : state.block_queue ≡ block 1 ∷ block 2 ∷ block 3 ∷ []
unfolding run submit_block handle_new_rollup_block
state_queue = refl

confirm_all_lem_example :
    let s' = confirm_all plain (block 1 ∷ block 2 ∷ block 3 ∷ []) state in
    (s'.block_queue ≡ [])
    × (s'.last_confirmed ≡ state.last_queued)
    × (s'.last_submitted ≡ state.last_queued)
    × (s'.sent ≡ state.sent ++ map (wire plain) (block 2 ∷ block 3 ∷ []))
unfolding run submit_block handle_new_rollup_block
confirm_all_lem_example =
    confirm_all_lem plain (block 2 ∷ block 3 ∷ []) (block 1) state refl refl
      (run-IsValid plain calls)
