-- ===== src/Unipig/Aggregator/Examples.antt =====
-- The theorems on the aggregator at a concrete state machine and concrete calls.
use pigi.Prelude.{ℕ, suc, ◌+◌, ◌≡◌, ◌≤◌, ◌<◌, refl, false, some, List, [], ◌∷◌}
use pigi.Prelude.Int.{pos}
use pigi.Unipig.Types.{
  State, no_balances, uni_token, transfer_transaction, swap_transaction, faucet_transaction,
  RollupTransaction, Result, ok, err, slippage, invalid_transaction_type,
}
use pigi.Unipig.Effects.{StateUpdate, SignedTransaction}
use pigi.Unipig.Submitter.{submit_block, handle_new_rollup_block}
use pigi.Unipig.Submitter.Runs.{fresh}
use pigi.Unipig.Validator.{RollupTransition}
use pigi.Unipig.Aggregator.{
  Aggregator, Services, StateMachine, init, apply_transaction, request_faucet_funds, handle,
  on_sync_completed, get_transfer_transition,
}
use pigi.Unipig.Aggregator.Restart.{
  Call, sync_completed, block_confirmed, transaction, faucet_request, timeout, start, run,
}
use pigi.Unipig.Aggregator.Recovery.{init-run}
use pigi.Unipig.Aggregator.Ledger.{ledger}
use pigi.Unipig.Aggregator.Entries.{record_calls}
use pigi.Unipig.Aggregator.Refinement.{ledger-run}
use pigi.Unipig.Aggregator.Receipts.{IsTrue, apply_transaction-IsTrue}

abbrev account : ℕ → State
account k = record { pubkey = k; balances = no_balances }

abbrev update : SignedTransaction ℕ → ℕ → StateUpdate ℕ ℕ
update tx root = record {
  transaction = tx;
  state_root = root;
  sender_slot_index = 1;
  receiver_slot_index = 2;
  sender_state = account 1;
  sender_state_inclusion_proof = [];
  receiver_state = account 2;
  receiver_state_inclusion_proof = [];
  receiver_created = false;
}

abbrev apply_counting : RollupTransaction → SignedTransaction ℕ → ℕ → Result (StateUpdate ℕ ℕ) × ℕ
apply_counting (transfer_transaction t) tx m = (ok (update tx (suc m)), suc m)
apply_counting (swap_transaction s) tx m = (err slippage, m)
apply_counting (faucet_transaction f) tx m = (err invalid_transaction_type, m)

abbrev update_all : List (SignedTransaction ℕ) → ℕ → List (StateUpdate ℕ ℕ)
update_all [] m = []
update_all (tx ∷ txs) m = update tx (suc m) ∷ update_all txs (suc m)

abbrev count_all : List (SignedTransaction ℕ) → ℕ → ℕ
count_all [] m = m
count_all (tx ∷ txs) m = count_all txs (suc m)

-- A machine that counts transfers, and whose root is the count.
abbrev counter : StateMachine ℕ ℕ
counter = record {
  get_state = λ a m. ok (record {
    slot_index = some a;
    state = some (account a);
    state_root = m;
    inclusion_proof = some [];
  });
  apply_transaction = λ tx m. apply_counting tx.transaction tx m;
  apply_transactions = λ txs m. (ok (update_all txs m), count_all txs m);
}

-- Blocks of two transitions; 7 is the aggregator, and 9 may use the faucet.
abbrev services : Services ℕ ℕ (RollupTransition ℕ)
services = record {
  state_machine = counter;
  codec = record { encode = λ t. t; decode = λ t. some t; decode-encode = λ t. refl };
  get_address = 7;
  sign_transaction = λ tx. 7;
  sign_state_receipt = λ r. r.state_root;
  empty_aggregator_signature = 0;
  verify_faucet_request = λ tx signature. signature;
  block_submission_transition_count = 2;
  block_submission_interval_millis = 100;
  authorized_faucet_address = some 9;
}

abbrev transfer : SignedTransaction ℕ
transfer = record {
  signature = 1;
  transaction =
      transfer_transaction
        (record { sender = 1; recipient = 2; token_type = uni_token; amount = pos 5 });
}

abbrev ask : SignedTransaction ℕ
ask = record {
  signature = 9;
  transaction = faucet_transaction (record { sender = 1; amount = pos 10 });
}

-- A call that comes too early, one block that is full, one that is sent when its time has come, a
-- request to the faucet, and one more transfer.
abbrev calls : List (Call ℕ)
calls =
    transaction 1 transfer
    ∷ sync_completed
    ∷ transaction 2 transfer
    ∷ transaction 3 transfer
    ∷ block_confirmed (some 1)
    ∷ transaction 4 transfer
    ∷ timeout 300
    ∷ faucet_request 301 ask
    ∷ transaction 302 transfer
    ∷ []

abbrev state : Aggregator ℕ ℕ (RollupTransition ℕ)
state = run services calls (start services 0 0)

init-run_example :
    (s' : Aggregator ℕ ℕ (RollupTransition ℕ)) × (init services 500 6
        (fresh services.codec)
        state.db
      ≡ some s')
    × (s'.pending_block ≡ state.pending_block)
    × (s'.transaction_count ≤ state.transaction_count)
    × (state.transaction_count < s'.transaction_count + 7)
init-run_example = init-run services calls 0 500 0 6 (fresh services.codec)

ledger-run_example :
    ledger services state
    ≡ record_calls services calls (record { machine = 0; synced = false; entries = [] })
ledger-run_example = ledger-run services calls 0 0

apply_transaction-IsTrue_example :
    IsTrue services state (apply_transaction services false 310 transfer state)
apply_transaction-IsTrue_example = apply_transaction-IsTrue services false 310 transfer state

state_count :
    (state.transaction_count ≡ 5)
    × (state.pending_block.block_number ≡ 4)
    × (state.rollup_state_machine ≡ 6)
unfolding run apply_transaction request_faucet_funds handle handle_new_rollup_block
    on_sync_completed get_transfer_transition submit_block
state_count = (refl, refl, refl)
