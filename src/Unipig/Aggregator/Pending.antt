-- ===== src/Unipig/Aggregator/Pending.antt =====
-- The pending block of packages/unipig/src/aggregator/rollup-aggregator.ts: adding transitions to it,
-- and submitting it.
use pigi.Prelude.{
  ℕ, zero, suc, ◌+◌, ◌-◌, ◌%◌, Bool, true, false, Option, none, some, List, [], ◌∷◌, ◌++◌, length,
  ltb, leb, ◌==◌, if◌then◌else◌,
}
use pigi.Prelude.Int.{ℤ}
use pigi.Unipig.Types.{
  Address, uniswap_address, TokenType, RollupTransaction, swap_transaction, transfer_transaction,
  faucet_transaction,
}
use pigi.Unipig.Effects.{SignedTransaction, StateUpdate}
use pigi.Unipig.Submitter.{RollupBlock, Ended, returned, threw, state_after, submit_block}
use pigi.Unipig.Validator.{RollupTransition}
use pigi.Unipig.Aggregator.Data.{
  Aggregator, StateReceipt, SignedStateReceipt, Services, get_swap_transition,
  get_transfer_transition,
}

abbrev pub or_one : Option ℕ → ℕ
or_one none = 1
or_one (some n) = n

-- `x || y` for numbers
abbrev pub or_else : ℕ → ℕ → ℕ
or_else zero y = y
or_else (suc x) y = suc x

-- `generateTransferTx`
abbrev pub generate_transfer_tx : Address → Address → TokenType → ℤ → RollupTransaction
generate_transfer_tx sender recipient token_type amount =
    transfer_transaction
      (record { sender = sender; recipient = recipient; token_type = token_type; amount = amount })

-- The block object gets one more transition, in the submitter's queue too where it stands there.
abbrev pub with_transition : {T : Type 0} → T → RollupBlock T → RollupBlock T
with_transition t b = record b { transitions = b.transitions ++ t ∷ [] }

abbrev pub extend_queued : {T : Type 0} → T → ℕ → List (RollupBlock T) → List (RollupBlock T)
extend_queued t n [] = []
extend_queued t n (b ∷ bs) =
    (if b.block_number == n then with_transition t b else b) ∷ extend_queued t n bs

module _ {M S E : Type 0} (services : Services M S E) where
  -- `setBlockSubmissionTimeout`
  unfoldable pub set_block_submission_timeout : ℕ → Aggregator M S E → Aggregator M S E
  set_block_submission_timeout millis s = record s {
    timeouts = s.timeouts ++ or_else millis services.block_submission_interval_millis ∷ [];
  }

  -- `this.pendingBlock.transitions.push` and the `put` after it
  unfoldable pub push_transition : RollupTransition S → Aggregator M S E → Aggregator M S E
  push_transition t s = record s {
    pending_block = with_transition t s.pending_block;
    rollup_block_submitter =
        if s.pending_is_queued
        then record s.rollup_block_submitter {
          block_queue =
              extend_queued t s.pending_block.block_number s.rollup_block_submitter.block_queue;
        }
        else s.rollup_block_submitter;
    db = record s.db {
      stored_transition = λ i.
          if i == length s.pending_block.transitions + 1
          then some (services.codec.encode t)
          else s.db.stored_transition i;
    };
  }

  -- The loop of `addToPendingBlock` over the updates of transfers
  unfoldable pub push_transfers :
      List (StateUpdate ℕ S) → Aggregator M S E → Option (Aggregator M S E)
  unfolding push_transition
  push_transfers [] s = some s
  push_transfers (u ∷ us) s = elim (get_transfer_transition u) [
    | none ↦ none
    | some t ↦ push_transfers us (push_transition t s)
  ]

  -- The `put` under `LAST_TRANSITION_KEY`
  unfoldable pub save_last_transition : Aggregator M S E → Aggregator M S E
  save_last_transition s = record s {
    db = record s.db { stored_last_transition = some (length s.pending_block.transitions) };
  }

  -- `addToPendingBlock`; `none` is an error.
  unfoldable pub add_to_pending_block :
      List (StateUpdate ℕ S) → SignedTransaction S → Aggregator M S E → Option (Aggregator M S E)
  unfolding push_transfers save_last_transition
  add_to_pending_block updates tx s =
      let transfers : Option (Aggregator M S E) = elim (push_transfers updates s) [
        | none ↦ none
        | some s' ↦ some (save_last_transition s')
      ] in
      elim tx.transaction [
        | swap_transaction w ↦ elim updates [
          | [] ↦ none
          | u ∷ us ↦
              some (save_last_transition (push_transition (get_swap_transition w tx.signature u) s))
        ]
        | transfer_transaction t ↦ transfers
        | faucet_transaction f ↦ transfers
      ]

  -- `submitBlock`, after its tests
  unfoldable pub submit_pending_block : Bool → ℕ → Aggregator M S E → Ended (Aggregator M S E)
  unfolding set_block_submission_timeout
  submit_pending_block accepts now s =
      elim (submit_block services.codec accepts s.pending_block s.rollup_block_submitter) [
        | threw submitter ↦
            threw (record s { rollup_block_submitter = submitter; pending_is_queued = true })
        | returned submitter ↦
            let next = s.pending_block.block_number + 1 in
            returned (
              set_block_submission_timeout 0 (record s {
                rollup_block_submitter = submitter;
                pending_block = record { block_number = next; transitions = [] };
                pending_is_queued = false;
                last_block_submission = now;
                db = record s.db {
                  stored_last_transition = some 0;
                  stored_pending_block = some next;
                };
              }))
      ]

  -- `submitBlock`
  unfoldable pub submit_aggregated_block : Bool → ℕ → Aggregator M S E → Ended (Aggregator M S E)
  unfolding submit_pending_block
  submit_aggregated_block accepts now s =
      let size = length s.pending_block.transitions in
      let due = s.last_block_submission + services.block_submission_interval_millis in
      if ltb size services.block_submission_transition_count
      then (if ltb now due
          then returned (set_block_submission_timeout (due - now) s)
          else (if size == 0
              then returned
                  (set_block_submission_timeout services.block_submission_interval_millis s)
              else submit_pending_block accepts now s))
      else submit_pending_block accepts now s

  -- The call of `submitBlock` where the pending block is full; what it throws is not caught.
  unfoldable pub submit_if_full : Bool → ℕ → Aggregator M S E → Aggregator M S E
  unfolding submit_aggregated_block
  submit_if_full accepts now s =
      if leb services.block_submission_transition_count (length s.pending_block.transitions)
      then state_after (submit_aggregated_block accepts now s)
      else s

  -- `incrementTxCount`; 7 is `TX_COUNT_STORAGE_THRESHOLD`.
  unfoldable pub increment_tx_count : Aggregator M S E → Aggregator M S E
  increment_tx_count s =
      let n = s.transaction_count + 1 in
      record s {
        transaction_count = n;
        db = if n % 7 == 0 then record s.db { stored_tx_count = some n } else s.db;
      }

  -- The receipts of `respond`
  unfoldable pub signed : StateReceipt → SignedStateReceipt S
  signed r = record { state_receipt = r; signature = services.sign_state_receipt r }

  -- `respond`
  unfoldable pub respond : StateUpdate ℕ S → ℕ → ℕ → List (SignedStateReceipt S)
  unfolding signed
  respond u block_number transition_index =
      let sender = signed (record {
        slot_index = some u.sender_slot_index;
        state = some u.sender_state;
        state_root = u.state_root;
        inclusion_proof = some u.sender_state_inclusion_proof;
        block_number = block_number;
        transition_index = transition_index;
      }) in
      let recipient = signed (record {
        slot_index = some u.receiver_slot_index;
        state = some u.receiver_state;
        state_root = u.state_root;
        inclusion_proof = some u.receiver_state_inclusion_proof;
        block_number = block_number;
        transition_index = transition_index;
      }) in
      if u.receiver_state.pubkey == uniswap_address then sender ∷ [] else sender ∷ recipient ∷ []
