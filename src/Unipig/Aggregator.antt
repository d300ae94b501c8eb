-- ===== src/Unipig/Aggregator.antt =====
-- packages/unipig/src/aggregator/rollup-aggregator.ts, over the model of the block submitter and an
-- interface of the state machine. The lock makes each call run to its end; a `submitBlock` that a
-- call starts without waiting for it runs at the end of that call. `accepts` says whether the contract
-- accepts a block that is sent to it during the call, `now` is the time in milliseconds.
mod Data
mod Pending
pub mod Persistence
pub mod Submission
pub mod Restart
pub mod Recovery
pub mod Log
pub mod Ledger
pub mod Recording
pub mod Entries
pub mod Refinement
pub mod Receipts
mod Examples
unfoldable pub use Data.*
unfoldable pub use Pending.*
use pigi.Prelude.{
  ℕ, zero, suc, ◌+◌, ◌-◌, ◌%◌, ◌<◌, Bool, true, false, not, Option, none, some, List, [], ◌∷◌, ◌++◌,
  length, get_elem?, map, ltb, leb, ◌==◌, if◌then◌else◌,
}
use pigi.Prelude.Int.{ℤ}
use pigi.Unipig.Types.{
  Address, uniswap_address, Transfer, uni_token, pigi_token, TokenType, RollupTransaction,
  swap_transaction, transfer_transaction, faucet_transaction, sender_of, FaucetRequest, type_error,
  ok, err,
}
use pigi.Unipig.Effects.{SignedTransaction, StateUpdate, Action}
use pigi.Unipig.Submitter.{
  Codec, RollupBlock, Submitter, Ended, returned, threw, state_after, or_zero, submit_block,
  handle_new_rollup_block,
}
use pigi.Unipig.Validator.{RollupTransition}

module _ {M S E : Type 0} (services : Services M S E) where
  abbrev pub refuse : {A : Type 0} → AggregatorError → Aggregator M S E → Reply A × Aggregator M S E
  refuse e s = (failed e, s)

  -- `applyTransaction` and `requestFaucetFunds`, after the state machine has made the updates: the
  -- last of them is answered, and what the receipts say is read before a block is submitted.
  unfoldable pub record_updates :
      Bool
      → ℕ
      → List (StateUpdate ℕ S)
      → StateUpdate ℕ S
      → SignedTransaction S
      → Aggregator M S E
      → Reply (List (SignedStateReceipt S)) × Aggregator M S E
  unfolding add_to_pending_block submit_if_full increment_tx_count respond
  record_updates accepts now updates answered tx s =
      elim (add_to_pending_block services updates tx s) [
        | none ↦ refuse (state_machine_error type_error) s
        | some added ↦ (
          replied (
              respond services answered added.pending_block.block_number
                (length added.pending_block.transitions)),
          increment_tx_count services (submit_if_full services accepts now added),
        )
      ]

  -- `applyTransaction`
  unfoldable pub apply_transaction :
      Bool
      → ℕ
      → SignedTransaction S
      → Aggregator M S E
      → Reply (List (SignedStateReceipt S)) × Aggregator M S E
  unfolding record_updates
  apply_transaction accepts now tx s =
      if not s.synced
      then refuse not_synced s
      else (let (r, m) = services.state_machine.apply_transaction tx s.rollup_state_machine in
          let applied : Aggregator M S E = record s { rollup_state_machine = m } in
          elim r [
            | err e ↦ refuse (state_machine_error e) applied
            | ok u ↦ record_updates accepts now (u ∷ []) u tx applied
          ])

  -- `generateFaucetTxs`
  unfoldable pub generate_faucet_txs : Address → ℤ → List (SignedTransaction S)
  generate_faucet_txs recipient amount =
      let one = generate_transfer_tx services.get_address recipient uni_token amount in
      let two = generate_transfer_tx services.get_address recipient pigi_token amount in
      record { signature = services.sign_transaction one; transaction = one }
      ∷ record { signature = services.sign_transaction two; transaction = two }
      ∷ []

  abbrev pub required_signer : FaucetRequest → Address
  required_signer f = elim services.authorized_faucet_address [ none ↦ f.sender | some a ↦ a ]

  -- `updates[updates.length - 1]`; the machine makes an update of each transaction, so there is one.
  abbrev pub last_update : List (StateUpdate ℕ S) → Option (StateUpdate ℕ S)
  last_update [] = none
  last_update (u ∷ []) = some u
  last_update (u ∷ v ∷ us) = last_update (v ∷ us)

  -- `requestFaucetFunds`, once the request is found to be signed
  unfoldable pub give_faucet_funds :
      Bool
      → ℕ
      → FaucetRequest
      → SignedTransaction S
      → Aggregator M S E
      → Reply (Option (SignedStateReceipt S)) × Aggregator M S E
  unfolding record_updates generate_faucet_txs
  give_faucet_funds accepts now f tx s =
      let (r, m) =
        services.state_machine.apply_transactions (generate_faucet_txs f.sender f.amount)
          s.rollup_state_machine in
      let applied : Aggregator M S E = record s { rollup_state_machine = m } in
      elim r [
        | err e ↦ refuse (state_machine_error e) applied
        | ok updates ↦ elim (last_update updates) [
          | none ↦ refuse (state_machine_error type_error) applied
          | some u ↦
              let (reply, s') = record_updates accepts now updates u tx applied in
              (
                elim reply [
                  | failed e ↦ failed e
                  | replied receipts ↦ replied (get_elem? receipts 1)
                ],
                s',
              )
        ]
      ]

  -- `requestFaucetFunds`
  unfoldable pub request_faucet_funds :
      Bool
      → ℕ
      → SignedTransaction S
      → Aggregator M S E
      → Reply (Option (SignedStateReceipt S)) × Aggregator M S E
  unfolding give_faucet_funds
  request_faucet_funds accepts now tx s =
      if not s.synced then refuse not_synced s else elim tx.transaction [
        | swap_transaction w ↦ refuse not_faucet_request s
        | transfer_transaction t ↦ refuse not_faucet_request s
        | faucet_transaction f ↦
            if not (services.verify_faucet_request tx.transaction tx.signature == required_signer f)
            then refuse wrong_faucet_signer s
            else give_faucet_funds accepts now f tx s
      ]

  -- `getState`
  unfoldable pub get_state : Address → Aggregator M S E → Reply (SignedStateReceipt S)
  get_state a s =
      if not s.synced
      then failed not_synced
      else elim (services.state_machine.get_state a s.rollup_state_machine) [
        | err e ↦ failed (state_machine_error e)
        | ok snapshot ↦
            let receipt : StateReceipt = record {
              slot_index = snapshot.slot_index;
              state = snapshot.state;
              state_root = snapshot.state_root;
              inclusion_proof = snapshot.inclusion_proof;
              block_number = s.pending_block.block_number;
              transition_index = length s.pending_block.transitions;
            } in
            replied (record {
              state_receipt = receipt;
              signature = elim snapshot.state [
                | none ↦ services.empty_aggregator_signature
                | some state ↦ services.sign_state_receipt receipt
              ];
            })
      ]

  -- `onSyncCompleted`
  unfoldable pub on_sync_completed : Aggregator M S E → Aggregator M S E
  on_sync_completed s = record s { synced = true }

  -- `handle`, for an event with the number of a block or without one
  unfoldable pub handle : Bool → Option ℕ → Aggregator M S E → Ended (Aggregator M S E)
  handle accepts none s = returned s
  handle accepts (some n) s =
      elim (handle_new_rollup_block services.codec accepts n s.rollup_block_submitter) [
        | returned submitter ↦ returned (record s { rollup_block_submitter = submitter })
        | threw submitter ↦ threw (record s { rollup_block_submitter = submitter })
      ]

  -- The transitions with the numbers from `i` on, `count` of them
  unfoldable pub load_transitions : AggregatorDb E → ℕ → ℕ → Option (List (RollupTransition S))
  load_transitions db i zero = some []
  load_transitions db i (suc count) = elim (db.stored_transition i) [
    | none ↦ none
    | some e ↦ elim (services.codec.decode e) [
      | none ↦ none
      | some t ↦ elim (load_transitions db (i + 1) count) [ none ↦ none | some ts ↦ some (t ∷ ts) ]
    ]
  ]

  -- The aggregator that the constructor makes
  abbrev pub constructed :
      ℕ → M → Submitter (RollupTransition S) E → AggregatorDb E → Aggregator M S E
  constructed now m submitter db = record {
    rollup_state_machine = m;
    rollup_block_submitter = submitter;
    synced = false;
    transaction_count = 0;
    pending_block = record { block_number = 1; transitions = [] };
    pending_is_queued = false;
    last_block_submission = now;
    timeouts = [];
    db = db;
  }

  -- `create` with `init`; `none` is an error.
  unfoldable pub init :
      ℕ → M → Submitter (RollupTransition S) E → AggregatorDb E → Option (Aggregator M S E)
  unfolding load_transitions set_block_submission_timeout
  init now m submitter db = elim db.stored_last_transition [
    | none ↦ some (constructed now m submitter db)
    | some last ↦ elim (load_transitions db 1 last) [
      | none ↦ none
      | some ts ↦ some (
          set_block_submission_timeout services 0 (record (constructed now m submitter db) {
            transaction_count = or_zero db.stored_tx_count;
            pending_block = record {
              block_number = or_one db.stored_pending_block;
              transitions = ts;
            };
          }))
    ]
  ]
