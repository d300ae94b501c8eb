-- ===== src/Unipig/Aggregator/Data.antt =====
-- The data of packages/unipig/src/aggregator/rollup-aggregator.ts, and the transitions that it makes
-- of state updates.
use pigi.Prelude.{ℕ, Bool, Option, none, some, List, if◌then◌else◌}
use pigi.Unipig.Types.{
  Address, State, RollupTransaction, Transfer, Swap, swap_transaction, transfer_transaction,
  faucet_transaction, Error, Result,
}
use pigi.Unipig.Effects.{AddressSnapshot, SignedTransaction, StateUpdate, Action}
use pigi.Unipig.Submitter.{Codec, RollupBlock, Submitter}
use pigi.Unipig.Validator.{
  RollupTransition, TransferTransition, swap_transition, transfer_transition,
  create_and_transfer_transition,
}

-- What the database holds under the three keys and `getTransitionKey(i)`.
pub record AggregatorDb (E : Type 0) : Type 0 where
  pub stored_pending_block : Option ℕ
  pub stored_last_transition : Option ℕ
  pub stored_tx_count : Option ℕ
  pub stored_transition : ℕ → Option E

-- The fields of `RollupAggregator`, with the state of the objects it calls. `timeouts` has the
-- delays of `setBlockSubmissionTimeout`. `pending_is_queued` says that the pending block is the very
-- object at the end of the submitter's queue.
pub record Aggregator (M S E : Type 0) : Type 0 where
  pub rollup_state_machine : M
  pub rollup_block_submitter : Submitter (RollupTransition S) E
  pub synced : Bool
  pub transaction_count : ℕ
  pub pending_block : RollupBlock (RollupTransition S)
  pub pending_is_queued : Bool
  pub last_block_submission : ℕ
  pub timeouts : List ℕ
  pub db : AggregatorDb E

pub record StateReceipt : Type 0 where
  pub slot_index : Option ℕ
  pub state : Option State
  pub state_root : ℕ
  pub inclusion_proof : Option (List ℕ)
  pub block_number : ℕ
  pub transition_index : ℕ

pub record SignedStateReceipt (S : Type 0) : Type 0 where
  pub state_receipt : StateReceipt
  pub signature : S

-- `RollupStateMachine`, with roots that are numbers
pub record StateMachine (M S : Type 0) : Type 0 where
  pub get_state : Address → M → Result (AddressSnapshot ℕ)
  pub apply_transaction : SignedTransaction S → Action M (StateUpdate ℕ S)
  pub apply_transactions : List (SignedTransaction S) → Action M (List (StateUpdate ℕ S))

-- The parameters of `create`, and the functions of other packages.
pub record Services (M S E : Type 0) : Type 0 where
  pub state_machine : StateMachine M S
  pub codec : Codec (RollupTransition S) E
  pub get_address : Address
  pub sign_transaction : RollupTransaction → S
  pub sign_state_receipt : StateReceipt → S
  pub empty_aggregator_signature : S
  pub verify_faucet_request : RollupTransaction → S → Address
  pub block_submission_transition_count : ℕ
  pub block_submission_interval_millis : ℕ
  pub authorized_faucet_address : Option Address

pub data AggregatorError : Type 0 where
  not_synced not_faucet_request wrong_faucet_signer : AggregatorError
  state_machine_error : Error → AggregatorError

pub data Reply (A : Type 0) : Type 0 where
  replied : A → Reply A
  failed : AggregatorError → Reply A

-- The `SwapTransition` of `addToPendingBlock`
abbrev pub get_swap_transition : {S : Type 0} → Swap → S → StateUpdate ℕ S → RollupTransition S
get_swap_transition s signature u = swap_transition (record {
  state_root = u.state_root;
  sender_slot_index = u.sender_slot_index;
  uniswap_slot_index = u.receiver_slot_index;
  token_type = s.token_type;
  input_amount = s.input_amount;
  min_output_amount = s.min_output_amount;
  timeout = s.timeout;
  signature = signature;
})

abbrev pub transfer_fields : {S : Type 0} → Transfer → StateUpdate ℕ S → TransferTransition S
transfer_fields t u = record {
  state_root = u.state_root;
  sender_slot_index = u.sender_slot_index;
  recipient_slot_index = u.receiver_slot_index;
  token_type = t.token_type;
  amount = t.amount;
  signature = u.transaction.signature;
}

-- `getTransferTransitionFromStateUpdate`; `none` for an update that is not of a transfer, which the
-- machine does not make of one: its transition could not be encoded.
unfoldable pub get_transfer_transition :
    {S : Type 0} → StateUpdate ℕ S → Option (RollupTransition S)
get_transfer_transition u = elim u.transaction.transaction [
  | transfer_transaction t ↦ some (
      if u.receiver_created
      then create_and_transfer_transition (transfer_fields t u) u.receiver_state.pubkey
      else transfer_transition (transfer_fields t u))
  | swap_transaction s ↦ none
  | faucet_transaction f ↦ none
]
