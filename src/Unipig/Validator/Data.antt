-- ===== src/Unipig/Validator/Data.antt =====
-- The data of packages/unipig/src/validator/rollup-state-validator.ts and validator/types.ts, with the
-- transitions of packages/unipig/src/types/types.ts, and the transaction that a transition stands for.
use pigi.Prelude.{ℕ, Option, List}
use pigi.Prelude.Int.{ℤ}
use pigi.Unipig.Types.{Address, TokenType, State, swap_transaction, transfer_transaction}
use pigi.Unipig.Effects.{SignedTransaction, StateUpdate, Action}

pub record SwapTransition (S : Type 0) : Type 0 where
  pub state_root : ℕ
  pub sender_slot_index : ℕ
  pub uniswap_slot_index : ℕ
  pub token_type : TokenType
  pub input_amount : ℤ
  pub min_output_amount : ℤ
  pub timeout : ℕ
  pub signature : S

pub record TransferTransition (S : Type 0) : Type 0 where
  pub state_root : ℕ
  pub sender_slot_index : ℕ
  pub recipient_slot_index : ℕ
  pub token_type : TokenType
  pub amount : ℤ
  pub signature : S

-- `RollupTransition`; the type guards test for the fields that only one kind has. The created
-- account's public key stands beside the fields of the transfer.
pub data RollupTransition (S : Type 0) : Type 0 where
  swap_transition : SwapTransition S → RollupTransition S
  transfer_transition : TransferTransition S → RollupTransition S
  create_and_transfer_transition : TransferTransition S → Address → RollupTransition S

pub record Block (S : Type 0) : Type 0 where
  pub block_number : ℕ
  pub transitions : List (RollupTransition S)

-- `RollupTransitionPosition`
pub record Position : Type 0 where
  pub block_number : ℕ
  pub transition_index : ℕ

pub record StateSnapshot : Type 0 where
  pub slot_index : ℕ
  pub state : State
  pub state_root : ℕ
  pub inclusion_proof : List ℕ

pub record LocalFraudProof (S : Type 0) : Type 0 where
  pub fraud_position : Position
  pub fraud_inputs : StateSnapshot × StateSnapshot
  pub fraud_transition : RollupTransition S

-- `other_error` is an exception that the validator does not throw itself.
pub data ValidatorError : Type 0 where
  aggregator_unsupported local_machine validation_out_of_order other_error : ValidatorError

pub data Answer (A : Type 0) : Type 0 where
  answered : A → Answer A
  threw : ValidatorError → Answer A

-- What the validator uses of the rollup state machine; `none` is an exception.
pub record RollupMachine (M S : Type 0) : Type 0 where
  pub get_next_new_account_slot : M → ℕ
  pub get_snapshot_from_slot : ℕ → M → Option StateSnapshot × M
  pub apply_transaction : SignedTransaction S → Action M (StateUpdate ℕ S)
  pub get_state_root : M → ℕ

-- The storage slot of a `ContractFraudProof`.
pub record IncludedStorageSlot : Type 0 where
  pub value : State
  pub slot_index : ℕ
  pub siblings : List ℕ

-- `IncludedTransition` with its `TransitionInclusionProof`. The path is the index.
pub record IncludedTransition (E : Type 0) : Type 0 where
  pub transition : E
  pub block_number : ℕ
  pub transition_index : ℕ
  pub path : ℕ
  pub siblings : List ℕ

pub record ContractFraudProof (E : Type 0) : Type 0 where
  pub valid_included_transition : IncludedTransition E
  pub fraudulent_included_transition : IncludedTransition E
  pub included_storage_slots : IncludedStorageSlot × IncludedStorageSlot

-- `abiEncodeTransition`, and `getMerkleProof` in a tree of the given leaves; `none` is an exception.
pub record Encoding (S E : Type 0) : Type 0 where
  pub abi_encode_transition : RollupTransition S → E
  pub merkle_siblings : List E → ℕ → Option (List ℕ)

-- The fields of `DefaultRollupStateValidator`. `storedBlocks` has block n at index n - 1.
pub record Validator (M S : Type 0) : Type 0 where
  pub rollup_machine : M
  pub current_position : Position
  pub stored_blocks : ℕ → Option (Block S)

-- `transition.stateRoot`
abbrev pub claimed_root : {S : Type 0} → RollupTransition S → ℕ
claimed_root (swap_transition t) = t.state_root
claimed_root (transfer_transition t) = t.state_root
claimed_root (create_and_transfer_transition t a) = t.state_root

-- The slots of `getInputStateSnapshots`; 0 is `UNISWAP_STORAGE_SLOT`.
abbrev pub input_slots : {S : Type 0} → RollupTransition S → ℕ × ℕ
input_slots (swap_transition t) = (t.sender_slot_index, 0)
input_slots (transfer_transition t) = (t.sender_slot_index, t.recipient_slot_index)
input_slots (create_and_transfer_transition t a) = (t.sender_slot_index, t.recipient_slot_index)

-- `getTransactionFromTransitionAndSnapshots`
unfoldable pub get_transaction :
    {S : Type 0} → RollupTransition S → StateSnapshot × StateSnapshot → SignedTransaction S
get_transaction (create_and_transfer_transition t a) (s, r) = record {
  signature = t.signature;
  transaction = transfer_transaction (record {
    sender = s.state.pubkey;
    recipient = a;
    token_type = t.token_type;
    amount = t.amount;
  });
}
get_transaction (transfer_transition t) (s, r) = record {
  signature = t.signature;
  transaction = transfer_transaction (record {
    sender = s.state.pubkey;
    recipient = r.state.pubkey;
    token_type = t.token_type;
    amount = t.amount;
  });
}
get_transaction (swap_transition t) (s, r) = record {
  signature = t.signature;
  transaction = swap_transaction (record {
    sender = s.state.pubkey;
    token_type = t.token_type;
    input_amount = t.input_amount;
    min_output_amount = t.min_output_amount;
    timeout = t.timeout;
  });
}
