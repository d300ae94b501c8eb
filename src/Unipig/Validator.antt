-- ===== src/Unipig/Validator.antt =====
-- packages/unipig/src/validator/rollup-state-validator.ts and the block of validator/types.ts, with
-- the transitions of packages/unipig/src/types/types.ts. Hashes and roots are only compared, so they
-- are numbers. Each call runs to its end before the next one begins.
mod Data
pub mod Checking
pub mod Blocks
pub mod Detection
pub mod Accusation
mod Examples
unfoldable pub use Data.*
use pigi.Prelude.{
  ℕ, zero, suc, ◌+◌, ◌-◌, Bool, true, false, not, Option, none, some, List, [], ◌∷◌, length,
  get_elem?, map, ◌==◌, if◌then◌else◌,
}
use pigi.Prelude.Int.{ℤ}
use pigi.Unipig.Types.{
  Address, TokenType, State, RollupTransaction, swap_transaction, transfer_transaction,
  is_state_transition_error, ok, err,
}
use pigi.Unipig.Effects.{SignedTransaction, StateUpdate, Action}

module _ {S E : Type 0} (encoding : Encoding S E) where
  -- `getIncludedTransition` with `getInclusionProof` of a `DefaultRollupBlock`, after `generateTree`
  unfoldable pub get_included_transition : Block S → ℕ → Option (IncludedTransition E)
  get_included_transition b i =
      let encoded = map encoding.abi_encode_transition b.transitions in
      elim (get_elem? encoded i) [
        | none ↦ none
        | some e ↦ elim (encoding.merkle_siblings encoded i) [
          | none ↦ none
          | some siblings ↦ some (record {
            transition = e;
            block_number = b.block_number;
            transition_index = i;
            path = i;
            siblings = siblings;
          })
        ]
      ]

  -- The last transition of a block, if there is one.
  unfoldable pub get_last_transition : Option (Block S) → ℕ → Option (IncludedTransition E)
  unfolding get_included_transition
  get_last_transition none n = none
  get_last_transition (some b) n = elim b.transitions [
    | [] ↦ none
    | t ∷ ts ↦
        get_included_transition (record { block_number = n; transitions = b.transitions })
          (length ts)
  ]

  -- `includedStorageSlots`: both have the siblings of the second input.
  unfoldable pub storage_slots :
      StateSnapshot × StateSnapshot → IncludedStorageSlot × IncludedStorageSlot
  storage_slots (s, r) = (
    record { value = s.state; slot_index = s.slot_index; siblings = r.inclusion_proof },
    record { value = r.state; slot_index = r.slot_index; siblings = r.inclusion_proof },
  )

  -- `validIncludedTransition`: the transition before the one at the current position
  unfoldable pub valid_transition :
      {M : Type 0} → Block S → Validator M S → Option (IncludedTransition E)
  unfolding get_last_transition
  valid_transition b v = elim v.current_position.transition_index [
    | zero ↦
        let previous = v.current_position.block_number - 1 in
        get_last_transition (v.stored_blocks previous) previous
    | suc i ↦ get_included_transition b i
  ]

  -- `generateContractFraudProof`
  unfoldable pub generate_contract_fraud_proof :
      {M : Type 0} → LocalFraudProof S → Block S → Validator M S → Option (ContractFraudProof E)
  unfolding valid_transition storage_slots
  generate_contract_fraud_proof f b v =
      elim (get_included_transition b v.current_position.transition_index) [
        | none ↦ none
        | some fraudulent ↦ elim (valid_transition b v) [
          | none ↦ none
          | some valid ↦ some (record {
            valid_included_transition = valid;
            fraudulent_included_transition = fraudulent;
            included_storage_slots = storage_slots f.fraud_inputs;
          })
        ]
      ]

module _ {M S : Type 0} (rollup : RollupMachine M S) where
  -- The test of `checkNextTransition` that a created account gets the next slot.
  abbrev pub is_sequential : RollupTransition S → M → Bool
  is_sequential (create_and_transfer_transition t a) m =
      rollup.get_next_new_account_slot m == t.recipient_slot_index
  is_sequential (transfer_transition t) m = true
  is_sequential (swap_transition t) m = true

  -- `getInputStateSnapshots`
  unfoldable pub get_input_state_snapshots :
      RollupTransition S → M → Option (StateSnapshot × StateSnapshot) × M
  get_input_state_snapshots t m =
      let (first_slot, second_slot) = input_slots t in
      let (s, m1) = rollup.get_snapshot_from_slot first_slot m in
      elim s [
        | none ↦ (none, m1)
        | some a ↦
            let (r, m2) = rollup.get_snapshot_from_slot second_slot m1 in
            (elim r [ none ↦ none | some b ↦ some (a, b) ], m2)
      ]

  -- `checkNextTransition`, from the call of `applyTransaction` on.
  unfoldable pub apply_and_compare :
      RollupTransition S
      → StateSnapshot × StateSnapshot
      → Validator M S
      → Answer (Option (LocalFraudProof S)) × Validator M S
  unfolding get_transaction
  apply_and_compare t inputs v =
      let (r, m) = rollup.apply_transaction (get_transaction t inputs) v.rollup_machine in
      let after : Validator M S = record v { rollup_machine = m } in
      let proof : LocalFraudProof S = record {
        fraud_position = v.current_position;
        fraud_inputs = inputs;
        fraud_transition = t;
      } in
      elim r [
        | err e ↦
            if is_state_transition_error e
            then (answered (some proof), after)
            else (threw local_machine, after)
        | ok u ↦
            if rollup.get_state_root m == claimed_root t
            then (
              answered none,
              record after {
                current_position = record v.current_position {
                  transition_index = v.current_position.transition_index + 1;
                };
              },
            )
            else (answered (some proof), after)
      ]

  -- `checkNextTransition`
  unfoldable pub check_next_transition :
      RollupTransition S → Validator M S → Answer (Option (LocalFraudProof S)) × Validator M S
  unfolding get_input_state_snapshots apply_and_compare
  check_next_transition t v =
      if not (is_sequential t v.rollup_machine)
      then (threw aggregator_unsupported, v)
      else (let (inputs, m) = get_input_state_snapshots t v.rollup_machine in
          elim inputs [
            | none ↦ (threw other_error, record v { rollup_machine = m })
            | some i ↦ apply_and_compare t i (record v { rollup_machine = m })
          ])

  -- The loop of `validateStoredBlock`
  unfoldable pub check_transitions :
      List (RollupTransition S)
      → Validator M S
      → Answer (Option (LocalFraudProof S)) × Validator M S
  unfolding check_next_transition
  check_transitions [] v = (answered none, v)
  check_transitions (t ∷ ts) v =
      let (a, v') = check_next_transition t v in
      elim a [
        | threw e ↦ (threw e, v')
        | answered fraud ↦ elim fraud [
          | none ↦ check_transitions ts v'
          | some f ↦ (answered (some f), v')
        ]
      ]

  -- `storeBlock`
  unfoldable pub store_block : Block S → Validator M S → Validator M S
  store_block b v = record v {
    stored_blocks = λ n. if n == b.block_number then some b else v.stored_blocks n;
  }

  -- `validateStoredBlock`, after its checks
  unfoldable pub validate_block :
      {E : Type 0}
      → Encoding S E
      → Block S
      → Validator M S
      → Answer (Option (ContractFraudProof E)) × Validator M S
  unfolding check_transitions generate_contract_fraud_proof
  validate_block encoding b v =
      let (a, v') = check_transitions b.transitions v in
      elim a [
        | threw e ↦ (threw e, v')
        | answered fraud ↦ elim fraud [
          | none ↦ (
            answered none,
            record v' {
              current_position = record {
                block_number = v'.current_position.block_number + 1;
                transition_index = 0;
              };
            },
          )
          | some f ↦ (
            elim (generate_contract_fraud_proof encoding f b v') [
              | none ↦ threw other_error
              | some p ↦ answered (some p)
            ],
            v',
          )
        ]
      ]

  -- `validateStoredBlock`
  unfoldable pub validate_stored_block :
      {E : Type 0}
      → Encoding S E
      → ℕ
      → Validator M S
      → Answer (Option (ContractFraudProof E)) × Validator M S
  unfolding validate_block
  validate_stored_block encoding n v = elim (v.stored_blocks n) [
    | none ↦ (threw validation_out_of_order, v)
    | some b ↦
        if not (b.block_number == v.current_position.block_number)
        then (threw validation_out_of_order, v)
        else validate_block encoding b v
  ]
