-- ===== src/Unipig/Validator/Examples.antt =====
-- The theorems on the validator at a concrete machine and concrete blocks.
use pigi.Prelude.{ℕ, suc, ◌≡◌, refl, false, none, some, [], ◌∷◌, ◌==◌, if◌then◌else◌, arith}
use pigi.Prelude.Int.{pos}
use pigi.Unipig.Types.{
  State, no_balances, uni_token, transfer_transaction, swap_transaction, faucet_transaction,
  RollupTransaction, Result, ok, err, slippage, invalid_transaction_type,
}
use pigi.Unipig.Effects.{StateUpdate, SignedTransaction}
use pigi.Unipig.Validator.{
  RollupTransition, transfer_transition, Block, StateSnapshot, ContractFraudProof, RollupMachine,
  Encoding, Validator, answered, get_transaction, get_input_state_snapshots, validate_stored_block,
}
use pigi.Unipig.Validator.Checking.{Applied, Honest, AllHonest, no_transitions, one_more, advanced}
use pigi.Unipig.Validator.Blocks.{
  at_next_block, validate_stored_block-honest, validate_stored_block-AllHonest,
}
use pigi.Unipig.Validator.Accusation.{Accuses, validate_stored_block-Accuses}

abbrev account : ℕ → State
account k = record { pubkey = k; balances = no_balances }

abbrev update : SignedTransaction ℕ → ℕ → StateUpdate ℕ ℕ
update tx root = record {
  transaction = tx;
  state_root = root;
  sender_slot_index = 1;
  receiver_slot_index = 2;
  sender_state = account 1;
  sender_state_inclusion_proof = [];
  receiver_state = account 2;
  receiver_state_inclusion_proof = [];
  receiver_created = false;
}

abbrev apply_counting : RollupTransaction → SignedTransaction ℕ → ℕ → Result (StateUpdate ℕ ℕ) × ℕ
apply_counting (transfer_transaction t) tx m = (ok (update tx (suc m)), suc m)
apply_counting (swap_transaction s) tx m = (err slippage, m)
apply_counting (faucet_transaction f) tx m = (err invalid_transaction_type, m)

-- A machine that counts transfers, and whose root is the count.
abbrev counter : RollupMachine ℕ ℕ
counter = record {
  get_next_new_account_slot = λ m. m;
  get_snapshot_from_slot = λ k m. (
    some (record { slot_index = k; state = account k; state_root = m; inclusion_proof = [] }),
    m,
  );
  apply_transaction = λ tx m. apply_counting tx.transaction tx m;
  get_state_root = λ m. m;
}

abbrev plain : Encoding ℕ (RollupTransition ℕ)
plain = record { abi_encode_transition = λ t. t; merkle_siblings = λ es i. some [] }

abbrev transfer_to : ℕ → RollupTransition ℕ
transfer_to root = transfer_transition (record {
  state_root = root;
  sender_slot_index = 1;
  recipient_slot_index = 2;
  token_type = uni_token;
  amount = pos 1;
  signature = 0;
})

abbrev good_block : Block ℕ
good_block = record { block_number = 1; transitions = transfer_to 1 ∷ transfer_to 2 ∷ [] }

abbrev bad_block : Block ℕ
bad_block = record { block_number = 1; transitions = transfer_to 1 ∷ transfer_to 7 ∷ [] }

abbrev before : Block ℕ → Validator ℕ ℕ
before b = record {
  rollup_machine = 0;
  current_position = record { block_number = 1; transition_index = 0 };
  stored_blocks = λ n. if n == 1 then some b else none;
}

abbrev snapshot : ℕ → ℕ → StateSnapshot
snapshot k m = record { slot_index = k; state = account k; state_root = m; inclusion_proof = [] }

abbrev applied :
    (root m : ℕ)
    → Applied counter
        (transfer_to root)
        m
        (ok (update (get_transaction (transfer_to root) (snapshot 1 m, snapshot 2 m)) (suc m)))
        (suc m)
unfolding get_transaction get_input_state_snapshots
applied root m = record {
  inputs = (snapshot 1 m, snapshot 2 m);
  read = m;
  sequential = refl;
  reading = refl;
  applying = refl;
}

abbrev honest : (m : ℕ) → Honest counter (transfer_to (suc m)) m (suc m)
honest m = record {
  state_update =
      update (get_transaction (transfer_to (suc m)) (snapshot 1 m, snapshot 2 m)) (suc m);
  applied = applied (suc m) m;
  root = refl;
}

good_block-AllHonest : AllHonest counter good_block.transitions 0 2
good_block-AllHonest = one_more (honest 0) (one_more (honest 1) no_transitions)

validate_stored_block-honest_example :
    validate_stored_block counter plain 1 (before good_block)
    ≡ (answered none, at_next_block counter 2 (before good_block))
validate_stored_block-honest_example =
    validate_stored_block-honest counter plain good_block (before good_block) 2 refl refl
      good_block-AllHonest

validate_stored_block-AllHonest_example :
    (b : Block ℕ) × (some good_block ≡ some b)
    × (b.block_number ≡ 1)
    × AllHonest counter b.transitions 0 2
    × (at_next_block counter 2 (before good_block) ≡ at_next_block counter 2 (before good_block))
validate_stored_block-AllHonest_example =
    validate_stored_block-AllHonest counter plain 1 (before good_block)
      (at_next_block counter 2 (before good_block))
      (validate_stored_block-honest counter plain good_block (before good_block) 2 refl refl
        good_block-AllHonest)

validate_stored_block-Accuses_example :
    (p : ContractFraudProof (RollupTransition ℕ)) × (validate_stored_block counter plain 1
        (before bad_block)
      ≡ (answered (some p), advanced counter 1 2 (before bad_block)))
    × Accuses counter plain
        (applied 7 1).inputs
        (transfer_to 1 ∷ [])
        (transfer_to 7)
        bad_block
        (advanced counter 1 2 (before bad_block))
        p
validate_stored_block-Accuses_example =
    validate_stored_block-Accuses counter plain (λ es i e h q. cc) bad_block (before bad_block)
      (transfer_to 1 ∷ []) [] (transfer_to 7) 1 2
      (ok (update (get_transaction (transfer_to 7) (snapshot 1 1, snapshot 2 1)) 2)) refl refl refl
      refl (one_more (honest 0) no_transitions) (applied 7 1) (omega arith) tt
