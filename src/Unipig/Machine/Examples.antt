-- ===== src/Unipig/Machine/Examples.antt =====
-- The theorems on the state machine at a concrete configuration and state.
use pigi.Prelude.{
  ℕ, Bool, ◌+◌, ◌-◌, ◌/◌, ◌≡◌, refl, true, some, none, Option, [], ◌∷◌, ◌==◌, if◌then◌else◌,
}
use pigi.Prelude.Int.{ℤ, pos, pos_part, ◌+ℤ◌, ◌-ℤ◌, ◌*ℤ◌}
use pigi.Unipig.Types.{
  Address, Balances, State, Transfer, Swap, uni_token, pigi_token, transfer_transaction, Result, ok,
}
use pigi.Unipig.Effects.{Tree, Doubles, Config, Machine, SignedTransaction, StateUpdate, ◌>>=◌}
use pigi.Unipig.Keys.{KeyTable, get_or_create_address_key, find_open_key, add_entry}
use pigi.Unipig.Machine.{
  get_balances, new_output_balance, set_address_state, has_balance, apply_kind, store_root,
  inclusion_proof, apply_authorised, pay, exchange, update_balances_from_swap, apply_transfer,
  apply_swap, apply_transaction,
}
use pigi.Unipig.Machine.Payments.{Pays, apply_transfer-Pays, apply_transfer_self}
use pigi.Unipig.Machine.Swaps.{Swaps, apply_swap-Swaps}
use pigi.Unipig.Machine.Updates.{Describes, apply_transaction-Describes}

-- A tree that is its own root hash.
abbrev Leaves : Type 0
Leaves = ℕ → Option State

abbrev leaves_tree : Tree Leaves State Leaves
leaves_tree = record {
  get_leaf = λ t. t;
  update = λ t k l. (true, λ j. if j == k then some l else t j);
  get_root_hash = λ t. t;
  get_merkle_proof = λ t k l. some [];
}

-- Fractions.
abbrev fractions : Doubles (ℤ × ℤ)
fractions = record {
  of_ℤ = λ x. (x, pos 1);
  plus = λ (a, b) (c, d). (a *ℤ d +ℤ c *ℤ b, b *ℤ d);
  minus = λ (a, b) (c, d). (a *ℤ d -ℤ c *ℤ b, b *ℤ d);
  times = λ (a, b) (c, d). (a *ℤ c, b *ℤ d);
  over = λ (a, b) (c, d). (a *ℤ d, b *ℤ c);
  ceil = λ (a, b). pos ((pos_part a + pos_part b - 1) / pos_part b);
}

-- A signature is its signer; the fee is 0.3 percent.
abbrev config : Config Leaves State Leaves Address (ℤ × ℤ)
config = record {
  sparse_tree = leaves_tree;
  doubles = fractions;
  serialize_state = λ s. s;
  deserialize_state = some;
  verify_message = λ tx s. s;
  aggregator_address = 9;
  swap_fee_basis_points = pos 30;
  max_addresses = 7;
}

abbrev keys : KeyTable
keys = record {
  addresses_to_keys = (0, 0) ∷ (5, 1) ∷ [];
  used_keys = 0 ∷ 1 ∷ [];
  last_open_key = 1;
  db = record { stored_entry = λ i. none; stored_count = none; stored_last_open_key = none };
}

abbrev both : ℕ → Balances
both n = record { uni_balance = pos n; pigi_balance = pos n }

abbrev machine : Machine Leaves Leaves
machine = record {
  keys = keys;
  tree = λ k.
      if k == 0
      then some (record { pubkey = 0; balances = both 1000 })
      else (if k == 1 then some (record { pubkey = 5; balances = both 500 }) else none);
  stored_root = none;
}

abbrev transfer : Transfer
transfer = record { sender = 5; recipient = 6; token_type = uni_token; amount = pos 100 }

abbrev to_self : Transfer
to_self = record { sender = 5; recipient = 5; token_type = pigi_token; amount = pos 100 }

abbrev swap : Swap
swap = record {
  sender = 5;
  token_type = uni_token;
  input_amount = pos 100;
  min_output_amount = pos 80;
  timeout = 0;
}

abbrev signed_transfer : SignedTransaction Address
signed_transfer = record { signature = 5; transaction = transfer_transaction transfer }

abbrev account : Address → ℕ → ℕ → State
account a x y = record {
  pubkey = a;
  balances = record { uni_balance = pos x; pigi_balance = pos y };
}

abbrev tree_after : Leaves
tree_after =
    (leaves_tree.update (leaves_tree.update machine.tree 1 (account 5 400 500)).1 2
      (account 6 100 0)).1

abbrev keys_after : KeyTable
keys_after = record {
  addresses_to_keys = (0, 0) ∷ (5, 1) ∷ (6, 2) ∷ [];
  used_keys = 0 ∷ 1 ∷ 2 ∷ [];
  last_open_key = 2;
  db = record {
    stored_entry = λ i. if i == 2 then some (6, 2) else none;
    stored_count = some 3;
    stored_last_open_key = some 2;
  };
}

abbrev machine_after : Machine Leaves Leaves
machine_after = record { keys = keys_after; tree = tree_after; stored_root = some tree_after }

abbrev update : StateUpdate Leaves Address
update = record {
  transaction = signed_transfer;
  state_root = tree_after;
  sender_slot_index = 1;
  receiver_slot_index = 2;
  sender_state = account 5 400 500;
  sender_state_inclusion_proof = [];
  receiver_state = account 6 100 0;
  receiver_state_inclusion_proof = [];
  receiver_created = true;
}

applied : apply_transaction config signed_transfer machine ≡ (ok update, machine_after)
unfolding get_balances set_address_state get_or_create_address_key find_open_key add_entry
    has_balance pay apply_transfer apply_kind store_root inclusion_proof apply_authorised
    apply_transaction ◌>>=◌ ◌+ℤ◌ ◌-ℤ◌
applied = refl

apply_transaction-Describes_example : Describes config signed_transfer update machine_after
apply_transaction-Describes_example =
    apply_transaction-Describes config signed_transfer machine machine_after update applied

abbrev after_of : {A : Type 0} → Result A × Machine Leaves Leaves → Machine Leaves Leaves
after_of r = r.1

transferred :
    apply_transfer config transfer machine
    ≡ (ok (account 5 400 500, account 6 100 0), after_of (apply_transfer config transfer machine))
unfolding get_balances set_address_state get_or_create_address_key find_open_key add_entry
    has_balance pay apply_transfer ◌>>=◌ ◌+ℤ◌ ◌-ℤ◌
transferred = refl

apply_transfer-Pays_example :
    (b c : Balances) × Pays config transfer b c
      (account 5 400 500)
      (account 6 100 0)
      machine
      (after_of (apply_transfer config transfer machine))
apply_transfer-Pays_example =
    apply_transfer-Pays config transfer machine (after_of (apply_transfer config transfer machine))
      (account 5 400 500) (account 6 100 0) transferred

-- Party 5, who has 500, transfers 100 to itself and has 600.
self_transferred :
    apply_transfer config to_self machine
    ≡ (ok (account 5 500 400, account 5 500 600), after_of (apply_transfer config to_self machine))
unfolding get_balances set_address_state get_or_create_address_key has_balance pay apply_transfer
    ◌>>=◌ ◌+ℤ◌ ◌-ℤ◌
self_transferred = refl

apply_transfer_self_example :
    (b : Balances) × (get_balances config 5 machine ≡ (ok b, machine))
    × (transfer.sender ≡ 5)
    × (pos 600 ≡ b.pigi_balance +ℤ pos 100)
    × ((y : Bool) × (m1 : Machine Leaves Leaves) × (set_address_state config 5
            (account 5 500 600).balances
            m1
          ≡ (ok y, after_of (apply_transfer config to_self machine))))
apply_transfer_self_example =
    apply_transfer_self config to_self machine (after_of (apply_transfer config to_self machine))
      (account 5 500 400) (account 5 500 600) refl self_transferred

swapped :
    apply_swap config 5 swap machine
    ≡ (ok (account 5 400 590, account 0 1100 910), after_of (apply_swap config 5 swap machine))
unfolding get_balances set_address_state get_or_create_address_key new_output_balance exchange
    update_balances_from_swap apply_swap ◌>>=◌ ◌+ℤ◌ ◌-ℤ◌ ◌*ℤ◌
swapped = refl

apply_swap-Swaps_example :
    (b c : Balances) × Swaps config swap 5 b c
      (account 5 400 590)
      (account 0 1100 910)
      machine
      (after_of (apply_swap config 5 swap machine))
apply_swap-Swaps_example =
    apply_swap-Swaps config swap 5 machine (after_of (apply_swap config 5 swap machine))
      (account 5 400 590) (account 0 1100 910) swapped
