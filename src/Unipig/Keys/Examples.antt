-- ===== src/Unipig/Keys/Examples.antt =====
-- The theorems on the address keys at a concrete table.
use pigi.Prelude.{arith, ◌≡◌, refl, none, [], ◌∷◌}
use pigi.Unipig.Types.{Address, state_machine_capacity, ok, err}
use pigi.Unipig.Keys.{KeyTable, get_or_create_address_key, find_open_key, found}
use pigi.Unipig.Keys.Numbering.{IsValid, IsResult, find_open_key-IsResult}
use pigi.Unipig.Keys.Allocation.{
  Outcome, get_or_create_address_key-Outcome, get_or_create_address_key-past_capacity,
}

abbrev two_keys : KeyTable
two_keys = record {
  addresses_to_keys = (4, 0) ∷ (5, 1) ∷ [];
  used_keys = 0 ∷ 1 ∷ [];
  last_open_key = 1;
  db = record { stored_entry = λ i. none; stored_count = none; stored_last_open_key = none };
}

two_keys-IsValid : IsValid two_keys
two_keys-IsValid = record { numbered = (refl, (refl, tt)); used = refl; last = refl }

get_or_create_address_key-Outcome_example :
    Outcome 3 6 two_keys (get_or_create_address_key 3 6 two_keys)
get_or_create_address_key-Outcome_example =
    get_or_create_address_key-Outcome 3 6 two_keys two_keys-IsValid

get_or_create_address_key-past_capacity_example :
    let (first, t') = get_or_create_address_key 1 6 two_keys in
    (first ≡ err state_machine_capacity) × ((get_or_create_address_key 1 7 t').0 ≡ ok 2)
get_or_create_address_key-past_capacity_example =
    get_or_create_address_key-past_capacity 1 6 7 two_keys two_keys-IsValid refl refl refl

abbrev five : Address
five = 5

-- Of the keys up to 5, the first one that is open from 0 on is 2.
open_key_test : find_open_key 6 (0 ∷ 1 ∷ 3 ∷ []) 5 0 ≡ found 2
unfolding find_open_key
open_key_test = refl

find_open_key-IsResult_example :
    IsResult (0 ∷ 1 ∷ 3 ∷ []) 5 0 (find_open_key 6 (0 ∷ 1 ∷ 3 ∷ []) 5 0)
find_open_key-IsResult_example = find_open_key-IsResult 6 (0 ∷ 1 ∷ 3 ∷ []) 5 0 (omega arith)
