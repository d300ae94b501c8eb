-- ===== src/Unipig/Keys.antt =====
-- The address keys of packages/unipig/src/common/rollup-state-machine.ts: `addressesToKeys`,
-- `usedKeys` and `lastOpenKey`, with what `getOrCreateAddressKey` writes to the database. A map and
-- a set keep the order of insertion.
pub mod Numbering
pub mod Allocation
mod Examples
use pigi.Prelude.{
  ℕ, zero, suc, ◌+◌, ◌-◌, ◌≡◌, Bool, true, false, ◌||◌, Option, none, some, List, [], ◌∷◌, ◌++◌,
  length, ltb, ◌==◌, if◌then◌else◌,
}
use pigi.Unipig.Types.{Address, Error, state_machine_capacity, Result, ok, err}

-- `getAddressMapDBKey(i)`, `ADDRESS_TO_KEYS_COUNT_KEY` and `LAST_OPEN_KEY`.
pub record KeyDb : Type 0 where
  pub stored_entry : ℕ → Option (Address × ℕ)
  pub stored_count : Option ℕ
  pub stored_last_open_key : Option ℕ

pub record KeyTable : Type 0 where
  pub addresses_to_keys : List (Address × ℕ)
  pub used_keys : List ℕ
  pub last_open_key : ℕ
  pub db : KeyDb

-- `addressesToKeys.get(address)`
abbrev pub lookup : Address → List (Address × ℕ) → Option ℕ
lookup a [] = none
lookup a ((b, k) ∷ es) = if a == b then some k else lookup a es

-- `usedKeys.has(key)`
abbrev pub has : ℕ → List ℕ → Bool
has k [] = false
has k (j ∷ ks) = k == j || has k ks

-- `getAddressKey`
abbrev pub get_address_key : Address → KeyTable → Option ℕ
get_address_key a t = lookup a t.addresses_to_keys

-- How the search for an open key ends, with `lastOpenKey`.
pub data Search : Type 0 where
  found : ℕ → Search
  at_capacity : ℕ → Search
  out_of_fuel : Search

-- The `while` loop of `getOrCreateAddressKey`.
unfoldable pub find_open_key : ℕ → List ℕ → ℕ → ℕ → Search
find_open_key zero used max_addresses last = out_of_fuel
find_open_key (suc fuel) used max_addresses last =
    let rest = find_open_key fuel used max_addresses (last + 1) in
    if has last used
    then (if ltb max_addresses (last + 1) then at_capacity (last + 1) else rest)
    else found last

-- `getOrCreateAddressKey` after the loop: the new entry, in memory and in the database.
unfoldable pub add_entry : Address → ℕ → KeyTable → KeyTable
add_entry a k t =
    let entries = t.addresses_to_keys ++ (a, k) ∷ [] in
    record {
      addresses_to_keys = entries;
      used_keys = t.used_keys ++ k ∷ [];
      last_open_key = k;
      db = record {
        stored_entry = λ i. if i == length entries - 1 then some (a, k) else t.db.stored_entry i;
        stored_count = some (length entries);
        stored_last_open_key = some k;
      };
    }

-- `getOrCreateAddressKey`; the fuel is enough for every table, and the case without is not reached.
unfoldable pub get_or_create_address_key : ℕ → Address → KeyTable → Result ℕ × KeyTable
unfolding find_open_key add_entry
get_or_create_address_key max_addresses a t = elim (get_address_key a t) [
  | some k ↦ (ok k, t)
  | none ↦
      elim (find_open_key (suc (max_addresses - t.last_open_key)) t.used_keys max_addresses
        t.last_open_key) [
          | found k ↦ (ok k, add_entry a k t)
          | at_capacity last ↦ (err state_machine_capacity, record t { last_open_key = last })
          | out_of_fuel ↦ (err state_machine_capacity, t)
        ]
]

-- `getNextNewAccountSlot`
unfoldable pub get_next_new_account_slot : KeyTable → ℕ
get_next_new_account_slot t = t.last_open_key + 1

abbrev pub keys_of : List (Address × ℕ) → List ℕ
keys_of [] = []
keys_of ((a, k) ∷ es) = k ∷ keys_of es
