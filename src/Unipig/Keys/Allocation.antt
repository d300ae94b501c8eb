-- ===== src/Unipig/Keys/Allocation.antt =====
-- What `getOrCreateAddressKey` of packages/unipig/src/common/rollup-state-machine.ts promises its
-- callers.
use pigi.Prelude.{
  ℕ, suc, ◌+◌, ◌-◌, ◌≤◌, ◌<◌, ◌≡◌, ◌≢◌, refl, ◌∙◌, ap, none, some, List, [], ◌∷◌, ◌++◌, length, ltb,
  ◌==◌, if◌then◌else◌, arith, Bool-cases, Option-cases, inl, inr,
}
use pigi.Unipig.Types.{Address, state_machine_capacity, Result, ok, err}
use pigi.Unipig.Keys.{
  KeyTable, lookup, get_address_key, add_entry, get_or_create_address_key,
  get_next_new_account_slot,
}
use pigi.Unipig.Keys.Numbering.{
  Numbered, IsValid, get_or_create_address_key-new, add_entry-IsValid, not_has-size,
  find_open_key-found,
}

get_or_create_address_key-known :
    (m : ℕ) (a : Address) (t : KeyTable) (k : ℕ)
    → get_address_key a t ≡ some k
    → get_or_create_address_key m a t ≡ (ok k, t)
unfolding get_or_create_address_key
get_or_create_address_key-known m a t k e = ground arith

lookup-append :
    (a b : Address) (k : ℕ) (es : List (Address × ℕ))
    → lookup a es ≡ none
    → lookup b (es ++ (a, k) ∷ []) ≡ (if b == a then some k else lookup b es)
lookup-append a b k [] h = ground arith
lookup-append a b k ((c, j) ∷ es) h = ground (arith, lookup-append a b k es)

lookup-lt :
    (i : ℕ) (a : Address) (k : ℕ) (es : List (Address × ℕ))
    → Numbered i es
    → lookup a es ≡ some k
    → i ≤ k
lookup-lt i a k [] h e = cc
lookup-lt i a k ((b, j) ∷ es) h e = elim (Bool-cases (a == b)) [
  | inl same ↦ ground (arith, h.0)
  | inr other ↦ omega (arith, lookup-lt (suc i) a k es h.1 (rw other at e))
]

lookup-injective :
    (i : ℕ) (a b : Address) (k : ℕ) (es : List (Address × ℕ))
    → Numbered i es
    → lookup a es ≡ some k
    → lookup b es ≡ some k
    → a ≡ b
lookup-injective i a b k [] h e f = cc
lookup-injective i a b k ((c, j) ∷ es) h e f = ground (
  arith,
  lookup-injective (suc i) a b k es h.1,
  lookup-lt (suc i) a k es h.1,
  lookup-lt (suc i) b k es h.1,
)

-- In a valid table no two addresses have the same key.
pub get_address_key-injective :
    (t : KeyTable) (a b : Address) (k : ℕ)
    → IsValid t
    → get_address_key a t ≡ some k
    → get_address_key b t ≡ some k
    → a ≡ b
get_address_key-injective t a b k v e f =
    lookup-injective 0 a b k t.addresses_to_keys v.numbered e f

-- What a call that is to give `a` a key has done to the table `t`.
pub record Allocated (m : ℕ) (a : Address) (t : KeyTable) (k : ℕ) (t' : KeyTable) : Type 0 where
  pub valid : IsValid t'
  pub key : get_address_key a t' ≡ some k
  pub others : (b : Address) → b ≢ a → get_address_key b t' ≡ get_address_key b t
  pub kept : (j : ℕ) → get_address_key a t ≡ some j → (k ≡ j) × (t' ≡ t)

add_entry-key :
    (a b : Address) (k : ℕ) (t : KeyTable)
    → get_address_key a t ≡ none
    → get_address_key b (add_entry a k t) ≡ (if b == a then some k else get_address_key b t)
unfolding add_entry
add_entry-key a b k t h = lookup-append a b k t.addresses_to_keys h

Allocated-known :
    (m : ℕ) (a : Address) (t : KeyTable) (k : ℕ)
    → IsValid t
    → get_address_key a t ≡ some k
    → Allocated m a t k t
Allocated-known m a t k v e = record {
  valid = v;
  key = e;
  others = λ b n. refl;
  kept = λ j f. (ground arith, refl);
}

Allocated-new :
    (m : ℕ) (a : Address) (t : KeyTable)
    → IsValid t
    → get_address_key a t ≡ none
    → Allocated m a t (length t.addresses_to_keys) (add_entry a (length t.addresses_to_keys) t)
Allocated-new m a t v new = record {
  valid = add_entry-IsValid m t v a;
  key = ground (arith, add_entry-key a a (length t.addresses_to_keys) t new);
  others = λ b n. ground (arith, add_entry-key a b (length t.addresses_to_keys) t new);
  kept = λ j e. absurd (ground arith);
}

-- How a call ends: with a key, or at capacity with the entries as they were.
abbrev pub Outcome : ℕ → Address → KeyTable → Result ℕ × KeyTable → Type 0
Outcome m a t (ok k, t') = Allocated m a t k t'
Outcome m a t (err e, t') =
    (e ≡ state_machine_capacity)
    × (m < length t.addresses_to_keys)
    × (get_address_key a t ≡ none)
    × (t'.addresses_to_keys ≡ t.addresses_to_keys)

-- A call that returns a key has given it to the address, keeps the keys of all other addresses and
-- the numbering of the table, and changes nothing if the address had a key. A call fails only for a
-- new address, with the capacity error, where more than the maximal number of keys is in use, and
-- keeps the entries.
pub get_or_create_address_key-Outcome :
    (m : ℕ) (a : Address) (t : KeyTable)
    → IsValid t
    → Outcome m a t (get_or_create_address_key m a t)
get_or_create_address_key-Outcome m a t v = elim (Option-cases (get_address_key a t)) [
  | inr (j, known) ↦
      rw (get_or_create_address_key-known m a t j known) (Allocated-known m a t j v known)
  | inl new ↦
      rw (get_or_create_address_key-new m t v a new)
        (elim (Bool-cases (ltb m (length t.addresses_to_keys))) [
          | inl full ↦ rw full (refl, ground arith, new, refl)
          | inr room ↦ rw room (Allocated-new m a t v new)
        ])
]

-- While there is room, a new address gets the slot that `getNextNewAccountSlot` announces, if any
-- key is in use.
pub get_next_new_account_slot_lem :
    (m : ℕ) (a : Address) (t : KeyTable)
    → IsValid t
    → get_address_key a t ≡ none
    → 0 < length t.addresses_to_keys
    → length t.addresses_to_keys ≤ m
    → (get_or_create_address_key m a t).0 ≡ ok (get_next_new_account_slot t)
unfolding get_next_new_account_slot
get_next_new_account_slot_lem m a t v new some_key room =
    ground (arith, get_or_create_address_key-new m t v a new, v.last)

past_capacity :
    (m : ℕ) (b : Address) (t : KeyTable)
    → IsValid t
    → get_address_key b t ≡ none
    → let n = length t.addresses_to_keys in
      (get_or_create_address_key m b (record t { last_open_key = n })).0 ≡ ok n
unfolding get_or_create_address_key
past_capacity m b t v nb =
    let n = length t.addresses_to_keys in
    ground (arith, find_open_key-found (m - n) t.used_keys m n (not_has-size m t v n (omega arith)))

-- Once the keys from 0 to the maximum are in use, the first new address gets the capacity error, and
-- the next one gets a key above the maximum.
pub get_or_create_address_key-past_capacity :
    (m : ℕ) (a b : Address) (t : KeyTable)
    → IsValid t
    → length t.addresses_to_keys ≡ m + 1
    → get_address_key a t ≡ none
    → get_address_key b t ≡ none
    → let (first, t') = get_or_create_address_key m a t in
      (first ≡ err state_machine_capacity) × ((get_or_create_address_key m b t').0 ≡ ok (m + 1))
get_or_create_address_key-past_capacity m a b t v full na nb =
    let n = length t.addresses_to_keys in
    let e : get_or_create_address_key m a t
        ≡ (err state_machine_capacity, record t { last_open_key = n }) =
      ground (arith, get_or_create_address_key-new m t v a na) in
    rw e (refl, past_capacity m b t v nb ∙ ap ok full)
