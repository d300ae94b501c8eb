-- ===== src/Unipig/Keys/Numbering.antt =====
-- The keys that packages/unipig/src/common/rollup-state-machine.ts hands out.
use pigi.Prelude.{
  dec_lt, ℕ, zero, suc, ◌+◌, ◌-◌, ◌≤◌, ◌<◌, ◌≡◌, refl, sym, subst, ◌∙◌, ap, true, false, none, List,
  [], ◌∷◌, ◌++◌, length, ltb, ◌==◌, if◌then◌else◌, arith, Bool-cases, inl, inr, length-append,
}
use pigi.Unipig.Types.{Address, state_machine_capacity, ok, err}
use pigi.Unipig.Keys.{
  Search, KeyTable, has, get_address_key, found, at_capacity, out_of_fuel, find_open_key, add_entry,
  get_or_create_address_key, keys_of,
}

-- A result of the search from a key: the first one that is not in use, or else that all keys up to the
-- maximum are in use
abbrev pub IsResult : List ℕ → ℕ → ℕ → Search → Type 0
IsResult used m last (found k) =
    (last ≤ k) × (has k used ≡ false) × ((i : ℕ) → last ≤ i → i < k → has i used ≡ true)
IsResult used m last (at_capacity k) =
    (last < k) × (m < k) × ((i : ℕ) → last ≤ i → i < k → has i used ≡ true)
IsResult used m last out_of_fuel = ⊥

used_from :
    (used : List ℕ) (last k : ℕ)
    → has last used ≡ true
    → ((i : ℕ) → last + 1 ≤ i → i < k → has i used ≡ true)
    → (i : ℕ) → last ≤ i
    → i < k
    → has i used ≡ true
used_from used last k h f i l m = elim (Bool-cases (i == last)) [
  | inl same ↦ let e : last ≡ i = ground (arith, same) in subst (λ j. has j used ≡ true) e h
  | inr other ↦ f i (ground (arith, other, l)) m
]

-- For any keys in use, the search ends with a result, if the fuel exceeds the number of keys from the
-- last open one to the maximum: it finds the first key from there on that is not in use, or reports the
-- capacity where there is none up to the maximum.
pub find_open_key-IsResult :
    (fuel : ℕ) (used : List ℕ) (m last : ℕ)
    → m - last < fuel
    → IsResult used m last (find_open_key fuel used m last)
unfolding find_open_key
find_open_key-IsResult zero used m last h = absurd (omega arith)
find_open_key-IsResult (suc fuel) used m last h = elim (Bool-cases (has last used)) [
  | inr free ↦ rw free (omega arith, free, λ i l n. absurd (omega (arith, l, n)))
  | inl taken ↦
      rw taken
        (elim (Bool-cases (ltb m (last + 1)))
          as (λ _. IsResult used m last (
            if ltb m (last + 1)
            then at_capacity (last + 1)
            else find_open_key fuel used m (last + 1))) [
              | inl full ↦ rw full (
                omega arith,
                ground (arith, full),
                used_from used last (last + 1) taken (λ i l n. absurd (omega (arith, l, n))),
              )
              | inr room ↦ rw room (
                  next taken (find_open_key fuel used m (last + 1))
                    (find_open_key-IsResult fuel used m (last + 1) (ground (arith, h, room))))
            ])
]
  where
    next :
        has last used ≡ true → (r : Search) → IsResult used m (last + 1) r → IsResult used m last r
    next taken (found k) q = (omega (arith, q.0), q.1, used_from used last k taken q.2)
    next taken (at_capacity k) q = (omega (arith, q.0), q.1, used_from used last k taken q.2)
    next taken out_of_fuel q = q

-- The entries are numbered one after another from `i`.
abbrev pub Numbered : ℕ → List (Address × ℕ) → Type 0
Numbered i [] = Unit
Numbered i ((a, k) ∷ es) = (k ≡ i) × Numbered (suc i) es

-- The keys in use are those of the entries, 0, 1, 2 and so on, and the last open key is the last
-- of them.
pub record IsValid (t : KeyTable) : Type 0 where
  pub numbered : Numbered 0 t.addresses_to_keys
  pub used : t.used_keys ≡ keys_of t.addresses_to_keys
  pub last : t.last_open_key ≡ length t.addresses_to_keys - 1

has-Numbered :
    (i j : ℕ) (es : List (Address × ℕ))
    → Numbered i es
    → i ≤ j
    → j < i + length es
    → has j (keys_of es) ≡ true
has-Numbered i j [] h l u = absurd (omega arith)
has-Numbered i j ((a, k) ∷ es) h l u = elim (Bool-cases (j == k)) [
  | inl same ↦ rw same refl
  | inr other ↦ rw other (has-Numbered (suc i) j es h.1 (ground arith) (omega arith))
]

not_has-Numbered :
    (i j : ℕ) (es : List (Address × ℕ))
    → Numbered i es
    → i + length es ≤ j
    → has j (keys_of es) ≡ false
not_has-Numbered i j [] h u = refl
not_has-Numbered i j ((a, k) ∷ es) h u = ground (arith, not_has-Numbered (suc i) j es)

Numbered-append :
    (i : ℕ) (es : List (Address × ℕ)) (a : Address)
    → Numbered i es
    → Numbered i (es ++ (a, i + length es) ∷ [])
Numbered-append i [] a h = (omega arith, tt)
Numbered-append i ((b, k) ∷ es) a h =
    let e : suc i + length es ≡ i + suc (length es) = omega arith in
    (h.0, subst (λ n. Numbered (suc i) (es ++ (a, n) ∷ [])) e (Numbered-append (suc i) es a h.1))

keys_of-append :
    (es : List (Address × ℕ)) (a : Address) (k : ℕ)
    → keys_of (es ++ (a, k) ∷ []) ≡ keys_of es ++ k ∷ []
keys_of-append [] a k = refl
keys_of-append ((b, j) ∷ es) a k = ap (λ l. j ∷ l) (keys_of-append es a k)

-- A number that is open ends the search at once.
pub find_open_key-found :
    (fuel : ℕ) (used : List ℕ) (m last : ℕ)
    → has last used ≡ false
    → find_open_key (suc fuel) used m last ≡ found last
unfolding find_open_key
find_open_key-found fuel used m last h = rw h refl

find_open_key-next :
    (fuel : ℕ) (used : List ℕ) (m last : ℕ)
    → 0 < fuel
    → has last used ≡ true
    → last + 1 ≤ m
    → has (last + 1) used ≡ false
    → find_open_key (suc fuel) used m last ≡ found (last + 1)
unfolding find_open_key
find_open_key-next zero used m last f h l n = absurd (omega arith)
find_open_key-next (suc fuel) used m last f h l n =
    ground (arith, find_open_key-found fuel used m (last + 1))

find_open_key-full :
    (fuel : ℕ) (used : List ℕ) (m last : ℕ)
    → has last used ≡ true
    → m < last + 1
    → find_open_key (suc fuel) used m last ≡ at_capacity (last + 1)
unfolding find_open_key
find_open_key-full fuel used m last h l = ground arith

module _ (m : ℕ) (t : KeyTable) (v : IsValid t) where
  abbrev size : ℕ
  size = length t.addresses_to_keys

  has_last : 0 < size → has t.last_open_key t.used_keys ≡ true
  has_last p = rw v.used (
      has-Numbered 0 t.last_open_key t.addresses_to_keys v.numbered (omega arith)
        (omega (arith, v.last)))

  pub not_has-size : (j : ℕ) → size ≤ j → has j t.used_keys ≡ false
  not_has-size j l = rw v.used (not_has-Numbered 0 j t.addresses_to_keys v.numbered (omega arith))

  search_found :
      size ≤ m
      → find_open_key (suc (m - t.last_open_key)) t.used_keys m t.last_open_key ≡ found size
  search_found l = elim (dec_lt 0 size) [
    | yes some_key ↦
        let e : t.last_open_key + 1 ≡ size = omega (arith, v.last) in
        find_open_key-next (m - t.last_open_key) t.used_keys m t.last_open_key (omega arith)
          (has_last some_key) (omega arith) (not_has-size (t.last_open_key + 1) (omega arith))
        ∙ ap found e
    | no empty ↦
        let e : t.last_open_key ≡ size = omega (arith, v.last) in
        find_open_key-found (m - t.last_open_key) t.used_keys m t.last_open_key
          (not_has-size t.last_open_key (omega arith))
        ∙ ap found e
  ]

  search_full :
      m < size
      → find_open_key (suc (m - t.last_open_key)) t.used_keys m t.last_open_key ≡ at_capacity size
  search_full l =
      let e : t.last_open_key + 1 ≡ size = omega (arith, v.last) in
      find_open_key-full (m - t.last_open_key) t.used_keys m t.last_open_key
        (has_last (omega arith)) (omega arith)
      ∙ ap at_capacity e

  -- What a new address gets from a valid table: the next number, while there is room, and the
  -- capacity error after that, which leaves `lastOpenKey` one too high.
  pub get_or_create_address_key-new :
      (a : Address)
      → get_address_key a t ≡ none
      → get_or_create_address_key m a t ≡ (
          if ltb m size
          then (err state_machine_capacity, record t { last_open_key = size })
          else (ok size, add_entry a size t))
  unfolding get_or_create_address_key
  get_or_create_address_key-new a new = elim (Bool-cases (ltb m size)) [
    | inl full ↦ ground (arith, search_full)
    | inr room ↦ ground (arith, search_found)
  ]

  pub add_entry-IsValid : (a : Address) → IsValid (add_entry a size t)
  unfolding add_entry
  add_entry-IsValid a = record {
    numbered =
        let e : 0 + size ≡ size = omega arith in
        subst (λ n. Numbered 0 (t.addresses_to_keys ++ (a, n) ∷ [])) e
          (Numbered-append 0 t.addresses_to_keys a v.numbered);
    used = ap (λ l. l ++ size ∷ []) v.used ∙ sym (keys_of-append t.addresses_to_keys a size);
    last = omega (arith, length-append {0} t.addresses_to_keys ((a, size) ∷ []));
  }
