-- ===== src/Rollup/BlockBuilder/Writes.antt =====
-- The writes of a block in packages/rollup-aggregator/src/app/block-builder.ts: the last one to a slot
-- counts.
use pigi.Prelude.{
  ℕ, ◌≡◌, refl, sym, ap, ◌∙◌, Bool, true, false, ◌&&◌, Option, none, some, List, [], ◌∷◌, ◌++◌,
  String, ◌==◌, if◌then◌else◌, arith, Bool-cases, inl, inr, All,
}
use pigi.Rollup.BlockBuilder.Data.{TransactionStorage, TransactionResult}
use pigi.Rollup.BlockBuilder.Storage.{same_slot, set_slot, set_slots, modified_storage_map}

abbrev pub is_at : ℕ → ℕ → TransactionStorage → Bool
is_at contract slot w = w.contract_slot_index == contract && w.storage_slot_index == slot

-- What a map from slots to writes has for a slot
abbrev pub lookup_slot : ℕ → ℕ → List TransactionStorage → Option String
lookup_slot contract slot [] = none
lookup_slot contract slot (w ∷ ws) =
    let rest = lookup_slot contract slot ws in
    if is_at contract slot w then some w.storage else rest

abbrev or : Option String → Option String → Option String
or none o = o
or (some x) o = some x

-- The last of some writes, in their order, to a slot
abbrev pub last_write : ℕ → ℕ → List TransactionStorage → Option String
last_write contract slot [] = none
last_write contract slot (w ∷ ws) =
    or (last_write contract slot ws) (if is_at contract slot w then some w.storage else none)

abbrev pub writes_of : {X : Type 0} → List (TransactionResult X) → List TransactionStorage
writes_of [] = []
writes_of (r ∷ rs) = r.modified_storage ++ writes_of rs

-- No two writes are to the same slot.
abbrev pub IsDistinct : List TransactionStorage → Type 0
IsDistinct [] = Unit
IsDistinct (w ∷ ws) = All (λ v. same_slot w v ≡ false) ws × IsDistinct ws

or_assoc : (a b c : Option String) → or (or a b) c ≡ or a (or b c)
or_assoc none b c = refl
or_assoc (some x) b c = refl

lookup_slot-set_slot :
    (contract slot : ℕ) (w : TransactionStorage) (m : List TransactionStorage)
    → lookup_slot contract slot (set_slot w m)
      ≡ or (if is_at contract slot w then some w.storage else none) (lookup_slot contract slot m)
unfolding set_slot
lookup_slot-set_slot contract slot w [] = ground arith
lookup_slot-set_slot contract slot w (v ∷ vs) =
    ground (arith, lookup_slot-set_slot contract slot w vs)

lookup_slot-set_slots :
    (contract slot : ℕ) (ws m : List TransactionStorage)
    → lookup_slot contract slot (set_slots ws m)
      ≡ or (last_write contract slot ws) (lookup_slot contract slot m)
unfolding set_slots
lookup_slot-set_slots contract slot [] m = refl
lookup_slot-set_slots contract slot (w ∷ ws) m =
    lookup_slot-set_slots contract slot ws (set_slot w m)
    ∙ ap (or (last_write contract slot ws)) (lookup_slot-set_slot contract slot w m)
    ∙ sym (
        or_assoc (last_write contract slot ws)
          (if is_at contract slot w then some w.storage else none) (lookup_slot contract slot m))

last_write-append :
    (contract slot : ℕ) (xs ys : List TransactionStorage)
    → last_write contract slot (xs ++ ys)
      ≡ or (last_write contract slot ys) (last_write contract slot xs)
last_write-append contract slot [] ys = same (last_write contract slot ys)
  where
    same : (o : Option String) → o ≡ or o none
    same none = refl
    same (some x) = refl
last_write-append contract slot (x ∷ xs) ys =
    ap (λ o. or o (if is_at contract slot x then some x.storage else none))
      (last_write-append contract slot xs ys)
    ∙ or_assoc (last_write contract slot ys) (last_write contract slot xs)
        (if is_at contract slot x then some x.storage else none)

lookup_slot-modified_storage_map :
    {X : Type 0} (contract slot : ℕ) (rs : List (TransactionResult X)) (m : List TransactionStorage)
    → lookup_slot contract slot (modified_storage_map rs m)
      ≡ or (last_write contract slot (writes_of rs)) (lookup_slot contract slot m)
unfolding modified_storage_map
lookup_slot-modified_storage_map contract slot [] m = refl
lookup_slot-modified_storage_map contract slot (r ∷ rs) m =
    lookup_slot-modified_storage_map contract slot rs (set_slots r.modified_storage m)
    ∙ ap (or (last_write contract slot (writes_of rs)))
        (lookup_slot-set_slots contract slot r.modified_storage m)
    ∙ sym (
        or_assoc (last_write contract slot (writes_of rs))
          (last_write contract slot r.modified_storage) (lookup_slot contract slot m))
    ∙ ap (λ o. or o (lookup_slot contract slot m))
        (sym (last_write-append contract slot r.modified_storage (writes_of rs)))

set_slot-All :
    (v w : TransactionStorage) (m : List TransactionStorage)
    → same_slot v w ≡ false
    → All (λ x. same_slot v x ≡ false) m
    → All (λ x. same_slot v x ≡ false) (set_slot w m)
unfolding set_slot
set_slot-All v w [] h k = (h, tt)
set_slot-All v w (x ∷ xs) h k = elim (Bool-cases (same_slot w x)) [
  | inl e ↦ rw e (h, k.1)
  | inr e ↦ rw e (k.0, set_slot-All v w xs h k.1)
]

same_slot-All :
    (v w : TransactionStorage) (m : List TransactionStorage)
    → same_slot w v ≡ true
    → All (λ x. same_slot v x ≡ false) m
    → All (λ x. same_slot w x ≡ false) m
same_slot-All v w [] e k = tt
same_slot-All v w (x ∷ xs) e k = (ground (arith, e, k.0), same_slot-All v w xs e k.1)

set_slot-IsDistinct :
    (w : TransactionStorage) (m : List TransactionStorage)
    → IsDistinct m
    → IsDistinct (set_slot w m)
unfolding set_slot
set_slot-IsDistinct w [] h = (tt, tt)
set_slot-IsDistinct w (v ∷ vs) h = elim (Bool-cases (same_slot w v)) [
  | inl e ↦ rw e (same_slot-All v w vs e h.0, h.1)
  | inr e ↦ rw e (set_slot-All v w vs (ground (arith, e)) h.0, set_slot-IsDistinct w vs h.1)
]

set_slots-IsDistinct : (ws m : List TransactionStorage) → IsDistinct m → IsDistinct (set_slots ws m)
unfolding set_slots
set_slots-IsDistinct [] m h = h
set_slots-IsDistinct (w ∷ ws) m h =
    set_slots-IsDistinct ws (set_slot w m) (set_slot-IsDistinct w m h)

modified_storage_map-IsDistinct :
    {X : Type 0} (rs : List (TransactionResult X)) (m : List TransactionStorage)
    → IsDistinct m
    → IsDistinct (modified_storage_map rs m)
unfolding modified_storage_map
modified_storage_map-IsDistinct [] m h = h
modified_storage_map-IsDistinct (r ∷ rs) m h =
    modified_storage_map-IsDistinct rs (set_slots r.modified_storage m)
      (set_slots-IsDistinct r.modified_storage m h)

-- The map that a block is built from has no slot twice, and for each slot it has what the last write to
-- it, among those of all transactions of the block in order, puts there.
pub modified_storage_map-last_write :
    {X : Type 0} (rs : List (TransactionResult X))
    → IsDistinct (modified_storage_map rs [])
      × ((contract slot : ℕ)
          → lookup_slot contract slot (modified_storage_map rs [])
            ≡ last_write contract slot (writes_of rs))
modified_storage_map-last_write rs = (
  modified_storage_map-IsDistinct rs [] tt,
  λ contract slot.
      lookup_slot-modified_storage_map contract slot rs []
      ∙ same (last_write contract slot (writes_of rs)),
)
  where
    same : (o : Option String) → or o none ≡ o
    same none = refl
    same (some x) = refl
