-- ===== src/CoreDb/RangeBucket.antt =====
-- `BaseRangeBucket` of packages/core-db/src/app/range-bucket.ts over the sorted key-value store that it
-- is given. The store here is the part of it under the bucket's prefix: the test of the prefix ends a
-- loop where that part ends. A key is the end of a range, as `key_length` bytes in big-endian, so that
-- keys are in the order of the ends; the start stands before the data in the value. `none` is an error.
pub mod Chains
pub mod Store
pub mod Parts
pub mod Putting
pub mod Reading
mod Examples
use pigi.Prelude.{
  ℕ, ◌^◌, Bool, true, false, not, Option, none, some, List, [], ◌∷◌, ◌++◌, length, ltb, leb, min,
  max, ◌==◌, if◌then◌else◌,
}

pub record RangeEntry (V : Type 0) : Type 0 where
  pub start : ℕ
  pub end : ℕ
  pub value : V

-- `put` and `del` of a batch
pub data Batch (V : Type 0) : Type 0 where
  put_key : RangeEntry V → Batch V
  del_key : ℕ → Batch V

-- `intersects` of utils/range.ts, on keys
abbrev pub intersects : ℕ → ℕ → ℕ → ℕ → Bool
intersects start1 end1 start2 end2 = ltb (max start1 start2) (min end1 end2)

-- Whether `bnToKey` makes a key of the number, or throws.
abbrev pub is_key : ℕ → ℕ → Bool
is_key key_length n = ltb n (256 ^ key_length)

module _ {V : Type 0} where
  -- The store, written at a key
  unfoldable pub put_entry : RangeEntry V → List (RangeEntry V) → List (RangeEntry V)
  put_entry e [] = e ∷ []
  put_entry e (x ∷ xs) = elim (ltb x.end e.end) [
    | true ↦ x ∷ put_entry e xs
    | false ↦ if x.end == e.end then e ∷ xs else e ∷ x ∷ xs
  ]

  unfoldable pub delete_key : ℕ → List (RangeEntry V) → List (RangeEntry V)
  delete_key k [] = []
  delete_key k (x ∷ xs) = let rest = delete_key k xs in if x.end == k then rest else x ∷ rest

  -- `db.batch`
  unfoldable pub batch : List (Batch V) → List (RangeEntry V) → List (RangeEntry V)
  unfolding put_entry delete_key
  batch [] es = es
  batch (put_key e ∷ ops) es = batch ops (put_entry e es)
  batch (del_key k ∷ ops) es = batch ops (delete_key k es)

  -- The iterator over the keys that are greater than the given one
  unfoldable pub seek : ℕ → List (RangeEntry V) → List (RangeEntry V)
  seek k [] = []
  seek k (x ∷ xs) = let rest = seek k xs in if ltb k x.end then x ∷ xs else rest

  -- The loop of `get`
  unfoldable pub take_intersecting : ℕ → ℕ → List (RangeEntry V) → List (RangeEntry V)
  take_intersecting start end [] = []
  take_intersecting start end (x ∷ xs) =
      let rest = take_intersecting start end xs in
      if intersects start end x.start x.end then x ∷ rest else []

  -- The batch operations that delete the given ranges
  unfoldable pub deletions : List (RangeEntry V) → List (Batch V)
  deletions [] = []
  deletions (x ∷ xs) = del_key x.end ∷ deletions xs

  abbrev pub last_of : RangeEntry V → List (RangeEntry V) → RangeEntry V
  last_of x [] = x
  last_of x (y ∷ ys) = last_of y ys

  -- The first range up to the start, where it begins before it
  unfoldable pub left_part : ℕ → List (RangeEntry V) → List (RangeEntry V)
  left_part start [] = []
  left_part start (x ∷ xs) =
      if ltb x.start start
      then record { start = x.start; end = start; value = x.value } ∷ []
      else []

  -- The last range from the end on, where it ends behind it
  unfoldable pub right_part : ℕ → List (RangeEntry V) → List (RangeEntry V)
  right_part end [] = []
  right_part end (x ∷ xs) =
      let last = last_of x xs in
      if ltb end last.end
      then record { start = end; end = last.end; value = last.value } ∷ []
      else []

  unfoldable pub insertions : List (RangeEntry V) → List (Batch V)
  insertions [] = []
  insertions (x ∷ xs) = put_key x ∷ insertions xs

  module _ (key_length : ℕ) where
    -- `get`
    unfoldable pub get : ℕ → ℕ → List (RangeEntry V) → Option (List (RangeEntry V))
    unfolding seek take_intersecting
    get start end es =
        if not (ltb start end)
        then none
        else if not (is_key key_length start)
        then none
        else elim (seek start es) [
          | [] ↦ some []
          | x ∷ xs ↦
              if is_key key_length end then some (take_intersecting start end (x ∷ xs)) else none
        ]

    -- `put`, which deletes what `delBatchOps` finds
    unfoldable pub put : ℕ → ℕ → V → List (RangeEntry V) → Option (List (RangeEntry V))
    unfolding get deletions left_part right_part insertions batch
    put start end value es = elim (get start end es) [
      | none ↦ none
      | some ranges ↦
          if is_key key_length end
          then some (
              batch
                (deletions ranges
                  ++ insertions (
                      left_part start ranges
                      ++ (right_part end ranges
                          ++ record { start = start; end = end; value = value } ∷ [])))
                es)
          else none
    ]

    -- `del`
    unfoldable pub del :
        ℕ → ℕ → List (RangeEntry V) → Option (List (RangeEntry V) × List (RangeEntry V))
    unfolding get deletions batch
    del start end es = elim (get start end es) [
      | none ↦ none
      | some ranges ↦ some (ranges, batch (deletions ranges) es)
    ]

    -- `hasDataInRange`
    unfoldable pub has_data_in_range : ℕ → ℕ → List (RangeEntry V) → Option Bool
    unfolding get
    has_data_in_range start end es = elim (get start end es) [
      | none ↦ none
      | some ranges ↦ some (ltb 0 (length ranges))
    ]
