-- ===== src/CoreDb/BlockRanges.antt =====
-- `DefaultBlockRange` of packages/core-db/src/app/utils/range.ts, and `BlockRange` of
-- packages/core-utils/src/types/range.ts. The methods take the `ranges` of the store and return them as
-- they are left; `none` is an error that is thrown.
pub mod Weights
pub mod Sorting
pub mod Removal
pub mod Removing
pub mod Adding
pub mod Merging
mod Examples
use pigi.Prelude.{
  ℕ, ◌+◌, ◌-◌, Bool, true, false, not, ◌&&◌, Option, none, some, List, [], ◌∷◌, ◌++◌, ltb, leb, min,
  max, if◌then◌else◌,
}
use pigi.CoreDb.Range.{Range, get_overlapping_range}

pub record BlockRange : Type 0 where
  pub start : ℕ
  pub end : ℕ
  pub block : ℕ

abbrev pub range_of : BlockRange → Range
range_of b = record { start = b.start; end = b.end }

-- `getOverlapping`
unfoldable pub get_overlapping : Range → List BlockRange → List BlockRange
unfolding get_overlapping_range
get_overlapping range [] = []
get_overlapping range (existing ∷ rest) = elim (get_overlapping_range (range_of existing) range) [
  | none ↦ get_overlapping range rest
  | some overlapping ↦
      record existing { start = overlapping.start; end = overlapping.end }
      ∷ get_overlapping range rest
]

-- The test of the filter in `removeRange`
abbrev pub holds : BlockRange → BlockRange → Bool
holds overlap r = leb r.start overlap.start && leb overlap.end r.end

-- `this.ranges.filter(...)`
unfoldable pub kept : BlockRange → List BlockRange → List BlockRange
kept overlap [] = []
kept overlap (r ∷ rs) = if holds overlap r then kept overlap rs else r ∷ kept overlap rs

-- `removed` after the filter: the last that it drops
unfoldable pub removed : BlockRange → List BlockRange → Option BlockRange
removed overlap [] = none
removed overlap (r ∷ rs) = elim (removed overlap rs) [
  | some later ↦ some later
  | none ↦ if holds overlap r then some r else none
]

unfoldable pub left_remainder : BlockRange → BlockRange → List BlockRange
left_remainder overlap r =
    if ltb r.start overlap.start then record r { end = overlap.start } ∷ [] else []

unfoldable pub right_remainder : BlockRange → BlockRange → List BlockRange
right_remainder overlap r =
    if ltb overlap.end r.end then record r { start = overlap.end } ∷ [] else []

-- The body of the loop of `removeRange`; where nothing is dropped, `removed.start` is an error.
unfoldable pub remove_overlap : BlockRange → List BlockRange → Option (List BlockRange)
unfolding kept removed left_remainder right_remainder
remove_overlap overlap rs = elim (removed overlap rs) [
  | none ↦ none
  | some r ↦ some (kept overlap rs ++ (left_remainder overlap r ++ right_remainder overlap r))
]

unfoldable pub remove_overlaps : List BlockRange → List BlockRange → Option (List BlockRange)
unfolding remove_overlap
remove_overlaps [] rs = some rs
remove_overlaps (overlap ∷ more) rs = elim (remove_overlap overlap rs) [
  | none ↦ none
  | some rs' ↦ remove_overlaps more rs'
]

-- Whether `toNumber` gives the difference of two starts as a number, or throws.
abbrev pub is_number : ℕ → ℕ → Bool
is_number a b = ltb (max a b - min a b) 9007199254740992

-- `sortRanges`, as a stable insertion sort, which throws where it compares two starts whose difference is
-- no number. JavaScript leaves open which pairs a sort compares.
unfoldable pub insert_range : BlockRange → List BlockRange → Option (List BlockRange)
insert_range r [] = some (r ∷ [])
insert_range r (x ∷ xs) =
    let rest = insert_range r xs in
    if is_number r.start x.start
    then (if leb r.start x.start
        then some (r ∷ x ∷ xs)
        else elim rest [ none ↦ none | some ys ↦ some (x ∷ ys) ])
    else none

unfoldable pub sort_ranges : List BlockRange → Option (List BlockRange)
unfolding insert_range
sort_ranges [] = some []
sort_ranges (r ∷ rs) = elim (sort_ranges rs) [ none ↦ none | some ys ↦ insert_range r ys ]

-- `removeRange`
unfoldable pub remove_range : Range → List BlockRange → Option (List BlockRange)
unfolding get_overlapping remove_overlaps sort_ranges
remove_range range rs = elim (remove_overlaps (get_overlapping range rs) rs) [
  | none ↦ none
  | some rs' ↦ sort_ranges rs'
]

-- The loop of `addRange`, on `toAdd.ranges` and `this.ranges`
unfoldable pub add_overlaps :
    ℕ
    → List BlockRange
    → List BlockRange
    → List BlockRange
    → Option (List BlockRange × List BlockRange)
unfolding remove_range
add_overlaps block [] to_add rs = some (to_add, rs)
add_overlaps block (overlap ∷ more) to_add rs =
    if ltb block overlap.block
    then elim (remove_range (range_of overlap) to_add) [
      | none ↦ none
      | some left ↦ add_overlaps block more left rs
    ]
    else elim (remove_range (range_of overlap) rs) [
      | none ↦ none
      | some left ↦ add_overlaps block more to_add left
    ]

-- `addRange`
unfoldable pub add_range : BlockRange → List BlockRange → Option (List BlockRange)
unfolding add_overlaps
add_range range rs =
    if leb range.end range.start
    then none
    else elim (add_overlaps range.block (get_overlapping (range_of range) rs) (range ∷ []) rs) [
      | none ↦ none
      | some (to_add, left) ↦ sort_ranges (left ++ to_add)
    ]

-- `merge`
unfoldable pub merge : List BlockRange → List BlockRange → Option (List BlockRange)
unfolding add_range
merge [] rs = some rs
merge (range ∷ others) rs = elim (add_range range rs) [ none ↦ none | some rs' ↦ merge others rs' ]

-- The loop of `incrementBlocks`, over the ranges that there were when it began.
unfoldable pub increment_each : Range → List BlockRange → List BlockRange → Option (List BlockRange)
unfolding add_range
increment_each range [] rs = some rs
increment_each range (existing ∷ more) rs =
    let start = max existing.start range.start in
    let end = min existing.end range.end in
    if leb end start
    then increment_each range more rs
    else elim (add_range (record { start = start; end = end; block = existing.block + 1 }) rs) [
      | none ↦ none
      | some rs' ↦ increment_each range more rs'
    ]

-- `incrementBlocks`
unfoldable pub increment_blocks : Range → List BlockRange → Option (List BlockRange)
unfolding increment_each
increment_blocks range rs = if leb range.end range.start then none else increment_each range rs rs
