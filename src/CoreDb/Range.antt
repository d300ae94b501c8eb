-- ===== src/CoreDb/Range.antt =====
-- packages/core-db/src/app/utils/range.ts: the functions on ranges, and `Range` of
-- packages/core-utils/src/types/range.ts. A `BigNumber` is a natural number of any size: the
-- positions in a range are unsigned.
pub mod Overlap
pub mod Span
use pigi.Prelude.{
  ℕ, ◌≤◌, ◌<◌, Bool, true, false, ◌&&◌, Option, none, some, List, [], ◌∷◌, ltb, leb, min, max,
  if◌then◌else◌,
}

pub record Range : Type 0 where
  pub start : ℕ
  pub end : ℕ

-- `getOverlappingRange`
unfoldable pub get_overlapping_range : Range → Range → Option Range
get_overlapping_range range1 range2 =
    let start : ℕ = max range1.start range2.start in
    let end : ℕ = min range1.end range2.end in
    if ltb start end then some (record { start = start; end = end }) else none

-- `rangesIntersect`
unfoldable pub ranges_intersect : Range → Range → Bool
unfolding get_overlapping_range
ranges_intersect range1 range2 = elim (get_overlapping_range range1 range2) [
  | none ↦ false
  | some r ↦ true
]

-- `isRangeSubset`; `none` is `undefined`.
unfoldable pub is_range_subset : Option Range → Option Range → Bool
is_range_subset none superset = false
is_range_subset (some subset) none = false
is_range_subset (some subset) (some superset) =
    leb superset.start subset.start && leb subset.end superset.end

-- `ranges.sort(...)` by the start, as a stable insertion sort.
unfoldable pub insert_by_start : Range → List Range → List Range
insert_by_start r [] = r ∷ []
insert_by_start r (x ∷ xs) = if leb r.start x.start then r ∷ x ∷ xs else x ∷ insert_by_start r xs

unfoldable pub sort_by_start : List Range → List Range
unfolding insert_by_start
sort_by_start [] = []
sort_by_start (r ∷ rs) = insert_by_start r (sort_by_start rs)

-- The loop of `doRangesSpanRange`, on the sorted ranges.
unfoldable pub span_loop : List Range → ℕ → ℕ → Bool
span_loop [] lowest_not_spanned end = false
span_loop (r ∷ rs) lowest_not_spanned end =
    let rest = span_loop rs r.end end in
    if ltb lowest_not_spanned r.start then false else if leb end r.end then true else rest

-- `doRangesSpanRange`
unfoldable pub do_ranges_span_range : List Range → Range → Bool
unfolding sort_by_start span_loop
do_ranges_span_range ranges range_to_span =
    span_loop (sort_by_start ranges) range_to_span.start range_to_span.end

-- A position lies in a range: the start is included and the end is not.
abbrev pub Contains : Range → ℕ → Type 0
Contains r p = (r.start ≤ p) × (p < r.end)
