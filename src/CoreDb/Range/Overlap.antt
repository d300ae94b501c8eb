-- ===== src/CoreDb/Range/Overlap.antt =====
-- What `getOverlappingRange`, `rangesIntersect` and `isRangeSubset` compute, position by position.
use pigi.Prelude.{ℕ, ◌-◌, ◌<◌, ◌≡◌, ◌↔◌, true, Option, none, some, arith, max}
use pigi.CoreDb.Range.{Range, get_overlapping_range, ranges_intersect, is_range_subset, Contains}

abbrev pub ContainsIn : Option Range → ℕ → Type 0
ContainsIn none p = ⊥
ContainsIn (some r) p = Contains r p

-- A position lies in the overlap of two ranges exactly if it lies in both; where no overlap is
-- returned, no position does.
pub get_overlapping_range-Contains :
    (a b : Range) (p : ℕ) → ContainsIn (get_overlapping_range a b) p ↔ (Contains a p × Contains b p)
unfolding get_overlapping_range
get_overlapping_range-Contains a b p = ground arith

-- Two ranges intersect exactly if some position lies in both.
pub ranges_intersect_iff :
    (a b : Range) → (ranges_intersect a b ≡ true) ↔ ((p : ℕ) × Contains a p × Contains b p)
unfolding ranges_intersect
ranges_intersect_iff a b =
    (λ h. (max a.start b.start, ground arith, ground arith), λ h. ground arith)

-- A range with some position in it is a subset of another exactly if each of its positions lies in
-- the other.
pub is_range_subset_iff :
    (a b : Range)
    → a.start < a.end
    → (is_range_subset (some a) (some b) ≡ true) ↔ ((p : ℕ) → Contains a p → Contains b p)
unfolding is_range_subset
is_range_subset_iff a b h =
    (λ e p c. ground arith, λ all. ground (arith, all a.start, all (a.end - 1)))
