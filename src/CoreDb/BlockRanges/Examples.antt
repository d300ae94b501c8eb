-- ===== src/CoreDb/BlockRanges/Examples.antt =====
-- The theorems on `DefaultBlockRange` at concrete ranges.
use pigi.Prelude.{ℕ, ◌+◌, ◌≡◌, refl, none, some, List, [], ◌∷◌, if◌then◌else◌, arith, All}
use pigi.CoreDb.Range.{Range}
use pigi.CoreDb.BlockRanges.{BlockRange, remove_range, add_range, increment_blocks}
use pigi.CoreDb.BlockRanges.Weights.{inside, AreDisjoint, block_at}
use pigi.CoreDb.BlockRanges.Sorting.{IsSafe}
use pigi.CoreDb.BlockRanges.Removing.{remove_range-block_at}
use pigi.CoreDb.BlockRanges.Adding.{newest, add_range-block_at}
use pigi.CoreDb.BlockRanges.Merging.{increment_blocks-block_at}

abbrev stored : ℕ → ℕ → ℕ → BlockRange
stored a b n = record { start = a; end = b; block = n }

abbrev two_ranges : List BlockRange
two_ranges = stored 0 10 5 ∷ stored 10 20 1 ∷ []

two_ranges-AreDisjoint : AreDisjoint two_ranges
two_ranges-AreDisjoint p = ground arith

two_ranges-AreSafe : All IsSafe two_ranges
two_ranges-AreSafe = ((omega arith, omega arith), ((omega arith, omega arith), tt))

abbrev middle : Range
middle = record { start = 8; end = 12 }

remove_range-block_at_example :
    (rs' : List BlockRange) × (remove_range middle two_ranges ≡ some rs')
    × AreDisjoint rs'
    × All IsSafe rs'
    × ((p : ℕ) → block_at rs' p ≡ (if inside middle p then none else block_at two_ranges p))
remove_range-block_at_example =
    remove_range-block_at middle two_ranges two_ranges-AreDisjoint two_ranges-AreSafe

add_range-block_at_example :
    (rs' : List BlockRange) × (add_range (stored 8 12 3) two_ranges ≡ some rs')
    × AreDisjoint rs'
    × All IsSafe rs'
    × ((p : ℕ) → block_at rs' p ≡ newest (stored 8 12 3) p (block_at two_ranges p))
add_range-block_at_example =
    add_range-block_at (stored 8 12 3) two_ranges (omega arith) two_ranges-AreDisjoint
      (omega arith, omega arith) two_ranges-AreSafe

increment_blocks-block_at_example :
    (rs' : List BlockRange) × (increment_blocks middle two_ranges ≡ some rs')
    × AreDisjoint rs'
    × All IsSafe rs'
    × ((p : ℕ)
        → block_at rs' p ≡ (
            if inside middle p
            then elim (block_at two_ranges p) [ none ↦ none | some b ↦ some (b + 1) ]
            else block_at two_ranges p))
increment_blocks-block_at_example =
    increment_blocks-block_at middle two_ranges (omega arith) two_ranges-AreDisjoint
      two_ranges-AreSafe

-- The old block stays where it is the higher one.
add_range_run :
    add_range (stored 8 12 3) two_ranges
    ≡ some (stored 0 10 5 ∷ stored 10 12 3 ∷ stored 12 20 1 ∷ [])
unfolding add_range
add_range_run = refl

-- Two ranges that begin 2 ^ 53 or more apart are not sorted.
far_apart_run : add_range (stored 10000000000000000 10000000000000001 3) two_ranges ≡ none
unfolding add_range
far_apart_run = refl
