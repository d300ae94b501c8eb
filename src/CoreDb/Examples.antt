-- ===== src/CoreDb/Examples.antt =====
-- The theorems on packages/core-db at concrete ranges.
use pigi.Prelude.{ℕ, ◌<◌, ◌≡◌, refl, true, false, List, [], ◌∷◌, arith, Any}
use pigi.CoreDb.Range.{Range, do_ranges_span_range, Contains}
use pigi.CoreDb.Range.Span.{do_ranges_span_range_sound, do_ranges_span_range_nested, nested_ranges}

abbrev between : ℕ → ℕ → Range
between a b = record { start = a; end = b }

abbrev two_ranges : List Range
two_ranges = between 1 3 ∷ between 3 5 ∷ []

two_ranges_span : do_ranges_span_range two_ranges (between 2 4) ≡ true
unfolding do_ranges_span_range
two_ranges_span = refl

do_ranges_span_range_sound_example : Any (λ r. Contains r 3) two_ranges
do_ranges_span_range_sound_example =
    do_ranges_span_range_sound two_ranges (between 2 4) 3 two_ranges_span (omega arith)

do_ranges_span_range_nested_example :
    (do_ranges_span_range (nested_ranges 5 2 8) (between 0 8) ≡ false)
    × ((p : ℕ) → p < 8 → Any (λ r. Contains r p) (nested_ranges 5 2 8))
do_ranges_span_range_nested_example =
    do_ranges_span_range_nested 5 2 8 (omega arith) (omega arith) (omega arith)
