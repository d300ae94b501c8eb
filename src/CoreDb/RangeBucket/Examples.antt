-- ===== src/CoreDb/RangeBucket/Examples.antt =====
-- Two ranges in a bucket of packages/core-db/src/app/range-bucket.ts, and one that overlaps both
use pigi.Prelude.{
  ℕ, ◌≤◌, ◌<◌, ◌≡◌, ◌↔◌, refl, true, ◌&&◌, none, some, List, [], ◌∷◌, ◌++◌, ltb, leb, if◌then◌else◌,
  arith, max, All,
}
use pigi.CoreDb.RangeBucket.{RangeEntry, put, get, del, has_data_in_range}
use pigi.CoreDb.RangeBucket.Chains.{IsSpan, value_at}
use pigi.CoreDb.RangeBucket.Putting.{put-value_at, del-ranges}
use pigi.CoreDb.RangeBucket.Reading.{has_data_in_range_iff}

abbrev low : RangeEntry ℕ
low = record { start = 0; end = 5; value = 1 }

abbrev high : RangeEntry ℕ
high = record { start = 6; end = 10; value = 2 }

abbrev two_ranges : List (RangeEntry ℕ)
two_ranges = low ∷ high ∷ []

two_ranges-IsSpan : IsSpan 0 two_ranges 10
two_ranges-IsSpan = (omega arith, omega arith, (omega arith, omega arith, omega arith))

put_test :
    put 1 3 8 9 two_ranges
    ≡ some (
        record { start = 0; end = 3; value = 1 }
        ∷ record { start = 3; end = 8; value = 9 }
        ∷ record { start = 8; end = 10; value = 2 }
        ∷ [])
unfolding put
put_test = refl

-- An empty range, and an end that is no key of one byte, are errors.
empty_range_test : get 1 4 4 two_ranges ≡ none
unfolding get
empty_range_test = refl

long_key_test : put 1 3 300 9 two_ranges ≡ none
unfolding put
long_key_test = refl

-- A start that no stored range reaches hides the end that is no key.
hidden_key_test : get 1 10 300 two_ranges ≡ some []
unfolding get
hidden_key_test = refl

put-value_at_example :
    (es' : List (RangeEntry ℕ)) × (put 1 3 8 9 two_ranges ≡ some es')
    × IsSpan 0 es' (max 8 10)
    × ((p : ℕ) → value_at es' p ≡ (if leb 3 p && ltb p 8 then some 9 else value_at two_ranges p))
put-value_at_example = put-value_at 1 3 8 10 9 two_ranges (omega arith) refl two_ranges-IsSpan

del-ranges_example :
    (before hits behind : List (RangeEntry ℕ)) × (two_ranges ≡ before ++ (hits ++ behind))
    × (del 1 7 8 two_ranges ≡ some (hits, before ++ behind))
    × All (λ e. (e.start < 8) × (7 < e.end)) hits
    × All (λ e. e.end ≤ 7) before
    × All (λ e. 8 ≤ e.start) behind
del-ranges_example = del-ranges 1 7 8 10 two_ranges (omega arith) refl two_ranges-IsSpan

has_data_in_range_iff_example :
    (has_data_in_range 1 5 7 two_ranges ≡ some true)
    ↔ ((p : ℕ) × (5 ≤ p) × (p < 7) × ((v : ℕ) × (value_at two_ranges p ≡ some v)))
has_data_in_range_iff_example =
    has_data_in_range_iff 1 5 7 10 two_ranges (omega arith) refl two_ranges-IsSpan
