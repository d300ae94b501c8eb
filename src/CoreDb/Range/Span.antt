-- ===== src/CoreDb/Range/Span.antt =====
-- `doRangesSpanRange`: what its answers show, and where it errs.
use pigi.Prelude.{
  dec_lt, ℕ, ◌≤◌, ◌<◌, ◌≡◌, refl, true, false, List, [], ◌∷◌, arith, inl, inr, Bool-cases, Any, leb,
  ◌⊎◌,
}
use pigi.CoreDb.Range.{
  Range, insert_by_start, sort_by_start, span_loop, do_ranges_span_range, Contains,
}

insert_by_start-Any :
    (P : Range → Type 0) (r : Range) (rs : List Range)
    → Any P (insert_by_start r rs)
    → P r ⊎ Any P rs
unfolding insert_by_start
insert_by_start-Any P r [] h = h
insert_by_start-Any P r (x ∷ xs) h = elim (Bool-cases (leb r.start x.start)) [
  | inl t ↦ rw t at h
  | inr f ↦ move (rw f at h) (insert_by_start-Any P r xs)
]
  where
    move :
        P x ⊎ Any P (insert_by_start r xs)
        → (Any P (insert_by_start r xs) → P r ⊎ Any P xs)
        → P r ⊎ Any P (x ∷ xs)
    move (inl a) ih = inr (inl a)
    move (inr k) ih = swap (ih k)
      where
        swap : P r ⊎ Any P xs → P r ⊎ Any P (x ∷ xs)
        swap (inl a) = inl a
        swap (inr b) = inr (inr b)

-- Sorting brings in no range.
sort_by_start-Any : (P : Range → Type 0) (rs : List Range) → Any P (sort_by_start rs) → Any P rs
unfolding sort_by_start
sort_by_start-Any P [] h = h
sort_by_start-Any P (r ∷ rs) h =
    keep (insert_by_start-Any P r (sort_by_start rs) h) (sort_by_start-Any P rs)
  where
    keep : P r ⊎ Any P (sort_by_start rs) → (Any P (sort_by_start rs) → Any P rs) → Any P (r ∷ rs)
    keep (inl a) ih = inl a
    keep (inr k) ih = inr (ih k)

span_loop-covers :
    (rs : List Range) (low end p : ℕ)
    → span_loop rs low end ≡ true
    → low ≤ p
    → p < end
    → Any (λ r. Contains r p) rs
unfolding span_loop
span_loop-covers [] low end p h a b = cc
span_loop-covers (r ∷ rs) low end p h a b = elim (dec_lt p r.end) [
  | yes inside ↦ inl (ground arith)
  | no beyond ↦ inr (span_loop-covers rs r.end end p (ground arith) (omega arith) b)
]

-- When the ranges are said to span a range, each position of that range lies in one of them.
pub do_ranges_span_range_sound :
    (rs : List Range) (r : Range) (p : ℕ)
    → do_ranges_span_range rs r ≡ true
    → Contains r p
    → Any (λ x. Contains x p) rs
unfolding do_ranges_span_range
do_ranges_span_range_sound rs r p h c =
    sort_by_start-Any (λ x. Contains x p) rs
      (span_loop-covers (sort_by_start rs) r.start r.end p h c.0 c.1)

-- Ranges in order, none of them empty, that begin at `low` or later and do not overlap.
abbrev pub IsChain : ℕ → List Range → Type 0
IsChain low [] = Unit
IsChain low (r ∷ rs) = (low ≤ r.start) × (r.start < r.end) × IsChain r.end rs

insert_by_start-IsChain :
    (low : ℕ) (r : Range) (rs : List Range) → IsChain low (r ∷ rs) → insert_by_start r rs ≡ r ∷ rs
unfolding insert_by_start
insert_by_start-IsChain low r [] h = refl
insert_by_start-IsChain low r (x ∷ xs) h = ground arith

sort_by_start-IsChain : (low : ℕ) (rs : List Range) → IsChain low rs → sort_by_start rs ≡ rs
unfolding sort_by_start
sort_by_start-IsChain low [] h = refl
sort_by_start-IsChain low (r ∷ rs) h =
    rw (sort_by_start-IsChain r.end rs h.2) (insert_by_start-IsChain low r rs h)

IsChain-le :
    (low : ℕ) (rs : List Range) (p : ℕ) → IsChain low rs → Any (λ r. Contains r p) rs → low ≤ p
IsChain-le low [] p h k = absurd k
IsChain-le low (r ∷ rs) p h (inl c) = omega arith
IsChain-le low (r ∷ rs) p h (inr k) = omega (arith, IsChain-le r.end rs p h.2 k)

span_loop_complete :
    (rs : List Range) (low end : ℕ)
    → IsChain low rs
    → low < end
    → ((p : ℕ) → low ≤ p → p < end → Any (λ r. Contains r p) rs)
    → span_loop rs low end ≡ true
unfolding span_loop
span_loop_complete [] low end h l all = absurd (all low (omega arith) l)
span_loop_complete (r ∷ rs) low end h l all =
    let starts : r.start ≤ low = first (all low (omega arith) l) in
    elim (dec_lt r.end end) [
      | yes more ↦ ground (
        arith,
        span_loop_complete rs r.end end h.2 more (λ p a b. later p a (all p (omega arith) b)),
      )
      | no done ↦ ground arith
    ]
  where
    first : Any (λ x. Contains x low) (r ∷ rs) → r.start ≤ low
    first (inl c) = c.0
    first (inr k) = omega (arith, IsChain-le r.end rs low h.2 k)

    later : (p : ℕ) → r.end ≤ p → Any (λ x. Contains x p) (r ∷ rs) → Any (λ x. Contains x p) rs
    later p a (inl c) = absurd (omega arith)
    later p a (inr k) = k

-- Ranges that follow one another without overlap, none before the range in question, are found to
-- span it if each position of it lies in one of them.
pub do_ranges_span_range_complete :
    (rs : List Range) (r : Range)
    → IsChain r.start rs
    → r.start < r.end
    → ((p : ℕ) → Contains r p → Any (λ x. Contains x p) rs)
    → do_ranges_span_range rs r ≡ true
unfolding do_ranges_span_range
do_ranges_span_range_complete rs r h l all =
    rw (sort_by_start-IsChain r.start rs h)
      (span_loop_complete rs r.start r.end h l (λ p a b. all p (a, b)))

abbrev pub nested_ranges : ℕ → ℕ → ℕ → List Range
nested_ranges b c e =
    record { start = 0; end = b }
    ∷ record { start = 1; end = c }
    ∷ record { start = b; end = e }
    ∷ []

nested_ranges-Any : (b c e p : ℕ) → p < e → Any (λ r. Contains r p) (nested_ranges b c e)
nested_ranges-Any b c e p q = elim (dec_lt p b) [
  | yes low ↦ inl (omega arith)
  | no high ↦ inr (inr (inl (omega arith)))
]

-- A range that lies inside its predecessor makes the answer wrong: for 1 < c < b < e every position
-- of [0, e) lies in one of [0, b), [1, c) and [b, e), and they are not found to span it.
pub do_ranges_span_range_nested :
    (b c e : ℕ)
    → 1 < c
    → c < b
    → b < e
    → (do_ranges_span_range (nested_ranges b c e) (record { start = 0; end = e }) ≡ false)
      × ((p : ℕ) → p < e → Any (λ r. Contains r p) (nested_ranges b c e))
unfolding do_ranges_span_range
do_ranges_span_range_nested b c e h k l = (ground arith, nested_ranges-Any b c e)
