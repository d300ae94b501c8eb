-- ===== src/CoreDb/BlockRanges/Removing.antt =====
-- `removeRange` of packages/core-db/src/app/utils/range.ts takes the range out, and nothing else.
use pigi.Prelude.{
  ℕ, suc, ◌+◌, ◌≤◌, ◌≡◌, refl, ◌∙◌, Bool, true, false, not, none, some, List, [], ◌∷◌, ◌==◌,
  if◌then◌else◌, arith, Bool-cases, inl, inr, All, max, dec_lt,
}
use pigi.CoreDb.Range.{Range}
use pigi.CoreDb.BlockRanges.{BlockRange, range_of, get_overlapping, remove_overlaps, remove_range}
use pigi.CoreDb.BlockRanges.Weights.{
  inside, weigh, count, AreDisjoint, weigh-none, block_at, block_at-weigh, weigh-block_at, weight,
}
use pigi.CoreDb.BlockRanges.Sorting.{
  IsSafe, sort_ranges-IsSorting, get_overlapping-AreSafe, remove_overlaps-AreSafe,
}
use pigi.CoreDb.BlockRanges.Removal.{
  IsFilled, IsHeld, AreApart, Without, remove_overlap_lem, get_overlapping-IsFilled,
  get_overlapping-IsHeld, weigh-get_overlapping,
}

abbrev AllApart : List BlockRange → Type 0
AllApart [] = Unit
AllApart (o ∷ os) = All (AreApart o) os × AllApart os

apart_from :
    (o : BlockRange) (os : List BlockRange)
    → IsFilled o
    → All IsFilled os
    → ((p : ℕ) → inside (range_of o) p ≡ true → count os p ≡ 0)
    → All (AreApart o) os
apart_from o [] f fs h = tt
apart_from o (x ∷ xs) f fs h =
    let at_start : inside (range_of o) (max o.start x.start) ≡ true
        → count (x ∷ xs) (max o.start x.start) ≡ 0 =
      h (max o.start x.start) in
    (apart at_start, apart_from o xs f fs.1 (λ p i. ground (arith, h p i)))
  where
    apart :
        (inside (range_of o) (max o.start x.start) ≡ true
          → count (x ∷ xs) (max o.start x.start) ≡ 0)
        → AreApart o x
    apart at_start = elim (dec_lt o.start x.end) [
      | no l ↦ inl (omega (arith, l))
      | yes l ↦ elim (dec_lt x.start o.end) [
        | no m ↦ inr (omega (arith, m))
        | yes m ↦ absurd (ground (arith, l, m, f, fs.0, at_start (ground (arith, l, m, f, fs.0))))
      ]
    ]

disjoint-AllApart : (os : List BlockRange) → All IsFilled os → AreDisjoint os → AllApart os
disjoint-AllApart [] fs h = tt
disjoint-AllApart (o ∷ os) fs h = (
  apart_from o os fs.0 fs.1 (λ p i. ground (arith, h p, i)),
  disjoint-AllApart os fs.1 (λ p. omega (arith, h p)),
)

still-IsHeld :
    (o : BlockRange) (rs rs' os : List BlockRange)
    → ((x : BlockRange) → IsFilled x → AreApart o x → IsHeld rs x → IsHeld rs' x)
    → All IsFilled os
    → All (AreApart o) os
    → All (IsHeld rs) os
    → All (IsHeld rs') os
still-IsHeld o rs rs' [] f fs a h = tt
still-IsHeld o rs rs' (x ∷ xs) f fs a h =
    (f x fs.0 a.0 h.0, still-IsHeld o rs rs' xs f fs.1 a.1 h.1)

pub Without-disjoint :
    (cut : ℕ → Bool) (rs rs' : List BlockRange)
    → AreDisjoint rs
    → Without cut rs rs'
    → AreDisjoint rs'
Without-disjoint cut rs rs' h k p = elim (Bool-cases (cut p)) [
  | inl out ↦ ground (arith, k.weighs (λ b. 1) p, out)
  | inr stays ↦ ground (arith, k.weighs (λ b. 1) p, stays, h p)
]

abbrev covered : List BlockRange → ℕ → Bool
covered os p = not (count os p == 0)

cut_twice :
    (i : Bool) (k n a : ℕ)
    → n ≡ (if i then 0 else a)
    → (if not (k == 0) then 0 else n) ≡ (if not ((if i then 1 else 0) + k == 0) then 0 else a)
cut_twice true k n a e = ground (arith, e)
cut_twice false k n a e = ground (arith, e)

-- Where nothing is, there is nothing to cut.
cut_inside :
    (i : Bool) (k n a : ℕ)
    → k ≡ (if i then n else 0)
    → (n ≡ 0 → a ≡ 0)
    → (if not (k == 0) then 0 else a) ≡ (if i then 0 else a)
cut_inside true k n a e z = ground (arith, e, z)
cut_inside false k n a e z = ground (arith, e)

remove_overlaps_lem :
    (os rs : List BlockRange)
    → All IsFilled os
    → AllApart os
    → AreDisjoint rs
    → All (IsHeld rs) os
    → (rs' : List BlockRange) × (remove_overlaps os rs ≡ some rs') × Without (covered os) rs rs'
unfolding remove_overlaps
remove_overlaps_lem [] rs fs a d h = (rs, refl, record { weighs = λ w p. refl })
remove_overlaps_lem (o ∷ os) rs fs a d h =
    let (mid, e, without, stay) = remove_overlap_lem o rs fs.0 d h.0 in
    let (rs', e', without') =
      remove_overlaps_lem os mid fs.1 a.1 (Without-disjoint (inside (range_of o)) rs mid d without)
        (still-IsHeld o rs mid os stay fs.1 a.0 h.1) in
    (
      rs',
      ground (arith, e, e'),
      record {
        weighs = λ w p.
            without'.weighs w p
            ∙ cut_twice (inside (range_of o) p) (count os p) (weigh w mid p) (weigh w rs p)
                (without.weighs w p);
      },
    )

few_of : {n k : ℕ} (i : Bool) → n ≡ (if i then k else 0) → k ≤ 1 → n ≤ 1
few_of true e l = omega (arith, e, l)
few_of false e l = omega (arith, e)

-- The weights without the range
pub remove_range_lem :
    (range : Range) (rs : List BlockRange)
    → AreDisjoint rs
    → All IsSafe rs
    → (rs' : List BlockRange) × (remove_range range rs ≡ some rs')
      × Without (inside range) rs rs'
      × All IsSafe rs'
unfolding remove_range
remove_range_lem range rs d s =
    let os = get_overlapping range rs in
    let fs = get_overlapping-IsFilled range rs in
    let few : AreDisjoint os =
      λ p. few_of (inside range p) (weigh-get_overlapping (λ b. 1) range rs p) (d p) in
    let (rs', e, without) =
      remove_overlaps_lem os rs fs (disjoint-AllApart os fs few) d
        (get_overlapping-IsHeld range rs) in
    let safe = remove_overlaps-AreSafe os rs rs' (get_overlapping-AreSafe range rs s) s e in
    let (sorted, f, k) = sort_ranges-IsSorting rs' safe in
    (
      sorted,
      ground (arith, e, f),
      record {
        weighs = λ w p.
            k.weighs w p
            ∙ without.weighs w p
            ∙ cut_inside (inside range p) (count os p) (count rs p) (weigh w rs p)
                (weigh-get_overlapping (λ b. 1) range rs p) (weigh-none w rs p);
      },
      k.safe,
    )

pub Without-block_at :
    (cut : ℕ → Bool) (rs rs' : List BlockRange)
    → AreDisjoint rs
    → Without cut rs rs'
    → (p : ℕ) → block_at rs' p ≡ (if cut p then none else block_at rs p)
Without-block_at cut rs rs' d k p =
    block_at-weigh rs' p (if cut p then none else block_at rs p) (Without-disjoint cut rs rs' d k p)
      (k.weighs suc p ∙ at (cut p))
  where
    at :
        (b : Bool)
        → (if b then 0 else weigh suc rs p) ≡ weight suc (if b then none else block_at rs p)
    at true = refl
    at false = weigh-block_at suc rs p (d p)

-- From ranges that do not overlap, with their ends below 2 ^ 53, `removeRange` takes the positions of a
-- range, and leaves each other position with the block that it had; no error is thrown, and the ends are
-- below 2 ^ 53 again.
pub remove_range-block_at :
    (range : Range) (rs : List BlockRange)
    → AreDisjoint rs
    → All IsSafe rs
    → (rs' : List BlockRange) × (remove_range range rs ≡ some rs')
      × AreDisjoint rs'
      × All IsSafe rs'
      × ((p : ℕ) → block_at rs' p ≡ (if inside range p then none else block_at rs p))
remove_range-block_at range rs d s =
    let (rs', e, k, safe) = remove_range_lem range rs d s in
    (
      rs',
      e,
      Without-disjoint (inside range) rs rs' d k,
      safe,
      Without-block_at (inside range) rs rs' d k,
    )
