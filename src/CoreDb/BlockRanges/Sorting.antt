-- ===== src/CoreDb/BlockRanges/Sorting.antt =====
-- The sort of packages/core-db/src/app/utils/range.ts throws nothing below 2 ^ 53.
use pigi.Prelude.{
  ℕ, ◌+◌, ◌<◌, ◌≡◌, refl, sym, subst, ap, ◌∙◌, true, some, List, [], ◌∷◌, ◌++◌, ltb, leb, min, max,
  if◌then◌else◌, arith, Bool-cases, Option-cases, inl, inr, All, All-append,
}
use pigi.CoreDb.Range.{Range, get_overlapping_range}
use pigi.CoreDb.BlockRanges.{
  BlockRange, range_of, is_number, get_overlapping, holds, kept, removed, left_remainder,
  right_remainder, remove_overlap, remove_overlaps, insert_range, sort_ranges,
}
use pigi.CoreDb.BlockRanges.Weights.{inside, weigh}

-- Both ends are below 2 ^ 53.
abbrev pub IsSafe : BlockRange → Type 0
IsSafe r = (r.start < 9007199254740992) × (r.end < 9007199254740992)

-- The same ranges, in some order
pub record IsSorting (rs rs' : List BlockRange) : Type 0 where
  pub weighs : (w : ℕ → ℕ) (p : ℕ) → weigh w rs' p ≡ weigh w rs p
  pub safe : All IsSafe rs'

insert_range-IsSorting :
    (r : BlockRange) (rs : List BlockRange)
    → IsSafe r
    → All IsSafe rs
    → (rs' : List BlockRange) × (insert_range r rs ≡ some rs') × IsSorting (r ∷ rs) rs'
unfolding insert_range
insert_range-IsSorting r [] s k = (r ∷ [], refl, record { weighs = λ w p. refl; safe = (s, tt) })
insert_range-IsSorting r (x ∷ xs) s k =
    let near : is_number r.start x.start ≡ true = ground (arith, s, k.0) in
    elim (Bool-cases (leb r.start x.start)) [
      | inl first ↦
          (r ∷ x ∷ xs, ground (arith, near, first), record { weighs = λ w p. refl; safe = (s, k) })
      | inr later ↦
          let (ys, e, y) = insert_range-IsSorting r xs s k.1 in
          (
            x ∷ ys,
            ground (arith, near, later, e),
            record { weighs = λ w p. omega (arith, y.weighs w p); safe = (k.0, y.safe) },
          )
    ]

pub sort_ranges-IsSorting :
    (rs : List BlockRange)
    → All IsSafe rs
    → (rs' : List BlockRange) × (sort_ranges rs ≡ some rs') × IsSorting rs rs'
unfolding sort_ranges
sort_ranges-IsSorting [] k = ([], refl, record { weighs = λ w p. refl; safe = tt })
sort_ranges-IsSorting (r ∷ rs) k =
    let (ys, e, y) = sort_ranges-IsSorting rs k.1 in
    let (zs, f, z) = insert_range-IsSorting r ys k.0 y.safe in
    (
      zs,
      ground (arith, e, f),
      record {
        weighs = λ w p.
            z.weighs w p
            ∙ ap (λ n. (if inside (range_of r) p then w r.block else 0) + n) (y.weighs w p);
        safe = z.safe;
      },
    )

pub get_overlapping-AreSafe :
    (range : Range) (rs : List BlockRange) → All IsSafe rs → All IsSafe (get_overlapping range rs)
unfolding get_overlapping get_overlapping_range
get_overlapping-AreSafe range [] k = tt
get_overlapping-AreSafe range (r ∷ rs) k =
    elim (Bool-cases (ltb (max r.start range.start) (min r.end range.end))) [
      | inr apart ↦
          let same : get_overlapping range (r ∷ rs) ≡ get_overlapping range rs =
            ground (arith, apart) in
          subst (All IsSafe) (sym same) (get_overlapping-AreSafe range rs k.1)
      | inl over ↦
          let same : get_overlapping range (r ∷ rs)
              ≡ record r { start = max r.start range.start; end = min r.end range.end }
                ∷ get_overlapping range rs =
            ground (arith, over) in
          subst (All IsSafe) (sym same) (
            (ground (arith, over, k.0.1), ground (arith, k.0.1)),
            get_overlapping-AreSafe range rs k.1,
          )
    ]

kept-AreSafe : (o : BlockRange) (rs : List BlockRange) → All IsSafe rs → All IsSafe (kept o rs)
unfolding kept
kept-AreSafe o [] k = tt
kept-AreSafe o (r ∷ rs) k = elim (Bool-cases (holds o r)) [
  | inl e ↦ rw e (kept-AreSafe o rs k.1)
  | inr e ↦ rw e (k.0, kept-AreSafe o rs k.1)
]

removed-IsSafe :
    (o : BlockRange) (rs : List BlockRange) (r : BlockRange)
    → All IsSafe rs
    → removed o rs ≡ some r
    → IsSafe r
unfolding removed
removed-IsSafe o [] r k e = absurd (ground (arith, e))
removed-IsSafe o (x ∷ xs) r k e = elim (Option-cases (removed o xs)) [
  | inr (y, f) ↦ removed-IsSafe o xs r k.1 (ground (arith, e, f))
  | inl f ↦
      let same : x ≡ r = ground (arith, e, f) in
      (ground (arith, k.0.0, same), ground (arith, k.0.1, same))
]

left_remainder-AreSafe : (o r : BlockRange) → IsSafe o → IsSafe r → All IsSafe (left_remainder o r)
unfolding left_remainder
left_remainder-AreSafe o r s k = elim (Bool-cases (ltb r.start o.start)) [
  | inl e ↦ rw e ((k.0, s.0), tt)
  | inr e ↦ rw e tt
]

right_remainder-AreSafe :
    (o r : BlockRange) → IsSafe o → IsSafe r → All IsSafe (right_remainder o r)
unfolding right_remainder
right_remainder-AreSafe o r s k = elim (Bool-cases (ltb o.end r.end)) [
  | inl e ↦ rw e ((s.1, k.1), tt)
  | inr e ↦ rw e tt
]

remove_overlap-AreSafe :
    (o : BlockRange) (rs rs' : List BlockRange)
    → IsSafe o
    → All IsSafe rs
    → remove_overlap o rs ≡ some rs'
    → All IsSafe rs'
unfolding remove_overlap
remove_overlap-AreSafe o rs rs' s k e = elim (Option-cases (removed o rs)) [
  | inl f ↦ absurd (ground (arith, e, f))
  | inr (r, f) ↦
      let same : kept o rs ++ (left_remainder o r ++ right_remainder o r) ≡ rs' =
        ground (arith, e, f) in
      subst (All IsSafe) same (
        All-append IsSafe (kept o rs) (left_remainder o r ++ right_remainder o r)
          (kept-AreSafe o rs k)
          (All-append IsSafe (left_remainder o r) (right_remainder o r)
            (left_remainder-AreSafe o r s (removed-IsSafe o rs r k f))
            (right_remainder-AreSafe o r s (removed-IsSafe o rs r k f))))
]

pub remove_overlaps-AreSafe :
    (os rs rs' : List BlockRange)
    → All IsSafe os
    → All IsSafe rs
    → remove_overlaps os rs ≡ some rs'
    → All IsSafe rs'
unfolding remove_overlaps
remove_overlaps-AreSafe [] rs rs' s k e =
    let same : rs ≡ rs' = ground (arith, e) in subst (All IsSafe) same k
remove_overlaps-AreSafe (o ∷ os) rs rs' s k e = elim (Option-cases (remove_overlap o rs)) [
  | inl f ↦ absurd (ground (arith, e, f))
  | inr (mid, f) ↦
      remove_overlaps-AreSafe os mid rs' s.1 (remove_overlap-AreSafe o rs mid s.0 k f)
        (ground (arith, e, f))
]
