-- ===== src/CoreDb/BlockRanges/Removal.antt =====
-- What `removeRange` of packages/core-db/src/app/utils/range.ts leaves, position by position.
use pigi.Prelude.{
  ℕ, ◌+◌, ◌≤◌, ◌<◌, ◌≡◌, refl, sym, ap, ◌∙◌, subst, Bool, true, false, none, some, List, [], ◌∷◌,
  ◌++◌, ltb, if◌then◌else◌, arith, Bool-cases, inl, inr, All, Any, Any-append_left,
  Any-append_right, ◌⊎◌, min, max,
}
use pigi.CoreDb.Range.{Range, get_overlapping_range}
use pigi.CoreDb.BlockRanges.{
  BlockRange, range_of, get_overlapping, holds, kept, removed, left_remainder, right_remainder,
  remove_overlap,
}
use pigi.CoreDb.BlockRanges.Weights.{inside, weigh, count, AreDisjoint, weigh-append, weigh-none}

abbrev pub IsFilled : BlockRange → Type 0
IsFilled o = o.start < o.end

abbrev pub IsHeld : List BlockRange → BlockRange → Type 0
IsHeld rs o = Any (λ r. holds o r ≡ true) rs

-- Where nothing is at the start of the overlap, nothing is dropped.
kept-all :
    (o : BlockRange) (rs : List BlockRange)
    → IsFilled o
    → count rs o.start ≡ 0
    → (removed o rs ≡ none) × (kept o rs ≡ rs)
unfolding removed kept
kept-all o [] f h = (refl, refl)
kept-all o (r ∷ rs) f h =
    let (r', k) = kept-all o rs f (ground (arith, h)) in
    let out : holds o r ≡ false = ground (arith, h, f) in
    (rw (r', out) refl, rw out (ap (λ xs. r ∷ xs) k))

-- The one that is dropped
record Dropped (o : BlockRange) (rs : List BlockRange) : Type 0 where
  pub dropped : BlockRange
  pub is_removed : removed o rs ≡ some dropped
  pub is_over : holds o dropped ≡ true
  pub rest : (w : ℕ → ℕ) (p : ℕ) → weigh w rs p ≡ weigh w (kept o rs) p + weigh w (dropped ∷ []) p
  pub others : (x : BlockRange) → IsHeld rs x → (holds x dropped ≡ true) ⊎ IsHeld (kept o rs) x

drop_one :
    (o : BlockRange) (rs : List BlockRange)
    → IsFilled o
    → count rs o.start ≤ 1
    → IsHeld rs o
    → Dropped o rs
unfolding removed kept
drop_one o [] f h i = absurd i
drop_one o (r ∷ rs) f h i = elim (Bool-cases (holds o r)) [
  | inl over ↦
      let (r', k) = kept-all o rs f (ground (arith, h, over, f)) in
      record {
        dropped = r;
        is_removed = rw (r', over) refl;
        is_over = over;
        rest = λ w p. rw (over, k) (omega arith);
        others = λ x y. rw (over, k) y;
      }
  | inr beside ↦
      let d =
        drop_one o rs f (ground (arith, h))
          (elim i [ inl x ↦ absurd (ground (arith, x, beside)) | inr x ↦ x ]) in
      record {
        dropped = d.dropped;
        is_removed = rw d.is_removed refl;
        is_over = d.is_over;
        rest = λ w p. rw beside (omega (arith, d.rest w p));
        others = λ x y. rw beside (elim y [
          | inl z ↦ inr (inl z)
          | inr z ↦ elim (d.others x z) [ inl z ↦ inl z | inr z ↦ inr (inr z) ]
        ]);
      }
]

-- The remainders and the overlap make up the range.
weigh-remainders :
    (w : ℕ → ℕ) (o r : BlockRange) (p : ℕ)
    → IsFilled o
    → holds o r ≡ true
    → weigh w (left_remainder o r ++ right_remainder o r) p
        + (if inside (range_of o) p then w r.block else 0)
      ≡ weigh w (r ∷ []) p
unfolding left_remainder right_remainder
weigh-remainders w o r p f h = elim (Bool-cases (ltb r.start o.start)) [
  | inl a ↦ elim (Bool-cases (ltb o.end r.end)) [
    | inl b ↦ rw (a, b) (ground arith)
    | inr b ↦ rw (a, b) (ground arith)
  ]
  | inr a ↦ elim (Bool-cases (ltb o.end r.end)) [
    | inl b ↦ rw (a, b) (ground arith)
    | inr b ↦ rw (a, b) (ground arith)
  ]
]

abbrev pub AreApart : BlockRange → BlockRange → Type 0
AreApart o x = (x.end ≤ o.start) ⊎ (o.end ≤ x.start)

-- What lies in the range and beside the overlap lies in a remainder.
IsHeld-remainders :
    (o r x : BlockRange)
    → IsFilled x
    → AreApart o x
    → holds x r ≡ true
    → IsHeld (left_remainder o r ++ right_remainder o r) x
unfolding left_remainder right_remainder
IsHeld-remainders o r x f a h = elim a [
  | inl before ↦
      let l : ltb r.start o.start ≡ true = ground (arith, before, f, h) in
      rw l (inl (ground (arith, before, h)))
  | inr after ↦
      let l : ltb o.end r.end ≡ true = ground (arith, after, f, h) in
      Any-append_right (λ y. holds x y ≡ true) (left_remainder o r) (right_remainder o r)
        (rw l (inl (ground (arith, after, h))))
]

-- What is left of the ranges without what lies in the overlaps
pub record Without (cut : ℕ → Bool) (rs rs' : List BlockRange) : Type 0 where
  pub weighs : (w : ℕ → ℕ) (p : ℕ) → weigh w rs' p ≡ (if cut p then 0 else weigh w rs p)

pub remove_overlap_lem :
    (o : BlockRange) (rs : List BlockRange)
    → IsFilled o
    → AreDisjoint rs
    → IsHeld rs o
    → (rs' : List BlockRange) × (remove_overlap o rs ≡ some rs')
      × Without (inside (range_of o)) rs rs'
      × ((x : BlockRange) → IsFilled x → AreApart o x → IsHeld rs x → IsHeld rs' x)
unfolding remove_overlap
remove_overlap_lem o rs f disjoint i =
    let d = drop_one o rs f (disjoint o.start) i in
    let r = d.dropped in
    let rem = left_remainder o r ++ right_remainder o r in
    (kept o rs ++ rem, ground (arith, d.is_removed), record { weighs = weighs d }, stay d)
  where
    stay :
        (d : Dropped o rs) (x : BlockRange)
        → IsFilled x
        → AreApart o x
        → IsHeld rs x
        → IsHeld (kept o rs ++ (left_remainder o d.dropped ++ right_remainder o d.dropped)) x
    stay d x g a y = elim (d.others x y) [
      | inl over ↦
          Any-append_right (λ z. holds x z ≡ true) (kept o rs)
            (left_remainder o d.dropped ++ right_remainder o d.dropped)
            (IsHeld-remainders o d.dropped x g a over)
      | inr there ↦
          Any-append_left (λ z. holds x z ≡ true) (kept o rs)
            (left_remainder o d.dropped ++ right_remainder o d.dropped) there
    ]

    weighs :
        (d : Dropped o rs) (w : ℕ → ℕ) (p : ℕ)
        → weigh w (kept o rs ++ (left_remainder o d.dropped ++ right_remainder o d.dropped)) p
          ≡ (if inside (range_of o) p then 0 else weigh w rs p)
    weighs d w p =
        let rem = left_remainder o d.dropped ++ right_remainder o d.dropped in
        let split = weigh-append w (kept o rs) rem p in
        elim (Bool-cases (inside (range_of o) p)) [
          | inr outside ↦ rw outside (
              omega (
                arith,
                split,
                d.rest w p,
                rw outside at (weigh-remainders w o d.dropped p f d.is_over),
              ))
          | inl in_it ↦
              let total = d.rest (λ b. 1) p in
              let pieces = weigh-remainders (λ b. 1) o d.dropped p f d.is_over in
              let most : count (d.dropped ∷ []) p ≤ 1 = ground arith in
              let no_rest : count (kept o rs) p ≡ 0 =
                ground (arith, total, pieces, in_it, most, disjoint p) in
              let no_rem : count rem p ≡ 0 = ground (arith, pieces, in_it, most) in
              rw in_it (
                omega (arith, split, weigh-none w (kept o rs) p no_rest, weigh-none w rem p no_rem))
        ]

-- The part of a range that lies in another
abbrev part : Range → BlockRange → BlockRange
part range r = record r { start = max r.start range.start; end = min r.end range.end }

get_overlapping-cases :
    (range : Range) (r : BlockRange) (rs : List BlockRange)
    → (IsFilled (part range r)
        × (get_overlapping range (r ∷ rs) ≡ part range r ∷ get_overlapping range rs))
      ⊎ (((part range r).end ≤ (part range r).start)
          × (get_overlapping range (r ∷ rs) ≡ get_overlapping range rs))
unfolding get_overlapping get_overlapping_range
get_overlapping-cases range r rs =
    elim (Bool-cases (ltb (max r.start range.start) (min r.end range.end))) [
      | inl some_of_it ↦ inl (ground (arith, some_of_it), ground (arith, some_of_it))
      | inr no_part ↦ inr (ground (arith, no_part), ground (arith, no_part))
    ]

All-later :
    (r : BlockRange) (rs os : List BlockRange) → All (IsHeld rs) os → All (IsHeld (r ∷ rs)) os
All-later r rs [] h = tt
All-later r rs (o ∷ os) h = (inr h.0, All-later r rs os h.1)

-- Overlaps are filled, and each lies in a range.
pub get_overlapping-IsFilled :
    (range : Range) (rs : List BlockRange) → All IsFilled (get_overlapping range rs)
unfolding get_overlapping
get_overlapping-IsFilled range [] = tt
get_overlapping-IsFilled range (r ∷ rs) = elim (get_overlapping-cases range r rs) [
  | inl (filled, e) ↦ subst (All IsFilled) (sym e) (filled, get_overlapping-IsFilled range rs)
  | inr (empty, e) ↦ subst (All IsFilled) (sym e) (get_overlapping-IsFilled range rs)
]

pub get_overlapping-IsHeld :
    (range : Range) (rs : List BlockRange) → All (IsHeld rs) (get_overlapping range rs)
unfolding get_overlapping
get_overlapping-IsHeld range [] = tt
get_overlapping-IsHeld range (r ∷ rs) =
    let later = All-later r rs (get_overlapping range rs) (get_overlapping-IsHeld range rs) in
    elim (get_overlapping-cases range r rs) [
      | inl (filled, e) ↦ subst (All (IsHeld (r ∷ rs))) (sym e) (inl (ground arith), later)
      | inr (empty, e) ↦ subst (All (IsHeld (r ∷ rs))) (sym e) later
    ]

pub weigh-get_overlapping :
    (w : ℕ → ℕ) (range : Range) (rs : List BlockRange) (p : ℕ)
    → weigh w (get_overlapping range rs) p ≡ (if inside range p then weigh w rs p else 0)
unfolding get_overlapping
weigh-get_overlapping w range [] p = ground arith
weigh-get_overlapping w range (r ∷ rs) p =
    let rest = weigh-get_overlapping w range rs p in
    elim (get_overlapping-cases range r rs) [
      | inl (filled, e) ↦ ap (λ xs. weigh w xs p) e ∙ head rest
      | inr (empty, e) ↦ ap (λ xs. weigh w xs p) e ∙ rest ∙ tail empty
    ]
  where
    head :
        weigh w (get_overlapping range rs) p ≡ (if inside range p then weigh w rs p else 0)
        → weigh w (part range r ∷ get_overlapping range rs) p
          ≡ (if inside range p then weigh w (r ∷ rs) p else 0)
    head rest = elim (Bool-cases (inside range p)) [
      | inl in_it ↦
          let same : inside (range_of (part range r)) p ≡ inside (range_of r) p =
            ground (arith, in_it) in
          rw (in_it, same) (rw rest (rw in_it refl))
      | inr outside ↦
          let out : inside (range_of (part range r)) p ≡ false = ground (arith, outside) in
          rw (outside, out) (rw rest (rw outside (omega arith)))
    ]

    tail :
        (part range r).end ≤ (part range r).start
        → (if inside range p then weigh w rs p else 0)
          ≡ (if inside range p then weigh w (r ∷ rs) p else 0)
    tail empty = elim (Bool-cases (inside range p)) [
      | inl in_it ↦
          let out : inside (range_of r) p ≡ false = ground (arith, in_it, empty) in
          rw (in_it, out) (omega arith)
      | inr outside ↦ rw outside refl
    ]
