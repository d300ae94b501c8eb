-- ===== src/CoreDb/BlockRanges/Adding.antt =====
-- What `addRange` of packages/core-db/src/app/utils/range.ts leaves, position by position.
use pigi.Prelude.{
  ℕ, suc, ◌+◌, ◌≤◌, ◌<◌, ◌≡◌, refl, sym, ap, ap₂, ◌∙◌, subst, Bool, true, false, not, ◌&&◌, Option,
  none, some, List, [], ◌∷◌, ◌++◌, ltb, if◌then◌else◌, arith, Bool-cases, inl, inr, All, All-append,
}
use pigi.CoreDb.Range.{Range}
use pigi.CoreDb.BlockRanges.{BlockRange, range_of, get_overlapping, add_overlaps, add_range}
use pigi.CoreDb.BlockRanges.Weights.{
  inside, weigh, count, AreDisjoint, weigh-append, block_at, block_at-weigh, weigh-block_at, weight,
}
use pigi.CoreDb.BlockRanges.Sorting.{IsSafe, sort_ranges-IsSorting}
use pigi.CoreDb.BlockRanges.Removal.{Without, weigh-get_overlapping}
use pigi.CoreDb.BlockRanges.Removing.{remove_range_lem, Without-disjoint}

-- A position lies in an overlap whose block passes the test.
abbrev taken : (ℕ → Bool) → List BlockRange → ℕ → Bool
taken t [] p = false
taken t (o ∷ os) p = if inside (range_of o) p && t o.block then true else taken t os p

abbrev chosen : (ℕ → Bool) → Option ℕ → Bool
chosen t none = false
chosen t (some b) = t b

taken-none : (t : ℕ → Bool) (os : List BlockRange) (p : ℕ) → count os p ≡ 0 → taken t os p ≡ false
taken-none t [] p h = refl
taken-none t (o ∷ os) p h = elim (Bool-cases (inside (range_of o) p)) [
  | inl in_it ↦ absurd (ground (arith, h, in_it))
  | inr outside ↦ ground (arith, outside, taken-none t os p)
]

taken-block_at :
    (t : ℕ → Bool) (os : List BlockRange) (p : ℕ)
    → count os p ≤ 1
    → taken t os p ≡ chosen t (block_at os p)
taken-block_at t [] p h = refl
taken-block_at t (o ∷ os) p h = elim (Bool-cases (inside (range_of o) p)) [
  | inl in_it ↦
      let rest : taken t os p ≡ false = taken-none t os p (ground (arith, h, in_it)) in
      elim (Bool-cases (t o.block)) [
        | inl yes_it_is ↦ rw (in_it, yes_it_is) refl
        | inr no_it_is ↦ rw (in_it, no_it_is) rest
      ]
  | inr outside ↦ rw outside (taken-block_at t os p (ground (arith, h, outside)))
]

Without-then :
    (o : BlockRange) (t : ℕ → Bool) (os xs mid xs' : List BlockRange)
    → t o.block ≡ true
    → Without (inside (range_of o)) xs mid
    → Without (taken t os) mid xs'
    → Without (taken t (o ∷ os)) xs xs'
Without-then o t os xs mid xs' yes_it_is a b = record {
  weighs = λ w p. elim (Bool-cases (inside (range_of o) p)) [
    | inl in_it ↦ ground (arith, in_it, yes_it_is, a.weighs w p, b.weighs w p)
    | inr outside ↦ ground (arith, outside, a.weighs w p, b.weighs w p)
  ];
}

Without-skip :
    (o : BlockRange) (t : ℕ → Bool) (os xs xs' : List BlockRange)
    → t o.block ≡ false
    → Without (taken t os) xs xs'
    → Without (taken t (o ∷ os)) xs xs'
Without-skip o t os xs xs' no_it_is b = record {
  weighs = λ w p. elim (Bool-cases (inside (range_of o) p)) [
    | inl in_it ↦ ground (arith, in_it, no_it_is, b.weighs w p)
    | inr outside ↦ ground (arith, outside, b.weighs w p)
  ];
}

add_overlaps_lem :
    (block : ℕ) (os to_add rs : List BlockRange)
    → AreDisjoint to_add
    → AreDisjoint rs
    → All IsSafe to_add
    → All IsSafe rs
    → (to_add' : List BlockRange) × (rs' : List BlockRange) × (add_overlaps block os to_add rs
        ≡ some (to_add', rs'))
      × Without (taken (λ b. ltb block b) os) to_add to_add'
      × Without (taken (λ b. not (ltb block b)) os) rs rs'
      × All IsSafe to_add'
      × All IsSafe rs'
unfolding add_overlaps
add_overlaps_lem block [] to_add rs d e s u =
    (to_add, rs, refl, record { weighs = λ w p. refl }, record { weighs = λ w p. refl }, s, u)
add_overlaps_lem block (o ∷ os) to_add rs d e s u = elim (Bool-cases (ltb block o.block)) [
  | inl newer ↦
      let (mid, f, k, m) = remove_range_lem (range_of o) to_add d s in
      let (to_add', rs', g, a, b, s', u') =
        add_overlaps_lem block os mid rs (Without-disjoint (inside (range_of o)) to_add mid d k) e m
          u in
      (
        to_add',
        rs',
        ground (arith, newer, f, g),
        Without-then o (λ b. ltb block b) os to_add mid to_add' newer k a,
        Without-skip o (λ b. not (ltb block b)) os rs rs' (ground (arith, newer)) b,
        s',
        u',
      )
  | inr older ↦
      let (mid, f, k, m) = remove_range_lem (range_of o) rs e u in
      let (to_add', rs', g, a, b, s', u') =
        add_overlaps_lem block os to_add mid d (Without-disjoint (inside (range_of o)) rs mid e k) s
          m in
      (
        to_add',
        rs',
        ground (arith, older, f, g),
        Without-skip o (λ b. ltb block b) os to_add to_add' older a,
        Without-then o (λ b. not (ltb block b)) os rs mid rs' (ground (arith, older)) k b,
        s',
        u',
      )
]

-- The block at a position after a range is added: the higher of the two, and the new one if they are
-- the same.
abbrev pub newest : BlockRange → ℕ → Option ℕ → Option ℕ
newest r p o =
    if inside (range_of r) p
    then elim o [ none ↦ some r.block | some b ↦ if ltb r.block b then some b else some r.block ]
    else o

overlapping-block_at :
    (range : Range) (rs : List BlockRange) (p : ℕ)
    → AreDisjoint rs
    → (count (get_overlapping range rs) p ≤ 1)
      × (block_at (get_overlapping range rs) p ≡ (if inside range p then block_at rs p else none))
overlapping-block_at range rs p d = at (inside range p) (λ w. weigh-get_overlapping w range rs p)
  where
    at :
        (i : Bool)
        → ((w : ℕ → ℕ) → weigh w (get_overlapping range rs) p ≡ (if i then weigh w rs p else 0))
        → (count (get_overlapping range rs) p ≤ 1)
          × (block_at (get_overlapping range rs) p ≡ (if i then block_at rs p else none))
    at true e =
        let few : count (get_overlapping range rs) p ≤ 1 = omega (arith, e (λ b. 1), d p) in
        (
          few,
          block_at-weigh (get_overlapping range rs) p (block_at rs p) few
              (e suc ∙ weigh-block_at suc rs p (d p)),
        )
    at false e =
        let few : count (get_overlapping range rs) p ≤ 1 = omega (arith, e (λ b. 1)) in
        (few, block_at-weigh (get_overlapping range rs) p none few (e suc))

-- What is left of both, weighed
sum_newest :
    (w : ℕ → ℕ) (block : ℕ) (i : Bool) (o : Option ℕ)
    → (if chosen (λ b. not (ltb block b)) (if i then o else none) then 0 else weight w o)
        + (if chosen (λ b. ltb block b) (if i then o else none)
            then 0
            else (if i then w block else 0) + 0)
      ≡ weight w (
          if i
          then elim o [ none ↦ some block | some b ↦ if ltb block b then some b else some block ]
          else o)
sum_newest w block false o = omega arith
sum_newest w block true none = omega arith
sum_newest w block true (some b) = elim (Bool-cases (ltb block b)) [
  | inl newer ↦ rw newer (omega arith)
  | inr older ↦ rw older (omega arith)
]

one_range : (r : BlockRange) → AreDisjoint (r ∷ [])
one_range r p = ground arith

weight-one : (o : Option ℕ) → weight (λ b. 1) o ≤ 1
weight-one none = omega arith
weight-one (some b) = omega arith

add_range-weigh :
    (r : BlockRange) (rs : List BlockRange)
    → r.start < r.end
    → AreDisjoint rs
    → IsSafe r
    → All IsSafe rs
    → (rs' : List BlockRange) × (add_range r rs ≡ some rs')
      × All IsSafe rs'
      × ((w : ℕ → ℕ) (p : ℕ) → weigh w rs' p ≡ weight w (newest r p (block_at rs p)))
unfolding add_range
add_range-weigh r rs l d s u =
    let os = get_overlapping (range_of r) rs in
    let (added, left, e, a, b, s', u') =
      add_overlaps_lem r.block os (r ∷ []) rs (one_range r) d (s, tt) u in
    let (sorted, f, k) =
      sort_ranges-IsSorting (left ++ added) (All-append IsSafe left added u' s') in
    (
      sorted,
      ground (arith, l, e, f),
      k.safe,
      λ w p.
          let (few, at_p) = overlapping-block_at (range_of r) rs p d in
          let new_part =
            a.weighs w p
            ∙ ap (λ c. if c then 0 else weigh w (r ∷ []) p)
                (taken-block_at (λ x. ltb r.block x) os p few
                  ∙ ap (chosen (λ x. ltb r.block x)) at_p) in
          let old_part =
            b.weighs w p
            ∙ ap (λ c. if c then 0 else weigh w rs p)
                (taken-block_at (λ x. not (ltb r.block x)) os p few
                  ∙ ap (chosen (λ x. not (ltb r.block x))) at_p)
            ∙ ap
                (λ n.
                  if chosen (λ x. not (ltb r.block x))
                    (if inside (range_of r) p then block_at rs p else none)
                  then 0
                  else n)
                (weigh-block_at w rs p (d p)) in
          k.weighs w p
          ∙ weigh-append w left added p
          ∙ ap₂ (λ x y. x + y) old_part new_part
          ∙ sum_newest w r.block (inside (range_of r) p) (block_at rs p),
    )

-- To ranges that do not overlap, `addRange` adds a range that is not empty, all their ends being below
-- 2 ^ 53: at each position of it the higher of the two blocks is there then, every other position has
-- what it had, and the ranges do not overlap and end below 2 ^ 53; no error is thrown.
pub add_range-block_at :
    (r : BlockRange) (rs : List BlockRange)
    → r.start < r.end
    → AreDisjoint rs
    → IsSafe r
    → All IsSafe rs
    → (rs' : List BlockRange) × (add_range r rs ≡ some rs')
      × AreDisjoint rs'
      × All IsSafe rs'
      × ((p : ℕ) → block_at rs' p ≡ newest r p (block_at rs p))
add_range-block_at r rs l d s u =
    let (rs', e, safe, weighs) = add_range-weigh r rs l d s u in
    let few : AreDisjoint rs' =
      λ p. subst (λ n. n ≤ 1) (sym (weighs (λ b. 1) p)) (weight-one (newest r p (block_at rs p))) in
    (
      rs',
      e,
      few,
      safe,
      λ p. block_at-weigh rs' p (newest r p (block_at rs p)) (few p) (weighs suc p),
    )
