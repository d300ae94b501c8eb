-- ===== src/CoreDb/BlockRanges/Merging.antt =====
-- What `merge` and `incrementBlocks` of packages/core-db/src/app/utils/range.ts leave, position by
-- position.
use pigi.Prelude.{
  ℕ, ◌+◌, ◌<◌, ◌≡◌, refl, ap, ◌∙◌, Bool, true, false, ◌&&◌, Option, none, some, List, [], ◌∷◌, ltb,
  leb, max, min, if◌then◌else◌, arith, Bool-cases, inl, inr, All,
}
use pigi.CoreDb.Range.{Range}
use pigi.CoreDb.BlockRanges.{BlockRange, range_of, merge, increment_each, increment_blocks}
use pigi.CoreDb.BlockRanges.Weights.{inside, count, AreDisjoint, block_at}
use pigi.CoreDb.BlockRanges.Sorting.{IsSafe}
use pigi.CoreDb.BlockRanges.Removal.{IsFilled}
use pigi.CoreDb.BlockRanges.Adding.{newest, add_range-block_at}

abbrev pub newest_of : List BlockRange → ℕ → Option ℕ → Option ℕ
newest_of [] p o = o
newest_of (r ∷ rs) p o = newest_of rs p (newest r p o)

-- Merging ranges, none of them empty, into ranges that do not overlap, all their ends being below 2 ^ 53,
-- leaves at each position the highest block there; the ranges do not overlap then and end below 2 ^ 53,
-- and no error is thrown.
pub merge-block_at :
    (others rs : List BlockRange)
    → All IsFilled others
    → AreDisjoint rs
    → All IsSafe others
    → All IsSafe rs
    → (rs' : List BlockRange) × (merge others rs ≡ some rs')
      × AreDisjoint rs'
      × All IsSafe rs'
      × ((p : ℕ) → block_at rs' p ≡ newest_of others p (block_at rs p))
unfolding merge
merge-block_at [] rs f d s u = (rs, refl, d, u, λ p. refl)
merge-block_at (r ∷ others) rs f d s u =
    let (mid, e, d', u', h) = add_range-block_at r rs f.0 d s.0 u in
    let (rs', e', d'', u'', h') = merge-block_at others mid f.1 d' s.1 u' in
    (rs', ground (arith, e, e'), d'', u'', λ p. h' p ∙ ap (newest_of others p) (h p))

-- The part of a range that is raised
abbrev raised_part : Range → BlockRange → BlockRange
raised_part range e = record {
  start = max e.start range.start;
  end = min e.end range.end;
  block = e.block + 1;
}

-- The block at a position: raised where the ranges in question are, and as it was elsewhere
abbrev raised : Bool → Option ℕ → Option ℕ → Option ℕ
raised i m x = if i then elim m [ none ↦ x | some b ↦ some (b + 1) ] else x

raised_more :
    (i j : Bool) (b : ℕ) (m x y : Option ℕ)
    → (j ≡ true → (x ≡ some b) × (m ≡ none))
    → y ≡ (
        if j && i
        then elim x [
          | none ↦ some (b + 1)
          | some c ↦ if ltb (b + 1) c then some c else some (b + 1)
        ]
        else x)
    → raised i m y ≡ raised i (if j then some b else m) x
raised_more false true b m x y h e = e
raised_more false false b m x y h e = e
raised_more true false b m x y h e = ap (λ z. elim m [ none ↦ z | some c ↦ some (c + 1) ]) e
raised_more true true b m x y h e = let (f, g) = h refl in rw g (e ∙ ground (arith, f))

nothing_at : (rs : List BlockRange) (p : ℕ) → count rs p ≡ 0 → block_at rs p ≡ none
nothing_at [] p h = refl
nothing_at (r ∷ rs) p h = elim (Bool-cases (inside (range_of r) p)) [
  | inl in_it ↦ absurd (ground (arith, h, in_it))
  | inr outside ↦ rw outside (nothing_at rs p (ground (arith, h, outside)))
]

increment_each-block_at :
    (range : Range) (more rs : List BlockRange)
    → AreDisjoint more
    → AreDisjoint rs
    → All IsSafe more
    → All IsSafe rs
    → ((p b : ℕ) → block_at more p ≡ some b → block_at rs p ≡ some b)
    → (rs' : List BlockRange) × (increment_each range more rs ≡ some rs')
      × AreDisjoint rs'
      × All IsSafe rs'
      × ((p : ℕ) → block_at rs' p ≡ raised (inside range p) (block_at more p) (block_at rs p))
unfolding increment_each
increment_each-block_at range [] rs d' d s u h = (rs, refl, d, u, λ p. same (inside range p))
  where
    same : {x : Option ℕ} (i : Bool) → x ≡ (if i then x else x)
    same true = refl
    same false = refl
increment_each-block_at range (e ∷ more) rs d' d s u h =
    let less : AreDisjoint more = λ p. omega (arith, d' p) in
    elim (Bool-cases (leb (min e.end range.end) (max e.start range.start))) [
      | inl beside ↦
          let (rs', f, d'', u', k) =
            increment_each-block_at range more rs less d s.1 u (λ p b g. h p b (later p b g)) in
          (
            rs',
            ground (arith, beside, f),
            d'',
            u',
            λ p.
                k p
                ∙ raised_more (inside range p) (inside (range_of e) p) e.block (block_at more p)
                    (block_at rs p) (block_at rs p) (at p) (not_both p beside),
          )
      | inr some_of_it ↦
          let (mid, f, dm, m, k) =
            add_range-block_at (raised_part range e) rs (ground (arith, some_of_it)) d
              (ground (arith, some_of_it, s.0.1), ground (arith, s.0.1)) u in
          let (rs', g, d'', u', l) =
            increment_each-block_at range more mid less dm s.1 m (λ p b x. k p ∙ stays p b x) in
          (
            rs',
            ground (arith, some_of_it, f, g),
            d'',
            u',
            λ p.
                l p
                ∙ raised_more (inside range p) (inside (range_of e) p) e.block (block_at more p)
                    (block_at rs p) (block_at mid p) (at p) (k p ∙ both p),
          )
    ]
  where
    at :
        (p : ℕ)
        → inside (range_of e) p ≡ true
        → (block_at rs p ≡ some e.block) × (block_at more p ≡ none)
    at p in_it =
        (h p e.block (ground (arith, in_it)), nothing_at more p (ground (arith, in_it, d' p)))

    later : (p b : ℕ) → block_at more p ≡ some b → block_at (e ∷ more) p ≡ some b
    later p b g = elim (Bool-cases (inside (range_of e) p)) [
      | inl in_it ↦ let n = (at p in_it).1 in cc
      | inr outside ↦ rw outside g
    ]

    both :
        (p : ℕ)
        → newest (raised_part range e) p (block_at rs p) ≡ (
            if inside (range_of e) p && inside range p
            then elim (block_at rs p) [
              | none ↦ some (e.block + 1)
              | some c ↦ if ltb (e.block + 1) c then some c else some (e.block + 1)
            ]
            else block_at rs p)
    both p =
        let same : inside (range_of (raised_part range e)) p
            ≡ (inside (range_of e) p && inside range p) =
          ground arith in
        rw same refl

    not_both :
        (p : ℕ)
        → leb (min e.end range.end) (max e.start range.start) ≡ true
        → block_at rs p ≡ (
            if inside (range_of e) p && inside range p
            then elim (block_at rs p) [
              | none ↦ some (e.block + 1)
              | some c ↦ if ltb (e.block + 1) c then some c else some (e.block + 1)
            ]
            else block_at rs p)
    not_both p beside =
        let out : (inside (range_of e) p && inside range p) ≡ false = ground (arith, beside) in
        rw out refl

    stays :
        (p b : ℕ)
        → block_at more p ≡ some b
        → newest (raised_part range e) p (block_at rs p) ≡ some b
    stays p b g = elim (Bool-cases (inside (range_of e) p)) [
      | inl in_it ↦ let n = (at p in_it).1 in cc
      | inr outside ↦
          let out : inside (range_of (raised_part range e)) p ≡ false = ground (arith, outside) in
          rw out (h p b (rw outside g))
    ]

-- `incrementBlocks` raises the block of each position of a range that is not empty by one, where there
-- is a block, and leaves every other position as it was, if the ranges do not overlap and their ends are
-- below 2 ^ 53; both is so then, and no error is thrown.
pub increment_blocks-block_at :
    (range : Range) (rs : List BlockRange)
    → range.start < range.end
    → AreDisjoint rs
    → All IsSafe rs
    → (rs' : List BlockRange) × (increment_blocks range rs ≡ some rs')
      × AreDisjoint rs'
      × All IsSafe rs'
      × ((p : ℕ)
          → block_at rs' p ≡ (
              if inside range p
              then elim (block_at rs p) [ none ↦ none | some b ↦ some (b + 1) ]
              else block_at rs p))
unfolding increment_blocks
increment_blocks-block_at range rs l d s =
    let (rs', e, d', s', k) = increment_each-block_at range rs rs d d s s (λ p b g. g) in
    (rs', ground (arith, l, e), d', s', λ p. k p ∙ simpler (inside range p) (block_at rs p))
  where
    simpler :
        (i : Bool) (o : Option ℕ)
        → raised i o o ≡ (if i then elim o [ none ↦ none | some b ↦ some (b + 1) ] else o)
    simpler true none = refl
    simpler true (some b) = refl
    simpler false o = refl
