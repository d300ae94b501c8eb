-- ===== src/CoreDb/BlockRanges/Weights.antt =====
-- What a list of the ranges of packages/core-db/src/app/utils/range.ts holds at a position, whatever
-- the order of the list.
use pigi.Prelude.{
  ℕ, suc, ◌+◌, ◌≤◌, ◌≡◌, refl, sym, ap, ◌∙◌, Bool, ◌&&◌, Option, none, some, List, [], ◌∷◌, ◌++◌,
  ltb, leb, if◌then◌else◌, arith, Bool-cases, inl, inr,
}
use pigi.CoreDb.Range.{Range}
use pigi.CoreDb.BlockRanges.{BlockRange, range_of}

abbrev pub inside : Range → ℕ → Bool
inside r p = leb r.start p && ltb p r.end

-- The block at a position: that of the first range there.
abbrev pub block_at : List BlockRange → ℕ → Option ℕ
block_at [] p = none
block_at (r ∷ rs) p = if inside (range_of r) p then some r.block else block_at rs p

abbrev pub weigh : (ℕ → ℕ) → List BlockRange → ℕ → ℕ
weigh w [] p = 0
weigh w (r ∷ rs) p = (if inside (range_of r) p then w r.block else 0) + weigh w rs p

abbrev pub count : List BlockRange → ℕ → ℕ
count = weigh (λ b. 1)

-- No position lies in two ranges.
abbrev pub AreDisjoint : List BlockRange → Type 0
AreDisjoint rs = (p : ℕ) → count rs p ≤ 1

abbrev pub weight : (ℕ → ℕ) → Option ℕ → ℕ
weight w none = 0
weight w (some b) = w b

pub weigh-append :
    (w : ℕ → ℕ) (xs ys : List BlockRange) (p : ℕ)
    → weigh w (xs ++ ys) p ≡ weigh w xs p + weigh w ys p
weigh-append w [] ys p = omega arith
weigh-append w (x ∷ xs) ys p = omega (arith, weigh-append w xs ys p)

pub weigh-none : (w : ℕ → ℕ) (rs : List BlockRange) (p : ℕ) → count rs p ≡ 0 → weigh w rs p ≡ 0
weigh-none w [] p h = refl
weigh-none w (r ∷ rs) p h = elim (Bool-cases (inside (range_of r) p)) [
  | inl in_it ↦ absurd (ground (arith, h, in_it))
  | inr outside ↦ ground (arith, outside, weigh-none w rs p)
]

-- Of ranges that do not overlap, the weight is that of the first.
pub weigh-block_at :
    (w : ℕ → ℕ) (rs : List BlockRange) (p : ℕ)
    → count rs p ≤ 1
    → weigh w rs p ≡ weight w (block_at rs p)
weigh-block_at w [] p h = refl
weigh-block_at w (r ∷ rs) p h = elim (Bool-cases (inside (range_of r) p)) [
  | inl in_it ↦ rw in_it (ground (arith, h, in_it, weigh-none w rs p))
  | inr outside ↦ rw outside (ground (arith, weigh-block_at w rs p (ground (arith, h, outside))))
]

weight-injective : (o o' : Option ℕ) → weight suc o ≡ weight suc o' → o ≡ o'
weight-injective none none h = refl
weight-injective none (some b) h = absurd (omega (arith, h))
weight-injective (some a) none h = absurd (omega (arith, h))
weight-injective (some a) (some b) h = ap some (omega (arith, h))

-- The block at a position is known by the weight there.
pub block_at-weigh :
    (rs : List BlockRange) (p : ℕ) (o : Option ℕ)
    → count rs p ≤ 1
    → weigh suc rs p ≡ weight suc o
    → block_at rs p ≡ o
block_at-weigh rs p o h e = weight-injective (block_at rs p) o (sym (weigh-block_at suc rs p h) ∙ e)
