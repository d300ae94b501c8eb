-- ===== src/CoreDb/RangeBucket/Chains.antt =====
-- Ranges one after another, as packages/core-db/src/app/range-bucket.ts keeps them, and the value at
-- a position.
use pigi.Prelude.{
  ℕ, ◌≤◌, ◌<◌, ◌≡◌, refl, Bool, false, ◌&&◌, Option, none, some, List, [], ◌∷◌, ◌++◌, ltb, leb,
  if◌then◌else◌, arith, Bool-cases, inl, inr,
}
use pigi.CoreDb.RangeBucket.{RangeEntry}

module _ {V : Type 0} where
  abbrev pub inside : RangeEntry V → ℕ → Bool
  inside e p = leb e.start p && ltb p e.end

  -- What the bucket holds at a position
  abbrev pub value_at : List (RangeEntry V) → ℕ → Option V
  value_at [] p = none
  value_at (e ∷ es) p = if inside e p then some e.value else value_at es p

  -- Ranges in order, not empty and not overlapping, between two positions
  abbrev pub IsSpan : ℕ → List (RangeEntry V) → ℕ → Type 0
  IsSpan low [] high = low ≤ high
  IsSpan low (e ∷ es) high = (low ≤ e.start) × (e.start < e.end) × IsSpan e.end es high

  pub IsSpan-low-le-high :
      (low high : ℕ) (es : List (RangeEntry V)) → IsSpan low es high → low ≤ high
  IsSpan-low-le-high low high [] h = h
  IsSpan-low-le-high low high (e ∷ es) h = omega (arith, IsSpan-low-le-high e.end high es h.2)

  pub IsSpan-append :
      (low mid high : ℕ) (xs ys : List (RangeEntry V))
      → IsSpan low xs mid
      → IsSpan mid ys high
      → IsSpan low (xs ++ ys) high
  IsSpan-append low mid high [] [] h k = omega arith
  IsSpan-append low mid high [] (y ∷ ys) h k = (omega arith, k.1, k.2)
  IsSpan-append low mid high (x ∷ xs) ys h k = (h.0, h.1, IsSpan-append x.end mid high xs ys h.2 k)

  pub value_at-append :
      (xs ys : List (RangeEntry V)) (p : ℕ)
      → value_at (xs ++ ys) p ≡ elim (value_at xs p) [ none ↦ value_at ys p | some v ↦ some v ]
  value_at-append [] ys p = refl
  value_at-append (x ∷ xs) ys p = elim (Bool-cases (inside x p)) [
    | inl in_it ↦ rw in_it refl
    | inr outside ↦ rw outside (value_at-append xs ys p)
  ]

  -- There is nothing before ranges and nothing behind them.
  pub value_at_before :
      (low high p : ℕ) (es : List (RangeEntry V))
      → IsSpan low es high
      → p < low
      → value_at es p ≡ none
  value_at_before low high p [] h l = refl
  value_at_before low high p (e ∷ es) h l =
      let out : inside e p ≡ false = ground (arith, h.0, l) in
      rw out (value_at_before e.end high p es h.2 (omega (arith, h.0, h.1, l)))

  pub value_at_behind :
      (low high p : ℕ) (es : List (RangeEntry V))
      → IsSpan low es high
      → high ≤ p
      → value_at es p ≡ none
  value_at_behind low high p [] h l = refl
  value_at_behind low high p (e ∷ es) h l =
      let end_le = IsSpan-low-le-high e.end high es h.2 in
      let out : inside e p ≡ false = ground (arith, end_le, l) in
      rw out (value_at_behind e.end high p es h.2 l)
