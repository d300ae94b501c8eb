-- ===== src/Ovm/Ranges.antt =====
-- The integer quantifiers of packages/ovm/src/app/quantifiers/integer-quantifiers.ts: their results
-- are exactly the integers of the range.
use mathlib.Core.List.{map-append}
use native.Mathlib.Decide.{dec_lt}
use mathlib.Core.Path.{subst}
use pigi.Prelude.{
  Bool-cases, ℕ, zero, suc, ◌<◌, true, [], ◌∷◌, map, ◌≡◌, refl, ap, sym, ◌∙◌, arith, All, Any,
  All-append, Any-append_left, Any-append_right, inl, inr,
}
use pigi.Prelude.Int.{ℤ, pos, ◌+ℤ◌, ◌-ℤ◌, ◌≤ℤ◌, ltb_ℤ, pos_part, int_laws, part_laws}
use pigi.Ovm.Types.{ok, Value, number, QuantifierResult}
use pigi.Ovm.Quantifiers.{indices, range, integer_range_quantified, less_than_quantified}

module _ (V : Type 0) where
  abbrev InRange : ℤ → ℤ → Value V → Type 0
  InRange start end v = (i : ℤ) × (v ≡ number i) × (start ≤ℤ i) × (i +ℤ pos 1 ≤ℤ end)

  All-indices :
      (P : Value V → Type 0) (g : ℕ → ℤ) (n : ℕ)
      → ((y : ℕ) → y < n → P (number (g y)))
      → All P (map number (map g (indices n)))
  unfolding indices
  All-indices P g zero h = tt
  All-indices P g (suc n) h = simp map-append (
      All-append P (map number (map g (indices n))) (number (g n) ∷ [])
        (All-indices P g n (λ y lt. h y (omega arith))) (h n (omega arith), tt))

  Any-indices :
      (P : Value V → Type 0) (g : ℕ → ℤ) (n y : ℕ)
      → y < n
      → P (number (g y))
      → Any P (map number (map g (indices n)))
  unfolding indices
  Any-indices P g zero y lt h = absurd (omega arith)
  Any-indices P g (suc n) y lt h = elim (dec_lt y n) [
    | yes below ↦ simp map-append (
        Any-append_left P (map number (map g (indices n))) (number (g n) ∷ [])
          (Any-indices P g n y below h))
    | no last ↦
        let e : n ≡ y = omega arith in
        simp map-append (
          Any-append_right P (map number (map g (indices n))) (number (g n) ∷ [])
            (inl (subst (λ k. P (number (g k))) (sym e) h)))
  ]

  range-InRange : (s e : ℤ) → All (InRange s e) (map number (range s e))
  unfolding range
  range-InRange s e =
      All-indices (InRange s e) (λ y. s +ℤ pos y) (pos_part (e -ℤ s))
        (λ y lt. (s +ℤ pos y, refl, omega int_laws, grind (part_laws)))

  InRange-range :
      (s e : ℤ) (v : Value V) → InRange s e v → Any (λ w. w ≡ v) (map number (range s e))
  unfolding range
  InRange-range s e v (i, is_i, low, high) =
      let same : s +ℤ pos (pos_part (i -ℤ s)) ≡ i = grind part_laws in
      Any-indices (λ w. w ≡ v) (λ y. s +ℤ pos y) (pos_part (e -ℤ s)) (pos_part (i -ℤ s))
        (grind part_laws) (ap number same ∙ sym is_i)

  -- The results are the numbers of the range, and they are said to be all.
  abbrev pub IsWholeRange : ℤ → ℤ → QuantifierResult V → Type 0
  IsWholeRange s e r =
      All (InRange s e) r.results
      × ((v : Value V) → InRange s e v → Any (λ w. w ≡ v) r.results)
      × (r.all_results_quantified ≡ true)

  range-IsWholeRange :
      (s e : ℤ) {r : QuantifierResult V}
      → record { results = map number (range s e); all_results_quantified = true } ≡ r
      → IsWholeRange s e r
  range-IsWholeRange s e q = subst (IsWholeRange s e) q (range-InRange s e, InRange-range s e, refl)

  -- A range quantifier that answers reports exactly the numbers of its range, and says that they
  -- are all.
  pub integer_range_quantified-IsWholeRange :
      (s e : ℤ) (r : QuantifierResult V) → integer_range_quantified s e ≡ ok r → IsWholeRange s e r
  unfolding integer_range_quantified
  integer_range_quantified-IsWholeRange s e r h = elim (Bool-cases (ltb_ℤ e s)) [
    | inl bad ↦ absurd (ground arith)
    | inr good ↦ range-IsWholeRange s e (ground arith)
  ]

  pub less_than_quantified-IsWholeRange :
      (b : ℤ) (r : QuantifierResult V) → less_than_quantified b ≡ ok r → IsWholeRange (pos 0) b r
  unfolding less_than_quantified
  less_than_quantified-IsWholeRange b r h = elim (Bool-cases (ltb_ℤ b (pos 0))) [
    | inl bad ↦ absurd (ground arith)
    | inr good ↦ range-IsWholeRange (pos 0) b (ground arith)
  ]
