-- ===== src/Ovm/Quantifying.antt =====
-- What the quantified deciders of packages/ovm/src/app/deciders answer, from the decisions on the
-- results of the quantifier.
use mathlib.Core.Path.{subst}
use pigi.Prelude.{
  Bool, true, false, Option, none, some, List, [], ◌∷◌, ◌++◌, ◌≡◌, refl, inl, inr, arith, All,
  Bool-cases,
}
use pigi.Ovm.Types.{Result, ok, err, cannot_decide, other_error, Value, Decision}
use pigi.Ovm.Loops.{QuantifiedScan, for_all_loop, there_exists_loop}

-- `T b v` is what the outcome `b` means at the value `v`.
module _ {X Q V : Type 0} (Dom : Value V → Type 0) (T : Bool → Value V → Type 0) where
  -- What the variables of a loop that breaks at the outcome `stop` say after it has run from `u`.
  abbrev Quantified : Bool → Bool → List (Value V) → Bool → Option (Decision X Q V) → Bool → Type 0
  Quantified whole stop vs u (some d) v = (d.outcome ≡ stop) × ((w : Value V) × Dom w × T stop w)
  Quantified whole stop vs u none v = v ≡ false → (u ≡ false) × All (T whole) vs

  Quantified-missing :
      (whole stop : Bool) (x : Value V) (vs : List (Value V)) (u : Bool)
      (o : Option (Decision X Q V)) (v : Bool)
      → Quantified whole stop vs true o v
      → Quantified whole stop (x ∷ vs) u o v
  Quantified-missing whole stop x vs u none v h = λ e. cc ((h e).0)
  Quantified-missing whole stop x vs u (some d) v h = h

  Quantified-next :
      (whole stop : Bool) (x : Value V) (vs : List (Value V)) (u : Bool)
      (o : Option (Decision X Q V)) (v : Bool)
      → T whole x
      → Quantified whole stop vs u o v
      → Quantified whole stop (x ∷ vs) u o v
  Quantified-next whole stop x vs u none v t h = λ e. ((h e).0, (t, (h e).1))
  Quantified-next whole stop x vs u (some d) v t h = h

  abbrev pub QuantifiedIsRight :
      Bool → Bool → List (Value V) → Bool → Result (QuantifiedScan X Q V) → Type 0
  QuantifiedIsRight whole stop vs u (ok s) = Quantified whole stop vs u s.deciding s.undecided
  QuantifiedIsRight whole stop vs u (err e) = Unit

  IsRight-missing :
      (whole stop : Bool) (x : Value V) (vs : List (Value V)) (u : Bool)
      (r : Result (QuantifiedScan X Q V))
      → QuantifiedIsRight whole stop vs true r
      → QuantifiedIsRight whole stop (x ∷ vs) u r
  IsRight-missing whole stop x vs u (ok s) h =
      Quantified-missing whole stop x vs u s.deciding s.undecided h
  IsRight-missing whole stop x vs u (err e) h = tt

  IsRight-next :
      (whole stop : Bool) (x : Value V) (vs : List (Value V)) (u : Bool)
      (r : Result (QuantifiedScan X Q V))
      → T whole x
      → QuantifiedIsRight whole stop vs u r
      → QuantifiedIsRight whole stop (x ∷ vs) u r
  IsRight-next whole stop x vs u (ok s) t h =
      Quantified-next whole stop x vs u s.deciding s.undecided t h
  IsRight-next whole stop x vs u (err e) t h = tt

module _ {X Q V : Type 0} (Dom : Value V → Type 0) (T : Bool → Value V → Type 0)
    (run : Value V → Result (Decision X Q V))
    (right : (v : Value V) (d : Decision X Q V) → run v ≡ ok d → T d.outcome v) where
  outcome_right :
      (v : Value V) (d : Decision X Q V) (b : Bool) → run v ≡ ok d → d.outcome ≡ b → T b v
  outcome_right v d b e o = subst (λ c. T c v) o (right v d e)

  pub for_all_loop-IsRight :
      (vs : List (Value V)) (u : Bool) (ts : List (Decision X Q V))
      → All Dom vs
      → QuantifiedIsRight Dom T true false vs u (for_all_loop run vs u ts)
  unfolding for_all_loop
  for_all_loop-IsRight [] u ts h = λ e. (e, tt)
  for_all_loop-IsRight (v ∷ vs) u ts h =
      at (run v) refl (for_all_loop-IsRight vs true ts h.1)
        (λ d. for_all_loop-IsRight vs u (ts ++ d ∷ []) h.1)
    where
      at :
          (r : Result (Decision X Q V))
          → run v ≡ r
          → QuantifiedIsRight Dom T true false vs true (for_all_loop run vs true ts)
          → ((d : Decision X Q V)
              → QuantifiedIsRight Dom T true false vs u (for_all_loop run vs u (ts ++ d ∷ [])))
          → QuantifiedIsRight Dom T true false (v ∷ vs) u (for_all_loop run (v ∷ vs) u ts)
      at (err (cannot_decide c)) e missing next =
          rw (e, for_all_loop)
            (IsRight-missing Dom T true false v vs u (for_all_loop run vs true ts) missing)
      at (err (other_error c)) e missing next = rw (e, for_all_loop) tt
      at (ok d) e missing next = elim (Bool-cases d.outcome) [
        | inl t ↦
            let q : for_all_loop run (v ∷ vs) u ts ≡ for_all_loop run vs u (ts ++ d ∷ []) =
              ground arith in
            rw q (
              IsRight-next Dom T true false v vs u (for_all_loop run vs u (ts ++ d ∷ []))
                (outcome_right v d true e t) (next d))
        | inr f ↦
            let q : for_all_loop run (v ∷ vs) u ts
                ≡ ok (record { deciding = some d; undecided = u; others = ts }) =
              ground arith in
            rw q (f, (v, h.0, outcome_right v d false e f))
      ]

  pub there_exists_loop-IsRight :
      (vs : List (Value V)) (u : Bool) (fs : List (Decision X Q V))
      → All Dom vs
      → QuantifiedIsRight Dom T false true vs u (there_exists_loop run vs u fs)
  unfolding there_exists_loop
  there_exists_loop-IsRight [] u fs h = λ e. (e, tt)
  there_exists_loop-IsRight (v ∷ vs) u fs h =
      at (run v) refl (there_exists_loop-IsRight vs true fs h.1)
        (λ d. there_exists_loop-IsRight vs u (fs ++ d ∷ []) h.1)
    where
      at :
          (r : Result (Decision X Q V))
          → run v ≡ r
          → QuantifiedIsRight Dom T false true vs true (there_exists_loop run vs true fs)
          → ((d : Decision X Q V)
              → QuantifiedIsRight Dom T false true vs u (there_exists_loop run vs u (fs ++ d ∷ [])))
          → QuantifiedIsRight Dom T false true (v ∷ vs) u (there_exists_loop run (v ∷ vs) u fs)
      at (err (cannot_decide c)) e missing next =
          rw (e, there_exists_loop)
            (IsRight-missing Dom T false true v vs u (there_exists_loop run vs true fs) missing)
      at (err (other_error c)) e missing next = rw (e, there_exists_loop) tt
      at (ok d) e missing next = elim (Bool-cases d.outcome) [
        | inr f ↦
            let q : there_exists_loop run (v ∷ vs) u fs
                ≡ there_exists_loop run vs u (fs ++ d ∷ []) =
              ground arith in
            rw q (
              IsRight-next Dom T false true v vs u (there_exists_loop run vs u (fs ++ d ∷ []))
                (outcome_right v d false e f) (next d))
        | inl t ↦
            let q : there_exists_loop run (v ∷ vs) u fs
                ≡ ok (record { deciding = some d; undecided = u; others = fs }) =
              ground arith in
            rw q (t, (v, h.0, outcome_right v d true e t))
      ]
