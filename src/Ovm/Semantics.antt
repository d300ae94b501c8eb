-- ===== src/Ovm/Semantics.antt =====
-- What the properties of packages/ovm mean, apart from the deciders: when each is true and when it
-- is false, from the meaning of the external properties and quantifiers.
use pigi.Prelude.{Bool, true, false, not, List, [], ◌∷◌, ◌≡◌, ◌⊎◌, All, Any}
use pigi.Prelude.Int.{ℤ, pos, ◌≤ℤ◌, ◌+ℤ◌}
use pigi.Ovm.Types.{
  ok, Value, number, Quantifier, integer_range, nonnegative_integer_less_than, external_quantifier,
  Property, and_decider, or_decider, not_decider, for_all_such_that, there_exists_such_that,
  equality_decider, true_decider, false_decider, cannot_decide_decider, external, Properties, nil,
  cons,
}
use pigi.Ovm.Deciders.{Environment}

-- The facts that the external deciders report, and what the external quantifiers range over. A
-- decision is right, the results lie in the domain, and they are the whole domain where the
-- quantifier says so.
pub record Meaning {X Q V : Type 0} (env : Environment X Q V) : Type 1 where
  pub Holds : Bool → X → Type 0
  pub InDomain : Q → Value V → Type 0
  pub decide_right :
      (x : X) (c : Bool) → (d : _) → env.decide_external x c ≡ ok d → Holds d.outcome x
  pub quantify_right :
      (q : Q) → (r : _) → env.quantify_external q ≡ ok r → All (InDomain q) r.results
  pub quantify_whole :
      (q : Q)
      → (r : _) → env.quantify_external q ≡ ok r
      → r.all_results_quantified ≡ true
      → (v : Value V) → InDomain q v
      → Any (λ w. w ≡ v) r.results

module _ {X Q V : Type 0} {env : Environment X Q V} (m : Meaning env) where
  -- The integers from `start` to `end`, without `end`.
  abbrev pub Domain : Quantifier Q → Value V → Type 0
  Domain (integer_range start end) v = (i : ℤ) × (v ≡ number i) × (start ≤ℤ i) × (i +ℤ pos 1 ≤ℤ end)
  Domain (nonnegative_integer_less_than bound) v =
      (i : ℤ) × (v ≡ number i) × (pos 0 ≤ℤ i) × (i +ℤ pos 1 ≤ℤ bound)
  Domain (external_quantifier q) v = m.InDomain q v

  -- All items equal the first, and some item does not.
  abbrev pub Equality : Bool → List (Value V) → Type 0
  Equality true [] = Unit
  Equality false [] = ⊥
  Equality true (v ∷ vs) = All (λ w. env.are_equal v w ≡ true) (v ∷ vs)
  Equality false (v ∷ vs) = Any (λ w. env.are_equal v w ≡ false) (v ∷ vs)

  abbrev mutual
    -- `Truth true p`: the property is true. `Truth false p`: it is false.
    pub Truth : Bool → Property X Q V → Type 0
    Truth true (and_decider ps) = Every true ps
    Truth false (and_decider ps) = Some false ps
    Truth true (or_decider ps) = Some true ps
    Truth false (or_decider ps) = Every false ps
    Truth b (not_decider p) = Truth (not b) p
    Truth true (for_all_such_that q f) = (v : Value V) → Domain q v → Truth true (f v)
    Truth false (for_all_such_that q f) = (v : Value V) × Domain q v × Truth false (f v)
    Truth true (there_exists_such_that q f) = (v : Value V) × Domain q v × Truth true (f v)
    Truth false (there_exists_such_that q f) = (v : Value V) → Domain q v → Truth false (f v)
    Truth b (equality_decider vs) = Equality b vs
    Truth true (true_decider v) = Unit
    Truth false (true_decider v) = ⊥
    Truth true (false_decider v) = ⊥
    Truth false (false_decider v) = Unit
    Truth b (cannot_decide_decider v) = ⊥
    Truth b (external x) = m.Holds b x

    pub Every : Bool → Properties X Q V → Type 0
    Every b nil = Unit
    Every b (cons p ps) = Truth b p × Every b ps

    pub Some : Bool → Properties X Q V → Type 0
    Some b nil = ⊥
    Some b (cons p ps) = Truth b p ⊎ Some b ps
