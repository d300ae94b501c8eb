-- ===== src/Ovm/Agreement.antt =====
-- Two decisions of packages/ovm on one property never contradict one another.
use pigi.Prelude.{Bool, true, false, List, [], ◌∷◌, ◌≡◌, refl, inl, inr, All, Any}
use pigi.Ovm.Types.{
  ok, Value, Property, and_decider, or_decider, not_decider, for_all_such_that,
  there_exists_such_that, equality_decider, true_decider, false_decider, cannot_decide_decider,
  external, Properties, nil, cons, Decision,
}
use pigi.Ovm.Deciders.{Environment, decide}
use pigi.Ovm.Semantics.{Meaning, Equality, Truth, Every, Some}
use pigi.Ovm.Soundness.{decide_sound}

module _ {X Q V : Type 0} {env : Environment X Q V} (m : Meaning env)
    (consistent : (x : X) → m.Holds true x → m.Holds false x → ⊥) where
  equal_and_unequal :
      (v : Value V) (vs : List (Value V))
      → All (λ w. env.are_equal v w ≡ true) vs
      → Any (λ w. env.are_equal v w ≡ false) vs
      → ⊥
  equal_and_unequal v [] a b = absurd b
  equal_and_unequal v (w ∷ ws) a (inl e) = cc (a.0)
  equal_and_unequal v (w ∷ ws) a (inr k) = equal_and_unequal v ws a.1 k

  Equality-consistent : (vs : List (Value V)) → Equality m true vs → Equality m false vs → ⊥
  Equality-consistent [] a b = b
  Equality-consistent (v ∷ vs) a b = equal_and_unequal v (v ∷ vs) a b

  mutual
    Truth-consistent : (p : Property X Q V) → Truth m true p → Truth m false p → ⊥
    Truth-consistent (and_decider ps) a b = Every-and_Some ps a b
    Truth-consistent (or_decider ps) a b = Some-and_Every ps a b
    Truth-consistent (not_decider p) a b = Truth-consistent p b a
    Truth-consistent (for_all_such_that q f) a (v, d, t) = Truth-consistent (f v) (a v d) t
    Truth-consistent (there_exists_such_that q f) (v, d, t) b = Truth-consistent (f v) t (b v d)
    Truth-consistent (equality_decider vs) a b = Equality-consistent vs a b
    Truth-consistent (true_decider v) a b = b
    Truth-consistent (false_decider v) a b = a
    Truth-consistent (cannot_decide_decider v) a b = a
    Truth-consistent (external x) a b = consistent x a b

    Every-and_Some : (ps : Properties X Q V) → Every m true ps → Some m false ps → ⊥
    Every-and_Some nil a b = b
    Every-and_Some (cons p ps) a (inl t) = Truth-consistent p a.0 t
    Every-and_Some (cons p ps) a (inr k) = Every-and_Some ps a.1 k

    Some-and_Every : (ps : Properties X Q V) → Some m true ps → Every m false ps → ⊥
    Some-and_Every nil a b = a
    Some-and_Every (cons p ps) (inl t) b = Truth-consistent p t b.0
    Some-and_Every (cons p ps) (inr k) b = Some-and_Every ps k b.1

  -- Two decisions on a property, with the cache or without it, have the same outcome, if no
  -- external property is both true and false.
  pub decide_agrees :
      (p : Property X Q V) (c c' : Bool) (d d' : Decision X Q V)
      → decide env p c ≡ ok d
      → decide env p c' ≡ ok d'
      → d.outcome ≡ d'.outcome
  decide_agrees p c c' d d' e e' =
      agree d.outcome d'.outcome (decide_sound m p c d e) (decide_sound m p c' d' e')
    where
      agree : (a b : Bool) → Truth m a p → Truth m b p → a ≡ b
      agree true true s t = refl
      agree false false s t = refl
      agree true false s t = absurd (Truth-consistent p s t)
      agree false true s t = absurd (Truth-consistent p t s)
