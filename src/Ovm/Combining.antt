-- ===== src/Ovm/Combining.antt =====
-- What the AND, OR and equality deciders of packages/ovm/src/app/deciders answer, from the decisions
-- that they combine.
use mathlib.Core.Path.{subst}
use pigi.Prelude.{
  sym, Bool, true, false, Option, none, some, List, [], ◌∷◌, ◌++◌, ◌≡◌, refl, inl, inr, arith, All,
  Any, Bool-cases,
}
use pigi.Ovm.Types.{
  ok, Value, Property, and_decider, or_decider, Properties, nil, cons, Decision,
  ImplicationProofItem,
}
use pigi.Ovm.Loops.{
  Scan, and_loop, or_loop, and_result, or_result, decide_equality, first_mismatch, get_decision,
  get_equality_decision,
}
use pigi.Ovm.Deciders.{Environment}
use pigi.Ovm.Semantics.{Meaning, Equality, Truth, Every, Some}

module _ {X Q V : Type 0} {env : Environment X Q V} (m : Meaning env) where
  -- The decisions in a list, where there are any, are right about the properties beside them.
  abbrev pub AreRight : Properties X Q V → List (Option (Decision X Q V)) → Type 0
  AreRight nil [] = Unit
  AreRight nil (d ∷ ds) = ⊥
  AreRight (cons p ps) [] = ⊥
  AreRight (cons p ps) (none ∷ ds) = AreRight ps ds
  AreRight (cons p ps) (some d ∷ ds) = Truth m d.outcome p × AreRight ps ds

  -- What the variables of a loop that breaks at the outcome `stop` say after it has run from `u`:
  -- the decision that ended it is right, or, if none was missing, no property has that outcome.
  abbrev pub Scanned :
      Bool → Bool → Properties X Q V → Bool → Option (Decision X Q V) → Bool → Type 0
  Scanned whole stop ps u (some d) v = (d.outcome ≡ stop) × Some m stop ps
  Scanned whole stop ps u none v = v ≡ false → (u ≡ false) × Every m whole ps

  Scanned-missing :
      (whole stop : Bool) (p : Property X Q V) (ps : Properties X Q V) (u : Bool)
      (o : Option (Decision X Q V)) (v : Bool)
      → Scanned whole stop ps true o v
      → Scanned whole stop (cons p ps) u o v
  Scanned-missing whole stop p ps u none v h = λ e. cc ((h e).0)
  Scanned-missing whole stop p ps u (some d) v h = (h.0, inr h.1)

  Scanned-next :
      (whole stop : Bool) (p : Property X Q V) (ps : Properties X Q V) (u : Bool)
      (o : Option (Decision X Q V)) (v : Bool)
      → Truth m whole p
      → Scanned whole stop ps u o v
      → Scanned whole stop (cons p ps) u o v
  Scanned-next whole stop p ps u none v t h = λ e. ((h e).0, (t, (h e).1))
  Scanned-next whole stop p ps u (some d) v t h = (h.0, inr h.1)

  abbrev pub ScanIsRight : Bool → Bool → Properties X Q V → Bool → Scan X Q V → Type 0
  ScanIsRight whole stop ps u s = Scanned whole stop ps u s.deciding s.undecided

  pub and_loop-ScanIsRight :
      (ps : Properties X Q V) (ds : List (Option (Decision X Q V))) (u : Bool)
      (j : List (ImplicationProofItem X Q V))
      → AreRight ps ds
      → ScanIsRight true false ps u (and_loop ds u j)
  unfolding and_loop
  and_loop-ScanIsRight nil [] u j h = λ e. (e, tt)
  and_loop-ScanIsRight nil (d ∷ ds) u j h = absurd h
  and_loop-ScanIsRight (cons p ps) [] u j h = absurd h
  and_loop-ScanIsRight (cons p ps) (none ∷ ds) u j h =
      let s = and_loop ds true j in
      Scanned-missing true false p ps u s.deciding s.undecided (and_loop-ScanIsRight ps ds true j h)
  and_loop-ScanIsRight (cons p ps) (some d ∷ ds) u j h = elim (Bool-cases d.outcome) [
    | inl t ↦
        let s = and_loop ds u (j ++ d.justification) in
        simp t (
          Scanned-next true false p ps u s.deciding s.undecided (subst (λ b. Truth m b p) t h.0)
            (and_loop-ScanIsRight ps ds u (j ++ d.justification) h.1))
    | inr f ↦ simp f (refl, inl (subst (λ b. Truth m b p) f h.0))
  ]

  pub or_loop-ScanIsRight :
      (ps : Properties X Q V) (ds : List (Option (Decision X Q V))) (u : Bool)
      (j : List (ImplicationProofItem X Q V))
      → AreRight ps ds
      → ScanIsRight false true ps u (or_loop ds u j)
  unfolding or_loop
  or_loop-ScanIsRight nil [] u j h = λ e. (e, tt)
  or_loop-ScanIsRight nil (d ∷ ds) u j h = absurd h
  or_loop-ScanIsRight (cons p ps) [] u j h = absurd h
  or_loop-ScanIsRight (cons p ps) (none ∷ ds) u j h =
      let s = or_loop ds true j in
      Scanned-missing false true p ps u s.deciding s.undecided (or_loop-ScanIsRight ps ds true j h)
  or_loop-ScanIsRight (cons p ps) (some d ∷ ds) u j h = elim (Bool-cases d.outcome) [
    | inr f ↦
        let s = or_loop ds u (j ++ d.justification) in
        simp f (
          Scanned-next false true p ps u s.deciding s.undecided (subst (λ b. Truth m b p) f h.0)
            (or_loop-ScanIsRight ps ds u (j ++ d.justification) h.1))
    | inl t ↦ simp t (refl, inl (subst (λ b. Truth m b p) t h.0))
  ]

  pub Truth-at :
      (p : Property X Q V) (d : Decision X Q V) (b : Bool)
      → d.outcome ≡ b
      → Truth m b p
      → Truth m d.outcome p
  Truth-at p d b e t = subst (λ b. Truth m b p) (sym e) t

  pub and_result-IsRight :
      (ps : Properties X Q V) (o : Option (Decision X Q V)) (u : Bool)
      (j : List (ImplicationProofItem X Q V)) (d : Decision X Q V)
      → Scanned true false ps false o u
      → and_result (and_decider ps) (record { deciding = o; undecided = u; justification = j })
        ≡ ok d
      → Truth m d.outcome (and_decider ps)
  unfolding and_result get_decision
  and_result-IsRight ps none true j d h e = cc
  and_result-IsRight ps none false j d h e =
      Truth-at (and_decider ps) d true (ground arith) (h refl).1
  and_result-IsRight ps (some k) u j d h e = Truth-at (and_decider ps) d false (ground arith) h.1

  pub or_result-IsRight :
      (ps : Properties X Q V) (o : Option (Decision X Q V)) (u : Bool)
      (j : List (ImplicationProofItem X Q V)) (d : Decision X Q V)
      → Scanned false true ps false o u
      → or_result (or_decider ps) (record { deciding = o; undecided = u; justification = j }) ≡ ok d
      → Truth m d.outcome (or_decider ps)
  unfolding or_result get_decision
  or_result-IsRight ps none true j d h e = cc
  or_result-IsRight ps none false j d h e =
      Truth-at (or_decider ps) d false (ground arith) (h refl).1
  or_result-IsRight ps (some k) u j d h e = Truth-at (or_decider ps) d true (ground arith) h.1

  first_mismatch-Any :
      (v : Value V) (vs : List (Value V)) {w : Value V}
      → first_mismatch env.are_equal v vs ≡ some w
      → Any (λ x. env.are_equal v x ≡ false) vs
  unfolding first_mismatch
  first_mismatch-Any v [] e = cc
  first_mismatch-Any v (x ∷ vs) e = elim (Bool-cases (env.are_equal v x)) [
    | inl t ↦ inr (first_mismatch-Any v vs (rw t at e))
    | inr f ↦ inl f
  ]

  first_mismatch-All :
      (v : Value V) (vs : List (Value V))
      → first_mismatch env.are_equal v vs ≡ none
      → All (λ x. env.are_equal v x ≡ true) vs
  unfolding first_mismatch
  first_mismatch-All v [] e = tt
  first_mismatch-All v (x ∷ vs) e = elim (Bool-cases (env.are_equal v x)) [
    | inl t ↦ (t, first_mismatch-All v vs (rw t at e))
    | inr f ↦ absurd (ground arith)
  ]

  get_equality_decision-IsRight :
      (p : Property X Q V) (v : Value V) (vs : List (Value V)) (o : Option (Value V))
      → first_mismatch env.are_equal v (v ∷ vs) ≡ o
      → Equality m (get_equality_decision p v o).outcome (v ∷ vs)
  unfolding get_equality_decision
  get_equality_decision-IsRight p v vs none e = first_mismatch-All v (v ∷ vs) e
  get_equality_decision-IsRight p v vs (some w) e = first_mismatch-Any v (v ∷ vs) e

  pub decide_equality-IsRight :
      (vs : List (Value V)) (p : Property X Q V)
      → Equality m (decide_equality env.are_equal vs p).outcome vs
  unfolding decide_equality
  decide_equality-IsRight [] p = tt
  decide_equality-IsRight (v ∷ vs) p = get_equality_decision-IsRight p v vs _ refl
