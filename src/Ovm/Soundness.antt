-- ===== src/Ovm/Soundness.antt =====
-- The deciders of packages/ovm/src/app/deciders decide what the properties mean: whatever
-- combination of AND, OR, NOT and the quantifiers, an answer is the truth.
use mathlib.Core.Path.{subst}
use pigi.Prelude.{
  Bool, true, false, not, Option, none, some, List, [], ◌∷◌, ◌≡◌, refl, inl, inr, arith, All, Any,
}
use pigi.Ovm.Types.{
  Result, ok, err, >>=-eq-ok, ok-injective, cannot_decide, other_error, Value, Quantifier,
  integer_range, nonnegative_integer_less_than, external_quantifier, QuantifierResult, Property,
  and_decider, or_decider, not_decider, for_all_such_that, there_exists_such_that, equality_decider,
  true_decider, false_decider, cannot_decide_decider, external, Properties, nil, cons, Decision,
}
use pigi.Ovm.Loops.{
  handle_cannot_decide_error, promise_all, QuantifiedScan, and_loop, or_loop, and_result, or_result,
  for_all_loop, there_exists_loop, get_quantified_decision, get_not_decision,
}
use pigi.Ovm.Ranges.{integer_range_quantified-IsWholeRange, less_than_quantified-IsWholeRange}
use pigi.Ovm.Deciders.{Environment, get_all_quantified, decide, decide_each}
use pigi.Ovm.Semantics.{Meaning, Domain, Equality, Truth}
use pigi.Ovm.Deciders.{for_all_message, there_exists_message}
use pigi.Ovm.Combining.{
  AreRight, and_loop-ScanIsRight, or_loop-ScanIsRight, and_result-IsRight, or_result-IsRight,
  decide_equality-IsRight, Truth-at,
}
use pigi.Ovm.Quantifying.{QuantifiedIsRight, for_all_loop-IsRight, there_exists_loop-IsRight}

-- Every item of a domain has what every listed item has, if the list is the whole domain.
All_of_whole :
    {A : Type 0} (D T : A → Type 0) (vs : List A)
    → ((v : A) → D v → Any (λ w. w ≡ v) vs)
    → All T vs
    → (v : A) → D v
    → T v
All_of_whole {A} D T vs whole each v d = pick vs each (whole v d)
  where
    pick : (ws : List A) → All T ws → Any (λ w. w ≡ v) ws → T v
    pick [] a k = absurd k
    pick (w ∷ ws) a (inl e) = subst T e a.0
    pick (w ∷ ws) a (inr k) = pick ws a.1 k

module _ {X Q V : Type 0} {env : Environment X Q V} (m : Meaning env) where
  -- A quantifier reports only what it ranges over.
  pub quantified_right :
      (q : Quantifier Q) (r : QuantifierResult V)
      → get_all_quantified env q ≡ ok r
      → All (Domain m q) r.results
  unfolding get_all_quantified
  quantified_right (integer_range s e) r h = (integer_range_quantified-IsWholeRange V s e r h).0
  quantified_right (nonnegative_integer_less_than b) r h =
      (less_than_quantified-IsWholeRange V b r h).0
  quantified_right (external_quantifier q) r h = m.quantify_right q r h

  -- A quantifier that says so reports all of it.
  pub quantified_whole :
      (q : Quantifier Q) (r : QuantifierResult V)
      → get_all_quantified env q ≡ ok r
      → r.all_results_quantified ≡ true
      → (v : Value V) → Domain m q v
      → Any (λ w. w ≡ v) r.results
  unfolding get_all_quantified
  quantified_whole (integer_range s e) r h a = (integer_range_quantified-IsWholeRange V s e r h).1
  quantified_whole (nonnegative_integer_less_than b) r h a =
      (less_than_quantified-IsWholeRange V b r h).1
  quantified_whole (external_quantifier q) r h a = m.quantify_whole q r h a

  not-IsRight :
      (p : Property X Q V) (k d : Decision X Q V)
      → Truth m k.outcome p
      → ok (get_not_decision (not_decider p) k) ≡ ok d
      → Truth m d.outcome (not_decider p)
  unfolding get_not_decision
  not-IsRight p k d t e =
      let o : k.outcome ≡ not d.outcome = ground arith in subst (λ b. Truth m b p) o t

  handled-AreRight :
      (p : Property X Q V) (ps : Properties X Q V) (r : Result (Decision X Q V))
      (rest : List (Result (Option (Decision X Q V))))
      → ((d : Decision X Q V) → r ≡ ok d → Truth m d.outcome p)
      → ((ds : List (Option (Decision X Q V))) → promise_all rest ≡ ok ds → AreRight m ps ds)
      → (ds : List (Option (Decision X Q V)))
      → promise_all (handle_cannot_decide_error r ∷ rest) ≡ ok ds
      → AreRight m (cons p ps) ds
  unfolding promise_all handle_cannot_decide_error
  handled-AreRight p ps (err (other_error c)) rest now later ds e = cc
  handled-AreRight p ps (err (cannot_decide c)) rest now later ds e =
      let (ds', q, g) = >>=-eq-ok (promise_all rest) (λ l. ok (none ∷ l)) e in
      subst (AreRight m (cons p ps)) (ok-injective g) (later ds' q)
  handled-AreRight p ps (ok d) rest now later ds e =
      let (ds', q, g) = >>=-eq-ok (promise_all rest) (λ l. ok (some d ∷ l)) e in
      subst (AreRight m (cons p ps)) (ok-injective g) (now d refl, later ds' q)

  -- `getDecision` of the quantified deciders, after a loop that was right.
  for_all_decision-IsRight :
      (q : Quantifier Q) (f : Value V → Property X Q V) (vs : List (Value V)) (a : Bool)
      (o : Option (Decision X Q V)) (u : Bool) (ts : List (Decision X Q V)) (d : Decision X Q V)
      → (a ≡ true → (v : Value V) → Domain m q v → Any (λ w. w ≡ v) vs)
      → QuantifiedIsRight
          (Domain m q)
          (λ b v. Truth m b (f v))
          true
          false
          vs
          false
          (ok (record { deciding = o; undecided = u; others = ts }))
      → get_quantified_decision for_all_message true
          (for_all_such_that q f)
          a
          (record { deciding = o; undecided = u; others = ts })
        ≡ ok d
      → Truth m d.outcome (for_all_such_that q f)
  unfolding get_quantified_decision
  for_all_decision-IsRight q f vs a (some k) u ts d whole h e =
      Truth-at m (for_all_such_that q f) d false (ground arith) h.1
  for_all_decision-IsRight q f vs true none false ts d whole h e =
      Truth-at m (for_all_such_that q f) d true (ground arith)
        (All_of_whole (Domain m q) (λ v. Truth m true (f v)) vs (whole refl) (h refl).1)
  for_all_decision-IsRight q f vs false none false ts d whole h e = cc
  for_all_decision-IsRight q f vs a none true ts d whole h e = cc

  there_exists_decision-IsRight :
      (q : Quantifier Q) (f : Value V → Property X Q V) (vs : List (Value V)) (a : Bool)
      (o : Option (Decision X Q V)) (u : Bool) (fs : List (Decision X Q V)) (d : Decision X Q V)
      → (a ≡ true → (v : Value V) → Domain m q v → Any (λ w. w ≡ v) vs)
      → QuantifiedIsRight
          (Domain m q)
          (λ b v. Truth m b (f v))
          false
          true
          vs
          false
          (ok (record { deciding = o; undecided = u; others = fs }))
      → get_quantified_decision there_exists_message false
          (there_exists_such_that q f)
          a
          (record { deciding = o; undecided = u; others = fs })
        ≡ ok d
      → Truth m d.outcome (there_exists_such_that q f)
  unfolding get_quantified_decision
  there_exists_decision-IsRight q f vs a (some k) u fs d whole h e =
      Truth-at m (there_exists_such_that q f) d true (ground arith) h.1
  there_exists_decision-IsRight q f vs true none false fs d whole h e =
      Truth-at m (there_exists_such_that q f) d false (ground arith)
        (All_of_whole (Domain m q) (λ v. Truth m false (f v)) vs (whole refl) (h refl).1)
  there_exists_decision-IsRight q f vs false none false fs d whole h e = cc
  there_exists_decision-IsRight q f vs a none true fs d whole h e = cc

  IsRight-at :
      (Dom : Value V → Type 0) (T : Bool → Value V → Type 0) (whole stop : Bool)
      (vs : List (Value V)) (u : Bool) {r : Result (QuantifiedScan X Q V)}
      {s : QuantifiedScan X Q V}
      → r ≡ ok s
      → QuantifiedIsRight Dom T whole stop vs u r
      → QuantifiedIsRight Dom T whole stop vs u (ok s)
  IsRight-at Dom T whole stop vs u e h = subst (QuantifiedIsRight Dom T whole stop vs u) e h

  mutual
    unfolding decide promise_all

    decide-IsRight :
        (p : Property X Q V) (c : Bool) (d : Decision X Q V)
        → decide env p c ≡ ok d
        → Truth m d.outcome p
    decide-IsRight (and_decider ps) c d e =
        let (ds, q, g) =
          >>=-eq-ok (promise_all (decide_each env ps c))
            (λ l. and_result (and_decider ps) (and_loop l false [])) e in
        let s = and_loop ds false [] in
        and_result-IsRight m ps s.deciding s.undecided s.justification d
          (and_loop-ScanIsRight m ps ds false [] (decide_each-AreRight ps c ds q)) g
    decide-IsRight (or_decider ps) c d e =
        let (ds, q, g) =
          >>=-eq-ok (promise_all (decide_each env ps c))
            (λ l. or_result (or_decider ps) (or_loop l false [])) e in
        let s = or_loop ds false [] in
        or_result-IsRight m ps s.deciding s.undecided s.justification d
          (or_loop-ScanIsRight m ps ds false [] (decide_each-AreRight ps c ds q)) g
    decide-IsRight (not_decider p) c d e =
        let (k, q, g) =
          >>=-eq-ok (decide env p c) (λ k. ok (get_not_decision (not_decider p) k)) e in
        not-IsRight p k d (decide-IsRight p c k q) g
    decide-IsRight (for_all_such_that qu f) c d e =
        let (r, q, g) = >>=-eq-ok (get_all_quantified env qu) _ e in
        let (s, l, k) = >>=-eq-ok (for_all_loop (λ v. decide env (f v) c) r.results false []) _ g in
        for_all_decision-IsRight qu f r.results r.all_results_quantified s.deciding s.undecided
          s.others d (quantified_whole qu r q)
          (IsRight-at (Domain m qu) (λ b v. Truth m b (f v)) true false r.results false l
            (for_all_loop-IsRight (Domain m qu) (λ b v. Truth m b (f v)) (λ v. decide env (f v) c)
              (λ v. decide-IsRight (f v) c) r.results false [] (quantified_right qu r q)))
          k
    decide-IsRight (there_exists_such_that qu f) c d e =
        let (r, q, g) = >>=-eq-ok (get_all_quantified env qu) _ e in
        let (s, l, k) =
          >>=-eq-ok (there_exists_loop (λ v. decide env (f v) c) r.results false []) _ g in
        there_exists_decision-IsRight qu f r.results r.all_results_quantified s.deciding s.undecided
          s.others d (quantified_whole qu r q)
          (IsRight-at (Domain m qu) (λ b v. Truth m b (f v)) false true r.results false l
            (there_exists_loop-IsRight (Domain m qu) (λ b v. Truth m b (f v))
              (λ v. decide env (f v) c) (λ v. decide-IsRight (f v) c) r.results false []
              (quantified_right qu r q)))
          k
    decide-IsRight (equality_decider vs) c d e =
        subst (λ k. Equality m k.outcome vs) (ok-injective e)
          (decide_equality-IsRight m vs (equality_decider vs))
    decide-IsRight (true_decider v) c d e = Truth-at m (true_decider v) d true (ground arith) tt
    decide-IsRight (false_decider v) c d e = Truth-at m (false_decider v) d false (ground arith) tt
    decide-IsRight (cannot_decide_decider v) c d e = cc
    decide-IsRight (external x) c d e = m.decide_right x c d e

    decide_each-AreRight :
        (ps : Properties X Q V) (c : Bool) (ds : List (Option (Decision X Q V)))
        → promise_all (decide_each env ps c) ≡ ok ds
        → AreRight m ps ds
    decide_each-AreRight nil c ds e = subst (AreRight m nil) (ok-injective e) tt
    decide_each-AreRight (cons p ps) c ds e =
        handled-AreRight p ps (decide env p c) (decide_each env ps c) (decide-IsRight p c)
          (decide_each-AreRight ps c) ds e

  -- Whenever a property is decided, with or without the cache, the outcome is the truth: a
  -- decision `true` shows that the property holds and a decision `false` that it fails. The
  -- external deciders and quantifiers are assumed right, and a quantifier that claims to have
  -- quantified everything to have done so.
  pub decide_sound :
      (p : Property X Q V) (no_cache : Bool) (d : Decision X Q V)
      → decide env p no_cache ≡ ok d
      → Truth m d.outcome p
  decide_sound p no_cache d e = decide-IsRight p no_cache d e
