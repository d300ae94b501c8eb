-- ===== src/Ovm/Kleene.antt =====
-- The AND, OR and NOT deciders of packages/ovm/src/app/deciders against three-valued logic: the
-- verdict of a combination is a function of the verdicts of its parts, on every path, the
-- undecided and the failing ones too.
use pigi.Prelude.{
  Bool, true, false, not, Option, none, some, List, [], ◌∷◌, ◌++◌, map, ◌≡◌, refl, ap, sym, ◌∙◌,
  arith,
}
use pigi.Ovm.Types.{
  Result, ok, err, cannot_decide, other_error, ◌>>=◌, Property, and_decider, or_decider,
  not_decider, Properties, nil, cons, Decision, ImplicationProofItem,
}
use pigi.Ovm.Loops.{
  handle_cannot_decide_error, promise_all, and_loop, or_loop, and_result, or_result, get_decision,
  get_not_decision,
}
use pigi.Ovm.Deciders.{Environment, decide, decide_each}

-- How a decision ended: with an outcome, undecided, or with another error.
pub data Verdict : Type 0 where
  decided : Bool → Verdict
  unknown failed : Verdict

-- Kleene's conjunction; a failure of either part is a failure.
abbrev pub both : Verdict → Verdict → Verdict
both failed b = failed
both a failed = failed
both (decided false) b = decided false
both a (decided false) = decided false
both unknown b = unknown
both a unknown = unknown
both (decided true) (decided true) = decided true

abbrev pub negation : Verdict → Verdict
negation (decided b) = decided (not b)
negation unknown = unknown
negation failed = failed

-- Kleene's disjunction.
abbrev pub either : Verdict → Verdict → Verdict
either a b = negation (both (negation a) (negation b))

abbrev pub conjunction : List Verdict → Verdict
conjunction [] = decided true
conjunction (v ∷ vs) = both v (conjunction vs)

abbrev pub disjunction : List Verdict → Verdict
disjunction [] = decided false
disjunction (v ∷ vs) = either v (disjunction vs)

-- What a loop that has met nothing that ends it starts from.
abbrev so_far : Bool → Bool → Verdict
so_far whole false = decided whole
so_far whole true = unknown

both-failed : (v : Verdict) → (both v failed ≡ failed) × (either v failed ≡ failed)
both-failed v = ground arith

de_morgan : (a b : Verdict) → negation (both a b) ≡ either (negation a) (negation b)
de_morgan a b = ground arith

both_decided : (v : Verdict) → both (decided true) v ≡ v
both_decided v = ground arith

either_decided : (v : Verdict) → either (decided false) v ≡ v
either_decided v = ground arith

module _ {X Q V : Type 0} where
  abbrev pub verdict : Result (Decision X Q V) → Verdict
  verdict (ok d) = decided d.outcome
  verdict (err (cannot_decide m)) = unknown
  verdict (err (other_error m)) = failed

  abbrev shown : Option (Decision X Q V) → Verdict
  shown none = unknown
  shown (some d) = decided d.outcome

  -- No decision in the list failed.
  conjunction-ne-failed :
      (ds : List (Option (Decision X Q V))) → conjunction (map shown ds) ≡ failed → ⊥
  conjunction-ne-failed [] e = cc
  conjunction-ne-failed (none ∷ ds) e = ground (arith, conjunction-ne-failed ds)
  conjunction-ne-failed (some d ∷ ds) e = ground (arith, conjunction-ne-failed ds)

  disjunction-ne-failed :
      (ds : List (Option (Decision X Q V))) → disjunction (map shown ds) ≡ failed → ⊥
  disjunction-ne-failed [] e = cc
  disjunction-ne-failed (none ∷ ds) e = ground (arith, disjunction-ne-failed ds)
  disjunction-ne-failed (some d ∷ ds) e = ground (arith, disjunction-ne-failed ds)

  verdict-and_loop :
      (p : Property X Q V) (ds : List (Option (Decision X Q V))) (u : Bool)
      (j : List (ImplicationProofItem X Q V))
      → verdict (and_result p (and_loop ds u j)) ≡ both (so_far true u) (conjunction (map shown ds))
  unfolding and_loop and_result get_decision
  verdict-and_loop p [] u j = ground arith
  verdict-and_loop p (none ∷ ds) u j =
      ground (arith, verdict-and_loop p ds true j, conjunction-ne-failed ds)
  verdict-and_loop p (some d ∷ ds) u j =
      ground (arith, verdict-and_loop p ds u (j ++ d.justification), conjunction-ne-failed ds)

  verdict-or_loop :
      (p : Property X Q V) (ds : List (Option (Decision X Q V))) (u : Bool)
      (j : List (ImplicationProofItem X Q V))
      → verdict (or_result p (or_loop ds u j))
        ≡ either (so_far false u) (disjunction (map shown ds))
  unfolding or_loop or_result get_decision
  verdict-or_loop p [] u j = ground arith
  verdict-or_loop p (none ∷ ds) u j =
      ground (arith, verdict-or_loop p ds true j, disjunction-ne-failed ds)
  verdict-or_loop p (some d ∷ ds) u j =
      ground (arith, verdict-or_loop p ds u (j ++ d.justification), disjunction-ne-failed ds)

  -- What `Promise.all` makes of decisions with the verdicts `vs`.
  abbrev Matches : List Verdict → Result (List (Option (Decision X Q V))) → Type 0
  Matches vs (ok ds) = map shown ds ≡ vs
  Matches vs (err (cannot_decide m)) = ⊥
  Matches vs (err (other_error m)) = (conjunction vs ≡ failed) × (disjunction vs ≡ failed)

  Matches-cons :
      (r : Result (Decision X Q V)) (rs : List (Result (Option (Decision X Q V))))
      (vs : List Verdict)
      → Matches vs (promise_all rs)
      → Matches (verdict r ∷ vs) (promise_all (handle_cannot_decide_error r ∷ rs))
  unfolding promise_all handle_cannot_decide_error
  Matches-cons (err (other_error m)) rs vs h = (refl, refl)
  Matches-cons (err (cannot_decide m)) rs vs h = add (promise_all rs) h
    where
      add :
          (r : Result (List (Option (Decision X Q V))))
          → Matches vs r
          → Matches (unknown ∷ vs) (r >>= λ l. ok (none ∷ l))
      add (ok ds) e = ap (λ l. unknown ∷ l) e
      add (err (cannot_decide n)) e = e
      add (err (other_error n)) e = rw (e.0, e.1) (refl, refl)
  Matches-cons (ok d) rs vs h = add (promise_all rs) h
    where
      add :
          (r : Result (List (Option (Decision X Q V))))
          → Matches vs r
          → Matches (decided d.outcome ∷ vs) (r >>= λ l. ok (some d ∷ l))
      add (ok ds) e = ap (λ l. decided d.outcome ∷ l) e
      add (err (cannot_decide n)) e = e
      add (err (other_error n)) e = rw (e.0, e.1) (both-failed (decided d.outcome))

  verdict-and :
      (p : Property X Q V) (vs : List Verdict) (r : Result (List (Option (Decision X Q V))))
      → Matches vs r
      → verdict (r >>= λ ds. and_result p (and_loop ds false [])) ≡ conjunction vs
  verdict-and p vs (ok ds) h = verdict-and_loop p ds false [] ∙ rw h (both_decided (conjunction vs))
  verdict-and p vs (err (cannot_decide m)) h = absurd h
  verdict-and p vs (err (other_error m)) h = sym h.0

  verdict-or :
      (p : Property X Q V) (vs : List Verdict) (r : Result (List (Option (Decision X Q V))))
      → Matches vs r
      → verdict (r >>= λ ds. or_result p (or_loop ds false [])) ≡ disjunction vs
  verdict-or p vs (ok ds) h = verdict-or_loop p ds false [] ∙ rw h (either_decided (disjunction vs))
  verdict-or p vs (err (cannot_decide m)) h = absurd h
  verdict-or p vs (err (other_error m)) h = sym h.1

  -- The negation of each property.
  abbrev pub negated : Properties X Q V → Properties X Q V
  negated nil = nil
  negated (cons p ps) = cons (not_decider p) (negated ps)

module _ {X Q V : Type 0} (env : Environment X Q V) where
  -- The verdicts of the listed properties, in order.
  abbrev pub verdicts : Properties X Q V → Bool → List Verdict
  verdicts nil c = []
  verdicts (cons p ps) c = verdict (decide env p c) ∷ verdicts ps c

  Matches-decide_each :
      (ps : Properties X Q V) (c : Bool)
      → Matches (verdicts ps c) (promise_all (decide_each env ps c))
  unfolding decide promise_all
  Matches-decide_each nil c = refl
  Matches-decide_each (cons p ps) c =
      Matches-cons (decide env p c) (decide_each env ps c) (verdicts ps c)
        (Matches-decide_each ps c)

  -- The AND decider ends as Kleene's conjunction of its parts: false if one is false, undecided if
  -- none is false and one is undecided, true if all are true; a failing part fails the whole.
  pub verdict-and_decider :
      (ps : Properties X Q V) (c : Bool)
      → verdict (decide env (and_decider ps) c) ≡ conjunction (verdicts ps c)
  unfolding decide
  verdict-and_decider ps c =
      verdict-and (and_decider ps) (verdicts ps c) (promise_all (decide_each env ps c))
        (Matches-decide_each ps c)

  -- The OR decider ends as Kleene's disjunction of its parts; a failing part fails the whole.
  pub verdict-or_decider :
      (ps : Properties X Q V) (c : Bool)
      → verdict (decide env (or_decider ps) c) ≡ disjunction (verdicts ps c)
  unfolding decide
  verdict-or_decider ps c =
      verdict-or (or_decider ps) (verdicts ps c) (promise_all (decide_each env ps c))
        (Matches-decide_each ps c)

  verdict-not :
      (p : Property X Q V) (r : Result (Decision X Q V))
      → verdict (r >>= λ d. ok (get_not_decision p d)) ≡ negation (verdict r)
  unfolding get_not_decision
  verdict-not p (ok d) = refl
  verdict-not p (err (cannot_decide m)) = refl
  verdict-not p (err (other_error m)) = refl

  verdict-not_decider :
      (p : Property X Q V) (c : Bool)
      → verdict (decide env (not_decider p) c) ≡ negation (verdict (decide env p c))
  unfolding decide
  verdict-not_decider p c = verdict-not (not_decider p) (decide env p c)

  negation-conjunction :
      (ps : Properties X Q V) (c : Bool)
      → negation (conjunction (verdicts ps c)) ≡ disjunction (verdicts (negated ps) c)
  negation-conjunction nil c = refl
  negation-conjunction (cons p ps) c =
      simp (verdict-not_decider, ← negation-conjunction ps c)
        (de_morgan (verdict (decide env p c)) (conjunction (verdicts ps c)))

  -- De Morgan: NOT of an AND ends as the OR of the NOTs, on every path, undecided and failing ones
  -- included.
  pub verdict-not-and :
      (ps : Properties X Q V) (c : Bool)
      → verdict (decide env (not_decider (and_decider ps)) c)
        ≡ verdict (decide env (or_decider (negated ps)) c)
  verdict-not-and ps c =
      simp (verdict-not_decider, verdict-and_decider, verdict-or_decider)
        (negation-conjunction ps c)
