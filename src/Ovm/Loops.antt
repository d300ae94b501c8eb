-- ===== src/Ovm/Loops.antt =====
-- packages/ovm/src/app/deciders: the loops of the composite deciders and the `getDecision` methods
-- that follow them, over the results of the decisions that they combine.
use pigi.Prelude.{
  String, ◌||◌, Bool, true, false, not, Option, none, some, List, [], ◌∷◌, ◌++◌, if◌then◌else◌,
}
use pigi.Ovm.Types.{
  cannot_decide, other_error, Result, ok, err, ◌>>=◌, Value, Property, Witness, undefined,
  mismatched_items, ImplicationProofItem, Decision,
}

-- The variables of the loops of the AND and OR deciders: the decision that ended the loop, if one
-- did, whether a decision was missing, and the justifications so far.
pub record Scan (X Q V : Type 0) : Type 0 where
  pub deciding : Option (Decision X Q V)
  pub undecided : Bool
  pub justification : List (ImplicationProofItem X Q V)

-- The variables of the loops of the quantified deciders; `others` are the decisions that did not
-- end the loop.
pub record QuantifiedScan (X Q V : Type 0) : Type 0 where
  pub deciding : Option (Decision X Q V)
  pub undecided : Bool
  pub others : List (Decision X Q V)

-- `Promise.all`: every result, or the first error.
unfoldable pub promise_all : {A : Type 0} → List (Result A) → Result (List A)
promise_all [] = ok []
promise_all (r ∷ rs) = r >>= λ a. promise_all rs >>= λ rest. ok (a ∷ rest)

-- The first item that differs from the first, as `EqualityDecider.decide` scans for it.
unfoldable pub first_mismatch :
    {V : Type 0} → (Value V → Value V → Bool) → Value V → List (Value V) → Option (Value V)
first_mismatch equal compare_to [] = none
first_mismatch equal compare_to (v ∷ vs) =
    let rest = first_mismatch equal compare_to vs in
    if not (equal compare_to v) then some v else rest

module _ {X Q V : Type 0} where
  -- `handleCannotDecideError`, on a promise: `undefined` for a `CannotDecideError`.
  unfoldable pub handle_cannot_decide_error :
      Result (Decision X Q V) → Result (Option (Decision X Q V))
  handle_cannot_decide_error (ok d) = ok (some d)
  handle_cannot_decide_error (err (cannot_decide m)) = ok none
  handle_cannot_decide_error (err (other_error m)) = err (other_error m)

  -- `getJustification`
  unfoldable pub get_justification : Property X Q V → Witness V → List (ImplicationProofItem X Q V)
  get_justification p w = record { implication = p; implication_witness = w } ∷ []

  -- `getDecision` of the AND and OR deciders, and of NOT with the outcome turned round.
  unfoldable pub get_decision : Property X Q V → Decision X Q V → Decision X Q V
  unfolding get_justification
  get_decision p sub = record {
    outcome = sub.outcome;
    justification = get_justification p undefined ++ sub.justification;
  }

  unfoldable pub get_not_decision : Property X Q V → Decision X Q V → Decision X Q V
  unfolding get_justification
  get_not_decision p sub = record {
    outcome = not sub.outcome;
    justification = get_justification p undefined ++ sub.justification;
  }

  -- The loop of `AndDecider.decide`; it breaks at the first false decision.
  unfoldable pub and_loop :
      List (Option (Decision X Q V)) → Bool → List (ImplicationProofItem X Q V) → Scan X Q V
  and_loop [] u j = record { deciding = none; undecided = u; justification = j }
  and_loop (none ∷ ds) u j = and_loop ds true j
  and_loop (some d ∷ ds) u j =
      let rest = and_loop ds u (j ++ d.justification) in
      if not d.outcome then record { deciding = some d; undecided = u; justification = j } else rest

  -- The loop of `OrDecider.decide`; it breaks at the first true decision.
  unfoldable pub or_loop :
      List (Option (Decision X Q V)) → Bool → List (ImplicationProofItem X Q V) → Scan X Q V
  or_loop [] u j = record { deciding = none; undecided = u; justification = j }
  or_loop (none ∷ ds) u j = or_loop ds true j
  or_loop (some d ∷ ds) u j =
      let rest = or_loop ds u (j ++ d.justification) in
      if d.outcome then record { deciding = some d; undecided = u; justification = j } else rest

  -- The end of `AndDecider.decide`, from the loop's variables.
  unfoldable pub and_result : Property X Q V → Scan X Q V → Result (Decision X Q V)
  and_result p s = elim s.deciding [
    | some d ↦ ok (get_decision p d)
    | none ↦
        if s.undecided
        then err (cannot_decide "One of the AND deciders could not decide, and none decided false.")
        else ok (get_decision p (record { outcome = true; justification = s.justification }))
  ]

  -- The end of `OrDecider.decide`.
  unfoldable pub or_result : Property X Q V → Scan X Q V → Result (Decision X Q V)
  or_result p s = elim s.deciding [
    | some d ↦ ok (get_decision p d)
    | none ↦
        if s.undecided
        then err (
            cannot_decide
              "At least one of the OR deciders could not decide and none returned true, so this cannot be decided.")
        else ok (get_decision p (record { outcome = false; justification = s.justification }))
  ]

  -- The loop of `ForAllSuchThatDecider.decide`, over `prop.decider.decide` of each result.
  unfoldable pub for_all_loop :
      (Value V → Result (Decision X Q V))
      → List (Value V)
      → Bool
      → List (Decision X Q V)
      → Result (QuantifiedScan X Q V)
  for_all_loop run [] u ts = ok (record { deciding = none; undecided = u; others = ts })
  for_all_loop run (v ∷ vs) u ts = elim (run v) [
    | ok d ↦ elim d.outcome [
      | false ↦ ok (record { deciding = some d; undecided = u; others = ts })
      | true ↦ for_all_loop run vs u (ts ++ d ∷ [])
    ]
    | err (cannot_decide m) ↦ for_all_loop run vs true ts
    | err (other_error m) ↦ err (other_error m)
  ]

  -- The loop of `ThereExistsSuchThatDecider.decide`.
  unfoldable pub there_exists_loop :
      (Value V → Result (Decision X Q V))
      → List (Value V)
      → Bool
      → List (Decision X Q V)
      → Result (QuantifiedScan X Q V)
  there_exists_loop run [] u fs = ok (record { deciding = none; undecided = u; others = fs })
  there_exists_loop run (v ∷ vs) u fs = elim (run v) [
    | ok d ↦ elim d.outcome [
      | true ↦ ok (record { deciding = some d; undecided = u; others = fs })
      | false ↦ there_exists_loop run vs u (fs ++ d ∷ [])
    ]
    | err (cannot_decide m) ↦ there_exists_loop run vs true fs
    | err (other_error m) ↦ err (other_error m)
  ]

  abbrev pub justifications : List (Decision X Q V) → List (ImplicationProofItem X Q V)
  justifications [] = []
  justifications (d ∷ ds) = d.justification ++ justifications ds

  -- `getDecision` of the quantified deciders. `whole` is the outcome when no decision ended the
  -- loop: true for all, false for exists. `undecided` includes that not all results were
  -- quantified.
  unfoldable pub get_quantified_decision :
      String → Bool → Property X Q V → Bool → QuantifiedScan X Q V → Result (Decision X Q V)
  unfolding get_justification
  get_quantified_decision message whole p all_quantified s = elim s.deciding [
    | some d ↦ ok (record {
      outcome = not whole;
      justification = get_justification p undefined ++ d.justification;
    })
    | none ↦
        if s.undecided || not all_quantified
        then err (cannot_decide message)
        else ok (record {
          outcome = whole;
          justification = get_justification p undefined ++ justifications s.others;
        })
  ]

  -- `getDecision` of the equality decider, on the first item and the one that differs from it.
  unfoldable pub get_equality_decision :
      Property X Q V → Value V → Option (Value V) → Decision X Q V
  unfolding get_justification
  get_equality_decision p v (some w) = record {
    outcome = false;
    justification = get_justification p (mismatched_items v w);
  }
  get_equality_decision p v none = record {
    outcome = true;
    justification = get_justification p undefined;
  }

  -- `EqualityDecider.decide`
  unfoldable pub decide_equality :
      (Value V → Value V → Bool) → List (Value V) → Property X Q V → Decision X Q V
  unfolding first_mismatch get_justification get_equality_decision
  decide_equality equal [] p = record {
    outcome = true;
    justification = get_justification p undefined;
  }
  decide_equality equal (v ∷ vs) p = get_equality_decision p v (first_mismatch equal v (v ∷ vs))
