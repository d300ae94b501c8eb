-- ===== src/Ovm/Deciders.antt =====
-- packages/ovm/src/app/deciders: `decide` of each decider class. The deciders over databases,
-- signatures and hashes, the other quantifiers and `areEqual` enter through `Environment`. The
-- evaluations that `Promise.all` starts are independent; of several errors other than
-- `CannotDecideError` the model reports the first in the list.
use pigi.Prelude.{String, Bool, true, false, Option, List, [], ◌∷◌}
use pigi.Ovm.Types.{
  cannot_decide, Result, ok, err, ◌>>=◌, Value, Quantifier, integer_range,
  nonnegative_integer_less_than, external_quantifier, QuantifierResult, Property, and_decider,
  or_decider, not_decider, for_all_such_that, there_exists_such_that, equality_decider,
  true_decider, false_decider, cannot_decide_decider, external, Properties, nil, cons, truth,
  Decision,
}
use pigi.Ovm.Quantifiers.{integer_range_quantified, less_than_quantified}
use pigi.Ovm.Loops.{
  promise_all, handle_cannot_decide_error, get_justification, get_not_decision, and_loop, or_loop,
  and_result, or_result, for_all_loop, there_exists_loop, get_quantified_decision, decide_equality,
}

-- What the deciders call and this package does not decide itself.
pub record Environment (X Q V : Type 0) : Type 0 where
  pub decide_external : X → Bool → Result (Decision X Q V)
  pub quantify_external : Q → Result (QuantifierResult V)
  pub are_equal : Value V → Value V → Bool

abbrev pub for_all_message : String
for_all_message =
    "Cannot decide ForAllSuchThat due to undecided Decision or not all results being quantified."

abbrev pub there_exists_message : String
there_exists_message =
    "Cannot decide ThereExistsSuchThat due to undecided Decision or not all results being quantified."

module _ {X Q V : Type 0} (env : Environment X Q V) where
  -- `getAllQuantified` of each quantifier class.
  unfoldable pub get_all_quantified : Quantifier Q → Result (QuantifierResult V)
  get_all_quantified (integer_range start end) = integer_range_quantified start end
  get_all_quantified (nonnegative_integer_less_than bound) = less_than_quantified bound
  get_all_quantified (external_quantifier q) = env.quantify_external q

  unfoldable mutual
    unfolding get_justification

    -- `p.decider.decide(p.input, noCache)`
    pub decide : Property X Q V → Bool → Result (Decision X Q V)
    decide (and_decider ps) no_cache = promise_all (decide_each ps no_cache) >>= λ ds.
        and_result (and_decider ps) (and_loop ds false [])
    decide (or_decider ps) no_cache = promise_all (decide_each ps no_cache) >>= λ ds.
        or_result (or_decider ps) (or_loop ds false [])
    decide (not_decider p) no_cache =
        decide p no_cache >>= λ d. ok (get_not_decision (not_decider p) d)
    decide (for_all_such_that q factory) no_cache = get_all_quantified q >>= λ r.
        for_all_loop (λ v. decide (factory v) no_cache) r.results false []
        >>= get_quantified_decision for_all_message true (for_all_such_that q factory)
            r.all_results_quantified
    decide (there_exists_such_that q factory) no_cache = get_all_quantified q >>= λ r.
        there_exists_loop (λ v. decide (factory v) no_cache) r.results false []
        >>= get_quantified_decision there_exists_message false (there_exists_such_that q factory)
            r.all_results_quantified
    decide (equality_decider vs) no_cache =
        ok (decide_equality env.are_equal vs (equality_decider vs))
    decide (true_decider v) no_cache =
        ok (record { outcome = true; justification = get_justification (true_decider v) truth })
    decide (false_decider v) no_cache =
        ok (record { outcome = false; justification = get_justification (false_decider v) truth })
    decide (cannot_decide_decider v) no_cache = err (cannot_decide "Cannot decide!")
    decide (external x) no_cache = env.decide_external x no_cache

    -- `input.properties.map((p) => p.decider.decide(p.input, noCache).catch(handleCannotDecideError))`
    pub decide_each : Properties X Q V → Bool → List (Result (Option (Decision X Q V)))
    decide_each nil no_cache = []
    decide_each (cons p ps) no_cache =
        handle_cannot_decide_error (decide p no_cache) ∷ decide_each ps no_cache
