-- ===== src/Unipig/Validator/Detection.antt =====
-- Which frauds `validateStoredBlock` of packages/unipig/src/validator/rollup-state-validator.ts finds.
use pigi.Prelude.{ℕ, ◌≡◌, ◌≢◌, refl, ◌∙◌, true, some, List, ◌∷◌, ◌++◌, length, arith}
use pigi.Unipig.Types.{Result, ok, err, is_state_transition_error}
use pigi.Unipig.Effects.{StateUpdate}
use pigi.Unipig.Validator.{
  RollupTransition, LocalFraudProof, answered, RollupMachine, Validator, claimed_root,
  check_next_transition, apply_and_compare, check_transitions,
}
use pigi.Unipig.Validator.Checking.{
  Applied, AllHonest, advanced, check_transitions-honest, check_next_transition-applied,
}

module _ {M S : Type 0} (rollup : RollupMachine M S) where
  -- The transaction is refused, or it leads to another root than the transition claims.
  abbrev pub Wrong : RollupTransition S → Result (StateUpdate ℕ S) → M → Type 0
  Wrong t (err e) m = is_state_transition_error e ≡ true
  Wrong t (ok u) m = rollup.get_state_root m ≢ claimed_root t

  abbrev pub local_proof :
      (t : RollupTransition S) (v : Validator M S) {m : M} {r : Result (StateUpdate ℕ S)} {m' : M}
      → Applied rollup t m r m'
      → LocalFraudProof S
  local_proof t v a = record {
    fraud_position = v.current_position;
    fraud_inputs = a.inputs;
    fraud_transition = t;
  }

  check_next_transition-Wrong :
      (t : RollupTransition S) (v : Validator M S) (r : Result (StateUpdate ℕ S)) (m' : M)
      → (a : Applied rollup t v.rollup_machine r m') → Wrong t r m'
      → check_next_transition rollup t v
        ≡ (answered (some (local_proof t v a)), record v { rollup_machine = m' })
  unfolding apply_and_compare
  check_next_transition-Wrong t v (err x) m' a w =
      check_next_transition-applied rollup t v m' (err x) a ∙ ground (arith, a.applying, w)
  check_next_transition-Wrong t v (ok u) m' a w =
      check_next_transition-applied rollup t v m' (ok u) a ∙ ground (arith, a.applying, w)

  check_transitions-found :
      (t : RollupTransition S) (ts : List (RollupTransition S)) (v v' : Validator M S)
      (f : LocalFraudProof S)
      → check_next_transition rollup t v ≡ (answered (some f), v')
      → check_transitions rollup (t ∷ ts) v ≡ (answered (some f), v')
  unfolding check_transitions
  check_transitions-found t ts v v' f e = ground (arith, e)

  -- The first transition that is wrong, after honest ones, is found, with the validator at its
  -- position.
  pub check_transitions-Wrong :
      (ts rest : List (RollupTransition S)) (t : RollupTransition S) (v : Validator M S) (m m' : M)
      (r : Result (StateUpdate ℕ S))
      → AllHonest rollup ts v.rollup_machine m
      → (a : Applied rollup t m r m') → Wrong t r m'
      → check_transitions rollup (ts ++ t ∷ rest) v ≡ (
        answered (some (local_proof t (advanced rollup (length ts) m v) a)),
        advanced rollup (length ts) m' v,
      )
  check_transitions-Wrong ts rest t v m m' r honest a w =
      let at_t : Validator M S = advanced rollup (length ts) m v in
      check_transitions-honest rollup ts (t ∷ rest) v v.rollup_machine m honest refl
      ∙ check_transitions-found t rest at_t (advanced rollup (length ts) m' v)
          (local_proof t at_t a) (check_next_transition-Wrong t at_t r m' a w)
