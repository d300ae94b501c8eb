-- ===== src/Unipig/Validator/Checking.antt =====
-- Which blocks `validateStoredBlock` of packages/unipig/src/validator/rollup-state-validator.ts takes
-- for valid.
use pigi.Prelude.{
  ℕ, suc, ◌+◌, ◌≡◌, refl, sym, ap, ◌∙◌, subst, true, false, Option, none, some, List, [], ◌∷◌, ◌++◌,
  length, ◌==◌, arith, Bool-cases, ==_iff, ◌⊎◌, inl, inr,
}
use pigi.Unipig.Types.{Result, ok, err}
use pigi.Unipig.Effects.{StateUpdate}
use pigi.Unipig.Validator.{
  RollupTransition, StateSnapshot, LocalFraudProof, Answer, answered, threw, RollupMachine,
  Validator, claimed_root, is_sequential, get_input_state_snapshots, get_transaction,
  apply_and_compare, check_next_transition, check_transitions,
}

module _ {M S : Type 0} (rollup : RollupMachine M S) where
  -- What a transition does: the machine reads its inputs and applies the transaction that it stands
  -- for.
  pub record Applied (t : RollupTransition S) (m : M) (r : Result (StateUpdate ℕ S)) (m' : M)
      : Type 0 where
    pub inputs : StateSnapshot × StateSnapshot
    pub read : M
    pub sequential : is_sequential rollup t m ≡ true
    pub reading : get_input_state_snapshots rollup t m ≡ (some inputs, read)
    pub applying : rollup.apply_transaction (get_transaction t inputs) read ≡ (r, m')

  -- A transition that takes `m` to `m'` as it claims.
  pub record Honest (t : RollupTransition S) (m m' : M) : Type 0 where
    pub state_update : StateUpdate ℕ S
    pub applied : Applied t m (ok state_update) m'
    pub root : rollup.get_state_root m' ≡ claimed_root t

  -- Honest transitions, one after another.
  pub data AllHonest : List (RollupTransition S) → M → M → Type 0 where
    no_transitions : {m : M} → AllHonest [] m m
    one_more :
        {t : RollupTransition S} {ts : List (RollupTransition S)} {m m1 m' : M}
        → Honest t m m1
        → AllHonest ts m1 m'
        → AllHonest (t ∷ ts) m m'

  -- The validator with its machine in the state `m`, after `n` more transitions.
  abbrev pub advanced : ℕ → M → Validator M S → Validator M S
  advanced n m v = record v {
    rollup_machine = m;
    current_position = record v.current_position {
      transition_index = v.current_position.transition_index + n;
    };
  }

  pub check_next_transition-applied :
      (t : RollupTransition S) (v : Validator M S) (m' : M) (r : Result (StateUpdate ℕ S))
      (a : Applied t v.rollup_machine r m')
      → check_next_transition rollup t v
        ≡ apply_and_compare rollup t a.inputs (record v { rollup_machine = a.read })
  unfolding check_next_transition
  check_next_transition-applied t v m' r a = ground (arith, a.sequential, a.reading)

  check_next_transition-honest :
      (t : RollupTransition S) (v : Validator M S) (m' : M)
      → Honest t v.rollup_machine m'
      → check_next_transition rollup t v ≡ (answered none, advanced 1 m' v)
  unfolding apply_and_compare
  check_next_transition-honest t v m' h =
      check_next_transition-applied t v m' (ok h.state_update) h.applied
      ∙ ground (arith, h.applied.applying, h.root)

  advanced_more :
      (n : ℕ) (m m' : M) (v : Validator M S)
      → advanced n m' (advanced 1 m v) ≡ advanced (suc n) m' v
  advanced_more n m m' v =
      ap
        (λ i. record v {
          rollup_machine = m';
          current_position = record v.current_position { transition_index = i };
        })
        (omega arith)

  check_transitions-more :
      (t : RollupTransition S) (ts : List (RollupTransition S)) (v v' : Validator M S)
      → check_next_transition rollup t v ≡ (answered none, v')
      → check_transitions rollup (t ∷ ts) v ≡ check_transitions rollup ts v'
  unfolding check_transitions
  check_transitions-more t ts v v' e = ground (arith, e)

  -- Honest transitions are passed over, wherever more follow.
  pub check_transitions-honest :
      (ts rest : List (RollupTransition S)) (v : Validator M S) (m m' : M)
      → AllHonest ts m m'
      → v.rollup_machine ≡ m
      → check_transitions rollup (ts ++ rest) v
        ≡ check_transitions rollup rest (advanced (length ts) m' v)
  check_transitions-honest _ rest v m _ no_transitions e =
      ap (check_transitions rollup rest) (ground (arith, e))
  check_transitions-honest (t ∷ ts) rest v m m' (one_more {m1} h hs) e =
      check_transitions-more t (ts ++ rest) v (advanced 1 m1 v)
        (check_next_transition-honest t v m1 (subst (λ x. Honest t x m1) (sym e) h))
      ∙ check_transitions-honest ts rest (advanced 1 m1 v) m1 m' hs refl
      ∙ ap (check_transitions rollup rest) (advanced_more (length ts) m1 m' v)

  apply_and_compare-none :
      (t : RollupTransition S) (i : StateSnapshot × StateSnapshot) (v v' : Validator M S)
      → apply_and_compare rollup t i v ≡ (answered none, v')
      → (u : StateUpdate ℕ S) × (rollup.apply_transaction (get_transaction t i) v.rollup_machine
          ≡ (ok u, v'.rollup_machine))
        × (rollup.get_state_root v'.rollup_machine ≡ claimed_root t)
        × (v' ≡ advanced 1 v'.rollup_machine v)
  unfolding apply_and_compare
  apply_and_compare-none t i v v' h =
      at (rollup.apply_transaction (get_transaction t i) v.rollup_machine) refl
    where
      at :
          (r : Result (StateUpdate ℕ S) × M)
          → rollup.apply_transaction (get_transaction t i) v.rollup_machine ≡ r
          → (u : StateUpdate ℕ S) × (rollup.apply_transaction (get_transaction t i) v.rollup_machine
              ≡ (ok u, v'.rollup_machine))
            × (rollup.get_state_root v'.rollup_machine ≡ claimed_root t)
            × (v' ≡ advanced 1 v'.rollup_machine v)
      at (err x, m) e = absurd (ground (arith, h, e))
      at (ok u, m) e = elim (Bool-cases (rollup.get_state_root m == claimed_root t)) [
        | inr n ↦ absurd (ground (arith, h, e, n))
        | inl y ↦
            let q : advanced 1 m v ≡ v' = ground (arith, h, e, y) in
            let k : m ≡ v'.rollup_machine = ap (λ w. w.rollup_machine) q in
            (
              u,
              e ∙ ap (λ x. (ok u, x)) k,
              subst (λ x. rollup.get_state_root x ≡ claimed_root t) k
                  ((==_iff (rollup.get_state_root m) (claimed_root t)).0 y),
              subst (λ x. v' ≡ advanced 1 x v) k (sym q),
            )
      ]

  -- What it takes for `checkNextTransition` to find no fraud.
  check_next_transition-Honest :
      (t : RollupTransition S) (v v' : Validator M S)
      → check_next_transition rollup t v ≡ (answered none, v')
      → Honest t v.rollup_machine v'.rollup_machine × (v' ≡ advanced 1 v'.rollup_machine v)
  unfolding check_next_transition
  check_next_transition-Honest t v v' h =
      at (Bool-cases (is_sequential rollup t v.rollup_machine))
        (get_input_state_snapshots rollup t v.rollup_machine) refl
    where
      at :
          (is_sequential rollup t v.rollup_machine ≡ true)
            ⊎ (is_sequential rollup t v.rollup_machine ≡ false)
          → (r : Option (StateSnapshot × StateSnapshot) × M)
          → get_input_state_snapshots rollup t v.rollup_machine ≡ r
          → Honest t v.rollup_machine v'.rollup_machine × (v' ≡ advanced 1 v'.rollup_machine v)
      at (inr n) r e = absurd (ground (arith, h, n))
      at (inl s) (none, m) e = absurd (ground (arith, h, s, e))
      at (inl s) (some i, m) e =
          let (u, applying, root, q) =
            apply_and_compare-none t i (record v { rollup_machine = m }) v'
              (ground (arith, h, s, e)) in
          (
            record {
              state_update = u;
              root = root;
              applied = record {
                inputs = i;
                read = m;
                sequential = s;
                reading = e;
                applying = applying;
              };
            },
            q,
          )

  check_transitions-first :
      (t : RollupTransition S) (ts : List (RollupTransition S)) (v v' : Validator M S)
      → check_transitions rollup (t ∷ ts) v ≡ (answered none, v')
      → (v1 : Validator M S) × (check_next_transition rollup t v ≡ (answered none, v1))
        × (check_transitions rollup ts v1 ≡ (answered none, v'))
  unfolding check_transitions
  check_transitions-first t ts v v' h = at (check_next_transition rollup t v) refl
    where
      at :
          (r : Answer (Option (LocalFraudProof S)) × Validator M S)
          → check_next_transition rollup t v ≡ r
          → (v1 : Validator M S) × (check_next_transition rollup t v ≡ (answered none, v1))
            × (check_transitions rollup ts v1 ≡ (answered none, v'))
      at (threw x, v1) e = absurd (ground (arith, h, e))
      at (answered (some f), v1) e = absurd (ground (arith, h, e))
      at (answered none, v1) e = (v1, e, sym (check_transitions-more t ts v v1 e) ∙ h)

  -- A loop that finds no fraud has passed over honest transitions only.
  pub check_transitions-AllHonest :
      (ts : List (RollupTransition S)) (v v' : Validator M S)
      → check_transitions rollup ts v ≡ (answered none, v')
      → AllHonest ts v.rollup_machine v'.rollup_machine
        × (v' ≡ advanced (length ts) v'.rollup_machine v)
  unfolding check_transitions
  check_transitions-AllHonest [] v v' h =
      let q : v ≡ v' = ap (λ r. r.1) h in
      (
        subst (λ w. AllHonest [] v.rollup_machine w.rollup_machine) q no_transitions,
        subst (λ w. w ≡ advanced 0 w.rollup_machine v) q
            (ap
              (λ i. record v {
                current_position = record v.current_position { transition_index = i };
              })
              (omega arith)),
      )
  check_transitions-AllHonest (t ∷ ts) v v' h =
      let (v1, e, f) = check_transitions-first t ts v v' h in
      let (honest, q1) = check_next_transition-Honest t v v1 e in
      let (rest, q) = check_transitions-AllHonest ts v1 v' f in
      (
        one_more honest rest,
        q
            ∙ ap (advanced (length ts) v'.rollup_machine) q1
            ∙ advanced_more (length ts) v1.rollup_machine v'.rollup_machine v,
      )
