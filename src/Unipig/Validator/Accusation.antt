-- ===== src/Unipig/Validator/Accusation.antt =====
-- What `validateStoredBlock` of packages/unipig/src/validator/rollup-state-validator.ts submits.
use pigi.Prelude.{
  ℕ, ◌-◌, ◌≡◌, ◌≢◌, refl, sym, ap, ◌∙◌, none, some, List, [], ◌∷◌, ◌++◌, length, get_elem?, map,
  arith, Option-cases, inl, inr,
}
use mathlib.Core.List.{append-nil}
use pigi.Unipig.Types.{Result}
use pigi.Unipig.Effects.{StateUpdate}
use pigi.Unipig.Validator.{
  RollupTransition, StateSnapshot, Block, LocalFraudProof, answered, RollupMachine, Encoding,
  Validator, check_transitions, validate_block, validate_stored_block, ContractFraudProof,
  generate_contract_fraud_proof, IncludedTransition, get_included_transition, valid_transition,
  get_last_transition, storage_slots,
}
use pigi.Unipig.Validator.Checking.{Applied, AllHonest, advanced}
use pigi.Unipig.Validator.Detection.{Wrong, local_proof, check_transitions-Wrong}

get_elem?-middle :
    {A B : Type 0} (f : A → B) (xs ys : List A) (x : A)
    → get_elem? (map f (xs ++ x ∷ ys)) (length xs) ≡ some (f x)
get_elem?-middle f [] ys x = refl
get_elem?-middle f (y ∷ xs) ys x = get_elem?-middle f xs ys x

module _ {S E : Type 0} (encoding : Encoding S E) where
  -- A tree has a proof for each of its leaves.
  abbrev pub HasProofs : Type 0
  HasProofs =
      (es : List E) (i : ℕ) (e : E) → get_elem? es i ≡ some e → encoding.merkle_siblings es i ≢ none

  -- The transition at an index of the block with a number.
  abbrev pub IsAt : List (RollupTransition S) → ℕ → ℕ → IncludedTransition E → Type 0
  IsAt ts n i x =
      (get_elem? (map encoding.abi_encode_transition ts) i ≡ some x.transition)
      × (x.transition_index ≡ i)
      × (x.block_number ≡ n)

  get_included_transition-some :
      (proofs : HasProofs) (b : Block S) (i : ℕ) (e : E)
      → get_elem? (map encoding.abi_encode_transition b.transitions) i ≡ some e
      → (x : IncludedTransition E) × (get_included_transition encoding b i ≡ some x)
        × ((x.transition ≡ e) × (x.transition_index ≡ i) × (x.block_number ≡ b.block_number))
  unfolding get_included_transition
  get_included_transition-some proofs b i e h =
      elim (Option-cases
        (encoding.merkle_siblings (map encoding.abi_encode_transition b.transitions) i)) [
          | inl none_there ↦
              absurd (proofs (map encoding.abi_encode_transition b.transitions) i e h none_there)
          | inr (siblings, s) ↦ (
            record {
              transition = e;
              block_number = b.block_number;
              transition_index = i;
              path = i;
              siblings = siblings;
            },
            ground (arith, h, s),
            (refl, refl, refl),
          )
        ]

  -- There is a transition before the one at the position: in the block, or at the end of the block
  -- before.
  abbrev pub HasPrevious : {M : Type 0} → List (RollupTransition S) → Validator M S → Type 0
  HasPrevious (t ∷ ts) v = Unit
  HasPrevious [] v =
      (b : Block S) × (v.stored_blocks (v.current_position.block_number - 1) ≡ some b)
      × (b.transitions ≢ [])

  -- The one right before the transition behind some in the block: the last of these, or the last one of
  -- the block before.
  abbrev pub IsPrevious :
      {M : Type 0}
      → List (RollupTransition S)
      → Block S
      → Validator M S
      → IncludedTransition E
      → Type 0
  IsPrevious (t ∷ ts) b v x = IsAt b.transitions b.block_number (length ts) x
  IsPrevious [] b v x =
      (p : Block S) × (v.stored_blocks (v.current_position.block_number - 1) ≡ some p)
      × (u : RollupTransition S) × (us : List (RollupTransition S)) × (p.transitions ≡ u ∷ us)
      × IsAt p.transitions (v.current_position.block_number - 1) (length us) x

  get_elem?-before :
      (t : RollupTransition S) (ts rest : List (RollupTransition S))
      → (e : E) × (get_elem? (map encoding.abi_encode_transition ((t ∷ ts) ++ rest)) (length ts)
          ≡ some e)
  get_elem?-before t [] rest = (encoding.abi_encode_transition t, refl)
  get_elem?-before t (u ∷ us) rest = get_elem?-before u us rest

  get_last_transition-some :
      (proofs : HasProofs) (b : Block S) (n : ℕ)
      → b.transitions ≢ []
      → (x : IncludedTransition E) × (get_last_transition encoding (some b) n ≡ some x)
        × ((u : RollupTransition S) × (us : List (RollupTransition S)) × (b.transitions ≡ u ∷ us)
            × IsAt b.transitions n (length us) x)
  unfolding get_last_transition
  get_last_transition-some proofs b n filled = at b.transitions refl
    where
      at :
          (us : List (RollupTransition S))
          → b.transitions ≡ us
          → (x : IncludedTransition E) × (get_last_transition encoding (some b) n ≡ some x)
            × ((u : RollupTransition S) × (us : List (RollupTransition S)) × (b.transitions
                  ≡ u ∷ us)
                × IsAt b.transitions n (length us) x)
      at [] e = absurd (filled e)
      at (t ∷ ts) e =
          let (y, f) = get_elem?-before t ts [] in
          let at_end : b.transitions ≡ (t ∷ ts) ++ [] = e ∙ sym (append-nil (t ∷ ts)) in
          let found =
            ap (λ us. get_elem? (map encoding.abi_encode_transition us) (length ts)) at_end ∙ f in
          let (x, q, (tx, ix, bx)) =
            get_included_transition-some proofs
              (record { block_number = n; transitions = b.transitions }) (length ts) y found in
          (x, ground (arith, e, q), (t, ts, e, (found ∙ ap some (sym tx), ix, bx)))

  valid_transition-some :
      {M : Type 0} (proofs : HasProofs) (b : Block S) (v : Validator M S)
      (ts rest : List (RollupTransition S))
      → b.transitions ≡ ts ++ rest
      → v.current_position.transition_index ≡ length ts
      → HasPrevious ts v
      → (x : IncludedTransition E) × (valid_transition encoding b v ≡ some x) × IsPrevious ts b v x
  unfolding valid_transition
  valid_transition-some proofs b v [] rest h i (p, stored, filled) =
      let (x, e, (u, us, split, at_end)) =
        get_last_transition-some proofs p (v.current_position.block_number - 1) filled in
      (x, ground (arith, i, stored, e), (p, stored, u, us, split, at_end))
  valid_transition-some proofs b v (t ∷ ts) rest h i previous =
      let (e, f) = get_elem?-before t ts rest in
      let found = ap (λ us. get_elem? (map encoding.abi_encode_transition us) (length ts)) h ∙ f in
      let (x, q, (tx, ix, bx)) = get_included_transition-some proofs b (length ts) e found in
      (x, ground (arith, i, q), (found ∙ ap some (sym tx), ix, bx))

module _ {M S E : Type 0} (rollup : RollupMachine M S) (encoding : Encoding S E) where
  -- What is submitted against the transition `t` of the block `b` behind the transitions `ts`, by a
  -- validator of which the inputs of `t` are known.
  pub record Accuses (inputs : StateSnapshot × StateSnapshot) (ts : List (RollupTransition S))
      (t : RollupTransition S) (b : Block S) (v : Validator M S) (p : ContractFraudProof E)
      : Type 0 where
    pub transition : p.fraudulent_included_transition.transition ≡ encoding.abi_encode_transition t
    pub transition_index : p.fraudulent_included_transition.transition_index ≡ length ts
    pub block_number : p.fraudulent_included_transition.block_number ≡ b.block_number
    pub previous : IsPrevious encoding ts b v p.valid_included_transition
    pub first_state : p.included_storage_slots.0.value ≡ inputs.0.state
    pub first_slot : p.included_storage_slots.0.slot_index ≡ inputs.0.slot_index
    pub second_state : p.included_storage_slots.1.value ≡ inputs.1.state
    pub second_slot : p.included_storage_slots.1.slot_index ≡ inputs.1.slot_index

  generate_contract_fraud_proof-Accuses :
      (proofs : HasProofs encoding) (f : LocalFraudProof S) (b : Block S) (v : Validator M S)
      (ts rest : List (RollupTransition S)) (t : RollupTransition S)
      → b.transitions ≡ ts ++ t ∷ rest
      → v.current_position.transition_index ≡ length ts
      → HasPrevious encoding ts v
      → (p : ContractFraudProof E) × (generate_contract_fraud_proof encoding f b v ≡ some p)
        × Accuses f.fraud_inputs ts t b v p
  unfolding generate_contract_fraud_proof storage_slots
  generate_contract_fraud_proof-Accuses proofs f b v ts rest t h i previous =
      let (x, e, (tx, ix, bx)) =
        get_included_transition-some encoding proofs b (length ts)
          (encoding.abi_encode_transition t)
          (ap (λ us. get_elem? (map encoding.abi_encode_transition us) (length ts)) h
            ∙ get_elem?-middle encoding.abi_encode_transition ts rest t) in
      let (y, g, before) = valid_transition-some encoding proofs b v ts (t ∷ rest) h i previous in
      (
        record {
          valid_included_transition = y;
          fraudulent_included_transition = x;
          included_storage_slots = storage_slots encoding f.fraud_inputs;
        },
        ground (arith, i, e, g),
        record {
          transition = tx;
          transition_index = ix;
          block_number = bx;
          previous = before;
          first_state = refl;
          first_slot = refl;
          second_state = refl;
          second_slot = refl;
        },
      )

  validate_block-Accuses :
      (proofs : HasProofs encoding) (b : Block S) (v v' : Validator M S) (f : LocalFraudProof S)
      (ts rest : List (RollupTransition S)) (t : RollupTransition S)
      → check_transitions rollup b.transitions v ≡ (answered (some f), v')
      → b.transitions ≡ ts ++ t ∷ rest
      → v'.current_position.transition_index ≡ length ts
      → HasPrevious encoding ts v'
      → (p : ContractFraudProof E) × (validate_block rollup encoding b v ≡ (answered (some p), v'))
        × Accuses f.fraud_inputs ts t b v' p
  unfolding validate_block
  validate_block-Accuses proofs b v v' f ts rest t e h i previous =
      let (p, g, accuses) =
        generate_contract_fraud_proof-Accuses proofs f b v' ts rest t h i previous in
      (p, ground (arith, e, g), accuses)

  HasPrevious-advanced :
      (ts : List (RollupTransition S)) (n : ℕ) (m : M) (v : Validator M S)
      → HasPrevious encoding ts v
      → HasPrevious encoding ts (advanced rollup n m v)
  HasPrevious-advanced [] n m v h = h
  HasPrevious-advanced (t ∷ ts) n m v h = h

  -- Let a stored block be next and the validator at its first transition, let honest transitions come
  -- before a transition that the machine can be asked to apply (an account that it creates gets the next
  -- slot, and its two inputs can be read), and let this one be wrong: the machine refuses it with a state
  -- transition error, or arrives at another root. If there is a transition before it, and every leaf of a
  -- tree has a proof, then validation returns a fraud proof against exactly this transition, with the
  -- transition right before it and the states and slots of its two inputs. The validator stays at the
  -- position of the wrong transition.
  pub validate_stored_block-Accuses :
      (proofs : HasProofs encoding) (b : Block S) (v : Validator M S)
      (ts rest : List (RollupTransition S)) (t : RollupTransition S) (m m' : M)
      (r : Result (StateUpdate ℕ S))
      → v.stored_blocks b.block_number ≡ some b
      → b.block_number ≡ v.current_position.block_number
      → v.current_position.transition_index ≡ 0
      → b.transitions ≡ ts ++ t ∷ rest
      → AllHonest rollup ts v.rollup_machine m
      → (applied : Applied rollup t m r m') → Wrong rollup t r m'
      → HasPrevious encoding ts v
      → (p : ContractFraudProof E) × (validate_stored_block rollup encoding b.block_number v
          ≡ (answered (some p), advanced rollup (length ts) m' v))
        × Accuses applied.inputs ts t b (advanced rollup (length ts) m' v) p
  unfolding validate_stored_block
  validate_stored_block-Accuses proofs b v ts rest t m m' r stored next start split honest applied
        wrong previous =
      let (p, e, accuses) =
        validate_block-Accuses proofs b v (advanced rollup (length ts) m' v)
          (local_proof rollup t (advanced rollup (length ts) m v) applied) ts rest t
          (ap (λ us. check_transitions rollup us v) split
            ∙ check_transitions-Wrong rollup ts rest t v m m' r honest applied wrong)
          split (omega (arith, start)) (HasPrevious-advanced ts (length ts) m' v previous) in
      (p, ground (arith, stored, next, e), accuses)
