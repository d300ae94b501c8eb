-- ===== src/Unipig/Validator/Blocks.antt =====
-- `validateStoredBlock` of packages/unipig/src/validator/rollup-state-validator.ts for blocks without
-- fraud.
use pigi.Prelude.{
  ℕ, ◌+◌, ◌≡◌, refl, sym, ap, ◌∙◌, subst, Option, none, some, [], length, ◌==◌, arith, Bool-cases,
  Option-cases, ==_iff, inl, inr,
}
use mathlib.Core.List.{append-nil}
use pigi.Unipig.Validator.{
  Block, LocalFraudProof, Answer, answered, threw, RollupMachine, Encoding, Validator,
  check_transitions, validate_block, validate_stored_block, generate_contract_fraud_proof,
}
use pigi.Unipig.Validator.Checking.{
  AllHonest, advanced, check_transitions-honest, check_transitions-AllHonest,
}

module _ {M S : Type 0} (rollup : RollupMachine M S) where
  -- The validator at the start of the block after the one it is at, with its machine in the state `m`.
  abbrev pub at_next_block : M → Validator M S → Validator M S
  at_next_block m v = record v {
    rollup_machine = m;
    current_position = record {
      block_number = v.current_position.block_number + 1;
      transition_index = 0;
    };
  }

  -- A stored block that is next and whose transitions are honest is found to be without fraud, and
  -- the validator moves to the next block, with its machine in the state that the block leads to.
  pub validate_stored_block-honest :
      {E : Type 0} (encoding : Encoding S E) (b : Block S) (v : Validator M S) (m : M)
      → v.stored_blocks b.block_number ≡ some b
      → b.block_number ≡ v.current_position.block_number
      → AllHonest rollup b.transitions v.rollup_machine m
      → validate_stored_block rollup encoding b.block_number v ≡ (answered none, at_next_block m v)
  unfolding validate_stored_block
  validate_stored_block-honest encoding b v m stored next honest =
      let e : check_transitions rollup b.transitions v
          ≡ (answered none, advanced rollup (length b.transitions) m v) =
        ap (λ ts. check_transitions rollup ts v) (sym (append-nil b.transitions))
        ∙ check_transitions-honest rollup b.transitions [] v v.rollup_machine m honest refl in
      ground (arith, e, stored, next)

  validate_block-AllHonest :
      {E : Type 0} (encoding : Encoding S E) (b : Block S) (v v' : Validator M S)
      → validate_block rollup encoding b v ≡ (answered none, v')
      → AllHonest rollup b.transitions v.rollup_machine v'.rollup_machine
        × (v' ≡ at_next_block v'.rollup_machine v)
  unfolding validate_block
  validate_block-AllHonest encoding b v v' h = at (check_transitions rollup b.transitions v) refl
    where
      at :
          (r : Answer (Option (LocalFraudProof S)) × Validator M S)
          → check_transitions rollup b.transitions v ≡ r
          → AllHonest rollup b.transitions v.rollup_machine v'.rollup_machine
            × (v' ≡ at_next_block v'.rollup_machine v)
      at (threw x, v1) e = absurd (ground (arith, h, e))
      at (answered (some f), v1) e =
          elim (Option-cases (generate_contract_fraud_proof encoding f b v1)) [
            | inl o ↦ absurd (ground (arith, h, e, o))
            | inr (p, o) ↦ absurd (ground (arith, h, e, o))
          ]
      at (answered none, v1) e =
          let (honest, q) = check_transitions-AllHonest rollup b.transitions v v1 e in
          let k : at_next_block v1.rollup_machine v1 ≡ v' = ground (arith, h, e) in
          (
            subst (λ w. AllHonest rollup b.transitions v.rollup_machine w.rollup_machine) k honest,
            sym k
                ∙ ap (at_next_block v1.rollup_machine) q
                ∙ ap (λ m. at_next_block m v) (ap (λ w. w.rollup_machine) k),
          )

  -- A block that is found to be without fraud was stored and next, and its transitions are honest.
  pub validate_stored_block-AllHonest :
      {E : Type 0} (encoding : Encoding S E) (n : ℕ) (v v' : Validator M S)
      → validate_stored_block rollup encoding n v ≡ (answered none, v')
      → (b : Block S) × (v.stored_blocks n ≡ some b)
        × (b.block_number ≡ v.current_position.block_number)
        × AllHonest rollup b.transitions v.rollup_machine v'.rollup_machine
        × (v' ≡ at_next_block v'.rollup_machine v)
  unfolding validate_stored_block
  validate_stored_block-AllHonest {E} encoding n v v' h = at (v.stored_blocks n) refl
    where
      Goal : Type 0
      Goal =
          (b : Block S) × (v.stored_blocks n ≡ some b)
          × (b.block_number ≡ v.current_position.block_number)
          × AllHonest rollup b.transitions v.rollup_machine v'.rollup_machine
          × (v' ≡ at_next_block v'.rollup_machine v)

      at : (o : Option (Block S)) → v.stored_blocks n ≡ o → Goal
      at none e = absurd (ground (arith, h, e))
      at (some b) e = elim (Bool-cases (b.block_number == v.current_position.block_number)) [
        | inr other ↦ absurd (ground (arith, h, e, other))
        | inl next ↦
            let (honest, q) =
              validate_block-AllHonest encoding b v v' (ground (arith, h, e, next)) in
            (b, e, (==_iff b.block_number v.current_position.block_number).0 next, honest, q)
      ]
