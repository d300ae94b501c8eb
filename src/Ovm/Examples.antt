-- ===== src/Ovm/Examples.antt =====
-- The theorems on packages/ovm at concrete properties: the external facts are Booleans, decided as
-- they are.
use pigi.Prelude.{
  ◌&&◌, ◌+◌, ◌*◌, ◌↔◌, subst, sym, arith, ℕ, Bool, true, false, [], ◌∷◌, ◌≡◌, refl, inl, All, Any,
  ◌==◌,
}
use pigi.Prelude.Int.{pos, ◌+ℤ◌, ◌-ℤ◌}
use pigi.Ovm.Types.{
  ok, ok-injective, Value, number, object, QuantifierResult, integer_range, Property, and_decider,
  or_decider, not_decider, for_all_such_that, cannot_decide_decider, external, Properties, nil,
  cons, Decision,
}
use pigi.Ovm.Quantifiers.{indices, range, integer_range_quantified}
use pigi.Ovm.Ranges.{IsWholeRange, integer_range_quantified-IsWholeRange}
use pigi.Ovm.Loops.{
  handle_cannot_decide_error, promise_all, and_loop, and_result, for_all_loop,
  get_quantified_decision, get_not_decision, get_decision,
}
use pigi.Ovm.Deciders.{Environment, decide, get_all_quantified}
use pigi.Ovm.Semantics.{Meaning, Truth}
use pigi.Ovm.Soundness.{decide_sound}
use pigi.Ovm.MerkleInclusion.{decide_inclusion_proof, decide_inclusion_proof_iff}
use pigi.CoreDb.MerkleTree.{init, Hashing, bytes, halves, MerkleTreeInclusionProof}
use pigi.CoreDb.MerkleTree.Proofs.{hash_from}
use pigi.Ovm.Kleene.{
  Verdict, decided, verdict, negated, conjunction, disjunction, verdicts, verdict-and_decider,
  verdict-or_decider, verdict-not-and,
}

abbrev same_value : Value ℕ → Value ℕ → Bool
same_value (object a) (object b) = a == b
same_value _ _ = false

abbrev booleans : Environment Bool ℕ ℕ
booleans = record {
  decide_external = λ x c. ok (record { outcome = x; justification = [] });
  quantify_external = λ n. ok (record { results = object n ∷ []; all_results_quantified = true });
  are_equal = same_value;
}

outcome_is_fact :
    (x : Bool) (d : Decision Bool ℕ ℕ) → booleans.decide_external x false ≡ ok d → x ≡ d.outcome
outcome_is_fact x d e = ground arith

results_are_objects :
    (n : ℕ) (r : QuantifierResult ℕ)
    → booleans.quantify_external n ≡ ok r
    → All (λ v. v ≡ object n) r.results
results_are_objects n r e =
    subst (λ (q : QuantifierResult ℕ). All (λ v. v ≡ object n) q.results) (ok-injective e)
      (refl, tt)

objects_are_results :
    (n : ℕ) (r : QuantifierResult ℕ)
    → booleans.quantify_external n ≡ ok r
    → r.all_results_quantified ≡ true
    → (v : Value ℕ) → v ≡ object n
    → Any (λ w. w ≡ v) r.results
objects_are_results n r e a v i =
    subst (λ (q : QuantifierResult ℕ). Any (λ w. w ≡ v) q.results) (ok-injective e) (inl (sym i))

abbrev facts : Meaning booleans
facts = record {
  Holds = λ b x. x ≡ b;
  InDomain = λ n v. v ≡ object n;
  decide_right = λ x c d e. outcome_is_fact x d e;
  quantify_right = results_are_objects;
  quantify_whole = objects_are_results;
}

-- `external true` and not: for all integers from 0 to 1, `external false`.
abbrev sample : Property Bool ℕ ℕ
sample = and_decider (
    cons (external true) (
      cons (not_decider (for_all_such_that (integer_range (pos 0) (pos 2)) (λ v. external false)))
        nil))

abbrev parts : Properties Bool ℕ ℕ
parts = cons (external true) (cons (cannot_decide_decider (object 1)) nil)

decide_sound_example : Truth facts true sample
unfolding decide get_all_quantified range ◌+ℤ◌ ◌-ℤ◌ promise_all handle_cannot_decide_error
    integer_range_quantified for_all_loop indices get_quantified_decision and_result and_loop
    get_not_decision get_decision
decide_sound_example = decide_sound facts sample false _ refl

integer_range_quantified-IsWholeRange_example :
    IsWholeRange ℕ
      (pos 3)
      (pos 5)
      (record { results = number (pos 3) ∷ number (pos 4) ∷ []; all_results_quantified = true })
unfolding integer_range_quantified range indices ◌+ℤ◌ ◌-ℤ◌
integer_range_quantified-IsWholeRange_example =
    integer_range_quantified-IsWholeRange ℕ (pos 3) (pos 5) _ refl

verdict-and_decider_example :
    verdict (decide booleans (and_decider parts) false)
    ≡ conjunction (verdicts booleans parts false)
verdict-and_decider_example = verdict-and_decider booleans parts false

verdict-or_decider_example :
    verdict (decide booleans (or_decider parts) false) ≡ disjunction (verdicts booleans parts false)
verdict-or_decider_example = verdict-or_decider booleans parts false

verdict-not-and_example :
    verdict (decide booleans (not_decider (and_decider parts)) false)
    ≡ verdict (decide booleans (or_decider (negated parts)) false)
verdict-not-and_example = verdict-not-and booleans parts false

-- The conjunction of a truth and an undecided part is undecided, and of a falsehood it is false.
and_undecided : verdict (decide booleans (and_decider parts) false) ≡ Verdict.unknown
unfolding decide get_all_quantified range ◌+ℤ◌ ◌-ℤ◌ promise_all handle_cannot_decide_error
    integer_range_quantified for_all_loop indices get_quantified_decision and_result and_loop
    get_not_decision get_decision
and_undecided = refl

and_false_first :
    verdict (
      decide booleans
        (and_decider (cons (cannot_decide_decider (object 1)) (cons (external false) nil)))
        false)
    ≡ decided false
unfolding decide get_all_quantified range ◌+ℤ◌ ◌-ℤ◌ promise_all handle_cannot_decide_error
    integer_range_quantified for_all_loop indices get_quantified_decision and_result and_loop
    get_not_decision get_decision
and_false_first = refl

same_id-pair : (h k h' k' : ℕ) → (h == h' && k == k') ≡ true → (h ≡ h') × (k ≡ k')
same_id-pair h k h' k' e = (ground arith, ground arith)

abbrev hashing : Hashing (ℕ × ℕ)
hashing = record {
  hash = λ b. elim b [ bytes n ↦ n + 100 | halves l r ↦ 2 * l + 3 * r + 1 ];
  node_id = λ h k. (h, k);
  same_id = λ i j. i.0 == j.0 && i.1 == j.1;
  same_id-node_id = same_id-pair;
}

-- A leaf on the right, whose sibling has the hash 5
abbrev inclusion_proof : MerkleTreeInclusionProof
inclusion_proof = record { root_hash = 338; key = 1; value = bytes 9; siblings = 5 ∷ [] }

inclusion_test : (decide_inclusion_proof hashing ℕ ℕ inclusion_proof).outcome ≡ true
unfolding decide_inclusion_proof init
inclusion_test = refl

decide_inclusion_proof_iff_example :
    ((decide_inclusion_proof hashing ℕ ℕ inclusion_proof).outcome ≡ true)
    ↔ (hash_from hashing 2 0 1 109 (5 ∷ []) ≡ 338)
decide_inclusion_proof_iff_example = decide_inclusion_proof_iff hashing ℕ ℕ inclusion_proof
