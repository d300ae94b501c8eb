-- ===== src/Ovm/Quantifiers.antt =====
-- packages/ovm/src/app/quantifiers/integer-quantifiers.ts. A JavaScript number is an integer here:
-- the parameters are bounds of indices and counts.
use pigi.Prelude.{ℕ, zero, suc, true, List, [], ◌∷◌, ◌++◌, map, if◌then◌else◌}
use pigi.Prelude.Int.{ℤ, pos, ◌+ℤ◌, ◌-ℤ◌, ltb_ℤ, pos_part}
use pigi.Ovm.Types.{Result, ok, err, other_error, number, QuantifierResult}

-- 0, 1, ..., n - 1: the indices of an array of `n` items.
unfoldable pub indices : ℕ → List ℕ
indices zero = []
indices (suc n) = indices n ++ n ∷ []

-- `Array(end - start).fill(start).map((x, y) => x + y)`, where `end - start` is not negative.
unfoldable pub range : ℤ → ℤ → List ℤ
range start end = map (λ y. start +ℤ pos y) (indices (pos_part (end -ℤ start)))

module _ {V : Type 0} where
  -- `IntegerRangeQuantifier.getAllQuantified`
  unfoldable pub integer_range_quantified : ℤ → ℤ → Result (QuantifierResult V)
  integer_range_quantified start end =
      if ltb_ℤ end start
      then err (other_error "Invalid quantifier input! End is less than the start.")
      else ok (record { results = map number (range start end); all_results_quantified = true })

  -- `NonnegativeIntegerLessThanQuantifier.getAllQuantified`
  unfoldable pub less_than_quantified : ℤ → Result (QuantifierResult V)
  less_than_quantified bound =
      if ltb_ℤ bound (pos 0)
      then err (other_error "Invalid quantifier input! Cannot quantify negative number.")
      else ok (record { results = map number (range (pos 0) bound); all_results_quantified = true })
