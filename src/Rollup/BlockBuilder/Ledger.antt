-- ===== src/Rollup/BlockBuilder/Ledger.antt =====
-- Calls of the builder in packages/rollup-aggregator/src/app/block-builder.ts one after another, and what
-- a ledger of the submitted blocks and the pending one has to show.
use pigi.Prelude.{
  ℕ, suc, ◌+◌, ◌≤◌, ◌<◌, ◌≡◌, refl, sym, ap, ◌∙◌, false, Option, none, some, List, [], ◌∷◌, ◌++◌,
  length, ◌==◌, All,
}
use mathlib.Core.List.{append-nil, append_assoc}
use pigi.Rollup.BlockBuilder.{
  repeats_last, signed_transactions_of, submit_block, add_transaction_result,
}
use pigi.Rollup.BlockBuilder.Data.{TransactionResult, RollupBlock, Services, BlockBuilder}

-- A transaction result that comes, or the timeout, at a time
pub data Call (X : Type 0) : Type 0 where
  result : ℕ → TransactionResult X → Call X
  timeout : ℕ → Call X

abbrev pub received :
    {X : Type 0} → List (TransactionResult X) → List (Call X) → List (TransactionResult X)
received rs [] = rs
received rs (result now r ∷ cs) = received (rs ++ r ∷ []) cs
received rs (timeout now ∷ cs) = received rs cs

-- After the given results, none comes with the number of the one right before it.
abbrev pub IsNew : {X : Type 0} → List (TransactionResult X) → List (Call X) → Type 0
IsNew rs [] = Unit
IsNew rs (result now r ∷ cs) =
    (repeats_last r.transaction_number rs ≡ false) × IsNew (rs ++ r ∷ []) cs
IsNew rs (timeout now ∷ cs) = IsNew rs cs

-- Blocks that are numbered from a number on, up to the next one
abbrev pub IsNumbered : {X B : Type 0} → ℕ → List (RollupBlock X B) → ℕ → Type 0
IsNumbered first [] next = next ≡ first
IsNumbered first (b ∷ bs) next = (b.block_number ≡ first) × IsNumbered (first + 1) bs next

abbrev pub transactions_in : {X B : Type 0} → List (RollupBlock X B) → List X
transactions_in [] = []
transactions_in (b ∷ bs) = b.signed_transactions ++ transactions_in bs

pub transactions_in-append :
    {X B : Type 0} (bs : List (RollupBlock X B)) (b : RollupBlock X B)
    → transactions_in (bs ++ b ∷ []) ≡ transactions_in bs ++ b.signed_transactions
transactions_in-append [] b = append-nil b.signed_transactions
transactions_in-append (c ∷ bs) b =
    ap (λ xs. c.signed_transactions ++ xs) (transactions_in-append bs b)
    ∙ sym (append_assoc c.signed_transactions (transactions_in bs) b.signed_transactions)

pub append-IsNumbered :
    {X B : Type 0} (first next : ℕ) (bs : List (RollupBlock X B)) (b : RollupBlock X B)
    → IsNumbered first bs next
    → b.block_number ≡ next
    → IsNumbered first (bs ++ b ∷ []) (next + 1)
append-IsNumbered first next [] b h e = (e ∙ h, ap (λ n. n + 1) h)
append-IsNumbered first next (c ∷ bs) b h e = (h.0, append-IsNumbered (first + 1) next bs b h.1 e)

pub signed_transactions_of-append :
    {X : Type 0} (rs : List (TransactionResult X)) (r : TransactionResult X)
    → signed_transactions_of (rs ++ r ∷ []) ≡ signed_transactions_of rs ++ r.signed_transaction ∷ []
signed_transactions_of-append [] r = refl
signed_transactions_of-append (q ∷ rs) r =
    ap (λ xs. q.signed_transaction ∷ xs) (signed_transactions_of-append rs r)

pub length-signed_transactions_of :
    {X : Type 0} (rs : List (TransactionResult X)) → length (signed_transactions_of rs) ≡ length rs
length-signed_transactions_of [] = refl
length-signed_transactions_of (r ∷ rs) = ap suc (length-signed_transactions_of rs)

pub repeats_last-append :
    {X : Type 0} (n : ℕ) (rs : List (TransactionResult X)) (r : TransactionResult X)
    → repeats_last n (rs ++ r ∷ []) ≡ (r.transaction_number == n)
repeats_last-append n [] r = refl
repeats_last-append n (q ∷ []) r = refl
repeats_last-append n (q ∷ p ∷ rs) r = repeats_last-append n (p ∷ rs) r

module _ {W H B X S E : Type 0} (services : Services W H B X S E) where
  abbrev pub answer :
      Call X → BlockBuilder W H B X S E → Option (Unit {0}) × BlockBuilder W H B X S E
  answer (result now r) = add_transaction_result services now r
  answer (timeout now) = submit_block services now

  -- The builder after some calls, where each of them returns
  abbrev pub run : List (Call X) → BlockBuilder W H B X S E → Option (BlockBuilder W H B X S E)
  run [] s = some s
  run (c ∷ cs) s = let (r, s') = answer c s in elim r [ none ↦ none | some u ↦ run cs s' ]

  -- The blocks that the submitter took, and the pending block, have the transactions of the results
  -- `rs`, in order and each once; they are numbered without a gap, no block is empty or too large, and
  -- there is room in the pending one.
  pub record IsLedger (log : S → List (RollupBlock X B)) (first : ℕ)
      (rs : List (TransactionResult X)) (s : BlockBuilder W H B X S E) : Type 0 where
    pub complete :
        transactions_in (log s.submitter)
          ++ signed_transactions_of s.pending_block.transaction_results
        ≡ signed_transactions_of rs
    pub numbered : IsNumbered first (log s.submitter) s.pending_block.block_number
    pub sizes :
        All
          (λ b.
            (1 ≤ length b.signed_transactions)
            × (length b.signed_transactions ≤ services.max_transactions_per_block))
          (log s.submitter)
    pub room : length s.pending_block.transaction_results < services.max_transactions_per_block
