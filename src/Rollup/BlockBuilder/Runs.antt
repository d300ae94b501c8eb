-- ===== src/Rollup/BlockBuilder/Runs.antt =====
-- Every call of the builder in packages/rollup-aggregator/src/app/block-builder.ts keeps the ledger.
use pigi.Prelude.{
  ℕ, ◌≤◌, ◌<◌, ◌≡◌, refl, sym, ap, ap₂, ◌∙◌, subst, true, false, Option, none, some, List, [], ◌∷◌,
  ◌++◌, length, length-append, leb, arith, Bool-cases, inl, inr, All, All-append,
}
use mathlib.Core.List.{append-nil, append_assoc}
use pigi.Rollup.BlockBuilder.{
  repeats_last, signed_transactions_of, submit_block, push_result, add_transaction_result,
}
use pigi.Rollup.BlockBuilder.Data.{TransactionResult, RollupBlock, Services, BlockBuilder}
use pigi.Rollup.BlockBuilder.Outcomes.{IsSent, submit_block_lem}
use pigi.Rollup.BlockBuilder.Ledger.{
  Call, result, timeout, received, IsNew, IsNumbered, transactions_in, transactions_in-append,
  append-IsNumbered, signed_transactions_of-append, length-signed_transactions_of,
  repeats_last-append, run, IsLedger,
}

module _ {W H B X S E : Type 0} (services : Services W H B X S E) (log : S → List (RollupBlock X B))
    (one_or_more : 1 ≤ services.max_transactions_per_block)
    -- The number of the last block that the submitter has taken, 0 before the first
    (last_queued : S → ℕ)
    (logged : (b : RollupBlock X B) (q q' : S)
      → services.submit b q ≡ (some tt, q')
      → last_queued q < b.block_number
      → (log q' ≡ log q ++ b ∷ []) × (last_queued q' ≡ b.block_number))
    (first : ℕ) where
  -- The ledger, and the last pending result was the last to come.
  record IsOpen (rs : List (TransactionResult X)) (s : BlockBuilder W H B X S E) : Type 0 where
    pub ledger : IsLedger services log first rs s
    pub behind : last_queued s.submitter < s.pending_block.block_number
    pub last :
        (n : ℕ)
        → repeats_last n s.pending_block.transaction_results ≡ true
        → repeats_last n rs ≡ true

  -- Before the pending block is submitted it may be full.
  record IsFilled (rs : List (TransactionResult X)) (s : BlockBuilder W H B X S E) : Type 0 where
    pub complete :
        transactions_in (log s.submitter)
          ++ signed_transactions_of s.pending_block.transaction_results
        ≡ signed_transactions_of rs
    pub numbered : IsNumbered first (log s.submitter) s.pending_block.block_number
    pub sizes :
        All
          (λ b.
            (1 ≤ length b.signed_transactions)
            × (length b.signed_transactions ≤ services.max_transactions_per_block))
          (log s.submitter)
    pub fits : length s.pending_block.transaction_results ≤ services.max_transactions_per_block
    pub behind : last_queued s.submitter < s.pending_block.block_number
    pub last :
        (n : ℕ)
        → repeats_last n s.pending_block.transaction_results ≡ true
        → repeats_last n rs ≡ true

  IsSent-IsOpen :
      (rs : List (TransactionResult X)) (s s' : BlockBuilder W H B X S E)
      → IsFilled rs s
      → 1 ≤ length s.pending_block.transaction_results
      → IsSent services s s'
      → IsOpen rs s'
  IsSent-IsOpen rs s s' k not_empty o =
      let (entry, taken) =
        logged o.block s.submitter s'.submitter o.accepted (omega (arith, o.number, k.behind)) in
      let size =
        ap length o.transactions
        ∙ length-signed_transactions_of s.pending_block.transaction_results in
      let no_pending = ap (λ b. b.transaction_results) o.next_pending in
      record {
        ledger = record {
          complete =
              ap₂ (λ bs ts. transactions_in bs ++ signed_transactions_of ts) entry no_pending
              ∙ append-nil (transactions_in (log s.submitter ++ o.block ∷ []))
              ∙ transactions_in-append (log s.submitter) o.block
              ∙ ap (λ ts. transactions_in (log s.submitter) ++ ts) o.transactions
              ∙ k.complete;
          numbered =
              subst (λ bs. IsNumbered first bs s'.pending_block.block_number) (sym entry)
                (subst (IsNumbered first (log s.submitter ++ o.block ∷ []))
                  (sym (ap (λ b. b.block_number) o.next_pending))
                  (append-IsNumbered first s.pending_block.block_number (log s.submitter) o.block
                    k.numbered o.number));
          sizes = subst (All _) (sym entry) (
              All-append _ (log s.submitter) (o.block ∷ []) k.sizes
                ((omega (arith, size, not_empty), omega (arith, size, k.fits)), tt));
          room =
              subst (λ ts. length ts < services.max_transactions_per_block) (sym no_pending)
                (omega (arith, one_or_more));
        };
        behind = omega (arith, taken, o.number, ap (λ b. b.block_number) o.next_pending);
        last = λ n e. absurd (ground (arith, e, no_pending));
      }

  submit_block-IsOpen :
      (now : ℕ) (rs : List (TransactionResult X)) (s s' : BlockBuilder W H B X S E)
      → IsFilled rs s
      → submit_block services now s ≡ (some tt, s')
      → IsOpen rs s'
  submit_block-IsOpen now rs s s' k e = elim (submit_block_lem services now s s' e) [
    | inl o ↦
        let same = ap (λ b. b.transaction_results) o.pending in
        let entries = ap log o.submitter_kept in
        record {
          ledger = record {
            complete =
                ap₂ (λ bs ts. transactions_in bs ++ signed_transactions_of ts) entries same
                ∙ k.complete;
            numbered =
                subst (λ bs. IsNumbered first bs s'.pending_block.block_number) (sym entries)
                  (subst (IsNumbered first (log s.submitter))
                    (sym (ap (λ b. b.block_number) o.pending)) k.numbered);
            sizes = subst (All _) (sym entries) k.sizes;
            room =
                subst (λ ts. length ts < services.max_transactions_per_block) (sym same) o.not_full;
          };
          behind = omega (
            arith,
            ap last_queued o.submitter_kept,
            ap (λ b. b.block_number) o.pending,
            k.behind,
          );
          last = λ n e. k.last n (ap (repeats_last n) (sym same) ∙ e);
        }
    | inr (o, m) ↦ IsSent-IsOpen rs s s' k (m one_or_more) o
  ]

  add_transaction_result-IsOpen :
      (now : ℕ) (r : TransactionResult X) (rs : List (TransactionResult X))
      (s s' : BlockBuilder W H B X S E)
      → IsOpen rs s
      → repeats_last r.transaction_number rs ≡ false
      → add_transaction_result services now r s ≡ (some tt, s')
      → IsOpen (rs ++ r ∷ []) s'
  unfolding add_transaction_result push_result
  add_transaction_result-IsOpen now r rs s s' k n e =
      let new : repeats_last r.transaction_number s.pending_block.transaction_results ≡ false =
        elim (Bool-cases (repeats_last r.transaction_number s.pending_block.transaction_results)) [
          | inl again ↦ absurd (ground (arith, k.last r.transaction_number again, n))
          | inr q ↦ q
        ] in
      let pushed = push_result services r s in
      let filled : IsFilled (rs ++ r ∷ []) pushed = record {
        complete =
            ap (λ ts. transactions_in (log s.submitter) ++ ts)
              (signed_transactions_of-append s.pending_block.transaction_results r)
            ∙ sym (
                append_assoc (transactions_in (log s.submitter))
                  (signed_transactions_of s.pending_block.transaction_results)
                  (r.signed_transaction ∷ []))
            ∙ ap (λ ts. ts ++ r.signed_transaction ∷ []) k.ledger.complete
            ∙ sym (signed_transactions_of-append rs r);
        numbered = k.ledger.numbered;
        sizes = k.ledger.sizes;
        fits =
            omega
              (arith, length-append s.pending_block.transaction_results (r ∷ []), k.ledger.room);
        behind = k.behind;
        last = λ m q.
            repeats_last-append m rs r
            ∙ sym (repeats_last-append m s.pending_block.transaction_results r)
            ∙ q;
      } in
      elim (Bool-cases (
        leb services.max_transactions_per_block
          (length pushed.pending_block.transaction_results))) [
            | inl full ↦
                submit_block-IsOpen now (rs ++ r ∷ []) pushed s' filled
                  (ground (arith, new, full, e))
            | inr room ↦
                let same : s' ≡ pushed = ground (arith, new, room, e) in
                subst (IsOpen (rs ++ r ∷ [])) (sym same) (record {
                  ledger = record {
                    complete = filled.complete;
                    numbered = filled.numbered;
                    sizes = filled.sizes;
                    room = ground (arith, room);
                  };
                  behind = filled.behind;
                  last = filled.last;
                })
          ]

  answer-IsOpen :
      (now : ℕ) (rs : List (TransactionResult X)) (s s' : BlockBuilder W H B X S E)
      → IsOpen rs s
      → submit_block services now s ≡ (some tt, s')
      → IsOpen rs s'
  answer-IsOpen now rs s s' k e =
      submit_block-IsOpen now rs s s'
        (record {
          complete = k.ledger.complete;
          numbered = k.ledger.numbered;
          sizes = k.ledger.sizes;
          fits = omega (arith, k.ledger.room);
          behind = k.behind;
          last = k.last;
        })
        e

  run-IsOpen :
      (cs : List (Call X)) (rs : List (TransactionResult X)) (s s' : BlockBuilder W H B X S E)
      → IsOpen rs s
      → IsNew rs cs
      → run services cs s ≡ some s'
      → IsOpen (received rs cs) s'
  run-IsOpen [] rs s s' k n e = subst (IsOpen rs) (ground (arith, e)) k
  run-IsOpen (result now r ∷ cs) rs s s' k n e =
      at (add_transaction_result services now r s) refl
        (λ t q. run-IsOpen cs (rs ++ r ∷ []) t s' q n.1)
    where
      at :
          (p : Option (Unit {0}) × BlockBuilder W H B X S E)
          → add_transaction_result services now r s ≡ p
          → ((t : BlockBuilder W H B X S E)
              → IsOpen (rs ++ r ∷ []) t
              → run services cs t ≡ some s'
              → IsOpen (received (rs ++ r ∷ []) cs) s')
          → IsOpen (received (rs ++ r ∷ []) cs) s'
      at (none, t) q f = absurd (ground (arith, q, e))
      at (some u, t) q f =
          f t (add_transaction_result-IsOpen now r rs s t k n.0 q) (ground (arith, q, e))
  run-IsOpen (timeout now ∷ cs) rs s s' k n e =
      at (submit_block services now s) refl (λ t q. run-IsOpen cs rs t s' q n)
    where
      at :
          (p : Option (Unit {0}) × BlockBuilder W H B X S E)
          → submit_block services now s ≡ p
          → ((t : BlockBuilder W H B X S E)
              → IsOpen rs t
              → run services cs t ≡ some s'
              → IsOpen (received rs cs) s')
          → IsOpen (received rs cs) s'
      at (none, t) q f = absurd (ground (arith, q, e))
      at (some u, t) q f = f t (answer-IsOpen now rs s t k q) (ground (arith, q, e))

  -- Let the submitter log a block that it takes when the number is above that of the last one it has
  -- taken, and let blocks have at least one transaction. From a builder whose pending block is empty and
  -- has a number above that of the last block taken, while the submitter's log is empty, and after any
  -- calls that all return, in which no result comes with the number of the one right before it, the
  -- logged blocks and the pending one have the transactions of all results, in order and each once. The
  -- blocks are numbered without a gap, none is empty or has more transactions than the maximum, and the
  -- pending block has fewer.
  pub run-IsLedger :
      (cs : List (Call X)) (s s' : BlockBuilder W H B X S E)
      → s.pending_block ≡ record { block_number = first; transaction_results = [] }
      → log s.submitter ≡ []
      → last_queued s.submitter < first
      → IsNew [] cs
      → run services cs s ≡ some s'
      → IsLedger services log first (received [] cs) s'
  run-IsLedger cs s s' empty unlogged above n e =
      let no_pending = ap (λ b. b.transaction_results) empty in
      (run-IsOpen cs [] s s'
        (record {
          ledger = record {
            complete =
                ap₂ (λ bs ts. transactions_in bs ++ signed_transactions_of ts) unlogged no_pending;
            numbered =
                subst (λ bs. IsNumbered first bs s.pending_block.block_number) (sym unlogged)
                  (ap (λ b. b.block_number) empty);
            sizes = subst (All _) (sym unlogged) tt;
            room =
                subst (λ ts. length ts < services.max_transactions_per_block) (sym no_pending)
                  (omega (arith, one_or_more));
          };
          behind = omega (arith, above, ap (λ b. b.block_number) empty);
          last = λ m q. absurd (ground (arith, q, no_pending));
        })
        n e).ledger
