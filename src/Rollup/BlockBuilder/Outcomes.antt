-- ===== src/Rollup/BlockBuilder/Outcomes.antt =====
-- What `submitBlock` of packages/rollup-aggregator/src/app/block-builder.ts has done when it returns.
use pigi.Prelude.{
  ℕ, ◌+◌, ◌≤◌, ◌<◌, ◌≡◌, ◌⊎◌, refl, ◌∙◌, Option, none, some, [], length, ltb, ◌==◌, arith,
  Bool-cases, inl, inr,
}
use pigi.Rollup.BlockBuilder.{
  signed_transactions_of, build_block, after_submission, submit_pending, submit_block,
  set_block_submission_timeout,
}
use pigi.Rollup.BlockBuilder.Data.{RollupBlock, Forest, Services, BlockBuilder}
use pigi.Rollup.BlockBuilder.Storage.{update_forest}

module _ {W H B X S E : Type 0} (services : Services W H B X S E) where
  -- Nothing is submitted.
  pub record IsKept (s s' : BlockBuilder W H B X S E) : Type 0 where
    pub pending : s'.pending_block ≡ s.pending_block
    pub submitter_kept : s'.submitter ≡ s.submitter
    pub db_kept : s'.db ≡ s.db
    pub not_full : length s.pending_block.transaction_results < services.max_transactions_per_block

  -- The pending block is submitted.
  pub record IsSent (s s' : BlockBuilder W H B X S E) : Type 0 where
    pub block : RollupBlock X B
    pub number : block.block_number ≡ s.pending_block.block_number
    pub transactions :
        block.signed_transactions ≡ signed_transactions_of s.pending_block.transaction_results
    pub accepted : services.submit block s.submitter ≡ (some tt, s'.submitter)
    pub next_pending :
        s'.pending_block
        ≡ record { block_number = s.pending_block.block_number + 1; transaction_results = [] }
    pub stored : s'.db ≡ record s.db {
      stored_tx_count = some 0;
      stored_pending_block = some (s.pending_block.block_number + 1);
    }

  pub submit_pending-IsSent :
      (now : ℕ) (s s' : BlockBuilder W H B X S E)
      → submit_pending services now s ≡ (some tt, s')
      → IsSent s s'
  unfolding submit_pending build_block after_submission set_block_submission_timeout
  submit_pending-IsSent now s s' e =
      at (update_forest services s.pending_block.transaction_results s.forest) refl
    where
      at :
          (u : Option B × Forest W H)
          → update_forest services s.pending_block.transaction_results s.forest ≡ u
          → IsSent s s'
      at (none, f) q = absurd (ground (arith, q, e))
      at (some root, f) q =
          let block : RollupBlock X B = record {
            block_number = s.pending_block.block_number;
            state_root = root;
            signed_transactions = signed_transactions_of s.pending_block.transaction_results;
          } in
          sent block refl refl refl (services.submit block s.submitter) refl
        where
          sent :
              (block : RollupBlock X B)
              → block.block_number ≡ s.pending_block.block_number
              → block.state_root ≡ root
              → block.signed_transactions
                ≡ signed_transactions_of s.pending_block.transaction_results
              → (p : Option Unit × S) → services.submit block s.submitter ≡ p
              → IsSent s s'
          sent block a b c (none, x) p = absurd (ground (arith, q, a, b, c, p, e))
          sent block a b c (some u, x) p = record {
            block = block;
            number = a;
            transactions = c;
            accepted = p ∙ ground (arith, q, a, b, c, p, e);
            next_pending = ground (arith, q, a, b, c, p, e);
            stored = ground (arith, q, a, b, c, p, e);
          }

  -- A call of `submitBlock` that returns has submitted the pending block, or nothing.
  pub submit_block_lem :
      (now : ℕ) (s s' : BlockBuilder W H B X S E)
      → submit_block services now s ≡ (some tt, s')
      → IsKept s s'
        ⊎ (IsSent s s'
            × ((1 ≤ services.max_transactions_per_block)
                → 1 ≤ length s.pending_block.transaction_results))
  unfolding submit_block set_block_submission_timeout
  submit_block_lem now s s' e =
      let size = length s.pending_block.transaction_results in
      elim (Bool-cases (ltb size services.max_transactions_per_block)) [
        | inr full ↦
            inr (
              submit_pending-IsSent now s s' (ground (arith, full, e)),
              λ m. ground (arith, full, m),
            )
        | inl room ↦
            elim (Bool-cases
              (ltb now (s.last_block_submission + services.max_delay_between_blocks_millis))) [
                | inl early ↦ inl (record {
                  pending = ground (arith, room, early, e);
                  submitter_kept = ground (arith, room, early, e);
                  db_kept = ground (arith, room, early, e);
                  not_full = ground (arith, room);
                })
                | inr late ↦ elim (Bool-cases (size == 0)) [
                  | inl empty ↦ inl (record {
                    pending = ground (arith, room, late, empty, e);
                    submitter_kept = ground (arith, room, late, empty, e);
                    db_kept = ground (arith, room, late, empty, e);
                    not_full = ground (arith, room);
                  })
                  | inr some_there ↦ inr (
                    submit_pending-IsSent now s s' (ground (arith, room, late, some_there, e)),
                    λ m. ground (arith, some_there),
                  )
                ]
              ]
      ]

  -- A call of `submitBlock` that throws, since the block cannot be built or the submitter throws, has
  -- replaced the pending block by an empty one with the next number; the builder's own entries in the
  -- database are as they were.
  pub submit_block-throws :
      (now : ℕ) (s s' : BlockBuilder W H B X S E)
      → submit_block services now s ≡ (none, s')
      → (s'.pending_block
          ≡ record { block_number = s.pending_block.block_number + 1; transaction_results = [] })
        × (s'.db ≡ s.db)
  unfolding submit_block submit_pending build_block set_block_submission_timeout
  submit_block-throws now s s' e =
      let size = length s.pending_block.transaction_results in
      elim (Bool-cases (ltb size services.max_transactions_per_block)) [
        | inr full ↦ thrown (ground (arith, full, e))
        | inl room ↦
            elim (Bool-cases
              (ltb now (s.last_block_submission + services.max_delay_between_blocks_millis))) [
                | inl early ↦ absurd (ground (arith, room, early, e))
                | inr late ↦ elim (Bool-cases (size == 0)) [
                  | inl empty ↦ absurd (ground (arith, room, late, empty, e))
                  | inr some_there ↦ thrown (ground (arith, room, late, some_there, e))
                ]
              ]
      ]
    where
      thrown :
          submit_pending services now s ≡ (none, s')
          → (s'.pending_block ≡ record {
            block_number = s.pending_block.block_number + 1;
            transaction_results = [];
          })
            × (s'.db ≡ s.db)
      thrown e = at (update_forest services s.pending_block.transaction_results s.forest) refl
        where
          at :
              (u : Option B × Forest W H)
              → update_forest services s.pending_block.transaction_results s.forest ≡ u
              → (s'.pending_block ≡ record {
                block_number = s.pending_block.block_number + 1;
                transaction_results = [];
              })
                × (s'.db ≡ s.db)
          at (none, f) q = (ground (arith, q, e), ground (arith, q, e))
          at (some root, f) q =
              let block : RollupBlock X B = record {
                block_number = s.pending_block.block_number;
                state_root = root;
                signed_transactions = signed_transactions_of s.pending_block.transaction_results;
              } in
              handed block refl refl refl (services.submit block s.submitter) refl
            where
              handed :
                  (block : RollupBlock X B)
                  → block.block_number ≡ s.pending_block.block_number
                  → block.state_root ≡ root
                  → block.signed_transactions
                    ≡ signed_transactions_of s.pending_block.transaction_results
                  → (p : Option Unit × S) → services.submit block s.submitter ≡ p
                  → (s'.pending_block ≡ record {
                    block_number = s.pending_block.block_number + 1;
                    transaction_results = [];
                  })
                    × (s'.db ≡ s.db)
              handed block a b c (none, x) p =
                  (ground (arith, q, a, b, c, p, e), ground (arith, q, a, b, c, p, e))
              handed block a b c (some u, x) p = absurd (ground (arith, q, a, b, c, p, e))
