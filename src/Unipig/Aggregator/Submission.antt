-- ===== src/Unipig/Aggregator/Submission.antt =====
-- What packages/unipig/src/aggregator/rollup-aggregator.ts leaves in its database when it submits a
-- block, or counts a transaction.
use pigi.Prelude.{
  ℕ, ◌+◌, ◌-◌, ◌%◌, ◌≡◌, refl, subst, true, false, some, [], length, ltb, leb, ◌==◌, arith,
  Bool-cases, inl, inr,
}
use pigi.Unipig.Submitter.{returned}
use pigi.Unipig.Submitter.Acceptance.{submit_block-accepted}
use pigi.Unipig.Aggregator.{
  Aggregator, Services, submit_pending_block, submit_aggregated_block, submit_if_full,
  increment_tx_count, set_block_submission_timeout,
}
use pigi.Unipig.Aggregator.Persistence.{IsKept, IsReady, IsRecoverable}

module _ {M S E : Type 0} (services : Services M S E) where
  -- A pending block that the contract accepts, or that waits in the queue, is replaced by an empty one
  -- with the next number.
  pub submit_pending_block-accepted :
      (now : ℕ) (s : Aggregator M S E)
      → IsKept services s
      → (s' : Aggregator M S E) × (submit_pending_block services true now s ≡ returned s')
        × IsReady services s'
  unfolding submit_pending_block set_block_submission_timeout
  submit_pending_block-accepted now s k =
      let (q, e, last, stored) =
        submit_block-accepted services.codec s.pending_block s.rollup_block_submitter k.next in
      (
        set_block_submission_timeout services 0 (record s {
          rollup_block_submitter = q;
          pending_block = record {
            block_number = s.pending_block.block_number + 1;
            transitions = [];
          };
          pending_is_queued = false;
          last_block_submission = now;
          db = record s.db {
            stored_last_transition = some 0;
            stored_pending_block = some (s.pending_block.block_number + 1);
          };
        }),
        ground (arith, e),
        (
          record {
            alone = refl;
            number_stored = refl;
            transitions_stored = tt;
            count_stored = k.count_stored;
            next = omega (arith, last);
          },
          refl,
        ),
      )

  -- Whether or not the pending block is due, `submitBlock` ends without an error.
  pub submit_aggregated_block-IsRecoverable :
      (now : ℕ) (s : Aggregator M S E)
      → IsRecoverable services s
      → (s' : Aggregator M S E) × (submit_aggregated_block services true now s ≡ returned s')
        × IsRecoverable services s'
  unfolding submit_aggregated_block set_block_submission_timeout
  submit_aggregated_block-IsRecoverable now s r =
      let due = s.last_block_submission + services.block_submission_interval_millis in
      let (sent, e, (k, saved)) = submit_pending_block-accepted now s r.0 in
      elim (Bool-cases
        (ltb (length s.pending_block.transitions) services.block_submission_transition_count)) [
          | inr full ↦ (sent, ground (arith, full, e), (k, inl saved))
          | inl partial ↦ elim (Bool-cases (ltb now due)) [
            | inl early ↦ (
              set_block_submission_timeout services (due - now) s,
              ground (arith, partial, early),
              r,
            )
            | inr late ↦ elim (Bool-cases (length s.pending_block.transitions == 0)) [
              | inl empty ↦ (
                set_block_submission_timeout services services.block_submission_interval_millis s,
                ground (arith, partial, late, empty),
                r,
              )
              | inr filled ↦ (sent, ground (arith, partial, late, filled, e), (k, inl saved))
            ]
          ]
        ]

  -- A full block is submitted, and what remains is saved.
  pub submit_if_full-IsReady :
      (now : ℕ) (s : Aggregator M S E)
      → IsReady services s
      → IsReady services (submit_if_full services true now s)
  unfolding submit_if_full submit_aggregated_block
  submit_if_full-IsReady now s (k, saved) =
      let (sent, e, ready) = submit_pending_block-accepted now s k in
      elim (Bool-cases
        (leb services.block_submission_transition_count (length s.pending_block.transitions))) [
          | inl full ↦
              let q : sent ≡ submit_if_full services true now s = ground (arith, full, e) in
              subst (IsReady services) q ready
          | inr partial ↦ rw partial (k, saved)
        ]

  pub increment_tx_count-IsReady :
      (s : Aggregator M S E) → IsReady services s → IsReady services (increment_tx_count services s)
  unfolding increment_tx_count
  increment_tx_count-IsReady s (k, saved) = elim (Bool-cases ((s.transaction_count + 1) % 7 == 0)) [
    | inl store ↦ rw store (
      record {
        alone = k.alone;
        number_stored = k.number_stored;
        transitions_stored = k.transitions_stored;
        count_stored = ground arith;
        next = k.next;
      },
      saved,
    )
    | inr wait ↦ rw wait (
      record {
        alone = k.alone;
        number_stored = k.number_stored;
        transitions_stored = k.transitions_stored;
        count_stored = ground (arith, k.count_stored);
        next = k.next;
      },
      saved,
    )
  ]
