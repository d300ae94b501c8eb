-- ===== src/Unipig/Aggregator/Recording.antt =====
-- What the submission of a block and the record of an update in
-- packages/unipig/src/aggregator/rollup-aggregator.ts do to the ledger.
use pigi.Prelude.{
  ℕ, ◌+◌, ◌-◌, ◌≡◌, refl, ap, ◌∙◌, true, Option, none, some, List, length, ltb, leb, ◌==◌, arith,
  Bool-cases, inl, inr,
}
use pigi.Unipig.Effects.{SignedTransaction, StateUpdate}
use pigi.Unipig.Submitter.{state_after}
use pigi.Unipig.Submitter.Acceptance.{submit_block-accepted}
use pigi.Unipig.Validator.{RollupTransition}
use pigi.Unipig.Aggregator.{
  Aggregator, Services, add_to_pending_block, submit_pending_block, submit_aggregated_block,
  submit_if_full, increment_tx_count, set_block_submission_timeout, record_updates,
}
use pigi.Unipig.Aggregator.Persistence.{IsKept}
use pigi.Unipig.Aggregator.Submission.{submit_pending_block-accepted}
use pigi.Unipig.Aggregator.Log.{log-submit_pending_block}
use pigi.Unipig.Aggregator.Ledger.{
  ledger, add_entries, ledger_eq, Adds, set_block_submission_timeout-ledger,
  increment_tx_count-ledger, add_to_pending_block-Adds, transitions_of, Ledger,
}

module _ {M S E : Type 0} (services : Services M S E) where
  submit_pending_block-ledger :
      (now : ℕ) (s : Aggregator M S E)
      → IsKept services s
      → ledger services (state_after (submit_pending_block services true now s)) ≡ ledger services s
  unfolding submit_pending_block set_block_submission_timeout
  submit_pending_block-ledger now s k =
      let (q, e, last, stored) =
        submit_block-accepted services.codec s.pending_block s.rollup_block_submitter k.next in
      let (s', f, r) = submit_pending_block-accepted services now s k in
      let same : ledger services s' ≡ ledger services s =
        ledger_eq services s' s (ground (arith, e, f)) (ground (arith, e, f))
          (log-submit_pending_block services now s s' k f) in
      ap (λ x. ledger services (state_after x)) f ∙ same

  pub submit_aggregated_block-ledger :
      (now : ℕ) (s : Aggregator M S E)
      → IsKept services s
      → ledger services (state_after (submit_aggregated_block services true now s))
        ≡ ledger services s
  unfolding submit_aggregated_block
  submit_aggregated_block-ledger now s k =
      let due = s.last_block_submission + services.block_submission_interval_millis in
      let sent = submit_pending_block-ledger now s k in
      elim (Bool-cases
        (ltb (length s.pending_block.transitions) services.block_submission_transition_count)) [
          | inr full ↦ rw full sent
          | inl partial ↦ elim (Bool-cases (ltb now due)) [
            | inl early ↦
                rw (partial, early) (set_block_submission_timeout-ledger services (due - now) s)
            | inr late ↦ elim (Bool-cases (length s.pending_block.transitions == 0)) [
              | inl empty ↦
                  rw (partial, late, empty)
                    (set_block_submission_timeout-ledger services
                      services.block_submission_interval_millis s)
              | inr filled ↦ rw (partial, late, filled) sent
            ]
          ]
        ]

  submit_if_full-ledger :
      (now : ℕ) (s : Aggregator M S E)
      → IsKept services s
      → ledger services (submit_if_full services true now s) ≡ ledger services s
  unfolding submit_if_full
  submit_if_full-ledger now s k =
      elim (Bool-cases
        (leb services.block_submission_transition_count (length s.pending_block.transitions))) [
          | inl full ↦ rw full (submit_aggregated_block-ledger now s k)
          | inr partial ↦ rw partial refl
        ]

  -- What the two handlers do with updates, seen from the ledger
  abbrev pub recorded : List (StateUpdate ℕ S) → SignedTransaction S → Ledger M E → Ledger M E
  recorded us tx l = elim (transitions_of us tx) [ none ↦ l | some ts ↦ add_entries services ts l ]

  pub record_updates-ledger :
      (now : ℕ) (us : List (StateUpdate ℕ S)) (u : StateUpdate ℕ S) (tx : SignedTransaction S)
      (s : Aggregator M S E)
      → IsKept services s
      → ledger services (record_updates services true now us u tx s).1
        ≡ recorded us tx (ledger services s)
  unfolding record_updates
  record_updates-ledger now us u tx s k =
      at (transitions_of us tx) (add_to_pending_block services us tx s) refl
        (add_to_pending_block-Adds services us tx s k)
    where
      at :
          (o : Option (List (RollupTransition S))) (r : Option (Aggregator M S E))
          → add_to_pending_block services us tx s ≡ r
          → Adds services o s r
          → ledger services (record_updates services true now us u tx s).1 ≡ elim o [
            | none ↦ ledger services s
            | some ts ↦ add_entries services ts (ledger services s)
          ]
      at none r e h =
          let q : (record_updates services true now us u tx s).1 ≡ s = ground (arith, e, h) in
          ap (ledger services) q
      at (some ts) r e (s', f, k', l) =
          let q : (record_updates services true now us u tx s).1
              ≡ increment_tx_count services (submit_if_full services true now s') =
            ground (arith, e, f) in
          ap (ledger services) q
          ∙ (increment_tx_count-ledger services (submit_if_full services true now s')
              ∙ submit_if_full-ledger now s' k'
              ∙ l)
