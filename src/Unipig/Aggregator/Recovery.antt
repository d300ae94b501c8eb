-- ===== src/Unipig/Aggregator/Recovery.antt =====
-- Each call of packages/unipig/src/aggregator/rollup-aggregator.ts leaves a database from which a restart
-- recovers, while the contract accepts what it is sent.
use pigi.Prelude.{
  ℕ, ◌+◌, ◌≤◌, ◌<◌, ◌≡◌, refl, sym, ap, ◌∙◌, subst, true, Option, none, some, List, [], ◌∷◌, length,
  ◌==◌, arith, Bool-cases, Option-cases, inl, inr,
}
use pigi.Unipig.Types.{
  RollupTransaction, FaucetRequest, swap_transaction, transfer_transaction, faucet_transaction,
  Result, ok, err, type_error,
}
use pigi.Unipig.Effects.{SignedTransaction, StateUpdate}
use pigi.Unipig.Submitter.{
  Submitter, Ended, returned, threw, state_after, or_zero, handle_new_rollup_block,
}
use pigi.Unipig.Submitter.Acceptance.{handle_new_rollup_block-Keeps, Keeps}
use pigi.Unipig.Validator.{RollupTransition}
use pigi.Unipig.Aggregator.{
  Aggregator, Services, replied, failed, AggregatorError, not_synced, not_faucet_request,
  wrong_faucet_signer, state_machine_error, constructed, or_one, add_to_pending_block,
  record_updates, apply_transaction, give_faucet_funds, generate_faucet_txs, last_update,
  required_signer, request_faucet_funds, on_sync_completed, handle, submit_if_full,
  increment_tx_count, respond, init, set_block_submission_timeout,
}
use pigi.Unipig.Aggregator.Persistence.{
  IsRecoverable, load_transitions-AreStored, add_to_pending_block-IsReady,
}
use pigi.Unipig.Aggregator.Submission.{
  submit_aggregated_block-IsRecoverable, submit_if_full-IsReady, increment_tx_count-IsReady,
}
use pigi.Unipig.Aggregator.Restart.{
  answer, run, start, start-IsRecoverable, through, Call, sync_completed, block_confirmed,
  transaction, faucet_request, timeout,
}

module _ {M S E : Type 0} (services : Services M S E) where
  record_updates-IsRecoverable :
      (now : ℕ) (us : List (StateUpdate ℕ S)) (u : StateUpdate ℕ S) (tx : SignedTransaction S)
      (s : Aggregator M S E)
      → IsRecoverable services s
      → IsRecoverable services (record_updates services true now us u tx s).1
  unfolding record_updates
  record_updates-IsRecoverable now us u tx s (k, c) =
      elim (Option-cases (add_to_pending_block services us tx s)) [
        | inl e ↦
            through services (record_updates services true now us u tx s)
              (failed (state_machine_error type_error), s) (ground (arith, e)) (k, c)
        | inr (added, e) ↦
            let left = increment_tx_count services (submit_if_full services true now added) in
            let (k', saved) =
              increment_tx_count-IsReady services (submit_if_full services true now added) (
                submit_if_full-IsReady services now added
                  (add_to_pending_block-IsReady services us tx s added e k)) in
            through services (record_updates services true now us u tx s)
              (
                replied (
                    respond services u added.pending_block.block_number
                      (length added.pending_block.transitions)),
                left,
              )
              (ground (arith, e)) (k', inl saved)
      ]

  abbrev with_machine : M → Aggregator M S E → Aggregator M S E
  with_machine m s = record s { rollup_state_machine = m }

  apply_transaction-IsRecoverable :
      (now : ℕ) (tx : SignedTransaction S) (s : Aggregator M S E)
      → IsRecoverable services s
      → IsRecoverable services (apply_transaction services true now tx s).1
  unfolding apply_transaction
  apply_transaction-IsRecoverable now tx s k = elim (Bool-cases s.synced) [
    | inr e ↦
        through services (apply_transaction services true now tx s) (failed not_synced, s)
          (ground (arith, e)) k
    | inl e ↦ at e (services.state_machine.apply_transaction tx s.rollup_state_machine) refl
  ]
    where
      at :
          s.synced ≡ true
          → (r : Result (StateUpdate ℕ S) × M)
          → services.state_machine.apply_transaction tx s.rollup_state_machine ≡ r
          → IsRecoverable services (apply_transaction services true now tx s).1
      at e (err x, m) f =
          through services (apply_transaction services true now tx s)
            (failed (state_machine_error x), with_machine m s) (ground (arith, e, f)) k
      at e (ok u, m) f =
          through services (apply_transaction services true now tx s)
            (record_updates services true now (u ∷ []) u tx (with_machine m s))
            (ground (arith, e, f))
            (record_updates-IsRecoverable now (u ∷ []) u tx (with_machine m s) k)

  give_faucet_funds-IsRecoverable :
      (now : ℕ) (f : FaucetRequest) (tx : SignedTransaction S) (s : Aggregator M S E)
      → IsRecoverable services s
      → IsRecoverable services (give_faucet_funds services true now f tx s).1
  unfolding give_faucet_funds
  give_faucet_funds-IsRecoverable now f tx s k =
      at
        (services.state_machine.apply_transactions (generate_faucet_txs services f.sender f.amount)
          s.rollup_state_machine)
        refl
    where
      at :
          (r : Result (List (StateUpdate ℕ S)) × M)
          → services.state_machine.apply_transactions
              (generate_faucet_txs services f.sender f.amount)
              s.rollup_state_machine
            ≡ r
          → IsRecoverable services (give_faucet_funds services true now f tx s).1
      at (err x, m) e =
          through services (give_faucet_funds services true now f tx s)
            (failed (state_machine_error x), with_machine m s) (ground (arith, e)) k
      at (ok us, m) e = elim (Option-cases (last_update services us)) [
        | inl none_there ↦
            through services (give_faucet_funds services true now f tx s)
              (failed (state_machine_error type_error), with_machine m s)
              (ground (arith, e, none_there)) k
        | inr (u, there) ↦
            let q : (give_faucet_funds services true now f tx s).1
                ≡ (record_updates services true now us u tx (with_machine m s)).1 =
              ground (arith, e, there) in
            subst (IsRecoverable services) (sym q)
              (record_updates-IsRecoverable now us u tx (with_machine m s) k)
      ]

  request_faucet_funds-IsRecoverable :
      (now : ℕ) (tx : SignedTransaction S) (s : Aggregator M S E)
      → IsRecoverable services s
      → IsRecoverable services (request_faucet_funds services true now tx s).1
  unfolding request_faucet_funds
  request_faucet_funds-IsRecoverable now tx s k = elim (Bool-cases s.synced) [
    | inr e ↦
        through services (request_faucet_funds services true now tx s) (failed not_synced, s)
          (ground (arith, e)) k
    | inl e ↦ at e tx.transaction refl
  ]
    where
      refused :
          (x : AggregatorError)
          → request_faucet_funds services true now tx s ≡ (failed x, s)
          → IsRecoverable services (request_faucet_funds services true now tx s).1
      refused x q = through services (request_faucet_funds services true now tx s) (failed x, s) q k

      at :
          s.synced ≡ true
          → (w : RollupTransaction) → tx.transaction ≡ w
          → IsRecoverable services (request_faucet_funds services true now tx s).1
      at e (swap_transaction w) f = refused not_faucet_request (ground (arith, e, f))
      at e (transfer_transaction t) f = refused not_faucet_request (ground (arith, e, f))
      at e (faucet_transaction r) f =
          elim (Bool-cases (
            services.verify_faucet_request tx.transaction tx.signature
            == required_signer services r)) [
              | inr other ↦ refused wrong_faucet_signer (ground (arith, e, f, other))
              | inl right ↦
                  through services (request_faucet_funds services true now tx s)
                    (give_faucet_funds services true now r tx s) (ground (arith, e, f, right))
                    (give_faucet_funds-IsRecoverable now r tx s k)
            ]

  handle-IsRecoverable :
      (n : Option ℕ) (s : Aggregator M S E)
      → IsRecoverable services s
      → IsRecoverable services (state_after (handle services true n s))
  unfolding handle
  handle-IsRecoverable none s k = k
  handle-IsRecoverable (some n) s k =
      at (handle_new_rollup_block services.codec true n s.rollup_block_submitter)
        (handle_new_rollup_block-Keeps services.codec n s.rollup_block_submitter)
    where
      at :
          (r : Ended (Submitter (RollupTransition S) E))
          → Keeps services.codec s.rollup_block_submitter r
          → IsRecoverable services (
              state_after (elim r as (λ x. Ended (Aggregator M S E)) [
                | returned q ↦ returned (record s { rollup_block_submitter = q })
                | threw q ↦ threw (record s { rollup_block_submitter = q })
              ]))
      at (threw q) h = absurd h
      at (returned q) h = (
        record {
          alone = k.0.alone;
          number_stored = k.0.number_stored;
          transitions_stored = k.0.transitions_stored;
          count_stored = k.0.count_stored;
          next = k.0.next ∙ ap (λ x. x + 1) (sym h.0);
        },
        k.1,
      )

  pub answer-IsRecoverable :
      (c : Call S) (s : Aggregator M S E)
      → IsRecoverable services s
      → IsRecoverable services (answer services c s)
  unfolding on_sync_completed
  answer-IsRecoverable sync_completed s k = k
  answer-IsRecoverable (block_confirmed n) s k = handle-IsRecoverable n s k
  answer-IsRecoverable (transaction now tx) s k = apply_transaction-IsRecoverable now tx s k
  answer-IsRecoverable (faucet_request now tx) s k = request_faucet_funds-IsRecoverable now tx s k
  answer-IsRecoverable (timeout now) s k =
      let (s', e, k') = submit_aggregated_block-IsRecoverable services now s k in
      subst (λ r. IsRecoverable services (state_after r)) (sym e) k'

  pub run-IsRecoverable :
      (cs : List (Call S)) (s : Aggregator M S E)
      → IsRecoverable services s
      → IsRecoverable services (run services cs s)
  unfolding run
  run-IsRecoverable [] s k = k
  run-IsRecoverable (c ∷ cs) s k =
      run-IsRecoverable cs (answer services c s) (answer-IsRecoverable c s k)

  init-IsRecoverable :
      (now : ℕ) (m : M) (q : Submitter (RollupTransition S) E) (s : Aggregator M S E)
      → IsRecoverable services s
      → (s' : Aggregator M S E) × (init services now m q s.db ≡ some s')
        × (s'.pending_block ≡ s.pending_block)
        × (s'.transaction_count ≤ s.transaction_count)
        × (s.transaction_count < s'.transaction_count + 7)
  unfolding init set_block_submission_timeout
  init-IsRecoverable now m q s (k, inr u) = (
    constructed services now m q s.db,
    ground (arith, u.no_last_transition),
    sym u.first_block,
    omega (arith, u.no_transactions),
    omega (arith, u.no_transactions),
  )
  init-IsRecoverable now m q s (k, inl saved) =
      let loaded =
        load_transitions-AreStored services s.db 1 s.pending_block.transitions
          k.transitions_stored in
      (
        set_block_submission_timeout services 0 (record (constructed services now m q s.db) {
          transaction_count = or_zero s.db.stored_tx_count;
          pending_block = record {
            block_number = or_one s.db.stored_pending_block;
            transitions = s.pending_block.transitions;
          };
        }),
        ground (arith, saved, loaded),
        ap (λ n. record { block_number = n; transitions = s.pending_block.transitions })
            k.number_stored,
        omega (arith, k.count_stored),
        omega (arith, k.count_stored),
      )

  -- After any calls on an aggregator that began with empty databases, a restart restores the pending
  -- block, and a count of transactions that is at most 6 too low, if the contract accepts what it is
  -- sent.
  pub init-run :
      (cs : List (Call S)) (began now : ℕ) (m m' : M) (q : Submitter (RollupTransition S) E)
      → let s = run services cs (start services began m) in
        (s' : Aggregator M S E) × (init services now m' q s.db ≡ some s')
        × (s'.pending_block ≡ s.pending_block)
        × (s'.transaction_count ≤ s.transaction_count)
        × (s.transaction_count < s'.transaction_count + 7)
  init-run cs began now m m' q =
      init-IsRecoverable now m' q (run services cs (start services began m))
        (run-IsRecoverable cs (start services began m) (start-IsRecoverable services began m))
