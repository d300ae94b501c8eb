-- ===== src/Unipig/Aggregator/Refinement.antt =====
-- Every call of packages/unipig/src/aggregator/rollup-aggregator.ts does to the ledger what is recorded
-- for it.
use pigi.Prelude.{
  ℕ, ◌≡◌, refl, sym, ap, ◌∙◌, true, false, Option, none, some, List, [], ◌∷◌, ◌++◌, map, ◌==◌,
  if◌then◌else◌, arith, Bool-cases, inl, inr,
}
use pigi.Unipig.Types.{
  RollupTransaction, swap_transaction, transfer_transaction, faucet_transaction,
}
use pigi.Unipig.Effects.{SignedTransaction}
use pigi.Unipig.Submitter.{Ended, returned, threw, Submitter, state_after, handle_new_rollup_block}
use pigi.Unipig.Submitter.Acceptance.{handle_new_rollup_block-Keeps, Keeps}
use pigi.Unipig.Validator.{RollupTransition}
use pigi.Unipig.Aggregator.{
  Aggregator, Services, required_signer, apply_transaction, give_faucet_funds, request_faucet_funds,
  handle, on_sync_completed,
}
use pigi.Unipig.Aggregator.Persistence.{IsKept, IsRecoverable}
use pigi.Unipig.Aggregator.Restart.{
  Call, sync_completed, block_confirmed, transaction, faucet_request, timeout, answer, run, start,
  start-IsRecoverable,
}
use pigi.Unipig.Aggregator.Recovery.{answer-IsRecoverable}
use pigi.Unipig.Aggregator.Log.{published-same}
use pigi.Unipig.Aggregator.Ledger.{Ledger, ledger, ledger_eq}
use pigi.Unipig.Aggregator.Recording.{submit_aggregated_block-ledger}
use pigi.Unipig.Aggregator.Entries.{
  record_gift, record_faucet_request, record_call, record_calls, apply_transaction-ledger,
  give_faucet_funds-ledger,
}

module _ {M S E : Type 0} (services : Services M S E) where
  request_faucet_funds-ledger :
      (now : ℕ) (tx : SignedTransaction S) (s : Aggregator M S E)
      → IsKept services s
      → s.synced ≡ true
      → ledger services (request_faucet_funds services true now tx s).1
        ≡ record_faucet_request services tx (ledger services s)
  unfolding request_faucet_funds
  request_faucet_funds-ledger now tx s k e = at tx.transaction refl
    where
      unchanged :
          (request_faucet_funds services true now tx s).1 ≡ s
          → ledger services (request_faucet_funds services true now tx s).1 ≡ ledger services s
      unchanged q = ap (ledger services) q

      at :
          (w : RollupTransaction)
          → tx.transaction ≡ w
          → ledger services (request_faucet_funds services true now tx s).1 ≡ elim w [
            | swap_transaction w ↦ ledger services s
            | transfer_transaction t ↦ ledger services s
            | faucet_transaction f ↦
                if services.verify_faucet_request tx.transaction tx.signature
                  == required_signer services f
                then record_gift services f tx (ledger services s)
                else ledger services s
          ]
      at (swap_transaction w) f = unchanged (ground (arith, e, f))
      at (transfer_transaction t) f = unchanged (ground (arith, e, f))
      at (faucet_transaction r) f =
          elim (Bool-cases (
            services.verify_faucet_request tx.transaction tx.signature
            == required_signer services r)) [
              | inr other ↦ rw other (unchanged (ground (arith, e, f, other)))
              | inl right ↦
                  let q : (request_faucet_funds services true now tx s).1
                      ≡ (give_faucet_funds services true now r tx s).1 =
                    ground (arith, e, f, right) in
                  rw right (ap (ledger services) q ∙ give_faucet_funds-ledger services now r tx s k)
            ]

  handle-ledger :
      (n : Option ℕ) (s : Aggregator M S E)
      → ledger services (state_after (handle services true n s)) ≡ ledger services s
  unfolding handle
  handle-ledger none s = refl
  handle-ledger (some n) s =
      at (handle_new_rollup_block services.codec true n s.rollup_block_submitter)
        (handle_new_rollup_block-Keeps services.codec n s.rollup_block_submitter)
    where
      at :
          (r : Ended (Submitter (RollupTransition S) E))
          → Keeps services.codec s.rollup_block_submitter r
          → ledger services (
              state_after (elim r as (λ x. Ended (Aggregator M S E)) [
                | returned q ↦ returned (record s { rollup_block_submitter = q })
                | threw q ↦ threw (record s { rollup_block_submitter = q })
              ]))
            ≡ ledger services s
      at (threw q) h = absurd h
      at (returned q) h =
          ledger_eq services (record s { rollup_block_submitter = q }) s refl refl
            (rw h.0 (
              ap (λ es. es ++ map services.codec.encode s.pending_block.transitions)
                (published-same s.rollup_block_submitter q s.rollup_block_submitter.last_queued
                  h.1)))

  on_sync_completed-ledger :
      (s : Aggregator M S E)
      → ledger services (on_sync_completed services s)
        ≡ record (ledger services s) { synced = true }
  unfolding on_sync_completed ledger
  on_sync_completed-ledger s = refl

  apply_transaction-unsynced :
      (now : ℕ) (tx : SignedTransaction S) (s : Aggregator M S E)
      → s.synced ≡ false
      → (apply_transaction services true now tx s).1 ≡ s
  unfolding apply_transaction
  apply_transaction-unsynced now tx s e = ground (arith, e)

  request_faucet_funds-unsynced :
      (now : ℕ) (tx : SignedTransaction S) (s : Aggregator M S E)
      → s.synced ≡ false
      → (request_faucet_funds services true now tx s).1 ≡ s
  unfolding request_faucet_funds
  request_faucet_funds-unsynced now tx s e = ground (arith, e)

  when_synced :
      (s s' : Aggregator M S E) (l : Ledger M E)
      → s.synced ≡ true
      → ledger services s' ≡ l
      → ledger services s' ≡ (if (ledger services s).synced then l else ledger services s)
  unfolding ledger
  when_synced s s' l e h = rw e h

  when_unsynced :
      (s s' : Aggregator M S E) (l : Ledger M E)
      → s.synced ≡ false
      → s' ≡ s
      → ledger services s' ≡ (if (ledger services s).synced then l else ledger services s)
  unfolding ledger
  when_unsynced s s' l e h =
      ap (ledger services) h ∙ sym (ap (λ b. if b then l else ledger services s) e)

  answer-ledger :
      (c : Call S) (s : Aggregator M S E)
      → IsRecoverable services s
      → ledger services (answer services c s) ≡ record_call services c (ledger services s)
  answer-ledger sync_completed s r = on_sync_completed-ledger s
  answer-ledger (block_confirmed n) s r = handle-ledger n s
  answer-ledger (transaction now tx) s r = elim (Bool-cases s.synced) [
    | inl e ↦ when_synced s _ _ e (apply_transaction-ledger services now tx s r.0 e)
    | inr e ↦ when_unsynced s _ _ e (apply_transaction-unsynced now tx s e)
  ]
  answer-ledger (faucet_request now tx) s r = elim (Bool-cases s.synced) [
    | inl e ↦ when_synced s _ _ e (request_faucet_funds-ledger now tx s r.0 e)
    | inr e ↦ when_unsynced s _ _ e (request_faucet_funds-unsynced now tx s e)
  ]
  answer-ledger (timeout now) s r = submit_aggregated_block-ledger services now s r.0

  pub run-ledger :
      (cs : List (Call S)) (s : Aggregator M S E)
      → IsRecoverable services s
      → ledger services (run services cs s) ≡ record_calls services cs (ledger services s)
  unfolding run
  run-ledger [] s r = refl
  run-ledger (c ∷ cs) s r =
      run-ledger cs (answer services c s) (answer-IsRecoverable services c s r)
      ∙ ap (record_calls services cs) (answer-ledger c s r)

  ledger-start :
      (began : ℕ) (m : M)
      → ledger services (start services began m)
        ≡ record { machine = m; synced = false; entries = [] }
  unfolding ledger
  ledger-start began m = refl

  -- For an aggregator that began with empty databases, while the contract accepts what it is sent: the
  -- state of its machine, whether it is synced, and the transitions of the stored blocks 1 to the last
  -- queued, in order, and then those of the pending block, are after any calls what the calls add one
  -- behind another to an empty list: whatever the size and the interval of blocks are, whenever it is
  -- called and whatever blocks are confirmed.
  pub ledger-run :
      (cs : List (Call S)) (began : ℕ) (m : M)
      → ledger services (run services cs (start services began m))
        ≡ record_calls services cs (record { machine = m; synced = false; entries = [] })
  ledger-run cs began m =
      run-ledger cs (start services began m) (start-IsRecoverable services began m)
      ∙ ap (record_calls services cs) (ledger-start began m)
