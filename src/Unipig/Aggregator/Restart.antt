-- ===== src/Unipig/Aggregator/Restart.antt =====
-- Calls on an aggregator of packages/unipig/src/aggregator/rollup-aggregator.ts that began with an empty
-- database.
use pigi.Prelude.{ℕ, ◌≡◌, refl, sym, subst, true, Option, none, List, [], ◌∷◌, inr}
use pigi.Unipig.Effects.{SignedTransaction}
use pigi.Unipig.Submitter.{state_after}
use pigi.Unipig.Submitter.Runs.{fresh}
use pigi.Unipig.Aggregator.{
  Aggregator, Services, Reply, constructed, apply_transaction, request_faucet_funds,
  on_sync_completed, handle, submit_aggregated_block,
}
use pigi.Unipig.Aggregator.Persistence.{IsRecoverable}

-- What happens to an aggregator; each but the first two with the time.
pub data Call (S : Type 0) : Type 0 where
  sync_completed : Call S
  block_confirmed : Option ℕ → Call S
  transaction : ℕ → SignedTransaction S → Call S
  faucet_request : ℕ → SignedTransaction S → Call S
  timeout : ℕ → Call S

module _ {M S E : Type 0} (services : Services M S E) where
  abbrev pub answer : Call S → Aggregator M S E → Aggregator M S E
  answer sync_completed s = on_sync_completed services s
  answer (block_confirmed n) s = state_after (handle services true n s)
  answer (transaction now tx) s = (apply_transaction services true now tx s).1
  answer (faucet_request now tx) s = (request_faucet_funds services true now tx s).1
  answer (timeout now) s = state_after (submit_aggregated_block services true now s)

  -- The calls one after another, each to its end.
  unfoldable pub run : List (Call S) → Aggregator M S E → Aggregator M S E
  run [] s = s
  run (c ∷ cs) s = run cs (answer c s)

  -- An aggregator and its submitter over an empty database.
  abbrev pub start : ℕ → M → Aggregator M S E
  start now m = constructed services now m (fresh services.codec) (record {
    stored_pending_block = none;
    stored_last_transition = none;
    stored_tx_count = none;
    stored_transition = λ i. none;
  })

  pub start-IsRecoverable : (now : ℕ) (m : M) → IsRecoverable services (start now m)
  start-IsRecoverable now m = (
    record {
      alone = refl;
      number_stored = refl;
      transitions_stored = tt;
      count_stored = refl;
      next = refl;
    },
    inr (record { no_last_transition = refl; first_block = refl; no_transactions = refl }),
  )

  -- What a call returned, and the state that it left
  pub through :
      {A : Type 0} (r r' : Reply A × Aggregator M S E)
      → r ≡ r'
      → IsRecoverable services r'.1
      → IsRecoverable services r.1
  through r r' e k = subst (λ x. IsRecoverable services x.1) (sym e) k
