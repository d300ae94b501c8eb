-- ===== src/Unipig/Aggregator/Entries.antt =====
-- A run of packages/unipig/src/aggregator/rollup-aggregator.ts as a run of the ledger: the calls without
-- blocks, database, queue and timeouts.
use pigi.Prelude.{
  ℕ, ◌≡◌, refl, ap, ◌∙◌, true, none, some, List, [], ◌∷◌, ◌==◌, if◌then◌else◌, arith, Option-cases,
  inl, inr,
}
use pigi.Unipig.Types.{
  FaucetRequest, swap_transaction, transfer_transaction, faucet_transaction, Result, ok, err,
}
use pigi.Unipig.Effects.{SignedTransaction, StateUpdate}
use pigi.Unipig.Aggregator.{
  Aggregator, Services, record_updates, required_signer, apply_transaction, generate_faucet_txs,
  last_update, give_faucet_funds,
}
use pigi.Unipig.Aggregator.Persistence.{IsKept}
use pigi.Unipig.Aggregator.Restart.{
  Call, sync_completed, block_confirmed, transaction, faucet_request, timeout,
}
use pigi.Unipig.Aggregator.Ledger.{Ledger, ledger}
use pigi.Unipig.Aggregator.Recording.{recorded, record_updates-ledger}

module _ {M S E : Type 0} (services : Services M S E) where
  abbrev pub record_transaction : SignedTransaction S → Ledger M E → Ledger M E
  record_transaction tx l =
      let (r, m) = services.state_machine.apply_transaction tx l.machine in
      let applied : Ledger M E = record l { machine = m } in
      elim r [ err e ↦ applied | ok u ↦ recorded services (u ∷ []) tx applied ]

  abbrev pub record_gift : FaucetRequest → SignedTransaction S → Ledger M E → Ledger M E
  record_gift f tx l =
      let (r, m) =
        services.state_machine.apply_transactions (generate_faucet_txs services f.sender f.amount)
          l.machine in
      let applied : Ledger M E = record l { machine = m } in
      elim r [
        | err e ↦ applied
        | ok us ↦ elim (last_update services us) [
          | none ↦ applied
          | some u ↦ recorded services us tx applied
        ]
      ]

  abbrev pub record_faucet_request : SignedTransaction S → Ledger M E → Ledger M E
  record_faucet_request tx l = elim tx.transaction [
    | swap_transaction w ↦ l
    | transfer_transaction t ↦ l
    | faucet_transaction f ↦
        if services.verify_faucet_request tx.transaction tx.signature == required_signer services f
        then record_gift f tx l
        else l
  ]

  abbrev pub record_call : Call S → Ledger M E → Ledger M E
  record_call sync_completed l = record l { synced = true }
  record_call (block_confirmed n) l = l
  record_call (transaction now tx) l = if l.synced then record_transaction tx l else l
  record_call (faucet_request now tx) l = if l.synced then record_faucet_request tx l else l
  record_call (timeout now) l = l

  abbrev pub record_calls : List (Call S) → Ledger M E → Ledger M E
  record_calls [] l = l
  record_calls (c ∷ cs) l = record_calls cs (record_call c l)

  abbrev pub with_machine : M → Aggregator M S E → Aggregator M S E
  with_machine m s = record s { rollup_state_machine = m }

  pub apply_transaction-ledger :
      (now : ℕ) (tx : SignedTransaction S) (s : Aggregator M S E)
      → IsKept services s
      → s.synced ≡ true
      → ledger services (apply_transaction services true now tx s).1
        ≡ record_transaction tx (ledger services s)
  unfolding apply_transaction ledger
  apply_transaction-ledger now tx s k e =
      at (services.state_machine.apply_transaction tx s.rollup_state_machine) refl
    where
      at :
          (r : Result (StateUpdate ℕ S) × M)
          → services.state_machine.apply_transaction tx s.rollup_state_machine ≡ r
          → ledger services (apply_transaction services true now tx s).1 ≡ elim r.0 [
            | err x ↦ ledger services (with_machine r.1 s)
            | ok u ↦ recorded services (u ∷ []) tx (ledger services (with_machine r.1 s))
          ]
      at (err x, m) f =
          let q : (apply_transaction services true now tx s).1 ≡ with_machine m s =
            ground (arith, e, f) in
          ap (ledger services) q
      at (ok u, m) f =
          let q : (apply_transaction services true now tx s).1
              ≡ (record_updates services true now (u ∷ []) u tx (with_machine m s)).1 =
            ground (arith, e, f) in
          ap (ledger services) q
          ∙ record_updates-ledger services now (u ∷ []) u tx (with_machine m s) k

  pub give_faucet_funds-ledger :
      (now : ℕ) (f : FaucetRequest) (tx : SignedTransaction S) (s : Aggregator M S E)
      → IsKept services s
      → ledger services (give_faucet_funds services true now f tx s).1
        ≡ record_gift f tx (ledger services s)
  unfolding give_faucet_funds ledger
  give_faucet_funds-ledger now f tx s k =
      at
        (services.state_machine.apply_transactions (generate_faucet_txs services f.sender f.amount)
          s.rollup_state_machine)
        refl
    where
      at :
          (r : Result (List (StateUpdate ℕ S)) × M)
          → services.state_machine.apply_transactions
              (generate_faucet_txs services f.sender f.amount)
              s.rollup_state_machine
            ≡ r
          → ledger services (give_faucet_funds services true now f tx s).1 ≡ elim r.0 [
            | err x ↦ ledger services (with_machine r.1 s)
            | ok us ↦ elim (last_update services us) [
              | none ↦ ledger services (with_machine r.1 s)
              | some u ↦ recorded services us tx (ledger services (with_machine r.1 s))
            ]
          ]
      at (err x, m) e =
          let q : (give_faucet_funds services true now f tx s).1 ≡ with_machine m s =
            ground (arith, e) in
          ap (ledger services) q
      at (ok us, m) e = elim (Option-cases (last_update services us)) [
        | inl nothing ↦
            let q : (give_faucet_funds services true now f tx s).1 ≡ with_machine m s =
              ground (arith, e, nothing) in
            rw nothing (ap (ledger services) q)
        | inr (u, there) ↦
            let q : (give_faucet_funds services true now f tx s).1
                ≡ (record_updates services true now us u tx (with_machine m s)).1 =
              ground (arith, e, there) in
            rw there (
              ap (ledger services) q
              ∙ record_updates-ledger services now us u tx (with_machine m s) k)
      ]
