-- ===== src/Unipig/Aggregator/Ledger.antt =====
-- What packages/unipig/src/aggregator/rollup-aggregator.ts records, without blocks, database and
-- timeouts: each call's transitions behind those of the calls before it.
use pigi.Prelude.{ℕ, ◌≡◌, refl, sym, ap, ◌∙◌, Bool, Option, none, some, List, [], ◌∷◌, ◌++◌, map}
use mathlib.Core.List.{append-nil, append_assoc}
use pigi.Unipig.Types.{Swap, swap_transaction, transfer_transaction, faucet_transaction}
use pigi.Unipig.Effects.{SignedTransaction, StateUpdate}
use pigi.Unipig.Validator.{RollupTransition}
use pigi.Unipig.Aggregator.{
  Aggregator, Services, push_transition, push_transfers, save_last_transition, add_to_pending_block,
  get_transfer_transition, get_swap_transition, increment_tx_count, set_block_submission_timeout,
}
use pigi.Unipig.Aggregator.Persistence.{
  IsKept, push_transition-IsKept, save_last_transition-IsReady,
}
use pigi.Unipig.Aggregator.Log.{log, log-push_transition}

-- The transitions of one call, from the updates of the state machine; `none` where one cannot be made.
abbrev pub transfers_of : {S : Type 0} → List (StateUpdate ℕ S) → Option (List (RollupTransition S))
transfers_of [] = some []
transfers_of (u ∷ us) = elim (get_transfer_transition u) [
  | none ↦ none
  | some t ↦ elim (transfers_of us) [ none ↦ none | some ts ↦ some (t ∷ ts) ]
]

abbrev pub transitions_of :
    {S : Type 0} → List (StateUpdate ℕ S) → SignedTransaction S → Option (List (RollupTransition S))
transitions_of us tx = elim tx.transaction [
  | swap_transaction w ↦ elim us [
    | [] ↦ none
    | u ∷ vs ↦ some (get_swap_transition w tx.signature u ∷ [])
  ]
  | transfer_transaction t ↦ transfers_of us
  | faucet_transaction f ↦ transfers_of us
]

pub record Ledger (M E : Type 0) : Type 0 where
  pub machine : M
  pub synced : Bool
  pub entries : List E

module _ {M S E : Type 0} (services : Services M S E) where
  unfoldable pub ledger : Aggregator M S E → Ledger M E
  ledger s = record {
    machine = s.rollup_state_machine;
    synced = s.synced;
    entries = log services s;
  }

  abbrev pub add_entries : List (RollupTransition S) → Ledger M E → Ledger M E
  add_entries ts l = record l { entries = l.entries ++ map services.codec.encode ts }

  pub ledger_eq :
      (s s' : Aggregator M S E)
      → s.rollup_state_machine ≡ s'.rollup_state_machine
      → s.synced ≡ s'.synced
      → log services s ≡ log services s'
      → ledger s ≡ ledger s'
  unfolding ledger
  ledger_eq s s' e f g i = record { machine = e i; synced = f i; entries = g i }

  pub add_none : (l : Ledger M E) → add_entries [] l ≡ l
  add_none l = ap (λ es. record l { entries = es }) (append-nil l.entries)

  pub add_twice :
      (t : RollupTransition S) (ts : List (RollupTransition S)) (l : Ledger M E)
      → add_entries ts (add_entries (t ∷ []) l) ≡ add_entries (t ∷ ts) l
  add_twice t ts l =
      ap (λ es. record l { entries = es })
        (append_assoc l.entries (services.codec.encode t ∷ []) (map services.codec.encode ts))

  pub push_transition-ledger :
      (t : RollupTransition S) (s : Aggregator M S E)
      → IsKept services s
      → ledger (push_transition services t s) ≡ add_entries (t ∷ []) (ledger s)
  unfolding ledger push_transition
  push_transition-ledger t s k =
      ap (λ es. record (ledger s) { entries = es }) (log-push_transition services t s k)

  -- What is to become of an aggregator that adds transitions
  abbrev pub Adds :
      Option (List (RollupTransition S)) → Aggregator M S E → Option (Aggregator M S E) → Type 0
  Adds none s o = o ≡ none
  Adds (some ts) s o =
      (s' : Aggregator M S E) × (o ≡ some s')
      × IsKept services s'
      × (ledger s' ≡ add_entries ts (ledger s))

  pub push_transfers-Adds :
      (us : List (StateUpdate ℕ S)) (s : Aggregator M S E)
      → IsKept services s
      → Adds (transfers_of us) s (push_transfers services us s)
  unfolding push_transfers
  push_transfers-Adds [] s k = (s, refl, k, sym (add_none (ledger s)))
  push_transfers-Adds (u ∷ us) s k =
      elim (get_transfer_transition u)
        as (λ o.
          Adds
            (elim o [
              | none ↦ none
              | some t ↦ elim (transfers_of us) [ none ↦ none | some ts ↦ some (t ∷ ts) ]
            ])
            s
            (elim o [
              | none ↦ none
              | some t ↦ push_transfers services us (push_transition services t s)
            ])) [
              | none ↦ refl
              | some t ↦
                  after t (transfers_of us)
                    (push_transfers services us (push_transition services t s))
                    (push_transfers-Adds us (push_transition services t s)
                      (push_transition-IsKept services t s k))
            ]
    where
      after :
          (t : RollupTransition S) (o : Option (List (RollupTransition S)))
          (r : Option (Aggregator M S E))
          → Adds o (push_transition services t s) r
          → Adds (elim o [ none ↦ none | some ts ↦ some (t ∷ ts) ]) s r
      after t none r h = h
      after t (some ts) r (s', e, k', l) = (
        s',
        e,
        k',
        l ∙ ap (add_entries ts) (push_transition-ledger t s k) ∙ add_twice t ts (ledger s),
      )

  pub save_last_transition-ledger :
      (s : Aggregator M S E) → ledger (save_last_transition services s) ≡ ledger s
  unfolding ledger save_last_transition
  save_last_transition-ledger s = refl

  pub set_block_submission_timeout-ledger :
      (n : ℕ) (s : Aggregator M S E) → ledger (set_block_submission_timeout services n s) ≡ ledger s
  unfolding ledger set_block_submission_timeout
  set_block_submission_timeout-ledger n s = refl

  pub increment_tx_count-ledger :
      (s : Aggregator M S E) → ledger (increment_tx_count services s) ≡ ledger s
  unfolding ledger increment_tx_count
  increment_tx_count-ledger s = refl

  pub add_to_pending_block-Adds :
      (us : List (StateUpdate ℕ S)) (tx : SignedTransaction S) (s : Aggregator M S E)
      → IsKept services s
      → Adds (transitions_of us tx) s (add_to_pending_block services us tx s)
  unfolding add_to_pending_block save_last_transition
  add_to_pending_block-Adds us tx s k =
      elim tx.transaction
        as (λ w.
          Adds
            (elim w [
              | swap_transaction w ↦ elim us [
                | [] ↦ none
                | u ∷ vs ↦ some (get_swap_transition w tx.signature u ∷ [])
              ]
              | transfer_transaction t ↦ transfers_of us
              | faucet_transaction f ↦ transfers_of us
            ])
            s
            (elim w [
              | swap_transaction w ↦ elim us [
                | [] ↦ none
                | u ∷ us ↦ some (
                    save_last_transition services
                      (push_transition services (get_swap_transition w tx.signature u) s))
              ]
              | transfer_transaction t ↦ elim (push_transfers services us s) [
                | none ↦ none
                | some s' ↦ some (save_last_transition services s')
              ]
              | faucet_transaction f ↦ elim (push_transfers services us s) [
                | none ↦ none
                | some s' ↦ some (save_last_transition services s')
              ]
            ])) [
              | swap_transaction w ↦ swap us w
              | transfer_transaction t ↦
                  saved (transfers_of us) (push_transfers services us s)
                    (push_transfers-Adds us s k)
              | faucet_transaction f ↦
                  saved (transfers_of us) (push_transfers services us s)
                    (push_transfers-Adds us s k)
            ]
    where
      keeps :
          (ts : List (RollupTransition S)) (s' : Aggregator M S E)
          → IsKept services s'
          → ledger s' ≡ add_entries ts (ledger s)
          → Adds (some ts) s (some (save_last_transition services s'))
      keeps ts s' k' l = (
        save_last_transition services s',
        refl,
        (save_last_transition-IsReady services s' k').0,
        save_last_transition-ledger s' ∙ l,
      )

      swap :
          (vs : List (StateUpdate ℕ S)) (w : Swap)
          → Adds
              (elim vs [ [] ↦ none | u ∷ us ↦ some (get_swap_transition w tx.signature u ∷ []) ])
              s
              (elim vs [
                | [] ↦ none
                | u ∷ us ↦ some (
                    save_last_transition services
                      (push_transition services (get_swap_transition w tx.signature u) s))
              ])
      swap [] w = refl
      swap (u ∷ vs) w =
          let t = get_swap_transition w tx.signature u in
          keeps (t ∷ []) (push_transition services t s) (push_transition-IsKept services t s k)
            (push_transition-ledger t s k)

      saved :
          (o : Option (List (RollupTransition S))) (r : Option (Aggregator M S E))
          → Adds o s r
          → Adds o s (elim r [ none ↦ none | some s' ↦ some (save_last_transition services s') ])
      saved none r h = rw h refl
      saved (some ts) r (s', e, k', l) = rw e (keeps ts s' k' l)
