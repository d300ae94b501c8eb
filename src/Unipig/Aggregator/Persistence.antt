-- ===== src/Unipig/Aggregator/Persistence.antt =====
-- What the database of packages/unipig/src/aggregator/rollup-aggregator.ts holds of the pending block.
use pigi.Prelude.{
  ℕ, ◌+◌, ◌*◌, ◌/◌, ◌≡◌, refl, sym, ap, subst, Bool, false, Option, none, some, List, [], ◌∷◌, ◌++◌,
  length, ◌==◌, if◌then◌else◌, arith, Option-cases, inl, inr, ◌⊎◌,
}
use pigi.Unipig.Effects.{SignedTransaction, StateUpdate}
use pigi.Unipig.Types.{
  RollupTransaction, swap_transaction, transfer_transaction, faucet_transaction,
}
use pigi.Unipig.Submitter.{RollupBlock, or_zero}
use pigi.Unipig.Validator.{RollupTransition}
use pigi.Unipig.Aggregator.{
  Aggregator, AggregatorDb, Services, or_one, push_transition, push_transfers, save_last_transition,
  add_to_pending_block, load_transitions, get_transfer_transition, get_swap_transition,
}

module _ {M S E : Type 0} (services : Services M S E) where
  -- The database has the transitions under the keys from `i` on.
  abbrev pub AreStored : (ℕ → Option E) → ℕ → List (RollupTransition S) → Type 0
  AreStored stored i [] = Unit
  AreStored stored i (t ∷ ts) =
      (stored i ≡ some (services.codec.encode t)) × AreStored stored (i + 1) ts

  pub load_transitions-AreStored :
      (db : AggregatorDb E) (i : ℕ) (ts : List (RollupTransition S))
      → AreStored db.stored_transition i ts
      → load_transitions services db i (length ts) ≡ some ts
  unfolding load_transitions
  load_transitions-AreStored db i [] h = refl
  load_transitions-AreStored db i (t ∷ ts) h =
      ground
        (arith, h.0, services.codec.decode-encode t, load_transitions-AreStored db (i + 1) ts h.1)

  -- One more transition, stored behind the others.
  pub AreStored-push :
      (stored : ℕ → Option E) (i n : ℕ) (ts : List (RollupTransition S)) (t : RollupTransition S)
      → i + length ts ≡ n
      → AreStored stored i ts
      → AreStored
          (λ j. if j == n then some (services.codec.encode t) else stored j)
          i
          (ts ++ t ∷ [])
  AreStored-push stored i n [] t e h = (ground arith, tt)
  AreStored-push stored i n (u ∷ us) t e h =
      (ground (arith, h.0), AreStored-push stored (i + 1) n us t (omega arith) h.1)

  -- The pending block is in the database, but for the number of its transitions, and is no object of
  -- the submitter's; the stored count of transactions is the last multiple of 7.
  pub record Kept (queued : Bool) (db : AggregatorDb E) (block : RollupBlock (RollupTransition S))
      (count last_queued : ℕ) : Type 0 where
    pub alone : queued ≡ false
    pub number_stored : or_one db.stored_pending_block ≡ block.block_number
    pub transitions_stored : AreStored db.stored_transition 1 block.transitions
    pub count_stored : or_zero db.stored_tx_count ≡ 7 * (count / 7)
    pub next : block.block_number ≡ last_queued + 1

  abbrev pub IsKept : Aggregator M S E → Type 0
  IsKept s =
      Kept s.pending_is_queued s.db s.pending_block s.transaction_count
        s.rollup_block_submitter.last_queued

  -- The number of the transitions is in the database too.
  abbrev pub IsSaved : Aggregator M S E → Type 0
  IsSaved s = s.db.stored_last_transition ≡ some (length s.pending_block.transitions)

  abbrev pub IsReady : Aggregator M S E → Type 0
  IsReady s = IsKept s × IsSaved s

  -- Nothing has been saved yet.
  pub record Unused (db : AggregatorDb E) (block : RollupBlock (RollupTransition S)) (count : ℕ)
      : Type 0 where
    pub no_last_transition : db.stored_last_transition ≡ none
    pub first_block : block ≡ record { block_number = 1; transitions = [] }
    pub no_transactions : count ≡ 0

  -- What a restart needs.
  abbrev pub IsRecoverable : Aggregator M S E → Type 0
  IsRecoverable s = IsKept s × (IsSaved s ⊎ Unused s.db s.pending_block s.transaction_count)

  pub push_transition-IsKept :
      (t : RollupTransition S) (s : Aggregator M S E)
      → IsKept s
      → IsKept (push_transition services t s)
  unfolding push_transition
  push_transition-IsKept t s k = record {
    alone = k.alone;
    number_stored = k.number_stored;
    transitions_stored =
        AreStored-push s.db.stored_transition 1 (length s.pending_block.transitions + 1)
          s.pending_block.transitions t (omega arith) k.transitions_stored;
    count_stored = k.count_stored;
    next = ground (arith, k.alone, k.next);
  }

  pub push_transfers-IsKept :
      (us : List (StateUpdate ℕ S)) (s s' : Aggregator M S E)
      → push_transfers services us s ≡ some s'
      → IsKept s
      → IsKept s' × (s'.transaction_count ≡ s.transaction_count)
  unfolding push_transfers
  push_transfers-IsKept [] s s' h k =
      let e : s ≡ s' = ground (arith, h) in
      (subst IsKept e k, ap (λ x. x.transaction_count) (sym e))
  push_transfers-IsKept (u ∷ us) s s' h k = elim (Option-cases (get_transfer_transition u)) [
    | inl e ↦ absurd (ground (arith, h, e))
    | inr (t, e) ↦
        push_transfers-IsKept us (push_transition services t s) s' (ground (arith, h, e))
          (push_transition-IsKept t s k)
  ]

  pub save_last_transition-IsReady :
      (s : Aggregator M S E) → IsKept s → IsReady (save_last_transition services s)
  unfolding save_last_transition
  save_last_transition-IsReady s k = (
    record {
      alone = k.alone;
      number_stored = k.number_stored;
      transitions_stored = k.transitions_stored;
      count_stored = k.count_stored;
      next = k.next;
    },
    refl,
  )

  -- What is pushed for updates leaves the aggregator ready.
  pub add_to_pending_block-IsReady :
      (us : List (StateUpdate ℕ S)) (tx : SignedTransaction S) (s s' : Aggregator M S E)
      → add_to_pending_block services us tx s ≡ some s'
      → IsKept s
      → IsReady s'
  unfolding add_to_pending_block
  add_to_pending_block-IsReady us tx s s' h k = at tx.transaction refl
    where
      transfers :
          (o : Option (Aggregator M S E))
          → push_transfers services us s ≡ o
          → ◌≡◌ {A = Option (Aggregator M S E)}
              (elim o [ none ↦ none | some x ↦ some (save_last_transition services x) ])
              (some s')
          → IsReady s'
      transfers none e g = cc
      transfers (some x) e g =
          let q : save_last_transition services x ≡ s' = ground (arith, g) in
          subst IsReady q (save_last_transition-IsReady x (push_transfers-IsKept us s x e k).0)

      at : (w : RollupTransaction) → tx.transaction ≡ w → IsReady s'
      at (transfer_transaction t) e =
          transfers (push_transfers services us s) refl (ground (arith, h, e))
      at (faucet_transaction f) e =
          transfers (push_transfers services us s) refl (ground (arith, h, e))
      at (swap_transaction w) e = swap us refl
        where
          swap : (vs : List (StateUpdate ℕ S)) → us ≡ vs → IsReady s'
          swap [] f = absurd (ground (arith, h, e, f))
          swap (u ∷ vs) f =
              let q : save_last_transition services
                    (push_transition services (get_swap_transition w tx.signature u) s)
                  ≡ s' =
                ground (arith, h, e, f) in
              subst IsReady q (
                save_last_transition-IsReady
                  (push_transition services (get_swap_transition w tx.signature u) s)
                  (push_transition-IsKept (get_swap_transition w tx.signature u) s k))
