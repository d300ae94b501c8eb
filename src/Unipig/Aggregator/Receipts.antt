-- ===== src/Unipig/Aggregator/Receipts.antt =====
-- What packages/unipig/src/aggregator/rollup-aggregator.ts answers, whether or not the contract accepts
-- what it is sent.
use pigi.Prelude.{
  ℕ, ◌+◌, ◌≡◌, refl, ap, ◌∙◌, subst, Bool, true, false, not, Option, none, some, List, [], ◌∷◌,
  length, ◌==◌, if◌then◌else◌, arith, Bool-cases, Option-cases, inl, inr, length-append, leb, ltb,
  All,
}
use pigi.Unipig.Submitter.{Ended, returned, threw, Submitter, state_after, submit_block}
use pigi.Unipig.Validator.{RollupTransition}
use pigi.Unipig.Types.{
  uniswap_address, RollupTransaction, swap_transaction, transfer_transaction, faucet_transaction,
  Result, ok, err, type_error,
}
use pigi.Unipig.Effects.{SignedTransaction, StateUpdate}
use pigi.Unipig.Aggregator.{
  Aggregator, Services, SignedStateReceipt, Reply, replied, failed, AggregatorError,
  state_machine_error, not_synced, record_updates, apply_transaction, add_to_pending_block, respond,
  signed, submit_if_full, submit_aggregated_block, submit_pending_block,
  set_block_submission_timeout, push_transfers, push_transition, save_last_transition,
  get_transfer_transition, get_swap_transition, increment_tx_count,
}

module _ {M S E : Type 0} (services : Services M S E) where
  abbrev with_machine : M → Aggregator M S E → Aggregator M S E
  with_machine m s = record s { rollup_state_machine = m }

  -- A receipt for the next transition of the pending block
  abbrev pub IsNext : Aggregator M S E → SignedStateReceipt S → Type 0
  IsNext s r =
      (r.state_receipt.block_number ≡ s.pending_block.block_number)
      × (r.state_receipt.transition_index ≡ length s.pending_block.transitions + 1)
      × (r.signature ≡ services.sign_state_receipt r.state_receipt)

  -- What an answer says of the aggregator before and after it; an error of the state machine may have
  -- changed the machine. `type_error` is left out.
  abbrev pub IsTrue :
      Aggregator M S E → Reply (List (SignedStateReceipt S)) × Aggregator M S E → Type 0
  IsTrue s (replied rs, s') =
      (s.synced ≡ true) × (s'.transaction_count ≡ s.transaction_count + 1) × All (IsNext s) rs
  IsTrue s (failed (state_machine_error type_error), s') = Unit
  IsTrue s (failed e, s') = s' ≡ with_machine s'.rollup_state_machine s

  respond-IsNext :
      (s : Aggregator M S E) (u : StateUpdate ℕ S) (b i : ℕ)
      → b ≡ s.pending_block.block_number
      → i ≡ length s.pending_block.transitions + 1
      → All (IsNext s) (respond services u b i)
  unfolding respond signed
  respond-IsNext s u b i e f = elim (Bool-cases (u.receiver_state.pubkey == uniswap_address)) [
    | inl same ↦ rw same ((e, f, refl), tt)
    | inr other ↦ rw other ((e, f, refl), ((e, f, refl), tt))
  ]

  submit_pending_block-count :
      (accepts : Bool) (now : ℕ) (s : Aggregator M S E)
      → (state_after (submit_pending_block services accepts now s)).transaction_count
        ≡ s.transaction_count
  unfolding submit_pending_block set_block_submission_timeout
  submit_pending_block-count accepts now s =
      at (submit_block services.codec accepts s.pending_block s.rollup_block_submitter) refl
    where
      at :
          (r : Ended (Submitter (RollupTransition S) E))
          → submit_block services.codec accepts s.pending_block s.rollup_block_submitter ≡ r
          → (state_after (submit_pending_block services accepts now s)).transaction_count
            ≡ s.transaction_count
      at (threw q) e = ground (arith, e)
      at (returned q) e = ground (arith, e)

  submit_if_full-count :
      (accepts : Bool) (now : ℕ) (s : Aggregator M S E)
      → (submit_if_full services accepts now s).transaction_count ≡ s.transaction_count
  unfolding submit_if_full submit_aggregated_block
  submit_if_full-count accepts now s =
      let sent = submit_pending_block-count accepts now s in
      elim (Bool-cases
        (leb services.block_submission_transition_count (length s.pending_block.transitions))) [
          | inr partial ↦ rw partial refl
          | inl full ↦
              let not_less : ltb (length s.pending_block.transitions)
                    services.block_submission_transition_count
                  ≡ false =
                ground (arith, full) in
              rw (full, not_less) sent
        ]

  add_to_pending_block-one :
      (u : StateUpdate ℕ S) (tx : SignedTransaction S) (s s' : Aggregator M S E)
      → add_to_pending_block services (u ∷ []) tx s ≡ some s'
      → (s'.pending_block.block_number ≡ s.pending_block.block_number)
        × (length s'.pending_block.transitions ≡ length s.pending_block.transitions + 1)
        × (s'.transaction_count ≡ s.transaction_count)
  unfolding add_to_pending_block push_transfers push_transition save_last_transition
  add_to_pending_block-one u tx s s' h = at tx.transaction refl
    where
      after :
          (t : RollupTransition S)
          → save_last_transition services (push_transition services t s) ≡ s'
          → (s'.pending_block.block_number ≡ s.pending_block.block_number)
            × (length s'.pending_block.transitions ≡ length s.pending_block.transitions + 1)
            × (s'.transaction_count ≡ s.transaction_count)
      after t e =
          subst
            (λ x.
              (x.pending_block.block_number ≡ s.pending_block.block_number)
              × (length x.pending_block.transitions ≡ length s.pending_block.transitions + 1)
              × (x.transaction_count ≡ s.transaction_count))
            e (refl, length-append s.pending_block.transitions (t ∷ []), refl)

      transfer :
          add_to_pending_block services (u ∷ []) tx s ≡ elim (push_transfers services (u ∷ []) s) [
            | none ↦ none
            | some x ↦ some (save_last_transition services x)
          ]
          → (s'.pending_block.block_number ≡ s.pending_block.block_number)
            × (length s'.pending_block.transitions ≡ length s.pending_block.transitions + 1)
            × (s'.transaction_count ≡ s.transaction_count)
      transfer e = elim (Option-cases (get_transfer_transition u)) [
        | inl missing ↦ absurd (ground (arith, h, e, missing))
        | inr (t, made) ↦ after t (ground (arith, h, e, made))
      ]

      at :
          (w : RollupTransaction)
          → tx.transaction ≡ w
          → (s'.pending_block.block_number ≡ s.pending_block.block_number)
            × (length s'.pending_block.transitions ≡ length s.pending_block.transitions + 1)
            × (s'.transaction_count ≡ s.transaction_count)
      at (swap_transaction w) e =
          after (get_swap_transition w tx.signature u) (ground (arith, h, e))
      at (transfer_transaction t) e = transfer (ground (arith, e))
      at (faucet_transaction f) e = transfer (ground (arith, e))

  untouched :
      (x : AggregatorError) (s s' : Aggregator M S E)
      → s' ≡ with_machine s'.rollup_state_machine s
      → IsTrue s (failed x, s')
  untouched (state_machine_error type_error) s s' h = tt
  untouched (state_machine_error x) s s' h = h
  untouched x s s' h = h

  record_updates-IsTrue :
      (accepts : Bool) (now : ℕ) (u : StateUpdate ℕ S) (tx : SignedTransaction S) (m : M)
      (s : Aggregator M S E)
      → s.synced ≡ true
      → IsTrue s (record_updates services accepts now (u ∷ []) u tx (with_machine m s))
  unfolding record_updates increment_tx_count
  record_updates-IsTrue accepts now u tx m s e =
      at (add_to_pending_block services (u ∷ []) tx (with_machine m s)) refl
    where
      at :
          (o : Option (Aggregator M S E))
          → add_to_pending_block services (u ∷ []) tx (with_machine m s) ≡ o
          → IsTrue s (elim o [
            | none ↦ (failed (state_machine_error type_error), with_machine m s)
            | some added ↦ (
              replied (
                  respond services u added.pending_block.block_number
                    (length added.pending_block.transitions)),
              increment_tx_count services (submit_if_full services accepts now added),
            )
          ])
      at none f = tt
      at (some added) f =
          let (number, index, count) = add_to_pending_block-one u tx (with_machine m s) added f in
          (
            e,
            ap (λ x. x + 1) (submit_if_full-count accepts now added ∙ count),
            respond-IsNext s u added.pending_block.block_number
                (length added.pending_block.transitions) number index,
          )

  -- Whether or not the contract accepts the block that this fills: an answer to a transaction is given
  -- when the aggregator is synced, it is counted, and its receipts are signed and say the number of the
  -- pending block and the place of the next transition in it; an error, but for a `TypeError`, leaves
  -- all but the state machine as it was.
  pub apply_transaction-IsTrue :
      (accepts : Bool) (now : ℕ) (tx : SignedTransaction S) (s : Aggregator M S E)
      → IsTrue s (apply_transaction services accepts now tx s)
  unfolding apply_transaction
  apply_transaction-IsTrue accepts now tx s =
      at s.synced refl (services.state_machine.apply_transaction tx s.rollup_state_machine)
    where
      at :
          (b : Bool)
          → s.synced ≡ b
          → (r : Result (StateUpdate ℕ S) × M)
          → IsTrue s (
              if not b then (failed not_synced, s) else elim r.0 [
                | err x ↦ (failed (state_machine_error x), with_machine r.1 s)
                | ok u ↦ record_updates services accepts now (u ∷ []) u tx (with_machine r.1 s)
              ])
      at false e r = refl
      at true e (ok u, m) = record_updates-IsTrue accepts now u tx m s e
      at true e (err x, m) = untouched (state_machine_error x) s (with_machine m s) refl
