-- ===== src/Unipig/Submitter/Acceptance.antt =====
-- The block submitter of packages/unipig/src/aggregator/rollup-block-submitter.ts while the contract
-- accepts what it is sent.
use pigi.Prelude.{
  ℕ, ◌+◌, ◌≡◌, refl, ◌∙◌, ◌==◌, true, false, List, [], ◌∷◌, arith, Bool-cases, inl, inr, ltb, leb,
  ◌||◌, if◌then◌else◌,
}
use pigi.Unipig.Submitter.{
  Codec, RollupBlock, Submitter, Ended, returned, threw, submit_head, try_submit_next_block,
  queue_block, submit_block, confirm_head, handle_new_rollup_block,
}

module _ {T E : Type 0} (codec : Codec T E) where
  -- A call ended without an error, with the last queued block and the stored blocks of `s`.
  abbrev pub Keeps : Submitter T E → Ended (Submitter T E) → Type 0
  Keeps s (threw s') = ⊥
  Keeps s (returned s') =
      (s'.last_queued ≡ s.last_queued) × (s'.db.stored_block ≡ s.db.stored_block)

  submit_head-Keeps : (b : RollupBlock T) (s : Submitter T E) → Keeps s (submit_head codec true b s)
  unfolding submit_head
  submit_head-Keeps b s = (refl, refl)

  pub try_submit_next_block-Keeps :
      (s : Submitter T E) → Keeps s (try_submit_next_block codec true s)
  unfolding try_submit_next_block
  try_submit_next_block-Keeps s =
      elim (Bool-cases
        (ltb s.last_confirmed s.last_submitted || leb s.last_queued s.last_submitted)) [
          | inl wait ↦ rw wait (refl, refl)
          | inr go ↦ rw go (at s.block_queue)
        ]
    where
      at :
          (q : List (RollupBlock T))
          → Keeps s (elim q [ [] ↦ returned s | b ∷ bs ↦ submit_head codec true b s ])
      at [] = (refl, refl)
      at (b ∷ bs) = submit_head-Keeps b s

  confirm_head_keeps :
      (n : ℕ) (rest : List (RollupBlock T)) (s : Submitter T E)
      → ((confirm_head n rest s).last_queued ≡ s.last_queued)
        × ((confirm_head n rest s).db.stored_block ≡ s.db.stored_block)
  unfolding confirm_head
  confirm_head_keeps n rest s = elim (Bool-cases (ltb s.last_submitted n)) [
    | inl behind ↦ rw behind (refl, refl)
    | inr caught_up ↦ rw caught_up (refl, refl)
  ]

  Keeps-through :
      (s t : Submitter T E)
      → (t.last_queued ≡ s.last_queued) × (t.db.stored_block ≡ s.db.stored_block)
      → (r : Ended (Submitter T E)) → Keeps t r
      → Keeps s r
  Keeps-through s t e (threw x) k = k
  Keeps-through s t e (returned x) k = (k.0 ∙ e.0, k.1 ∙ e.1)

  -- A confirmation that is answered keeps the last queued block and the stored blocks.
  pub handle_new_rollup_block-Keeps :
      (n : ℕ) (s : Submitter T E) → Keeps s (handle_new_rollup_block codec true n s)
  unfolding handle_new_rollup_block confirm_head
  handle_new_rollup_block-Keeps n s = at s.block_queue
    where
      at :
          (q : List (RollupBlock T))
          → Keeps s (elim q [
            | [] ↦ returned s
            | b ∷ rest ↦
                if n == b.block_number
                then try_submit_next_block codec true (confirm_head n rest s)
                else returned s
          ])
      at [] = (refl, refl)
      at (b ∷ rest) = elim (Bool-cases (n == b.block_number)) [
        | inl same ↦ rw same (
            Keeps-through s (confirm_head n rest s) (confirm_head_keeps n rest s)
              (try_submit_next_block codec true (confirm_head n rest s))
              (try_submit_next_block-Keeps (confirm_head n rest s)))
        | inr other ↦ rw other (refl, refl)
      ]

  pub submit_block-accepted :
      (b : RollupBlock T) (s : Submitter T E)
      → b.block_number ≡ s.last_queued + 1
      → (s' : Submitter T E) × (submit_block codec true b s ≡ returned s')
        × (s'.last_queued ≡ b.block_number)
        × (s'.db.stored_block ≡ (queue_block codec b s).db.stored_block)
  unfolding submit_block queue_block
  submit_block-accepted b s e =
      let new : leb b.block_number s.last_queued ≡ false = ground arith in
      rw new (
        at (try_submit_next_block codec true (queue_block codec b s)) refl
          (try_submit_next_block-Keeps (queue_block codec b s)))
    where
      at :
          (r : Ended (Submitter T E))
          → try_submit_next_block codec true (queue_block codec b s) ≡ r
          → Keeps (queue_block codec b s) r
          → (s' : Submitter T E) × (try_submit_next_block codec true (queue_block codec b s)
              ≡ returned s')
            × (s'.last_queued ≡ b.block_number)
            × (s'.db.stored_block ≡ (queue_block codec b s).db.stored_block)
      at (threw x) f k = absurd k
      at (returned x) f k = (x, f, k.0, k.1)
