-- ===== src/Unipig/Submitter/Order.antt =====
-- The order in which the block submitter of
-- packages/unipig/src/aggregator/rollup-block-submitter.ts sends what is queued.
use mathlib.Core.List.{append_assoc, append-nil}
use pigi.Prelude.{ℕ, ◌≤◌, ◌≡◌, sym, ◌∙◌, true, List, [], ◌∷◌, ◌++◌, map, arith, ap}
use pigi.Unipig.Submitter.{
  Codec, RollupBlock, Submitter, state_after, serialize_for_submission, handle_new_rollup_block,
}
use pigi.Unipig.Submitter.Invariant.{IsValid, Rises, Rises-le, handle_new_rollup_block-IsValid}

module _ {T E : Type 0} (codec : Codec T E) where
  -- What the contract is sent of a block, with its number.
  abbrev pub wire : RollupBlock T → ℕ × List E
  wire b = (b.block_number, serialize_for_submission codec b)

  -- Every queued block confirmed in turn, where the contract accepts what it is sent.
  pub confirm_all : List (RollupBlock T) → Submitter T E → Submitter T E
  confirm_all [] s = s
  confirm_all (b ∷ bs) s =
      confirm_all bs (state_after (handle_new_rollup_block codec true b.block_number s))

  -- A confirmation of the block in flight sends the next one.
  next_sent :
      (b c : RollupBlock T) (rest : List (RollupBlock T)) (s : Submitter T E)
      → s.block_queue ≡ b ∷ c ∷ rest
      → s.last_submitted ≡ b.block_number
      → IsValid codec s
      → let s' = state_after (handle_new_rollup_block codec true b.block_number s) in
        (s'.block_queue ≡ c ∷ rest)
        × (s'.last_submitted ≡ c.block_number)
        × (s'.last_queued ≡ s.last_queued)
        × (s'.sent ≡ s.sent ++ wire c ∷ [])
  unfolding handle_new_rollup_block
  next_sent b c rest s q l v =
      let r : Rises s.last_confirmed (b ∷ c ∷ rest) s.last_queued = rw q at v.queue_rises in
      let above : c.block_number ≤ s.last_queued =
        Rises-le c.block_number s.last_queued rest r.1.1 in
      ground arith

  last_sent :
      (b : RollupBlock T) (s : Submitter T E)
      → s.block_queue ≡ b ∷ []
      → s.last_submitted ≡ b.block_number
      → IsValid codec s
      → let s' = state_after (handle_new_rollup_block codec true b.block_number s) in
        (s'.block_queue ≡ [])
        × (s'.last_submitted ≡ s.last_submitted)
        × (s'.last_confirmed ≡ b.block_number)
        × (s'.last_queued ≡ s.last_queued)
        × (s'.sent ≡ s.sent)
  unfolding handle_new_rollup_block
  last_sent b s q l v =
      let r : Rises s.last_confirmed (b ∷ []) s.last_queued = rw q at v.queue_rises in ground arith

  -- From a valid state with its first queued block in flight, confirming the queued blocks in turn
  -- sends each later one exactly once and in order, and leaves the queue empty with everything
  -- submitted and confirmed, if the contract accepts what it is sent.
  pub confirm_all_lem :
      (rest : List (RollupBlock T)) (b : RollupBlock T) (s : Submitter T E)
      → s.block_queue ≡ b ∷ rest
      → s.last_submitted ≡ b.block_number
      → IsValid codec s
      → let s' = confirm_all (b ∷ rest) s in
        (s'.block_queue ≡ [])
        × (s'.last_confirmed ≡ s.last_queued)
        × (s'.last_submitted ≡ s.last_queued)
        × (s'.sent ≡ s.sent ++ map wire rest)
  unfolding confirm_all
  confirm_all_lem [] b s q l v =
      let (empty, submitted, confirmed, queued, sent) = last_sent b s q l v in
      let r : Rises s.last_confirmed (b ∷ []) s.last_queued = rw q at v.queue_rises in
      (empty, confirmed ∙ r.1, submitted ∙ l ∙ r.1, sent ∙ sym (append-nil s.sent))
  confirm_all_lem (c ∷ rest) b s q l v =
      let s' = state_after (handle_new_rollup_block codec true b.block_number s) in
      let (queue, submitted, queued, sent) = next_sent b c rest s q l v in
      let (empty, confirmed, all, order) =
        confirm_all_lem rest c s' queue submitted
          (handle_new_rollup_block-IsValid codec true b.block_number s v) in
      (
        empty,
        confirmed ∙ queued,
        all ∙ queued,
        order
            ∙ ap (λ l. l ++ map wire rest) sent
            ∙ append_assoc s.sent (wire c ∷ []) (map wire rest),
      )
