-- ===== src/Unipig/Submitter/Restart.antt =====
-- What `create` with `init` of packages/unipig/src/aggregator/rollup-block-submitter.ts does on the
-- database that calls have left.
use pigi.Prelude.{
  ◌≡◌, refl, sym, ap, ◌⊎◌, inl, inr, subst, ◌&&◌, Bool, true, false, Option, none, some, List, [],
  ◌∷◌, ◌++◌, arith, if◌then◌else◌, ◌==◌,
}
use pigi.Unipig.Submitter.{
  Codec, RollupBlock, Submitter, returned, threw, submit_head, try_submit_next_block, init,
}
use pigi.Unipig.Submitter.Invariant.{IsValid, Rises, Rises-le, HeadIs}
use pigi.Unipig.Submitter.Order.{wire}
use pigi.Unipig.Submitter.Runs.{Call, fresh, run, run-IsValid, InSequence, populate-run}

module _ {T E : Type 0} (codec : Codec T E) where
  -- Nothing is to be sent: the queue is empty, or its first block is submitted and not confirmed.
  abbrev pub IsSettled : Submitter T E → Type 0
  IsSettled s = (s.block_queue ≡ []) ⊎ HeadIs s.last_submitted s.block_queue

  -- The submitter, with its first queued block sent.
  abbrev pub with_sent : RollupBlock T → Submitter T E → Submitter T E
  with_sent b s = record s {
    last_submitted = b.block_number;
    db = record s.db { stored_submitted = some b.block_number };
    sent = s.sent ++ wire codec b ∷ [];
  }

  -- What a restart gives, `none` where it rejects.
  abbrev pub Restarts : Bool → Submitter T E → Option (Submitter T E) → Type 0
  Restarts accepts s r =
      (IsSettled s × (r ≡ some s))
      ⊎ ((b : RollupBlock T) × (rest : List (RollupBlock T)) × (s.block_queue ≡ b ∷ rest)
          × (s.last_submitted ≡ s.last_confirmed)
          × (r ≡ (if accepts then some (with_sent b s) else none)))

  abbrev on_populated : Bool → Submitter T E → Option (Submitter T E)
  on_populated accepts s =
      if s.last_submitted == s.last_confirmed && s.last_confirmed == s.last_queued
      then some s
      else elim (try_submit_next_block codec accepts s) [ returned s' ↦ some s' | threw s' ↦ none ]

  on_populated-Restarts :
      (accepts : Bool) (s : Submitter T E)
      → IsValid codec s
      → Restarts accepts s (on_populated accepts s)
  unfolding try_submit_next_block submit_head
  on_populated-Restarts accepts s v = at accepts s.block_queue refl v.queue_rises v.in_flight
    where
      at :
          (a : Bool) (q : List (RollupBlock T))
          → s.block_queue ≡ q
          → Rises s.last_confirmed q s.last_queued
          → (s.last_submitted ≡ s.last_confirmed) ⊎ HeadIs s.last_submitted q
          → Restarts a s (on_populated a s)
      at a [] e r (inl h) = inl (inl e, ground (arith, e, r, h))
      at a [] e r (inr h) = absurd h
      at true (b ∷ rest) e r (inl h) =
          inr (
            b,
            rest,
            e,
            h,
            ground (arith, e, r.0, Rises-le b.block_number s.last_queued rest r.1, h),
          )
      at false (b ∷ rest) e r (inl h) =
          inr (
            b,
            rest,
            e,
            h,
            ground (arith, e, r.0, Rises-le b.block_number s.last_queued rest r.1, h),
          )
      at a (b ∷ rest) e r (inr h) = inl (inr (rw e h), ground (arith, e, r.0, h))

  -- Let calls have run on a fresh submitter, in each of which a new block carried the number after the
  -- last queued one at most. A restart from the database then gives the submitter as it was, its queue
  -- included, where the queue is empty or its first block is in flight. Otherwise, that is where the
  -- contract had refused the first queued block, the restart sends this block: it gives the submitter
  -- with that block sent if the contract accepts it, and rejects if not.
  pub init-Restarts :
      (accepts : Bool) (cs : List (Call T))
      → InSequence codec cs (fresh codec)
      → let s = run codec cs (fresh codec) in Restarts accepts s (init codec accepts s.db s.sent)
  unfolding init
  init-Restarts accepts cs i =
      let s = run codec cs (fresh codec) in
      subst (Restarts accepts s) (sym (ap after (populate-run codec cs i)))
        (on_populated-Restarts accepts s (run-IsValid codec cs))
    where
      after : Option (Submitter T E) → Option (Submitter T E)
      after none = none
      after (some s) = on_populated accepts s
