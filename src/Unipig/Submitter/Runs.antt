-- ===== src/Unipig/Submitter/Runs.antt =====
-- Sequences of calls on the block submitter of
-- packages/unipig/src/aggregator/rollup-block-submitter.ts, from an empty database.
use pigi.Prelude.{
  ℕ, ◌+◌, ◌≤◌, ◌≡◌, refl, subst, sym, inl, inr, Bool, none, some, List, [], ◌∷◌, arith, Bool-cases,
  ltb, leb, ◌==◌, if◌then◌else◌, ==_iff,
}
use pigi.Unipig.Submitter.{
  Codec, RollupBlock, Submitter, returned, state_after, populate, submit_head,
  try_submit_next_block, queue_block, submit_block, confirm_head, handle_new_rollup_block,
}
use pigi.Unipig.Submitter.Invariant.{IsValid, submit_block-IsValid, handle_new_rollup_block-IsValid}
use pigi.Unipig.Submitter.Recovery.{FollowOn, FollowOn-append, populate-IsValid}

-- What calls a submitter can get: a block, or the number of a confirmed block, each with whether
-- the contract accepts the block that is submitted then.
pub data Call (T : Type 0) : Type 0 where
  submit : Bool → RollupBlock T → Call T
  confirm : Bool → ℕ → Call T

module _ {T E : Type 0} (codec : Codec T E) where
  -- A fresh submitter over an empty database.
  abbrev pub fresh : Submitter T E
  fresh = record {
    last_submitted = 0;
    last_confirmed = 0;
    last_queued = 0;
    block_queue = [];
    db = record {
      stored_confirmed = none;
      stored_submitted = none;
      stored_queued = none;
      stored_block = λ n. none;
    };
    sent = [];
  }

  abbrev pub answer : Call T → Submitter T E → Submitter T E
  answer (submit accepts b) s = state_after (submit_block codec accepts b s)
  answer (confirm accepts n) s = state_after (handle_new_rollup_block codec accepts n s)

  -- The calls one after another; an error ends only its own call.
  unfoldable pub run : List (Call T) → Submitter T E → Submitter T E
  run [] s = s
  run (c ∷ cs) s = run cs (answer c s)

  fresh-IsValid : IsValid codec fresh
  fresh-IsValid = record {
    queue_rises = refl;
    in_flight = inl refl;
    confirmed_stored = refl;
    submitted_stored = refl;
    queued_stored = refl;
    blocks_stored = tt;
    sent_rises = omega arith;
  }

  answer-IsValid : (c : Call T) (s : Submitter T E) → IsValid codec s → IsValid codec (answer c s)
  answer-IsValid (submit accepts b) s v = submit_block-IsValid codec accepts b s v
  answer-IsValid (confirm accepts n) s v = handle_new_rollup_block-IsValid codec accepts n s v

  kept_by_run :
      (cs : List (Call T)) (s : Submitter T E) → IsValid codec s → IsValid codec (run cs s)
  unfolding run
  kept_by_run [] s v = v
  kept_by_run (c ∷ cs) s v = kept_by_run cs (answer c s) (answer-IsValid c s v)

  -- After any calls on a fresh submitter the invariant holds: the queue runs from the last
  -- confirmed block to the last queued one with rising numbers, at most its first block is
  -- submitted and not confirmed, the database has the three numbers and the queued blocks, and the
  -- numbers of the blocks that the contract has accepted rise strictly, so none was accepted twice.
  pub run-IsValid : (cs : List (Call T)) → IsValid codec (run cs fresh)
  run-IsValid cs = kept_by_run cs fresh fresh-IsValid

  -- Each new block carries at most the number after the last queued one.
  abbrev pub IsNext : Call T → Submitter T E → Type 0
  IsNext (submit accepts b) s = b.block_number ≤ s.last_queued + 1
  IsNext (confirm accepts n) s = Unit

  abbrev pub InSequence : List (Call T) → Submitter T E → Type 0
  InSequence [] s = Unit
  InSequence (c ∷ cs) s = IsNext c s × InSequence cs (answer c s)

  abbrev Follows : Submitter T E → Type 0
  Follows s = FollowOn s.last_confirmed s.block_queue s.last_queued

  try_submit_next_block-Follows :
      (accepts : Bool) (s : Submitter T E)
      → Follows s
      → Follows (state_after (try_submit_next_block codec accepts s))
  unfolding try_submit_next_block submit_head
  try_submit_next_block-Follows accepts s f = ground arith

  queue_block-Follows :
      (b : RollupBlock T) (s : Submitter T E)
      → b.block_number ≡ s.last_queued + 1
      → Follows s
      → Follows (queue_block codec b s)
  unfolding queue_block
  queue_block-Follows b s e f = FollowOn-append s.last_confirmed s.last_queued s.block_queue b f e

  confirm_head-Follows :
      (n : ℕ) (b : RollupBlock T) (rest : List (RollupBlock T)) (s : Submitter T E)
      → n ≡ b.block_number
      → s.block_queue ≡ b ∷ rest
      → Follows s
      → Follows (confirm_head n rest s)
  unfolding confirm_head
  confirm_head-Follows n b rest s e q f =
      let g : FollowOn s.last_confirmed (b ∷ rest) s.last_queued = rw q at f in
      let k : FollowOn n rest s.last_queued =
        subst (λ k. FollowOn k rest s.last_queued) (sym e) g.1 in
      elim (Bool-cases (ltb s.last_submitted n)) [ inl t ↦ rw t k | inr t ↦ rw t k ]

  answer-Follows : (c : Call T) (s : Submitter T E) → IsNext c s → Follows s → Follows (answer c s)
  unfolding submit_block handle_new_rollup_block
  answer-Follows (submit accepts b) s n f = elim (Bool-cases (leb b.block_number s.last_queued)) [
    | inl old ↦ rw old f
    | inr new ↦ rw new (
        try_submit_next_block-Follows accepts (queue_block codec b s)
          (queue_block-Follows b s (ground arith) f))
  ]
  answer-Follows (confirm accepts n) s u f = at s.block_queue refl
    where
      at :
          (q : List (RollupBlock T))
          → s.block_queue ≡ q
          → Follows (
              state_after (elim q [
                | [] ↦ returned s
                | b ∷ rest ↦
                    if n == b.block_number
                    then try_submit_next_block codec accepts (confirm_head n rest s)
                    else returned s
              ]))
      at [] e = f
      at (b ∷ rest) e = elim (Bool-cases (n == b.block_number)) [
        | inl same ↦ rw same (
            try_submit_next_block-Follows accepts (confirm_head n rest s)
              (confirm_head-Follows n b rest s ((==_iff n b.block_number).0 same) e f))
        | inr other ↦ rw other f
      ]

  run-Follows :
      (cs : List (Call T)) (s : Submitter T E) → InSequence cs s → Follows s → Follows (run cs s)
  unfolding run
  run-Follows [] s i f = f
  run-Follows (c ∷ cs) s i f = run-Follows cs (answer c s) i.1 (answer-Follows c s i.0 f)

  -- After any calls on a fresh submitter in which each new block carries the number after the last
  -- queued one, `populate` restores from the database the submitter as it was, its queue included.
  pub populate-run :
      (cs : List (Call T))
      → InSequence cs fresh
      → populate codec (run cs fresh).db (run cs fresh).sent ≡ some (run cs fresh)
  populate-run cs i =
      populate-IsValid codec (run cs fresh) (run-IsValid cs) (run-Follows cs fresh i refl)
