-- ===== src/Unipig/Aggregator/Log.antt =====
-- The blocks of packages/unipig/src/aggregator/rollup-aggregator.ts as one log of transitions: those of
-- the queued blocks in order, and then those of the pending block.
use pigi.Prelude.{
  ℕ, zero, suc, ◌<◌, ◌≡◌, refl, ap, ◌∙◌, true, none, some, List, [], ◌∷◌, ◌++◌, map, arith,
}
use mathlib.Core.List.{append-nil, append_assoc, map-append}
use pigi.Unipig.Submitter.{
  Codec, RollupBlock, Submitter, returned, queue_block, serialize_for_storage,
}
use pigi.Unipig.Submitter.Acceptance.{submit_block-accepted}
use pigi.Unipig.Validator.{RollupTransition}
use pigi.Unipig.Aggregator.{
  Aggregator, Services, push_transition, submit_pending_block, set_block_submission_timeout,
}
use pigi.Unipig.Aggregator.Persistence.{IsKept}

-- What the blocks with the numbers from 1 to the given one hold in the submitter's database.
abbrev pub published : {T E : Type 0} → Submitter T E → ℕ → List E
published q zero = []
published q (suc n) =
    published q n ++ elim (q.db.stored_block (suc n)) [ none ↦ [] | some b ↦ b.transitions ]

pub published-same :
    {T E : Type 0} (q q' : Submitter T E) (n : ℕ)
    → q'.db.stored_block ≡ q.db.stored_block
    → published q' n ≡ published q n
published-same q q' zero e = refl
published-same q q' (suc n) e =
    let at_n = ap (λ f. f (suc n)) e in ground (arith, at_n, published-same q q' n e)

module _ {T E : Type 0} (codec : Codec T E) where
  published-others :
      (q q' : Submitter T E) (b : RollupBlock T) (n : ℕ)
      → q'.db.stored_block ≡ (queue_block codec b q).db.stored_block
      → n < b.block_number
      → published q' n ≡ published q n
  unfolding queue_block
  published-others q q' b zero e l = refl
  published-others q q' b (suc n) e l =
      let at_n : q'.db.stored_block (suc n) ≡ q.db.stored_block (suc n) =
        ap (λ f. f (suc n)) e ∙ ground arith in
      ground (arith, at_n, published-others q q' b n e)

  -- A queued block comes last.
  published-queued :
      (q q' : Submitter T E) (b : RollupBlock T) (n : ℕ)
      → q'.db.stored_block ≡ (queue_block codec b q).db.stored_block
      → b.block_number ≡ suc n
      → published q' (suc n) ≡ published q n ++ map codec.encode b.transitions
  unfolding queue_block serialize_for_storage
  published-queued q q' b n e l =
      let at_n : q'.db.stored_block (suc n) ≡ some (serialize_for_storage codec b) =
        ap (λ f. f (suc n)) e ∙ ground arith in
      ground (arith, at_n, published-others q q' b n e)

module _ {M S E : Type 0} (services : Services M S E) where
  abbrev pub log : Aggregator M S E → List E
  log s =
      published s.rollup_block_submitter s.rollup_block_submitter.last_queued
      ++ map services.codec.encode s.pending_block.transitions

  -- One transition more in the pending block is one more in the log.
  pub log-push_transition :
      (t : RollupTransition S) (s : Aggregator M S E)
      → IsKept services s
      → log (push_transition services t s) ≡ log s ++ services.codec.encode t ∷ []
  unfolding push_transition
  log-push_transition t s k = rw k.alone (simp (map-append, append_assoc))

  -- A block that is submitted moves within the log.
  pub log-submit_pending_block :
      (now : ℕ) (s s' : Aggregator M S E)
      → IsKept services s
      → submit_pending_block services true now s ≡ returned s'
      → log s' ≡ log s
  unfolding submit_pending_block set_block_submission_timeout
  log-submit_pending_block now s s' k h =
      let (q, e, last, stored) =
        submit_block-accepted services.codec s.pending_block s.rollup_block_submitter k.next in
      let n = s.rollup_block_submitter.last_queued in
      let is_next : s.pending_block.block_number ≡ suc n = omega (arith, k.next) in
      let q_eq : s'.rollup_block_submitter ≡ q = ground (arith, h, e) in
      let empty : s'.pending_block.transitions ≡ [] = ground (arith, h, e) in
      let moved =
        published-queued services.codec s.rollup_block_submitter q s.pending_block n stored
          is_next in
      rw q_eq (rw empty (rw last (rw is_next (append-nil _ ∙ moved))))
