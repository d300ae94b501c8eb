-- ===== src/Unipig/Submitter/Invariant.antt =====
-- The invariant of the block submitter of packages/unipig/src/aggregator/rollup-block-submitter.ts,
-- kept by every call, whether the contract accepts a block or not.
use pigi.Prelude.{
  if◌then◌else◌, subst, sym, ==_iff, ℕ, ◌≤◌, ◌<◌, ◌≡◌, refl, ◌⊎◌, inl, inr, Bool, true, false,
  Option, some, List, [], ◌∷◌, ◌++◌, arith, All, Bool-cases, ltb, leb, ◌==◌, ◌||◌,
}
use pigi.Unipig.Submitter.{
  Codec, RollupBlock, Db, Submitter, returned, state_after, serialize_for_storage,
  serialize_for_submission, submit_head, try_submit_next_block, queue_block, submit_block,
  confirm_head, handle_new_rollup_block, or_zero,
}

module _ {T : Type 0} where
  -- The numbers of the blocks rise strictly, from above `low` to `high`.
  abbrev pub Rises : ℕ → List (RollupBlock T) → ℕ → Type 0
  Rises low [] high = low ≡ high
  Rises low (b ∷ bs) high = (low < b.block_number) × Rises b.block_number bs high

  abbrev pub HeadIs : ℕ → List (RollupBlock T) → Type 0
  HeadIs n [] = ⊥
  HeadIs n (b ∷ bs) = n ≡ b.block_number

  pub Rises-le : (low high : ℕ) (bs : List (RollupBlock T)) → Rises low bs high → low ≤ high
  Rises-le low high [] h = omega arith
  Rises-le low high (b ∷ bs) h = omega (arith, Rises-le b.block_number high bs h.1)

  Rises-append :
      (low high : ℕ) (bs : List (RollupBlock T)) (b : RollupBlock T)
      → Rises low bs high
      → high < b.block_number
      → Rises low (bs ++ b ∷ []) b.block_number
  Rises-append low high [] b h l = (omega arith, refl)
  Rises-append low high (c ∷ bs) b h l = (h.0, Rises-append c.block_number high bs b h.1 l)

  HeadIs-append :
      (n : ℕ) (bs : List (RollupBlock T)) (b : RollupBlock T)
      → HeadIs n bs
      → HeadIs n (bs ++ b ∷ [])
  HeadIs-append n [] b h = absurd h
  HeadIs-append n (c ∷ bs) b h = h

-- The numbers of what was sent rise strictly, from above `low` to at most `high`.
abbrev pub SentRises : {E : Type 0} → ℕ → List (ℕ × List E) → ℕ → Type 0
SentRises low [] high = low ≤ high
SentRises low ((n, e) ∷ sent) high = (low < n) × SentRises n sent high

module _ {E : Type 0} where
  SentRises-append :
      (low high n : ℕ) (sent : List (ℕ × List E)) (e : List E)
      → SentRises low sent high
      → high < n
      → SentRises low (sent ++ (n, e) ∷ []) n
  SentRises-append low high n [] e h l = (omega arith, omega arith)
  SentRises-append low high n ((k, f) ∷ sent) e h l = (h.0, SentRises-append k high n sent e h.1 l)

  SentRises-le :
      (low high high' : ℕ) (sent : List (ℕ × List E))
      → high ≤ high'
      → SentRises low sent high
      → SentRises low sent high'
  SentRises-le low high high' [] l h = omega arith
  SentRises-le low high high' ((k, f) ∷ sent) l h = (h.0, SentRises-le k high high' sent l h.1)

module _ {T E : Type 0} (codec : Codec T E) where
  abbrev pub IsStored : Db E → List (RollupBlock T) → Type 0
  IsStored db bs =
      All (λ b. db.stored_block b.block_number ≡ some (serialize_for_storage codec b)) bs

  -- The queue runs from the last confirmed block to the last queued one; at most its first block is
  -- submitted and not confirmed; the database has what the fields have; what was sent rises.
  pub record IsValid (s : Submitter T E) : Type 0 where
    pub queue_rises : Rises s.last_confirmed s.block_queue s.last_queued
    pub in_flight : (s.last_submitted ≡ s.last_confirmed) ⊎ HeadIs s.last_submitted s.block_queue
    pub confirmed_stored : or_zero s.db.stored_confirmed ≡ s.last_confirmed
    pub submitted_stored : or_zero s.db.stored_submitted ≡ s.last_submitted
    pub queued_stored : or_zero s.db.stored_queued ≡ s.last_queued
    pub blocks_stored : IsStored s.db s.block_queue
    pub sent_rises : SentRises 0 s.sent s.last_submitted

  submit_head-IsValid :
      (accepts : Bool) (b : RollupBlock T) (bs : List (RollupBlock T)) (s : Submitter T E)
      → s.block_queue ≡ b ∷ bs
      → s.last_submitted < b.block_number
      → IsValid s
      → IsValid (state_after (submit_head codec accepts b s))
  unfolding submit_head
  submit_head-IsValid false b bs s q l v = v
  submit_head-IsValid true b bs s q l v = record {
    queue_rises = v.queue_rises;
    in_flight = inr (rw q refl);
    confirmed_stored = v.confirmed_stored;
    submitted_stored = refl;
    queued_stored = v.queued_stored;
    blocks_stored = v.blocks_stored;
    sent_rises =
        SentRises-append 0 s.last_submitted b.block_number s.sent (serialize_for_submission codec b)
          v.sent_rises l;
  }

  -- With a block in the queue that is not in flight, nothing is: its number is above the submitted.
  head_above :
      (b : RollupBlock T) (bs : List (RollupBlock T)) (s : Submitter T E)
      → s.block_queue ≡ b ∷ bs
      → s.last_submitted ≤ s.last_confirmed
      → IsValid s
      → s.last_submitted < b.block_number
  head_above b bs s q l v =
      let h : Rises s.last_confirmed (b ∷ bs) s.last_queued = rw q at v.queue_rises in omega arith

  pub try_submit_next_block-IsValid :
      (accepts : Bool) (s : Submitter T E)
      → IsValid s
      → IsValid (state_after (try_submit_next_block codec accepts s))
  unfolding try_submit_next_block
  try_submit_next_block-IsValid accepts s v =
      elim (Bool-cases
        (ltb s.last_confirmed s.last_submitted || leb s.last_queued s.last_submitted)) [
          | inl pending ↦ rw pending v
          | inr idle ↦ rw idle (at s.block_queue refl (ground arith))
        ]
    where
      at :
          (q : List (RollupBlock T))
          → s.block_queue ≡ q
          → s.last_submitted ≤ s.last_confirmed
          → IsValid
              (state_after (elim q [ [] ↦ returned s | b ∷ bs ↦ submit_head codec accepts b s ]))
      at [] e l = v
      at (b ∷ bs) e l = submit_head-IsValid accepts b bs s e (head_above b bs s e l v) v

  IsStored-insert :
      (db : Db E) (b : RollupBlock T) (bs : List (RollupBlock T)) (low high : ℕ) (s : RollupBlock E)
      (q : Option ℕ)
      → Rises low bs high
      → high < b.block_number
      → IsStored db bs
      → IsStored
          (record db {
            stored_block = λ n. if n == b.block_number then some s else db.stored_block n;
            stored_queued = q;
          })
          bs
  IsStored-insert db b [] low high s q r l h = tt
  IsStored-insert db b (c ∷ bs) low high s q r l h =
      let below : c.block_number ≤ high = Rises-le c.block_number high bs r.1 in
      (ground (arith, h.0), IsStored-insert db b bs c.block_number high s q r.1 l h.1)

  IsStored-append :
      (db : Db E) (bs : List (RollupBlock T)) (b : RollupBlock T)
      → IsStored db bs
      → db.stored_block b.block_number ≡ some (serialize_for_storage codec b)
      → IsStored db (bs ++ b ∷ [])
  IsStored-append db [] b h e = (e, tt)
  IsStored-append db (c ∷ bs) b h e = (h.0, IsStored-append db bs b h.1 e)

  flight_after_queue :
      (s : Submitter T E) (b : RollupBlock T)
      → (s.last_submitted ≡ s.last_confirmed) ⊎ HeadIs s.last_submitted s.block_queue
      → (s.last_submitted ≡ s.last_confirmed) ⊎ HeadIs s.last_submitted (s.block_queue ++ b ∷ [])
  flight_after_queue s b (inl e) = inl e
  flight_after_queue s b (inr h) = inr (HeadIs-append s.last_submitted s.block_queue b h)

  queue_block-IsValid :
      (b : RollupBlock T) (s : Submitter T E)
      → s.last_queued < b.block_number
      → IsValid s
      → IsValid (queue_block codec b s)
  unfolding queue_block
  queue_block-IsValid b s l v =
      let stored = serialize_for_storage codec b in
      record {
        queue_rises = Rises-append s.last_confirmed s.last_queued s.block_queue b v.queue_rises l;
        in_flight = flight_after_queue s b v.in_flight;
        confirmed_stored = v.confirmed_stored;
        submitted_stored = v.submitted_stored;
        queued_stored = refl;
        blocks_stored =
            IsStored-append (queue_block codec b s).db s.block_queue b
              (IsStored-insert s.db b s.block_queue s.last_confirmed s.last_queued stored
                (some b.block_number) v.queue_rises l v.blocks_stored)
              (ground arith);
        sent_rises = v.sent_rises;
      }

  -- Submitting a block keeps the invariant, whatever its number and whether or not the contract
  -- accepts it.
  pub submit_block-IsValid :
      (accepts : Bool) (b : RollupBlock T) (s : Submitter T E)
      → IsValid s
      → IsValid (state_after (submit_block codec accepts b s))
  unfolding submit_block
  submit_block-IsValid accepts b s v = elim (Bool-cases (leb b.block_number s.last_queued)) [
    | inl old ↦ rw old v
    | inr new ↦ rw new (
        try_submit_next_block-IsValid accepts (queue_block codec b s)
          (queue_block-IsValid b s (ground arith) v))
  ]

  confirm_head-IsValid :
      (b : RollupBlock T) (rest : List (RollupBlock T)) (s : Submitter T E)
      → s.block_queue ≡ b ∷ rest
      → IsValid s
      → IsValid (confirm_head b.block_number rest s)
  unfolding confirm_head
  confirm_head-IsValid b rest s q v =
      let rises : Rises s.last_confirmed (b ∷ rest) s.last_queued = rw q at v.queue_rises in
      let flight : (s.last_submitted ≡ s.last_confirmed) ⊎ (s.last_submitted ≡ b.block_number) =
        rw q at v.in_flight in
      let stored : IsStored s.db (b ∷ rest) = rw q at v.blocks_stored in
      elim (Bool-cases (ltb s.last_submitted b.block_number)) [
        | inl behind ↦ rw behind (record {
          queue_rises = rises.1;
          in_flight = inl refl;
          confirmed_stored = refl;
          submitted_stored = refl;
          queued_stored = v.queued_stored;
          blocks_stored = stored.1;
          sent_rises =
              SentRises-le 0 s.last_submitted b.block_number s.sent (ground arith) v.sent_rises;
        })
        | inr caught_up ↦ rw caught_up (record {
          queue_rises = rises.1;
          in_flight = inl (ground arith);
          confirmed_stored = refl;
          submitted_stored = v.submitted_stored;
          queued_stored = v.queued_stored;
          blocks_stored = stored.1;
          sent_rises = v.sent_rises;
        })
      ]

  -- A confirmation keeps the invariant, whatever the number and whether or not the contract accepts
  -- the block that is submitted next.
  pub handle_new_rollup_block-IsValid :
      (accepts : Bool) (n : ℕ) (s : Submitter T E)
      → IsValid s
      → IsValid (state_after (handle_new_rollup_block codec accepts n s))
  unfolding handle_new_rollup_block
  handle_new_rollup_block-IsValid accepts n s v = at s.block_queue refl
    where
      at :
          (q : List (RollupBlock T))
          → s.block_queue ≡ q
          → IsValid (
              state_after (elim q [
                | [] ↦ returned s
                | b ∷ rest ↦
                    if n == b.block_number
                    then try_submit_next_block codec accepts (confirm_head n rest s)
                    else returned s
              ]))
      at [] e = v
      at (b ∷ rest) e = elim (Bool-cases (n == b.block_number)) [
        | inl same ↦ rw same (
            try_submit_next_block-IsValid accepts (confirm_head n rest s) (
              subst (λ k. IsValid (confirm_head k rest s)) (sym ((==_iff n b.block_number).0 same))
                (confirm_head-IsValid b rest s e v)))
        | inr other ↦ rw other v
      ]
