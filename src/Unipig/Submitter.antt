-- ===== src/Unipig/Submitter.antt =====
-- packages/unipig/src/aggregator/rollup-block-submitter.ts. Each call runs to its end before the
-- next one begins. A call makes at most one contract call; `accepts` says whether that succeeds.
-- The texts of the database entries are not modelled: an entry holds its number, or the block with
-- its transitions encoded.
pub mod Invariant
pub mod Recovery
pub mod Runs
pub mod Order
pub mod Restart
pub mod Acceptance
mod Examples
use pigi.Prelude.{
  ℕ, zero, suc, ◌+◌, ◌-◌, Bool, true, false, not, ◌&&◌, ◌||◌, Option, none, some, List, [], ◌∷◌,
  ◌++◌, map, ◌≡◌, ltb, leb, ◌==◌, if◌then◌else◌,
}

-- `abiEncodeTransition` and `parseTransitionFromABI`.
pub record Codec (T E : Type 0) : Type 0 where
  pub encode : T → E
  pub decode : E → Option T
  pub decode-encode : (t : T) → decode (encode t) ≡ some t

-- `RollupBlock`
pub record RollupBlock (T : Type 0) : Type 0 where
  pub block_number : ℕ
  pub transitions : List T

-- What `getBlockKey(n)` and the three LAST keys hold.
pub record Db (E : Type 0) : Type 0 where
  pub stored_confirmed : Option ℕ
  pub stored_submitted : Option ℕ
  pub stored_queued : Option ℕ
  pub stored_block : ℕ → Option (RollupBlock E)

-- The fields of `DefaultRollupBlockSubmitter`. `sent` is what the contract has accepted.
pub record Submitter (T E : Type 0) : Type 0 where
  pub last_submitted : ℕ
  pub last_confirmed : ℕ
  pub last_queued : ℕ
  pub block_queue : List (RollupBlock T)
  pub db : Db E
  pub sent : List (ℕ × List E)

-- How a call ended: the state that it left, and whether it threw.
pub data Ended (S : Type 0) : Type 0 where
  returned : S → Ended S
  threw : S → Ended S

abbrev pub state_after : {S : Type 0} → Ended S → S
state_after (returned s) = s
state_after (threw s) = s

abbrev pub or_zero : Option ℕ → ℕ
or_zero none = 0
or_zero (some n) = n

module _ {T E : Type 0} where
  -- `handleNewRollupBlock` for the number of the first block in the queue, up to its call of
  -- `trySubmitNextBlock`.
  unfoldable pub confirm_head : ℕ → List (RollupBlock T) → Submitter T E → Submitter T E
  confirm_head n rest s =
      let confirmed = record s {
        block_queue = rest;
        last_confirmed = n;
        db = record s.db { stored_confirmed = some n };
      } in
      if ltb s.last_submitted n
      then record confirmed {
        last_submitted = n;
        db = record confirmed.db { stored_submitted = some n };
      }
      else confirmed

module _ {T E : Type 0} (codec : Codec T E) where
  -- `serializeRollupBlockForSubmission`
  unfoldable pub serialize_for_submission : RollupBlock T → List E
  serialize_for_submission b = map codec.encode b.transitions

  -- `serializeRollupBlockForStorage`
  unfoldable pub serialize_for_storage : RollupBlock T → RollupBlock E
  serialize_for_storage b = record {
    block_number = b.block_number;
    transitions = map codec.encode b.transitions;
  }

  unfoldable pub decode_all : List E → Option (List T)
  decode_all [] = some []
  decode_all (e ∷ es) = elim (codec.decode e) [
    | none ↦ none
    | some t ↦ elim (decode_all es) [ none ↦ none | some ts ↦ some (t ∷ ts) ]
  ]

  -- `deserializeRollupBlockFromStorage`; `none` is an error.
  unfoldable pub deserialize_from_storage : RollupBlock E → Option (RollupBlock T)
  unfolding decode_all
  deserialize_from_storage b = elim (decode_all b.transitions) [
    | none ↦ none
    | some ts ↦ some (record { block_number = b.block_number; transitions = ts })
  ]

  -- The tail of `trySubmitNextBlock`, for the block at the head of the queue.
  unfoldable pub submit_head : Bool → RollupBlock T → Submitter T E → Ended (Submitter T E)
  unfolding serialize_for_submission
  submit_head false b s = threw s
  submit_head true b s = returned (record s {
    last_submitted = b.block_number;
    db = record s.db { stored_submitted = some b.block_number };
    sent = s.sent ++ (b.block_number, serialize_for_submission b) ∷ [];
  })

  -- `trySubmitNextBlock`
  unfoldable pub try_submit_next_block : Bool → Submitter T E → Ended (Submitter T E)
  unfolding submit_head
  try_submit_next_block accepts s =
      if ltb s.last_confirmed s.last_submitted || leb s.last_queued s.last_submitted
      then returned s
      else elim s.block_queue [ [] ↦ returned s | b ∷ bs ↦ submit_head accepts b s ]

  -- `submitBlock`, up to its call of `trySubmitNextBlock`.
  unfoldable pub queue_block : RollupBlock T → Submitter T E → Submitter T E
  unfolding serialize_for_storage
  queue_block b s = record s {
    block_queue = s.block_queue ++ b ∷ [];
    last_queued = b.block_number;
    db = record s.db {
      stored_block =
          λ n. if n == b.block_number then some (serialize_for_storage b) else s.db.stored_block n;
      stored_queued = some b.block_number;
    };
  }

  -- `submitBlock`
  unfoldable pub submit_block : Bool → RollupBlock T → Submitter T E → Ended (Submitter T E)
  unfolding queue_block try_submit_next_block
  submit_block accepts b s =
      if leb b.block_number s.last_queued
      then returned s
      else try_submit_next_block accepts (queue_block b s)

  -- `handleNewRollupBlock`
  unfoldable pub handle_new_rollup_block : Bool → ℕ → Submitter T E → Ended (Submitter T E)
  unfolding confirm_head try_submit_next_block
  handle_new_rollup_block accepts n s = elim s.block_queue [
    | [] ↦ returned s
    | b ∷ rest ↦
        if n == b.block_number
        then try_submit_next_block accepts (confirm_head n rest s)
        else returned s
  ]

  -- The blocks with the numbers from `first` on, `count` of them; a missing entry is an error.
  unfoldable pub load_blocks : Db E → ℕ → ℕ → Option (List (RollupBlock T))
  unfolding deserialize_from_storage
  load_blocks db first zero = some []
  load_blocks db first (suc count) = elim (db.stored_block first) [
    | none ↦ none
    | some e ↦ elim (deserialize_from_storage e) [
      | none ↦ none
      | some b ↦ elim (load_blocks db (first + 1) count) [ none ↦ none | some bs ↦ some (b ∷ bs) ]
    ]
  ]

  -- The state that `init` has populated, before it calls `trySubmitNextBlock`.
  unfoldable pub populate : Db E → List (ℕ × List E) → Option (Submitter T E)
  unfolding load_blocks
  populate db sent =
      let confirmed = or_zero db.stored_confirmed in
      let queued = or_zero db.stored_queued in
      elim (load_blocks db (confirmed + 1) (queued - confirmed)) [
        | none ↦ none
        | some bs ↦ some (record {
          last_submitted = or_zero db.stored_submitted;
          last_confirmed = confirmed;
          last_queued = queued;
          block_queue = bs;
          db = db;
          sent = sent;
        })
      ]

  -- `create` with `init`; `none` means that it rejects.
  unfoldable pub init : Bool → Db E → List (ℕ × List E) → Option (Submitter T E)
  unfolding populate try_submit_next_block
  init accepts db sent = elim (populate db sent) [
    | none ↦ none
    | some s ↦
        if s.last_submitted == s.last_confirmed && s.last_confirmed == s.last_queued
        then some s
        else elim (try_submit_next_block accepts s) [ returned s' ↦ some s' | threw s' ↦ none ]
  ]
