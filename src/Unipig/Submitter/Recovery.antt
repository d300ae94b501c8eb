-- ===== src/Unipig/Submitter/Recovery.antt =====
-- Restarting the block submitter of packages/unipig/src/aggregator/rollup-block-submitter.ts from
-- its database.
use mathlib.Core.List.{map}
use pigi.Prelude.{ℕ, zero, suc, ◌+◌, ◌-◌, ◌≤◌, ◌≡◌, refl, subst, some, List, [], ◌∷◌, ◌++◌, arith}
use pigi.Unipig.Submitter.{
  Codec, RollupBlock, Db, Submitter, serialize_for_storage, decode_all, deserialize_from_storage,
  load_blocks, populate, or_zero,
}
use pigi.Unipig.Submitter.Invariant.{IsValid, IsStored}

module _ {T : Type 0} where
  -- The blocks are numbered one after another, from `low + 1` to `high`.
  abbrev pub FollowOn : ℕ → List (RollupBlock T) → ℕ → Type 0
  FollowOn low [] high = low ≡ high
  FollowOn low (b ∷ bs) high = (b.block_number ≡ low + 1) × FollowOn b.block_number bs high

  FollowOn-le : (low high : ℕ) (bs : List (RollupBlock T)) → FollowOn low bs high → low ≤ high
  FollowOn-le low high [] h = omega arith
  FollowOn-le low high (b ∷ bs) h = omega (arith, FollowOn-le b.block_number high bs h.1)

  pub FollowOn-append :
      (low high : ℕ) (bs : List (RollupBlock T)) (b : RollupBlock T)
      → FollowOn low bs high
      → b.block_number ≡ high + 1
      → FollowOn low (bs ++ b ∷ []) b.block_number
  FollowOn-append low high [] b h e = (omega arith, refl)
  FollowOn-append low high (c ∷ bs) b h e = (h.0, FollowOn-append c.block_number high bs b h.1 e)

module _ {T E : Type 0} (codec : Codec T E) where
  decode_all-map : (ts : List T) → decode_all codec (map codec.encode ts) ≡ some ts
  unfolding decode_all
  decode_all-map [] = refl
  decode_all-map (t ∷ ts) = ground (arith, codec.decode-encode t, decode_all-map ts)

  -- A block that was stored is read back as it was.
  deserialize-serialize :
      (b : RollupBlock T) → deserialize_from_storage codec (serialize_for_storage codec b) ≡ some b
  unfolding deserialize_from_storage serialize_for_storage
  deserialize-serialize b = ground (arith, decode_all-map b.transitions)

  load_blocks-stored :
      (db : Db E) (bs : List (RollupBlock T)) (low high n : ℕ)
      → FollowOn low bs high
      → IsStored codec db bs
      → n + low ≡ high
      → load_blocks codec db (low + 1) n ≡ some bs
  unfolding load_blocks
  load_blocks-stored db [] low high zero f h e = refl
  load_blocks-stored db [] low high (suc n) f h e = absurd (omega arith)
  load_blocks-stored db (b ∷ bs) low high zero f h e =
      absurd (omega (arith, FollowOn-le b.block_number high bs f.1))
  load_blocks-stored db (b ∷ bs) low high (suc n) f h e =
      let at : db.stored_block (low + 1) ≡ some (serialize_for_storage codec b) =
        subst (λ k. db.stored_block k ≡ some (serialize_for_storage codec b)) f.0 h.0 in
      let rest : load_blocks codec db (b.block_number + 1) n ≡ some bs =
        load_blocks-stored db bs b.block_number high n f.1 h.1 (omega arith) in
      let rest' : load_blocks codec db (low + 1 + 1) n ≡ some bs =
        subst (λ k. load_blocks codec db (k + 1) n ≡ some bs) f.0 rest in
      ground (arith, at, deserialize-serialize b, rest')

  pub populate-IsValid :
      (s : Submitter T E)
      → IsValid codec s
      → FollowOn s.last_confirmed s.block_queue s.last_queued
      → populate codec s.db s.sent ≡ some s
  unfolding populate
  populate-IsValid s v f =
      let le : s.last_confirmed ≤ s.last_queued =
        FollowOn-le s.last_confirmed s.last_queued s.block_queue f in
      let loaded : load_blocks codec s.db (s.last_confirmed + 1) (s.last_queued - s.last_confirmed)
          ≡ some s.block_queue =
        load_blocks-stored s.db s.block_queue s.last_confirmed s.last_queued
          (s.last_queued - s.last_confirmed) f v.blocks_stored (omega arith) in
      let loaded' : load_blocks codec s.db (or_zero s.db.stored_confirmed + 1)
            (or_zero s.db.stored_queued - or_zero s.db.stored_confirmed)
          ≡ some s.block_queue =
        simp (v.confirmed_stored, v.queued_stored) loaded in
      ground (arith, loaded')
