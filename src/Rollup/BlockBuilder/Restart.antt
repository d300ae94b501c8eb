-- ===== src/Rollup/BlockBuilder/Restart.antt =====
-- The start of the builder in packages/rollup-aggregator/src/app/block-builder.ts from the database that
-- earlier calls left.
use pigi.Prelude.{
  ℕ, suc, zero, ◌≤◌, ◌≡◌, ◌⊎◌, refl, sym, ap, ap₂, ◌∙◌, subst, Option, none, some, List, [], ◌∷◌,
  length, arith, inl, inr,
}
use pigi.Rollup.BlockBuilder.{
  submit_block, add_transaction_result, load_results, init, builder, set_block_submission_timeout,
}
use pigi.Rollup.BlockBuilder.Data.{
  TransactionResult, PendingBlock, Services, BlockBuilder, BuilderDb,
}
use pigi.Rollup.BlockBuilder.Ledger.{Call, result, run}
use pigi.Rollup.BlockBuilder.Stored.{
  empty_db, IsLoadable, IsStored, add_transaction_result-IsStored, run-IsStored,
}

-- The number that a restart gives to the pending block of a number
abbrev pub restored_number : ℕ → ℕ
restored_number zero = 1
restored_number (suc n) = suc n

module _ {W H B X S E : Type 0} (services : Services W H B X S E)
    (decodes : (r : TransactionResult X) → services.decode (services.encode r) ≡ some r) where
  restored_number_lem :
      (n : ℕ) (stored : Option ℕ)
      → ((stored ≡ some n) × (1 ≤ n)) ⊎ ((stored ≡ none) × (n ≡ 0))
      → elim stored [ none ↦ 1 | some m ↦ m ] ≡ restored_number n
  restored_number_lem zero stored (inl h) = absurd (omega (arith, h.1))
  restored_number_lem zero stored (inr h) = rw h.0 refl
  restored_number_lem (suc n) stored (inl h) = rw h.0 refl
  restored_number_lem (suc n) stored (inr h) = absurd (omega (arith, h.1))

  init_stored :
      (now count : ℕ) (h : H) (w w' : W) (q : S) (rs : List (TransactionResult X))
      (db : BuilderDb E B)
      → db.stored_tx_count ≡ some count
      → services.trees.create db.stored_tree_root 16 w ≡ (some h, w')
      → load_results services db.stored_tx count ≡ some rs
      → init services now db q w
        ≡ some (
            submit_block services now (
              builder services w' h
                (elim db.stored_last_submission [ none ↦ now | some d ↦ d ])
                (elim db.stored_pending_block [ none ↦ 1 | some n ↦ n ])
                rs
                q
                db))
  unfolding init
  init_stored now count h w w' q rs db c t l = ground (arith, c, t, l)

  load :
      (now : ℕ) (h : H) (w w' : W) (q : S) (p : PendingBlock X) (db : BuilderDb E B)
      → IsStored services decodes p db
      → services.trees.create none 16 w ≡ (some h, w')
      → init services now db q w
        ≡ some (
            submit_block services now (
              builder services w' h now
                (restored_number p.block_number)
                p.transaction_results
                q
                db))
  load now h w w' q p db (c, k) t =
      init_stored now (length p.transaction_results) h w w' q p.transaction_results db c
        (ap (λ r. services.trees.create r 16 w) k.no_root ∙ t) k.loaded
      ∙ ap₂
          (λ d n.
            some (submit_block services now (builder services w' h d n p.transaction_results q db)))
          (ap (λ (o : Option ℕ). elim o [ none ↦ now | some d ↦ d ]) k.no_date)
          (restored_number_lem p.block_number db.stored_pending_block k.number)

  -- A fresh start
  init_fresh :
      (now : ℕ) (q : S) (w : W) (s : BlockBuilder W H B X S E)
      → init services now empty_db q w ≡ some (some tt, s)
      → (s.pending_block ≡ record { block_number = 0; transaction_results = [] })
        × (s.db ≡ empty_db)
  unfolding init set_block_submission_timeout
  init_fresh now q w s e = at (services.trees.create none 16 w) refl
    where
      at :
          (p : Option H × W)
          → services.trees.create none 16 w ≡ p
          → (s.pending_block ≡ record { block_number = 0; transaction_results = [] })
            × (s.db ≡ empty_db)
      at (none, w') p = absurd (ground (arith, p, e))
      at (some h, w') p = (ground (arith, p, e), ground (arith, p, e))

  fresh-IsLoadable :
      IsLoadable services decodes (record { block_number = 0; transaction_results = [] }) empty_db
  unfolding load_results
  fresh-IsLoadable = record {
    loaded = refl;
    number = inr (refl, refl);
    no_root = refl;
    no_date = refl;
  }

  -- If the JSON of each result is parsed to that result: after a fresh start and any calls that all return,
  -- a result being the first, a start on the same database finds the pending results again. Its pending
  -- block has the number that it had, or 1 where that was 0; its tree is a new one without a root, no
  -- matter which blocks were built; and `submitBlock` is called, as if there had been a submission just now.
  pub init_restores :
      (now time now' : ℕ) (r : TransactionResult X) (cs : List (Call X)) (q q' : S) (w v v' : W)
      (h : H) (s s' : BlockBuilder W H B X S E)
      → init services now empty_db q w ≡ some (some tt, s)
      → run services (result time r ∷ cs) s ≡ some s'
      → services.trees.create none 16 v ≡ (some h, v')
      → init services now' s'.db q' v
        ≡ some (
            submit_block services now' (
              builder services v' h now'
                (restored_number s'.pending_block.block_number)
                s'.pending_block.transaction_results
                q'
                s'.db))
  init_restores now time now' r cs q q' w v v' h s s' start e t =
      load now' h v v' q' s'.pending_block s'.db
        (at (add_transaction_result services time r s) refl) t
    where
      fresh :
          (s.pending_block ≡ record { block_number = 0; transaction_results = [] })
          × (s.db ≡ empty_db)
      fresh = init_fresh now q w s start

      loadable : IsLoadable services decodes s.pending_block s.db
      loadable =
          subst (IsLoadable services decodes s.pending_block) (sym fresh.1)
            (subst (λ p. IsLoadable services decodes p empty_db) (sym fresh.0) fresh-IsLoadable)

      at :
          (p : Option (Unit {0}) × BlockBuilder W H B X S E)
          → add_transaction_result services time r s ≡ p
          → IsStored services decodes s'.pending_block s'.db
      at (none, t') p = absurd (ground (arith, p, e))
      at (some u, t') p =
          run-IsStored services decodes cs t' s'
            (add_transaction_result-IsStored services decodes time r s t' loadable
              (inr (ap (λ b. b.transaction_results) fresh.0)) p)
            (ground (arith, p, e))
