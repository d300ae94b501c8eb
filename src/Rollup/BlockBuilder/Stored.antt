-- ===== src/Rollup/BlockBuilder/Stored.antt =====
-- What the database of packages/rollup-aggregator/src/app/block-builder.ts holds after some calls
use pigi.Prelude.{
  ℕ, suc, zero, ◌+◌, ◌≤◌, ◌<◌, ◌≡◌, ◌⊎◌, refl, sym, ap, ◌∙◌, subst, Option, none, some, List, [],
  ◌∷◌, ◌++◌, length, length-append, leb, ◌==◌, if◌then◌else◌, arith, Bool-cases, inl, inr,
}
use pigi.Rollup.BlockBuilder.{
  repeats_last, submit_block, push_result, add_transaction_result, load_results,
}
use pigi.Rollup.BlockBuilder.Data.{
  TransactionResult, PendingBlock, Services, BlockBuilder, BuilderDb,
}
use pigi.Rollup.BlockBuilder.Outcomes.{submit_block_lem}
use pigi.Rollup.BlockBuilder.Ledger.{Call, result, timeout, run, answer}

abbrev pub empty_db : {E B : Type 0} → BuilderDb E B
empty_db = record {
  stored_last_submission = none;
  stored_pending_block = none;
  stored_tx_count = none;
  stored_tree_root = none;
  stored_tx = λ i. none;
}

module _ {W H B X S E : Type 0} (services : Services W H B X S E)
    (decodes : (r : TransactionResult X) → services.decode (services.encode r) ≡ some r) where
  -- The database has the pending block, but for the count of its results.
  pub record IsLoadable (p : PendingBlock X) (db : BuilderDb E B) : Type 0 where
    pub loaded :
        load_results services db.stored_tx (length p.transaction_results)
        ≡ some p.transaction_results
    pub number :
        ((db.stored_pending_block ≡ some p.block_number) × (1 ≤ p.block_number))
        ⊎ ((db.stored_pending_block ≡ none) × (p.block_number ≡ 0))
    pub no_root : db.stored_tree_root ≡ none
    pub no_date : db.stored_last_submission ≡ none

  abbrev pub IsStored : PendingBlock X → BuilderDb E B → Type 0
  IsStored p db = (db.stored_tx_count ≡ some (length p.transaction_results)) × IsLoadable p db

  load_results-below :
      (stored : ℕ → Option E) (e : E) (m n : ℕ)
      → n < m
      → load_results services (λ i. if i == m then some e else stored i) n
        ≡ load_results services stored n
  unfolding load_results
  load_results-below stored e m zero l = refl
  load_results-below stored e m (suc n) l =
      ground (arith, l, load_results-below stored e m n (omega (arith, l)))

  load_results-next :
      (stored : ℕ → Option E) (n : ℕ) (rs : List (TransactionResult X)) (r : TransactionResult X)
      → load_results services stored n ≡ some rs
      → load_results services
          (λ i. if i == n + 1 then some (services.encode r) else stored i)
          (suc n)
        ≡ some (rs ++ r ∷ [])
  unfolding load_results
  load_results-next stored n rs r e =
      let before = load_results-below stored (services.encode r) (n + 1) n (omega arith) ∙ e in
      ground (arith, before, decodes r)

  push_result-IsStored :
      (r : TransactionResult X) (s : BlockBuilder W H B X S E)
      → IsLoadable s.pending_block s.db
      → IsStored (push_result services r s).pending_block (push_result services r s).db
  unfolding push_result
  push_result-IsStored r s k =
      let rs = s.pending_block.transaction_results in
      let size : length (rs ++ r ∷ []) ≡ suc (length rs) =
        omega (arith, length-append rs (r ∷ [])) in
      (
        ap some (omega (arith, size)),
        record {
          loaded =
              ap
                (load_results services
                  (λ i. if i == length rs + 1 then some (services.encode r) else s.db.stored_tx i))
                size
              ∙ load_results-next s.db.stored_tx (length rs) rs r k.loaded;
          number = k.number;
          no_root = k.no_root;
          no_date = k.no_date;
        },
      )

  submit_block-IsStored :
      (now : ℕ) (s s' : BlockBuilder W H B X S E)
      → IsStored s.pending_block s.db
      → submit_block services now s ≡ (some tt, s')
      → IsStored s'.pending_block s'.db
  unfolding load_results
  submit_block-IsStored now s s' (c, k) e = elim (submit_block_lem services now s s' e) [
    | inl o ↦
        subst (IsStored s'.pending_block) (sym o.db_kept)
          (subst (λ p. IsStored p s.db) (sym o.pending) (c, k))
    | inr (o, m) ↦ subst (IsStored s'.pending_block) (sym o.stored) (
        subst
          (λ p. IsStored p (record s.db {
            stored_tx_count = some 0;
            stored_pending_block = some (s.pending_block.block_number + 1);
          }))
          (sym o.next_pending)
          (
            refl,
            record {
              loaded = refl;
              number = inl (refl, omega arith);
              no_root = k.no_root;
              no_date = k.no_date;
            },
          ))
  ]

  pub add_transaction_result-IsStored :
      (now : ℕ) (r : TransactionResult X) (s s' : BlockBuilder W H B X S E)
      → IsLoadable s.pending_block s.db
      → (IsStored s.pending_block s.db ⊎ (s.pending_block.transaction_results ≡ []))
      → add_transaction_result services now r s ≡ (some tt, s')
      → IsStored s'.pending_block s'.db
  unfolding add_transaction_result
  add_transaction_result-IsStored now r s s' k c e =
      elim (Bool-cases (repeats_last r.transaction_number s.pending_block.transaction_results)) [
        | inl again ↦
            let same : s' ≡ s = ground (arith, again, e) in
            elim c [
              | inl h ↦
                  subst (λ (t : BlockBuilder W H B X S E). IsStored t.pending_block t.db) (sym same)
                    h
              | inr h ↦ absurd (ground (arith, again, h))
            ]
        | inr new ↦
            let pushed = push_result services r s in
            let stored = push_result-IsStored r s k in
            elim (Bool-cases (
              leb services.max_transactions_per_block
                (length pushed.pending_block.transaction_results))) [
                  | inl full ↦
                      submit_block-IsStored now pushed s' stored (ground (arith, new, full, e))
                  | inr room ↦
                      let same : s' ≡ pushed = ground (arith, new, room, e) in
                      subst (λ (t : BlockBuilder W H B X S E). IsStored t.pending_block t.db)
                        (sym same) stored
                ]
      ]

  pub run-IsStored :
      (cs : List (Call X)) (s s' : BlockBuilder W H B X S E)
      → IsStored s.pending_block s.db
      → run services cs s ≡ some s'
      → IsStored s'.pending_block s'.db
  run-IsStored [] s s' k e =
      let same : s ≡ s' = ground (arith, e) in
      subst (λ (t : BlockBuilder W H B X S E). IsStored t.pending_block t.db) same k
  run-IsStored (c ∷ cs) s s' k e =
      at (answer services c s) refl (λ t q. run-IsStored cs t s' q) (λ t q. one c t q)
    where
      one :
          (d : Call X) (t : BlockBuilder W H B X S E)
          → answer services d s ≡ (some tt, t)
          → IsStored t.pending_block t.db
      one (result now r) t q = add_transaction_result-IsStored now r s t k.1 (inl k) q
      one (timeout now) t q = submit_block-IsStored now s t k q

      at :
          (p : Option (Unit {0}) × BlockBuilder W H B X S E)
          → answer services c s ≡ p
          → ((t : BlockBuilder W H B X S E)
              → IsStored t.pending_block t.db
              → run services cs t ≡ some s'
              → IsStored s'.pending_block s'.db)
          → ((t : BlockBuilder W H B X S E)
              → answer services c s ≡ (some tt, t)
              → IsStored t.pending_block t.db)
          → IsStored s'.pending_block s'.db
      at (none, t) q f g = absurd (ground (arith, q, e))
      at (some u, t) q f g = f t (g t q) (ground (arith, q, e))
