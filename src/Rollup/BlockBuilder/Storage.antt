-- ===== src/Rollup/BlockBuilder/Storage.antt =====
-- The storage of packages/rollup-aggregator/src/app/block-builder.ts: which slots a block writes, and the
-- trees that it writes them to.
use pigi.Prelude.{
  ℕ, Bool, true, false, ◌&&◌, Option, none, some, List, [], ◌∷◌, ◌++◌, ◌==◌, if◌then◌else◌,
}
use pigi.Rollup.BlockBuilder.Data.{
  TransactionStorage, TransactionResult, Action, ◌>>=◌, pure, raise, Forest, Services,
}

-- Whether two entries have the same key in `modifiedStorageMap`
abbrev pub same_slot : TransactionStorage → TransactionStorage → Bool
same_slot w v =
    w.contract_slot_index == v.contract_slot_index && w.storage_slot_index == v.storage_slot_index

-- `Map.set`: a key that is there keeps its place.
unfoldable pub set_slot : TransactionStorage → List TransactionStorage → List TransactionStorage
set_slot w [] = w ∷ []
set_slot w (v ∷ vs) = let rest = set_slot w vs in if same_slot w v then w ∷ vs else v ∷ rest

unfoldable pub set_slots :
    List TransactionStorage → List TransactionStorage → List TransactionStorage
unfolding set_slot
set_slots [] m = m
set_slots (w ∷ ws) m = set_slots ws (set_slot w m)

-- `modifiedStorageMap`, as the list of its values
unfoldable pub modified_storage_map :
    {X : Type 0} → List (TransactionResult X) → List TransactionStorage → List TransactionStorage
unfolding set_slots
modified_storage_map [] m = m
modified_storage_map (r ∷ rs) m = modified_storage_map rs (set_slots r.modified_storage m)

abbrev pub has : ℕ → List ℕ → Bool
has n [] = false
has n (m ∷ ms) = let rest = has n ms in if m == n then true else rest

-- `modifiedContractSlotIndexes`
unfoldable pub contract_slots : List TransactionStorage → List ℕ → List ℕ
contract_slots [] ns = ns
contract_slots (w ∷ ws) ns =
    contract_slots ws
      (if has w.contract_slot_index ns then ns else ns ++ w.contract_slot_index ∷ [])

-- `Promise.all`: each call runs, and one that throws makes the whole throw.
unfoldable pub run_all : {M A : Type 0} → (A → Action M Unit) → List A → Action M Unit
run_all f [] m = (some tt, m)
run_all f (x ∷ xs) m =
    let (r, m') = f x m in
    let (s, m'') = run_all f xs m' in (elim r [ none ↦ none | some u ↦ s ], m'')

module _ {W H B X S E : Type 0} (services : Services W H B X S E) where
  -- A call of a tree
  abbrev pub on_trees : {A : Type 0} → Action W A → Action (Forest W H) A
  on_trees a f = let (r, w) = a f.world in (r, record f { world = w })

  abbrev set_subtree : ℕ → H → Action (Forest W H) Unit
  set_subtree n h f =
      (some tt, record f { subtrees = λ i. if i == n then some h else f.subtrees i })

  -- The subtree of a contract; where there is none, the next call on it throws.
  abbrev get_subtree : ℕ → Action (Forest W H) H
  get_subtree n f = (f.subtrees n, f)

  unfoldable pub create_subtree : ℕ → Option B → Action (Forest W H) Unit
  create_subtree n root = on_trees (services.trees.create root 32) >>= λ h. set_subtree n h

  -- The first half of `updateStorageSlot`
  unfoldable pub prepare_subtree : ℕ → Action (Forest W H) Unit
  unfolding create_subtree
  prepare_subtree n f =
      (on_trees (services.trees.get_leaf f.tree n) >>= λ root. λ g. elim root [
        | none ↦ create_subtree n none g
        | some r ↦ elim (g.subtrees n) [
          | none ↦ create_subtree n (some r) g
          | some h ↦ (some tt, g)
        ]
      ])
        f

  -- An update that returns false makes the caller throw.
  abbrev or_update_error : Bool → Action (Forest W H) Unit
  or_update_error true = pure tt
  or_update_error false = raise

  -- `updateStorageSlot`
  unfoldable pub update_storage_slot : TransactionStorage → Action (Forest W H) Unit
  unfolding prepare_subtree
  update_storage_slot w = prepare_subtree w.contract_slot_index >>= λ _.
      get_subtree w.contract_slot_index >>= λ h.
      on_trees (services.trees.update h w.storage_slot_index (services.to_buffer w.storage))
      >>= or_update_error

  -- `updateContractSlot`
  unfoldable pub update_contract_slot : ℕ → Action (Forest W H) Unit
  update_contract_slot n f =
      (get_subtree n >>= λ h. on_trees (services.trees.get_root_hash h) >>= λ root.
      on_trees (services.trees.update f.tree n root) >>= or_update_error)
        f

  -- What `buildBlock` does with the trees, up to the state root
  unfoldable pub update_forest : List (TransactionResult X) → Action (Forest W H) B
  unfolding modified_storage_map contract_slots update_storage_slot update_contract_slot run_all
  update_forest rs f =
      let writes = modified_storage_map rs [] in
      (run_all update_storage_slot writes >>= λ _.
      run_all update_contract_slot (contract_slots writes []) >>= λ _.
      on_trees (services.trees.get_root_hash f.tree))
        f
