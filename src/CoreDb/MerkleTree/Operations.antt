-- ===== src/CoreDb/MerkleTree/Operations.antt =====
-- The operations of packages/core-db/src/app/block-production/merkle-tree.ts keep a tree sound.
use pigi.Prelude.{
  ℕ, zero, suc, ◌+◌, ◌-◌, ◌≡◌, refl, Bool, true, false, not, Option, none, some, List, [], ◌∷◌,
  length, map, ◌==◌, if◌then◌else◌, arith, All,
}
use mathlib.Core.List.{reverse}
use pigi.CoreDb.MerkleTree.{
  Hashing, Buffer, halves, bytes, MerkleTreeNode, MerkleTree, MerkleTreeInclusionProof,
  MerkleUpdate, get_node, get_node_id, get_node_key, is_left, path_siblings, empty_buffer,
  path_below, get_nodes_in_path, climb, put_all, delete_all, verify_and_store,
  verify_and_store_partially_empty_path, update_node, update_path, update_stored_path, update, init,
  verify_old_values, update_each, batch_update,
}
use pigi.CoreDb.MerkleTree.Soundness.{
  IsSoundNode, IsSoundDb, IsSound, Leaves, put_all-IsSoundDb, delete_all-IsSoundDb,
  get_node-IsSoundNode, hashed, climb-IsSoundNode,
}

module _ {I : Type 0} (hashing : Hashing I) (height : ℕ) where
  pub verify_and_store-IsSound :
      (p : MerkleTreeInclusionProof) (t : MerkleTree I)
      → IsSound hashing height t
      → IsSound hashing height (verify_and_store hashing height p t).1
  unfolding verify_and_store
  verify_and_store-IsSound p t s =
      at (not (length p.siblings == height - 1))
        (get_node hashing height (hashing.hash p.value) p.key t.db)
        ((climb hashing height t.db p.key child p.siblings).0.hash == t.root.hash)
    where
      child : MerkleTreeNode
      child = record { key = p.key; hash = hashing.hash p.value; value = some p.value }

      stored : MerkleTree I
      stored = record {
        root = (climb hashing height t.db p.key child p.siblings).0;
        db = put_all hashing height (child ∷ (climb hashing height t.db p.key child p.siblings).1) (
            delete_all hashing height
              (map (get_node_id hashing height) (get_nodes_in_path hashing height p.key t)) t.db);
      }

      stored-IsSound : IsSound hashing height stored
      stored-IsSound =
          let (top, nodes) =
            climb-IsSoundNode hashing height t.db p.key child p.siblings
              (hashed hashing height p.key p.value) in
          record {
            root_sound = top;
            db_sound =
                put_all-IsSoundDb hashing height
                  (child ∷ (climb hashing height t.db p.key child p.siblings).1)
                  (delete_all hashing height
                    (map (get_node_id hashing height) (get_nodes_in_path hashing height p.key t))
                    t.db)
                  (hashed hashing height p.key p.value, nodes)
                  (delete_all-IsSoundDb hashing height
                    (map (get_node_id hashing height) (get_nodes_in_path hashing height p.key t))
                    t.db s.db_sound);
          }

      at :
          (b : Bool) (o : Option MerkleTreeNode) (c : Bool)
          → Leaves hashing height (
              if b then (false, t) else elim o [
                | some node ↦ (true, t)
                | none ↦ if c then (true, stored) else (false, t)
              ])
      at true o c = s
      at false (some n) c = s
      at false none true = stored-IsSound
      at false none false = s

  update_node-IsSoundNode :
      (n : MerkleTreeNode) (c key depth : ℕ)
      → IsSoundNode hashing height n
      → IsSoundNode hashing height (update_node hashing height n c key depth)
  unfolding update_node
  update_node-IsSoundNode n c key depth s = at n.value
    where
      at :
          (o : Option Buffer)
          → IsSoundNode hashing height (elim o [
            | none ↦ n
            | some value ↦ elim value [
              | bytes b ↦ n
              | halves l r ↦
                  let value' =
                    if is_left hashing height key depth then halves c r else halves l c in
                  record n { hash = hashing.hash value'; value = some value' }
            ]
          ])
      at none = s
      at (some (bytes b)) = s
      at (some (halves l r)) =
          hashed hashing height n.key
            (if is_left hashing height key depth then halves c r else halves l c)

  update_path-IsSoundNode :
      (key : ℕ) (v : Buffer) (depth : ℕ) (n : MerkleTreeNode) (below : List MerkleTreeNode)
      → IsSoundNode hashing height n
      → All (IsSoundNode hashing height) below
      → IsSoundNode hashing height (update_path hashing height key v depth n below).0
        × All (IsSoundNode hashing height) (update_path hashing height key v depth n below).1
  unfolding update_path
  update_path-IsSoundNode key v depth n [] s h = (hashed hashing height n.key v, tt)
  update_path-IsSoundNode key v depth n (c ∷ more) s h =
      let (child, below) = update_path-IsSoundNode key v (depth + 1) c more h.0 h.1 in
      (
        update_node-IsSoundNode n (update_path hashing height key v (depth + 1) c more).0.hash key
            depth s,
        (child, below),
      )

  path_below-IsSoundNode :
      (db : I → Option Buffer) (key n depth : ℕ) (node : MerkleTreeNode)
      → IsSoundDb hashing height db
      → All (IsSoundNode hashing height) (path_below hashing height db key n depth node)
  unfolding path_below
  path_below-IsSoundNode db key zero depth node d = tt
  path_below-IsSoundNode db key (suc n) depth node d =
      at (λ child. path_below-IsSoundNode db key n (depth + 1) child d) node.value
    where
      from :
          ((child : MerkleTreeNode)
            → All
                (IsSoundNode hashing height)
                (path_below hashing height db key n (depth + 1) child))
          → (h : ℕ) (o : Option MerkleTreeNode)
          → get_node hashing height h (get_node_key hashing height key (depth + 1)) db ≡ o
          → All (IsSoundNode hashing height) (elim o [
            | none ↦ []
            | some child ↦ child ∷ path_below hashing height db key n (depth + 1) child
          ])
      from more h none e = tt
      from more h (some child) e = (
        (get_node-IsSoundNode hashing height h (get_node_key hashing height key (depth + 1)) db
            child d e).0,
        more child,
      )

      at :
          ((child : MerkleTreeNode)
            → All
                (IsSoundNode hashing height)
                (path_below hashing height db key n (depth + 1) child))
          → (o : Option Buffer)
          → All (IsSoundNode hashing height) (elim o [
            | none ↦ []
            | some value ↦ elim value [
              | bytes b ↦ []
              | halves l r ↦
                  elim (get_node hashing height
                    (if is_left hashing height key depth then l else r)
                    (get_node_key hashing height key (depth + 1))
                    db) [
                      | none ↦ []
                      | some child ↦ child ∷ path_below hashing height db key n (depth + 1) child
                    ]
            ]
          ])
      at more none = tt
      at more (some (bytes b)) = tt
      at more (some (halves l r)) =
          let h = if is_left hashing height key depth then l else r in
          from more h (get_node hashing height h (get_node_key hashing height key (depth + 1)) db)
            refl

  update_stored_path-IsSound :
      (key : ℕ) (v : Buffer) (t : MerkleTree I)
      → IsSound hashing height t
      → IsSound hashing height (update_stored_path hashing height key v t)
  unfolding update_stored_path
  update_stored_path-IsSound key v t s =
      let below = path_below hashing height t.db key (height - 1) 0 t.root in
      let new = update_path hashing height key v 0 t.root below in
      let (root, nodes) =
        update_path-IsSoundNode key v 0 t.root below s.root_sound
          (path_below-IsSoundNode t.db key (height - 1) 0 t.root s.db_sound) in
      record {
        root_sound = root;
        db_sound =
            delete_all-IsSoundDb hashing height (map (get_node_id hashing height) (t.root ∷ below))
              (put_all hashing height (new.0 ∷ new.1) t.db)
              (put_all-IsSoundDb hashing height (new.0 ∷ new.1) t.db (root, nodes) s.db_sound);
      }

  verify_and_store_partially_empty_path-IsSound :
      (key n : ℕ) (t : MerkleTree I)
      → IsSound hashing height t
      → Leaves hashing height (verify_and_store_partially_empty_path hashing height key n t)
  unfolding verify_and_store_partially_empty_path
  verify_and_store_partially_empty_path-IsSound key n t s =
      verify_and_store-IsSound
        (record {
          root_hash = t.root.hash;
          key = key;
          value = empty_buffer;
          siblings =
              reverse (path_siblings hashing height t.db key (n - 1) (height - 1) 0 (some t.root));
        })
        t s

  -- Updating a leaf keeps the tree sound.
  pub update-IsSound :
      (key : ℕ) (v : Buffer) (t : MerkleTree I)
      → IsSound hashing height t
      → IsSound hashing height (update hashing height key v t).1
  unfolding update
  update-IsSound key v t s =
      let n = length (get_nodes_in_path hashing height key t) in
      at (n == height) (verify_and_store_partially_empty_path hashing height key n t)
        (verify_and_store_partially_empty_path-IsSound key n t s)
    where
      at :
          (b : Bool) (r : Bool × MerkleTree I)
          → Leaves hashing height r
          → Leaves hashing height (
              if b
              then (true, update_stored_path hashing height key v t)
              else (if r.0
                  then (true, update_stored_path hashing height key v r.1)
                  else (false, r.1)))
      at true r h = update_stored_path-IsSound key v t s
      at false (true, t') h = update_stored_path-IsSound key v t' h
      at false (false, t') h = h

  verify_old_values-IsSound :
      (us : List MerkleUpdate) (t : MerkleTree I)
      → IsSound hashing height t
      → Leaves hashing height (verify_old_values hashing height us t)
  unfolding verify_old_values
  verify_old_values-IsSound [] t s = s
  verify_old_values-IsSound (u ∷ us) t s =
      let p : MerkleTreeInclusionProof = record {
        root_hash = t.root.hash;
        key = u.key;
        value = u.old_value;
        siblings = u.old_value_proof_siblings;
      } in
      let s' = verify_and_store-IsSound p t s in
      at (verify_and_store hashing height p t) s'
        (verify_old_values-IsSound us (verify_and_store hashing height p t).1 s')
    where
      at :
          (r : Bool × MerkleTree I)
          → Leaves hashing height r
          → Leaves hashing height (verify_old_values hashing height us r.1)
          → Leaves hashing height
              (if r.0 then verify_old_values hashing height us r.1 else (false, r.1))
      at (true, t') h k = k
      at (false, t') h k = h

  update_each-IsSound :
      (us : List MerkleUpdate) (t : MerkleTree I)
      → IsSound hashing height t
      → IsSound hashing height (update_each hashing height us t).1
  unfolding update_each
  update_each-IsSound [] t s = s
  update_each-IsSound (u ∷ us) t s =
      let s' = update-IsSound u.key u.new_value t s in
      at (update hashing height u.key u.new_value t) s'
        (update_each-IsSound us (update hashing height u.key u.new_value t).1 s')
    where
      LeavesEach : Option Bool × MerkleTree I → Type 0
      LeavesEach r = IsSound hashing height r.1

      at :
          (r : Bool × MerkleTree I)
          → Leaves hashing height r
          → IsSound hashing height (update_each hashing height us r.1).1
          → LeavesEach (if r.0 then update_each hashing height us r.1 else (none, r.1))
      at (true, t') h k = k
      at (false, t') h k = h

  pub batch_update-IsSound :
      (us : List MerkleUpdate) (t : MerkleTree I)
      → IsSound hashing height t
      → IsSound hashing height (batch_update hashing height us t).1
  unfolding batch_update
  batch_update-IsSound us t s =
      let s' = verify_old_values-IsSound us t s in
      at (verify_old_values hashing height us t) s'
        (update_each-IsSound us (verify_old_values hashing height us t).1 s')
    where
      LeavesEach : Option Bool × MerkleTree I → Type 0
      LeavesEach r = IsSound hashing height r.1

      at :
          (r : Bool × MerkleTree I)
          → Leaves hashing height r
          → IsSound hashing height (update_each hashing height us r.1).1
          → LeavesEach (if r.0 then update_each hashing height us r.1 else (some false, r.1))
      at (true, t') h k = k
      at (false, t') h k = h

  -- A tree over a sound database is sound when it is made, whatever root hash it is given.
  pub init-IsSound :
      (h : Option ℕ) (db : I → Option Buffer)
      → IsSoundDb hashing height db
      → IsSound hashing height (init hashing height h db)
  unfolding init
  init-IsSound none db d = record { root_sound = λ v e. absurd (ground (arith, e)); db_sound = d }
  init-IsSound (some h) db d = at (get_node hashing height h 0 db) refl
    where
      at :
          (o : Option MerkleTreeNode)
          → get_node hashing height h 0 db ≡ o
          → IsSound hashing height (record {
            db = db;
            root = elim o [ none ↦ record { key = 0; hash = h; value = none } | some node ↦ node ];
          })
      at none e = record { root_sound = λ v f. absurd (ground (arith, f)); db_sound = d }
      at (some n) e = record {
        root_sound = (get_node-IsSoundNode hashing height h 0 db n d e).0;
        db_sound = d;
      }
