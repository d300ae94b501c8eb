-- ===== src/CoreDb/MerkleTree.antt =====
-- `SparseMerkleTreeImpl` of packages/core-db/src/app/block-production/merkle-tree.ts. Hashes are
-- numbers; of other buffers, one of 64 bytes is its two halves, and the rest are numbered. Each call
-- runs to its end, as under the tree's lock; the puts of a call come before its deletions, as they are
-- issued.
mod Data
mod Nodes
pub mod Soundness
pub mod Operations
pub mod Proofs
pub mod Runs
pub mod Leaves
mod Examples
unfoldable pub use Data.*
unfoldable pub use Nodes.*
use pigi.Prelude.{
  ℕ, zero, suc, ◌+◌, ◌-◌, ◌*◌, ◌^◌, ◌/◌, ◌%◌, Bool, true, false, not, ◌&&◌, ◌||◌, Option, none,
  some, List, [], ◌∷◌, ◌++◌, length, map, ltb, ◌==◌, if◌then◌else◌,
}
use mathlib.Core.List.{reverse}

module _ {I : Type 0} (hashing : Hashing I) (height : ℕ) where
  -- `verifyAndStore`
  unfoldable pub verify_and_store : MerkleTreeInclusionProof → MerkleTree I → Bool × MerkleTree I
  unfolding get_nodes_in_path climb
  verify_and_store proof t =
      let leaf_hash = hashing.hash proof.value in
      let child : MerkleTreeNode = record {
        key = proof.key;
        hash = leaf_hash;
        value = some proof.value;
      } in
      let (parent, nodes) = climb hashing height t.db proof.key child proof.siblings in
      if not (length proof.siblings == height - 1)
      then (false, t)
      else elim (get_node hashing height leaf_hash proof.key t.db) [
        | some node ↦ (true, t)
        | none ↦
            if parent.hash == t.root.hash
            then (
              true,
              record {
                root = parent;
                db = put_all hashing height (child ∷ nodes) (
                    delete_all hashing height
                      (map (get_node_id hashing height)
                        (get_nodes_in_path hashing height proof.key t))
                      t.db);
              },
            )
            else (false, t)
      ]

  -- The zero hash of a node that is `n` levels above the leaves, and `zeroHashes`, the root's first
  abbrev pub zero_hash : ℕ → ℕ
  zero_hash zero = hashing.hash empty_buffer
  zero_hash (suc n) = hashing.hash (halves (zero_hash n) (zero_hash n))

  abbrev pub zero_hashes : ℕ → List ℕ
  zero_hashes zero = []
  zero_hashes (suc n) = zero_hash n ∷ zero_hashes n

  abbrev pub drop : ℕ → List ℕ → List ℕ
  drop zero hs = hs
  drop (suc n) [] = []
  drop (suc n) (h ∷ hs) = drop n hs

  -- `getChildSiblingHash`, of a node that has children
  abbrev pub get_child_sibling_hash : ℕ → ℕ → ℕ → ℕ → ℕ
  get_child_sibling_hash l r depth leaf_key = if is_left hashing height leaf_key depth then r else l

  -- `getChild`, of a node that has children
  abbrev pub get_child : (I → Option Buffer) → ℕ → ℕ → ℕ → ℕ → Option MerkleTreeNode
  get_child db l r depth leaf_key =
      get_node hashing height (if is_left hashing height leaf_key depth then l else r)
        (get_node_key hashing height leaf_key (depth + 1)) db

  abbrev pub node_value : Option MerkleTreeNode → Option Buffer
  node_value none = none
  node_value (some n) = n.value

  -- The loop of `verifyAndStorePartiallyEmptyPath`, from the level `i` down. Above the last existing
  -- node there are only nodes that have children.
  unfoldable pub path_siblings :
      (I → Option Buffer) → ℕ → ℕ → ℕ → ℕ → Option MerkleTreeNode → List ℕ
  unfolding get_node is_left get_node_key
  path_siblings db key existing_children zero i reached = []
  path_siblings db key existing_children (suc n) i reached =
      let empty_below = drop (i + 1) (zero_hashes height) in
      elim (node_value reached) [
        | none ↦ empty_below
        | some value ↦ elim value [
          | bytes b ↦ empty_below
          | halves l r ↦
              let below =
                path_siblings db key existing_children n (i + 1) (get_child db l r i key) in
              if ltb existing_children i
              then empty_below
              else get_child_sibling_hash l r i key ∷ below
        ]
      ]

  -- `verifyAndStorePartiallyEmptyPath`
  unfoldable pub verify_and_store_partially_empty_path : ℕ → ℕ → MerkleTree I → Bool × MerkleTree I
  unfolding path_siblings verify_and_store
  verify_and_store_partially_empty_path leaf_key num_existing_nodes t =
      verify_and_store
        (record {
          root_hash = t.root.hash;
          key = leaf_key;
          value = empty_buffer;
          siblings =
              reverse
                (path_siblings t.db leaf_key (num_existing_nodes - 1) (height - 1) 0 (some t.root));
        })
        t

  -- `updateNode`; every node above the leaf has children.
  unfoldable pub update_node : MerkleTreeNode → ℕ → ℕ → ℕ → MerkleTreeNode
  unfolding is_left
  update_node node child_hash key depth = elim node.value [
    | none ↦ node
    | some value ↦ elim value [
      | bytes b ↦ node
      | halves l r ↦
          let value' =
            if is_left hashing height key depth then halves child_hash r else halves l child_hash in
          record node { hash = hashing.hash value'; value = some value' }
    ]
  ]

  -- The nodes of a path from the given depth on with a new leaf: the first, and those below it
  unfoldable pub update_path :
      ℕ → Buffer → ℕ → MerkleTreeNode → List MerkleTreeNode → MerkleTreeNode × List MerkleTreeNode
  unfolding update_node
  update_path key leaf_value depth leaf [] =
      (record leaf { hash = hashing.hash leaf_value; value = some leaf_value }, [])
  update_path key leaf_value depth node (child ∷ more) =
      let (child', below) = update_path key leaf_value (depth + 1) child more in
      (update_node node child'.hash key depth, child' ∷ below)

  -- `update`, once the path is stored
  unfoldable pub update_stored_path : ℕ → Buffer → MerkleTree I → MerkleTree I
  unfolding update_path get_nodes_in_path
  update_stored_path leaf_key leaf_value t =
      let below = path_below hashing height t.db leaf_key (height - 1) 0 t.root in
      let (root, below') = update_path leaf_key leaf_value 0 t.root below in
      record {
        root = root;
        db =
            delete_all hashing height (map (get_node_id hashing height) (t.root ∷ below))
              (put_all hashing height (root ∷ below') t.db);
      }

  -- `update`
  unfoldable pub update : ℕ → Buffer → MerkleTree I → Bool × MerkleTree I
  unfolding verify_and_store_partially_empty_path update_stored_path
  update leaf_key leaf_value t =
      let existing = length (get_nodes_in_path hashing height leaf_key t) in
      if existing == height
      then (true, update_stored_path leaf_key leaf_value t)
      else (let (stored, t') = verify_and_store_partially_empty_path leaf_key existing t in
          if stored then (true, update_stored_path leaf_key leaf_value t') else (false, t'))

  -- `batchUpdate`; the old values first, and then the updates. `none` is the error that is thrown where
  -- an update fails.
  unfoldable pub verify_old_values : List MerkleUpdate → MerkleTree I → Bool × MerkleTree I
  unfolding verify_and_store
  verify_old_values [] t = (true, t)
  verify_old_values (u ∷ us) t =
      let (stored, t') =
        verify_and_store
          (record {
            root_hash = t.root.hash;
            key = u.key;
            value = u.old_value;
            siblings = u.old_value_proof_siblings;
          })
          t in
      let rest = verify_old_values us t' in if stored then rest else (false, t')

  unfoldable pub update_each : List MerkleUpdate → MerkleTree I → Option Bool × MerkleTree I
  unfolding update
  update_each [] t = (some true, t)
  update_each (u ∷ us) t =
      let (updated, t') = update u.key u.new_value t in
      let rest = update_each us t' in if updated then rest else (none, t')

  unfoldable pub batch_update : List MerkleUpdate → MerkleTree I → Option Bool × MerkleTree I
  unfolding verify_old_values update_each
  batch_update us t =
      let (verified, t') = verify_old_values us t in
      if verified then update_each us t' else (some false, t')

  -- The loop of `getMerkleProof`: the siblings from the root down, and the node where it ends
  unfoldable pub proof_path :
      (I → Option Buffer) → ℕ → ℕ → ℕ → Option MerkleTreeNode → List ℕ × Option MerkleTreeNode
  unfolding get_node is_left get_node_key
  proof_path db key zero depth reached = ([], reached)
  proof_path db key (suc n) depth reached = elim (node_value reached) [
    | none ↦ ([], reached)
    | some value ↦ elim value [
      | bytes b ↦ ([], reached)
      | halves l r ↦
          let (siblings, end) = proof_path db key n (depth + 1) (get_child db l r depth key) in
          (get_child_sibling_hash l r depth key ∷ siblings, end)
    ]
  ]

  abbrev pub answer_of : ℕ → Buffer → MerkleTree I → MerkleTreeNode → List ℕ → Reading
  answer_of leaf_key leaf_value t node siblings =
      if node.hash == hashing.hash leaf_value
      then proven (record {
        root_hash = t.root.hash;
        key = leaf_key;
        value = leaf_value;
        siblings = reverse siblings;
      })
      else other_leaf

  -- `getMerkleProof` up to its answer under the lock. Below a leaf of 64 bytes the loop goes on, and the
  -- shift of the key by a negative number is an error.
  unfoldable pub read_merkle_proof : ℕ → Buffer → MerkleTree I → Reading
  unfolding proof_path
  read_merkle_proof leaf_key leaf_value t =
      let (siblings, end) = proof_path t.db leaf_key (height - 1) 0 (some t.root) in
      if not (length siblings == height - 1) then not_stored else elim end [
        | none ↦ thrown
        | some node ↦ elim node.value [
          | some value ↦ elim value [
            | halves l r ↦ thrown
            | bytes b ↦ answer_of leaf_key leaf_value t node siblings
          ]
          | none ↦ answer_of leaf_key leaf_value t node siblings
        ]
      ]

  -- `populateZeroHashesAndRoot`, for an optional root hash
  unfoldable pub init : Option ℕ → (I → Option Buffer) → MerkleTree I
  unfolding get_node
  init root_hash db =
      let fresh : ℕ → MerkleTreeNode = λ h. record { key = 0; hash = h; value = none } in
      record {
        db = db;
        root = elim root_hash [
          | none ↦ fresh (elim (zero_hashes height) [ [] ↦ 0 | h ∷ hs ↦ h ])
          | some h ↦ elim (get_node hashing height h 0 db) [ none ↦ fresh h | some node ↦ node ]
        ];
      }
