-- ===== src/CoreDb/MerkleTree/Nodes.antt =====
-- The nodes of packages/core-db/src/app/block-production/merkle-tree.ts: their keys and IDs, the paths
-- through them, and the database.
use pigi.Prelude.{
  ℕ, zero, suc, ◌+◌, ◌-◌, ◌*◌, ◌^◌, ◌/◌, ◌%◌, Bool, ◌&&◌, Option, none, some, List, [], ◌∷◌, ◌++◌,
  length, ◌==◌, if◌then◌else◌,
}
use pigi.CoreDb.MerkleTree.Data.{
  Buffer, halves, bytes, sibling_buffer, MerkleTreeNode, Hashing, MerkleTree,
}

module _ {I : Type 0} (hashing : Hashing I) (height : ℕ) where
  -- `isLeft`
  unfoldable pub is_left : ℕ → ℕ → Bool
  is_left key depth = (key * 2 ^ depth / 2 ^ (height - 2)) % 2 == 0

  -- `getNodeKey`, for a depth below the height
  unfoldable pub get_node_key : ℕ → ℕ → ℕ
  get_node_key leaf_key depth = leaf_key / 2 ^ (height - depth - 1)

  -- The sibling's key: `xor(ONE)`
  abbrev pub sibling_key : ℕ → ℕ
  sibling_key k = if k % 2 == 0 then k + 1 else k - 1

  abbrev pub get_node_id : MerkleTreeNode → I
  get_node_id n = hashing.node_id n.hash n.key

  -- `getNode`
  unfoldable pub get_node : ℕ → ℕ → (I → Option Buffer) → Option MerkleTreeNode
  get_node node_hash node_key db = elim (db (hashing.node_id node_hash node_key)) [
    | none ↦ none
    | some value ↦ some (record { key = node_key; hash = node_hash; value = some value })
  ]

  -- `getNodesInPath`, below a node of the given depth
  unfoldable pub path_below : (I → Option Buffer) → ℕ → ℕ → ℕ → MerkleTreeNode → List MerkleTreeNode
  unfolding get_node is_left get_node_key
  path_below db key zero depth node = []
  path_below db key (suc n) depth node = elim node.value [
    | none ↦ []
    | some value ↦ elim value [
      | bytes b ↦ []
      | halves l r ↦
          elim (get_node (if is_left key depth then l else r) (get_node_key key (depth + 1)) db) [
            | none ↦ []
            | some child ↦ child ∷ path_below db key n (depth + 1) child
          ]
    ]
  ]

  -- `getNodesInPath`
  unfoldable pub get_nodes_in_path : ℕ → MerkleTree I → List MerkleTreeNode
  unfolding path_below
  get_nodes_in_path key t = t.root ∷ path_below t.db key (height - 1) 0 t.root

  abbrev pub last_node : MerkleTreeNode → List MerkleTreeNode → MerkleTreeNode
  last_node n [] = n
  last_node n (m ∷ ms) = last_node m ms

  -- `getLeaf`
  unfoldable pub get_leaf : ℕ → Option ℕ → MerkleTree I → Option Buffer
  unfolding get_nodes_in_path
  get_leaf leaf_key root_hash t =
      let nodes = path_below t.db leaf_key (height - 1) 0 t.root in
      let leaf = last_node t.root nodes in
      let found =
        if suc (length nodes) == height && leaf.key == leaf_key then leaf.value else none in
      elim root_hash [ none ↦ found | some h ↦ if h == t.root.hash then found else none ]

  -- `calculateParentNode`
  unfoldable pub calculate_parent_node : MerkleTreeNode → ℕ → ℕ → ℕ → MerkleTreeNode
  unfolding is_left get_node_key
  calculate_parent_node node sibling_hash leaf_key depth =
      let value =
        if is_left leaf_key depth
        then halves node.hash sibling_hash
        else halves sibling_hash node.hash in
      record { key = get_node_key leaf_key depth; hash = hashing.hash value; value = some value }

  -- `createProofSiblingNodeIfDoesntExist`, as the list of the node that is created
  unfoldable pub create_proof_sibling_node : ℕ → ℕ → ℕ → (I → Option Buffer) → List MerkleTreeNode
  unfolding get_node get_node_key
  create_proof_sibling_node node_hash leaf_key depth db =
      let node_key = sibling_key (get_node_key leaf_key depth) in
      elim (get_node node_hash node_key db) [
        | some node ↦ []
        | none ↦ record { key = node_key; hash = node_hash; value = some sibling_buffer } ∷ []
      ]

  -- The loop of `verifyAndStore` over the siblings from the leaf up: the last parent, and the nodes to
  -- store.
  unfoldable pub climb :
      (I → Option Buffer) → ℕ → MerkleTreeNode → List ℕ → MerkleTreeNode × List MerkleTreeNode
  unfolding calculate_parent_node create_proof_sibling_node
  climb db key child [] = (child, [])
  climb db key child (sibling_hash ∷ more) =
      let depth = length more in
      let parent = calculate_parent_node child sibling_hash key depth in
      let (top, nodes) = climb db key parent more in
      (top, parent ∷ create_proof_sibling_node sibling_hash key (depth + 1) db ++ nodes)

  -- `db.put` and `db.del`
  abbrev pub put : MerkleTreeNode → (I → Option Buffer) → I → Option Buffer
  put n db i = if hashing.same_id i (get_node_id n) then n.value else db i

  abbrev pub put_all : List MerkleTreeNode → (I → Option Buffer) → I → Option Buffer
  put_all [] db = db
  put_all (n ∷ ns) db = put_all ns (put n db)

  abbrev pub delete_all : List I → (I → Option Buffer) → I → Option Buffer
  delete_all [] db = db
  delete_all (j ∷ js) db = delete_all js (λ i. if hashing.same_id i j then none else db i)
