-- ===== src/CoreDb/MerkleTree/Soundness.antt =====
-- The nodes that packages/core-db/src/app/block-production/merkle-tree.ts stores carry their own hashes.
use pigi.Prelude.{
  ℕ, ◌+◌, ◌≡◌, refl, sym, ap, ◌∙◌, subst, Bool, Option, none, some, List, [], ◌∷◌, ◌++◌, length,
  if◌then◌else◌, arith, Bool-cases, Option-cases, inl, inr, ◌⊎◌, All,
}
use pigi.CoreDb.MerkleTree.{
  Hashing, Buffer, halves, sibling_buffer, MerkleTreeNode, MerkleTree, get_node, get_node_key,
  is_left, sibling_key, calculate_parent_node, create_proof_sibling_node, climb, put, put_all,
  delete_all,
}

module _ {I : Type 0} (hashing : Hashing I) (height : ℕ) where
  -- A stored value is the one that its hash says, or the mark of a node of which only the hash is known.
  abbrev pub HasHash : ℕ → Buffer → Type 0
  HasHash h v = (v ≡ sibling_buffer) ⊎ (hashing.hash v ≡ h)

  abbrev pub IsSoundNode : MerkleTreeNode → Type 0
  IsSoundNode n = (v : Buffer) → n.value ≡ some v → HasHash n.hash v

  abbrev pub IsSoundDb : (I → Option Buffer) → Type 0
  IsSoundDb db = (h k : ℕ) (v : Buffer) → db (hashing.node_id h k) ≡ some v → HasHash h v

  pub record IsSound (t : MerkleTree I) : Type 0 where
    pub root_sound : IsSoundNode t.root
    pub db_sound : IsSoundDb t.db

  abbrev pub Leaves : Bool × MerkleTree I → Type 0
  Leaves r = IsSound r.1

  pub put-IsSoundDb :
      (n : MerkleTreeNode) (db : I → Option Buffer)
      → IsSoundNode n
      → IsSoundDb db
      → IsSoundDb (put hashing height n db)
  put-IsSoundDb n db s d h k v e =
      elim (Bool-cases (hashing.same_id (hashing.node_id h k) (hashing.node_id n.hash n.key))) [
        | inl same ↦
            let here = hashing.same_id-node_id h k n.hash n.key same in
            subst (λ x. HasHash x v) (sym here.0) (s v (rw same at e))
        | inr other ↦ d h k v (rw other at e)
      ]

  pub put_all-IsSoundDb :
      (ns : List MerkleTreeNode) (db : I → Option Buffer)
      → All IsSoundNode ns
      → IsSoundDb db
      → IsSoundDb (put_all hashing height ns db)
  put_all-IsSoundDb [] db s d = d
  put_all-IsSoundDb (n ∷ ns) db s d =
      put_all-IsSoundDb ns (put hashing height n db) s.1 (put-IsSoundDb n db s.0 d)

  pub delete_all-IsSoundDb :
      (js : List I) (db : I → Option Buffer)
      → IsSoundDb db
      → IsSoundDb (delete_all hashing height js db)
  delete_all-IsSoundDb [] db d = d
  delete_all-IsSoundDb (j ∷ js) db d =
      delete_all-IsSoundDb js (λ i. if hashing.same_id i j then none else db i)
        (λ h k v e. elim (Bool-cases (hashing.same_id (hashing.node_id h k) j)) [
          | inl same ↦ absurd (ground (arith, same, e))
          | inr other ↦ d h k v (rw other at e)
        ])

  pub get_node-IsSoundNode :
      (h k : ℕ) (db : I → Option Buffer) (n : MerkleTreeNode)
      → IsSoundDb db
      → get_node hashing height h k db ≡ some n
      → IsSoundNode n × (n.hash ≡ h) × (n.key ≡ k)
  unfolding get_node
  get_node-IsSoundNode h k db n d e = elim (Option-cases (db (hashing.node_id h k))) [
    | inl missing ↦ absurd (ground (arith, e, missing))
    | inr (v, there) ↦
        let q : record { key = k; hash = h; value = some v } ≡ n = ground (arith, e, there) in
        subst (λ x. IsSoundNode x × (x.hash ≡ h) × (x.key ≡ k)) q
          (
            λ v' e'. let same : v ≡ v' = ground (arith, e') in d h k v' (there ∙ ap some same),
            refl,
            refl,
          )
  ]

  -- A node whose hash is computed
  pub hashed :
      (k : ℕ) (v : Buffer) → IsSoundNode (record { key = k; hash = hashing.hash v; value = some v })
  hashed k v v' e = let same : v ≡ v' = ground (arith, e) in inr (ap hashing.hash (sym same))

  pub calculate_parent_node-IsSoundNode :
      (n : MerkleTreeNode) (s key depth : ℕ)
      → IsSoundNode (calculate_parent_node hashing height n s key depth)
  unfolding calculate_parent_node
  calculate_parent_node-IsSoundNode n s key depth =
      hashed (get_node_key hashing height key depth)
        (if is_left hashing height key depth then halves n.hash s else halves s n.hash)

  pub All-append :
      (xs ys : List MerkleTreeNode)
      → All IsSoundNode xs
      → All IsSoundNode ys
      → All IsSoundNode (xs ++ ys)
  All-append [] ys h k = k
  All-append (x ∷ xs) ys h k = (h.0, All-append xs ys h.1 k)

  pub create_proof_sibling_node-IsSoundNode :
      (s key depth : ℕ) (db : I → Option Buffer)
      → All IsSoundNode (create_proof_sibling_node hashing height s key depth db)
  unfolding create_proof_sibling_node
  create_proof_sibling_node-IsSoundNode s key depth db = at (
      get_node hashing height s (sibling_key hashing height (get_node_key hashing height key depth))
        db)
    where
      at :
          (o : Option MerkleTreeNode)
          → All IsSoundNode (elim o [
            | some node ↦ []
            | none ↦
                record {
                  key = sibling_key hashing height (get_node_key hashing height key depth);
                  hash = s;
                  value = some sibling_buffer;
                }
                ∷ []
          ])
      at (some n) = tt
      at none = (λ v e. let same : sibling_buffer ≡ v = ground (arith, e) in inl (sym same), tt)

  pub climb-IsSoundNode :
      (db : I → Option Buffer) (key : ℕ) (child : MerkleTreeNode) (siblings : List ℕ)
      → IsSoundNode child
      → IsSoundNode (climb hashing height db key child siblings).0
        × All IsSoundNode (climb hashing height db key child siblings).1
  unfolding climb
  climb-IsSoundNode db key child [] h = (h, tt)
  climb-IsSoundNode db key child (s ∷ more) h =
      let parent = calculate_parent_node hashing height child s key (length more) in
      let sound = calculate_parent_node-IsSoundNode child s key (length more) in
      let (top, nodes) = climb-IsSoundNode db key parent more sound in
      (
        top,
        (
          sound,
          All-append (create_proof_sibling_node hashing height s key (length more + 1) db)
              (climb hashing height db key parent more).1
              (create_proof_sibling_node-IsSoundNode s key (length more + 1) db) nodes,
        ),
      )
