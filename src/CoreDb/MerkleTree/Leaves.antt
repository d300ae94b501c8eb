-- ===== src/CoreDb/MerkleTree/Leaves.antt =====
-- The leaves that packages/core-db/src/app/block-production/merkle-tree.ts gives, and what storing a
-- proof does to the root.
use pigi.Prelude.{
  ℕ, zero, suc, ◌+◌, ◌-◌, ◌≡◌, refl, sym, ap, ◌∙◌, subst, Bool, true, false, ◌&&◌, Option, none,
  some, List, [], ◌∷◌, ◌++◌, length, length-append, ◌==◌, if◌then◌else◌, arith, Bool-cases,
  Option-cases, inl, inr, ==_iff, ◌⊎◌,
}
use pigi.CoreDb.MerkleTree.{
  Hashing, Buffer, halves, bytes, sibling_buffer, MerkleTreeNode, MerkleTree,
  MerkleTreeInclusionProof, get_node, get_node_key, is_left, climb, verify_and_store, path_below,
  last_node, get_leaf, get_child_sibling_hash,
}
use pigi.CoreDb.MerkleTree.Soundness.{IsSound, IsSoundNode, IsSoundDb, get_node-IsSoundNode}
use pigi.CoreDb.MerkleTree.Proofs.{hash_from, parent_hash, hash_from-append, halves-IsSoundNode}
use pigi.CoreDb.MerkleTree.Runs.{Call, run, fresh, run-fresh-IsSound}

module _ {I : Type 0} (hashing : Hashing I) (height : ℕ) where
  -- Siblings lead from one hash to another that is `n` levels above it.
  abbrev pub LeadsUp : ℕ → ℕ → ℕ → ℕ → ℕ → Type 0
  LeadsUp n depth key h top =
      (ss : List ℕ) × (length ss ≡ n) × (hash_from hashing height depth key h ss ≡ top)

  LeadsUp-more :
      (n depth key h : ℕ) (node c : MerkleTreeNode) (x y : ℕ)
      → IsSoundNode hashing height node
      → node.value ≡ some (halves x y)
      → c.hash ≡ (if is_left hashing height key depth then x else y)
      → LeadsUp n (depth + 1) key h c.hash
      → LeadsUp (suc n) depth key h node.hash
  LeadsUp-more n depth key h node c x y s f hash_of (ss, l, up) =
      let sibling = get_child_sibling_hash hashing height x y depth key in
      (
        ss ++ sibling ∷ [],
        omega (arith, l, length-append ss (sibling ∷ [])),
        hash_from-append hashing height depth key h ss sibling
            ∙ ap (λ z. parent_hash hashing height depth key z sibling) (up ∙ hash_of)
            ∙ ap hashing.hash (joined (is_left hashing height key depth))
            ∙ halves-IsSoundNode hashing height node x y s f,
      )
    where
      joined :
          (b : Bool)
          → (if b
              then halves (if b then x else y) (if b then y else x)
              else halves (if b then y else x) (if b then x else y))
            ≡ halves x y
      joined true = refl
      joined false = refl

  abbrev Reached : ℕ → ℕ → ℕ → MerkleTreeNode → List MerkleTreeNode → Type 0
  Reached n depth key node below =
      IsSoundNode hashing height (last_node hashing height node below)
      × LeadsUp n depth key (last_node hashing height node below).hash node.hash

  abbrev path_of : (I → Option Buffer) → ℕ → ℕ → ℕ → Option Buffer → List MerkleTreeNode
  path_of db key n depth o = elim o [
    | none ↦ []
    | some value ↦ elim value [
      | bytes b ↦ []
      | halves l r ↦
          elim (get_node hashing height (if is_left hashing height key depth then l else r)
            (get_node_key hashing height key (depth + 1)) db) [
              | none ↦ []
              | some child ↦ child ∷ path_below hashing height db key n (depth + 1) child
            ]
    ]
  ]

  path_below-Reached :
      (db : I → Option Buffer) (key n depth : ℕ) (node : MerkleTreeNode)
      → IsSoundNode hashing height node
      → IsSoundDb hashing height db
      → length (path_below hashing height db key n depth node) ≡ n
      → Reached n depth key node (path_below hashing height db key n depth node)
  unfolding path_below
  path_below-Reached db key zero depth node s d l = (s, ([], refl, refl))
  path_below-Reached db key (suc n) depth node s d l =
      at (λ c sound. path_below-Reached db key n (depth + 1) c sound d) node.value refl l
    where
      from :
          ((c : MerkleTreeNode)
            → IsSoundNode hashing height c
            → length (path_below hashing height db key n (depth + 1) c) ≡ n
            → Reached n (depth + 1) key c (path_below hashing height db key n (depth + 1) c))
          → (x y : ℕ) → node.value ≡ some (halves x y)
          → (o : Option MerkleTreeNode)
          → get_node hashing height
              (if is_left hashing height key depth then x else y)
              (get_node_key hashing height key (depth + 1))
              db
            ≡ o
          → length (elim o [
            | none ↦ []
            | some child ↦ child ∷ path_below hashing height db key n (depth + 1) child
          ])
            ≡ suc n
          → Reached (suc n) depth key node (elim o [
            | none ↦ []
            | some child ↦ child ∷ path_below hashing height db key n (depth + 1) child
          ])
      from ih x y f none e l = absurd (omega (arith, l))
      from ih x y f (some c) e l =
          let (sound, hash_of, key_of) =
            get_node-IsSoundNode hashing height (if is_left hashing height key depth then x else y)
              (get_node_key hashing height key (depth + 1)) db c d e in
          let (end, up) = ih c sound (omega (arith, l)) in
          (
            end,
            LeadsUp-more n depth key
                (last_node hashing height c (path_below hashing height db key n (depth + 1) c)).hash
                node c x y s f hash_of up,
          )

      at :
          ((c : MerkleTreeNode)
            → IsSoundNode hashing height c
            → length (path_below hashing height db key n (depth + 1) c) ≡ n
            → Reached n (depth + 1) key c (path_below hashing height db key n (depth + 1) c))
          → (o : Option Buffer) → node.value ≡ o
          → length (path_of db key n depth o) ≡ suc n
          → Reached (suc n) depth key node (path_of db key n depth o)
      at ih none f l = absurd (omega (arith, l))
      at ih (some (bytes b)) f l = absurd (omega (arith, l))
      at ih (some (halves x y)) f l =
          from ih x y f
            (get_node hashing height (if is_left hashing height key depth then x else y)
              (get_node_key hashing height key (depth + 1)) db)
            refl l

  -- A leaf that the tree gives
  IsLeafOf : MerkleTree I → ℕ → Buffer → Type 0
  IsLeafOf t key v = (v ≡ sibling_buffer) ⊎ LeadsUp (height - 1) 0 key (hashing.hash v) t.root.hash

  found-IsLeafOf :
      (key : ℕ) (v : Buffer) (t : MerkleTree I)
      → IsSound hashing height t
      → let nodes = path_below hashing height t.db key (height - 1) 0 t.root in
        suc (length nodes) ≡ height
        → (last_node hashing height t.root nodes).value ≡ some v
        → IsLeafOf t key v
  unfolding IsLeafOf
  found-IsLeafOf key v t s l e =
      let (sound, up) =
        path_below-Reached t.db key (height - 1) 0 t.root s.root_sound s.db_sound
          (omega (arith, l)) in
      elim (sound v e) [
        | inl mark ↦ inl mark
        | inr h ↦ inr (subst (λ z. LeadsUp (height - 1) 0 key z t.root.hash) (sym h) up)
      ]

  get_leaf-IsLeafOf :
      (key : ℕ) (root_hash : Option ℕ) (v : Buffer) (t : MerkleTree I)
      → IsSound hashing height t
      → get_leaf hashing height key root_hash t ≡ some v
      → IsLeafOf t key v
  unfolding get_leaf
  get_leaf-IsLeafOf key root_hash v t s e =
      let nodes = path_below hashing height t.db key (height - 1) 0 t.root in
      at (suc (length nodes) == height) refl (found_of root_hash e)
    where
      found : Option Buffer
      found =
          let nodes = path_below hashing height t.db key (height - 1) 0 t.root in
          let leaf = last_node hashing height t.root nodes in
          if suc (length nodes) == height && leaf.key == key then leaf.value else none

      found_of :
          (r : Option ℕ)
          → elim r [ none ↦ found | some h ↦ if h == t.root.hash then found else none ] ≡ some v
          → found ≡ some v
      found_of none f = f
      found_of (some h) f = elim (Bool-cases (h == t.root.hash)) [
        | inl same ↦ rw same at f
        | inr other ↦ absurd (ground (arith, rw other at f))
      ]

      at :
          (b : Bool)
          → suc (length (path_below hashing height t.db key (height - 1) 0 t.root)) == height ≡ b
          → found ≡ some v
          → IsLeafOf t key v
      at false full f = absurd (ground (arith, f, full))
      at true full f =
          let nodes = path_below hashing height t.db key (height - 1) 0 t.root in
          elim (Bool-cases ((last_node hashing height t.root nodes).key == key)) [
            | inr other ↦ absurd (ground (arith, f, full, other))
            | inl same ↦
                found-IsLeafOf key v t s ((==_iff (suc (length nodes)) height).0 full)
                  (ground (arith, f, full, same))
          ]

  -- After any calls on a fresh tree, a leaf that `getLeaf` gives leads up to the root by some siblings, one
  -- for each level, or is the buffer that marks a node of which only the hash is known.
  pub get_leaf-run :
      (cs : List Call) (began : Option ℕ) (key : ℕ) (root_hash : Option ℕ) (v : Buffer)
      → get_leaf hashing height key root_hash (run hashing height cs (fresh hashing height began))
        ≡ some v
      → (v ≡ sibling_buffer)
        ⊎ LeadsUp
            (height - 1)
            0
            key
            (hashing.hash v)
            (run hashing height cs (fresh hashing height began)).root.hash
  unfolding IsLeafOf
  get_leaf-run cs began key root_hash v e =
      get_leaf-IsLeafOf key root_hash v (run hashing height cs (fresh hashing height began))
        (run-fresh-IsSound hashing height cs began) e

  -- Whether or not a proof is accepted, the root hash stays.
  pub verify_and_store-root :
      (p : MerkleTreeInclusionProof) (t : MerkleTree I)
      → (verify_and_store hashing height p t).1.root.hash ≡ t.root.hash
  unfolding verify_and_store
  verify_and_store-root p t =
      let child : MerkleTreeNode = record {
        key = p.key;
        hash = hashing.hash p.value;
        value = some p.value;
      } in
      let top = (climb hashing height t.db p.key child p.siblings).0 in
      elim (Bool-cases (length p.siblings == height - 1)) [
        | inr short ↦ ground (arith, short)
        | inl full ↦
            elim (Option-cases (get_node hashing height (hashing.hash p.value) p.key t.db)) [
              | inr (n, there) ↦ ground (arith, full, there)
              | inl missing ↦ elim (Bool-cases (top.hash == t.root.hash)) [
                | inr other ↦ ground (arith, full, missing, other)
                | inl same ↦ ground (arith, full, missing, same)
              ]
            ]
      ]
