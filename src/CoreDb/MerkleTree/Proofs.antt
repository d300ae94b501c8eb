-- ===== src/CoreDb/MerkleTree/Proofs.antt =====
-- The proofs and leaves that packages/core-db/src/app/block-production/merkle-tree.ts gives.
use pigi.Prelude.{
  ℕ, zero, suc, ◌+◌, ◌≡◌, refl, sym, ap, ◌∙◌, Bool, true, false, Option, none, some, List, [], ◌∷◌,
  ◌++◌, length, length-append, if◌then◌else◌, arith, Option-cases, inl, inr,
}
use mathlib.Core.List.{reverse, reverse_aux-eq}
use pigi.CoreDb.MerkleTree.{
  Hashing, Buffer, halves, bytes, MerkleTreeNode, get_node_key, is_left, calculate_parent_node,
  climb, proof_path, get_child, get_child_sibling_hash,
}
use pigi.CoreDb.MerkleTree.Soundness.{IsSoundNode, IsSoundDb, get_node-IsSoundNode}

module _ {I : Type 0} (hashing : Hashing I) (height : ℕ) where
  abbrev pub parent_hash : ℕ → ℕ → ℕ → ℕ → ℕ
  parent_hash depth key h s =
      hashing.hash (if is_left hashing height key depth then halves h s else halves s h)

  -- The hash at the given depth, from that of a node below it and the siblings from there up
  abbrev pub hash_from : ℕ → ℕ → ℕ → List ℕ → ℕ
  hash_from depth key h [] = h
  hash_from depth key h (s ∷ ss) = hash_from depth key (parent_hash (depth + length ss) key h s) ss

  pub climb-hash_from :
      (db : I → Option Buffer) (key : ℕ) (child : MerkleTreeNode) (ss : List ℕ)
      → (climb hashing height db key child ss).0.hash ≡ hash_from 0 key child.hash ss
  unfolding climb calculate_parent_node
  climb-hash_from db key child [] = refl
  climb-hash_from db key child (s ∷ ss) =
      climb-hash_from db key (calculate_parent_node hashing height child s key (length ss)) ss
      ∙ ap (λ d. hash_from 0 key (parent_hash d key child.hash s) ss) (omega arith)

  pub hash_from-append :
      (depth key h : ℕ) (ss : List ℕ) (s : ℕ)
      → hash_from depth key h (ss ++ s ∷ [])
        ≡ parent_hash depth key (hash_from (depth + 1) key h ss) s
  hash_from-append depth key h [] s = ap (λ d. parent_hash d key h s) (omega arith)
  hash_from-append depth key h (x ∷ ss) s =
      hash_from-append depth key (parent_hash (depth + length (ss ++ s ∷ [])) key h x) ss s
      ∙ ap (λ n. parent_hash depth key (hash_from (depth + 1) key (parent_hash n key h x) ss) s)
          (omega (arith, length-append ss (s ∷ [])))

  -- A step of the loop, for the value of a node
  abbrev end_of :
      (I → Option Buffer)
      → ℕ
      → ℕ
      → ℕ
      → MerkleTreeNode
      → Option Buffer
      → List ℕ × Option MerkleTreeNode
  end_of db key n depth node o = elim o [
    | none ↦ ([], some node)
    | some value ↦ elim value [
      | bytes b ↦ ([], some node)
      | halves l r ↦
          let (siblings, end) =
            proof_path hashing height db key n (depth + 1)
              (get_child hashing height db l r depth key) in
          (get_child_sibling_hash hashing height l r depth key ∷ siblings, end)
    ]
  ]

  proof_path-none :
      (db : I → Option Buffer) (key n depth : ℕ)
      → proof_path hashing height db key n depth none ≡ ([], none)
  unfolding proof_path
  proof_path-none db key zero depth = refl
  proof_path-none db key (suc n) depth = refl

  pub halves-IsSoundNode :
      (n : MerkleTreeNode) (l r : ℕ)
      → IsSoundNode hashing height n
      → n.value ≡ some (halves l r)
      → hashing.hash (halves l r) ≡ n.hash
  halves-IsSoundNode n l r s e = elim (s (halves l r) e) [
    | inl mark ↦ absurd (ground (arith, mark))
    | inr h ↦ h
  ]

  -- One level up, from a child to its parent
  hash_from-child :
      (key depth h : ℕ) (node c : MerkleTreeNode) (ss : List ℕ) (x y : ℕ)
      → IsSoundNode hashing height node
      → node.value ≡ some (halves x y)
      → c.hash ≡ (if is_left hashing height key depth then x else y)
      → hash_from (depth + 1) key h (reverse ss) ≡ c.hash
      → hash_from depth key h (reverse (get_child_sibling_hash hashing height x y depth key ∷ ss))
        ≡ node.hash
  hash_from-child key depth h node c ss x y s f hash_of up =
      let sibling = get_child_sibling_hash hashing height x y depth key in
      ap (hash_from depth key h) (reverse_aux-eq ss (sibling ∷ []))
      ∙ hash_from-append depth key h (reverse ss) sibling
      ∙ ap (λ z. parent_hash depth key z sibling) (up ∙ hash_of)
      ∙ ap hashing.hash (joined (is_left hashing height key depth))
      ∙ halves-IsSoundNode node x y s f
    where
      joined :
          (b : Bool)
          → (if b
              then halves (if b then x else y) (if b then y else x)
              else halves (if b then y else x) (if b then x else y))
            ≡ halves x y
      joined true = refl
      joined false = refl

  -- The proof path from a node down to a leaf
  pub proof_path-hash_from :
      (db : I → Option Buffer) (key n depth : ℕ) (node m : MerkleTreeNode)
      → IsSoundNode hashing height node
      → IsSoundDb hashing height db
      → let (ss, end) = proof_path hashing height db key n depth (some node) in
        length ss ≡ n → end ≡ some m → hash_from depth key m.hash (reverse ss) ≡ node.hash
  unfolding proof_path
  proof_path-hash_from db key zero depth node m s d l e =
      let same : node ≡ m = ground (arith, e) in ap (λ x. x.hash) (sym same)
  proof_path-hash_from db key (suc n) depth node m s d l e =
      at (λ c. proof_path-hash_from db key n (depth + 1) c m) node.value refl l e
    where
      at :
          ((c : MerkleTreeNode)
            → IsSoundNode hashing height c
            → IsSoundDb hashing height db
            → length (proof_path hashing height db key n (depth + 1) (some c)).0 ≡ n
            → (proof_path hashing height db key n (depth + 1) (some c)).1 ≡ some m
            → hash_from
                (depth + 1)
                key
                m.hash
                (reverse (proof_path hashing height db key n (depth + 1) (some c)).0)
              ≡ c.hash)
          → (o : Option Buffer) → node.value ≡ o
          → length (end_of db key n depth node o).0 ≡ suc n
          → (end_of db key n depth node o).1 ≡ some m
          → hash_from depth key m.hash (reverse (end_of db key n depth node o).0) ≡ node.hash
      at ih none f l e = absurd (omega (arith, l))
      at ih (some (bytes b)) f l e = absurd (omega (arith, l))
      at ih (some (halves x y)) f l e =
          elim (Option-cases (get_child hashing height db x y depth key)) [
            | inl missing ↦
                let q : (proof_path hashing height db key n (depth + 1)
                      (get_child hashing height db x y depth key))
                    ≡ ([], none) =
                  ap (proof_path hashing height db key n (depth + 1)) missing
                  ∙ proof_path-none db key n (depth + 1) in
                absurd (ground (arith, e, q))
            | inr (c, there) ↦
                let (sound, hash_of, key_of) =
                  get_node-IsSoundNode hashing height
                    (if is_left hashing height key depth then x else y)
                    (get_node_key hashing height key (depth + 1)) db c d there in
                let l' : length (proof_path hashing height db key n (depth + 1) (some c)).0 ≡ n =
                  omega (arith, rw there at l) in
                let up = ih c sound d l' (rw there at e) in
                rw there (
                  hash_from-child key depth m.hash node c
                    (proof_path hashing height db key n (depth + 1) (some c)).0 x y s f hash_of up)
          ]
