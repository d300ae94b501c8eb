-- ===== src/CoreDb/MerkleTree/Runs.antt =====
-- Any calls on a tree of packages/core-db/src/app/block-production/merkle-tree.ts, and the proofs that it
-- gives after them.
use pigi.Prelude.{
  ℕ, ◌+◌, ◌-◌, ◌≡◌, refl, sym, ap, ◌∙◌, subst, true, not, Option, none, some, List, [], ◌∷◌, length,
  ◌==◌, if◌then◌else◌, arith, Bool-cases, Option-cases, inl, inr, ==_iff,
}
use mathlib.Core.List.{reverse, reverse_aux}
use pigi.CoreDb.MerkleTree.{
  Hashing, Buffer, halves, bytes, MerkleTreeNode, MerkleTree, MerkleTreeInclusionProof,
  MerkleUpdate, proven, not_stored, thrown, get_node, climb, verify_and_store, proof_path,
  answer_of, read_merkle_proof, update, batch_update, init,
}
use pigi.CoreDb.MerkleTree.Soundness.{IsSound}
use pigi.CoreDb.MerkleTree.Operations.{
  verify_and_store-IsSound, update-IsSound, batch_update-IsSound, init-IsSound,
}
use pigi.CoreDb.MerkleTree.Proofs.{hash_from, climb-hash_from, proof_path-hash_from}

pub data Call : Type 0 where
  update_leaf : ℕ → Buffer → Call
  store_proof : MerkleTreeInclusionProof → Call
  update_batch : List MerkleUpdate → Call

length-reverse_aux : (xs ys : List ℕ) → length (reverse_aux xs ys) ≡ length xs + length ys
length-reverse_aux [] ys = omega arith
length-reverse_aux (x ∷ xs) ys = omega (arith, length-reverse_aux xs (x ∷ ys))

module _ {I : Type 0} (hashing : Hashing I) (height : ℕ) where
  abbrev pub answer : Call → MerkleTree I → MerkleTree I
  answer (update_leaf key v) t = (update hashing height key v t).1
  answer (store_proof p) t = (verify_and_store hashing height p t).1
  answer (update_batch us) t = (batch_update hashing height us t).1

  -- The calls one after another on a tree over an empty database
  unfoldable pub run : List Call → MerkleTree I → MerkleTree I
  run [] t = t
  run (c ∷ cs) t = run cs (answer c t)

  abbrev pub fresh : Option ℕ → MerkleTree I
  fresh root_hash = init hashing height root_hash (λ i. none)

  run-IsSound :
      (cs : List Call) (t : MerkleTree I)
      → IsSound hashing height t
      → IsSound hashing height (run cs t)
  unfolding run
  run-IsSound [] t s = s
  run-IsSound (update_leaf key v ∷ cs) t s =
      run-IsSound cs (answer (update_leaf key v) t) (update-IsSound hashing height key v t s)
  run-IsSound (store_proof p ∷ cs) t s =
      run-IsSound cs (answer (store_proof p) t) (verify_and_store-IsSound hashing height p t s)
  run-IsSound (update_batch us ∷ cs) t s =
      run-IsSound cs (answer (update_batch us) t) (batch_update-IsSound hashing height us t s)

  -- After any calls on a tree that began with any root hash and an empty database, each stored node is
  -- the one that its hash says or the mark of a node of which only the hash is known.
  pub run-fresh-IsSound :
      (cs : List Call) (root_hash : Option ℕ) → IsSound hashing height (run cs (fresh root_hash))
  run-fresh-IsSound cs root_hash =
      run-IsSound cs (fresh root_hash)
        (init-IsSound hashing height root_hash (λ i. none) (λ h k v e. absurd (ground (arith, e))))

  -- A proof leads from the leaf to the root.
  pub record Proves (p : MerkleTreeInclusionProof) (key : ℕ) (v : Buffer) (root_hash : ℕ)
      : Type 0 where
    pub of_key : p.key ≡ key
    pub of_value : p.value ≡ v
    pub of_root : p.root_hash ≡ root_hash
    pub complete : length p.siblings ≡ height - 1
    pub leads_up : hash_from hashing height 0 key (hashing.hash v) p.siblings ≡ root_hash

  read_merkle_proof-Proves :
      (key : ℕ) (v : Buffer) (t : MerkleTree I) (p : MerkleTreeInclusionProof)
      → IsSound hashing height t
      → read_merkle_proof hashing height key v t ≡ proven p
      → Proves p key v t.root.hash
  unfolding read_merkle_proof
  read_merkle_proof-Proves key v t p s e =
      at (proof_path hashing height t.db key (height - 1) 0 (some t.root)) refl e
    where
      leaf :
          (n : MerkleTreeNode) (siblings : List ℕ)
          → proof_path hashing height t.db key (height - 1) 0 (some t.root) ≡ (siblings, some n)
          → length siblings ≡ height - 1
          → answer_of hashing height key v t n siblings ≡ proven p
          → Proves p key v t.root.hash
      leaf n siblings f l e = elim (Bool-cases (n.hash == hashing.hash v)) [
        | inr other ↦ absurd (ground (arith, e, other))
        | inl same ↦
            let q : record {
              root_hash = t.root.hash;
              key = key;
              value = v;
              siblings = reverse siblings;
            }
                ≡ p =
              ground (arith, e, same) in
            let path =
              proof_path-hash_from hashing height t.db key (height - 1) 0 t.root n s.root_sound
                s.db_sound (ap (λ r. length r.0) f ∙ l) (ap (λ r. r.1) f) in
            subst (λ x. Proves x key v t.root.hash) q
              (record {
                of_key = refl;
                of_value = refl;
                of_root = refl;
                complete = length-reverse_aux siblings [] ∙ omega (arith, l);
                leads_up =
                    ap (λ h. hash_from hashing height 0 key h (reverse siblings))
                      (sym ((==_iff n.hash (hashing.hash v)).0 same))
                    ∙ ap (λ r. hash_from hashing height 0 key n.hash (reverse r.0)) (sym f)
                    ∙ path;
              })
      ]

      at :
          (r : List ℕ × Option MerkleTreeNode)
          → proof_path hashing height t.db key (height - 1) 0 (some t.root) ≡ r
          → (if not (length r.0 == height - 1) then not_stored else elim r.1 [
            | none ↦ thrown
            | some node ↦ elim node.value [
              | some value ↦ elim value [
                | halves l r ↦ thrown
                | bytes b ↦ answer_of hashing height key v t node r.0
              ]
              | none ↦ answer_of hashing height key v t node r.0
            ]
          ])
            ≡ proven p
          → Proves p key v t.root.hash
      at (siblings, none) f e = absurd (ground (arith, e))
      at (siblings, some n) f e = elim (Bool-cases (length siblings == height - 1)) [
        | inr short ↦ absurd (ground (arith, e, short))
        | inl full ↦
            leaf n siblings f ((==_iff (length siblings) (height - 1)).0 full)
              (of_value n.value refl (rw full at e))
      ]
        where
          of_value :
              (o : Option Buffer)
              → n.value ≡ o
              → elim n.value [
                | some value ↦ elim value [
                  | halves l r ↦ thrown
                  | bytes b ↦ answer_of hashing height key v t n siblings
                ]
                | none ↦ answer_of hashing height key v t n siblings
              ]
                ≡ proven p
              → answer_of hashing height key v t n siblings ≡ proven p
          of_value none g e = rw g at e
          of_value (some (bytes b)) g e = rw g at e
          of_value (some (halves l r)) g e = absurd (ground (arith, rw g at e))

  -- A proof that leads to the root of a tree is accepted by it.
  verify_and_store-Proves :
      (p : MerkleTreeInclusionProof) (key : ℕ) (v : Buffer) (t : MerkleTree I)
      → Proves p key v t.root.hash
      → (verify_and_store hashing height p t).0 ≡ true
  unfolding verify_and_store
  verify_and_store-Proves p key v t h =
      let child : MerkleTreeNode = record {
        key = p.key;
        hash = hashing.hash p.value;
        value = some p.value;
      } in
      let top : (climb hashing height t.db p.key child p.siblings).0.hash ≡ t.root.hash =
        climb-hash_from hashing height t.db p.key child p.siblings
        ∙ ap (λ k. hash_from hashing height 0 k (hashing.hash p.value) p.siblings) h.of_key
        ∙ ap (λ x. hash_from hashing height 0 key (hashing.hash x) p.siblings) h.of_value
        ∙ h.leads_up in
      elim (Option-cases (get_node hashing height (hashing.hash p.value) p.key t.db)) [
        | inr (n, there) ↦ ground (arith, h.complete, there)
        | inl missing ↦ ground (arith, h.complete, missing, top)
      ]

  -- After any calls on a fresh tree, a proof that it gives is accepted by every tree of the same height
  -- with the same root hash.
  pub proof-accepted :
      (cs : List Call) (root_hash : Option ℕ) (key : ℕ) (v : Buffer) (p : MerkleTreeInclusionProof)
      (other : MerkleTree I)
      → read_merkle_proof hashing height key v (run cs (fresh root_hash)) ≡ proven p
      → other.root.hash ≡ p.root_hash
      → (verify_and_store hashing height p other).0 ≡ true
  proof-accepted cs root_hash key v p other e same =
      let h =
        read_merkle_proof-Proves key v (run cs (fresh root_hash)) p (run-fresh-IsSound cs root_hash)
          e in
      verify_and_store-Proves p key v other (subst (Proves p key v) (sym (same ∙ h.of_root)) h)
