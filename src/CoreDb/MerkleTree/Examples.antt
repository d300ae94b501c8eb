-- ===== src/CoreDb/MerkleTree/Examples.antt =====
-- The theorems on the sparse Merkle tree at concrete trees.
use pigi.Prelude.{ℕ, ◌+◌, ◌*◌, ◌≡◌, refl, true, ◌&&◌, none, some, List, [], ◌∷◌, ◌==◌, ◌⊎◌, arith}
use pigi.CoreDb.MerkleTree.{
  Hashing, Buffer, halves, bytes, sibling_buffer, MerkleTree, MerkleTreeInclusionProof, proven,
  read_merkle_proof, get_leaf, update, verify_and_store, init,
}
use pigi.CoreDb.MerkleTree.Soundness.{IsSound}
use pigi.CoreDb.MerkleTree.Runs.{Call, update_leaf, run, fresh, proof-accepted, run-fresh-IsSound}
use pigi.CoreDb.MerkleTree.Leaves.{LeadsUp, get_leaf-run}

abbrev mix : Buffer → ℕ
mix (bytes n) = n + 100
mix (halves l r) = 2 * l + 3 * r + 1

same_id-pair : (h k h' k' : ℕ) → (h == h' && k == k') ≡ true → (h ≡ h') × (k ≡ k')
same_id-pair h k h' k' e = (ground arith, ground arith)

-- IDs that are a hash with a key
abbrev hashing : Hashing (ℕ × ℕ)
hashing = record {
  hash = mix;
  node_id = λ h k. (h, k);
  same_id = λ i j. i.0 == j.0 && i.1 == j.1;
  same_id-node_id = same_id-pair;
}

abbrev calls : List Call
calls = update_leaf 0 (bytes 7) ∷ update_leaf 3 (bytes 9) ∷ []

-- A tree of three levels, with four leaves
abbrev tree : MerkleTree (ℕ × ℕ)
tree = run hashing 3 calls (fresh hashing 3 none)

abbrev proof_of_leaf : MerkleTreeInclusionProof
proof_of_leaf = record {
  root_hash = tree.root.hash;
  key = 3;
  value = bytes 9;
  siblings = 100 ∷ 515 ∷ [];
}

tree_proof : read_merkle_proof hashing 3 3 (bytes 9) tree ≡ proven proof_of_leaf
unfolding run update verify_and_store read_merkle_proof init
tree_proof = refl

tree_leaf : get_leaf hashing 3 0 none tree ≡ some (bytes 7)
unfolding run update verify_and_store get_leaf init
tree_leaf = refl

run-fresh-IsSound_example : IsSound hashing 3 tree
run-fresh-IsSound_example = run-fresh-IsSound hashing 3 calls none

-- A tree of which only the root hash is known
abbrev other_tree : MerkleTree (ℕ × ℕ)
other_tree = record { root = record { key = 0; hash = 2615; value = none }; db = λ i. none }

tree_root : other_tree.root.hash ≡ proof_of_leaf.root_hash
unfolding run update verify_and_store init
tree_root = refl

proof-accepted_example : (verify_and_store hashing 3 proof_of_leaf other_tree).0 ≡ true
proof-accepted_example =
    proof-accepted hashing 3 calls none 3 (bytes 9) proof_of_leaf other_tree tree_proof tree_root

get_leaf-run_example :
    (bytes 7 ≡ sibling_buffer) ⊎ LeadsUp hashing 3 2 0 0 (mix (bytes 7)) tree.root.hash
get_leaf-run_example = get_leaf-run hashing 3 calls none 0 none (bytes 7) tree_leaf

-- The sibling of an updated leaf is given as the mark, although it is empty.
tree_mark : get_leaf hashing 3 1 none tree ≡ some sibling_buffer
unfolding run update verify_and_store get_leaf init
tree_mark = refl

-- A leaf that is updated to the value that it has is lost.
tree_lost : get_leaf hashing 3 3 none (update hashing 3 3 (bytes 9) tree).1 ≡ none
unfolding run update verify_and_store get_leaf init
tree_lost = refl
