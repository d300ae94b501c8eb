-- ===== src/CoreDb/MerkleTree/Data.antt =====
-- The data of packages/core-db/src/app/block-production/merkle-tree.ts.
use pigi.Prelude.{ℕ, ◌≡◌, Bool, true, Option, List}

-- A buffer of 64 bytes, as two hashes, or any other, by a number
pub data Buffer : Type 0 where
  halves : ℕ → ℕ → Buffer
  bytes : ℕ → Buffer

-- `emptyBuffer` and `siblingBuffer`
abbrev pub empty_buffer : Buffer
empty_buffer = bytes 0

abbrev pub sibling_buffer : Buffer
sibling_buffer = bytes 1

pub record MerkleTreeNode : Type 0 where
  pub key : ℕ
  pub hash : ℕ
  pub value : Option Buffer

pub record MerkleTreeInclusionProof : Type 0 where
  pub root_hash : ℕ
  pub key : ℕ
  pub value : Buffer
  pub siblings : List ℕ

pub record MerkleUpdate : Type 0 where
  pub key : ℕ
  pub old_value : Buffer
  pub old_value_proof_siblings : List ℕ
  pub new_value : Buffer

-- The hash function, and the IDs of nodes, which are hashes of a hash and a key that are taken to be
-- different for different nodes.
pub record Hashing (I : Type 0) : Type 0 where
  pub hash : Buffer → ℕ
  pub node_id : ℕ → ℕ → I
  pub same_id : I → I → Bool
  pub same_id-node_id :
      (h k h' k' : ℕ) → same_id (node_id h k) (node_id h' k') ≡ true → (h ≡ h') × (k ≡ k')

pub record MerkleTree (I : Type 0) : Type 0 where
  pub root : MerkleTreeNode
  pub db : I → Option Buffer

-- What `getMerkleProof` finds in the tree: a proof, a leaf with another hash, or a path that does not
-- reach the leaf
pub data Reading : Type 0 where
  proven : MerkleTreeInclusionProof → Reading
  other_leaf not_stored thrown : Reading
