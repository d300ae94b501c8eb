-- ===== src/Ovm/MerkleInclusion.antt =====
-- packages/ovm/src/app/deciders/merkle-inclusion-proof-decider.ts, over the model of the sparse Merkle
-- tree of packages/core-db
use pigi.Prelude.{◌+◌, ◌≡◌, ◌↔◌, sym, ◌∙◌, true, none, some, length, ◌==◌, arith, ==_iff}
use pigi.Ovm.Types.{external, undefined, Decision}
use pigi.Ovm.Loops.{get_justification}
use pigi.CoreDb.MerkleTree.{
  Hashing, MerkleTreeInclusionProof, MerkleTreeNode, MerkleTree, verify_and_store, init, get_node,
}
use pigi.CoreDb.MerkleTree.Proofs.{hash_from, climb-hash_from}

module _ {I : Type 0} (hashing : Hashing I) where
  -- The tree that the decider creates, on a database in memory
  abbrev pub tree_for : MerkleTreeInclusionProof → MerkleTree I
  tree_for proof = init hashing (length proof.siblings + 1) (some proof.root_hash) (λ i. none)

  -- `MerkleInclusionProofDecider.decide`
  unfoldable pub decide_inclusion_proof :
      (Q V : Type 0) → MerkleTreeInclusionProof → Decision MerkleTreeInclusionProof Q V
  unfolding verify_and_store get_justification
  decide_inclusion_proof Q V proof = record {
    outcome = (verify_and_store hashing (length proof.siblings + 1) proof (tree_for proof)).0;
    justification = get_justification (external proof) undefined;
  }

  -- A proof is decided to be valid exactly if its siblings lead from the hash of its value, at the place
  -- that its key gives, to its root hash.
  pub decide_inclusion_proof_iff :
      (Q V : Type 0) (proof : MerkleTreeInclusionProof)
      → ((decide_inclusion_proof Q V proof).outcome ≡ true) ↔ (
          hash_from hashing
            (length proof.siblings + 1)
            0
            proof.key
            (hashing.hash proof.value)
            proof.siblings
          ≡ proof.root_hash)
  unfolding decide_inclusion_proof init get_node
  decide_inclusion_proof_iff Q V proof =
      let child : MerkleTreeNode = record {
        key = proof.key;
        hash = hashing.hash proof.value;
        value = some proof.value;
      } in
      let top =
        climb-hash_from hashing (length proof.siblings + 1) (λ i. none) proof.key child
          proof.siblings in
      let outcome : (decide_inclusion_proof Q V proof).outcome ≡ (
          hash_from hashing (length proof.siblings + 1) 0 proof.key (hashing.hash proof.value)
            proof.siblings
          == proof.root_hash) =
        ground (arith, top) in
      (λ e. (==_iff _ _).0 (sym outcome ∙ e), λ e. outcome ∙ (==_iff _ _).1 e)
