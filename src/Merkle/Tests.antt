-- ===== src/Merkle/Tests.antt =====
-- The trees of zk/prover/src/merkle.ts and validator/src/zk/zk-utils.ts with a checksum for a hash:
-- 32 bytes, the first of which is the sum of the input.
use sol_gateway_dcc_zk_proof.Base.{
  ℕ, ◌+◌, ◌%◌, ◌≡◌, refl, ◌⊎◌, true, List, [], ◌∷◌, map, arith, ok, get_or, replicate,
}
use sol_gateway_dcc_zk_proof.Bytes.{Bytes, bytes_eq}
use sol_gateway_dcc_zk_proof.Bytes.Stores.{store}
use sol_gateway_dcc_zk_proof.Merkle.{
  MerkleTree, MerkleProof, compute_leaf, compute_empty_leaf, empty_hash, next_layer, build_layers,
  build_from_message_ids, get_root, get_proof, climb, verify_proof,
}
use sol_gateway_dcc_zk_proof.Merkle.Nodes.{node}
use sol_gateway_dcc_zk_proof.Merkle.Proofs.{Proves, full_node, verify_proof-get_proof}
use sol_gateway_dcc_zk_proof.Merkle.Soundness.{Collision, Is32, leaf_index_of, verify_proof_sound}
use sol_gateway_dcc_zk_proof.Merkle.Dense.{
  dense_leaves, next_level, climb_levels, build_merkle_tree,
}
use sol_gateway_dcc_zk_proof.Merkle.Divergence.{roots_differ}

abbrev sum : Bytes → ℕ
sum [] = 0
sum (b ∷ bs) = b + sum bs

abbrev checksum : Bytes → Bytes
checksum bytes = (sum bytes % 256) ∷ replicate 31 7

checksum-Is32 : (bytes : Bytes) → Is32 (checksum bytes)
checksum-Is32 bytes = refl

abbrev messages : List Bytes
messages = replicate 32 1 ∷ replicate 32 2 ∷ replicate 32 3 ∷ []

abbrev tree : MerkleTree
tree = record {
  depth = 2;
  layers = build_layers checksum 2 0 (map (compute_leaf checksum) messages);
  leaf_count = 3;
}

tree-built : build_from_message_ids checksum 2 messages ≡ ok tree
unfolding build_from_message_ids
tree-built = refl

verify_proof-get_proof_example :
    (proof : MerkleProof) × (get_proof checksum tree 2 ≡ ok proof)
    × Proves checksum 2 messages 2 proof
verify_proof-get_proof_example =
    verify_proof-get_proof checksum 2 messages tree 2 tree-built (omega arith)

abbrev accepted : MerkleProof
accepted = record {
  leaf = checksum (0 ∷ replicate 32 3);
  siblings = checksum (replicate 32 0) ∷ full_node checksum messages 1 0 ∷ [];
  path_indices = 0 ∷ 1 ∷ [];
  root = full_node checksum messages 2 0;
}

accepted-verifies : verify_proof checksum accepted ≡ true
unfolding verify_proof climb bytes_eq node store
accepted-verifies = refl

verify_proof_sound_example :
    (accepted.leaf
      ≡ get_or
          (map (compute_leaf checksum) messages)
          (leaf_index_of accepted.path_indices 0)
          (compute_empty_leaf checksum))
    ⊎ Collision checksum
unfolding node
verify_proof_sound_example =
    verify_proof_sound checksum checksum-Is32 2 messages accepted refl (refl, (refl, tt)) refl refl
      refl accepted-verifies

-- The checksum does not see the zero byte by which the two padding leaves differ.
roots_differ_example : Collision checksum
unfolding get_root build_layers next_layer empty_hash build_merkle_tree dense_leaves climb_levels
    next_level
roots_differ_example =
    roots_differ checksum checksum-Is32 2 messages tree tree-built (omega arith) (omega arith) refl
