-- ===== src/Merkle/Divergence.antt =====
-- The roots of zk/prover/src/merkle.ts and of validator/src/zk/zk-utils.ts compared: the first pads
-- with the hash of 32 zero bytes, the second with the leaf of a message of 32 zero bytes.
use sol_gateway_dcc_zk_proof.Base.{
  ℕ, zero, suc, ◌+◌, ◌*◌, ◌/◌, ◌^◌, ◌<◌, ◌≡◌, sym, ap, ◌∙◌, ◌⊎◌, inl, inr, List, ◌∷◌, map, arith,
  length, get_or_past, All, ok, length-map,
}
use sol_gateway_dcc_zk_proof.Bytes.{Bytes}
use sol_gateway_dcc_zk_proof.Merkle.{
  MerkleTree, compute_leaf, compute_empty_leaf, build_from_message_ids, get_root,
}
use sol_gateway_dcc_zk_proof.Merkle.Nodes.{node}
use sol_gateway_dcc_zk_proof.Merkle.Proofs.{ancestor, ancestor-zero, full_node, get_root-build}
use sol_gateway_dcc_zk_proof.Merkle.Soundness.{
  Collision, Is32, hash_pair-cases, node-Is32, leaves-Is32, ⊎-bind, ⊎-map,
}
use sol_gateway_dcc_zk_proof.Merkle.Dense.{
  build_merkle_tree, build_merkle_tree-node, zero_leaf, pad,
}

different : ¬ (length zero_leaf ≡ length (0 ∷ zero_leaf))
different q = omega arith

parity : (i : ℕ) → (2 * (i / 2) ≡ i) ⊎ (2 * (i / 2) + 1 ≡ i)
parity i = omega arith

module _ (keccak : Bytes → Bytes) (keccak_32 : (bytes : Bytes) → Is32 (keccak bytes)) where
  -- Full trees over the same leaves that agree at a node agree at the nodes below it.
  node_down :
      (d e : Bytes) (leaves : List Bytes) (n level top index : ℕ)
      → Is32 d
      → Is32 e
      → All Is32 leaves
      → level + n ≡ top
      → node keccak d leaves top (ancestor n index) ≡ node keccak e leaves top (ancestor n index)
      → (node keccak d leaves level index ≡ node keccak e leaves level index) ⊎ Collision keccak
  unfolding node
  node_down d e leaves zero level top index hd he hl l h =
      let l' : level ≡ top = omega arith in inl (rw l' h)
  node_down d e leaves (suc n) level top index hd he hl l h =
      let above = node_down d e leaves n (suc level) top (index / 2) hd he hl (omega arith) h in
      ⊎-bind above (λ same. ⊎-map (split index) (
        hash_pair-cases keccak (a (2 * (index / 2))) (a (2 * (index / 2) + 1)) (b (2 * (index / 2)))
          (b (2 * (index / 2) + 1))
          (node-Is32 keccak keccak_32 d leaves level (2 * (index / 2)) hd hl)
          (node-Is32 keccak keccak_32 d leaves level (2 * (index / 2) + 1) hd hl)
          (node-Is32 keccak keccak_32 e leaves level (2 * (index / 2)) he hl)
          (node-Is32 keccak keccak_32 e leaves level (2 * (index / 2) + 1) he hl) same))
    where
      a : ℕ → Bytes
      a = node keccak d leaves level

      b : ℕ → Bytes
      b = node keccak e leaves level

      split :
          (i : ℕ)
          → (a (2 * (i / 2)) ≡ b (2 * (i / 2))) × (a (2 * (i / 2) + 1) ≡ b (2 * (i / 2) + 1))
          → a i ≡ b i
      split i (even, odd) = elim (parity i) [ inl p ↦ rw p at even | inr p ↦ rw p at odd ]

  -- For the same messages, fewer than the tree has places, the prover's tree and the validator's
  -- have different roots, or the hash has a collision.
  pub roots_differ :
      (depth : ℕ) (ids : List Bytes) (t : MerkleTree)
      → build_from_message_ids keccak depth ids ≡ ok t
      → 0 < length ids
      → length ids < 2 ^ depth
      → get_root keccak t ≡ ok (build_merkle_tree keccak depth ids).root
      → Collision keccak
  unfolding node
  roots_differ depth ids t built some_ids spare h =
      let leaves = map (compute_leaf keccak) ids in
      let d = compute_empty_leaf keccak in
      let e = pad keccak in
      let roots : ok (full_node keccak ids depth 0) ≡ ok (build_merkle_tree keccak depth ids).root =
        sym (get_root-build keccak depth ids t built some_ids) ∙ h in
      let same : node keccak d leaves depth 0 ≡ node keccak e leaves depth 0 =
        cc roots ∙ build_merkle_tree-node keccak depth ids in
      let top = ancestor-zero depth (length ids) spare in
      let past = length-map (compute_leaf keccak) ids in
      elim (node_down d e leaves depth 0 depth (length ids) (keccak_32 _) (keccak_32 _)
        (leaves-Is32 keccak keccak_32 ids) (omega arith) (rw top same)) [
          | inl pads ↦ (
            zero_leaf,
            0 ∷ zero_leaf,
            (λ q. different (ap length q)),
            sym (get_or_past leaves (length ids) d (omega (arith, past)))
                ∙ (pads ∙ get_or_past leaves (length ids) e (omega (arith, past))),
          )
          | inr c ↦ c
        ]
