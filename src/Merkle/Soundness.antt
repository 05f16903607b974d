-- ===== src/Merkle/Soundness.antt =====
-- What an accepted proof of zk/prover/src/merkle.ts shows, short of a collision of the hash.
use sol_gateway_dcc_zk_proof.Base.{
  ℕ, zero, suc, ◌+◌, ◌*◌, ◌≡◌, ◌≢◌, sym, ◌∙◌, ◌⊎◌, inl, inr, true, List, [], ◌∷◌, ◌++◌, map, arith,
  length, replicate, ap, get_or, All, ◌==◌, if◌then◌else◌, Bool-cases,
}
use sol_gateway_dcc_zk_proof.Bytes.{Bytes, eq_of_bytes_eq, bytes-discrete}
use mathlib.Core.List.{append-nil}
use sol_gateway_dcc_zk_proof.Bytes.Stores.{store, store-splice}
use sol_gateway_dcc_zk_proof.Bytes.Layout.{append-injective}
use sol_gateway_dcc_zk_proof.Merkle.{
  MerkleProof, compute_leaf, compute_empty_leaf, pair_bytes, hash_pair, climb, verify_proof,
}
use sol_gateway_dcc_zk_proof.Merkle.Nodes.{node}
use sol_gateway_dcc_zk_proof.Merkle.Proofs.{full_node}

-- Two inputs that the hash does not tell apart.
abbrev pub Collision : (Bytes → Bytes) → Type 0
Collision keccak = (x : Bytes) × (y : Bytes) × (x ≢ y) × (keccak x ≡ keccak y)

abbrev pub Is32 : Bytes → Type 0
Is32 bytes = length bytes ≡ 32

-- The index of the leaf that a path starts from, below the node with index `top`.
abbrev pub leaf_index_of : List ℕ → ℕ → ℕ
leaf_index_of [] top = top
leaf_index_of (p ∷ path) top = 2 * leaf_index_of path top + (if p == 0 then 0 else 1)

pub ⊎-map : {A B C : Type 0} → (A → B) → A ⊎ C → B ⊎ C
⊎-map f (inl a) = inl (f a)
⊎-map f (inr c) = inr c

pub ⊎-bind : {A B C : Type 0} → A ⊎ C → (A → B ⊎ C) → B ⊎ C
⊎-bind (inl a) f = f a
⊎-bind (inr c) f = inr c

pair_bytes-32 : (a b : Bytes) → Is32 a → Is32 b → pair_bytes a b ≡ 1 ∷ a ++ b
pair_bytes-32 a b ha hb =
    let zeros : Bytes = replicate 32 0 in
    let left : store (1 ∷ zeros ++ (zeros ++ [])) 1 a ≡ 1 ∷ a ++ (zeros ++ []) =
      store-splice (1 ∷ []) zeros a (zeros ++ []) ha in
    let past : 33 ≡ length (1 ∷ a) = omega arith in
    let right : store ((1 ∷ a) ++ (zeros ++ [])) (length (1 ∷ a)) b ≡ (1 ∷ a) ++ (b ++ []) =
      store-splice (1 ∷ a) zeros b [] hb in
    rw (left, past) (right ∙ ap (λ rest. 1 ∷ a ++ rest) (append-nil b))

module _ (keccak : Bytes → Bytes) where
  -- Equal hashes of two pairs of 32 bytes each are of the same pair, or collide.
  pub hash_pair-cases :
      (a b c d : Bytes)
      → Is32 a
      → Is32 b
      → Is32 c
      → Is32 d
      → hash_pair keccak a b ≡ hash_pair keccak c d
      → ((a ≡ c) × (b ≡ d)) ⊎ Collision keccak
  hash_pair-cases a b c d ha hb hc hd e = elim (bytes-discrete (pair_bytes a b) (pair_bytes c d)) [
    | yes same ↦
        let flat : 1 ∷ a ++ b ≡ 1 ∷ c ++ d =
          sym (pair_bytes-32 a b ha hb) ∙ (same ∙ pair_bytes-32 c d hc hd) in
        let tails : a ++ b ≡ c ++ d = cc flat in inl (append-injective a c b d (ha ∙ sym hc) tails)
    | no other ↦ inr (pair_bytes a b, pair_bytes c d, other, e)
  ]

  module _ (keccak_32 : (bytes : Bytes) → Is32 (keccak bytes)) where
    pub node-Is32 :
        (e : Bytes) (leaves : List Bytes) (level index : ℕ)
        → Is32 e
        → All Is32 leaves
        → Is32 (node keccak e leaves level index)
    unfolding node
    node-Is32 e [] zero index h k = h
    node-Is32 e (x ∷ leaves) zero zero h k = k.0
    node-Is32 e (x ∷ leaves) zero (suc index) h k = node-Is32 e leaves zero index h k.1
    node-Is32 e leaves (suc level) index h k = keccak_32 _

    climb_sound :
        (e : Bytes) (leaves : List Bytes) (level top : ℕ) (current : Bytes) (siblings : List Bytes)
        (path : List ℕ)
        → Is32 e
        → All Is32 leaves
        → Is32 current
        → All Is32 siblings
        → length path ≡ length siblings
        → climb keccak current siblings path ≡ node keccak e leaves (level + length siblings) top
        → (current ≡ node keccak e leaves level (leaf_index_of path top)) ⊎ Collision keccak
    unfolding climb node
    climb_sound e leaves level top current [] [] he hl hc hs n h =
        let l : level + 0 ≡ level = omega arith in inl (rw l at h)
    climb_sound e leaves level top current [] (p ∷ path) he hl hc hs n h = absurd (omega arith)
    climb_sound e leaves level top current (s ∷ siblings) [] he hl hc hs n h = absurd (omega arith)
    climb_sound e leaves level top current (s ∷ siblings) (p ∷ path) he hl hc hs n h =
        elim (Bool-cases (p == 0)) [
          | inl z ↦
              let h' = rw (z, l) at h in
              let above =
                climb_sound e leaves (suc level) top (hash_pair keccak current s) siblings path he
                  hl (keccak_32 _) hs.1 (omega arith) h' in
              let i : 2 * index + 0 ≡ 2 * index = omega arith in
              rw (z, i)
                (⊎-bind above (λ same.
                  ⊎-map (λ p. p.0)
                    (hash_pair-cases current s left right hc hs.0 left_32 right_32 same)))
          | inr z ↦
              let h' = rw (z, l) at h in
              let above =
                climb_sound e leaves (suc level) top (hash_pair keccak s current) siblings path he
                  hl (keccak_32 _) hs.1 (omega arith) h' in
              rw z (
                ⊎-bind above (λ same.
                  ⊎-map (λ p. p.1)
                    (hash_pair-cases s current left right hs.0 hc left_32 right_32 same)))
        ]
      where
        index : ℕ
        index = leaf_index_of path top

        left : Bytes
        left = node keccak e leaves level (2 * index)

        right : Bytes
        right = node keccak e leaves level (2 * index + 1)

        left_32 : Is32 left
        left_32 = node-Is32 e leaves level (2 * index) he hl

        right_32 : Is32 right
        right_32 = node-Is32 e leaves level (2 * index + 1) he hl

        l : level + suc (length siblings) ≡ suc level + length siblings
        l = omega arith

    pub leaves-Is32 : (ids : List Bytes) → All Is32 (map (compute_leaf keccak) ids)
    leaves-Is32 [] = tt
    leaves-Is32 (x ∷ ids) = (keccak_32 _, leaves-Is32 ids)

    -- With a hash of 32 bytes, a proof of the tree's depth whose leaf and siblings have 32 bytes each,
    -- and that is accepted against the root of the full tree, has at the index that its path spells
    -- the leaf of the tree (the leaf of a message, or the empty one), or its author has found a
    -- collision.
    pub verify_proof_sound :
        (depth : ℕ) (ids : List Bytes) (proof : MerkleProof)
        → Is32 proof.leaf
        → All Is32 proof.siblings
        → length proof.siblings ≡ depth
        → length proof.path_indices ≡ depth
        → proof.root ≡ full_node keccak ids depth 0
        → verify_proof keccak proof ≡ true
        → (proof.leaf
            ≡ get_or
                (map (compute_leaf keccak) ids)
                (leaf_index_of proof.path_indices 0)
                (compute_empty_leaf keccak))
          ⊎ Collision keccak
    unfolding verify_proof node
    verify_proof_sound depth ids proof hl hs n m r h =
        let climbed : climb keccak proof.leaf proof.siblings proof.path_indices ≡ proof.root =
          eq_of_bytes_eq _ _ h in
        let d : 0 + length proof.siblings ≡ depth = omega (arith, n) in
        climb_sound (compute_empty_leaf keccak) (map (compute_leaf keccak) ids) 0 0 proof.leaf
          proof.siblings proof.path_indices (keccak_32 _) (leaves-Is32 ids) hl hs (m ∙ sym n)
          (rw d (climbed ∙ r))
