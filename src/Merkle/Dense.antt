-- ===== src/Merkle/Dense.antt =====
-- The Merkle tree of validator/src/zk/zk-utils.ts, which the validator's ZK service builds in full.
-- `keccak` stands for `keccak256Hash`; the depth is `TREE_DEPTH`, 20 in the source. Each level has
-- twice as many nodes as the next, so the loops over pairs never meet an odd one.
use native.Mathlib.Nat.{pow-suc}
use sol_gateway_dcc_zk_proof.Base.{
  ℕ, zero, suc, ◌+◌, ◌-◌, ◌*◌, ◌/◌, ◌%◌, ◌^◌, ◌<◌, ◌≡◌, refl, ap, ◌∙◌, List, [], ◌∷◌, map, arith,
  length, get_or, replicate, ◌==◌, if◌then◌else◌,
}
use mathlib.Core.Path.{ap₂}
use sol_gateway_dcc_zk_proof.Bytes.{Bytes}
use sol_gateway_dcc_zk_proof.Merkle.{compute_leaf, hash_pair}
use sol_gateway_dcc_zk_proof.Merkle.Nodes.{node}

abbrev pub tree_depth : ℕ
tree_depth = 20

abbrev pub zero_leaf : Bytes
zero_leaf = replicate 32 0

pub record DenseTree : Type 0 where
  pub root : Bytes
  pub leaves : List Bytes

pub record DenseProof : Type 0 where
  pub siblings : List Bytes
  pub path_indices : List ℕ

module _ (keccak : Bytes → Bytes) where
  -- The loop that fills all the leaves, `n` of them from here on.
  unfoldable pub dense_leaves : ℕ → List Bytes → List Bytes
  dense_leaves zero ids = []
  dense_leaves (suc n) [] = compute_leaf keccak zero_leaf ∷ dense_leaves n []
  dense_leaves (suc n) (m ∷ ids) = compute_leaf keccak m ∷ dense_leaves n ids

  -- `for (let i = 0; i < currentLevel.length; i += 2) nextLevel.push(hashNode(…))`.
  unfoldable pub next_level : List Bytes → List Bytes
  next_level (a ∷ b ∷ level) = hash_pair keccak a b ∷ next_level level
  next_level _ = []

  unfoldable pub climb_levels : ℕ → List Bytes → List Bytes
  climb_levels zero level = level
  climb_levels (suc n) level = climb_levels n (next_level level)

  unfoldable pub build_merkle_tree : ℕ → List Bytes → DenseTree
  build_merkle_tree depth ids =
      let leaves = dense_leaves (2 ^ depth) ids in
      record { root = get_or (climb_levels depth leaves) 0 []; leaves = leaves }

  unfoldable pub dense_siblings : ℕ → ℕ → List Bytes → List Bytes
  dense_siblings zero idx level = []
  dense_siblings (suc n) idx level =
      get_or level (if idx % 2 == 0 then idx + 1 else idx - 1) []
      ∷ dense_siblings n (idx / 2) (next_level level)

  unfoldable pub dense_path : ℕ → ℕ → List ℕ
  dense_path zero idx = []
  dense_path (suc n) idx = (idx % 2) ∷ dense_path n (idx / 2)

  unfoldable pub get_merkle_proof : ℕ → List Bytes → ℕ → DenseProof
  get_merkle_proof depth ids event_idx = record {
    siblings = dense_siblings depth event_idx (dense_leaves (2 ^ depth) ids);
    path_indices = dense_path depth event_idx;
  }

  -- The padding leaf here is the leaf of a message of 32 zero bytes.
  abbrev pub pad : Bytes
  pad = compute_leaf keccak zero_leaf

  abbrev pub dense_node : List Bytes → ℕ → ℕ → Bytes
  dense_node ids = node keccak pad (map (compute_leaf keccak) ids)

  -- A level in full: its first `n` nodes.
  abbrev IsFull : List Bytes → ℕ → ℕ → List Bytes → Type 0
  IsFull ids level n nodes =
      (length nodes ≡ n) × ((i : ℕ) → i < n → get_or nodes i [] ≡ dense_node ids level i)

  length-dense_leaves : (n : ℕ) (ids : List Bytes) → length (dense_leaves n ids) ≡ n
  unfolding dense_leaves
  length-dense_leaves zero ids = refl
  length-dense_leaves (suc n) [] = ap suc (length-dense_leaves n [])
  length-dense_leaves (suc n) (m ∷ ids) = ap suc (length-dense_leaves n ids)

  get_or-dense_leaves :
      (n : ℕ) (ids : List Bytes) (i : ℕ)
      → i < n
      → get_or (dense_leaves n ids) i [] ≡ dense_node ids 0 i
  unfolding dense_leaves node
  get_or-dense_leaves zero ids i h = absurd (omega arith)
  get_or-dense_leaves (suc n) [] zero h = refl
  get_or-dense_leaves (suc n) [] (suc i) h = get_or-dense_leaves n [] i (omega arith)
  get_or-dense_leaves (suc n) (m ∷ ids) zero h = refl
  get_or-dense_leaves (suc n) (m ∷ ids) (suc i) h = get_or-dense_leaves n ids i (omega arith)

  length-next_level :
      (n : ℕ) (nodes : List Bytes) → length nodes ≡ 2 * n → length (next_level nodes) ≡ n
  unfolding next_level
  length-next_level n [] h = omega arith
  length-next_level n (a ∷ []) h = absurd (omega arith)
  length-next_level zero (a ∷ b ∷ nodes) h = absurd (omega arith)
  length-next_level (suc n) (a ∷ b ∷ nodes) h = ap suc (length-next_level n nodes (omega arith))

  get_or-next_level :
      (nodes : List Bytes) (i : ℕ)
      → 2 * i + 1 < length nodes
      → get_or (next_level nodes) i []
        ≡ hash_pair keccak (get_or nodes (2 * i) []) (get_or nodes (2 * i + 1) [])
  unfolding next_level
  get_or-next_level [] i h = absurd (omega arith)
  get_or-next_level (a ∷ []) i h = absurd (omega arith)
  get_or-next_level (a ∷ b ∷ nodes) zero h = refl
  get_or-next_level (a ∷ b ∷ nodes) (suc i) h =
      let e : 2 * suc i ≡ suc (suc (2 * i)) = omega arith in
      let e' : suc (suc (2 * i)) + 1 ≡ suc (suc (2 * i + 1)) = omega arith in
      rw (e, e') (get_or-next_level nodes i (omega arith))

  next_level-IsFull :
      (ids : List Bytes) (level n : ℕ) (nodes : List Bytes)
      → IsFull ids level (2 * n) nodes
      → IsFull ids (suc level) n (next_level nodes)
  unfolding node
  next_level-IsFull ids level n nodes (l, h) = (
    length-next_level n nodes l,
    λ i p.
        get_or-next_level nodes i (omega (arith, l))
        ∙ ap₂ (hash_pair keccak) (h (2 * i) (omega arith)) (h (2 * i + 1) (omega arith)),
  )

  climb_levels-IsFull :
      (ids : List Bytes) (n level top : ℕ) (nodes : List Bytes)
      → level + n ≡ top
      → IsFull ids level (2 ^ n) nodes
      → get_or (climb_levels n nodes) 0 [] ≡ dense_node ids top 0
  unfolding climb_levels
  climb_levels-IsFull ids zero level top nodes e (l, h) =
      let e' : level ≡ top = omega arith in rw (← e') (h 0 (omega arith))
  climb_levels-IsFull ids (suc n) level top nodes e full =
      let two : 2 ^ suc n ≡ 2 * 2 ^ n = omega (arith, pow-suc 2 n) in
      climb_levels-IsFull ids n (suc level) top (next_level nodes) (omega arith)
        (next_level-IsFull ids level (2 ^ n) nodes (rw two at full))

  leaves-IsFull : (n : ℕ) (ids : List Bytes) → IsFull ids 0 n (dense_leaves n ids)
  leaves-IsFull n ids = (length-dense_leaves n ids, get_or-dense_leaves n ids)

  -- The root of the validator's tree is the root of the full tree, padded by the leaf of the zero
  -- message.
  pub build_merkle_tree-node :
      (depth : ℕ) (ids : List Bytes) → (build_merkle_tree depth ids).root ≡ dense_node ids depth 0
  unfolding build_merkle_tree
  build_merkle_tree-node depth ids =
      climb_levels-IsFull ids depth 0 depth (dense_leaves (2 ^ depth) ids) (omega arith)
        (leaves-IsFull (2 ^ depth) ids)
