-- ===== src/Merkle/Proofs.antt =====
-- What `getProof` and `getRoot` of zk/prover/src/merkle.ts return.
use native.Mathlib.Nat.{pow-suc}
use sol_gateway_dcc_zk_proof.Base.{
  ℕ, zero, suc, ◌+◌, ◌-◌, ◌*◌, ◌/◌, ◌%◌, ◌^◌, ◌≤◌, ◌<◌, ◌≡◌, refl, ap, ◌∙◌, inl, inr, true, false,
  List, [], ◌∷◌, map, arith, ok, length, get_or, length-map, Bool-cases, leb, ◌==◌, if◌then◌else◌,
}
use sol_gateway_dcc_zk_proof.Bytes.{Bytes, bytes_eq_refl}
use sol_gateway_dcc_zk_proof.Merkle.{
  MerkleTree, MerkleProof, compute_leaf, compute_empty_leaf, build_layers, build_from_message_ids,
  node_at, get_root, sibling_index, path_bits, proof_siblings, get_proof, climb, verify_proof,
  empty_hash,
}
use sol_gateway_dcc_zk_proof.Merkle.Nodes.{
  node, leaves-IsLevel, build_layers-IsLevel, get_elem?-build_layers, build_layers_pos,
}

-- The index of the node above, `n` levels up.
abbrev pub ancestor : ℕ → ℕ → ℕ
ancestor zero index = index
ancestor (suc n) index = ancestor n (index / 2)

pub ancestor-zero : (n index : ℕ) → index < 2 ^ n → ancestor n index ≡ 0
ancestor-zero zero index h = omega arith
ancestor-zero (suc n) index h = ancestor-zero n (index / 2) (omega (arith, pow-suc 2 n))

get_or-default :
    (xs : List Bytes) (i : ℕ) (d d' : Bytes) → i < length xs → get_or xs i d ≡ get_or xs i d'
get_or-default [] i d d' h = absurd (omega arith)
get_or-default (x ∷ xs) zero d d' h = refl
get_or-default (x ∷ xs) (suc i) d d' h = get_or-default xs i d d' (omega arith)

get_or-map :
    (f : Bytes → Bytes) (xs : List Bytes) (i : ℕ) (d d' : Bytes)
    → i < length xs
    → get_or (map f xs) i d ≡ f (get_or xs i d')
get_or-map f [] i d d' h = absurd (omega arith)
get_or-map f (x ∷ xs) zero d d' h = refl
get_or-map f (x ∷ xs) (suc i) d d' h = get_or-map f xs i d d' (omega arith)

leb_of_gt : (a b : ℕ) → b < a → leb a b ≡ false
leb_of_gt a b h = ground arith

module _ (keccak : Bytes → Bytes) where
  -- An accepted step: a node and its sibling hash to the node above them.
  climb_step :
      (e : Bytes) (leaves : List Bytes) (level index : ℕ) (siblings : List Bytes) (path : List ℕ)
      → climb keccak
          (node keccak e leaves level index)
          (node keccak e leaves level (sibling_index index) ∷ siblings)
          ((if index % 2 == 1 then 1 else 0) ∷ path)
        ≡ climb keccak (node keccak e leaves (suc level) (index / 2)) siblings path
  unfolding climb node
  climb_step e leaves level index siblings path = elim (Bool-cases (index % 2 == 1)) [
    | inl odd ↦
        let right : 2 * (index / 2) + 1 ≡ index = ground arith in
        let left : index - 1 ≡ 2 * (index / 2) = ground arith in rw (odd, left, right) refl
    | inr even ↦ let left : 2 * (index / 2) ≡ index = ground arith in rw (even, left) refl
  ]

  -- The tree that a successful build returns.
  abbrev built : ℕ → List Bytes → MerkleTree
  built depth ids = record {
    depth = depth;
    layers = build_layers keccak depth 0 (map (compute_leaf keccak) ids);
    leaf_count = length ids;
  }

  built_of_ok :
      (depth : ℕ) (ids : List Bytes) (t : MerkleTree)
      → build_from_message_ids keccak depth ids ≡ ok t
      → (t ≡ built depth ids) × (length ids ≤ 2 ^ depth)
  unfolding build_from_message_ids
  built_of_ok depth ids t h = ground arith

  abbrev leaves_of : List Bytes → List Bytes
  leaves_of ids = map (compute_leaf keccak) ids

  abbrev pub full_node : List Bytes → ℕ → ℕ → Bytes
  full_node ids = node keccak (compute_empty_leaf keccak) (leaves_of ids)

  node_at-full_node :
      (depth : ℕ) (ids : List Bytes) (level index : ℕ)
      → level ≤ depth
      → node_at keccak (built depth ids) level index ≡ full_node ids level index
  unfolding node_at
  node_at-full_node depth ids level index h =
      build_layers-IsLevel keccak (leaves_of ids) depth 0 (leaves_of ids) level level
        (leaves-IsLevel keccak (leaves_of ids)) h (omega arith) index

  climb-proof :
      (depth : ℕ) (ids : List Bytes) (n level index : ℕ)
      → level + n ≡ depth
      → climb keccak
          (full_node ids level index)
          (proof_siblings keccak n level index (built depth ids))
          (path_bits n index)
        ≡ full_node ids depth (ancestor n index)
  unfolding proof_siblings path_bits climb
  climb-proof depth ids zero level index h = let e : level ≡ depth = omega arith in rw e refl
  climb-proof depth ids (suc n) level index h =
      let e : level + 1 ≡ suc level = omega arith in
      rw (node_at-full_node depth ids level (sibling_index index) (omega arith), e)
        (climb_step (compute_empty_leaf keccak) (leaves_of ids) level index
            (proof_siblings keccak n (suc level) (index / 2) (built depth ids))
            (path_bits n (index / 2))
          ∙ climb-proof depth ids n (suc level) (index / 2) (omega arith))

  get_root-full_node :
      (depth : ℕ) (ids : List Bytes)
      → 0 < length ids
      → get_root keccak (built depth ids) ≡ ok (full_node ids depth 0)
  unfolding get_root
  get_root-full_node depth ids h =
      let leaves = leaves_of ids in
      let top = get_or (build_layers keccak depth 0 leaves) depth [] in
      let level : get_or top 0 (empty_hash keccak (compute_empty_leaf keccak) depth)
          ≡ full_node ids depth 0 =
        build_layers-IsLevel keccak leaves depth 0 leaves depth depth (leaves-IsLevel keccak leaves)
          (omega arith) (omega arith) 0 in
      let pos : 0 < length top =
        build_layers_pos keccak depth 0 leaves depth
          (omega (arith, length-map (compute_leaf keccak) ids)) (omega arith) in
      rw (get_elem?-build_layers keccak depth 0 leaves depth (omega arith), get_root)
        (ap ok (get_or-default top 0 [] _ pos ∙ level))

  -- What is said of the proof of one leaf.
  abbrev pub Proves : ℕ → List Bytes → ℕ → MerkleProof → Type 0
  Proves depth ids index proof =
      (verify_proof keccak proof ≡ true)
      × (proof.leaf ≡ compute_leaf keccak (get_or ids index []))
      × (proof.root ≡ full_node ids depth 0)
      × (length proof.siblings ≡ depth)

  length-proof_siblings :
      (n level index : ℕ) (t : MerkleTree) → length (proof_siblings keccak n level index t) ≡ n
  unfolding proof_siblings
  length-proof_siblings zero level index t = refl
  length-proof_siblings (suc n) level index t =
      ap suc (length-proof_siblings n (level + 1) (index / 2) t)

  first_layer :
      (n level : ℕ) (prev : List Bytes) → get_or (build_layers keccak n level prev) 0 [] ≡ prev
  unfolding build_layers
  first_layer zero level prev = refl
  first_layer (suc n) level prev = refl

  built-Proves :
      (depth : ℕ) (ids : List Bytes) (index : ℕ)
      → length ids ≤ 2 ^ depth
      → index < length ids
      → (proof : MerkleProof) × (get_proof keccak (built depth ids) index ≡ ok proof)
        × Proves depth ids index proof
  unfolding get_proof verify_proof node
  built-Proves depth ids index fits i =
      let leaf = get_or (leaves_of ids) index [] in
      let siblings = proof_siblings keccak depth 0 index (built depth ids) in
      let root = full_node ids depth 0 in
      let proof : MerkleProof = record {
        leaf = leaf;
        siblings = siblings;
        path_indices = path_bits depth index;
        root = root;
      } in
      let inside = leb_of_gt (length ids) index i in
      let start : leaf ≡ full_node ids 0 index =
        get_or-default (leaves_of ids) index [] _
          (omega (arith, length-map (compute_leaf keccak) ids)) in
      let climbed : climb keccak leaf siblings (path_bits depth index) ≡ root = rw start (
        climb-proof depth ids depth 0 index (omega arith)
        ∙ ap (full_node ids depth) (ancestor-zero depth index (omega arith))) in
      (
        proof,
        rw (inside, get_root-full_node depth ids (omega arith), first_layer depth 0 (leaves_of ids))
            refl,
        (
          rw climbed (bytes_eq_refl root),
          get_or-map (compute_leaf keccak) ids index [] [] i,
          refl,
          length-proof_siblings depth 0 index (built depth ids),
        ),
      )

  -- For each message of a tree that was built, the tree gives a proof that is accepted, has the leaf
  -- of that message and the root of the full tree, and one sibling for each level.
  pub verify_proof-get_proof :
      (depth : ℕ) (ids : List Bytes) (t : MerkleTree) (index : ℕ)
      → build_from_message_ids keccak depth ids ≡ ok t
      → index < length ids
      → (proof : MerkleProof) × (get_proof keccak t index ≡ ok proof) × Proves depth ids index proof
  verify_proof-get_proof depth ids t index h i =
      let (same, fits) = built_of_ok depth ids t h in rw same (built-Proves depth ids index fits i)

  -- The root of a tree that was built over some messages is the root of the full tree, in which every
  -- place past the last message holds the empty leaf.
  pub get_root-build :
      (depth : ℕ) (ids : List Bytes) (t : MerkleTree)
      → build_from_message_ids keccak depth ids ≡ ok t
      → 0 < length ids
      → get_root keccak t ≡ ok (full_node ids depth 0)
  get_root-build depth ids t h p =
      let (same, _) = built_of_ok depth ids t h in rw same (get_root-full_node depth ids p)
