-- ===== src/Merkle/Nodes.antt =====
-- The full binary tree that the stored prefixes of zk/prover/src/merkle.ts stand for.
use native.Mathlib.Decide.{dec_lt}
use native.Mathlib.Nat.{zero-add}
use mathlib.Core.Path.{ap₂}
use sol_gateway_dcc_zk_proof.Base.{
  ℕ, zero, suc, ◌+◌, ◌*◌, ◌/◌, ◌≤◌, ◌<◌, ◌≡◌, refl, ap, ◌∙◌, List, [], arith, length, get_or,
  get_or_past, get_elem?, some, max,
}
use sol_gateway_dcc_zk_proof.Bytes.{Bytes}
use sol_gateway_dcc_zk_proof.Merkle.{
  tabulate, compute_empty_leaf, hash_pair, empty_hash, next_layer, build_layers,
}

get_or-tabulate :
    (n i k : ℕ) (f : ℕ → Bytes) (d : Bytes) → k < n → get_or (tabulate n i f) k d ≡ f (i + k)
get_or-tabulate zero i k f d h = absurd (omega arith)
get_or-tabulate (suc n) i zero f d h = ap f (omega arith)
get_or-tabulate (suc n) i (suc k) f d h =
    get_or-tabulate n (i + 1) k f d (omega arith) ∙ ap f (omega arith)

length-tabulate : (n i : ℕ) (f : ℕ → Bytes) → length (tabulate n i f) ≡ n
length-tabulate zero i f = refl
length-tabulate (suc n) i f = ap suc (length-tabulate n (i + 1) f)

module _ (keccak : Bytes → Bytes) where
  -- The node at a level and an index of the full tree over the leaves, padded by `empty_leaf`.
  unfoldable pub node : Bytes → List Bytes → ℕ → ℕ → Bytes
  node empty_leaf leaves zero index = get_or leaves index empty_leaf
  node empty_leaf leaves (suc level) index =
      hash_pair keccak (node empty_leaf leaves level (2 * index))
        (node empty_leaf leaves level (2 * index + 1))

  -- A stored prefix, read with the empty hash past its end, gives the nodes of the level.
  abbrev pub IsLevel : List Bytes → ℕ → List Bytes → Type 0
  IsLevel leaves level layer =
      (i : ℕ)
      → get_or layer i (empty_hash keccak (compute_empty_leaf keccak) level)
        ≡ node (compute_empty_leaf keccak) leaves level i

  pub leaves-IsLevel : (leaves : List Bytes) → IsLevel leaves 0 leaves
  unfolding node empty_hash
  leaves-IsLevel leaves i = refl

  next_layer-IsLevel :
      (leaves : List Bytes) (level : ℕ) (prev : List Bytes)
      → IsLevel leaves level prev
      → IsLevel leaves (suc level) (next_layer keccak level prev)
  unfolding next_layer node empty_hash
  next_layer-IsLevel leaves level prev h i = elim (dec_lt i size) [
    | yes inside ↦
        rw (get_or-tabulate size 0 i f d inside, zero-add i)
          (ap₂ (hash_pair keccak) (h (2 * i)) (h (2 * i + 1)))
    | no outside ↦
        let left = h (2 * i) in
        let right = h (2 * i + 1) in
        let past =
          get_or_past (tabulate size 0 f) i d (omega (arith, outside, length-tabulate size 0 f)) in
        rw
          (
            past,
            ← left,
            ← right,
            get_or_past prev (2 * i) empty (omega (arith, outside)),
            get_or_past prev (2 * i + 1) empty (omega (arith, outside)),
          )
          refl
  ]
    where
      empty : Bytes
      empty = empty_hash keccak (compute_empty_leaf keccak) level

      d : Bytes
      d = empty_hash keccak (compute_empty_leaf keccak) (suc level)

      size : ℕ
      size = max 1 ((length prev + 1) / 2)

      f : ℕ → Bytes
      f j = hash_pair keccak (get_or prev (2 * j) empty) (get_or prev (2 * j + 1) empty)

  -- Every layer that the loop builds is a level of the full tree.
  pub build_layers-IsLevel :
      (leaves : List Bytes) (n level : ℕ) (prev : List Bytes) (k at : ℕ)
      → IsLevel leaves level prev
      → k ≤ n
      → level + k ≡ at
      → IsLevel leaves at (get_or (build_layers keccak n level prev) k [])
  unfolding build_layers
  build_layers-IsLevel leaves zero level prev zero at h le e =
      let e' : level ≡ at = omega arith in rw (← e') h
  build_layers-IsLevel leaves zero level prev (suc k) at h le e = absurd (omega arith)
  build_layers-IsLevel leaves (suc n) level prev zero at h le e =
      let e' : level ≡ at = omega arith in rw (← e') h
  build_layers-IsLevel leaves (suc n) level prev (suc k) at h le e =
      let next = next_layer-IsLevel leaves level prev h in
      let s : level + 1 ≡ suc level = omega arith in
      rw s (
        build_layers-IsLevel leaves n (suc level) (next_layer keccak level prev) k at next
          (omega arith) (omega arith))

  -- The loop stores a layer for each level, and none of them is empty above a leaf.
  pub get_elem?-build_layers :
      (n level : ℕ) (prev : List Bytes) (k : ℕ)
      → k ≤ n
      → get_elem? (build_layers keccak n level prev) k
        ≡ some (get_or (build_layers keccak n level prev) k [])
  unfolding build_layers
  get_elem?-build_layers zero level prev zero h = refl
  get_elem?-build_layers zero level prev (suc k) h = absurd (omega arith)
  get_elem?-build_layers (suc n) level prev zero h = refl
  get_elem?-build_layers (suc n) level prev (suc k) h =
      get_elem?-build_layers n (level + 1) (next_layer keccak level prev) k (omega arith)

  pub build_layers_pos :
      (n level : ℕ) (prev : List Bytes) (k : ℕ)
      → 0 < length prev
      → k ≤ n
      → 0 < length (get_or (build_layers keccak n level prev) k [])
  unfolding build_layers next_layer
  build_layers_pos zero level prev zero p h = p
  build_layers_pos zero level prev (suc k) p h = absurd (omega arith)
  build_layers_pos (suc n) level prev zero p h = p
  build_layers_pos (suc n) level prev (suc k) p h =
      build_layers_pos n (level + 1) (next_layer keccak level prev) k
        (omega (arith, length-tabulate (max 1 ((length prev + 1) / 2)) 0 _)) (omega arith)
