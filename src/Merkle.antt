-- ===== src/Merkle.antt =====
-- zk/prover/src/merkle.ts and the hash helpers of zk/prover/src/message.ts: the Merkle tree of a
-- checkpoint. `keccak` stands for `keccak256` of ethers, on bytes; every hash is a byte array of 32
-- bytes, and hex texts are compared as the bytes that they spell.
pub mod Nodes
pub mod Proofs
pub mod Soundness
pub mod Dense
pub mod Divergence
mod Tests
use sol_gateway_dcc_zk_proof.Base.{
  ℕ, zero, suc, ◌+◌, ◌-◌, ◌*◌, ◌/◌, ◌%◌, ◌^◌, Bool, true, false, List, [], ◌∷◌, ◌++◌, map, Option,
  none, some, Result, ok, err, ◌>>=◌, length, replicate, get_or, get_elem?, ltb, leb, ◌==◌, max,
  if◌then◌else◌,
}
use sol_gateway_dcc_zk_proof.Bytes.{Bytes, bytes_eq}
use sol_gateway_dcc_zk_proof.Bytes.Stores.{store}

-- What the tree throws.
pub data TreeError : Type 0 where
  too_many_leaves : ℕ → TreeError
  not_built : TreeError
  leaf_out_of_range : ℕ → TreeError

pub record MerkleTree : Type 0 where
  pub depth : ℕ
  pub layers : List (List Bytes)
  pub leaf_count : ℕ

pub record MerkleProof : Type 0 where
  pub leaf : Bytes
  pub siblings : List Bytes
  pub path_indices : List ℕ
  pub root : Bytes

-- `new Array(n)` filled by `f i`, `f (i + 1)`, ….
abbrev pub tabulate : ℕ → ℕ → (ℕ → Bytes) → List Bytes
tabulate zero i f = []
tabulate (suc n) i f = f i ∷ tabulate n (i + 1) f

abbrev pub sibling_index : ℕ → ℕ
sibling_index index = if index % 2 == 1 then index - 1 else index + 1

-- The path indices that the loop of `getProof` pushes: 1 where the node is a right child.
unfoldable pub path_bits : ℕ → ℕ → List ℕ
path_bits zero index = []
path_bits (suc n) index = (if index % 2 == 1 then 1 else 0) ∷ path_bits n (index / 2)

-- The buffer that `hashPair` hashes: 65 bytes, which `set` fills from 1 and from 33 on, the right
-- array over what is left of the left one. Where an array does not fit, `set` throws; here it is cut
-- off, and two hashes always fit.
abbrev pub pair_bytes : Bytes → Bytes → Bytes
pair_bytes left right = store (store (1 ∷ replicate 64 0) 1 left) 33 right

module _ (keccak : Bytes → Bytes) where
  -- The leaf: keccak256(0x00 || message_id).
  abbrev pub compute_leaf : Bytes → Bytes
  compute_leaf message_id = keccak (0 ∷ message_id)

  abbrev pub compute_empty_leaf : Bytes
  compute_empty_leaf = keccak (replicate 32 0)

  abbrev pub hash_pair : Bytes → Bytes → Bytes
  hash_pair left right = keccak (pair_bytes left right)

  -- `getEmptyHashes()[level]`, above the given empty leaf.
  unfoldable pub empty_hash : Bytes → ℕ → Bytes
  empty_hash empty_leaf zero = empty_leaf
  empty_hash empty_leaf (suc level) =
      let below = empty_hash empty_leaf level in hash_pair below below

  -- One round of the loop of `buildFromMessageIds`: the layer above `prev`, which is at `level`.
  unfoldable pub next_layer : ℕ → List Bytes → List Bytes
  next_layer level prev =
      let empty = empty_hash compute_empty_leaf level in
      let size = max 1 ((length prev + 1) / 2) in
      tabulate size 0 (λ i. hash_pair (get_or prev (2 * i) empty) (get_or prev (2 * i + 1) empty))

  unfoldable pub build_layers : ℕ → ℕ → List Bytes → List (List Bytes)
  build_layers zero level prev = prev ∷ []
  build_layers (suc n) level prev = prev ∷ build_layers n (level + 1) (next_layer level prev)

  unfoldable pub build_from_message_ids : ℕ → List Bytes → Result TreeError MerkleTree
  build_from_message_ids depth message_ids =
      let max_leaves = 2 ^ depth in
      if ltb max_leaves (length message_ids)
      then err (too_many_leaves (length message_ids))
      else ok (record {
        depth = depth;
        layers = build_layers depth 0 (map compute_leaf message_ids);
        leaf_count = length message_ids;
      })

  -- A layer that is not there has no entries.
  unfoldable pub node_at : MerkleTree → ℕ → ℕ → Bytes
  node_at t level index =
      get_or (get_or t.layers level []) index (empty_hash compute_empty_leaf level)

  unfoldable pub get_root : MerkleTree → Result TreeError Bytes
  get_root t = elim (get_elem? t.layers t.depth) [
    | none ↦ err not_built
    | some layer ↦ ok (get_or layer 0 [])
  ]

  -- The loop of `getProof`, from `level` on with `n` rounds left: the siblings that it pushes.
  unfoldable pub proof_siblings : ℕ → ℕ → ℕ → MerkleTree → List Bytes
  proof_siblings zero level index t = []
  proof_siblings (suc n) level index t =
      node_at t level (sibling_index index) ∷ proof_siblings n (level + 1) (index / 2) t

  unfoldable pub get_proof : MerkleTree → ℕ → Result TreeError MerkleProof
  get_proof t leaf_index =
      if leb t.leaf_count leaf_index then err (leaf_out_of_range leaf_index) else do
        root ← get_root t
        ok (record {
          leaf = get_or (get_or t.layers 0 []) leaf_index [];
          siblings = proof_siblings t.depth 0 leaf_index t;
          path_indices = path_bits t.depth leaf_index;
          root = root;
        })

  -- The loop of `verifyProof`; a missing path index is `undefined`, which is not 0.
  unfoldable pub climb : Bytes → List Bytes → List ℕ → Bytes
  climb current [] path = current
  climb current (s ∷ siblings) [] = climb (hash_pair s current) siblings []
  climb current (s ∷ siblings) (p ∷ path) =
      climb (if p == 0 then hash_pair current s else hash_pair s current) siblings path

  unfoldable pub verify_proof : MerkleProof → Bool
  verify_proof proof = bytes_eq (climb proof.leaf proof.siblings proof.path_indices) proof.root
