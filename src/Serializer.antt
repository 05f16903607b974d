-- ===== src/Serializer.antt =====
-- zk/prover/src/serializer.ts and the serializers of validator/src/zk/zk-utils.ts: proofs, public
-- signals and verification keys as bytes for the RIDE verifier. A decimal text enters as its number,
-- and a point as its coordinates without the third, projective one, which the code does not read.
pub mod Reading
mod Tests
use sol_gateway_dcc_zk_proof.Base.{
  ℕ, ◌+◌, ◌*◌, List, [], ◌∷◌, ◌++◌, Result, ok, ◌>>=◌, ◌>>◌, require, length, replicate, take, leb,
  ◌==◌,
}
use sol_gateway_dcc_zk_proof.Bytes.{Bytes, Error, encoding_error}
use sol_gateway_dcc_zk_proof.Bytes.Values.{fill_down}
use sol_gateway_dcc_zk_proof.Bytes.Layout.{Cursor, zeroed, put_set}

pub record G1 : Type 0 where
  pub x : ℕ
  pub y : ℕ

pub record G2 : Type 0 where
  pub x_im : ℕ
  pub x_re : ℕ
  pub y_im : ℕ
  pub y_re : ℕ

pub record Proof : Type 0 where
  pub pi_a : G1
  pub pi_b : G2
  pub pi_c : G1

pub record VerificationKey : Type 0 where
  pub vk_alpha_1 : G1
  pub vk_beta_2 : G2
  pub vk_gamma_2 : G2
  pub vk_delta_2 : G2
  pub ic : List G1

unfoldable pub field_element_to_bytes : ℕ → Bytes
field_element_to_bytes n = fill_down 32 n (replicate 32 0)

-- `result.set(fieldElementToBytes(v), offset); offset += 32`, for one value after the other.
unfoldable pub set_elements : List ℕ → Cursor → Result Error Cursor
set_elements [] c = ok c
set_elements (v ∷ vs) c = put_set 32 (field_element_to_bytes v) c >>= set_elements vs

abbrev pub g1_elements : G1 → List ℕ
g1_elements p = p.x ∷ p.y ∷ []

abbrev pub g2_elements : G2 → List ℕ
g2_elements p = p.x_im ∷ p.x_re ∷ p.y_im ∷ p.y_re ∷ []

unfoldable pub serialize_proof_for_ride : Proof → Result Error Bytes
serialize_proof_for_ride proof = do
  c ← set_elements (g1_elements proof.pi_a) (zeroed 256)
  c ← set_elements (g2_elements proof.pi_b) c
  c ← set_elements (g1_elements proof.pi_c) c
  ok c.buf

unfoldable pub serialize_inputs_for_ride : List ℕ → Result Error Bytes
serialize_inputs_for_ride public_signals = do
  require (length public_signals == 8) (encoding_error 8 (length public_signals))
  c ← set_elements public_signals (zeroed 256)
  ok c.buf

-- Of validator/src/zk/zk-utils.ts: too few signals throw, and those after the eighth are not read.
unfoldable pub validator_serialize_inputs : List ℕ → Result Error Bytes
validator_serialize_inputs public_signals = do
  require (leb 8 (length public_signals)) (encoding_error 8 (length public_signals))
  c ← set_elements (take 8 public_signals) (zeroed 256)
  ok c.buf

-- The loop over the IC points.
unfoldable pub set_points : List G1 → Cursor → Result Error Cursor
set_points [] c = ok c
set_points (p ∷ ps) c = set_elements (g1_elements p) c >>= set_points ps

unfoldable pub serialize_vk_for_ride : VerificationKey → Result Error Bytes
serialize_vk_for_ride vkey = do
  c ←
      set_elements (g1_elements vkey.vk_alpha_1)
        (zeroed (64 + 128 + 128 + 128 + length vkey.ic * 64))
  c ← set_elements (g2_elements vkey.vk_beta_2) c
  c ← set_elements (g2_elements vkey.vk_gamma_2) c
  c ← set_elements (g2_elements vkey.vk_delta_2) c
  c ← set_points vkey.ic c
  ok c.buf
