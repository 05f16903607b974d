-- ===== src/Submission/Params.antt =====
-- The parameters of an unlock in Borsh (`serializeUnlockParams` and `serializeAttestations` of
-- validator/src/main.ts), and the reading of the layout that their comments document.
use mathlib.Core.List.{append_assoc, append-nil}
use sol_gateway_dcc_zk_proof.Base.{
  ℕ, zero, suc, ◌+◌, ◌^◌, ◌<◌, ◌≡◌, refl, sym, ◌∙◌, List, [], ◌∷◌, ◌++◌, arith, ok, min, map,
  length, take, replicate, All, length-replicate, take-append, lt→ltb,
}
use sol_gateway_dcc_zk_proof.Bytes.{Bytes}
use sol_gateway_dcc_zk_proof.Bytes.Stores.{store-splice}
use sol_gateway_dcc_zk_proof.Bytes.Digits.{
  u32_bytes, u64_bytes, read_u32_le, read_u64_le, read_u32_le_of_slice, read_u64_le_of_slice,
}
use sol_gateway_dcc_zk_proof.Bytes.Layout.{concat, total, slice, slice-concat, total-append}
use sol_gateway_dcc_zk_proof.Consensus.State.{Attestation}
use sol_gateway_dcc_zk_proof.Submission.{
  UnlockParams, fixed, attestation_parts, serialize_attestations, serialize_unlock_params,
}
use sol_gateway_dcc_zk_proof.Submission.Writes.{IsKeyed}

-- A validator and its signature.
pub record Signed : Type 0 where
  pub validator : Bytes
  pub signature : Bytes

abbrev pub signed_of : Attestation → Signed
signed_of a = record { validator = a.public_key; signature = a.signature }

-- The documented layout: 96 bytes for each attestation.
pub read_attestations : ℕ → ℕ → Bytes → List Signed
read_attestations zero offset bytes = []
read_attestations (suc n) offset bytes =
    record { validator = slice bytes offset 32; signature = slice bytes (offset + 32) 64 }
    ∷ read_attestations n (offset + 96) bytes

pub record ParsedParams : Type 0 where
  pub transfer_id : Bytes
  pub recipient : Bytes
  pub amount : ℕ
  pub burn_tx_hash : Bytes
  pub dcc_chain_id : ℕ
  pub expiration : ℕ
  pub attestations : List Signed

pub read_unlock_params : Bytes → ParsedParams
read_unlock_params bytes = record {
  transfer_id = slice bytes 0 32;
  recipient = slice bytes 32 32;
  amount = read_u64_le bytes 64;
  burn_tx_hash = slice bytes 72 32;
  dcc_chain_id = read_u32_le bytes 104;
  expiration = read_u64_le bytes 108;
  attestations = read_attestations (read_u32_le bytes 116) 120 bytes;
}

pub record ParamsFit (params : UnlockParams) : Type 0 where
  pub transfer : length params.transfer_id ≡ 32
  pub recipient : length params.recipient ≡ 32
  pub amount : params.amount < 2 ^ 64
  pub burn : length params.burn_tx_hash ≡ 32
  pub chain : params.dcc_chain_id < 2 ^ 32
  pub expiration : params.expiration < 2 ^ 63
  pub count : length params.attestations < 2 ^ 32

fixed_exact : (n : ℕ) (bytes : Bytes) → length bytes ≡ n → fixed n bytes ≡ bytes
fixed_exact n bytes h =
    let e : min n (length bytes) ≡ length bytes = omega arith in
    let whole : take (length bytes) bytes ≡ bytes = rw append-nil at (take-append bytes []) in
    let spliced = store-splice [] (replicate n 0) bytes [] (h ∙ sym (length-replicate n 0)) in
    rw (e, whole) (rw (append-nil (replicate {A = ℕ} n 0), append-nil bytes) at spliced)

read_attestations-concat :
    (pre : List Bytes) (items : List Attestation) (offset : ℕ)
    → offset ≡ total pre
    → All IsKeyed items
    → read_attestations (length items) offset (concat (pre ++ attestation_parts items))
      ≡ map signed_of items
unfolding read_attestations attestation_parts
read_attestations-concat pre [] offset e keyed = refl
read_attestations-concat pre (a ∷ rest) offset e (keyed, others) =
    let key = fixed_exact 32 a.public_key keyed.key in
    let sig = fixed_exact 64 a.signature keyed.signature in
    let bytes = concat (pre ++ a.public_key ∷ a.signature ∷ attestation_parts rest) in
    let k = keyed.key in
    let s = keyed.signature in
    let grown = pre ++ a.public_key ∷ a.signature ∷ [] in
    let one = pre ++ a.public_key ∷ [] in
    let regroup₁ : one ++ a.signature ∷ attestation_parts rest
        ≡ pre ++ a.public_key ∷ a.signature ∷ attestation_parts rest =
      append_assoc pre (a.public_key ∷ []) (a.signature ∷ attestation_parts rest) in
    let regroup : grown ++ attestation_parts rest
        ≡ pre ++ a.public_key ∷ a.signature ∷ attestation_parts rest =
      append_assoc pre (a.public_key ∷ a.signature ∷ []) (attestation_parts rest) in
    let first =
      slice-concat pre a.public_key (a.signature ∷ attestation_parts rest) offset 32 e (sym k) in
    let second = rw regroup₁ at (
      slice-concat one a.signature (attestation_parts rest) (offset + 32) 64
        (omega (arith, total-append pre (a.public_key ∷ []))) (sym s)) in
    let later = rw regroup at (
      read_attestations-concat grown rest (offset + 96)
        (omega (arith, total-append pre (a.public_key ∷ a.signature ∷ []))) others) in
    rw (key, sig, first, second, later) refl

abbrev pub parsed_of : UnlockParams → ParsedParams
parsed_of params = record {
  transfer_id = params.transfer_id;
  recipient = params.recipient;
  amount = params.amount;
  burn_tx_hash = params.burn_tx_hash;
  dcc_chain_id = params.dcc_chain_id;
  expiration = params.expiration;
  attestations = map signed_of params.attestations;
}

-- The fields one after the other, the attestations flat.
abbrev params_parts : UnlockParams → List Bytes
params_parts params =
    params.transfer_id
    ∷ params.recipient
    ∷ u64_bytes params.amount
    ∷ params.burn_tx_hash
    ∷ u32_bytes params.dcc_chain_id
    ∷ u64_bytes params.expiration
    ∷ u32_bytes (length params.attestations)
    ∷ attestation_parts params.attestations

module _ (params : UnlockParams) (fit : ParamsFit params) where
  serialize_unlock_params-concat :
      serialize_unlock_params params ≡ ok (concat (params_parts params))
  unfolding serialize_unlock_params serialize_attestations
  serialize_unlock_params-concat =
      let n = length params.attestations in
      rw
        (
          lt→ltb params.amount (2 ^ 64) fit.amount,
          lt→ltb params.dcc_chain_id (2 ^ 32) fit.chain,
          lt→ltb params.expiration (2 ^ 63) fit.expiration,
          lt→ltb n (2 ^ 32) fit.count,
          fixed_exact 32 params.transfer_id fit.transfer,
          fixed_exact 32 params.burn_tx_hash fit.burn,
          append-nil (concat (attestation_parts params.attestations)),
        )
        refl

  read_unlock_params-concat :
      All IsKeyed params.attestations
      → read_unlock_params (concat (params_parts params)) ≡ parsed_of params
  unfolding read_unlock_params
  read_unlock_params-concat keyed =
      let n = length params.attestations in
      let bytes = concat (params_parts params) in
      let tid = params.transfer_id in
      let rec = params.recipient in
      let amt = u64_bytes params.amount in
      let burn = params.burn_tx_hash in
      let chain = u32_bytes params.dcc_chain_id in
      let expiry = u64_bytes params.expiration in
      let count = u32_bytes n in
      let tail = attestation_parts params.attestations in
      let h₁ = fit.transfer in
      let h₂ = fit.recipient in
      let h₃ = fit.burn in
      let p₂ = tid ∷ rec ∷ [] in
      let p₄ = tid ∷ rec ∷ amt ∷ burn ∷ [] in
      let p₆ = tid ∷ rec ∷ amt ∷ burn ∷ chain ∷ expiry ∷ [] in
      let small = fit.expiration in
      rw
        (
          slice-concat [] tid (rec ∷ amt ∷ burn ∷ chain ∷ expiry ∷ count ∷ tail) 0 32 refl (sym h₁),
          slice-concat (tid ∷ []) rec (amt ∷ burn ∷ chain ∷ expiry ∷ count ∷ tail) 32 32
              (omega arith) (sym h₂),
          read_u64_le_of_slice bytes 64 params.amount
              (slice-concat p₂ amt (burn ∷ chain ∷ expiry ∷ count ∷ tail) 64 8 (omega arith) refl)
              fit.amount,
          slice-concat (p₂ ++ amt ∷ []) burn (chain ∷ expiry ∷ count ∷ tail) 72 32 (omega arith)
              (sym h₃),
          read_u32_le_of_slice bytes 104 params.dcc_chain_id
              (slice-concat p₄ chain (expiry ∷ count ∷ tail) 104 4 (omega arith) refl) fit.chain,
          read_u64_le_of_slice bytes 108 params.expiration
              (slice-concat (p₄ ++ chain ∷ []) expiry (count ∷ tail) 108 8 (omega arith) refl)
              (omega arith),
          read_u32_le_of_slice bytes 116 n (slice-concat p₆ count tail 116 4 (omega arith) refl)
              fit.count,
          read_attestations-concat (p₆ ++ count ∷ []) params.attestations 120 (omega arith) keyed,
        )
        refl

  -- Parameters whose ids and recipient have 32 bytes, whose numbers fit their fields and whose
  -- attestations have keys of 32 bytes and signatures of 64 are serialized without an error, and
  -- the documented layout reads every field and every attestation back.
  pub read_unlock_params-serialize_unlock_params :
      All IsKeyed params.attestations
      → (bytes : Bytes) × (serialize_unlock_params params ≡ ok bytes)
        × (read_unlock_params bytes ≡ parsed_of params)
  read_unlock_params-serialize_unlock_params keyed = (
    concat (params_parts params),
    serialize_unlock_params-concat,
    read_unlock_params-concat keyed,
  )
