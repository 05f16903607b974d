-- ===== src/Submission/Agreement.antt =====
-- The instruction that the validator packs (validator/src/main.ts) and the introspection of the
-- program (programs/sol-bridge-lock/src/instructions/unlock.rs).
use sol_gateway_dcc_zk_proof.Base.{
  ℕ, zero, suc, ◌+◌, ◌*◌, ◌^◌, ◌≤◌, ◌<◌, ◌≡◌, refl, ◌∙◌, inr, some, List, [], ◌∷◌, ◌++◌, arith,
  true, false, length, get_elem?, get_or, All, replicate, length-replicate, le→leb, ◌==◌,
}
use sol_gateway_dcc_zk_proof.Bytes.{Bytes, bytes_eq_refl}
use sol_gateway_dcc_zk_proof.Bytes.Stores.{store}
use sol_gateway_dcc_zk_proof.Bytes.Digits.{get_or-slice}
use sol_gateway_dcc_zk_proof.Bytes.Layout.{slice}
use sol_gateway_dcc_zk_proof.Bytes.Regions.{length-store, slice-store, slice-store-Apart}
use sol_gateway_dcc_zk_proof.Consensus.State.{Attestation}
use sol_gateway_dcc_zk_proof.Submission.{Places, places, Instruction}
use sol_gateway_dcc_zk_proof.Submission.Writes.{
  place_all, length-place_all, slice-place_all, IsKeyed,
}
use sol_gateway_dcc_zk_proof.Submission.Packing.{Holds, Ordered, packed, place_all-Holds}
use sol_gateway_dcc_zk_proof.Submission.Introspection.{instruction_matches, verify_introspect}
use sol_gateway_dcc_zk_proof.Submission.Reading.{
  parse_entry_of_slice, entry_matches_lem, any_entry_found, or_true,
}

lt_of_get_elem? :
    (items : List Attestation) (k : ℕ) (a : Attestation)
    → get_elem? items k ≡ some a
    → k < length items
lt_of_get_elem? [] k a e = cc
lt_of_get_elem? (b ∷ items) zero a e = omega arith
lt_of_get_elem? (b ∷ items) (suc k) a e = omega (arith, lt_of_get_elem? items k a e)

module _ (attestations : List Attestation) (message : Bytes) where
  abbrev spots : Places
  spots = places (length attestations) (length message)

  abbrev header : Bytes
  header =
      store (store (replicate (spots.message_at + length message) 0) 0 (length attestations ∷ [])) 1
        (0 ∷ [])

  abbrev filled : Bytes
  filled = place_all spots 0 attestations header

  length-header : length header ≡ spots.message_at + length message
  length-header =
      let zeros : Bytes = replicate (spots.message_at + length message) 0 in
      length-store (store zeros 0 (length attestations ∷ [])) 1 (0 ∷ [])
      ∙ (length-store zeros 0 (length attestations ∷ []) ∙ length-replicate _ 0)

  length-filled : length filled ≡ spots.message_at + length message
  length-filled = length-place_all spots 0 attestations header ∙ length-header

  length-packed : length (packed attestations message) ≡ spots.message_at + length message
  length-packed = length-store filled spots.message_at message ∙ length-filled

  -- The message does not touch what stands before it.
  slice-packed :
      (j k : ℕ)
      → j + k ≤ spots.message_at
      → slice (packed attestations message) j k ≡ slice filled j k
  slice-packed j k h = slice-store-Apart filled spots.message_at message j k (inr h)

  module _ (keyed : All IsKeyed attestations) where
    count-packed : get_or (packed attestations message) 0 0 ≡ length attestations
    count-packed =
        let n = length attestations in
        let zeros : Bytes = replicate (spots.message_at + length message) 0 in
        let first =
          slice-packed 0 1 (omega arith)
          ∙ (slice-place_all spots 0 attestations header 0 1 keyed (record {
            entries = inr (omega arith);
            keys = inr (omega arith);
            signatures = inr (omega arith);
          })
              ∙ (slice-store-Apart (store zeros 0 (n ∷ [])) 1 (0 ∷ []) 0 1 (inr (omega arith))
                  ∙ slice-store zeros 0 (n ∷ []) (
                      omega (
                        arith,
                        length-replicate {A = ℕ} (spots.message_at + length message) 0,
                      )))) in
        rw first at (get_or-slice (packed attestations message) 0 1 0 (omega arith))

    module _ (k : ℕ) (a : Attestation) (e : get_elem? attestations k ≡ some a) where
      packed-Holds : Holds spots k a (packed attestations message)
      packed-Holds =
          let ordered : Ordered spots (length attestations) = record {
            keys = refl;
            signatures = refl;
            message = refl;
          } in
          let zero_k : 0 + k ≡ k = omega arith in
          let held = rw zero_k at (
            place_all-Holds spots (length attestations) ordered 0 k a attestations header
              (omega arith) (omega (arith, length-header)) keyed e) in
          let small = lt_of_get_elem? attestations k a e in
          record {
            entry = slice-packed (2 + k * 14) 14 (omega arith) ∙ held.entry;
            key = slice-packed (spots.pubkeys_at + k * 32) 32 (omega arith) ∙ held.key;
            signature =
                slice-packed (spots.signatures_at + k * 64) 64 (omega arith) ∙ held.signature;
          }

      packed-instruction_matches :
          (ed25519 : Bytes)
          → length attestations < 2 ^ 8
          → length message < 2 ^ 15
          → instruction_matches ed25519 a.public_key message a.signature
              (record { program_id = ed25519; payload = packed attestations message })
            ≡ true
      unfolding instruction_matches
      packed-instruction_matches ed25519 few short =
          let n = length attestations in
          let small = lt_of_get_elem? attestations k a e in
          let held = packed-Holds in
          let zero_k : 0 + k ≡ k = omega arith in
          let whole = length-packed in
          let buf = packed attestations message in
          let msg : slice buf spots.message_at (length message) ≡ message =
            slice-store filled spots.message_at message (omega (arith, length-filled)) in
          let parsed =
            parse_entry_of_slice buf spots k held.entry (omega arith) (omega arith) (omega arith)
              (omega arith) in
          let matched =
            entry_matches_lem a.public_key message a.signature buf (spots.signatures_at + k * 64)
              (spots.pubkeys_at + k * 32) spots.message_at (length message) held.key held.signature
              msg (omega arith) (omega arith) (omega arith) in
          let found =
            any_entry_found a.public_key message a.signature buf n 0 k small
              (rw (zero_k, parsed) matched) in
          let some_one : (n == 0) ≡ false = ground arith in
          rw
            (
              bytes_eq_refl ed25519,
              count-packed,
              le→leb 2 (length buf) (omega arith),
              some_one,
              le→leb (2 + n * 14) (length buf) (omega arith),
              found,
            )
            refl

verify_introspect_among :
    (ed25519 pubkey message signature : Bytes) (before after : List Instruction) (ix : Instruction)
    → instruction_matches ed25519 pubkey message signature ix ≡ true
    → verify_introspect ed25519 (before ++ ix ∷ after) pubkey message signature ≡ true
unfolding verify_introspect
verify_introspect_among ed25519 pubkey message signature [] after ix h = rw h refl
verify_introspect_among ed25519 pubkey message signature (b ∷ before) after ix h =
    rw (verify_introspect_among ed25519 pubkey message signature before after ix h)
      (or_true (instruction_matches ed25519 pubkey message signature b))

-- The packed instruction, wherever it stands among those before the unlock.
pub verify_introspect-packed :
    (ed25519 message : Bytes) (attestations : List Attestation) (k : ℕ) (a : Attestation)
    (before after : List Instruction)
    → length attestations < 2 ^ 8
    → length message < 2 ^ 15
    → All IsKeyed attestations
    → get_elem? attestations k ≡ some a
    → verify_introspect ed25519
        (before ++ record { program_id = ed25519; payload = packed attestations message } ∷ after)
        a.public_key
        message
        a.signature
      ≡ true
verify_introspect-packed ed25519 message attestations k a before after few short keyed e =
    verify_introspect_among ed25519 a.public_key message a.signature before after _
      (packed-instruction_matches attestations message keyed k a e ed25519 few short)
