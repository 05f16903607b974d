-- ===== src/Submission/Packing.antt =====
-- What `buildPackedEd25519Instruction` of validator/src/main.ts leaves in its buffer.
use native.Mathlib.Nat.{add-zero}
use sol_gateway_dcc_zk_proof.Base.{
  ℕ, zero, suc, ◌+◌, ◌*◌, ◌^◌, ◌≤◌, ◌<◌, ◌≡◌, refl, ◌∙◌, inl, inr, some, List, [], ◌∷◌, arith, ok,
  length, get_elem?, All, replicate, length-replicate, lt→ltb, le→leb,
}
use sol_gateway_dcc_zk_proof.Bytes.{Bytes}
use sol_gateway_dcc_zk_proof.Bytes.Stores.{store}
use sol_gateway_dcc_zk_proof.Bytes.Layout.{slice}
use sol_gateway_dcc_zk_proof.Bytes.Regions.{length-store, slice-store, slice-store-Apart}
use sol_gateway_dcc_zk_proof.Consensus.State.{Attestation}
use sol_gateway_dcc_zk_proof.Submission.Writes.{
  entry_bytes, place, place_all, IsKeyed, Writable, Outside, pack_attestation-place, length-place,
  slice-place_all,
}
use sol_gateway_dcc_zk_proof.Submission.{
  Places, places, pack_attestations, build_packed_ed25519_instruction, write_uint8,
}

-- The three regions of the attestation `i`.
pub record Holds (spots : Places) (i : ℕ) (a : Attestation) (buf : Bytes) : Type 0 where
  pub entry : slice buf (2 + i * 14) 14 ≡ entry_bytes spots i
  pub key : slice buf (spots.pubkeys_at + i * 32) 32 ≡ a.public_key
  pub signature : slice buf (spots.signatures_at + i * 64) 64 ≡ a.signature

-- Places for `n` attestations: the regions follow one another.
pub record Ordered (spots : Places) (n : ℕ) : Type 0 where
  pub keys : spots.pubkeys_at ≡ 2 + n * 14
  pub signatures : spots.signatures_at ≡ spots.pubkeys_at + n * 32
  pub message : spots.message_at ≡ spots.signatures_at + n * 64

module _ (spots : Places) (n : ℕ) (o : Ordered spots n) where
  place-Holds :
      (i : ℕ) (a : Attestation) (buf : Bytes)
      → i < n
      → spots.message_at ≤ length buf
      → IsKeyed a
      → Holds spots i a (place spots i a buf)
  place-Holds i a buf h room keyed =
      let one = store buf (2 + i * 14) (entry_bytes spots i) in
      let two = store one (spots.pubkeys_at + i * 32) a.public_key in
      let k = keyed.key in
      let s = keyed.signature in
      let length-one = length-store buf (2 + i * 14) (entry_bytes spots i) in
      let length-two = length-store one (spots.pubkeys_at + i * 32) a.public_key in
      let p = o.keys in
      let q = o.signatures in
      let r = o.message in
      record {
        entry =
            slice-store-Apart two (spots.signatures_at + i * 64) a.signature (2 + i * 14) 14
              (inr (omega arith))
            ∙ (slice-store-Apart one (spots.pubkeys_at + i * 32) a.public_key (2 + i * 14) 14
                  (inr (omega arith))
                ∙ slice-store buf (2 + i * 14) (entry_bytes spots i) (omega arith));
        key =
            slice-store-Apart two (spots.signatures_at + i * 64) a.signature
              (spots.pubkeys_at + i * 32) 32 (inr (omega arith))
            ∙ rw k at (slice-store one (spots.pubkeys_at + i * 32) a.public_key (omega arith));
        signature =
            rw s at (slice-store two (spots.signatures_at + i * 64) a.signature (omega arith));
      }

  -- What one attestation holds, the later ones leave.
  place_all-Holds_earlier :
      (i : ℕ) (a : Attestation) (items : List Attestation) (buf : Bytes)
      → suc i + length items ≤ n
      → All IsKeyed items
      → Holds spots i a buf
      → Holds spots i a (place_all spots (suc i) items buf)
  place_all-Holds_earlier i a items buf h keyed held =
      let p = o.keys in
      let q = o.signatures in
      let r = o.message in
      let same = λ (j k : ℕ) (out : Outside spots (suc i) (length items) j k).
        slice-place_all spots (suc i) items buf j k keyed out in
      record {
        entry =
            same (2 + i * 14) 14 (record {
              entries = inr (omega arith);
              keys = inr (omega arith);
              signatures = inr (omega arith);
            })
            ∙ held.entry;
        key =
            same (spots.pubkeys_at + i * 32) 32 (record {
              entries = inl (omega arith);
              keys = inr (omega arith);
              signatures = inr (omega arith);
            })
            ∙ held.key;
        signature =
            same (spots.signatures_at + i * 64) 64 (record {
              entries = inl (omega arith);
              keys = inl (omega arith);
              signatures = inr (omega arith);
            })
            ∙ held.signature;
      }

  -- Every attestation is held at its place once all are written.
  pub place_all-Holds :
      (i k : ℕ) (a : Attestation) (items : List Attestation) (buf : Bytes)
      → i + length items ≤ n
      → spots.message_at ≤ length buf
      → All IsKeyed items
      → get_elem? items k ≡ some a
      → Holds spots (i + k) a (place_all spots i items buf)
  unfolding place_all
  place_all-Holds i k a [] buf h room keyed e = cc
  place_all-Holds i zero a (b ∷ rest) buf h room (keyed, others) e =
      let same : b ≡ a = cc e in
      rw (add-zero i, ← same)
        (place_all-Holds_earlier i b rest (place spots i b buf) (omega arith) others
          (place-Holds i b buf (omega arith) room keyed))
  place_all-Holds i (suc k) a (b ∷ rest) buf h room (keyed, others) e =
      let moved : i + suc k ≡ suc i + k = omega arith in
      rw moved (
        place_all-Holds (suc i) k a rest (place spots i b buf) (omega arith)
          (omega (arith, length-place spots i b buf)) others e)

  -- With room for its numbers the loop writes every attestation, without an error.
  pack_attestations-place_all :
      (i : ℕ) (items : List Attestation) (buf : Bytes)
      → i + length items ≤ n
      → spots.message_at ≤ length buf
      → spots.message_at < 2 ^ 16
      → spots.message_length < 2 ^ 16
      → pack_attestations spots i items buf ≡ ok (place_all spots i items buf)
  unfolding pack_attestations place_all
  pack_attestations-place_all i [] buf h room small size = refl
  pack_attestations-place_all i (a ∷ rest) buf h room small size =
      let p = o.keys in
      let q = o.signatures in
      let r = o.message in
      let writable : Writable spots i buf = record {
        signature = omega arith;
        key = omega arith;
        message = small;
        size = size;
        room = omega arith;
      } in
      rw (pack_attestation-place spots i a buf writable) (
        pack_attestations-place_all (suc i) rest (place spots i a buf) (omega arith)
          (omega (arith, length-place spots i a buf)) small size)

-- The buffer of an instruction, once it is written.
abbrev pub packed : List Attestation → Bytes → Bytes
packed attestations message =
    let n = length attestations in
    let spots = places n (length message) in
    let zeros = replicate (spots.message_at + length message) 0 in
    store (place_all spots 0 attestations (store (store zeros 0 (n ∷ [])) 1 (0 ∷ [])))
      spots.message_at message

-- A run of at most 255 attestations and of a message that fits is written without an error.
pub build_packed_ed25519_instruction-packed :
    (ed25519 : Bytes) (attestations : List Attestation) (message : Bytes)
    → length attestations < 2 ^ 8
    → length message < 2 ^ 15
    → build_packed_ed25519_instruction ed25519 attestations message
      ≡ ok (record { program_id = ed25519; payload = packed attestations message })
unfolding build_packed_ed25519_instruction write_uint8
build_packed_ed25519_instruction-packed ed25519 attestations message few short =
    let n = length attestations in
    let spots = places n (length message) in
    let size = spots.message_at + length message in
    let zeros : Bytes = replicate size 0 in
    let one = store zeros 0 (n ∷ []) in
    let two = store one 1 (0 ∷ []) in
    let length-zeros = length-replicate {A = ℕ} size 0 in
    let length-one = length-store zeros 0 (n ∷ []) in
    let length-two = length-store one 1 (0 ∷ []) in
    let ordered : Ordered spots n = record { keys = refl; signatures = refl; message = refl } in
    rw
      (
        lt→ltb n (2 ^ 8) few,
        le→leb (0 + 1) (length zeros) (omega arith),
        le→leb (1 + 1) (length one) (omega arith),
        pack_attestations-place_all spots n ordered 0 attestations two (omega arith) (omega arith)
            (omega arith) (omega arith),
      )
      refl
