-- ===== src/Submission/Writes.antt =====
-- The writes of `buildPackedEd25519Instruction` of validator/src/main.ts for one attestation and
-- for a list of them, as runs of stores.
use sol_gateway_dcc_zk_proof.Base.{
  ℕ, suc, ◌+◌, ◌*◌, ◌^◌, ◌≤◌, ◌<◌, ◌≡◌, refl, ◌∙◌, List, [], ◌∷◌, ◌++◌, arith, ok, length, All,
  lt→ltb, le→leb,
}
use sol_gateway_dcc_zk_proof.Bytes.{Bytes}
use sol_gateway_dcc_zk_proof.Bytes.Stores.{store}
use sol_gateway_dcc_zk_proof.Bytes.Layout.{slice}
use sol_gateway_dcc_zk_proof.Bytes.Regions.{Apart, length-store, slice-store-Apart, store-store}
use sol_gateway_dcc_zk_proof.Consensus.State.{Attestation}
use sol_gateway_dcc_zk_proof.Submission.{Places, u16_bytes, write_uint16_le, pack_attestation}

write_uint16_le_next :
    (buf : Bytes) (o : ℕ) (xs : Bytes) (value offset : ℕ)
    → value < 2 ^ 16
    → offset ≡ o + length xs
    → offset + 2 ≤ length buf
    → write_uint16_le value offset (store buf o xs) ≡ ok (store buf o (xs ++ u16_bytes value))
unfolding write_uint16_le
write_uint16_le_next buf o xs value offset small e fits =
    rw
      (
        lt→ltb value (2 ^ 16) small,
        length-store buf o xs,
        le→leb (offset + 2) (length buf) fits,
        e,
        store-store buf o xs (u16_bytes value),
      )
      refl

write_uint16_le_first :
    (buf : Bytes) (value o : ℕ)
    → value < 2 ^ 16
    → o + 2 ≤ length buf
    → write_uint16_le value o buf ≡ ok (store buf o (u16_bytes value))
unfolding write_uint16_le
write_uint16_le_first buf value o small fits =
    rw (lt→ltb value (2 ^ 16) small, le→leb (o + 2) (length buf) fits) refl

-- The fourteen bytes of an entry.
abbrev pub entry_bytes : Places → ℕ → Bytes
entry_bytes spots i =
    u16_bytes (spots.signatures_at + i * 64)
    ++ (u16_bytes 0xffff
        ++ (u16_bytes (spots.pubkeys_at + i * 32)
            ++ (u16_bytes 0xffff
                ++ (u16_bytes spots.message_at
                    ++ (u16_bytes spots.message_length ++ u16_bytes 0xffff)))))

abbrev pub place : Places → ℕ → Attestation → Bytes → Bytes
place spots i a buf =
    store
      (store (store buf (2 + i * 14) (entry_bytes spots i)) (spots.pubkeys_at + i * 32)
        a.public_key)
      (spots.signatures_at + i * 64) a.signature

-- All that the numbers of an entry need, to be written.
pub record Writable (spots : Places) (i : ℕ) (buf : Bytes) : Type 0 where
  pub signature : spots.signatures_at + i * 64 < 2 ^ 16
  pub key : spots.pubkeys_at + i * 32 < 2 ^ 16
  pub message : spots.message_at < 2 ^ 16
  pub size : spots.message_length < 2 ^ 16
  pub room : 2 + i * 14 + 14 ≤ length buf

pub pack_attestation-place :
    (spots : Places) (i : ℕ) (a : Attestation) (buf : Bytes)
    → Writable spots i buf
    → pack_attestation spots i a buf ≡ ok (place spots i a buf)
unfolding pack_attestation
pack_attestation-place spots i a buf w =
    let o = 2 + i * 14 in
    let far = u16_bytes 0xffff in
    let x₁ = u16_bytes (spots.signatures_at + i * 64) in
    let x₂ = x₁ ++ far in
    let x₃ = x₂ ++ u16_bytes (spots.pubkeys_at + i * 32) in
    let x₄ = x₃ ++ far in
    let x₅ = x₄ ++ u16_bytes spots.message_at in
    let x₆ = x₅ ++ u16_bytes spots.message_length in
    let next = write_uint16_le_next buf o in
    let room = w.room in
    rw (
      write_uint16_le_first buf (spots.signatures_at + i * 64) o w.signature (omega arith),
      next x₁ 0xffff (o + 2) (omega arith) refl (omega arith),
      next x₂ (spots.pubkeys_at + i * 32) (o + 4) w.key refl (omega arith),
      next x₃ 0xffff (o + 6) (omega arith) refl (omega arith),
      next x₄ spots.message_at (o + 8) w.message refl (omega arith),
      next x₅ spots.message_length (o + 10) w.size refl (omega arith),
      next x₆ 0xffff (o + 12) (omega arith) refl (omega arith),
    )

unfoldable pub place_all : Places → ℕ → List Attestation → Bytes → Bytes
place_all spots i [] buf = buf
place_all spots i (a ∷ rest) buf = place_all spots (suc i) rest (place spots i a buf)

-- A key of 32 bytes and a signature of 64.
pub record IsKeyed (a : Attestation) : Type 0 where
  pub key : length a.public_key ≡ 32
  pub signature : length a.signature ≡ 64

pub length-place :
    (spots : Places) (i : ℕ) (a : Attestation) (buf : Bytes)
    → length (place spots i a buf) ≡ length buf
length-place spots i a buf =
    let one = store buf (2 + i * 14) (entry_bytes spots i) in
    let two = store one (spots.pubkeys_at + i * 32) a.public_key in
    length-store two (spots.signatures_at + i * 64) a.signature
    ∙ (length-store one (spots.pubkeys_at + i * 32) a.public_key
        ∙ length-store buf (2 + i * 14) (entry_bytes spots i))

pub length-place_all :
    (spots : Places) (i : ℕ) (items : List Attestation) (buf : Bytes)
    → length (place_all spots i items buf) ≡ length buf
unfolding place_all
length-place_all spots i [] buf = refl
length-place_all spots i (a ∷ rest) buf =
    length-place_all spots (suc i) rest (place spots i a buf) ∙ length-place spots i a buf

-- A run of bytes outside the regions of the attestations `i` to `i + m`.
pub record Outside (spots : Places) (i m j k : ℕ) : Type 0 where
  pub entries : Apart (2 + i * 14) (m * 14) j k
  pub keys : Apart (spots.pubkeys_at + i * 32) (m * 32) j k
  pub signatures : Apart (spots.signatures_at + i * 64) (m * 64) j k

slice-place :
    (spots : Places) (i : ℕ) (a : Attestation) (buf : Bytes) (j k : ℕ)
    → IsKeyed a
    → Outside spots i 1 j k
    → slice (place spots i a buf) j k ≡ slice buf j k
slice-place spots i a buf j k keyed out =
    let one = store buf (2 + i * 14) (entry_bytes spots i) in
    let two = store one (spots.pubkeys_at + i * 32) a.public_key in
    slice-store-Apart two (spots.signatures_at + i * 64) a.signature j k
      (omega (arith, out.signatures, keyed.signature))
    ∙ (slice-store-Apart one (spots.pubkeys_at + i * 32) a.public_key j k
          (omega (arith, out.keys, keyed.key))
        ∙ slice-store-Apart buf (2 + i * 14) (entry_bytes spots i) j k (omega (arith, out.entries)))

pub slice-place_all :
    (spots : Places) (i : ℕ) (items : List Attestation) (buf : Bytes) (j k : ℕ)
    → All IsKeyed items
    → Outside spots i (length items) j k
    → slice (place_all spots i items buf) j k ≡ slice buf j k
unfolding place_all
slice-place_all spots i [] buf j k keyed out = refl
slice-place_all spots i (a ∷ rest) buf j k (keyed, others) out =
    let e = out.entries in
    let p = out.keys in
    let s = out.signatures in
    let later : Outside spots (suc i) (length rest) j k = record {
      entries = omega arith;
      keys = omega arith;
      signatures = omega arith;
    } in
    let here : Outside spots i 1 j k = record {
      entries = omega arith;
      keys = omega arith;
      signatures = omega arith;
    } in
    slice-place_all spots (suc i) rest (place spots i a buf) j k others later
    ∙ slice-place spots i a buf j k keyed here
