-- ===== src/Submission.antt =====
-- validator/src/main.ts: the transaction that submits an unlock to Solana, as far as the validator
-- builds it (`submitUnlockToSolana`, `buildPackedEd25519Instruction`, `serializeUnlockParams`,
-- `serializeAttestations`); Introspection is the program's side of it, the parser of
-- programs/sol-bridge-lock/src/instructions/unlock.rs. A `PublicKey` is its 32 bytes. `copy` of a
-- buffer into another drops what does not fit, as `store` does.
pub mod Introspection
pub mod Writes
pub mod Packing
pub mod Reading
pub mod Params
pub mod Agreement
pub mod Signed
mod Tests
use sol_gateway_dcc_zk_proof.Base.{
  ℕ, suc, ◌+◌, ◌-◌, ◌*◌, ◌%◌, ◌^◌, min, Bool, true, false, Option, none, some, List, [], ◌∷◌, ◌++◌,
  Text, Result, ok, err, ◌>>=◌, ◌>>◌, require, length, replicate, take, leb, ltb, ◌==◌,
  if◌then◌else◌, map,
}
use sol_gateway_dcc_zk_proof.Bytes.{Bytes, Error, range_error}
use sol_gateway_dcc_zk_proof.Bytes.Stores.{store}
use sol_gateway_dcc_zk_proof.Bytes.Digits.{byte_at, u32_bytes, u64_bytes}
use sol_gateway_dcc_zk_proof.Bytes.Layout.{concat}
use sol_gateway_dcc_zk_proof.Encoding.{domain_sep_unlock}
use sol_gateway_dcc_zk_proof.Messages.{
  DccBurnEvent, ChainIds, dcc_id_to_bytes_32, unlock_expiration, or_throw,
}
use sol_gateway_dcc_zk_proof.Consensus.State.{Attestation}

abbrev pub u16_bytes : ℕ → Bytes
u16_bytes value = byte_at value 0 ∷ byte_at value 1 ∷ []

-- `buf.writeUInt8(value, offset)` throws out of range.
unfoldable pub write_uint8 : ℕ → ℕ → Bytes → Result Error Bytes
write_uint8 value offset buf = do
  require (ltb value (2 ^ 8)) range_error
  require (leb (offset + 1) (length buf)) range_error
  ok (store buf offset (value ∷ []))

-- `buf.writeUInt16LE(value, offset)`.
unfoldable pub write_uint16_le : ℕ → ℕ → Bytes → Result Error Bytes
write_uint16_le value offset buf = do
  require (ltb value (2 ^ 16)) range_error
  require (leb (offset + 2) (length buf)) range_error
  ok (store buf offset (u16_bytes value))

-- The places of the shared parts: `pubkeysAt`, `signaturesAt`, `messageAt`, `message.length`.
pub record Places : Type 0 where
  pub pubkeys_at : ℕ
  pub signatures_at : ℕ
  pub message_at : ℕ
  pub message_length : ℕ

abbrev pub places : ℕ → ℕ → Places
places n message_length = record {
  pubkeys_at = 2 + n * 14;
  signatures_at = 2 + n * 14 + n * 32;
  message_at = 2 + n * 14 + n * 32 + n * 64;
  message_length = message_length;
}

-- The body of `attestations.forEach((a, i) => …)`.
unfoldable pub pack_attestation : Places → ℕ → Attestation → Bytes → Result Error Bytes
pack_attestation spots i a buf = do
  let o = 2 + i * 14
  buf ← write_uint16_le (spots.signatures_at + i * 64) o buf
  buf ← write_uint16_le 0xffff (o + 2) buf
  buf ← write_uint16_le (spots.pubkeys_at + i * 32) (o + 4) buf
  buf ← write_uint16_le 0xffff (o + 6) buf
  buf ← write_uint16_le spots.message_at (o + 8) buf
  buf ← write_uint16_le spots.message_length (o + 10) buf
  buf ← write_uint16_le 0xffff (o + 12) buf
  let with_key = store buf (spots.pubkeys_at + i * 32) a.public_key
  ok (store with_key (spots.signatures_at + i * 64) a.signature)

unfoldable pub pack_attestations : Places → ℕ → List Attestation → Bytes → Result Error Bytes
pack_attestations spots i [] buf = ok buf
pack_attestations spots i (a ∷ rest) buf =
    pack_attestation spots i a buf >>= pack_attestations spots (suc i) rest

pub record Instruction : Type 0 where
  pub program_id : Bytes
  pub payload : Bytes

-- `ed25519` is the id of the precompiled program.
unfoldable pub build_packed_ed25519_instruction :
    Bytes → List Attestation → Bytes → Result Error Instruction
build_packed_ed25519_instruction ed25519 attestations message = do
  let n = length attestations
  let spots = places n (length message)
  buf ← write_uint8 n 0 (replicate (spots.message_at + length message) 0)
  buf ← write_uint8 0 1 buf
  buf ← pack_attestations spots 0 attestations buf
  ok (record { program_id = ed25519; payload = store buf spots.message_at message })

-- `const out = Buffer.alloc(n); bytes.copy(out, 0, 0, Math.min(n, bytes.length))`.
abbrev pub fixed : ℕ → Bytes → Bytes
fixed n bytes = store (replicate n 0) 0 (take (min n (length bytes)) bytes)

pub record UnlockParams : Type 0 where
  pub transfer_id : Bytes
  pub recipient : Bytes
  pub amount : ℕ
  pub burn_tx_hash : Bytes
  pub dcc_chain_id : ℕ
  pub expiration : ℕ
  pub attestations : List Attestation

-- The parts that the loop of `serializeAttestations` pushes.
unfoldable pub attestation_parts : List Attestation → List Bytes
attestation_parts [] = []
attestation_parts (a ∷ rest) = fixed 32 a.public_key ∷ fixed 64 a.signature ∷ attestation_parts rest

unfoldable pub serialize_attestations : List Attestation → Result Error Bytes
serialize_attestations attestations = do
  require (ltb (length attestations) (2 ^ 32)) range_error
  ok (concat (u32_bytes (length attestations) ∷ attestation_parts attestations))

unfoldable pub serialize_unlock_params : UnlockParams → Result Error Bytes
serialize_unlock_params params = do
  require (ltb params.amount (2 ^ 64)) range_error
  require (ltb params.dcc_chain_id (2 ^ 32)) range_error
  require (ltb params.expiration (2 ^ 63)) range_error
  attestations ← serialize_attestations params.attestations
  ok (
      concat (
        fixed 32 params.transfer_id
        ∷ params.recipient
        ∷ u64_bytes params.amount
        ∷ fixed 32 params.burn_tx_hash
        ∷ u32_bytes params.dcc_chain_id
        ∷ u64_bytes params.expiration
        ∷ attestations
        ∷ []))

-- `bytes.length === 32 ? bytes : Buffer.alloc(32)`.
abbrev id_or_zeros : Bytes → Bytes
id_or_zeros bytes = if length bytes == 32 then bytes else replicate 32 0

-- The message that the transaction carries: typed arrays keep the low bits of a number.
unfoldable pub unlock_message : UnlockParams → Bytes
unlock_message params = concat (
    domain_sep_unlock
    ∷ id_or_zeros params.transfer_id
    ∷ params.recipient
    ∷ u64_bytes (params.amount % 2 ^ 64)
    ∷ id_or_zeros params.burn_tx_hash
    ∷ u32_bytes (params.dcc_chain_id % 2 ^ 32)
    ∷ u64_bytes (params.expiration % 2 ^ 64)
    ∷ [])

-- `text || PublicKey.default.toBase58()`; the default key is 32 zero bytes.
abbrev pub recipient_text : Text → Text
recipient_text [] = replicate 32 b'1'
recipient_text (c ∷ cs) = c ∷ cs

-- The two instructions of the transaction.
pub record UnlockInstructions : Type 0 where
  pub verification : Instruction
  pub unlock_payload : Bytes

-- `submitUnlockToSolana` up to its two instructions, for a result with its event. `public_key` is
-- the constructor of web3.js; `discriminator` is the head of a SHA-256.
unfoldable pub unlock_instructions :
    (Text → Option Bytes)
    → Bytes
    → Bytes
    → ChainIds
    → Text
    → DccBurnEvent
    → List Attestation
    → Result Error UnlockInstructions
unlock_instructions public_key ed25519 discriminator ids transfer_id event attestations = do
  recipient ← or_throw (public_key (recipient_text event.sol_recipient))
  let params : UnlockParams = record {
    transfer_id = dcc_id_to_bytes_32 transfer_id;
    recipient = recipient;
    amount = event.amount;
    burn_tx_hash = dcc_id_to_bytes_32 event.tx_id;
    dcc_chain_id = ids.dcc_chain_id;
    expiration = unlock_expiration event.timestamp ids.unlock_expiry_seconds;
    attestations = attestations;
  }
  verification ← build_packed_ed25519_instruction ed25519 attestations (unlock_message params)
  serialized ← serialize_unlock_params params
  ok (record { verification = verification; unlock_payload = discriminator ++ serialized })
