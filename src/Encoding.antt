-- ===== src/Encoding.antt =====
-- libs/encoding-ts/index.ts: the canonical encoding of deposit and unlock messages.
-- A text is kept as its UTF-8 bytes, so that `TextEncoder.encode` is the identity; the decoder of
-- bytes that need not be UTF-8 is an argument of the parser. Bigints and numbers are not negative,
-- but for the expiration; a byte array holds numbers below 256.
pub mod Layout
pub mod Deposit
pub mod Numbers
pub mod Unlock
pub mod PublicInputs
pub mod RideInputs
mod Tests
use sol_gateway_dcc_zk_proof.Base.{
  ℕ, zero, suc, ◌+◌, ◌-◌, ◌*◌, ◌%◌, ◌^◌, Bool, true, false, Option, none, some, List, [], ◌∷◌,
  Result, ok, err, ◌>>=◌, ◌>>◌, require, length, replicate, leb, ltb, ◌==◌, not, min, take,
}
use sol_gateway_dcc_zk_proof.Bytes.{
  Bytes, Error, must_be_32_bytes, encoding_error, preimage_too_short, exceeds_field_order,
}
use sol_gateway_dcc_zk_proof.Bytes.Stores.{set_bytes}
use sol_gateway_dcc_zk_proof.Bytes.Digits.{u32_bytes, u64_bytes, read_u32_le, read_u64_le}
use sol_gateway_dcc_zk_proof.Bytes.Values.{join_down, fill_down}
use sol_gateway_dcc_zk_proof.Bytes.Layout.{Cursor, zeroed, put, put_set, slice}

-- A bigint that may be negative: `negsuc n` is -(n + 1).
pub data Signed : Type 0 where
  pos : ℕ → Signed
  negsuc : ℕ → Signed

pub record DepositEnvelope : Type 0 where
  pub domain_sep : Option Bytes
  pub src_chain_id : ℕ
  pub dst_chain_id : ℕ
  pub src_program_id : Bytes
  pub slot : ℕ
  pub event_index : ℕ
  pub sender : Bytes
  pub recipient : Bytes
  pub amount : ℕ
  pub nonce : ℕ
  pub asset_id : Bytes

pub record UnlockEnvelope : Type 0 where
  pub domain_sep : Option Bytes
  pub transfer_id : Bytes
  pub recipient : Bytes
  pub amount : ℕ
  pub burn_tx_hash : Bytes
  pub dcc_chain_id : ℕ
  pub expiration : Signed

-- "DCC_SOL_BRIDGE_V1"
abbrev pub domain_sep_deposit : Bytes
domain_sep_deposit =
    b'D' ∷ b'C' ∷ b'C' ∷ b'_' ∷ b'S' ∷ b'O' ∷ b'L' ∷ b'_' ∷ b'B' ∷ b'R' ∷ b'I' ∷ b'D' ∷ b'G' ∷ b'E'
    ∷ b'_' ∷ b'V' ∷ b'1' ∷ []

-- "SOL_DCC_BRIDGE_UNLOCK_V1"
abbrev pub domain_sep_unlock : Bytes
domain_sep_unlock =
    b'S' ∷ b'O' ∷ b'L' ∷ b'_' ∷ b'D' ∷ b'C' ∷ b'C' ∷ b'_' ∷ b'B' ∷ b'R' ∷ b'I' ∷ b'D' ∷ b'G' ∷ b'E'
    ∷ b'_' ∷ b'U' ∷ b'N' ∷ b'L' ∷ b'O' ∷ b'C' ∷ b'K' ∷ b'_' ∷ b'V' ∷ b'1' ∷ []

abbrev pub deposit_preimage_length : ℕ
deposit_preimage_length = 181

abbrev pub bn128_order : ℕ
bn128_order = 21888242871839275222246405745257275088548364400416034343698204186575808495617

-- `env.domainSep || fallback`: an empty text is falsy.
abbrev pub or_default : Option Bytes → Bytes → Bytes
or_default none fallback = fallback
or_default (some []) fallback = fallback
or_default (some (b ∷ bs)) fallback = b ∷ bs

-- `copyBytes(buf, offset, src, n); offset += n`.
unfoldable pub copy_bytes : ℕ → Bytes → Cursor → Result Error Cursor
copy_bytes n src c = let to_copy = min (length src) n in put_set n (take to_copy src) c

-- `if (arr.length !== 32) throw`.
abbrev pub require_32 : Bytes → Result Error (Unit {0})
require_32 bytes = require (length bytes == 32) must_be_32_bytes

-- `if (offset !== totalLength) throw …; return buf`.
abbrev pub finish : ℕ → Cursor → Result Error Bytes
finish total_length c = do
  require (c.offset == total_length) (encoding_error total_length c.offset)
  ok c.buf

-- The low 64 bits of the two's complement, which are all that `writeU64LE` stores.
abbrev pub unsigned64 : Signed → ℕ
unsigned64 (pos n) = n
unsigned64 (negsuc n) = 2 ^ 64 - 1 - n % 2 ^ 64

unfoldable pub encode_deposit_message : DepositEnvelope → Result Error Bytes
encode_deposit_message env = do
  let domain_bytes = or_default env.domain_sep domain_sep_deposit
  require_32 env.src_program_id
  require_32 env.sender
  require_32 env.recipient
  require_32 env.asset_id
  let total_length = length domain_bytes + (4 + 4 + 32 + 8 + 4 + 32 + 32 + 8 + 8 + 32)
  c ← put_set (length domain_bytes) domain_bytes (zeroed total_length)
  c ←
      copy_bytes 32 env.src_program_id
        (put 4 (u32_bytes env.dst_chain_id) (put 4 (u32_bytes env.src_chain_id) c))
  c ← copy_bytes 32 env.sender (put 4 (u32_bytes env.event_index) (put 8 (u64_bytes env.slot) c))
  c ← copy_bytes 32 env.recipient c
  c ← copy_bytes 32 env.asset_id (put 8 (u64_bytes env.nonce) (put 8 (u64_bytes env.amount) c))
  finish total_length c

unfoldable pub encode_unlock_message : UnlockEnvelope → Result Error Bytes
encode_unlock_message env = do
  let domain_bytes = or_default env.domain_sep domain_sep_unlock
  require_32 env.transfer_id
  require_32 env.recipient
  require_32 env.burn_tx_hash
  let total_length = length domain_bytes + (32 + 32 + 8 + 32 + 4 + 8)
  c ← put_set (length domain_bytes) domain_bytes (zeroed total_length)
  c ← copy_bytes 32 env.transfer_id c
  c ← copy_bytes 32 env.recipient c
  c ← copy_bytes 32 env.burn_tx_hash (put 8 (u64_bytes env.amount) c)
  finish total_length
      (put 8 (u64_bytes (unsigned64 env.expiration)) (put 4 (u32_bytes env.dcc_chain_id) c))

-- `decode` is `TextDecoder.decode`, to the UTF-8 bytes of the text that it gives.
unfoldable pub parse_deposit_message : (Bytes → Bytes) → Bytes → Result Error DepositEnvelope
parse_deposit_message decode bytes = do
  require (leb deposit_preimage_length (length bytes)) (preimage_too_short (length bytes))
  ok (record {
    domain_sep = some (decode (slice bytes 0 17));
    src_chain_id = read_u32_le bytes 17;
    dst_chain_id = read_u32_le bytes 21;
    src_program_id = slice bytes 25 32;
    slot = read_u64_le bytes 57;
    event_index = read_u32_le bytes 65;
    sender = slice bytes 69 32;
    recipient = slice bytes 101 32;
    amount = read_u64_le bytes 133;
    nonce = read_u64_le bytes 141;
    asset_id = slice bytes 149 32;
  })

-- `hashMessage` and `computeDepositMessageId`; `keccak` is `keccak_256` of @noble/hashes.
unfoldable pub compute_deposit_message_id : (Bytes → Bytes) → DepositEnvelope → Result Error Bytes
compute_deposit_message_id keccak env = do
  preimage ← encode_deposit_message env
  ok (keccak preimage)

-- `computeLeafHash`: keccak256(0x00 || message_id).
unfoldable pub compute_leaf_hash : (Bytes → Bytes) → Bytes → Result Error Bytes
compute_leaf_hash keccak message_id = do
  require_32 message_id
  buf ← set_bytes (replicate 33 0) 1 message_id
  ok (keccak buf)

unfoldable pub split_to_128 : Bytes → Result Error (ℕ × ℕ)
split_to_128 bytes = do require_32 bytes; ok (join_down 16 0 0 bytes, join_down 16 16 0 bytes)

unfoldable pub field_to_bytes_32_be : ℕ → Bytes
field_to_bytes_32_be val = fill_down 32 val (replicate 32 0)

pub record ZkPublicInputs : Type 0 where
  pub checkpoint_root_lo : ℕ
  pub checkpoint_root_hi : ℕ
  pub message_id_lo : ℕ
  pub message_id_hi : ℕ
  pub amount : ℕ
  pub recipient_lo : ℕ
  pub recipient_hi : ℕ
  pub version : ℕ

-- The loop that throws for the first value that is not below the field order.
unfoldable pub check_field : List ℕ → Result Error (Unit {0})
check_field [] = ok tt
check_field (v ∷ vs) =
    let rest = check_field vs in require (ltb v bn128_order) (exceeds_field_order v) >> rest

-- `checkpointRoot ? splitTo128(checkpointRoot) : [0n, 0n]`.
abbrev pub split_root : Option Bytes → Result Error (ℕ × ℕ)
split_root none = ok (0, 0)
split_root (some root) = split_to_128 root

unfoldable pub derive_public_inputs : Bytes → ℕ → Bytes → Option Bytes → Result Error ZkPublicInputs
derive_public_inputs message_id amount recipient checkpoint_root = do
  require_32 message_id
  require_32 recipient
  root ← split_root checkpoint_root
  msg ← split_to_128 message_id
  recip ← split_to_128 recipient
  check_field (root.0 ∷ root.1 ∷ msg.0 ∷ msg.1 ∷ amount ∷ recip.0 ∷ recip.1 ∷ [])
  ok (record {
    checkpoint_root_lo = root.0;
    checkpoint_root_hi = root.1;
    message_id_lo = msg.0;
    message_id_hi = msg.1;
    amount = amount;
    recipient_lo = recip.0;
    recipient_hi = recip.1;
    version = 1;
  })

-- The loop over the field elements: `buf.set(fieldToBytes32BE(val), offset); offset += 32`.
unfoldable pub pack_fields : List ℕ → Cursor → Result Error Cursor
pack_fields [] c = ok c
pack_fields (v ∷ vs) c = put_set 32 (field_to_bytes_32_be v) c >>= pack_fields vs

unfoldable pub pack_public_inputs_for_ride : ZkPublicInputs → Result Error Bytes
pack_public_inputs_for_ride inputs = do
  c ←
      pack_fields
        (inputs.checkpoint_root_lo ∷ inputs.checkpoint_root_hi ∷ inputs.message_id_lo
          ∷ inputs.message_id_hi ∷ inputs.amount ∷ inputs.recipient_lo ∷ inputs.recipient_hi
          ∷ inputs.version ∷ [])
        (zeroed 256)
  ok c.buf
