-- ===== src/SolanaWatcher/Decoding.antt =====
-- The deposit event as validator/src/watchers/solana-watcher.ts documents its layout, decoded.
use sol_gateway_dcc_zk_proof.Base.{
  ℕ, ◌-◌, ◌%◌, ◌^◌, ◌≤◌, ◌<◌, ◌≡◌, refl, sym, false, none, some, List, [], ◌∷◌, ◌++◌, arith, Text,
  length, ltb, lt→ltb,
}
use sol_gateway_dcc_zk_proof.Bytes.{Bytes}
use sol_gateway_dcc_zk_proof.Bytes.Digits.{
  u32_bytes, u64_bytes, read_u32_le_of_slice, read_u64_le_of_slice,
}
use sol_gateway_dcc_zk_proof.Bytes.Layout.{concat, slice-concat, length-concat}
use sol_gateway_dcc_zk_proof.Encoding.{Signed, pos, negsuc, unsigned64}
use sol_gateway_dcc_zk_proof.Encoding.Numbers.{
  number_of, signed_number_of, IsSafe, number_of-safe, signed_number_of-safe,
}
use sol_gateway_dcc_zk_proof.Encoding.Unlock.{IsI64}
use sol_gateway_dcc_zk_proof.Messages.{SolanaDepositEvent, to_hex}
use sol_gateway_dcc_zk_proof.SolanaWatcher.{signed64, decode_bridge_deposit}

-- What the program emits for a deposit of SOL.
pub record BridgeDeposit : Type 0 where
  pub transfer_id : Bytes
  pub message_id : Bytes
  pub sender : Bytes
  pub recipient_dcc : Bytes
  pub amount : ℕ
  pub nonce : ℕ
  pub slot : ℕ
  pub event_index : ℕ
  pub timestamp : Signed
  pub src_chain_id : ℕ
  pub dst_chain_id : ℕ

pub record IsInRange (d : BridgeDeposit) : Type 0 where
  pub transfer : length d.transfer_id ≡ 32
  pub message : length d.message_id ≡ 32
  pub sender : length d.sender ≡ 32
  pub recipient : length d.recipient_dcc ≡ 32
  pub amount : d.amount < 2 ^ 64
  pub nonce : d.nonce < 2 ^ 64
  pub slot : d.slot < 2 ^ 64
  pub index : d.event_index < 2 ^ 32
  pub timestamp : IsI64 d.timestamp
  pub source : d.src_chain_id < 2 ^ 32
  pub destination : d.dst_chain_id < 2 ^ 32

-- The documented layout, with an index of 4 bytes.
abbrev pub documented_parts : BridgeDeposit → List Bytes
documented_parts d =
    d.transfer_id
    ∷ d.message_id
    ∷ d.sender
    ∷ d.recipient_dcc
    ∷ u64_bytes d.amount
    ∷ u64_bytes d.nonce
    ∷ u64_bytes d.slot
    ∷ u32_bytes d.event_index
    ∷ u64_bytes (unsigned64 d.timestamp)
    ∷ u32_bytes d.src_chain_id
    ∷ u32_bytes d.dst_chain_id
    ∷ []

abbrev pub event_of : (Bytes → Text) → Text → BridgeDeposit → SolanaDepositEvent
event_of key_text signature d = record {
  transfer_id = to_hex d.transfer_id;
  message_id = to_hex d.message_id;
  sender = key_text d.sender;
  recipient_dcc = to_hex d.recipient_dcc;
  amount = d.amount;
  nonce = d.nonce;
  slot = d.slot;
  event_index = d.event_index;
  timestamp = d.timestamp;
  src_chain_id = d.src_chain_id;
  dst_chain_id = d.dst_chain_id;
  chain_id = d.src_chain_id;
  signature = signature;
  confirmations = 0;
  token_mint = none;
}

signed64-unsigned64 : (v : Signed) → IsI64 v → signed64 (unsigned64 v) ≡ v
signed64-unsigned64 (pos n) h = rw (lt→ltb n (2 ^ 63) h) refl
signed64-unsigned64 (negsuc n) h =
    let large : ltb (2 ^ 64 - 1 - n % 2 ^ 64) (2 ^ 63) ≡ false = ground arith in
    let back : 2 ^ 64 - 1 - (2 ^ 64 - 1 - n % 2 ^ 64) ≡ n = omega arith in rw (large, back) refl

pub unsigned64-lt : (v : Signed) → IsI64 v → unsigned64 v < 2 ^ 64
unsigned64-lt (pos n) h = omega arith
unsigned64-lt (negsuc n) h = omega arith

-- The slot and the time of an event are doubles.
pub record IsExact (d : BridgeDeposit) : Type 0 where
  pub slot : number_of d.slot ≡ d.slot
  pub timestamp : signed_number_of d.timestamp ≡ d.timestamp

pub decode_bridge_deposit-exact :
    (key_text : Bytes → Text) (signature : Text) (d : BridgeDeposit) (rest : List Bytes)
    → IsInRange d
    → IsExact d
    → decode_bridge_deposit key_text (concat (documented_parts d ++ rest)) signature false
      ≡ some (event_of key_text signature d)
unfolding decode_bridge_deposit
decode_bridge_deposit-exact key_text signature d rest r x =
    let bytes = concat (documented_parts d ++ rest) in
    let amount = u64_bytes d.amount in
    let nonce = u64_bytes d.nonce in
    let slot = u64_bytes d.slot in
    let index = u32_bytes d.event_index in
    let time = u64_bytes (unsigned64 d.timestamp) in
    let src = u32_bytes d.src_chain_id in
    let dst = u32_bytes d.dst_chain_id in
    let numbers = amount ∷ nonce ∷ slot ∷ index ∷ time ∷ src ∷ dst ∷ rest in
    let ids = d.transfer_id ∷ d.message_id ∷ d.sender ∷ d.recipient_dcc ∷ [] in
    let h₁ = r.transfer in
    let h₂ = r.message in
    let h₃ = r.sender in
    let h₄ = r.recipient in
    let size : 172 ≤ length bytes = omega (arith, length-concat (documented_parts d ++ rest)) in
    let long : ltb (length bytes) 172 ≡ false = ground arith in
    let time_there = lt→ltb 163 (length bytes) (omega arith) in
    let src_there = lt→ltb 167 (length bytes) (omega arith) in
    let dst_there = lt→ltb 171 (length bytes) (omega arith) in
    rw
      (
        long,
        slice-concat [] d.transfer_id (d.message_id ∷ d.sender ∷ d.recipient_dcc ∷ numbers) 0 32
            refl (sym h₁),
        slice-concat (d.transfer_id ∷ []) d.message_id (d.sender ∷ d.recipient_dcc ∷ numbers) 32 32
            (omega arith) (sym h₂),
        slice-concat (d.transfer_id ∷ d.message_id ∷ []) d.sender (d.recipient_dcc ∷ numbers) 64 32
            (omega arith) (sym h₃),
        slice-concat (d.transfer_id ∷ d.message_id ∷ d.sender ∷ []) d.recipient_dcc numbers 96 32
            (omega arith) (sym h₄),
        time_there,
        src_there,
        dst_there,
        read_u64_le_of_slice bytes 128 d.amount
            (slice-concat ids amount (nonce ∷ slot ∷ index ∷ time ∷ src ∷ dst ∷ rest) 128 8
              (omega arith) refl)
            r.amount,
        read_u64_le_of_slice bytes 136 d.nonce
            (slice-concat (ids ++ amount ∷ []) nonce (slot ∷ index ∷ time ∷ src ∷ dst ∷ rest) 136 8
              (omega arith) refl)
            r.nonce,
        read_u64_le_of_slice bytes 144 d.slot
            (slice-concat (ids ++ amount ∷ nonce ∷ []) slot (index ∷ time ∷ src ∷ dst ∷ rest) 144 8
              (omega arith) refl)
            r.slot,
        x.slot,
        read_u32_le_of_slice bytes 152 d.event_index
            (slice-concat (ids ++ amount ∷ nonce ∷ slot ∷ []) index (time ∷ src ∷ dst ∷ rest) 152 4
              (omega arith) refl)
            r.index,
        read_u64_le_of_slice bytes 156 (unsigned64 d.timestamp)
            (slice-concat (ids ++ amount ∷ nonce ∷ slot ∷ index ∷ []) time (src ∷ dst ∷ rest) 156 8
              (omega arith) refl)
            (unsigned64-lt d.timestamp r.timestamp),
        signed64-unsigned64 d.timestamp r.timestamp,
        x.timestamp,
        read_u32_le_of_slice bytes 164 d.src_chain_id
            (slice-concat (ids ++ amount ∷ nonce ∷ slot ∷ index ∷ time ∷ []) src (dst ∷ rest) 164 4
              (omega arith) refl)
            r.source,
        read_u32_le_of_slice bytes 168 d.dst_chain_id
            (slice-concat (ids ++ amount ∷ nonce ∷ slot ∷ index ∷ time ∷ src ∷ []) dst rest 168 4
              (omega arith) refl)
            r.destination,
      )
      refl

-- An event of SOL in the documented layout, its fields in range, its slot and the magnitude of its
-- time below 2^53, is decoded whole, whatever bytes follow it.
pub decode_bridge_deposit-documented :
    (key_text : Bytes → Text) (signature : Text) (d : BridgeDeposit) (rest : List Bytes)
    → IsInRange d
    → d.slot < 2 ^ 53
    → IsSafe d.timestamp
    → decode_bridge_deposit key_text (concat (documented_parts d ++ rest)) signature false
      ≡ some (event_of key_text signature d)
decode_bridge_deposit-documented key_text signature d rest r slot time =
    decode_bridge_deposit-exact key_text signature d rest r (record {
      slot = number_of-safe d.slot slot;
      timestamp = signed_number_of-safe d.timestamp time;
    })
