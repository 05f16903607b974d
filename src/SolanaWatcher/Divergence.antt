-- ===== src/SolanaWatcher/Divergence.antt =====
-- The deposit event as programs/sol-bridge-lock/src/events.rs declares it, with an index of 8 bytes,
-- read by validator/src/watchers/solana-watcher.ts.
use sol_gateway_dcc_zk_proof.Base.{
  ℕ, ◌*◌, ◌^◌, ◌<◌, ◌≡◌, sym, ap, ◌∙◌, false, some, List, [], ◌∷◌, ◌++◌, arith, Text,
}
use sol_gateway_dcc_zk_proof.Bytes.{Bytes}
use sol_gateway_dcc_zk_proof.Bytes.Digits.{byte_at, u32_bytes, u64_bytes}
use sol_gateway_dcc_zk_proof.Bytes.Layout.{concat}
use sol_gateway_dcc_zk_proof.Encoding.{pos, unsigned64}
use sol_gateway_dcc_zk_proof.Encoding.Numbers.{number_of-safe, signed_number_of-multiple}
use sol_gateway_dcc_zk_proof.SolanaWatcher.{decode_bridge_deposit}
use sol_gateway_dcc_zk_proof.SolanaWatcher.Decoding.{
  BridgeDeposit, IsInRange, documented_parts, event_of, IsExact, decode_bridge_deposit-exact,
}

-- `BridgeDeposit` of the program in Borsh.
abbrev pub program_parts : BridgeDeposit → Bytes → List Bytes
program_parts d asset_id =
    d.transfer_id
    ∷ d.message_id
    ∷ d.sender
    ∷ d.recipient_dcc
    ∷ u64_bytes d.amount
    ∷ u64_bytes d.nonce
    ∷ u64_bytes d.slot
    ∷ u64_bytes d.event_index
    ∷ u64_bytes (unsigned64 d.timestamp)
    ∷ u32_bytes d.src_chain_id
    ∷ u32_bytes d.dst_chain_id
    ∷ asset_id
    ∷ []

small_u64 : (v : ℕ) → v < 2 ^ 32 → u64_bytes v ≡ u32_bytes v ++ u32_bytes 0
small_u64 v h =
    let a : byte_at v 4 ≡ 0 = omega arith in
    let b : byte_at v 5 ≡ 0 = omega arith in
    let c : byte_at v 6 ≡ 0 = omega arith in
    let d : byte_at v 7 ≡ 0 = omega arith in cc (a, b, c, d)

high_u64 : (v : ℕ) → v < 2 ^ 32 → u64_bytes (v * 2 ^ 32) ≡ u32_bytes 0 ++ u32_bytes v
high_u64 v h =
    let w = v * 2 ^ 32 in
    let z₀ : byte_at w 0 ≡ 0 = omega arith in
    let z₁ : byte_at w 1 ≡ 0 = omega arith in
    let z₂ : byte_at w 2 ≡ 0 = omega arith in
    let z₃ : byte_at w 3 ≡ 0 = omega arith in
    let b₀ : byte_at w 4 ≡ byte_at v 0 = omega arith in
    let b₁ : byte_at w 5 ≡ byte_at v 1 = omega arith in
    let b₂ : byte_at w 6 ≡ byte_at v 2 = omega arith in
    let b₃ : byte_at w 7 ≡ byte_at v 3 = omega arith in cc (z₀, z₁, z₂, z₃, b₀, b₁, b₂, b₃)

-- What the watcher takes the event for.
abbrev pub misread : BridgeDeposit → ℕ → BridgeDeposit
misread d t = record d {
  timestamp = pos (t * 2 ^ 32);
  src_chain_id = 0;
  dst_chain_id = d.src_chain_id;
}

program-documented :
    (d : BridgeDeposit) (asset_id : Bytes) (t : ℕ)
    → d.timestamp ≡ pos t
    → t < 2 ^ 32
    → d.event_index < 2 ^ 32
    → concat (program_parts d asset_id)
      ≡ concat (documented_parts (misread d t) ++ u32_bytes d.dst_chain_id ∷ asset_id ∷ [])
program-documented d asset_id t e small index =
    let heads =
      d.transfer_id
      ∷ d.message_id
      ∷ d.sender
      ∷ d.recipient_dcc
      ∷ u64_bytes d.amount
      ∷ u64_bytes d.nonce
      ∷ u64_bytes d.slot
      ∷ [] in
    let tails = u32_bytes d.src_chain_id ∷ u32_bytes d.dst_chain_id ∷ asset_id ∷ [] in
    let emitted = λ (x y : Bytes). concat (heads ++ x ∷ y ∷ tails) in
    let read = λ (z : Bytes). concat (heads ++ u32_bytes d.event_index ∷ z ∷ u32_bytes 0 ∷ tails) in
    let time : u64_bytes (unsigned64 d.timestamp) ≡ u32_bytes t ++ u32_bytes 0 =
      ap (λ v. u64_bytes (unsigned64 v)) e ∙ small_u64 t small in
    ap (λ x. emitted x (u64_bytes (unsigned64 d.timestamp))) (small_u64 d.event_index index)
    ∙ (ap (emitted (u32_bytes d.event_index ++ u32_bytes 0)) time
        ∙ ap read (sym (high_u64 t small)))

-- The event that the program emits for SOL, with a slot below 2^53, an index below 2^32 and a time
-- before 2038, is read with its ids, amount, nonce and slot, but with 0 for the source chain, the source chain for the
-- destination chain, and 2^32 times its time.
pub decode_bridge_deposit-program :
    (key_text : Bytes → Text) (signature : Text) (d : BridgeDeposit) (asset_id : Bytes) (t : ℕ)
    → IsInRange d
    → d.slot < 2 ^ 53
    → d.timestamp ≡ pos t
    → t < 2 ^ 31
    → decode_bridge_deposit key_text (concat (program_parts d asset_id)) signature false
      ≡ some (event_of key_text signature (misread d t))
decode_bridge_deposit-program key_text signature d asset_id t r slot e early =
    let range : IsInRange (misread d t) = record {
      transfer = r.transfer;
      message = r.message;
      sender = r.sender;
      recipient = r.recipient;
      amount = r.amount;
      nonce = r.nonce;
      slot = r.slot;
      index = r.index;
      timestamp = omega arith;
      source = omega arith;
      destination = r.source;
    } in
    let exact : IsExact (misread d t) = record {
      slot = number_of-safe d.slot slot;
      timestamp = signed_number_of-multiple t;
    } in
    rw (program-documented d asset_id t e (omega arith) r.index) (
      decode_bridge_deposit-exact key_text signature (misread d t)
        (u32_bytes d.dst_chain_id ∷ asset_id ∷ []) range exact)
