-- ===== src/SolanaWatcher.antt =====
-- validator/src/watchers/solana-watcher.ts: the watcher of deposits on Solana. The answers of the
-- RPC node are arguments, and so are base64, SHA-256, program addresses and the text of a public
-- key of @solana/web3.js. An operation runs whole.
pub mod Decoding
pub mod Polling
pub mod Finality
pub mod Verdicts
pub mod Divergence
pub mod Pending
pub mod Skipping
pub mod Restarting
mod Tests
use sol_gateway_dcc_zk_proof.Base.{
  ℕ, ◌+◌, ◌-◌, ◌^◌, Bool, true, false, ◌&&◌, ◌||◌, not, Option, none, some, List, [], ◌∷◌, ◌++◌,
  Text, length, ltb, leb, if◌then◌else◌, is_some, map_get, map_set,
}
use sol_gateway_dcc_zk_proof.Bytes.{Bytes, bytes_eq}
use sol_gateway_dcc_zk_proof.Bytes.Digits.{read_u32_le, read_u64_le}
use sol_gateway_dcc_zk_proof.Bytes.Layout.{slice}
use sol_gateway_dcc_zk_proof.Encoding.{Signed, pos, negsuc}
use sol_gateway_dcc_zk_proof.Encoding.Numbers.{number_of, signed_number_of}
use sol_gateway_dcc_zk_proof.Messages.{SolanaDepositEvent, to_hex}

-- `data.readBigInt64LE(offset)`, of the unsigned value.
abbrev pub signed64 : ℕ → Signed
signed64 v = if ltb v (2 ^ 63) then pos v else negsuc (2 ^ 64 - 1 - v)

abbrev i64_or_zero : Bytes → ℕ → Signed
i64_or_zero bytes offset =
    if ltb (offset + 7) (length bytes)
    then signed_number_of (signed64 (read_u64_le bytes offset))
    else pos 0

abbrev u32_or : Bytes → ℕ → ℕ → ℕ
u32_or bytes offset default =
    if ltb (offset + 3) (length bytes) then read_u32_le bytes offset else default

module _ (key_text : Bytes → Text) where
  -- The fields from `amount` on, at the offset that they have after the mint.
  abbrev decode_from : Bytes → Text → ℕ → Option Text → SolanaDepositEvent
  decode_from bytes signature offset token_mint = record {
    transfer_id = to_hex (slice bytes 0 32);
    message_id = to_hex (slice bytes 32 32);
    sender = key_text (slice bytes 64 32);
    recipient_dcc = to_hex (slice bytes 96 32);
    amount = read_u64_le bytes offset;
    nonce = read_u64_le bytes (offset + 8);
    slot = number_of (read_u64_le bytes (offset + 16));
    event_index = read_u32_le bytes (offset + 24);
    timestamp = i64_or_zero bytes (offset + 28);
    src_chain_id = u32_or bytes (offset + 36) 1;
    dst_chain_id = u32_or bytes (offset + 40) 42;
    chain_id = u32_or bytes (offset + 36) 1;
    signature = signature;
    confirmations = 0;
    token_mint = token_mint;
  }

  unfoldable pub decode_bridge_deposit : Bytes → Text → Bool → Option SolanaDepositEvent
  decode_bridge_deposit bytes signature true =
      if ltb (length bytes) 196
      then none
      else some (decode_from bytes signature 160 (some (key_text (slice bytes 128 32))))
  decode_bridge_deposit bytes signature false =
      if ltb (length bytes) 172 then none else some (decode_from bytes signature 128 none)
