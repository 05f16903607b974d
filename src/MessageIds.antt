-- ===== src/MessageIds.antt =====
-- The id of a deposit, as zk/prover/src/message.ts (`computeMessageId`) and
-- validator/src/zk/zk-utils.ts (`computeMessageId`) compute it; `keccak` is `keccak256` of ethers
-- and of js-sha3, on bytes, with the hexadecimal text of its result decoded.
pub mod Agreement
mod Tests
use sol_gateway_dcc_zk_proof.Base.{
  ℕ, ◌+◌, Bool, true, false, List, [], ◌∷◌, Result, ok, ◌>>=◌, ◌>>◌, length, take,
}
use sol_gateway_dcc_zk_proof.Bytes.{Bytes, Error}
use sol_gateway_dcc_zk_proof.Bytes.Digits.{u32_bytes, u64_bytes}
use sol_gateway_dcc_zk_proof.Bytes.Layout.{Cursor, zeroed, put, put_set}
use sol_gateway_dcc_zk_proof.Encoding.{domain_sep_deposit}

-- Of `zk-utils.ts`, the arguments of the function, which have the same names.
pub record MessageFields : Type 0 where
  pub src_chain_id : ℕ
  pub dst_chain_id : ℕ
  pub src_program_id : Bytes
  pub slot : ℕ
  pub event_index : ℕ
  pub sender : Bytes
  pub recipient : Bytes
  pub amount : ℕ
  pub nonce : ℕ
  pub asset_id : Bytes

unfoldable pub compute_message_id : (Bytes → Bytes) → MessageFields → Result Error Bytes
compute_message_id keccak fields = do
  c ← put_set 17 domain_sep_deposit (zeroed 181)
  c ←
      put_set 32 fields.src_program_id
        (put 4 (u32_bytes fields.dst_chain_id) (put 4 (u32_bytes fields.src_chain_id) c))
  c ←
      put_set 32 fields.sender
        (put 4 (u32_bytes fields.event_index) (put 8 (u64_bytes fields.slot) c))
  c ← put_set 32 fields.recipient c
  c ←
      put_set 32 fields.asset_id
        (put 8 (u64_bytes fields.nonce) (put 8 (u64_bytes fields.amount) c))
  ok (keccak c.buf)

-- With `subarray(0, 32)` of the four arrays.
unfoldable pub validator_message_id : (Bytes → Bytes) → MessageFields → Result Error Bytes
validator_message_id keccak fields = do
  c ← put_set 17 domain_sep_deposit (zeroed 181)
  c ←
      put_set 32 (take 32 fields.src_program_id)
        (put 4 (u32_bytes fields.dst_chain_id) (put 4 (u32_bytes fields.src_chain_id) c))
  c ←
      put_set 32 (take 32 fields.sender)
        (put 4 (u32_bytes fields.event_index) (put 8 (u64_bytes fields.slot) c))
  c ← put_set 32 (take 32 fields.recipient) c
  c ←
      put_set 32 (take 32 fields.asset_id)
        (put 8 (u64_bytes fields.nonce) (put 8 (u64_bytes fields.amount) c))
  ok (keccak c.buf)
