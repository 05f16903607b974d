-- ===== src/Submission/Introspection.antt =====
-- programs/sol-bridge-lock/src/instructions/unlock.rs: `verify_ed25519_signature_introspect` and
-- `construct_unlock_message` of the program. The instructions that precede the unlock are a list;
-- a read behind the length check is inside the data.
use sol_gateway_dcc_zk_proof.Base.{
  ℕ, zero, suc, ◌+◌, ◌*◌, Bool, false, ◌&&◌, ◌||◌, List, [], ◌∷◌, length, get_or, leb, ◌==◌, not,
}
use sol_gateway_dcc_zk_proof.Bytes.{Bytes, bytes_eq}
use sol_gateway_dcc_zk_proof.Bytes.Digits.{u32_bytes, u64_bytes}
use sol_gateway_dcc_zk_proof.Bytes.Layout.{slice, concat}
use sol_gateway_dcc_zk_proof.Encoding.{domain_sep_unlock}
use sol_gateway_dcc_zk_proof.Submission.{Instruction}

-- `u16::from_le_bytes`.
abbrev pub from_le : ℕ → ℕ → ℕ
from_le low high = low + high * 256

pub record Entry : Type 0 where
  pub sig_offset : ℕ
  pub sig_ix_index : ℕ
  pub pk_offset : ℕ
  pub pk_ix_index : ℕ
  pub msg_offset : ℕ
  pub msg_size : ℕ
  pub msg_ix_index : ℕ

unfoldable pub parse_entry : Bytes → ℕ → Entry
parse_entry bytes offset = record {
  sig_offset = from_le (get_or bytes offset 0) (get_or bytes (offset + 1) 0);
  sig_ix_index = from_le (get_or bytes (offset + 2) 0) (get_or bytes (offset + 3) 0);
  pk_offset = from_le (get_or bytes (offset + 4) 0) (get_or bytes (offset + 5) 0);
  pk_ix_index = from_le (get_or bytes (offset + 6) 0) (get_or bytes (offset + 7) 0);
  msg_offset = from_le (get_or bytes (offset + 8) 0) (get_or bytes (offset + 9) 0);
  msg_size = from_le (get_or bytes (offset + 10) 0) (get_or bytes (offset + 11) 0);
  msg_ix_index = from_le (get_or bytes (offset + 12) 0) (get_or bytes (offset + 13) 0);
}

-- The tests of one round: a `continue` is false, `Ok(true)` is true.
unfoldable pub entry_matches : Bytes → Bytes → Bytes → Bytes → Entry → Bool
entry_matches pubkey message signature bytes e =
    e.sig_ix_index == 0xffff
    && e.pk_ix_index == 0xffff
    && e.msg_ix_index == 0xffff
    && leb (e.pk_offset + 32) (length bytes)
    && bytes_eq (slice bytes e.pk_offset 32) pubkey
    && leb (e.sig_offset + 64) (length bytes)
    && bytes_eq (slice bytes e.sig_offset 64) signature
    && leb (e.msg_offset + e.msg_size) (length bytes)
    && bytes_eq (slice bytes e.msg_offset e.msg_size) message

-- `for sig_idx in 0..num_signatures`, with `n` rounds left.
unfoldable pub any_entry : Bytes → Bytes → Bytes → Bytes → ℕ → ℕ → Bool
any_entry pubkey message signature bytes zero sig_idx = false
any_entry pubkey message signature bytes (suc n) sig_idx =
    entry_matches pubkey message signature bytes (parse_entry bytes (2 + sig_idx * 14))
    || any_entry pubkey message signature bytes n (suc sig_idx)

-- One preceding instruction.
unfoldable pub instruction_matches : Bytes → Bytes → Bytes → Bytes → Instruction → Bool
instruction_matches ed25519 pubkey message signature ix =
    let num_signatures = get_or ix.payload 0 0 in
    bytes_eq ix.program_id ed25519
    && leb 2 (length ix.payload)
    && not (num_signatures == 0)
    && leb (2 + num_signatures * 14) (length ix.payload)
    && any_entry pubkey message signature ix.payload num_signatures 0

-- Whether the precompile has verified `signature` of `message` by `pubkey` in this transaction.
unfoldable pub verify_introspect : Bytes → List Instruction → Bytes → Bytes → Bytes → Bool
verify_introspect ed25519 [] pubkey message signature = false
verify_introspect ed25519 (ix ∷ ixs) pubkey message signature =
    instruction_matches ed25519 pubkey message signature ix
    || verify_introspect ed25519 ixs pubkey message signature

-- The message that the program builds from the parameters of the instruction.
unfoldable pub program_unlock_message : Bytes → Bytes → ℕ → Bytes → ℕ → ℕ → Bytes
program_unlock_message transfer_id recipient amount burn_tx_hash dcc_chain_id expiration = concat (
    domain_sep_unlock
    ∷ transfer_id
    ∷ recipient
    ∷ u64_bytes amount
    ∷ burn_tx_hash
    ∷ u32_bytes dcc_chain_id
    ∷ u64_bytes expiration
    ∷ [])
