-- ===== src/Submission/Reading.antt =====
-- How the introspection of programs/sol-bridge-lock/src/instructions/unlock.rs reads an entry that
-- validator/src/main.ts packed.
use native.Mathlib.Nat.{add-zero}
use sol_gateway_dcc_zk_proof.Base.{
  ℕ, zero, suc, ◌+◌, ◌*◌, ◌^◌, ◌≤◌, ◌<◌, ◌≡◌, refl, sym, ap, arith, Bool, true, false, ◌||◌, length,
  get_or, le→leb,
}
use sol_gateway_dcc_zk_proof.Bytes.{Bytes, bytes_eq_refl}
use sol_gateway_dcc_zk_proof.Bytes.Digits.{byte_at, get_or-slice}
use sol_gateway_dcc_zk_proof.Bytes.Layout.{slice}
use sol_gateway_dcc_zk_proof.Submission.{Places}
use sol_gateway_dcc_zk_proof.Submission.Writes.{entry_bytes}
use sol_gateway_dcc_zk_proof.Submission.Introspection.{
  from_le, parse_entry, entry_matches, any_entry,
}

word : (v : ℕ) → v < 2 ^ 16 → from_le (byte_at v 0) (byte_at v 1) ≡ v
word v h = omega arith

pub parse_entry_of_slice :
    (buf : Bytes) (spots : Places) (i : ℕ)
    → slice buf (2 + i * 14) 14 ≡ entry_bytes spots i
    → spots.signatures_at + i * 64 < 2 ^ 16
    → spots.pubkeys_at + i * 32 < 2 ^ 16
    → spots.message_at < 2 ^ 16
    → spots.message_length < 2 ^ 16
    → parse_entry buf (2 + i * 14) ≡ record {
      sig_offset = spots.signatures_at + i * 64;
      sig_ix_index = 0xffff;
      pk_offset = spots.pubkeys_at + i * 32;
      pk_ix_index = 0xffff;
      msg_offset = spots.message_at;
      msg_size = spots.message_length;
      msg_ix_index = 0xffff;
    }
unfolding parse_entry
parse_entry_of_slice buf spots i e hs hp hm hl =
    let o = 2 + i * 14 in
    let s = λ (k : ℕ) (p : k < 14). rw e at (get_or-slice buf o 14 k p) in
    let first : get_or buf o 0 ≡ get_or buf (o + 0) 0 =
      ap (λ k. get_or buf k 0) (sym (add-zero o)) in
    rw (
      first,
      s 0 (omega arith),
      s 1 (omega arith),
      s 2 (omega arith),
      s 3 (omega arith),
      s 4 (omega arith),
      s 5 (omega arith),
      s 6 (omega arith),
      s 7 (omega arith),
      s 8 (omega arith),
      s 9 (omega arith),
      s 10 (omega arith),
      s 11 (omega arith),
      s 12 (omega arith),
      s 13 (omega arith),
      word (spots.signatures_at + i * 64) hs,
      word (spots.pubkeys_at + i * 32) hp,
      word spots.message_at hm,
      word spots.message_length hl,
    )

-- What an entry refers to, found where it points.
pub entry_matches_lem :
    (pubkey message signature buf : Bytes) (sig_at pk_at msg_at msg_len : ℕ)
    → slice buf pk_at 32 ≡ pubkey
    → slice buf sig_at 64 ≡ signature
    → slice buf msg_at msg_len ≡ message
    → pk_at + 32 ≤ length buf
    → sig_at + 64 ≤ length buf
    → msg_at + msg_len ≤ length buf
    → entry_matches pubkey message signature buf (record {
      sig_offset = sig_at;
      sig_ix_index = 0xffff;
      pk_offset = pk_at;
      pk_ix_index = 0xffff;
      msg_offset = msg_at;
      msg_size = msg_len;
      msg_ix_index = 0xffff;
    })
      ≡ true
unfolding entry_matches
entry_matches_lem pubkey message signature buf sig_at pk_at msg_at msg_len hk hs hm rk rs rm =
    rw
      (
        le→leb (pk_at + 32) (length buf) rk,
        hk,
        bytes_eq_refl pubkey,
        le→leb (sig_at + 64) (length buf) rs,
        hs,
        bytes_eq_refl signature,
        le→leb (msg_at + msg_len) (length buf) rm,
        hm,
        bytes_eq_refl message,
      )
      refl

pub or_true : (b : Bool) → (b || true) ≡ true
or_true true = refl
or_true false = refl

-- The loop over the entries stops at one that matches.
pub any_entry_found :
    (pubkey message signature buf : Bytes) (n i k : ℕ)
    → k < n
    → entry_matches pubkey message signature buf (parse_entry buf (2 + (i + k) * 14)) ≡ true
    → any_entry pubkey message signature buf n i ≡ true
unfolding any_entry
any_entry_found pubkey message signature buf zero i k h e = absurd (omega arith)
any_entry_found pubkey message signature buf (suc n) i zero h e =
    let here = rw (add-zero i) at e in rw here refl
any_entry_found pubkey message signature buf (suc n) i (suc k) h e =
    let moved : i + suc k ≡ suc i + k = omega arith in
    let later =
      any_entry_found pubkey message signature buf n (suc i) k (omega arith) (rw moved at e) in
    rw later (or_true (entry_matches pubkey message signature buf (parse_entry buf (2 + i * 14))))
