-- ===== src/Encoding/Layout.antt =====
-- The encoders of libs/encoding-ts/index.ts write the concatenation of the fields, in order.
use mathlib.Core.List.{append-nil}
use sol_gateway_dcc_zk_proof.Base.{
  ℕ, ◌+◌, ◌≡◌, refl, List, [], ◌∷◌, ◌++◌, arith, ok, length, min, take, take-append,
}
use sol_gateway_dcc_zk_proof.Bytes.{Bytes}
use sol_gateway_dcc_zk_proof.Bytes.Digits.{u32_bytes, u64_bytes}
use sol_gateway_dcc_zk_proof.Bytes.Layout.{
  concat, total, written, zeroed-written, put-written, put_set-written, offset-written, buf-written,
}
use sol_gateway_dcc_zk_proof.Encoding.{
  DepositEnvelope, UnlockEnvelope, or_default, domain_sep_deposit, domain_sep_unlock, copy_bytes,
  unsigned64, finish, encode_deposit_message, encode_unlock_message,
}

-- The arrays of an envelope have 32 bytes.
pub record DepositFits (env : DepositEnvelope) : Type 0 where
  pub program : length env.src_program_id ≡ 32
  pub sender : length env.sender ≡ 32
  pub recipient : length env.recipient ≡ 32
  pub asset : length env.asset_id ≡ 32

pub record UnlockFits (env : UnlockEnvelope) : Type 0 where
  pub transfer : length env.transfer_id ≡ 32
  pub recipient : length env.recipient ≡ 32
  pub burn : length env.burn_tx_hash ≡ 32

abbrev pub deposit_parts : DepositEnvelope → List Bytes
deposit_parts env =
    or_default env.domain_sep domain_sep_deposit
    ∷ u32_bytes env.src_chain_id
    ∷ u32_bytes env.dst_chain_id
    ∷ env.src_program_id
    ∷ u64_bytes env.slot
    ∷ u32_bytes env.event_index
    ∷ env.sender
    ∷ env.recipient
    ∷ u64_bytes env.amount
    ∷ u64_bytes env.nonce
    ∷ env.asset_id
    ∷ []

abbrev pub unlock_parts : UnlockEnvelope → List Bytes
unlock_parts env =
    or_default env.domain_sep domain_sep_unlock
    ∷ env.transfer_id
    ∷ env.recipient
    ∷ u64_bytes env.amount
    ∷ env.burn_tx_hash
    ∷ u32_bytes env.dcc_chain_id
    ∷ u64_bytes (unsigned64 env.expiration)
    ∷ []

take-min : (bs : Bytes) (n : ℕ) → length bs ≡ n → take (min (length bs) n) bs ≡ bs
take-min bs n h =
    let e : min (length bs) n ≡ length bs = omega arith in
    rw e (rw append-nil at (take-append bs []))

copy_bytes-written :
    (parts : List Bytes) (src : Bytes) (k n : ℕ)
    → length src ≡ k
    → copy_bytes k src (written parts (k + n)) ≡ ok (written (parts ++ src ∷ []) n)
unfolding copy_bytes
copy_bytes-written parts src k n h = rw (take-min src k h) (put_set-written parts src k n h)

finish-written :
    (parts : List Bytes) (t : ℕ) → total parts ≡ t → finish t (written parts 0) ≡ ok (concat parts)
finish-written parts t h = ground (arith, offset-written parts 0, buf-written parts)

-- With four arrays of 32 bytes a deposit encodes to its fields, one after the other.
pub encode_deposit_message-concat :
    (env : DepositEnvelope)
    → DepositFits env
    → encode_deposit_message env ≡ ok (concat (deposit_parts env))
unfolding encode_deposit_message
encode_deposit_message-concat env h =
    let d = or_default env.domain_sep domain_sep_deposit in
    let src = u32_bytes env.src_chain_id in
    let dst = u32_bytes env.dst_chain_id in
    let prog = env.src_program_id in
    let slot = u64_bytes env.slot in
    let index = u32_bytes env.event_index in
    let amount = u64_bytes env.amount in
    let nonce = u64_bytes env.nonce in
    let p₀ = d ∷ [] in
    let p₁ = d ∷ src ∷ dst ∷ prog ∷ [] in
    let p₂ = d ∷ src ∷ dst ∷ prog ∷ slot ∷ index ∷ env.sender ∷ [] in
    let p₃ = d ∷ src ∷ dst ∷ prog ∷ slot ∷ index ∷ env.sender ∷ env.recipient ∷ [] in
    rw (
      h.program,
      h.sender,
      h.recipient,
      h.asset,
      zeroed-written (length d + 164),
      put_set-written [] d (length d) 164 refl,
      put-written p₀ src 4 160 refl,
      put-written (d ∷ src ∷ []) dst 4 156 refl,
      copy_bytes-written (d ∷ src ∷ dst ∷ []) prog 32 124 h.program,
      put-written p₁ slot 8 116 refl,
      put-written (p₁ ++ slot ∷ []) index 4 112 refl,
      copy_bytes-written (p₁ ++ slot ∷ index ∷ []) env.sender 32 80 h.sender,
      copy_bytes-written p₂ env.recipient 32 48 h.recipient,
      put-written p₃ amount 8 40 refl,
      put-written (p₃ ++ amount ∷ []) nonce 8 32 refl,
      copy_bytes-written (p₃ ++ amount ∷ nonce ∷ []) env.asset_id 32 0 h.asset,
      finish-written (deposit_parts env) (length d + 164)
          (omega (arith, h.program, h.sender, h.recipient, h.asset)),
    )

-- With three arrays of 32 bytes an unlock encodes to its fields, one after the other.
pub encode_unlock_message-concat :
    (env : UnlockEnvelope)
    → UnlockFits env
    → encode_unlock_message env ≡ ok (concat (unlock_parts env))
unfolding encode_unlock_message
encode_unlock_message-concat env h =
    let d = or_default env.domain_sep domain_sep_unlock in
    let amount = u64_bytes env.amount in
    let chain = u32_bytes env.dcc_chain_id in
    let expiry = u64_bytes (unsigned64 env.expiration) in
    let p₀ = d ∷ env.transfer_id ∷ env.recipient ∷ [] in
    let p₁ = d ∷ env.transfer_id ∷ env.recipient ∷ amount ∷ env.burn_tx_hash ∷ [] in
    rw (
      h.transfer,
      h.recipient,
      h.burn,
      zeroed-written (length d + 116),
      put_set-written [] d (length d) 116 refl,
      copy_bytes-written (d ∷ []) env.transfer_id 32 84 h.transfer,
      copy_bytes-written (d ∷ env.transfer_id ∷ []) env.recipient 32 52 h.recipient,
      put-written p₀ amount 8 44 refl,
      copy_bytes-written (p₀ ++ amount ∷ []) env.burn_tx_hash 32 12 h.burn,
      put-written p₁ chain 4 8 refl,
      put-written (p₁ ++ chain ∷ []) expiry 8 0 refl,
      finish-written (unlock_parts env) (length d + 116)
          (omega (arith, h.transfer, h.recipient, h.burn)),
    )
