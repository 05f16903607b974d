-- ===== src/Encoding/Deposit.antt =====
-- What `parseDepositMessage` gives back, and when `encodeDepositMessage` throws.
use sol_gateway_dcc_zk_proof.Base.{
  ◌+◌, ◌^◌, ◌<◌, ◌≤◌, ◌≡◌, refl, sym, ◌⊎◌, inl, inr, ◌≢◌, some, [], ◌∷◌, arith, ok, err, ◌>>=◌,
  length, le→leb, ◌==◌, false,
}
use sol_gateway_dcc_zk_proof.Bytes.{Bytes, must_be_32_bytes}
use sol_gateway_dcc_zk_proof.Bytes.Digits.{
  u32_bytes, u64_bytes, read_u32_le_of_slice, read_u64_le_of_slice,
}
use sol_gateway_dcc_zk_proof.Bytes.Layout.{concat, slice, slice-concat, length-concat}
use sol_gateway_dcc_zk_proof.Encoding.{
  DepositEnvelope, or_default, domain_sep_deposit, encode_deposit_message, parse_deposit_message,
}
use sol_gateway_dcc_zk_proof.Encoding.Layout.{
  DepositFits, deposit_parts, encode_deposit_message-concat,
}

-- The numbers of an envelope are in the ranges that its type comments give.
pub record DepositRanges (env : DepositEnvelope) : Type 0 where
  pub src : env.src_chain_id < 2 ^ 32
  pub dst : env.dst_chain_id < 2 ^ 32
  pub slot : env.slot < 2 ^ 64
  pub index : env.event_index < 2 ^ 32
  pub amount : env.amount < 2 ^ 64
  pub nonce : env.nonce < 2 ^ 64

-- The fields of `env` stand in `bytes` where the parser looks for them.
record Holds (bytes : Bytes) (domain : Bytes) (env : DepositEnvelope) : Type 0 where
  long : 181 ≤ length bytes
  domain_at : slice bytes 0 17 ≡ domain
  src_at : slice bytes 17 4 ≡ u32_bytes env.src_chain_id
  dst_at : slice bytes 21 4 ≡ u32_bytes env.dst_chain_id
  program_at : slice bytes 25 32 ≡ env.src_program_id
  slot_at : slice bytes 57 8 ≡ u64_bytes env.slot
  index_at : slice bytes 65 4 ≡ u32_bytes env.event_index
  sender_at : slice bytes 69 32 ≡ env.sender
  recipient_at : slice bytes 101 32 ≡ env.recipient
  amount_at : slice bytes 133 8 ≡ u64_bytes env.amount
  nonce_at : slice bytes 141 8 ≡ u64_bytes env.nonce
  asset_at : slice bytes 149 32 ≡ env.asset_id

parse_of_Holds :
    (decode : Bytes → Bytes) (bytes domain : Bytes) (env : DepositEnvelope)
    → Holds bytes domain env
    → DepositRanges env
    → decode domain ≡ domain
    → parse_deposit_message decode bytes ≡ ok (record env { domain_sep = some domain })
unfolding parse_deposit_message
parse_of_Holds decode bytes domain env h r d = rw (
  le→leb 181 (length bytes) h.long,
  h.domain_at,
  d,
  read_u32_le_of_slice bytes 17 env.src_chain_id h.src_at r.src,
  read_u32_le_of_slice bytes 21 env.dst_chain_id h.dst_at r.dst,
  h.program_at,
  read_u64_le_of_slice bytes 57 env.slot h.slot_at r.slot,
  read_u32_le_of_slice bytes 65 env.event_index h.index_at r.index,
  h.sender_at,
  h.recipient_at,
  read_u64_le_of_slice bytes 133 env.amount h.amount_at r.amount,
  read_u64_le_of_slice bytes 141 env.nonce h.nonce_at r.nonce,
  h.asset_at,
)

encoded-Holds :
    (env : DepositEnvelope)
    → DepositFits env
    → length (or_default env.domain_sep domain_sep_deposit) ≡ 17
    → Holds (concat (deposit_parts env)) (or_default env.domain_sep domain_sep_deposit) env
encoded-Holds env h n =
    let d = or_default env.domain_sep domain_sep_deposit in
    let src = u32_bytes env.src_chain_id in
    let dst = u32_bytes env.dst_chain_id in
    let prog = env.src_program_id in
    let slot = u64_bytes env.slot in
    let index = u32_bytes env.event_index in
    let amount = u64_bytes env.amount in
    let nonce = u64_bytes env.nonce in
    let asset = env.asset_id in
    let t₈ = amount ∷ nonce ∷ asset ∷ [] in
    let t₆ = env.sender ∷ env.recipient ∷ t₈ in
    let t₄ = slot ∷ index ∷ t₆ in
    let p₄ = d ∷ src ∷ dst ∷ prog ∷ [] in
    let p₆ = d ∷ src ∷ dst ∷ prog ∷ slot ∷ index ∷ [] in
    let p₈ = d ∷ src ∷ dst ∷ prog ∷ slot ∷ index ∷ env.sender ∷ env.recipient ∷ [] in
    let p₉ = d ∷ src ∷ dst ∷ prog ∷ slot ∷ index ∷ env.sender ∷ env.recipient ∷ amount ∷ [] in
    let p₁₀ =
      d ∷ src ∷ dst ∷ prog ∷ slot ∷ index ∷ env.sender ∷ env.recipient ∷ amount ∷ nonce ∷ [] in
    record {
      long =
          omega
            (arith, length-concat (deposit_parts env), h.program, h.sender, h.recipient, h.asset);
      domain_at = slice-concat [] d (src ∷ dst ∷ prog ∷ t₄) 0 17 refl (omega arith);
      src_at = slice-concat (d ∷ []) src (dst ∷ prog ∷ t₄) 17 4 (omega arith) refl;
      dst_at = slice-concat (d ∷ src ∷ []) dst (prog ∷ t₄) 21 4 (omega arith) refl;
      program_at =
          slice-concat (d ∷ src ∷ dst ∷ []) prog t₄ 25 32 (omega arith) (omega (arith, h.program));
      slot_at = slice-concat p₄ slot (index ∷ t₆) 57 8 (omega (arith, h.program)) refl;
      index_at =
          slice-concat (d ∷ src ∷ dst ∷ prog ∷ slot ∷ []) index t₆ 65 4 (omega (arith, h.program))
            refl;
      sender_at =
          slice-concat p₆ env.sender (env.recipient ∷ t₈) 69 32 (omega (arith, h.program))
            (sym h.sender);
      recipient_at =
          slice-concat (d ∷ src ∷ dst ∷ prog ∷ slot ∷ index ∷ env.sender ∷ []) env.recipient t₈ 101
            32 (omega (arith, h.program, h.sender)) (sym h.recipient);
      amount_at =
          slice-concat p₈ amount (nonce ∷ asset ∷ []) 133 8
            (omega (arith, h.program, h.sender, h.recipient)) refl;
      nonce_at =
          slice-concat p₉ nonce (asset ∷ []) 141 8 (omega (arith, h.program, h.sender, h.recipient))
            refl;
      asset_at =
          slice-concat p₁₀ asset [] 149 32 (omega (arith, h.program, h.sender, h.recipient))
            (sym h.asset);
    }

-- A deposit that is encoded and parsed again comes back whole, with its domain separator written
-- out, where its arrays have 32 bytes, its numbers are in range, its domain separator has 17 bytes
-- and the text decoder gives it back.
pub parse_deposit_message-encode_deposit_message :
    (decode : Bytes → Bytes) (env : DepositEnvelope)
    → DepositFits env
    → DepositRanges env
    → length (or_default env.domain_sep domain_sep_deposit) ≡ 17
    → decode (or_default env.domain_sep domain_sep_deposit)
      ≡ or_default env.domain_sep domain_sep_deposit
    → (encode_deposit_message env >>= parse_deposit_message decode)
      ≡ ok (record env { domain_sep = some (or_default env.domain_sep domain_sep_deposit) })
parse_deposit_message-encode_deposit_message decode env h r n d =
    rw (encode_deposit_message-concat env h)
      (parse_of_Holds decode (concat (deposit_parts env)) _ env (encoded-Holds env h n) r d)

require_32-cases :
    (bs : Bytes) → (length bs ≡ 32) ⊎ ((length bs ≢ 32) × ((length bs == 32) ≡ false))
require_32-cases bs = ground arith

-- The encoder throws exactly when one of the four arrays has not 32 bytes; otherwise it returns
-- 164 bytes more than the domain separator has.
encode_deposit_message-total :
    (env : DepositEnvelope)
    → (DepositFits env
        × ((bytes : Bytes) × (encode_deposit_message env ≡ ok bytes)
            × (length bytes ≡ length (or_default env.domain_sep domain_sep_deposit) + 164)))
      ⊎ ((¬ DepositFits env) × (encode_deposit_message env ≡ err must_be_32_bytes))
unfolding encode_deposit_message
encode_deposit_message-total env = elim (require_32-cases env.src_program_id) [
  | inr (n, e) ↦ inr (λ h. n h.program, rw e refl)
  | inl p ↦ elim (require_32-cases env.sender) [
    | inr (n, e) ↦ inr (λ h. n h.sender, rw (p, e) refl)
    | inl s ↦ elim (require_32-cases env.recipient) [
      | inr (n, e) ↦ inr (λ h. n h.recipient, rw (p, s, e) refl)
      | inl r ↦ elim (require_32-cases env.asset_id) [
        | inr (n, e) ↦ inr (λ h. n h.asset, rw (p, s, r, e) refl)
        | inl a ↦
            let fits : DepositFits env = record {
              program = p;
              sender = s;
              recipient = r;
              asset = a;
            } in
            inl (
              fits,
              (
                concat (deposit_parts env),
                encode_deposit_message-concat env fits,
                omega (arith, length-concat (deposit_parts env), p, s, r, a),
              ),
            )
      ]
    ]
  ]
]
