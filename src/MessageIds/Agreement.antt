-- ===== src/MessageIds/Agreement.antt =====
-- The three computations of a deposit's id, of libs/encoding-ts/index.ts, zk/prover/src/message.ts
-- and validator/src/zk/zk-utils.ts, compared.
use mathlib.Core.List.{append-nil}
use sol_gateway_dcc_zk_proof.Base.{
  ◌≡◌, refl, ap, ◌∙◌, sym, none, [], ◌∷◌, ◌++◌, ok, length, take, take-append,
}
use sol_gateway_dcc_zk_proof.Bytes.{Bytes}
use sol_gateway_dcc_zk_proof.Bytes.Digits.{u32_bytes, u64_bytes}
use sol_gateway_dcc_zk_proof.Bytes.Layout.{
  concat, zeroed-written, put-written, put_set-written, buf-written,
}
use sol_gateway_dcc_zk_proof.Encoding.{
  DepositEnvelope, domain_sep_deposit, compute_deposit_message_id,
}
use sol_gateway_dcc_zk_proof.Encoding.Layout.{
  DepositFits, deposit_parts, encode_deposit_message-concat,
}
use sol_gateway_dcc_zk_proof.MessageIds.{MessageFields, compute_message_id, validator_message_id}

-- The envelope of the fields.
abbrev pub envelope_of : MessageFields → DepositEnvelope
envelope_of f = record {
  domain_sep = none;
  src_chain_id = f.src_chain_id;
  dst_chain_id = f.dst_chain_id;
  src_program_id = f.src_program_id;
  slot = f.slot;
  event_index = f.event_index;
  sender = f.sender;
  recipient = f.recipient;
  amount = f.amount;
  nonce = f.nonce;
  asset_id = f.asset_id;
}

module _ (keccak : Bytes → Bytes) (f : MessageFields) (h : DepositFits (envelope_of f)) where
  compute_message_id-concat :
      compute_message_id keccak f ≡ ok (keccak (concat (deposit_parts (envelope_of f))))
  unfolding compute_message_id
  compute_message_id-concat =
      let d = domain_sep_deposit in
      let src = u32_bytes f.src_chain_id in
      let dst = u32_bytes f.dst_chain_id in
      let prog = f.src_program_id in
      let slot = u64_bytes f.slot in
      let index = u32_bytes f.event_index in
      let amount = u64_bytes f.amount in
      let nonce = u64_bytes f.nonce in
      let p₁ = d ∷ src ∷ dst ∷ prog ∷ [] in
      let p₂ = d ∷ src ∷ dst ∷ prog ∷ slot ∷ index ∷ f.sender ∷ [] in
      let p₃ = d ∷ src ∷ dst ∷ prog ∷ slot ∷ index ∷ f.sender ∷ f.recipient ∷ [] in
      rw (
        zeroed-written 181,
        put_set-written [] d 17 164 refl,
        put-written (d ∷ []) src 4 160 refl,
        put-written (d ∷ src ∷ []) dst 4 156 refl,
        put_set-written (d ∷ src ∷ dst ∷ []) prog 32 124 h.program,
        put-written p₁ slot 8 116 refl,
        put-written (p₁ ++ slot ∷ []) index 4 112 refl,
        put_set-written (p₁ ++ slot ∷ index ∷ []) f.sender 32 80 h.sender,
        put_set-written p₂ f.recipient 32 48 h.recipient,
        put-written p₃ amount 8 40 refl,
        put-written (p₃ ++ amount ∷ []) nonce 8 32 refl,
        put_set-written (p₃ ++ amount ∷ nonce ∷ []) f.asset_id 32 0 h.asset,
        buf-written (deposit_parts (envelope_of f)),
      )

  take-32 : (bs : Bytes) → length bs ≡ 32 → take 32 bs ≡ bs
  take-32 bs e =
      let all : take (length bs) bs ≡ bs =
        ap (take (length bs)) (sym (append-nil bs)) ∙ take-append bs [] in
      rw e at all

  validator_message_id-eq : validator_message_id keccak f ≡ compute_message_id keccak f
  unfolding validator_message_id compute_message_id
  validator_message_id-eq = rw (
    take-32 f.src_program_id h.program,
    take-32 f.sender h.sender,
    take-32 f.recipient h.recipient,
    take-32 f.asset_id h.asset,
  )

  -- With four arrays of 32 bytes, the prover and the validator compute for a deposit the id that the
  -- encoding library computes for its envelope, which is the hash of the canonical encoding.
  pub compute_message_id-compute_deposit_message_id :
      (compute_message_id keccak f ≡ compute_deposit_message_id keccak (envelope_of f))
      × (validator_message_id keccak f ≡ compute_deposit_message_id keccak (envelope_of f))
  unfolding compute_deposit_message_id
  compute_message_id-compute_deposit_message_id =
      let same : compute_message_id keccak f ≡ compute_deposit_message_id keccak (envelope_of f) =
        rw (compute_message_id-concat, encode_deposit_message-concat (envelope_of f) h) in
      (same, validator_message_id-eq ∙ same)
