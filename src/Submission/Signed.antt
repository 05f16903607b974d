-- ===== src/Submission/Signed.antt =====
-- The message that validators sign for an unlock (validator/src/consensus/engine.ts) and the
-- transaction that submits it (`submitUnlockToSolana` of validator/src/main.ts).
use sol_gateway_dcc_zk_proof.Base.{
  ℕ, suc, ◌%◌, ◌^◌, ◌<◌, ◌≡◌, ◌≢◌, refl, sym, ap, ◌∙◌, Option, some, List, [], ◌∷◌, ◌++◌, arith,
  Text, ok, true, require-eq-ok, length, get_elem?, All, drop, drop-append, ltb, ltb→lt,
}
use sol_gateway_dcc_zk_proof.Bytes.{Bytes, range_error}
use sol_gateway_dcc_zk_proof.Bytes.Layout.{concat, length-concat}
use sol_gateway_dcc_zk_proof.Bytes.Digits.{u32_bytes, u64_bytes}
use sol_gateway_dcc_zk_proof.Encoding.{domain_sep_unlock}
use sol_gateway_dcc_zk_proof.Messages.{
  DccBurnEvent, ChainIds, dcc_id_to_bytes_32, unlock_expiration, construct_unlock_message,
}
use sol_gateway_dcc_zk_proof.Messages.Unlocks.{copied-32, length-dcc_id_to_bytes_32}
use sol_gateway_dcc_zk_proof.Consensus.State.{Attestation}
use sol_gateway_dcc_zk_proof.Submission.{
  UnlockParams, Instruction, UnlockInstructions, unlock_message, unlock_instructions,
  recipient_text,
}
use sol_gateway_dcc_zk_proof.Submission.Writes.{IsKeyed}
use sol_gateway_dcc_zk_proof.Submission.Params.{
  ParamsFit, read_unlock_params, read_unlock_params-serialize_unlock_params,
}
use sol_gateway_dcc_zk_proof.Submission.Packing.{packed, build_packed_ed25519_instruction-packed}
use sol_gateway_dcc_zk_proof.Submission.Introspection.{verify_introspect, program_unlock_message}
use sol_gateway_dcc_zk_proof.Submission.Agreement.{verify_introspect-packed}

-- The ranges in which a burn can be signed, and the message that it gets.
record Signable (ids : ChainIds) (id : Text) (event : DccBurnEvent) (recipient message : Bytes)
    : Type 0 where
  amount : event.amount < 2 ^ 64
  chain : ids.dcc_chain_id < 2 ^ 32
  expiration : unlock_expiration event.timestamp ids.unlock_expiry_seconds < 2 ^ 63
  message_bytes :
      message
      ≡ program_unlock_message
          (dcc_id_to_bytes_32 id)
          recipient
          event.amount
          (dcc_id_to_bytes_32 event.tx_id)
          ids.dcc_chain_id
          (unlock_expiration event.timestamp ids.unlock_expiry_seconds)

construct_unlock_message-Signable :
    (web3_key : Text → Option Bytes) (ids : ChainIds) (id : Text) (event : DccBurnEvent)
    (recipient message : Bytes)
    → web3_key event.sol_recipient ≡ some recipient
    → construct_unlock_message web3_key ids id event ≡ ok message
    → Signable ids id event recipient message
unfolding construct_unlock_message program_unlock_message
construct_unlock_message-Signable web3_key ids id event recipient message found e =
    let expiry = unlock_expiration event.timestamp ids.unlock_expiry_seconds in
    let burn = copied-32 (dcc_id_to_bytes_32 event.tx_id) (length-dcc_id_to_bytes_32 event.tx_id) in
    let parts = concat (
      domain_sep_unlock
      ∷ dcc_id_to_bytes_32 id
      ∷ recipient
      ∷ u64_bytes event.amount
      ∷ dcc_id_to_bytes_32 event.tx_id
      ∷ u32_bytes ids.dcc_chain_id
      ∷ u64_bytes expiry
      ∷ []) in
    let e' = rw (found, burn) at e in
    let (amount, e₁) = require-eq-ok (ltb event.amount (2 ^ 64)) range_error _ e' in
    let (chain, e₂) = require-eq-ok (ltb ids.dcc_chain_id (2 ^ 32)) range_error _ e₁ in
    let (expiration, e₃) = require-eq-ok (ltb expiry (2 ^ 63)) range_error (ok parts) e₂ in
    record {
      amount = ltb→lt _ _ amount;
      chain = ltb→lt _ _ chain;
      expiration = ltb→lt _ _ expiration;
      message_bytes = cc e₃;
    }

abbrev params_of : ChainIds → Text → DccBurnEvent → Bytes → List Attestation → UnlockParams
params_of ids id event recipient attestations = record {
  transfer_id = dcc_id_to_bytes_32 id;
  recipient = recipient;
  amount = event.amount;
  burn_tx_hash = dcc_id_to_bytes_32 event.tx_id;
  dcc_chain_id = ids.dcc_chain_id;
  expiration = unlock_expiration event.timestamp ids.unlock_expiry_seconds;
  attestations = attestations;
}

-- Within the ranges of what was signed, the typed arrays cut nothing off.
unlock_message-signed :
    (ids : ChainIds) (id : Text) (event : DccBurnEvent) (recipient message : Bytes)
    (attestations : List Attestation)
    → Signable ids id event recipient message
    → unlock_message (params_of ids id event recipient attestations) ≡ message
unfolding unlock_message program_unlock_message
unlock_message-signed ids id event recipient message attestations s =
    let expiry = unlock_expiration event.timestamp ids.unlock_expiry_seconds in
    let a = s.amount in
    let c = s.chain in
    let x = s.expiration in
    let amount : event.amount % 2 ^ 64 ≡ event.amount = omega arith in
    let chain : ids.dcc_chain_id % 2 ^ 32 ≡ ids.dcc_chain_id = omega arith in
    let expiration : expiry % 2 ^ 64 ≡ expiry = omega arith in
    rw
      (
        length-dcc_id_to_bytes_32 id,
        length-dcc_id_to_bytes_32 event.tx_id,
        amount,
        chain,
        expiration,
        s.message_bytes,
      )
      refl

All_of_get_elem? :
    (P : Attestation → Type 0) (items : List Attestation)
    → ((k : ℕ) (a : Attestation) → get_elem? items k ≡ some a → P a)
    → All P items
All_of_get_elem? P [] h = tt
All_of_get_elem? P (a ∷ rest) h = (h 0 a refl, All_of_get_elem? P rest (λ k b e. h (suc k) b e))

length-program_unlock_message :
    (id recipient burn : Bytes) (amount chain expiration : ℕ)
    → length id ≡ 32
    → length recipient ≡ 32
    → length burn ≡ 32
    → length (program_unlock_message id recipient amount burn chain expiration) ≡ 140
unfolding program_unlock_message
length-program_unlock_message id recipient burn amount chain expiration hi hr hb =
    length-concat (
      domain_sep_unlock
      ∷ id
      ∷ recipient
      ∷ u64_bytes amount
      ∷ burn
      ∷ u32_bytes chain
      ∷ u64_bytes expiration
      ∷ [])
    ∙ omega (arith, hi, hr, hb)

recipient_text_named : (text : Text) → text ≢ [] → recipient_text text ≡ text
recipient_text_named [] h = absurd (h refl)
recipient_text_named (c ∷ cs) h = refl

-- What the program finds in the two instructions of an unlock: parameters from which it builds the
-- given message, and every attestation verified for that message.
pub record IsAccepted (ed25519 discriminator message : Bytes) (before after : List Instruction)
    (attestations : List Attestation) (made : UnlockInstructions) : Type 0 where
  pub rebuilt :
      let p = read_unlock_params (drop (length discriminator) made.unlock_payload) in
      program_unlock_message p.transfer_id p.recipient p.amount p.burn_tx_hash p.dcc_chain_id
        p.expiration
      ≡ message
  pub verified :
      All
        (λ a.
          verify_introspect ed25519
            (before ++ made.verification ∷ after)
            a.public_key
            message
            a.signature
          ≡ true)
        attestations

-- For a burn that names a recipient with a key of 32 bytes, and for which the validators could sign a
-- message, and for fewer than 256 attestations, with keys of 32 bytes and signatures of 64, the two
-- instructions of the transaction are built without an error, the parameters in them make the
-- program build the very message that was signed, and its introspection finds each attestation
-- verified for it.
pub unlock_instructions-IsAccepted :
    (web3_key : Text → Option Bytes) (ed25519 discriminator : Bytes) (ids : ChainIds) (id : Text)
    (event : DccBurnEvent) (attestations : List Attestation) (recipient message : Bytes)
    (before after : List Instruction)
    → event.sol_recipient ≢ []
    → web3_key event.sol_recipient ≡ some recipient
    → length recipient ≡ 32
    → construct_unlock_message web3_key ids id event ≡ ok message
    → length attestations < 2 ^ 8
    → All IsKeyed attestations
    → (made : UnlockInstructions) × (unlock_instructions web3_key ed25519 discriminator ids id event
          attestations
        ≡ ok made)
      × IsAccepted ed25519 discriminator message before after attestations made
unfolding unlock_instructions
unlock_instructions-IsAccepted web3_key ed25519 discriminator ids id event attestations recipient
      message before after named found h32 signed few keyed =
    let s =
      construct_unlock_message-Signable web3_key ids id event recipient message found signed in
    let params = params_of ids id event recipient attestations in
    let fit : ParamsFit params = record {
      transfer = length-dcc_id_to_bytes_32 id;
      recipient = h32;
      amount = s.amount;
      burn = length-dcc_id_to_bytes_32 event.tx_id;
      chain = s.chain;
      expiration = s.expiration;
      count = omega arith;
    } in
    let (serialized, done, back) = read_unlock_params-serialize_unlock_params params fit keyed in
    let message_length : length message ≡ 140 =
      ap length s.message_bytes
      ∙ length-program_unlock_message (dcc_id_to_bytes_32 id) recipient
          (dcc_id_to_bytes_32 event.tx_id) event.amount ids.dcc_chain_id
          (unlock_expiration event.timestamp ids.unlock_expiry_seconds) fit.transfer h32 fit.burn in
    let built =
      build_packed_ed25519_instruction-packed ed25519 attestations message few
        (omega (arith, message_length)) in
    let text = recipient_text_named event.sol_recipient named in
    let made : UnlockInstructions = record {
      verification = record { program_id = ed25519; payload = packed attestations message };
      unlock_payload = discriminator ++ serialized;
    } in
    (
      made,
      rw
          (
            text,
            found,
            unlock_message-signed ids id event recipient message attestations s,
            built,
            done,
          )
          refl,
      record {
        rebuilt = rw (drop-append discriminator serialized, back) (sym s.message_bytes);
        verified = All_of_get_elem? _ attestations (λ k a e.
            verify_introspect-packed ed25519 message attestations k a before after few
              (omega (arith, message_length)) keyed e);
      },
    )
