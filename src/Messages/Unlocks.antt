-- ===== src/Messages/Unlocks.antt =====
-- The unlock message that a validator signs (validator/src/consensus/engine.ts) and the canonical
-- encoding of an unlock (libs/encoding-ts/index.ts).
use sol_gateway_dcc_zk_proof.Base.{
  ℕ, ◌-◌, ◌^◌, ◌<◌, min, ◌≡◌, refl, sym, ◌∙◌, ap, Option, none, some, [], ◌∷◌, ◌++◌, Text, length,
  replicate, take, drop, length-append, length-replicate, length-drop, take-append, lt→ltb, arith,
}
use mathlib.Core.List.{append-nil}
use sol_gateway_dcc_zk_proof.Bytes.{Bytes}
use sol_gateway_dcc_zk_proof.Encoding.{UnlockEnvelope, pos, encode_unlock_message}
use sol_gateway_dcc_zk_proof.Encoding.Layout.{UnlockFits, encode_unlock_message-concat}
use sol_gateway_dcc_zk_proof.Messages.{
  ChainIds, DccBurnEvent, decode_base58, leading_zeros, id_bytes, copy_right, dcc_id_to_bytes_32,
  unlock_expiration, construct_unlock_message,
}

length-copy_right : (full : Bytes) → length (copy_right full) ≡ 32
unfolding copy_right
length-copy_right full =
    let dropped = drop (length full - 32) full in
    let padding : Bytes = replicate (32 - length full) 0 in
    omega (
      arith,
      length-append padding dropped,
      length-replicate {A = ℕ} (32 - length full) 0,
      length-drop (length full - 32) full,
    )

length-id_bytes : (fuel padding : ℕ) (o : Option ℕ) → length (id_bytes fuel padding o) ≡ 32
unfolding id_bytes
length-id_bytes fuel padding none = refl
length-id_bytes fuel padding (some n) = length-copy_right _

pub length-dcc_id_to_bytes_32 : (id : Text) → length (dcc_id_to_bytes_32 id) ≡ 32
unfolding dcc_id_to_bytes_32
length-dcc_id_to_bytes_32 [] = refl
length-dcc_id_to_bytes_32 (c ∷ cs) =
    length-id_bytes (length (c ∷ cs)) (leading_zeros (c ∷ cs)) (decode_base58 (c ∷ cs) 0)

pub copied-32 :
    (bytes : Bytes)
    → length bytes ≡ 32
    → take (min 32 (length bytes)) bytes ++ replicate (32 - min 32 (length bytes)) 0 ≡ bytes
copied-32 bytes h =
    let all : take (length bytes) bytes ≡ bytes =
      ap (take (length bytes)) (sym (append-nil bytes)) ∙ take-append bytes [] in
    let whole : take 32 bytes ≡ bytes = rw h at all in rw (h, whole) (append-nil bytes)

-- The envelope of a burn.
abbrev pub envelope_of : ChainIds → Text → DccBurnEvent → Bytes → UnlockEnvelope
envelope_of ids transfer_id event recipient = record {
  domain_sep = none;
  transfer_id = dcc_id_to_bytes_32 transfer_id;
  recipient = recipient;
  amount = event.amount;
  burn_tx_hash = dcc_id_to_bytes_32 event.tx_id;
  dcc_chain_id = ids.dcc_chain_id;
  expiration = pos (unlock_expiration event.timestamp ids.unlock_expiry_seconds);
}

-- For a burn whose numbers fit their fields and whose recipient is a key of 32 bytes, the unlock
-- message that a validator signs is the canonical encoding of its envelope.
pub construct_unlock_message-encode_unlock_message :
    (web3_key : Text → Option Bytes) (ids : ChainIds) (transfer_id : Text) (event : DccBurnEvent)
    (recipient : Bytes)
    → web3_key event.sol_recipient ≡ some recipient
    → length recipient ≡ 32
    → event.amount < 2 ^ 64
    → ids.dcc_chain_id < 2 ^ 32
    → unlock_expiration event.timestamp ids.unlock_expiry_seconds < 2 ^ 63
    → construct_unlock_message web3_key ids transfer_id event
      ≡ encode_unlock_message (envelope_of ids transfer_id event recipient)
unfolding construct_unlock_message
construct_unlock_message-encode_unlock_message web3_key ids id event key found h32 ha hc he =
    let fits : UnlockFits (envelope_of ids id event key) = record {
      transfer = length-dcc_id_to_bytes_32 id;
      recipient = h32;
      burn = length-dcc_id_to_bytes_32 event.tx_id;
    } in
    let expiry = unlock_expiration event.timestamp ids.unlock_expiry_seconds in
    rw
      (
        found,
        lt→ltb event.amount (2 ^ 64) ha,
        lt→ltb ids.dcc_chain_id (2 ^ 32) hc,
        lt→ltb expiry (2 ^ 63) he,
        copied-32 (dcc_id_to_bytes_32 event.tx_id) (length-dcc_id_to_bytes_32 event.tx_id),
        encode_unlock_message-concat (envelope_of ids id event key) fits,
      )
      refl
