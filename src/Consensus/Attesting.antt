-- ===== src/Consensus/Attesting.antt =====
-- validator/src/consensus/engine.ts: `proposeAttestation` and `receiveAttestation`. The two signature
-- checks are arguments, with none where they throw, and so are `getPublicKey` and the time.
use sol_gateway_dcc_zk_proof.Base.{
  ℕ, Bool, false, ◌&&◌, ◌||◌, not, Option, none, some, List, [], ◌∷◌, ◌++◌, Text, Result, ok, err,
  ◌>>=◌, ◌>>◌, require, length, ltb, if◌then◌else◌, is_some, text_eq, map_get, map_set, set_has,
}
use sol_gateway_dcc_zk_proof.Bytes.{Bytes, Error, bytes_eq}
use sol_gateway_dcc_zk_proof.Messages.{
  AttestationType, mint, unlock, AttestationRequest, type_of, to_hex, construct_canonical_message,
}
use sol_gateway_dcc_zk_proof.Consensus.State.{
  Attestation, PeerAttestation, PendingConsensus, Engine, Effect, node_id_pubkey_mismatch,
  invalid_signature, message_mismatch, attestation_broadcast, unregistered_validator,
  byzantine_detected, timeout_timer,
}
use sol_gateway_dcc_zk_proof.Consensus.Deciding.{check_consensus}

-- `proposeAttestation` up to its `await`: none where a guard returns, else the message to sign or
-- the error thrown.
unfoldable pub begin_proposal :
    (Text → Option Bytes) → AttestationRequest → Engine → Option (Result Error Bytes)
begin_proposal web3_key request e =
    if set_has request.transfer_id e.processed_transfers
      || is_some (map_get request.transfer_id e.pending_consensus)
    then none
    else some (construct_canonical_message web3_key e.config.chain_ids request)

unfoldable pub local_attestation :
    (AttestationType → Bytes) → AttestationRequest → Bytes → Bytes → ℕ → Attestation
local_attestation get_public_key request message signature now = record {
  node_id = to_hex (get_public_key (type_of request.event));
  transfer_id = request.transfer_id;
  attestation_type = type_of request.event;
  signature = signature;
  public_key = get_public_key (type_of request.event);
  message_hash = message;
  timestamp = now;
}

-- The rest of it, with the signature made. `checkConsensus` takes a round out of the map when it
-- resolves it, so the timer is set when the round is still there.
unfoldable pub finish_proposal :
    (AttestationType → Bytes)
    → Bool
    → AttestationRequest
    → Bytes
    → Bytes
    → ℕ
    → Engine
    → Engine × List Effect
finish_proposal get_public_key disk_ok request message signature now e =
    let attestation = local_attestation get_public_key request message signature now in
    let pending : PendingConsensus = record {
      request = request;
      attestations = attestation ∷ [];
      message = message;
      start_time = now;
      resolved = false;
    } in
    let (e', effects) =
      check_consensus disk_ok request.transfer_id (record e {
        pending_consensus = map_set request.transfer_id pending e.pending_consensus;
      }) in
    let timers =
      if is_some (map_get request.transfer_id e'.pending_consensus)
      then timeout_timer request.transfer_id e.config.consensus_timeout_ms ∷ []
      else [] in
    (e', attestation_broadcast attestation ∷ (effects ++ timers))

abbrev pub some_node : Text → List Attestation → Bool
some_node node_id [] = false
some_node node_id (a ∷ as') = text_eq a.node_id node_id || some_node node_id as'

abbrev pub some_key : Bytes → List Attestation → Bool
some_key key [] = false
some_key key (a ∷ as') = bytes_eq a.public_key key || some_key key as'

-- A value that a guard needs, or the effects with which it returns.
abbrev pub given {ℓ} : {A : Type ℓ} → Option A → List Effect → Result (List Effect) A
given none effects = err effects
given (some a) effects = ok a

abbrev pub add_attestation : Attestation → PendingConsensus → Engine → Engine
add_attestation a pending e =
    let grown = record pending { attestations = pending.attestations ++ a ∷ [] } in
    record e { pending_consensus = map_set a.transfer_id grown e.pending_consensus }

-- What follows the guards: the effects with which one of them returned, or the new attestation
-- counted.
unfoldable pub count_screened :
    Bool → Engine → Result (List Effect) (Attestation × PendingConsensus) → Engine × List Effect
count_screened disk_ok e (err effects) = (e, effects)
count_screened disk_ok e (ok (attestation, pending)) =
    check_consensus disk_ok attestation.transfer_id (add_attestation attestation pending e)

module _ (nacl_verify dcc_verify : Bytes → Bytes → Bytes → Option Bool) where
  -- nacl takes the message, the signature and the key; dcc the key, the message and the signature.
  unfoldable pub verify : AttestationType → Bytes → Bytes → Bytes → Option Bool
  verify unlock message signature public_key = nacl_verify message signature public_key
  verify mint message signature public_key = dcc_verify public_key message signature

  -- The guards of `receiveAttestation`, in order.
  unfoldable pub screen :
      Engine → PeerAttestation → Result (List Effect) (Attestation × PendingConsensus)
  screen e a = do
    public_key ← given a.public_key []
    signature ← given a.signature []
    message_hash ← given a.message_hash []
    let pubkey_hex = to_hex public_key
    require
        (not (
          ltb 0 (length e.registered_validators)
          && not (set_has pubkey_hex e.registered_validators)))
        (unregistered_validator a.node_id a.transfer_id ∷ [])
    require (text_eq a.node_id pubkey_hex)
        (byzantine_detected a.node_id a.transfer_id node_id_pubkey_mismatch ∷ [])
    is_valid ← given (verify a.attestation_type message_hash signature public_key) []
    require is_valid (byzantine_detected a.node_id a.transfer_id invalid_signature ∷ [])
    pending ← given (map_get a.transfer_id e.pending_consensus) []
    require (not pending.resolved) []
    require (not (some_node a.node_id pending.attestations)) []
    require (not (some_key public_key pending.attestations)) []
    require (bytes_eq pending.message message_hash)
        (byzantine_detected a.node_id a.transfer_id message_mismatch ∷ [])
    ok (
      record {
        node_id = a.node_id;
        transfer_id = a.transfer_id;
        attestation_type = a.attestation_type;
        signature = signature;
        public_key = public_key;
        message_hash = message_hash;
        timestamp = a.timestamp;
      },
      pending,
    )

  unfoldable pub receive_attestation : Bool → PeerAttestation → Engine → Engine × List Effect
  receive_attestation disk_ok a e = count_screened disk_ok e (screen e a)
