-- ===== src/Consensus/State.antt =====
-- The configuration and the state of validator/src/consensus/engine.ts, and what it emits.
use sol_gateway_dcc_zk_proof.Base.{ℕ, Bool, Option, List, Text}
use sol_gateway_dcc_zk_proof.Bytes.{Bytes}
use sol_gateway_dcc_zk_proof.Messages.{AttestationType, AttestationRequest, ChainIds}

-- `ChainIds` holds the two chain ids of the configuration.
pub record ConsensusConfig : Type 0 where
  pub min_validators : ℕ
  pub min_validators_mint : Option ℕ
  pub min_validators_unlock : Option ℕ
  pub consensus_timeout_ms : ℕ
  pub chain_ids : ChainIds

pub record Attestation : Type 0 where
  pub node_id : Text
  pub transfer_id : Text
  pub attestation_type : AttestationType
  pub signature : Bytes
  pub public_key : Bytes
  pub message_hash : Bytes
  pub timestamp : ℕ

-- An attestation from a peer, whose fields may be missing.
pub record PeerAttestation : Type 0 where
  pub node_id : Text
  pub transfer_id : Text
  pub attestation_type : AttestationType
  pub signature : Option Bytes
  pub public_key : Option Bytes
  pub message_hash : Option Bytes
  pub timestamp : ℕ

pub record PendingConsensus : Type 0 where
  pub request : AttestationRequest
  pub attestations : List Attestation
  pub message : Bytes
  pub start_time : ℕ
  pub resolved : Bool

-- `event` and `requestTimestamp` are those of the request, and absent when consensus failed.
pub record ConsensusResult : Type 0 where
  pub transfer_id : Text
  pub result_type : AttestationType
  pub attestations : List Attestation
  pub achieved : Bool
  pub required_signatures : ℕ
  pub received_signatures : ℕ
  pub request : Option AttestationRequest

pub record Engine : Type 0 where
  pub config : ConsensusConfig
  pub pending_consensus : List (Text × PendingConsensus)
  pub processed_transfers : List Text
  pub registered_validators : List Text
  -- The file of the processed transfers.
  pub disk : Option (List Text)

pub data Reason : Type 0 where
  node_id_pubkey_mismatch invalid_signature message_mismatch : Reason

-- What an operation emits, and the timers that it sets: for `checkConsensusTimeout`, and for the
-- removal of a round, after a time in milliseconds.
pub data Effect : Type 0 where
  attestation_broadcast : Attestation → Effect
  unregistered_validator : Text → Text → Effect
  byzantine_detected : Text → Text → Reason → Effect
  consensus_reached : ConsensusResult → Effect
  consensus_failed : ConsensusResult → Effect
  timeout_timer : Text → ℕ → Effect
  cleanup_timer : Text → ℕ → Effect
