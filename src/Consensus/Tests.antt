-- ===== src/Consensus/Tests.antt =====
-- A round of validator/src/consensus/engine.ts with two validators, and signatures that are the
-- message followed by the key.
use sol_gateway_dcc_zk_proof.Base.{
  ◌≡◌, refl, ap, Bool, true, false, Option, none, some, List, [], ◌∷◌, ◌++◌, arith, All, Text, ok,
  map_get, set_has, text_eq,
}
use sol_gateway_dcc_zk_proof.Bytes.{Bytes, bytes_eq, bytes_eq_refl}
use sol_gateway_dcc_zk_proof.Encoding.{pos}
use sol_gateway_dcc_zk_proof.Messages.{
  AttestationType, mint, unlock, AttestationRequest, deposit_event, to_hex, from_hex, mint_prefix,
  construct_canonical_message, construct_mint_message, dcc_recipient, last_non_zero, base58_digits,
  leading_ones, decimal, decimal_digits,
}
use sol_gateway_dcc_zk_proof.Consensus.State.{
  ConsensusConfig, Attestation, PendingConsensus, Engine, Effect, consensus_reached, cleanup_timer,
}
use sol_gateway_dcc_zk_proof.Consensus.Deciding.{new_engine, mark_submitted, required_for}
use sol_gateway_dcc_zk_proof.Consensus.Attesting.{
  begin_proposal, local_attestation, finish_proposal, receive_attestation, verify,
}
use sol_gateway_dcc_zk_proof.Consensus.Rounds.{IsSoundEffect}
use sol_gateway_dcc_zk_proof.Consensus.Runs.{
  Process, Run, rest, step, begins, signs, receives, start, Run-IsQuorum,
}
use sol_gateway_dcc_zk_proof.Consensus.Replay.{
  IsBounded, mark_submitted-begin_proposal, finish_proposal-replaces,
}
use sol_gateway_dcc_zk_proof.Consensus.Progress.{sent, IsWelcome, receive_attestation-reaches}

abbrev config : ConsensusConfig
config = record {
  min_validators = 2;
  min_validators_mint = none;
  min_validators_unlock = some 3;
  consensus_timeout_ms = 30000;
  chain_ids = record { dcc_bridge_chain_id = 2; dcc_chain_id = 63; unlock_expiry_seconds = 86400 };
}

abbrev transfer : Text
transfer = b't' ∷ []

abbrev request : AttestationRequest
request = record {
  transfer_id = transfer;
  event = deposit_event (record {
    transfer_id = b't' ∷ [];
    message_id = [];
    sender = b's' ∷ [];
    nonce = 3;
    event_index = 0;
    timestamp = pos 1;
    src_chain_id = 1;
    dst_chain_id = 2;
    chain_id = 2;
    signature = [];
    confirmations = 32;
    token_mint = none;
    recipient_dcc = b'0' ∷ b'0' ∷ b'0' ∷ b'1' ∷ b'0' ∷ b'5' ∷ b'0' ∷ b'0' ∷ [];
    amount = 5;
    slot = 7;
  });
  timestamp = 1000;
}

-- "SOL_DCC_BRIDGE_V1|MINT|t|15W|5|7|2"
abbrev message : Bytes
message =
    mint_prefix ++ (b't' ∷ b'|' ∷ b'1' ∷ b'5' ∷ b'W' ∷ b'|' ∷ b'5' ∷ b'|' ∷ b'7' ∷ b'|' ∷ b'2' ∷ [])

abbrev web3_key : Text → Option Bytes
web3_key text = none

abbrev nacl_verify : Bytes → Bytes → Bytes → Option Bool
nacl_verify message' signature key = some (bytes_eq signature (message' ++ key))

abbrev dcc_verify : Bytes → Bytes → Bytes → Option Bool
dcc_verify key message' signature = some (bytes_eq signature (message' ++ key))

abbrev own_key : AttestationType → Bytes
own_key mint = 1 ∷ []
own_key unlock = 2 ∷ []

abbrev sign_message : Bytes → AttestationType → Bytes
sign_message message' kind = message' ++ own_key kind

signs-verifies :
    (message' : Bytes) (kind : AttestationType)
    → verify nacl_verify dcc_verify kind message' (sign_message message' kind) (own_key kind)
      ≡ some true
unfolding verify
signs-verifies message' mint = ap some (bytes_eq_refl (message' ++ 1 ∷ []))
signs-verifies message' unlock = ap some (bytes_eq_refl (message' ++ 2 ∷ []))

abbrev peer : Attestation
peer = record {
  node_id = to_hex (7 ∷ []);
  transfer_id = transfer;
  attestation_type = mint;
  signature = message ++ 7 ∷ [];
  public_key = 7 ∷ [];
  message_hash = message;
  timestamp = 2000;
}

begun : begin_proposal web3_key request (new_engine config none) ≡ some (ok message)
unfolding begin_proposal new_engine set_has map_get construct_canonical_message
    construct_mint_message dcc_recipient from_hex last_non_zero base58_digits leading_ones decimal
    decimal_digits
begun = refl

abbrev signed : Engine × List Effect
signed =
    finish_proposal own_key true request message (sign_message message mint) 1500
      (new_engine config none)

abbrev received : Engine × List Effect
received = receive_attestation nacl_verify dcc_verify true (sent peer) signed.0

abbrev final : Process
final = record { engine = received.0; signing = [] }

round :
    Run nacl_verify dcc_verify web3_key own_key sign_message
      (start nacl_verify dcc_verify web3_key own_key sign_message config none)
      ([] ++ (signed.1 ++ (received.1 ++ [])))
      final
unfolding start
round = step (begins request message _ begun) (
    step (signs true 1500 request message [] [] _ refl)
      (step (receives true (sent peer) _) (rest _)))

Run-IsQuorum_example :
    All (IsSoundEffect nacl_verify dcc_verify config) ([] ++ (signed.1 ++ (received.1 ++ [])))
Run-IsQuorum_example =
    Run-IsQuorum nacl_verify dcc_verify web3_key own_key sign_message config signs-verifies none
      round

abbrev waiting : PendingConsensus
waiting = record {
  request = request;
  attestations = local_attestation own_key request message (sign_message message mint) 1500 ∷ [];
  message = message;
  start_time = 1500;
  resolved = false;
}

abbrev engine : Engine
engine = record {
  config = config;
  pending_consensus = (transfer, waiting) ∷ [];
  processed_transfers = (b'u' ∷ []) ∷ [];
  registered_validators = to_hex (7 ∷ []) ∷ [];
  disk = none;
}

peer-IsWelcome : IsWelcome nacl_verify dcc_verify engine peer waiting
unfolding set_has text_eq verify map_get to_hex bytes_eq local_attestation
peer-IsWelcome = record {
  registered = refl;
  named = refl;
  verified = refl;
  found = refl;
  unresolved = refl;
  new_node = refl;
  new_key = refl;
  same = refl;
}

receive_attestation-reaches_example :
    (receive_attestation nacl_verify dcc_verify true (sent peer) engine).1
    ≡ consensus_reached (record {
      transfer_id = transfer;
      result_type = mint;
      attestations = waiting.attestations ++ peer ∷ [];
      achieved = true;
      required_signatures = required_for config mint;
      received_signatures = 2;
      request = some request;
    })
      ∷ cleanup_timer transfer 60000
      ∷ []
unfolding required_for
receive_attestation-reaches_example =
    receive_attestation-reaches nacl_verify dcc_verify true engine peer waiting peer-IsWelcome
      (omega arith)

mark_submitted-begin_proposal_example :
    begin_proposal web3_key request (mark_submitted true transfer engine) ≡ none
mark_submitted-begin_proposal_example =
    mark_submitted-begin_proposal web3_key true request engine (omega arith)

engine-IsBounded : IsBounded engine
engine-IsBounded = record { size = omega arith; named = ((λ e. cc e), tt) }

finish_proposal-replaces_example :
    map_get transfer
      (finish_proposal own_key true request message
        (message ++ 1 ∷ [])
        1800
        engine).0.pending_consensus
    ≡ some (record {
      request = request;
      attestations = local_attestation own_key request message (message ++ 1 ∷ []) 1800 ∷ [];
      message = message;
      start_time = 1800;
      resolved = false;
    })
unfolding required_for
finish_proposal-replaces_example =
    finish_proposal-replaces own_key true request message (message ++ 1 ∷ []) 1800 engine
      (omega arith)
