-- ===== src/Submission/Tests.antt =====
-- An unlock with two attestations, and its instructions.
use sol_gateway_dcc_zk_proof.Base.{
  ℕ, ◌+◌, ◌≡◌, refl, Option, some, List, [], ◌∷◌, arith, Text, ok, replicate,
}
use sol_gateway_dcc_zk_proof.Bytes.{Bytes}
use sol_gateway_dcc_zk_proof.Messages.{
  ChainIds, DccBurnEvent, unlock, construct_unlock_message, unlock_expiration,
}
use sol_gateway_dcc_zk_proof.Consensus.State.{Attestation}
use sol_gateway_dcc_zk_proof.Submission.{
  UnlockParams, UnlockInstructions, Instruction, unlock_instructions, serialize_unlock_params,
}
use sol_gateway_dcc_zk_proof.Submission.Params.{
  parsed_of, read_unlock_params, read_unlock_params-serialize_unlock_params,
}
use sol_gateway_dcc_zk_proof.Submission.Signed.{IsAccepted, unlock_instructions-IsAccepted}

abbrev attestation : ℕ → Attestation
attestation k = record {
  node_id = k ∷ [];
  transfer_id = b'2' ∷ [];
  attestation_type = unlock;
  signature = replicate 64 (100 + k);
  public_key = replicate 32 k;
  message_hash = [];
  timestamp = 0;
}

abbrev two : List Attestation
two = attestation 7 ∷ attestation 8 ∷ []

abbrev ids : ChainIds
ids = record { dcc_bridge_chain_id = 2; dcc_chain_id = 63; unlock_expiry_seconds = 86400 }

abbrev burn : DccBurnEvent
burn = record {
  burn_id = b'2' ∷ [];
  sender = b'A' ∷ [];
  spl_mint = [];
  height = 100;
  confirmations = 12;
  sol_recipient = b'S' ∷ [];
  amount = 2500000000;
  timestamp = 1760000000123;
  tx_id = b'1' ∷ b'3' ∷ b'z' ∷ [];
}

abbrev web3_key : Text → Option Bytes
web3_key text = some (replicate 32 9)

abbrev precompile : Bytes
precompile = replicate 32 5

abbrev other : Instruction
other = record { program_id = replicate 32 6; payload = [] }

abbrev signed_message : Bytes
signed_message = elim (construct_unlock_message web3_key ids (b'2' ∷ []) burn) [ ok m ↦ m | _ ↦ [] ]

unlock_instructions-IsAccepted_example :
    (made : UnlockInstructions) × (unlock_instructions web3_key precompile
        (1 ∷ 2 ∷ [])
        ids
        (b'2' ∷ [])
        burn
        two
      ≡ ok made)
    × IsAccepted precompile (1 ∷ 2 ∷ []) signed_message (other ∷ []) [] two made
unfolding construct_unlock_message unlock_expiration
unlock_instructions-IsAccepted_example =
    unlock_instructions-IsAccepted web3_key precompile (1 ∷ 2 ∷ []) ids (b'2' ∷ []) burn two
      (replicate 32 9) signed_message (other ∷ []) [] (λ e. cc e) refl refl refl (omega arith)
      (record { key = refl; signature = refl }, (record { key = refl; signature = refl }, tt))

abbrev params : UnlockParams
params = record {
  transfer_id = replicate 32 1;
  recipient = replicate 32 2;
  amount = 300;
  burn_tx_hash = replicate 32 3;
  dcc_chain_id = 63;
  expiration = 1760086400;
  attestations = two;
}

read_unlock_params-serialize_unlock_params_example :
    (bytes : Bytes) × (serialize_unlock_params params ≡ ok bytes)
    × (read_unlock_params bytes ≡ parsed_of params)
read_unlock_params-serialize_unlock_params_example =
    read_unlock_params-serialize_unlock_params params
      (record {
        transfer = refl;
        recipient = refl;
        amount = omega arith;
        burn = refl;
        chain = omega arith;
        expiration = omega arith;
        count = omega arith;
      })
      (record { key = refl; signature = refl }, (record { key = refl; signature = refl }, tt))
