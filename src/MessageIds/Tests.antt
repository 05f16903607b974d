-- ===== src/MessageIds/Tests.antt =====
-- The ids of zk/prover/src/message.ts and validator/src/zk/zk-utils.ts for a concrete deposit, with
-- the identity in the place of the hash.
use sol_gateway_dcc_zk_proof.Base.{◌≡◌, refl, replicate}
use sol_gateway_dcc_zk_proof.Encoding.{compute_deposit_message_id}
use sol_gateway_dcc_zk_proof.Encoding.Layout.{DepositFits}
use sol_gateway_dcc_zk_proof.MessageIds.{MessageFields, compute_message_id, validator_message_id}
use sol_gateway_dcc_zk_proof.MessageIds.Agreement.{
  envelope_of, compute_message_id-compute_deposit_message_id,
}

abbrev fields : MessageFields
fields = record {
  src_chain_id = 1;
  dst_chain_id = 2;
  src_program_id = replicate 32 3;
  slot = 400;
  event_index = 5;
  sender = replicate 32 6;
  recipient = replicate 32 7;
  amount = 800;
  nonce = 9;
  asset_id = replicate 32 10;
}

fields-DepositFits : DepositFits (envelope_of fields)
fields-DepositFits = record { program = refl; sender = refl; recipient = refl; asset = refl }

compute_message_id-compute_deposit_message_id_example :
    (compute_message_id (λ bytes. bytes) fields
      ≡ compute_deposit_message_id (λ bytes. bytes) (envelope_of fields))
    × (validator_message_id (λ bytes. bytes) fields
        ≡ compute_deposit_message_id (λ bytes. bytes) (envelope_of fields))
compute_message_id-compute_deposit_message_id_example =
    compute_message_id-compute_deposit_message_id (λ bytes. bytes) fields fields-DepositFits
