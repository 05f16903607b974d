-- ===== src/Serializer/Tests.antt =====
-- The serializers of zk/prover/src/serializer.ts on small numbers.
use sol_gateway_dcc_zk_proof.Base.{◌≡◌, [], ◌∷◌, arith}
use sol_gateway_dcc_zk_proof.Encoding.{ZkPublicInputs, pack_public_inputs_for_ride}
use sol_gateway_dcc_zk_proof.Encoding.RideInputs.{input_fields}
use sol_gateway_dcc_zk_proof.Serializer.{
  G1, G2, Proof, VerificationKey, serialize_vk_for_ride, serialize_inputs_for_ride,
}
use sol_gateway_dcc_zk_proof.Serializer.Reading.{
  IsRead, vk_elements, ride_inputs-serialize_vk_for_ride,
  serialize_inputs_for_ride-pack_public_inputs_for_ride,
}

abbrev p : G1
p = record { x = 1; y = 2 }

abbrev q : G2
q = record { x_im = 3; x_re = 4; y_im = 5; y_re = 6 }

abbrev proof : Proof
proof = record { pi_a = p; pi_b = q; pi_c = p }

abbrev key : VerificationKey
key = record { vk_alpha_1 = p; vk_beta_2 = q; vk_gamma_2 = q; vk_delta_2 = q; ic = p ∷ p ∷ [] }

ride_inputs-serialize_vk_for_ride_example : IsRead (vk_elements key) (serialize_vk_for_ride key)
ride_inputs-serialize_vk_for_ride_example = ride_inputs-serialize_vk_for_ride key (omega arith)

abbrev inputs : ZkPublicInputs
inputs = record {
  checkpoint_root_lo = 1;
  checkpoint_root_hi = 2;
  message_id_lo = 3;
  message_id_hi = 4;
  amount = 5;
  recipient_lo = 6;
  recipient_hi = 7;
  version = 1;
}

serialize_inputs_for_ride-pack_public_inputs_for_ride_example :
    serialize_inputs_for_ride (input_fields inputs) ≡ pack_public_inputs_for_ride inputs
serialize_inputs_for_ride-pack_public_inputs_for_ride_example =
    serialize_inputs_for_ride-pack_public_inputs_for_ride inputs
