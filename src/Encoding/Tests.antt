-- ===== src/Encoding/Tests.antt =====
-- The encodings of libs/encoding-ts/index.ts on concrete messages.
use sol_gateway_dcc_zk_proof.Base.{
  ◌+◌, ◌-◌, ◌*◌, ◌^◌, ◌<◌, ◌≡◌, refl, none, some, arith, ok, ◌>>=◌, length, replicate, All,
}
use sol_gateway_dcc_zk_proof.Bytes.{Bytes, AreBytes}
use sol_gateway_dcc_zk_proof.Bytes.Values.{le_value}
use sol_gateway_dcc_zk_proof.Encoding.{
  pos, DepositEnvelope, UnlockEnvelope, domain_sep_deposit, encode_deposit_message,
  parse_deposit_message, ZkPublicInputs, derive_public_inputs, bn128_order,
  pack_public_inputs_for_ride,
}
use sol_gateway_dcc_zk_proof.Encoding.Numbers.{nearest, nearest_from, number_of}
use sol_gateway_dcc_zk_proof.Encoding.Layout.{DepositFits, UnlockFits}
use sol_gateway_dcc_zk_proof.Encoding.Deposit.{
  DepositRanges, parse_deposit_message-encode_deposit_message,
}
use sol_gateway_dcc_zk_proof.Encoding.Unlock.{
  UnlockRanges, SameUnlock, encode_unlock_message-injective,
}
use sol_gateway_dcc_zk_proof.Encoding.RideInputs.{
  ride_inputs, input_fields, ride_inputs-pack_public_inputs_for_ride, derive_public_inputs-total,
}

abbrev key : Bytes
key = replicate 32 7

abbrev deposit : DepositEnvelope
deposit = record {
  domain_sep = none;
  src_chain_id = 1;
  dst_chain_id = 2;
  src_program_id = key;
  slot = 300000000;
  event_index = 3;
  sender = key;
  recipient = key;
  amount = 1500000000;
  nonce = 12;
  asset_id = key;
}

deposit-DepositFits : DepositFits deposit
deposit-DepositFits = record { program = refl; sender = refl; recipient = refl; asset = refl }

deposit-DepositRanges : DepositRanges deposit
deposit-DepositRanges = record {
  src = omega arith;
  dst = omega arith;
  slot = omega arith;
  index = omega arith;
  amount = omega arith;
  nonce = omega arith;
}

parse_deposit_message-encode_deposit_message_example :
    (encode_deposit_message deposit >>= parse_deposit_message (λ bytes. bytes))
    ≡ ok (record deposit { domain_sep = some domain_sep_deposit })
parse_deposit_message-encode_deposit_message_example =
    parse_deposit_message-encode_deposit_message (λ bytes. bytes) deposit deposit-DepositFits
      deposit-DepositRanges refl refl

abbrev release : UnlockEnvelope
release = record {
  domain_sep = none;
  transfer_id = key;
  recipient = key;
  amount = 25000;
  burn_tx_hash = key;
  dcc_chain_id = 63;
  expiration = pos 1760000000;
}

release-UnlockFits : UnlockFits release
release-UnlockFits = record { transfer = refl; recipient = refl; burn = refl }

release-UnlockRanges : UnlockRanges release
release-UnlockRanges = record {
  amount = omega arith;
  chain = omega arith;
  expiration = omega arith;
}

encode_unlock_message-injective_example : SameUnlock release release
encode_unlock_message-injective_example =
    encode_unlock_message-injective release release release-UnlockFits release-UnlockFits
      release-UnlockRanges release-UnlockRanges refl refl

key-AreBytes : AreBytes key
key-AreBytes = omega arith

abbrev inputs : ZkPublicInputs
inputs = record {
  checkpoint_root_lo = 1;
  checkpoint_root_hi = 2;
  message_id_lo = 3;
  message_id_hi = 4;
  amount = 5;
  recipient_lo = 6;
  recipient_hi = 7;
  version = 1;
}

ride_inputs-pack_public_inputs_for_ride_example :
    (bytes : Bytes) × (pack_public_inputs_for_ride inputs ≡ ok bytes)
    × (length bytes ≡ 256)
    × (ride_inputs 8 bytes ≡ input_fields inputs)
ride_inputs-pack_public_inputs_for_ride_example =
    ride_inputs-pack_public_inputs_for_ride inputs (omega arith)

derive_public_inputs-total_example :
    (inputs : ZkPublicInputs) × (derive_public_inputs key 5000 key (some key) ≡ ok inputs)
    × All (λ v. v < bn128_order) (input_fields inputs)
    × (le_value key ≡ inputs.message_id_lo + 2 ^ 128 * inputs.message_id_hi)
    × (le_value key ≡ inputs.recipient_lo + 2 ^ 128 * inputs.recipient_hi)
    × (inputs.amount ≡ 5000)
derive_public_inputs-total_example =
    derive_public_inputs-total key key 5000 (some key) refl refl key-AreBytes key-AreBytes
      (omega arith) (refl, key-AreBytes)

-- 2^53 + 1 lies between two doubles, and so does 2^53 + 3.
number_of_ties : (number_of (2 ^ 53 + 1) ≡ 2 ^ 53) × (number_of (2 ^ 53 + 3) ≡ 2 ^ 53 + 4)
unfolding number_of nearest_from nearest
number_of_ties = (refl, refl)

number_of_top : number_of (2 ^ 64 - 1) ≡ 2 ^ 64
unfolding number_of nearest_from nearest
number_of_top = refl
