-- ===== src/Messages/Tests.antt =====
-- The unlock message of validator/src/consensus/engine.ts for a concrete burn.
use sol_gateway_dcc_zk_proof.Base.{
  ◌≡◌, refl, Option, some, ok, ◌++◌, [], ◌∷◌, arith, Text, replicate,
}
use sol_gateway_dcc_zk_proof.Bytes.{Bytes}
use sol_gateway_dcc_zk_proof.Encoding.{encode_unlock_message}
use sol_gateway_dcc_zk_proof.Messages.{
  ChainIds, DccBurnEvent, unlock_expiration, decode_base58, index_of, number_bytes, leading_zeros,
  id_bytes, copy_right, dcc_id_to_bytes_32, construct_unlock_message, from_hex, to_hex,
  dcc_recipient, decimal, last_non_zero, base58_digits, leading_ones, decimal_digits,
}
use sol_gateway_dcc_zk_proof.Bytes.Values.{be_value}
use sol_gateway_dcc_zk_proof.Messages.Base58.{decode_base58-base58_digits}
use sol_gateway_dcc_zk_proof.Messages.Unlocks.{
  envelope_of, construct_unlock_message-encode_unlock_message,
}

abbrev ids : ChainIds
ids = record { dcc_bridge_chain_id = 2; dcc_chain_id = 63; unlock_expiry_seconds = 86400 }

abbrev burn : DccBurnEvent
burn = record {
  burn_id = b'2' ∷ [];
  sender = b'A' ∷ [];
  spl_mint = [];
  height = 100;
  confirmations = 12;
  sol_recipient = b'S' ∷ [];
  amount = 2500000000;
  timestamp = 1760000000123;
  tx_id = b'1' ∷ b'3' ∷ b'z' ∷ [];
}

abbrev web3_key : Text → Option Bytes
web3_key text = some (replicate 32 9)

construct_unlock_message-encode_unlock_message_example :
    construct_unlock_message web3_key ids (b'2' ∷ b'1' ∷ []) burn
    ≡ encode_unlock_message (envelope_of ids (b'2' ∷ b'1' ∷ []) burn (replicate 32 9))
unfolding unlock_expiration
construct_unlock_message-encode_unlock_message_example =
    construct_unlock_message-encode_unlock_message web3_key ids (b'2' ∷ b'1' ∷ []) burn
      (replicate 32 9) refl refl (omega arith) (omega arith) (omega arith)

-- "13z" is 2 * 58 + 57, after a zero byte.
decoded : dcc_id_to_bytes_32 (b'1' ∷ b'3' ∷ b'z' ∷ []) ≡ replicate 31 0 ++ 173 ∷ []
unfolding dcc_id_to_bytes_32 id_bytes copy_right number_bytes leading_zeros decode_base58 index_of
decoded = refl

-- A recipient of three bytes, padded on the right, is the base58 text of the three.
recipient : dcc_recipient (to_hex (0 ∷ 1 ∷ 5 ∷ 0 ∷ 0 ∷ [])) ≡ ok (b'1' ∷ b'5' ∷ b'W' ∷ [])
unfolding dcc_recipient from_hex to_hex last_non_zero base58_digits leading_ones
recipient = refl

amount_text : decimal 2500 ≡ b'2' ∷ b'5' ∷ b'0' ∷ b'0' ∷ []
unfolding decimal decimal_digits
amount_text = refl

decode_base58-base58_digits_example :
    decode_base58 (base58_digits 6 (be_value 0 (0 ∷ 1 ∷ 5 ∷ [])) []) 0 ≡ some 261
decode_base58-base58_digits_example = decode_base58-base58_digits (0 ∷ 1 ∷ 5 ∷ []) (omega arith)
