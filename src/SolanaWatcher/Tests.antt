-- ===== src/SolanaWatcher/Tests.antt =====
-- A deposit of SOL, its transaction, its account and the watcher that sees it.
use sol_gateway_dcc_zk_proof.Base.{
  ◌≡◌, ◌≢◌, refl, inl, inr, true, false, none, some, List, [], ◌∷◌, ◌++◌, Text, arith, text_eq,
  if◌then◌else◌, replicate, All, get_elem?,
}
use sol_gateway_dcc_zk_proof.Bytes.{Bytes, bytes_eq}
use sol_gateway_dcc_zk_proof.Bytes.Digits.{u64_bytes, read_u64_le, read_u32_le}
use sol_gateway_dcc_zk_proof.Bytes.Layout.{concat}
use sol_gateway_dcc_zk_proof.Encoding.{pos}
use sol_gateway_dcc_zk_proof.Encoding.Numbers.{number_of, signed_number_of, nearest_from, nearest}
use sol_gateway_dcc_zk_proof.Messages.{SolanaDepositEvent}
use sol_gateway_dcc_zk_proof.SolanaWatcher.{decode_bridge_deposit}
use sol_gateway_dcc_zk_proof.SolanaWatcher.Decoding.{
  BridgeDeposit, IsInRange, documented_parts, event_of, decode_bridge_deposit-documented,
}
use sol_gateway_dcc_zk_proof.SolanaWatcher.Divergence.{
  program_parts, misread, decode_bridge_deposit-program,
}
use sol_gateway_dcc_zk_proof.SolanaWatcher.Polling.{
  SignatureInfo, Fetched, throws, no_logs, log_lines, SolanaWatcher, marker, after_marker,
  before_marker, parse_payload, parse_deposit_events, poll_signatures,
}
use sol_gateway_dcc_zk_proof.SolanaWatcher.Pending.{IsPending}
use sol_gateway_dcc_zk_proof.SolanaWatcher.Skipping.{poll_signatures-takes}
use sol_gateway_dcc_zk_proof.SolanaWatcher.Restarting.{restarted, seed_cursor-forgets}
use sol_gateway_dcc_zk_proof.SolanaWatcher.Finality.{Account, SolanaNode, check_finality}
use sol_gateway_dcc_zk_proof.SolanaWatcher.Verdicts.{IsSound, check_finality-IsSound}

abbrev key_text : Bytes → Text
key_text key = key

abbrev signature : Text
signature = b's' ∷ []

abbrev deposit : BridgeDeposit
deposit = record {
  transfer_id = replicate 32 1;
  message_id = replicate 32 2;
  sender = replicate 32 3;
  recipient_dcc = replicate 32 4;
  amount = 1000;
  nonce = 7;
  slot = 100;
  event_index = 5;
  timestamp = pos 1700000000;
  src_chain_id = 1;
  dst_chain_id = 2;
}

deposit-IsInRange : IsInRange deposit
deposit-IsInRange = record {
  transfer = refl;
  message = refl;
  sender = refl;
  recipient = refl;
  amount = omega arith;
  nonce = omega arith;
  slot = omega arith;
  index = omega arith;
  timestamp = omega arith;
  source = omega arith;
  destination = omega arith;
}

decode_bridge_deposit-documented_example :
    decode_bridge_deposit key_text
      (concat (documented_parts deposit ++ replicate 32 0 ∷ []))
      signature
      false
    ≡ some (event_of key_text signature deposit)
decode_bridge_deposit-documented_example =
    decode_bridge_deposit-documented key_text signature deposit (replicate 32 0 ∷ [])
      deposit-IsInRange (omega arith) (omega arith)

decode_bridge_deposit-program_example :
    decode_bridge_deposit key_text (concat (program_parts deposit (replicate 32 0))) signature false
    ≡ some (event_of key_text signature (misread deposit 1700000000))
decode_bridge_deposit-program_example =
    decode_bridge_deposit-program key_text signature deposit (replicate 32 0) 1700000000
      deposit-IsInRange (omega arith) refl (omega arith)

-- The heads of the two events, and a base64 that is the text itself.
abbrev discriminator : Bytes
discriminator = 1 ∷ 2 ∷ 3 ∷ 4 ∷ 5 ∷ 6 ∷ 7 ∷ 8 ∷ []

abbrev discriminator_spl : Bytes
discriminator_spl = 8 ∷ 7 ∷ 6 ∷ 5 ∷ 4 ∷ 3 ∷ 2 ∷ 1 ∷ []

abbrev from_base64 : Text → Bytes
from_base64 text = text

abbrev log_line : Text
log_line = marker ++ (discriminator ++ concat (documented_parts deposit))

-- Of three transactions the first failed, the second has the event, and the third cannot be fetched.
abbrev fetch : Text → Fetched
fetch name =
    if text_eq name signature
    then log_lines (log_line ∷ [])
    else if text_eq name (b'u' ∷ [])
    then throws
    else no_logs

deposit_fetched : fetch signature ≡ log_lines (log_line ∷ [])
unfolding text_eq
deposit_fetched = refl

lines_here : (f : Fetched) (lines : List Text) → f ≡ log_lines lines → f ≢ throws
lines_here f lines e = λ t. cc (e, t)

abbrev failed_one : SignatureInfo
failed_one = record { signature = b'f' ∷ []; failed = true }

abbrev deposit_one : SignatureInfo
deposit_one = record { signature = signature; failed = false }

abbrev unreachable_one : SignatureInfo
unreachable_one = record { signature = b'u' ∷ []; failed = false }

unreachable_fetched : fetch unreachable_one.signature ≡ throws
unfolding text_eq
unreachable_fetched = refl

abbrev start : SolanaWatcher
start = record { pending_events = []; last_seen_signature = none; cursor_file = none }

abbrev event : SolanaDepositEvent
event = event_of key_text signature deposit

deposit_parsed :
    get_elem?
      (parse_deposit_events key_text from_base64 discriminator discriminator_spl signature
        (log_line ∷ []))
      0
    ≡ some event
unfolding parse_deposit_events after_marker before_marker parse_payload bytes_eq
    decode_bridge_deposit read_u64_le read_u32_le number_of signed_number_of nearest_from nearest
deposit_parsed = refl

poll_signatures-takes_example :
    ((poll_signatures key_text from_base64 discriminator discriminator_spl true fetch
        (failed_one ∷ deposit_one ∷ unreachable_one ∷ [])
        start).last_seen_signature
      ≡ some signature)
    × IsPending event.transfer_id (
        poll_signatures key_text from_base64 discriminator discriminator_spl true fetch
          (failed_one ∷ deposit_one ∷ unreachable_one ∷ [])
          start)
poll_signatures-takes_example =
    poll_signatures-takes key_text from_base64 discriminator discriminator_spl true fetch
      (failed_one ∷ []) (unreachable_one ∷ []) deposit_one 1 0 deposit_one (log_line ∷ []) event
      start (inl refl, (inr (lines_here (fetch signature) (log_line ∷ []) deposit_fetched), tt))
      (refl, unreachable_fetched) refl refl deposit_fetched deposit_parsed

abbrev program_id : Bytes
program_id = replicate 32 9

abbrev deposit_address : Bytes → Bytes
deposit_address id = id

abbrev account : Account
account = record {
  owner = program_id;
  payload = concat (replicate 8 0 ∷ replicate 32 1 ∷ replicate 96 0 ∷ u64_bytes 1000 ∷ []);
}

abbrev node : SolanaNode
node = record {
  finalized_slot = some 140;
  transaction = λ name. some (record { slot = 100; failed = false });
  account = λ address. some account;
}

abbrev watching : SolanaWatcher
watching = record start { pending_events = (event.transfer_id, event) ∷ [] }

check_finality-IsSound_example :
    All
      (IsSound program_id deposit_address node 32 140)
      (check_finality program_id deposit_address node 32 watching).1
check_finality-IsSound_example =
    check_finality-IsSound program_id deposit_address node 32 140 watching refl

abbrev after_poll : SolanaWatcher
after_poll =
    poll_signatures key_text from_base64 discriminator discriminator_spl true fetch
      (failed_one ∷ deposit_one ∷ unreachable_one ∷ []) start

seed_cursor-forgets_example :
    IsPending event.transfer_id after_poll
    × (restarted true (unreachable_one ∷ []) after_poll ≡ record {
      pending_events = [];
      last_seen_signature = some signature;
      cursor_file = some signature;
    })
seed_cursor-forgets_example =
    seed_cursor-forgets key_text from_base64 discriminator discriminator_spl fetch (failed_one ∷ [])
      (unreachable_one ∷ []) (unreachable_one ∷ []) deposit_one 1 0 deposit_one (log_line ∷ [])
      event true start
      (inl refl, (inr (lines_here (fetch signature) (log_line ∷ []) deposit_fetched), tt))
      (refl, unreachable_fetched) refl refl deposit_fetched deposit_parsed
