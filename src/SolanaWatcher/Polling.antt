-- ===== src/SolanaWatcher/Polling.antt =====
-- validator/src/watchers/solana-watcher.ts: the parsing of logs and the poll for new transactions.
-- `Program data: ` is the marker of a log line; the test for it without its last blank follows from
-- the split. A write of the cursor's file that fails is `disk_ok` being false.
use mathlib.Core.List.{reverse}
use sol_gateway_dcc_zk_proof.Base.{
  Bool, true, false, ◌&&◌, not, Option, none, some, List, [], ◌∷◌, Text, length, take, drop,
  if◌then◌else◌, ◌==◌, is_some, map_get, map_set,
}
use sol_gateway_dcc_zk_proof.Bytes.{Bytes, bytes_eq}
use sol_gateway_dcc_zk_proof.Messages.{SolanaDepositEvent}
use sol_gateway_dcc_zk_proof.SolanaWatcher.{decode_bridge_deposit}

pub record SignatureInfo : Type 0 where
  pub signature : Text
  -- `err`
  pub failed : Bool

-- What `getTransaction` gives: an error thrown, no transaction or no logs, or the log lines.
pub data Fetched : Type 0 where
  throws : Fetched
  no_logs : Fetched
  log_lines : List Text → Fetched

pub record SolanaWatcher : Type 0 where
  pub pending_events : List (Text × SolanaDepositEvent)
  pub last_seen_signature : Option Text
  pub cursor_file : Option Text

abbrev starts_with : Text → Text → Bool
starts_with [] text = true
starts_with (c ∷ cs) [] = false
starts_with (c ∷ cs) (d ∷ ds) = c == d && starts_with cs ds

-- "Program data: "
abbrev pub marker : Text
marker =
    b'P' ∷ b'r' ∷ b'o' ∷ b'g' ∷ b'r' ∷ b'a' ∷ b'm' ∷ b' ' ∷ b'd' ∷ b'a' ∷ b't' ∷ b'a' ∷ b':' ∷ b' '
    ∷ []

-- What follows the first marker, and what stands before one.
unfoldable pub after_marker : Text → Option Text
after_marker [] = none
after_marker (c ∷ cs) =
    let rest = after_marker cs in
    if starts_with marker (c ∷ cs) then some (drop (length marker) (c ∷ cs)) else rest

unfoldable pub before_marker : Text → Text
before_marker [] = []
before_marker (c ∷ cs) =
    let rest = before_marker cs in if starts_with marker (c ∷ cs) then [] else c ∷ rest

-- `log.split('Program data: ')[1]`, with none for an empty one.
abbrev non_empty : Text → Option Text
non_empty [] = none
non_empty (c ∷ cs) = some (c ∷ cs)

abbrev payload_of : Text → Option Text
payload_of line = elim (after_marker line) [
  | none ↦ none
  | some rest ↦ non_empty (before_marker rest)
]

-- `has` and `set`, unless it is there.
unfoldable pub add_event : SolanaDepositEvent → SolanaWatcher → SolanaWatcher
add_event event w =
    if is_some (map_get event.transfer_id w.pending_events)
    then w
    else record w { pending_events = map_set event.transfer_id event w.pending_events }

unfoldable pub add_events : List SolanaDepositEvent → SolanaWatcher → SolanaWatcher
add_events [] w = w
add_events (event ∷ events) w = add_events events (add_event event w)

unfoldable pub advance_cursor : Bool → Text → SolanaWatcher → SolanaWatcher
advance_cursor disk_ok signature w = record w {
  last_seen_signature = some signature;
  cursor_file = if disk_ok then some signature else w.cursor_file;
}

-- A watcher as it is made, with the cursor that a previous run left in the file.
unfoldable pub new_watcher : Option Text → SolanaWatcher
new_watcher saved = record { pending_events = []; last_seen_signature = none; cursor_file = saved }

abbrev seed_from : Bool → List SignatureInfo → Option Text → SolanaWatcher → SolanaWatcher
seed_from disk_ok recent (some resumed) w = record w { last_seen_signature = some resumed }
seed_from disk_ok [] none w = w
seed_from disk_ok (s ∷ ss) none w = advance_cursor disk_ok s.signature w

-- `runPollingLoop` before its loop; `recent` is none where the query for the newest transaction
-- throws.
unfoldable pub seed_cursor : Bool → Option (List SignatureInfo) → SolanaWatcher → SolanaWatcher
unfolding advance_cursor
seed_cursor disk_ok none w = w
seed_cursor disk_ok (some recent) w = seed_from disk_ok recent w.cursor_file w

-- `discriminator` and `discriminator_spl` are the heads of two SHA-256.
module _ (key_text : Bytes → Text) (from_base64 : Text → Bytes)
    (discriminator discriminator_spl : Bytes) where
  unfoldable pub parse_payload : Text → Bytes → Option SolanaDepositEvent
  parse_payload signature bytes =
      let tag = take 8 bytes in
      if not (bytes_eq tag discriminator) && not (bytes_eq tag discriminator_spl)
      then none
      else decode_bridge_deposit key_text (drop 8 bytes) signature (bytes_eq tag discriminator_spl)

  abbrev parse_line : Text → Option Text → Option SolanaDepositEvent
  parse_line signature none = none
  parse_line signature (some text) = parse_payload signature (from_base64 text)

  abbrev add_parsed : Option SolanaDepositEvent → List SolanaDepositEvent → List SolanaDepositEvent
  add_parsed none events = events
  add_parsed (some event) events = event ∷ events

  unfoldable pub parse_deposit_events : Text → List Text → List SolanaDepositEvent
  parse_deposit_events signature [] = []
  parse_deposit_events signature (line ∷ lines) =
      add_parsed (parse_line signature (payload_of line)) (parse_deposit_events signature lines)

  unfoldable pub process_logs : Text → List Text → SolanaWatcher → SolanaWatcher
  process_logs signature lines w = add_events (parse_deposit_events signature lines) w

  module _ (disk_ok : Bool) (fetch : Text → Fetched) where
    -- A transaction handled, with none where its fetch throws.
    unfoldable pub handle : Text → Fetched → SolanaWatcher → Option SolanaWatcher
    handle signature throws w = none
    handle signature no_logs w = some (advance_cursor disk_ok signature w)
    handle signature (log_lines lines) w =
        some (advance_cursor disk_ok signature (process_logs signature lines w))

    unfoldable pub handle_signature : SignatureInfo → SolanaWatcher → Option SolanaWatcher
    handle_signature s w =
        if s.failed
        then some (advance_cursor disk_ok s.signature w)
        else handle s.signature (fetch s.signature) w

    abbrev go_on :
        SolanaWatcher → Option SolanaWatcher → (SolanaWatcher → SolanaWatcher) → SolanaWatcher
    go_on w none later = w
    go_on w (some w') later = later w'

    -- The loop over the signatures, oldest first.
    unfoldable pub poll_signatures : List SignatureInfo → SolanaWatcher → SolanaWatcher
    poll_signatures [] w = w
    poll_signatures (s ∷ ss) w = go_on w (handle_signature s w) (poll_signatures ss)

    -- `pollNewTransactions`, with the answer to its query, newest first.
    unfoldable pub poll_new_transactions : List SignatureInfo → SolanaWatcher → SolanaWatcher
    poll_new_transactions signatures w = poll_signatures (reverse signatures) w

  -- `injectTransaction`.
  unfoldable pub inject_transaction : Text → Fetched → SolanaWatcher → SolanaWatcher
  inject_transaction signature throws w = w
  inject_transaction signature no_logs w = w
  inject_transaction signature (log_lines lines) w = process_logs signature lines w
