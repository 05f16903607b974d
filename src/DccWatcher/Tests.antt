-- ===== src/DccWatcher/Tests.antt =====
-- A watcher of a contract in a chain of three blocks, with one burn.
use sol_gateway_dcc_zk_proof.Base.{
  ℕ, ◌+◌, ◌*◌, ◌-◌, ◌≡◌, refl, true, false, Option, none, some, [], ◌∷◌, ◌++◌, if◌then◌else◌, ◌==◌,
  Text, arith, ltb, text_eq, map_get, map_set, set_add, set_has, HasKey,
}
use sol_gateway_dcc_zk_proof.Messages.{DccBurnEvent}
use sol_gateway_dcc_zk_proof.DccWatcher.{
  StateEntry, DccTransaction, Block, DccNode, DccWatcherConfig, Watcher, new_watcher, burn_prefix,
  burn_name, is_burn_call, is_burn_key, split_bars, event_of_record, event_of_changes,
  parse_burn_event, save_cursor, detect,
}
use sol_gateway_dcc_zk_proof.DccWatcher.Scanning.{
  note_burn, check_for_burn_event, check_transactions, scan_block, poll, seed,
}
use sol_gateway_dcc_zk_proof.DccWatcher.Cursor.{HasRead, poll-HasRead}
use sol_gateway_dcc_zk_proof.DccWatcher.Capture.{IsPending, poll-takes}
use sol_gateway_dcc_zk_proof.DccWatcher.Finality.{check_finality}
use sol_gateway_dcc_zk_proof.DccWatcher.Settling.{Burns, Settles, check_finality-Settles}
use sol_gateway_dcc_zk_proof.DccWatcher.Losses.{sweeps, seed-detect-lost}

abbrev digit_value : ℕ → ℕ → ℕ
digit_value acc c = acc * 10 + (c - b'0')

abbrev number : ℕ → Text → ℕ
number acc [] = acc
number acc (c ∷ cs) = number (digit_value acc c) cs

abbrev parse_int : Text → ℕ
parse_int text = number 0 text

abbrev big_int : Text → Option ℕ
big_int text = some (number 0 text)

abbrev contract : Text
contract = b'c' ∷ []

-- "a|s|m|25|11|9"
abbrev burn_value : Text
burn_value =
    b'a' ∷ b'|' ∷ b's' ∷ b'|' ∷ b'm' ∷ b'|' ∷ b'2' ∷ b'5' ∷ b'|' ∷ b'1' ∷ b'1' ∷ b'|' ∷ b'9' ∷ []

abbrev burn_entry : StateEntry
burn_entry = record { key = burn_prefix ++ b'7' ∷ []; value = some burn_value }

abbrev burn_tx : DccTransaction
burn_tx = record {
  id = b't' ∷ [];
  tx_type = 16;
  dapp = contract;
  function = some burn_name;
  state_changes = none;
}

abbrev blocks : ℕ → Option Block
blocks h =
    if h == 11
    then some (record { transactions = some (burn_tx ∷ []); has_reference = true })
    else if ltb h 13
    then some (record { transactions = some []; has_reference = true })
    else none

abbrev node : DccNode
node = record {
  height = some 13;
  block_at = blocks;
  info = λ id. some (record burn_tx { state_changes = some (burn_entry ∷ []) });
  entries = some (burn_entry ∷ []);
  entry = λ key. some (some burn_value);
}

abbrev start : Watcher
start = record {
  is_seeded = true;
  seen_burn_ids = [];
  last_processed_height = 10;
  pending_burns = [];
  cursor_file = none;
  seen_file = none;
}

abbrev burn : DccBurnEvent
burn = record {
  burn_id = b'7' ∷ [];
  sender = b'a' ∷ [];
  sol_recipient = b's' ∷ [];
  spl_mint = b'm' ∷ [];
  amount = 250;
  height = 11;
  timestamp = 9;
  tx_id = b't' ∷ [];
  confirmations = 0;
}

poll-HasRead_example :
    HasRead big_int parse_int contract true node
      (13 - 1 - 10)
      start
      (poll big_int parse_int contract true node start)
poll-HasRead_example = poll-HasRead big_int parse_int contract true node 13 start refl

polled : (poll big_int parse_int contract true node start).last_processed_height ≡ 12
unfolding poll scan_block check_transactions check_for_burn_event is_burn_call note_burn
    parse_burn_event event_of_changes event_of_record is_burn_key split_bars detect save_cursor
    map_get map_set set_add set_has text_eq
polled = refl

poll-takes_example : IsPending (b'7' ∷ []) (poll big_int parse_int contract true node start)
unfolding is_burn_call parse_burn_event event_of_changes event_of_record is_burn_key split_bars
    text_eq
poll-takes_example =
    poll-takes big_int parse_int contract true node burn 0 (burn_tx ∷ []) start
      (omega (arith, polled)) refl
      (record { index = 0; tx = burn_tx; found = refl; called = refl; parsed = refl })

abbrev config : DccWatcherConfig
config = record { bridge_contract = contract; required_confirmations = 2 }

abbrev waiting : Watcher
waiting = record start { pending_burns = (b'7' ∷ [], burn) ∷ [] }

check_finality-Settles_example :
    (left : Burns) × ((check_finality node none config waiting).0
      ≡ record waiting { pending_burns = left })
    × Settles node none 2 13 waiting.pending_burns left (check_finality node none config waiting).1
unfolding map_get
check_finality-Settles_example = check_finality-Settles node none config 13 waiting refl (refl, tt)

seed-detect-lost_example :
    let stopped = detect true (b'7' ∷ []) burn start in
    let restarted = seed true 13 (new_watcher stopped.cursor_file stopped.seen_file) in
    HasKey
      (b'7' ∷ [])
      (sweeps big_int parse_int contract true (node ∷ []) restarted).pending_burns
      false
seed-detect-lost_example =
    seed-detect-lost big_int parse_int contract true (node ∷ []) 13 (b'7' ∷ []) burn start
