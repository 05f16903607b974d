-- ===== src/DccWatcher/Scanning.antt =====
-- validator/src/watchers/dcc-watcher.ts: the start from the saved cursor, and the scan of blocks.
use sol_gateway_dcc_zk_proof.Base.{
  ℕ, zero, suc, ◌-◌, ◌*◌, Bool, true, false, ◌&&◌, Option, none, some, List, [], ◌∷◌, Text, min,
  ltb, leb, if◌then◌else◌, is_some, map_get,
}
use sol_gateway_dcc_zk_proof.Messages.{DccBurnEvent}
use sol_gateway_dcc_zk_proof.DccWatcher.{
  DccTransaction, Block, DccNode, Watcher, scan_lag_blocks, max_resume_gap_blocks, is_burn_call,
  save_cursor, load_seen_burns, detect, parse_burn_event,
}

-- `delayMs = Math.min(delayMs * 2, 30000)`.
unfoldable pub next_delay : ℕ → ℕ
next_delay delay_ms = min (delay_ms * 2) 30000

-- The saved height, unless it is 0.
abbrev load_cursor : Option ℕ → Option ℕ
load_cursor none = none
load_cursor (some zero) = none
load_cursor (some (suc n)) = some (suc n)

abbrev start_height : ℕ → Option ℕ → ℕ
start_height tip none = tip
start_height tip (some resumed) =
    if ltb resumed tip && leb (tip - resumed) max_resume_gap_blocks then resumed else tip

-- The body of the loop of `seedHeightThenPoll` once the height is there.
unfoldable pub seed : Bool → ℕ → Watcher → Watcher
seed disk_ok tip w = load_seen_burns (
    save_cursor disk_ok (record w {
      last_processed_height = start_height tip (load_cursor w.cursor_file);
      is_seeded = true;
    }))

-- The block's transaction, or what the node tells of it when the block has no state changes.
abbrev pub full_transaction : DccNode → DccTransaction → Option DccTransaction
full_transaction node tx = elim tx.state_changes [ none ↦ node.info tx.id | some changes ↦ some tx ]

-- The transactions of a block that could be read.
abbrev pub transactions_of : Option Block → Option (List DccTransaction)
transactions_of none = none
transactions_of (some block) = block.transactions

abbrev pub parse_full : (Text → Option ℕ) → (Text → ℕ) → Option DccTransaction → Option DccBurnEvent
parse_full big_int parse_int none = none
parse_full big_int parse_int (some tx) = parse_burn_event big_int parse_int tx

unfoldable pub note_burn : Bool → Option DccBurnEvent → Watcher → Watcher
note_burn disk_ok none w = w
note_burn disk_ok (some event) w =
    if is_some (map_get event.burn_id w.pending_burns)
    then w
    else detect disk_ok event.burn_id event w

module _ (big_int : Text → Option ℕ) (parse_int : Text → ℕ) (contract : Text) (disk_ok : Bool)
    (node : DccNode) where
  unfoldable pub check_for_burn_event : DccTransaction → Watcher → Watcher
  check_for_burn_event tx w =
      if is_burn_call contract tx
      then note_burn disk_ok (parse_full big_int parse_int (full_transaction node tx)) w
      else w

  unfoldable pub check_transactions : List DccTransaction → Watcher → Watcher
  check_transactions [] w = w
  check_transactions (tx ∷ txs) w = check_transactions txs (check_for_burn_event tx w)

  unfoldable pub scan_transactions : Option (List DccTransaction) → Watcher → Watcher × Bool
  scan_transactions none w = (w, false)
  scan_transactions (some txs) w = (check_transactions txs w, true)

  unfoldable pub scan_block : ℕ → Watcher → Watcher × Bool
  unfolding scan_transactions
  scan_block height w = scan_transactions (transactions_of (node.block_at height)) w

  -- The `for` loop of `runPollLoop`, with `n` heights left.
  unfoldable pub poll_blocks : ℕ → ℕ → Watcher → Watcher
  poll_blocks zero h w = w
  poll_blocks (suc n) h w =
      let (w', scanned) = scan_block h w in
      let rest =
        poll_blocks n (suc h) (save_cursor disk_ok (record w' { last_processed_height = h })) in
      if scanned then rest else w'

  abbrev pub poll_to : Option ℕ → Watcher → Watcher
  poll_to none w = w
  poll_to (some current) w =
      poll_blocks (current - scan_lag_blocks - w.last_processed_height)
        (suc w.last_processed_height) w

  -- One round of `runPollLoop`.
  unfoldable pub poll : Watcher → Watcher
  unfolding poll_blocks
  poll w = poll_to node.height w
