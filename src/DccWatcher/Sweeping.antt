-- ===== src/DccWatcher/Sweeping.antt =====
-- validator/src/watchers/dcc-watcher.ts: the sweep over the entries of the contract.
use sol_gateway_dcc_zk_proof.Base.{
  is_some, ℕ, Bool, false, ◌&&◌, ◌||◌, not, Option, none, some, List, [], ◌∷◌, Text, length, get_or,
  ltb, if◌then◌else◌, text_eq, map_get, set_has,
}
use sol_gateway_dcc_zk_proof.Messages.{DccBurnEvent}
use sol_gateway_dcc_zk_proof.DccWatcher.{
  StateEntry, DccTransaction, DccNode, Watcher, is_burn_key, burn_id_of, is_burn_call, split_bars,
  event_of_parts, detect,
}

-- `data.some(e => e.key === recordKey)`.
abbrev has_key : Text → List StateEntry → Bool
has_key key [] = false
has_key key (e ∷ entries) = text_eq e.key key || has_key key entries

abbrev pub wrote : Text → Option (List StateEntry) → Bool
wrote key none = false
wrote key (some changes) = has_key key changes

-- An empty id is as good as none.
abbrev pub non_empty : Text → Option Text
non_empty [] = none
non_empty (c ∷ cs) = some (c ∷ cs)

abbrev or_no_transactions : Option (List DccTransaction) → List DccTransaction
or_no_transactions none = []
or_no_transactions (some txs) = txs

abbrev pub or_no_entries : Option (List StateEntry) → List StateEntry
or_no_entries none = []
or_no_entries (some entries) = entries

-- The end of the body, once the event is made: none for no transaction.
unfoldable pub sweep_found : Bool → Text → DccBurnEvent → Option Text → Watcher → Watcher
sweep_found disk_ok burn_id event none w = w
sweep_found disk_ok burn_id event (some tx_id) w =
    detect disk_ok burn_id (record event { tx_id = tx_id }) w

module _ (contract : Text) (node : DccNode) where
  unfoldable pub find_writer : Text → List DccTransaction → Option Text
  find_writer record_key [] = none
  find_writer record_key (tx ∷ txs) =
      let rest = find_writer record_key txs in
      if is_burn_call contract tx
      then elim (node.info tx.id) [
        | none ↦ none
        | some detail ↦ if wrote record_key detail.state_changes then non_empty tx.id else rest
      ]
      else rest

  unfoldable pub find_burn_tx_id : Text → ℕ → Option Text
  find_burn_tx_id record_key height = elim (node.block_at height) [
    | none ↦ none
    | some block ↦ find_writer record_key (or_no_transactions block.transactions)
  ]

module _ (big_int : Text → Option ℕ) (parse_int : Text → ℕ) (contract : Text) (disk_ok : Bool)
    (node : DccNode) where
  -- The event of a burn that is new, by its amount: none where `BigInt` throws, which ends the
  -- sweep.
  unfoldable pub sweep_amount : Text → Text → List Text → Option ℕ → Watcher → Option Watcher
  sweep_amount key burn_id parts none w = none
  sweep_amount key burn_id parts (some amount) w =
      let event = event_of_parts big_int parse_int burn_id [] parts amount in
      some (sweep_found disk_ok burn_id event (find_burn_tx_id contract node key event.height) w)

  unfoldable pub sweep_burn : Text → Text → Text → Watcher → Option Watcher
  sweep_burn key burn_id value w =
      let parts = split_bars value in
      if ltb (length parts) 6
      then some w
      else sweep_amount key burn_id parts (big_int (get_or parts 3 [])) w

  unfoldable pub sweep_value : Text → Option Text → Watcher → Option Watcher
  sweep_value key none w = some w
  sweep_value key (some value) w =
      let burn_id = burn_id_of key in
      if is_burn_key key
        && not (is_some (map_get burn_id w.pending_burns) || set_has burn_id w.seen_burn_ids)
      then sweep_burn key burn_id value w
      else some w

  abbrev sweep_on : Watcher → Option Watcher → (Watcher → Watcher) → Watcher
  sweep_on w none later = w
  sweep_on w (some w') later = later w'

  unfoldable pub sweep : List StateEntry → Watcher → Watcher
  sweep [] w = w
  sweep (e ∷ entries) w = sweep_on w (sweep_value e.key e.value w) (sweep entries)

  -- `reconcileBurns`, with what its caller catches.
  unfoldable pub reconcile_burns : Watcher → Watcher
  unfolding sweep
  reconcile_burns w = sweep (or_no_entries node.entries) w
