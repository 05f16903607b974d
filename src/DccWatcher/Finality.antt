-- ===== src/DccWatcher/Finality.antt =====
-- validator/src/watchers/dcc-watcher.ts: the check of pending burns for finality.
use sol_gateway_dcc_zk_proof.Base.{
  ℕ, ◌+◌, ◌-◌, Bool, true, false, ◌&&◌, ◌||◌, Option, none, some, List, [], ◌∷◌, ◌++◌, Text, leb,
  if◌then◌else◌, text_eq, map_get, map_delete,
}
use sol_gateway_dcc_zk_proof.Messages.{DccBurnEvent}
use sol_gateway_dcc_zk_proof.DccWatcher.{
  DccTransaction, Block, DccNode, DccWatcherConfig, Watcher, burn_prefix,
}

pub data Verdict : Type 0 where
  burn_finalized : DccBurnEvent → Verdict
  burn_invalidated : DccBurnEvent → Verdict

-- `transactions?.some(tx => tx.id === txId)`.
abbrev pub has_transaction : Text → List DccTransaction → Bool
has_transaction tx_id [] = false
has_transaction tx_id (tx ∷ txs) = text_eq tx.id tx_id || has_transaction tx_id txs

abbrev pub block_has : Text → Option Block → Bool
block_has tx_id none = false
block_has tx_id (some block) = elim block.transactions [
  | none ↦ false
  | some txs ↦ has_transaction tx_id txs
]

abbrev pub has_successor : Option Block → Bool
has_successor none = false
has_successor (some block) = block.has_reference

-- The value of an entry; an empty one is falsy.
abbrev pub value_of : Option (Option Text) → Option Text
value_of none = none
value_of (some none) = none
value_of (some (some [])) = none
value_of (some (some (c ∷ cs))) = some (c ∷ cs)

abbrev same_value : Text → Option Text → Bool
same_value value none = false
same_value value (some other) = text_eq other value

unfoldable pub secondary_agrees : Option DccNode → Text → Text → Bool
secondary_agrees none key value = true
secondary_agrees (some node) key value = same_value value (value_of (node.entry key))

module _ (node : DccNode) (secondary : Option DccNode) where
  -- The steps after the entry was read and the event found.
  unfoldable pub verify_event : Text → Text → DccBurnEvent → Bool
  verify_event key value event =
      has_successor (node.block_at (event.height + 1))
      && block_has event.tx_id (node.block_at event.height)
      && secondary_agrees secondary key value

  -- The value read, if any, and the event of the pending burn.
  unfoldable pub verify_entry : Text → Option Text → Option DccBurnEvent → Bool
  verify_entry key none event = false
  verify_entry key (some value) none = false
  verify_entry key (some value) (some event) = verify_event key value event

  unfoldable pub verify_burn_on_chain : Text → Watcher → Bool
  verify_burn_on_chain burn_id w =
      let key = burn_prefix ++ burn_id in
      verify_entry key (value_of (node.entry key)) (map_get burn_id w.pending_burns)

  abbrev pub drop_burn : Text → Watcher → Watcher
  drop_burn burn_id w = record w { pending_burns = map_delete burn_id w.pending_burns }

  -- The body of the loop over the pending burns.
  unfoldable pub settle : ℕ → ℕ → Text → DccBurnEvent → Watcher → Watcher × List Verdict
  settle required current burn_id event w =
      if leb (event.height + required) current
      then (
        drop_burn burn_id w,
        (if verify_burn_on_chain burn_id w
              then burn_finalized (record event { confirmations = current - event.height })
              else burn_invalidated event)
            ∷ [],
      )
      else (w, [])

  unfoldable pub settle_all : ℕ → ℕ → List (Text × DccBurnEvent) → Watcher → Watcher × List Verdict
  settle_all required current [] w = (w, [])
  settle_all required current ((burn_id, event) ∷ burns) w =
      let (w₁, verdicts) = settle required current burn_id event w in
      let (w₂, later) = settle_all required current burns w₁ in (w₂, verdicts ++ later)

  unfoldable pub check_at : DccWatcherConfig → Option ℕ → Watcher → Watcher × List Verdict
  unfolding settle_all
  check_at config none w = (w, [])
  check_at config (some current) w =
      settle_all config.required_confirmations current w.pending_burns w

  -- One round of `runFinalityLoop`.
  unfoldable pub check_finality : DccWatcherConfig → Watcher → Watcher × List Verdict
  unfolding check_at
  check_finality config w = check_at config node.height w
