-- ===== src/DccWatcher/Capture.antt =====
-- The scan of validator/src/watchers/dcc-watcher.ts: which burns it takes up.
use native.Mathlib.Nat.{add-zero}
use sol_gateway_dcc_zk_proof.Base.{
  ℕ, zero, suc, ◌+◌, ◌-◌, ◌≤◌, ◌≡◌, refl, sym, ap, inl, inr, Bool, true, false, Option, none, some,
  List, [], ◌∷◌, Text, arith, get_elem?, map_get, map_get-map_set, HasKey, HasKey-map_set, is_some,
  Bool-cases, Option-cases,
}
use sol_gateway_dcc_zk_proof.Messages.{DccBurnEvent}
use sol_gateway_dcc_zk_proof.DccWatcher.{
  DccTransaction, DccNode, Watcher, is_burn_call, save_cursor, mark_seen, detect,
}
use sol_gateway_dcc_zk_proof.DccWatcher.Scanning.{
  full_transaction, transactions_of, parse_full, note_burn, check_for_burn_event,
  check_transactions, scan_transactions, scan_block, poll_blocks, poll_to, poll,
}
use sol_gateway_dcc_zk_proof.DccWatcher.Cursor.{save_cursor-last}

-- Whether a burn is pending.
abbrev pub IsPending : Text → Watcher → Type 0
IsPending burn_id w = HasKey burn_id w.pending_burns true

note_burn-keeps :
    (disk_ok : Bool) (k : Text) (event : Option DccBurnEvent) (w : Watcher)
    → IsPending k w
    → IsPending k (note_burn disk_ok event w)
unfolding note_burn detect mark_seen
note_burn-keeps disk_ok k none w h = h
note_burn-keeps disk_ok k (some event) w h =
    elim (Bool-cases (is_some (map_get event.burn_id w.pending_burns))) [
      | inl old ↦ rw old h
      | inr new ↦ rw new (HasKey-map_set k event.burn_id event w.pending_burns h)
    ]

note_burn-takes :
    (disk_ok : Bool) (event : DccBurnEvent) (w : Watcher)
    → IsPending event.burn_id (note_burn disk_ok (some event) w)
unfolding note_burn detect mark_seen
note_burn-takes disk_ok event w =
    elim (Bool-cases (is_some (map_get event.burn_id w.pending_burns))) [
      | inl old ↦ rw (old, old) refl
      | inr new ↦ rw (new, map_get-map_set event.burn_id event w.pending_burns) refl
    ]

save_cursor-keeps :
    (disk_ok : Bool) (k : Text) (w : Watcher) → IsPending k w → IsPending k (save_cursor disk_ok w)
unfolding save_cursor
save_cursor-keeps true k w h = h
save_cursor-keeps false k w h = h

module _ (big_int : Text → Option ℕ) (parse_int : Text → ℕ) (contract : Text) (disk_ok : Bool)
    (node : DccNode) where
  -- A burn of the contract that the transactions hold, with the record that it wrote.
  pub record HoldsBurn (txs : List DccTransaction) (event : DccBurnEvent) : Type 0 where
    pub index : ℕ
    pub tx : DccTransaction
    pub found : get_elem? txs index ≡ some tx
    pub called : is_burn_call contract tx ≡ true
    pub parsed : parse_full big_int parse_int (full_transaction node tx) ≡ some event

  check_for_burn_event-keeps :
      (k : Text) (tx : DccTransaction) (w : Watcher)
      → IsPending k w
      → IsPending k (check_for_burn_event big_int parse_int contract disk_ok node tx w)
  unfolding check_for_burn_event
  check_for_burn_event-keeps k tx w h = elim (Bool-cases (is_burn_call contract tx)) [
    | inl is_call ↦ rw is_call (note_burn-keeps disk_ok k _ w h)
    | inr other ↦ rw other h
  ]

  check_transactions-keeps :
      (k : Text) (txs : List DccTransaction) (w : Watcher)
      → IsPending k w
      → IsPending k (check_transactions big_int parse_int contract disk_ok node txs w)
  unfolding check_transactions
  check_transactions-keeps k [] w h = h
  check_transactions-keeps k (tx ∷ txs) w h =
      check_transactions-keeps k txs _ (check_for_burn_event-keeps k tx w h)

  check_transactions-takes :
      (event : DccBurnEvent) (txs : List DccTransaction) (i : ℕ) (tx : DccTransaction) (w : Watcher)
      → get_elem? txs i ≡ some tx
      → is_burn_call contract tx ≡ true
      → parse_full big_int parse_int (full_transaction node tx) ≡ some event
      → IsPending event.burn_id (check_transactions big_int parse_int contract disk_ok node txs w)
  unfolding check_transactions check_for_burn_event
  check_transactions-takes event [] i tx w found called parsed = cc found
  check_transactions-takes event (t ∷ txs) zero tx w found called parsed =
      let same : t ≡ tx = cc found in
      let taken : IsPending event.burn_id
          (check_for_burn_event big_int parse_int contract disk_ok node tx w) =
        rw (called, parsed) (note_burn-takes disk_ok event w) in
      check_transactions-keeps event.burn_id txs _ (rw same taken)
  check_transactions-takes event (t ∷ txs) (suc i) tx w found called parsed =
      check_transactions-takes event txs i tx _ found called parsed

  poll_blocks-keeps :
      (k : Text) (n h : ℕ) (w : Watcher)
      → IsPending k w
      → IsPending k (poll_blocks big_int parse_int contract disk_ok node n h w)
  unfolding poll_blocks scan_block scan_transactions
  poll_blocks-keeps k zero h w p = p
  poll_blocks-keeps k (suc n) h w p = elim (Option-cases (transactions_of (node.block_at h))) [
    | inl gone ↦ rw gone p
    | inr (txs, found) ↦
        let checked = check_transactions big_int parse_int contract disk_ok node txs w in
        let moved = record checked { last_processed_height = h } in
        rw found (
          poll_blocks-keeps k n (suc h) (save_cursor disk_ok moved)
            (save_cursor-keeps disk_ok k moved (check_transactions-keeps k txs w p)))
  ]

  poll_blocks-takes :
      (event : DccBurnEvent) (n h i : ℕ) (txs : List DccTransaction) (w : Watcher)
      → h ≡ suc w.last_processed_height
      → h + i ≤ (poll_blocks big_int parse_int contract disk_ok node n h w).last_processed_height
      → transactions_of (node.block_at (h + i)) ≡ some txs
      → HoldsBurn txs event
      → IsPending event.burn_id (poll_blocks big_int parse_int contract disk_ok node n h w)
  unfolding poll_blocks scan_block scan_transactions
  poll_blocks-takes event zero h i txs w e reached held burn = absurd (omega arith)
  poll_blocks-takes event (suc n) h zero txs w e reached held burn =
      let here = rw (add-zero h) at held in
      let checked = check_transactions big_int parse_int contract disk_ok node txs w in
      let moved = record checked { last_processed_height = h } in
      let taken =
        check_transactions-takes event txs burn.index burn.tx w burn.found burn.called
          burn.parsed in
      rw here (
        poll_blocks-keeps event.burn_id n (suc h) (save_cursor disk_ok moved)
          (save_cursor-keeps disk_ok event.burn_id moved taken))
  poll_blocks-takes event (suc n) h (suc i) txs w e reached held burn =
      elim (Option-cases (transactions_of (node.block_at h))) [
        | inl gone ↦ let r = rw gone at reached in absurd (omega arith)
        | inr (these, found) ↦
            let checked = check_transactions big_int parse_int contract disk_ok node these w in
            let moved = record checked { last_processed_height = h } in
            let next = save_cursor disk_ok moved in
            let shift : h + suc i ≡ suc h + i = omega arith in
            rw found (
              poll_blocks-takes event n (suc h) i txs next
                (ap suc (sym (save_cursor-last disk_ok moved))) (rw (← shift) (rw found at reached))
                (rw shift at held) burn)
      ]

  -- Every burn of the contract in a block that a round of the poll loop passes is pending after it,
  -- if the state changes of its transaction were in the block or could be read from the node, and
  -- are those of a burn.
  pub poll-takes :
      (event : DccBurnEvent) (i : ℕ) (txs : List DccTransaction) (w : Watcher)
      → suc w.last_processed_height + i
        ≤ (poll big_int parse_int contract disk_ok node w).last_processed_height
      → transactions_of (node.block_at (suc w.last_processed_height + i)) ≡ some txs
      → HoldsBurn txs event
      → IsPending event.burn_id (poll big_int parse_int contract disk_ok node w)
  unfolding poll
  poll-takes event i txs w reached held burn = takes_to node.height reached
    where
      takes_to :
          (height : Option ℕ)
          → suc w.last_processed_height + i
            ≤ (poll_to big_int parse_int contract disk_ok node height w).last_processed_height
          → IsPending event.burn_id (poll_to big_int parse_int contract disk_ok node height w)
      takes_to none r = absurd (omega arith)
      takes_to (some current) r =
          poll_blocks-takes event (current - 1 - w.last_processed_height)
            (suc w.last_processed_height) i txs w refl r held burn
