-- ===== src/DccWatcher/Cursor.antt =====
-- The cursor of validator/src/watchers/dcc-watcher.ts: how far a round of the poll loop moves it.
use native.Mathlib.Nat.{add-zero}
use sol_gateway_dcc_zk_proof.Base.{
  ℕ, zero, suc, ◌+◌, ◌-◌, ◌≤◌, ◌<◌, ◌≡◌, refl, sym, ap, ◌∙◌, subst, inl, inr, Bool, true, false,
  Option, none, some, List, [], ◌∷◌, Text, arith, map_get, Bool-cases, Option-cases, is_some, ◌≢◌,
}
use sol_gateway_dcc_zk_proof.Messages.{DccBurnEvent}
use sol_gateway_dcc_zk_proof.DccWatcher.{
  DccTransaction, DccNode, Watcher, is_burn_call, save_cursor, mark_seen, detect,
}
use sol_gateway_dcc_zk_proof.DccWatcher.Scanning.{
  transactions_of, note_burn, check_for_burn_event, check_transactions, scan_transactions,
  scan_block, poll_blocks, poll_to, poll,
}

note_burn-last :
    (disk_ok : Bool) (event : Option DccBurnEvent) (w : Watcher)
    → (note_burn disk_ok event w).last_processed_height ≡ w.last_processed_height
unfolding note_burn detect mark_seen
note_burn-last disk_ok none w = refl
note_burn-last disk_ok (some event) w =
    elim (Bool-cases (is_some (map_get event.burn_id w.pending_burns))) [
      | inl old ↦ rw old
      | inr new ↦ rw new
    ]

pub save_cursor-last :
    (disk_ok : Bool) (w : Watcher)
    → (save_cursor disk_ok w).last_processed_height ≡ w.last_processed_height
unfolding save_cursor
save_cursor-last true w = refl
save_cursor-last false w = refl

module _ (big_int : Text → Option ℕ) (parse_int : Text → ℕ) (contract : Text) (disk_ok : Bool)
    (node : DccNode) where
  check_for_burn_event-last :
      (tx : DccTransaction) (w : Watcher)
      → (check_for_burn_event big_int parse_int contract disk_ok node tx w).last_processed_height
        ≡ w.last_processed_height
  unfolding check_for_burn_event
  check_for_burn_event-last tx w = elim (Bool-cases (is_burn_call contract tx)) [
    | inl is_call ↦ rw is_call (note_burn-last disk_ok _ w)
    | inr other ↦ rw other
  ]

  check_transactions-last :
      (txs : List DccTransaction) (w : Watcher)
      → (check_transactions big_int parse_int contract disk_ok node txs w).last_processed_height
        ≡ w.last_processed_height
  unfolding check_transactions
  check_transactions-last [] w = refl
  check_transactions-last (tx ∷ txs) w =
      check_transactions-last txs _ ∙ check_for_burn_event-last tx w

  abbrev transactions_at : ℕ → Option (List DccTransaction)
  transactions_at h = transactions_of (node.block_at h)

  -- The heights that `n` rounds read, one after the other, and where they stopped.
  pub record HasRead (n : ℕ) (w w' : Watcher) : Type 0 where
    pub count : ℕ
    pub within : count ≤ n
    pub moved : w'.last_processed_height ≡ w.last_processed_height + count
    pub read :
        (i : ℕ)
        → i < count
        → transactions_of (node.block_at (suc (w.last_processed_height + i))) ≢ none
    pub stopped :
        count < n → transactions_of (node.block_at (suc (w.last_processed_height + count))) ≡ none

  none_read :
      (n : ℕ) (w w' : Watcher)
      → w'.last_processed_height ≡ w.last_processed_height
      → transactions_of (node.block_at (suc w.last_processed_height)) ≡ none
      → HasRead n w w'
  none_read n w w' same gone = record {
    count = 0;
    within = omega arith;
    moved = omega arith;
    read = λ i h. absurd (omega arith);
    stopped = λ h. rw (add-zero w.last_processed_height) gone;
  }

  one_more :
      (n : ℕ) (w next w' : Watcher)
      → next.last_processed_height ≡ suc w.last_processed_height
      → transactions_of (node.block_at (suc w.last_processed_height)) ≢ none
      → HasRead n next w'
      → HasRead (suc n) w w'
  one_more n w next w' moved readable later =
      let last = w.last_processed_height in
      let shift = λ (i : ℕ).
        let e : suc (next.last_processed_height + i) ≡ suc (last + suc i) = omega arith in e in
      let m = later.moved in
      let l = later.within in
      record {
        count = suc later.count;
        within = omega arith;
        moved = omega arith;
        read = λ i h. read_at i h;
        stopped = λ h.
            subst (λ k. transactions_of (node.block_at k) ≡ none) (shift later.count)
              (later.stopped (omega arith));
      }
    where
      read_at :
          (i : ℕ)
          → i < suc later.count
          → transactions_of (node.block_at (suc (w.last_processed_height + i))) ≢ none
      read_at zero h = rw (add-zero w.last_processed_height) readable
      read_at (suc i) h =
          let e : suc (next.last_processed_height + i) ≡ suc (w.last_processed_height + suc i) =
            omega arith in
          subst (λ k. transactions_of (node.block_at k) ≢ none) e (later.read i (omega arith))

  poll_blocks-HasRead :
      (n : ℕ) (w : Watcher) (h : ℕ)
      → h ≡ suc w.last_processed_height
      → HasRead n w (poll_blocks big_int parse_int contract disk_ok node n h w)
  unfolding poll_blocks scan_block scan_transactions
  poll_blocks-HasRead zero w h e = record {
    count = 0;
    within = omega arith;
    moved = omega arith;
    read = λ i p. absurd (omega arith);
    stopped = λ p. absurd (omega arith);
  }
  poll_blocks-HasRead (suc n) w h e = elim (Option-cases (transactions_of (node.block_at h))) [
    | inl gone ↦ rw gone (none_read (suc n) w w refl (rw e at gone))
    | inr (txs, found) ↦
        let checked = check_transactions big_int parse_int contract disk_ok node txs w in
        let next = save_cursor disk_ok (record checked { last_processed_height = h }) in
        let at_h : next.last_processed_height ≡ h = save_cursor-last disk_ok _ in
        let readable : transactions_of (node.block_at (suc w.last_processed_height)) ≢ none =
          rw (← e) (λ g. cc (found, g)) in
        rw found (
          one_more n w next _ (at_h ∙ e) readable
            (poll_blocks-HasRead n next (suc h) (ap suc (sym at_h))))
  ]

  -- When the node tells its height, a round of the poll loop moves the cursor over a run of blocks
  -- from the next one on, each of which could be read; it reaches at most the height below the tip,
  -- and stops short of that only before a block that could not be read.
  pub poll-HasRead :
      (current : ℕ) (w : Watcher)
      → node.height ≡ some current
      → HasRead
          (current - 1 - w.last_processed_height)
          w
          (poll big_int parse_int contract disk_ok node w)
  unfolding poll
  poll-HasRead current w e =
      subst
        (λ height.
          HasRead (current - 1 - w.last_processed_height) w
            (poll_to big_int parse_int contract disk_ok node height w))
        (sym e)
        (poll_blocks-HasRead (current - 1 - w.last_processed_height) w (suc w.last_processed_height)
          refl)
