-- ===== src/SolanaWatcher/Pending.antt =====
-- The pending deposits of validator/src/watchers/solana-watcher.ts: what is kept and what is added.
use sol_gateway_dcc_zk_proof.Base.{
  ℕ, zero, suc, ◌≡◌, refl, inl, inr, Bool, true, some, List, [], ◌∷◌, Text, get_elem?, map_get,
  map_get-map_set, is_some, HasKey, HasKey-map_set, Bool-cases,
}
use sol_gateway_dcc_zk_proof.Messages.{SolanaDepositEvent}
use sol_gateway_dcc_zk_proof.SolanaWatcher.Polling.{
  SolanaWatcher, add_event, add_events, advance_cursor,
}

abbrev pub IsPending : Text → SolanaWatcher → Type 0
IsPending id w = HasKey id w.pending_events true

add_event-keeps :
    (k : Text) (event : SolanaDepositEvent) (w : SolanaWatcher)
    → IsPending k w
    → IsPending k (add_event event w)
unfolding add_event
add_event-keeps k event w h =
    elim (Bool-cases (is_some (map_get event.transfer_id w.pending_events))) [
      | inl old ↦ rw old h
      | inr new ↦ rw new (HasKey-map_set k event.transfer_id event w.pending_events h)
    ]

add_event-takes :
    (event : SolanaDepositEvent) (w : SolanaWatcher)
    → IsPending event.transfer_id (add_event event w)
unfolding add_event
add_event-takes event w = elim (Bool-cases (is_some (map_get event.transfer_id w.pending_events))) [
  | inl old ↦ rw (old, old) refl
  | inr new ↦ rw (new, map_get-map_set event.transfer_id event w.pending_events) refl
]

pub add_events-keeps :
    (k : Text) (events : List SolanaDepositEvent) (w : SolanaWatcher)
    → IsPending k w
    → IsPending k (add_events events w)
unfolding add_events
add_events-keeps k [] w h = h
add_events-keeps k (event ∷ events) w h =
    add_events-keeps k events (add_event event w) (add_event-keeps k event w h)

pub add_events-takes :
    (event : SolanaDepositEvent) (events : List SolanaDepositEvent) (j : ℕ) (w : SolanaWatcher)
    → get_elem? events j ≡ some event
    → IsPending event.transfer_id (add_events events w)
unfolding add_events
add_events-takes event [] j w found = cc found
add_events-takes event (e ∷ events) zero w found =
    let same : e ≡ event = cc found in
    rw same
      (add_events-keeps event.transfer_id events (add_event event w) (add_event-takes event w))
add_events-takes event (e ∷ events) (suc j) w found =
    add_events-takes event events j (add_event e w) found

pub advance_cursor-keeps :
    (disk_ok : Bool) (signature k : Text) (w : SolanaWatcher)
    → IsPending k w
    → IsPending k (advance_cursor disk_ok signature w)
unfolding advance_cursor
advance_cursor-keeps disk_ok signature k w h = h
