-- ===== src/DccWatcher/Losses.antt =====
-- validator/src/watchers/dcc-watcher.ts: burns that were seen and are pending no more.
use sol_gateway_dcc_zk_proof.Base.{
  ℕ, ◌≡◌, refl, inl, inr, Bool, true, false, ◌&&◌, ◌||◌, not, Option, none, some, List, [], ◌∷◌,
  Text, length, get_or, ltb, map_get, set_has, set_add, text_eq, is_some, eq_of_text_eq,
  set_has-set_add, set_has-set_add_keeps, HasKey, HasKey-map_set_other, Bool-cases, and_split,
  Option-cases,
}
use sol_gateway_dcc_zk_proof.Messages.{DccBurnEvent}
use sol_gateway_dcc_zk_proof.DccWatcher.{
  StateEntry, DccNode, Watcher, new_watcher, is_burn_key, burn_id_of, split_bars, event_of_parts,
  mark_seen, save_cursor, add_all, load_seen_burns, detect,
}
use sol_gateway_dcc_zk_proof.DccWatcher.Scanning.{seed}
use sol_gateway_dcc_zk_proof.DccWatcher.Sweeping.{
  find_burn_tx_id, sweep_found, sweep_amount, sweep_burn, sweep_value, sweep, or_no_entries,
  reconcile_burns,
}

-- A burn that was seen and is not pending.
pub record IsForgotten (burn_id : Text) (w : Watcher) : Type 0 where
  pub seen : set_has burn_id w.seen_burn_ids ≡ true
  pub gone : HasKey burn_id w.pending_burns false

detect-IsForgotten :
    (disk_ok : Bool) (k burn_id : Text) (event : DccBurnEvent) (w : Watcher)
    → text_eq burn_id k ≡ false
    → IsForgotten k w
    → IsForgotten k (detect disk_ok burn_id event w)
unfolding detect mark_seen
detect-IsForgotten disk_ok k burn_id event w other f = record {
  seen = set_has-set_add_keeps k burn_id w.seen_burn_ids f.seen;
  gone = HasKey-map_set_other k burn_id event w.pending_burns other f.gone;
}

sweep_found-IsForgotten :
    (disk_ok : Bool) (k burn_id : Text) (event : DccBurnEvent) (tx_id : Option Text) (w : Watcher)
    → text_eq burn_id k ≡ false
    → IsForgotten k w
    → IsForgotten k (sweep_found disk_ok burn_id event tx_id w)
unfolding sweep_found
sweep_found-IsForgotten disk_ok k burn_id event none w other f = f
sweep_found-IsForgotten disk_ok k burn_id event (some tx_id) w other f =
    detect-IsForgotten disk_ok k burn_id _ w other f

-- What is not seen is another burn than one that is.
unseen-other :
    (k j : Text) (s : List Text) → set_has k s ≡ true → set_has j s ≡ false → text_eq j k ≡ false
unseen-other k j s seen unseen = elim (Bool-cases (text_eq j k)) [
  | inl same ↦
      let e = eq_of_text_eq j k same in
      let t : set_has k s ≡ false = rw (← e) unseen in cc (seen, t)
  | inr other ↦ other
]

or_false : (a b : Bool) → not (a || b) ≡ true → b ≡ false
or_false true b h = cc h
or_false false true h = cc h
or_false false false h = refl

abbrev IfSome : (Watcher → Type 0) → Option Watcher → Type 0
IfSome P none = Unit
IfSome P (some w) = P w

module _ (big_int : Text → Option ℕ) (parse_int : Text → ℕ) (contract : Text) (disk_ok : Bool)
    (node : DccNode) (k : Text) where
  sweep_amount-IsForgotten :
      (key burn_id : Text) (parts : List Text) (amount : Option ℕ) (w : Watcher)
      → text_eq burn_id k ≡ false
      → IsForgotten k w
      → IfSome
          (IsForgotten k)
          (sweep_amount big_int parse_int contract disk_ok node key burn_id parts amount w)
  unfolding sweep_amount
  sweep_amount-IsForgotten key burn_id parts none w other f = tt
  sweep_amount-IsForgotten key burn_id parts (some amount) w other f =
      let event = event_of_parts big_int parse_int burn_id [] parts amount in
      sweep_found-IsForgotten disk_ok k burn_id event
        (find_burn_tx_id contract node key event.height) w other f

  sweep_burn-IsForgotten :
      (key burn_id value : Text) (w : Watcher)
      → text_eq burn_id k ≡ false
      → IsForgotten k w
      → IfSome
          (IsForgotten k)
          (sweep_burn big_int parse_int contract disk_ok node key burn_id value w)
  unfolding sweep_burn
  sweep_burn-IsForgotten key burn_id value w other f =
      let parts = split_bars value in
      elim (Bool-cases (ltb (length parts) 6)) [
        | inl short ↦ rw short f
        | inr long ↦
            rw long
              (sweep_amount-IsForgotten key burn_id parts (big_int (get_or parts 3 [])) w other f)
      ]

  sweep_value-IsForgotten :
      (key : Text) (value : Option Text) (w : Watcher)
      → IsForgotten k w
      → IfSome (IsForgotten k) (sweep_value big_int parse_int contract disk_ok node key value w)
  unfolding sweep_value
  sweep_value-IsForgotten key none w f = f
  sweep_value-IsForgotten key (some value) w f =
      let burn_id = burn_id_of key in
      let known = is_some (map_get burn_id w.pending_burns) || set_has burn_id w.seen_burn_ids in
      elim (Bool-cases (is_burn_key key && not known)) [
        | inl fresh ↦
            let unseen = or_false _ _ ((and_split (is_burn_key key) (not known) fresh).1) in
            let other = unseen-other k burn_id w.seen_burn_ids f.seen unseen in
            rw fresh (sweep_burn-IsForgotten key burn_id value w other f)
        | inr old ↦ rw old f
      ]

  sweep-IsForgotten :
      (entries : List StateEntry) (w : Watcher)
      → IsForgotten k w
      → IsForgotten k (sweep big_int parse_int contract disk_ok node entries w)
  unfolding sweep
  sweep-IsForgotten [] w f = f
  sweep-IsForgotten (e ∷ entries) w f =
      elim (Option-cases (sweep_value big_int parse_int contract disk_ok node e.key e.value w)) [
        | inl thrown ↦ rw thrown f
        | inr (w', swept) ↦
            rw swept (
              sweep-IsForgotten entries w'
                (rw swept at (sweep_value-IsForgotten e.key e.value w f)))
      ]

  -- A sweep, whatever the node answers, does not take up a burn that was seen.
  reconcile_burns-IsForgotten :
      (w : Watcher)
      → IsForgotten k w
      → IsForgotten k (reconcile_burns big_int parse_int contract disk_ok node w)
  unfolding reconcile_burns
  reconcile_burns-IsForgotten w f = sweep-IsForgotten (or_no_entries node.entries) w f

-- Sweeps with the answers of one node after the other.
abbrev pub sweeps : (Text → Option ℕ) → (Text → ℕ) → Text → Bool → List DccNode → Watcher → Watcher
sweeps big_int parse_int contract disk_ok [] w = w
sweeps big_int parse_int contract disk_ok (node ∷ nodes) w =
    sweeps big_int parse_int contract disk_ok nodes
      (reconcile_burns big_int parse_int contract disk_ok node w)

sweeps-IsForgotten :
    (big_int : Text → Option ℕ) (parse_int : Text → ℕ) (contract : Text) (disk_ok : Bool) (k : Text)
    (nodes : List DccNode) (w : Watcher)
    → IsForgotten k w
    → IsForgotten k (sweeps big_int parse_int contract disk_ok nodes w)
sweeps-IsForgotten big_int parse_int contract disk_ok k [] w f = f
sweeps-IsForgotten big_int parse_int contract disk_ok k (node ∷ nodes) w f =
    sweeps-IsForgotten big_int parse_int contract disk_ok k nodes _
      (reconcile_burns-IsForgotten big_int parse_int contract disk_ok node k w f)

set_has-add_all_keeps :
    (k : Text) (ids s : List Text) → set_has k s ≡ true → set_has k (add_all ids s) ≡ true
set_has-add_all_keeps k [] s h = h
set_has-add_all_keeps k (j ∷ ids) s h =
    set_has-add_all_keeps k ids (set_add j s) (set_has-set_add_keeps k j s h)

set_has-add_all :
    (k : Text) (ids s : List Text) → set_has k ids ≡ true → set_has k (add_all ids s) ≡ true
unfolding set_has
set_has-add_all k [] s h = cc h
set_has-add_all k (j ∷ ids) s h = elim (Bool-cases (text_eq j k)) [
  | inl same ↦
      let e = eq_of_text_eq j k same in
      set_has-add_all_keeps k ids (set_add j s) (rw e (set_has-set_add k s))
  | inr other ↦ set_has-add_all k ids (set_add j s) (rw other at h)
]

seed-IsForgotten :
    (disk_ok : Bool) (tip : ℕ) (k : Text) (cursor : Option ℕ) (seen : List Text)
    → set_has k seen ≡ true
    → IsForgotten k (seed disk_ok tip (new_watcher cursor (some seen)))
unfolding seed new_watcher load_seen_burns save_cursor map_get
seed-IsForgotten true tip k cursor seen h = record {
  seen = set_has-add_all k seen [] h;
  gone = refl;
}
seed-IsForgotten false tip k cursor seen h = record {
  seen = set_has-add_all k seen [] h;
  gone = refl;
}

-- A burn that was detected, and whose id was written to the file of the burns seen, is lost to the
-- sweeps by a restart: whatever the node answers, no sweep after it makes the burn pending again.
pub seed-detect-lost :
    (big_int : Text → Option ℕ) (parse_int : Text → ℕ) (contract : Text) (disk_ok : Bool)
    (nodes : List DccNode) (tip : ℕ) (burn_id : Text) (event : DccBurnEvent) (w : Watcher)
    → let stopped = detect true burn_id event w in
      let restarted = seed disk_ok tip (new_watcher stopped.cursor_file stopped.seen_file) in
      HasKey burn_id (sweeps big_int parse_int contract disk_ok nodes restarted).pending_burns false
unfolding detect mark_seen
seed-detect-lost big_int parse_int contract disk_ok nodes tip burn_id event w =
    (sweeps-IsForgotten big_int parse_int contract disk_ok burn_id nodes _ (
      seed-IsForgotten disk_ok tip burn_id w.cursor_file (set_add burn_id w.seen_burn_ids)
        (set_has-set_add burn_id w.seen_burn_ids))).gone
