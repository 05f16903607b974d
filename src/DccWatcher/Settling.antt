-- ===== src/DccWatcher/Settling.antt =====
-- A round of the finality loop of validator/src/watchers/dcc-watcher.ts over all pending burns.
use mathlib.Core.List.{append_assoc}
use sol_gateway_dcc_zk_proof.Base.{
  ℕ, ◌+◌, ◌-◌, ◌≤◌, ◌<◌, ◌≡◌, refl, sym, ◌∙◌, subst, inl, inr, Bool, true, false, Option, some,
  List, [], ◌∷◌, ◌++◌, Text, arith, leb, leb→le, map_get, HasDistinctKeys, HasDistinctKeys-front,
  HasDistinctKeys-without, map_get-front, map_delete-front, Bool-cases,
}
use sol_gateway_dcc_zk_proof.Messages.{DccBurnEvent}
use sol_gateway_dcc_zk_proof.DccWatcher.{DccNode, DccWatcherConfig, Watcher}
use sol_gateway_dcc_zk_proof.DccWatcher.Finality.{
  Verdict, burn_finalized, burn_invalidated, verify_burn_on_chain, drop_burn, settle, settle_all,
  check_at, check_finality,
}
use sol_gateway_dcc_zk_proof.DccWatcher.Verdicts.{
  IsConfirmed, verify_burn_on_chain-IsConfirmed, IsConfirmed-verify_burn_on_chain,
}

abbrev pub Burns : Type 0
Burns = List (Text × DccBurnEvent)

-- What becomes of the pending burns at a height: those that are not deep enough stay, the others
-- leave with a verdict each, in order, final exactly if they are confirmed.
pub data Settles (node : DccNode) (secondary : Option DccNode) (required current : ℕ)
    : Burns → Burns → List Verdict → Type 0 where
  all_done : Settles node secondary required current [] [] []
  stays :
      {id : Text} {event : DccBurnEvent} {burns left : Burns} {verdicts : List Verdict}
      → current < event.height + required
      → Settles node secondary required current burns left verdicts
      → Settles node secondary required current ((id, event) ∷ burns) ((id, event) ∷ left) verdicts
  final :
      {id : Text} {event : DccBurnEvent} {burns left : Burns} {verdicts : List Verdict}
      → event.height + required ≤ current
      → IsConfirmed node secondary id event
      → Settles node secondary required current burns left verdicts
      → Settles node secondary required current
          ((id, event) ∷ burns)
          left
          (burn_finalized (record event { confirmations = current - event.height }) ∷ verdicts)
  invalid :
      {id : Text} {event : DccBurnEvent} {burns left : Burns} {verdicts : List Verdict}
      → event.height + required ≤ current
      → ¬ IsConfirmed node secondary id event
      → Settles node secondary required current burns left verdicts
      → Settles node secondary required current
          ((id, event) ∷ burns)
          left
          (burn_invalidated event ∷ verdicts)

module _ (node : DccNode) (secondary : Option DccNode) (required current : ℕ) where
  abbrev verdict_of : Bool → DccBurnEvent → Verdict
  verdict_of true event = burn_finalized (record event { confirmations = current - event.height })
  verdict_of false event = burn_invalidated event

  settle_deep :
      (id : Text) (event : DccBurnEvent) (w : Watcher) (b : Bool)
      → leb (event.height + required) current ≡ true
      → verify_burn_on_chain node secondary id w ≡ b
      → settle node secondary required current id event w
        ≡ (drop_burn node secondary id w, verdict_of b event ∷ [])
  unfolding settle
  settle_deep id event w true deep v = rw (deep, v) refl
  settle_deep id event w false deep v = rw (deep, v) refl

  settle_shallow :
      (id : Text) (event : DccBurnEvent) (w : Watcher)
      → leb (event.height + required) current ≡ false
      → settle node secondary required current id event w ≡ (w, [])
  unfolding settle
  settle_shallow id event w shallow = rw shallow refl

  -- The verdict on a burn that is deep enough and pending.
  judged :
      (id : Text) (event : DccBurnEvent) (burns left : Burns) (verdicts : List Verdict)
      (w : Watcher) (b : Bool)
      → leb (event.height + required) current ≡ true
      → map_get id w.pending_burns ≡ some event
      → verify_burn_on_chain node secondary id w ≡ b
      → Settles node secondary required current burns left verdicts
      → Settles node secondary required current
          ((id, event) ∷ burns)
          left
          (verdict_of b event ∷ verdicts)
  judged id event burns left verdicts w true deep pending v rest =
      final (leb→le _ _ deep) (verify_burn_on_chain-IsConfirmed node secondary id event w pending v)
        rest
  judged id event burns left verdicts w false deep pending v rest =
      invalid (leb→le _ _ deep)
        (λ c. cc (v, IsConfirmed-verify_burn_on_chain node secondary id event w pending c)) rest

  -- What the rounds over some burns make of a watcher.
  record Settled (before burns : Burns) (w : Watcher) (s : Watcher × List Verdict) : Type 0 where
    left : Burns
    state : s.0 ≡ record w { pending_burns = before ++ left }
    settles : Settles node secondary required current burns left s.1

  -- The burns that stay, behind those that stayed before them.
  settle_all-Settled :
      (before burns : Burns) (w : Watcher)
      → w.pending_burns ≡ before ++ burns
      → HasDistinctKeys (before ++ burns)
      → Settled before burns w (settle_all node secondary required current burns w)
  unfolding settle_all
  settle_all-Settled before [] w e d = record {
    left = [];
    state = rw (← e) refl;
    settles = all_done;
  }
  settle_all-Settled before ((id, event) ∷ burns) w e d =
      elim (Bool-cases (leb (event.height + required) current)) [
        | inl deep ↦
            let front = HasDistinctKeys-front before id event burns d in
            let pending : map_get id w.pending_burns ≡ some event =
              rw e (map_get-front before id event burns front) in
            let next = drop_burn node secondary id w in
            let dropped : next.pending_burns ≡ before ++ burns =
              rw e (map_delete-front before id event burns front) in
            let b = verify_burn_on_chain node secondary id w in
            let ih =
              settle_all-Settled before burns next dropped
                (HasDistinctKeys-without before id event burns d) in
            rw (settle_deep id event w b deep refl) (record {
              left = ih.left;
              state = ih.state;
              settles = judged id event burns ih.left _ w b deep pending refl ih.settles;
            })
        | inr shallow ↦
            let grown = before ++ (id, event) ∷ [] in
            let regroup = append_assoc before ((id, event) ∷ []) burns in
            let ih = settle_all-Settled grown burns w (e ∙ sym regroup) (rw regroup d) in
            rw (settle_shallow id event w shallow) (record {
              left = (id, event) ∷ ih.left;
              state = rw (append_assoc before ((id, event) ∷ []) ih.left) at ih.state;
              settles = stays (ground arith) ih.settles;
            })
      ]

-- When the node tells its height and no burn is pending twice, a round of the finality loop changes
-- the pending burns alone: those that lack confirmations stay, and each other one leaves with one
-- verdict, in order, which is final, with its depth, exactly if the burn is confirmed.
pub check_finality-Settles :
    (node : DccNode) (secondary : Option DccNode) (config : DccWatcherConfig) (current : ℕ)
    (w : Watcher)
    → node.height ≡ some current
    → HasDistinctKeys w.pending_burns
    → (left : Burns) × ((check_finality node secondary config w).0
        ≡ record w { pending_burns = left })
      × Settles node secondary config.required_confirmations current w.pending_burns left
          (check_finality node secondary config w).1
unfolding check_finality check_at
check_finality-Settles node secondary config current w e d =
    subst
      (λ height.
        (left : Burns) × ((check_at node secondary config height w).0
          ≡ record w { pending_burns = left })
        × Settles node secondary config.required_confirmations current w.pending_burns left
            (check_at node secondary config height w).1)
      (sym e)
      (let s =
          settle_all-Settled node secondary config.required_confirmations current [] w.pending_burns
            w refl d in
        (s.left, s.state, s.settles))
