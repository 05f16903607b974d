-- ===== src/Anomalies/Alerts.antt =====
-- The alerts that the detector of monitoring/src/detectors/anomaly-detector.ts keeps and emits.
use mathlib.Core.List.{append_assoc, append-nil}
use sol_gateway_dcc_zk_proof.Base.{
  ℕ, zero, suc, ◌+◌, ◌-◌, ◌≤◌, ◌≡◌, refl, ap, ◌∙◌, inl, inr, Bool, true, false, List, [], ◌∷◌, ◌++◌,
  length, length-append, drop, last_entries, length-drop, ltb, leb, if◌then◌else◌, Bool-cases,
  arith,
}
use sol_gateway_dcc_zk_proof.Anomalies.State.{
  Detector, AnomalyAlert, Severity, Category, Emitted, alert_event, auto_pause_event, max_alerts,
  raise_alert, raise_if,
}
use sol_gateway_dcc_zk_proof.Anomalies.Checks.{
  Check, supply, volume, large, rate, health, sync, vault, unlocked, fees, paused, run_check,
  reset_hour, check_supply_invariant, check_volume_anomaly, check_large_transaction,
  check_transaction_rate, check_validator_health, check_chain_sync, check_vault_depletion,
  check_unlock_pattern, check_fee_payer_balance, check_pause_event,
}

-- The alerts among what is emitted.
abbrev pub alerts_of : List Emitted → List AnomalyAlert
alerts_of [] = []
alerts_of (alert_event a ∷ es) = a ∷ alerts_of es
alerts_of (auto_pause_event a ∷ es) = alerts_of es

-- The alerts that ask for a pause, and those that the pauses are emitted for.
abbrev pub pauses_of : List Emitted → List AnomalyAlert
pauses_of [] = []
pauses_of (alert_event a ∷ es) = pauses_of es
pauses_of (auto_pause_event a ∷ es) = a ∷ pauses_of es

abbrev pub asking : List AnomalyAlert → List AnomalyAlert
asking [] = []
asking (a ∷ as') = let rest = asking as' in if a.auto_pause then a ∷ rest else rest

-- The detector keeps the last alerts of those before it and those emitted, and it emits a pause for
-- the alerts that ask for one, in order.
pub record IsLogged (before : List AnomalyAlert) (s : Detector × List Emitted) : Type 0 where
  pub kept : s.0.alerts ≡ last_entries max_alerts (before ++ alerts_of s.1)
  pub pauses : pauses_of s.1 ≡ asking (alerts_of s.1)

alerts_of-append : (xs ys : List Emitted) → alerts_of (xs ++ ys) ≡ alerts_of xs ++ alerts_of ys
alerts_of-append [] ys = refl
alerts_of-append (alert_event a ∷ xs) ys = ap (λ as'. a ∷ as') (alerts_of-append xs ys)
alerts_of-append (auto_pause_event a ∷ xs) ys = alerts_of-append xs ys

pauses_of-append : (xs ys : List Emitted) → pauses_of (xs ++ ys) ≡ pauses_of xs ++ pauses_of ys
pauses_of-append [] ys = refl
pauses_of-append (alert_event a ∷ xs) ys = pauses_of-append xs ys
pauses_of-append (auto_pause_event a ∷ xs) ys = ap (λ as'. a ∷ as') (pauses_of-append xs ys)

asking-append : (xs ys : List AnomalyAlert) → asking (xs ++ ys) ≡ asking xs ++ asking ys
asking-append [] ys = refl
asking-append (a ∷ xs) ys = elim (Bool-cases a.auto_pause) [
  | inl asks ↦ rw (asks, asking-append xs ys)
  | inr silent ↦ rw (silent, asking-append xs ys)
]

module _ {ℓ} {A : Type ℓ} where
  drop-append-le : (n : ℕ) (xs ys : List A) → n ≤ length xs → drop n (xs ++ ys) ≡ drop n xs ++ ys
  drop-append-le zero xs ys h = refl
  drop-append-le (suc n) [] ys h = absurd (omega arith)
  drop-append-le (suc n) (x ∷ xs) ys h = drop-append-le n xs ys (omega arith)

  drop-drop-1 : (n : ℕ) (xs : List A) → drop 1 (drop n xs) ≡ drop (suc n) xs
  drop-drop-1 zero xs = refl
  drop-drop-1 (suc n) [] = refl
  drop-drop-1 (suc n) (x ∷ xs) = drop-drop-1 n xs

  -- To keep the last entries at each step is to keep them at the end.
  last_entries-push :
      (k : ℕ) (xs : List A) (a : A)
      → last_entries (suc k) (last_entries (suc k) xs ++ a ∷ [])
        ≡ last_entries (suc k) (xs ++ a ∷ [])
  last_entries-push k xs a =
      let m = length xs - suc k in
      let sizes : (length (drop m xs ++ a ∷ []) ≡ length (drop m xs) + 1)
          × (length (xs ++ a ∷ []) ≡ length xs + 1) =
        omega (arith, length-append (drop m xs) (a ∷ []), length-append xs (a ∷ [])) in
      let left : length (drop m xs) ≡ length xs - m = length-drop m xs in
      elim (Bool-cases (leb (suc k) (length xs))) [
        | inl long ↦
            let one : length (drop m xs ++ a ∷ []) - suc k ≡ 1 =
              ground (arith, long, sizes, left) in
            let next : length (xs ++ a ∷ []) - suc k ≡ suc m = ground (arith, long, sizes, left) in
            rw (one, next, ← drop-append-le m xs (a ∷ []) (omega arith))
              (drop-drop-1 m (xs ++ a ∷ []))
        | inr short ↦ let none' : m ≡ 0 = ground (arith, short) in rw none' refl
      ]

  capped :
      (k : ℕ) (xs : List A)
      → (if ltb k (length xs) then last_entries k xs else xs) ≡ last_entries k xs
  capped k xs = elim (Bool-cases (ltb k (length xs))) [
    | inl many ↦ rw many
    | inr few ↦ let all : length xs - k ≡ 0 = ground (arith, few) in rw (few, all) refl
  ]

module _ (before : List AnomalyAlert) where
  idle : (d : Detector) → d.alerts ≡ last_entries max_alerts before → IsLogged before (d, [])
  idle d h = record { kept = rw (append-nil before) h; pauses = refl }

  raise_alert-IsLogged :
      (a : AnomalyAlert) (s : Detector × List Emitted)
      → IsLogged before s
      → IsLogged before (raise_alert a s)
  unfolding raise_alert
  raise_alert-IsLogged a (d, es) h =
      let now : List Emitted =
        if a.auto_pause then alert_event a ∷ auto_pause_event a ∷ [] else alert_event a ∷ [] in
      let one : alerts_of now ≡ a ∷ [] = by_flag a in
      let asked : pauses_of now ≡ asking (a ∷ []) = asked_by a in
      record {
        kept =
            rw
              (
                capped max_alerts (d.alerts ++ a ∷ []),
                alerts_of-append es now,
                one,
                h.kept,
                last_entries-push 999 (before ++ alerts_of es) a,
              )
              (ap (last_entries max_alerts) (append_assoc before (alerts_of es) (a ∷ [])));
        pauses = rw (
          pauses_of-append es now,
          alerts_of-append es now,
          one,
          asked,
          asking-append (alerts_of es) (a ∷ []),
          h.pauses,
        );
      }
    where
      by_flag :
          (a : AnomalyAlert)
          → alerts_of
              (if a.auto_pause then alert_event a ∷ auto_pause_event a ∷ [] else alert_event a ∷ [])
            ≡ a ∷ []
      by_flag a = elim (Bool-cases a.auto_pause) [ inl asks ↦ rw asks | inr silent ↦ rw silent ]

      asked_by :
          (a : AnomalyAlert)
          → pauses_of
              (if a.auto_pause then alert_event a ∷ auto_pause_event a ∷ [] else alert_event a ∷ [])
            ≡ asking (a ∷ [])
      asked_by a = elim (Bool-cases a.auto_pause) [ inl asks ↦ rw asks | inr silent ↦ rw silent ]

  raise_if-IsLogged :
      (test : Bool) (severity : Severity) (category : Category) (now : ℕ) (auto_pause : Bool)
      (s : Detector × List Emitted)
      → IsLogged before s
      → IsLogged before (raise_if test severity category now auto_pause s)
  unfolding raise_if
  raise_if-IsLogged true severity category now auto_pause s h =
      raise_alert-IsLogged
        (record {
          severity = severity;
          category = category;
          timestamp = now;
          auto_pause = auto_pause;
        })
        s h
  raise_if-IsLogged false severity category now auto_pause s h = h

  either-IsLogged :
      (b : Bool) (s t : Detector × List Emitted)
      → IsLogged before s
      → IsLogged before t
      → IsLogged before (if b then s else t)
  either-IsLogged true s t hs ht = hs
  either-IsLogged false s t hs ht = ht

  reset_hour-alerts : (now : ℕ) (d : Detector) → (reset_hour now d).alerts ≡ d.alerts
  unfolding reset_hour
  reset_hour-alerts now d = elim (Bool-cases (ltb (d.hourly_volume_reset + 3600000) now)) [
    | inl over ↦ rw over refl
    | inr within ↦ rw within refl
  ]

  -- From a detector that keeps the last alerts raised so far, every check leaves one that does, and
  -- emits a pause for exactly the alerts that ask for one, in order.
  pub run_check-IsLogged :
      (c : Check) (d : Detector)
      → d.alerts ≡ last_entries max_alerts before
      → IsLogged before (run_check c d)
  unfolding run_check check_supply_invariant check_volume_anomaly check_large_transaction
      check_transaction_rate check_validator_health check_chain_sync check_vault_depletion
      check_unlock_pattern check_fee_payer_balance check_pause_event
  run_check-IsLogged (supply now locked_sol wsol_supply) d h =
      either-IsLogged _ _ _ (raise_if-IsLogged _ _ _ _ _ _ (idle d h))
        (raise_if-IsLogged _ _ _ _ _ _ (idle d h))
  run_check-IsLogged (volume now amount) d h =
      raise_if-IsLogged _ _ _ _ _ _ (idle _ (reset_hour-alerts now d ∙ h))
  run_check-IsLogged (large now amount) d h = raise_if-IsLogged _ _ _ _ _ _ (idle d h)
  run_check-IsLogged (rate now) d h = raise_if-IsLogged _ _ _ _ _ _ (idle _ h)
  run_check-IsLogged (health now active faults) d h =
      raise_if-IsLogged _ _ _ _ _ _ (raise_if-IsLogged _ _ _ _ _ _ (idle d h))
  run_check-IsLogged (sync now sol_latency dcc_latency slot height) d h =
      let s = raise_if-IsLogged _ _ _ _ _ _ (
        raise_if-IsLogged _ _ _ _ _ _
          (raise_if-IsLogged _ _ _ _ _ _ (raise_if-IsLogged _ _ _ _ _ _ (idle d h)))) in
      record { kept = s.kept; pauses = s.pauses }
  run_check-IsLogged (vault now balance) d h =
      let s = raise_if-IsLogged _ _ _ _ _ _ (raise_if-IsLogged _ _ _ _ _ _ (idle _ h)) in
      record { kept = s.kept; pauses = s.pauses }
  run_check-IsLogged (unlocked now amount) d h = raise_if-IsLogged _ _ _ _ _ _ (idle _ h)
  run_check-IsLogged (fees now balance fee) d h =
      either-IsLogged _ _ _ (raise_if-IsLogged _ _ _ _ _ _ (idle d h))
        (raise_if-IsLogged _ _ _ _ _ _ (idle d h))
  run_check-IsLogged (paused now is_paused) d h = raise_if-IsLogged _ _ _ _ _ _ (idle d h)
