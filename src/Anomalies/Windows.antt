-- ===== src/Anomalies/Windows.antt =====
-- The sliding windows of monitoring/src/detectors/anomaly-detector.ts, over all the calls made.
use sol_gateway_dcc_zk_proof.Base.{
  ℕ, suc, ◌+◌, ◌-◌, ◌*◌, ◌≤◌, ◌<◌, ◌≡◌, refl, sym, ap, ◌∙◌, inl, inr, Bool, true, false, ◌&&◌, some,
  List, [], ◌∷◌, ◌++◌, length, ltb, lt→ltb, if◌then◌else◌, Bool-cases, arith,
}
use mathlib.Core.List.{append_assoc, append-nil}
use sol_gateway_dcc_zk_proof.Anomalies.State.{
  Detector, MonitorConfig, AnomalyAlert, Emitted, alert_event, auto_pause_event, critical,
  emergency, rapid_transactions, vault_depletion, new_detector, raise_alert, raise_if, Entry,
}
use sol_gateway_dcc_zk_proof.Anomalies.Checks.{
  keep_times, keep_entries, check_transaction_rate, fell_fast, has_previous, empty_within,
  check_vault_depletion,
}

keep_times-append :
    (w now : ℕ) (xs ys : List ℕ)
    → keep_times w now (xs ++ ys) ≡ keep_times w now xs ++ keep_times w now ys
unfolding keep_times
keep_times-append w now [] ys = refl
keep_times-append w now (x ∷ xs) ys = elim (Bool-cases (ltb now (x + w))) [
  | inl recent ↦ rw (recent, keep_times-append w now xs ys)
  | inr old ↦ rw (old, keep_times-append w now xs ys)
]

-- What was dropped earlier would be dropped now.
keep_times-keep_times :
    (w m now : ℕ) (xs : List ℕ)
    → m ≤ now
    → keep_times w now (keep_times w m xs) ≡ keep_times w now xs
unfolding keep_times
keep_times-keep_times w m now [] h = refl
keep_times-keep_times w m now (x ∷ xs) h = elim (Bool-cases (ltb m (x + w))) [
  | inl recent ↦ rw (recent, keep_times, keep_times-keep_times w m now xs h)
  | inr old ↦
      let older : ltb now (x + w) ≡ false = ground (arith, old, h) in
      rw (old, older) (keep_times-keep_times w m now xs h)
]

-- Times that do not go back, from `m` on, and the last of them.
abbrev pub Ascend : ℕ → List ℕ → Type 0
Ascend m [] = Unit
Ascend m (t ∷ ts) = (m ≤ t) × Ascend t ts

abbrev pub last_time : ℕ → List ℕ → ℕ
last_time m [] = m
last_time m (t ∷ ts) = last_time t ts

-- The detector after a call of `checkTransactionRate` at each of the times.
abbrev pub rated : List ℕ → Detector → Detector
rated [] d = d
rated (t ∷ ts) d = rated ts (check_transaction_rate t d).0

raise_if-recent :
    (b : Bool) (d : Detector) (now : ℕ)
    → (raise_if b critical rapid_transactions now true (d, [])).0.recent_transactions
      ≡ d.recent_transactions
unfolding raise_if raise_alert
raise_if-recent true d now = refl
raise_if-recent false d now = refl

raise_if-config :
    (b : Bool) (d : Detector) (now : ℕ)
    → (raise_if b critical rapid_transactions now true (d, [])).0.config ≡ d.config
unfolding raise_if raise_alert
raise_if-config true d now = refl
raise_if-config false d now = refl

rated-recent :
    (ts : List ℕ) (m : ℕ) (past : List ℕ) (d : Detector)
    → Ascend m ts
    → d.recent_transactions ≡ keep_times 60000 m past
    → ((rated ts d).recent_transactions ≡ keep_times 60000 (last_time m ts) (past ++ ts))
      × ((rated ts d).config ≡ d.config)
unfolding check_transaction_rate
rated-recent [] m past d h e = (rw (append-nil past) e, refl)
rated-recent (t ∷ ts) m past d (le, h) e =
    let recent = keep_times 60000 t (d.recent_transactions ++ t ∷ []) in
    let b = ltb d.config.max_transactions_per_minute (length recent) in
    let kept : Detector = record d { recent_transactions = recent } in
    let now : recent ≡ keep_times 60000 t (past ++ t ∷ []) =
      rw
        (
          e,
          keep_times-append 60000 t (keep_times 60000 m past) (t ∷ []),
          keep_times-keep_times 60000 m t past le,
        )
        (sym (keep_times-append 60000 t past (t ∷ []))) in
    let (rest, same) =
      rated-recent ts t (past ++ t ∷ []) (check_transaction_rate t d).0 h
        (raise_if-recent b kept t ∙ now) in
    (
      rest ∙ ap (keep_times 60000 (last_time t ts)) (append_assoc past (t ∷ []) ts),
      same ∙ raise_if-config b kept t,
    )

abbrev pub spike_events : ℕ → Bool → List Emitted
spike_events t over =
    let alert : AnomalyAlert = record {
      severity = critical;
      category = rapid_transactions;
      timestamp = t;
      auto_pause = true;
    } in
    if over then alert_event alert ∷ auto_pause_event alert ∷ [] else []

raise_if-spike :
    (b : Bool) (d : Detector) (t : ℕ)
    → (raise_if b critical rapid_transactions t true (d, [])).1 ≡ spike_events t b
unfolding raise_if raise_alert
raise_if-spike true d t = refl
raise_if-spike false d t = refl

Ascend-split :
    (m t : ℕ) (ts : List ℕ) → Ascend m (ts ++ t ∷ []) → Ascend m ts × (last_time m ts ≤ t)
Ascend-split m t [] h = (tt, h.0)
Ascend-split m t (x ∷ ts) h = let (rest, le) = Ascend-split x t ts h.1 in ((h.0, rest), le)

check_transaction_rate-keep_times :
    (config : MonitorConfig) (start t : ℕ) (ts : List ℕ)
    → Ascend start (ts ++ t ∷ [])
    → (check_transaction_rate t (rated ts (new_detector config start))).1
      ≡ spike_events t
          (ltb config.max_transactions_per_minute (length (keep_times 60000 t (ts ++ t ∷ []))))
unfolding check_transaction_rate new_detector keep_times
check_transaction_rate-keep_times config start t ts h =
    let d = new_detector config start in
    let (before, le) = Ascend-split start t ts h in
    let (recent, same) = rated-recent ts start [] d before refl in
    let now : keep_times 60000 t ((rated ts d).recent_transactions ++ t ∷ [])
        ≡ keep_times 60000 t (ts ++ t ∷ []) =
      rw
        (
          recent,
          keep_times-append 60000 t (keep_times 60000 (last_time start ts) ts) (t ∷ []),
          keep_times-keep_times 60000 (last_time start ts) t ts le,
        )
        (sym (keep_times-append 60000 t ts (t ∷ []))) in
    raise_if-spike _ _ t ∙ ap (spike_events t) (rw (now, same) refl)

-- How many of the times are less than a minute before `t`.
pub data HasRecent (t : ℕ) : List ℕ → ℕ → Type 0 where
  no_times : HasRecent t [] 0
  recent :
      {x : ℕ} {xs : List ℕ} {n : ℕ}
      → t < x + 60000
      → HasRecent t xs n
      → HasRecent t (x ∷ xs) (suc n)
  past : {x : ℕ} {xs : List ℕ} {n : ℕ} → x + 60000 ≤ t → HasRecent t xs n → HasRecent t (x ∷ xs) n

keep_times-HasRecent : (t : ℕ) (xs : List ℕ) → HasRecent t xs (length (keep_times 60000 t xs))
unfolding keep_times
keep_times-HasRecent t [] = no_times
keep_times-HasRecent t (x ∷ xs) = elim (Bool-cases (ltb t (x + 60000))) [
  | inl new ↦ rw new (recent (ground (arith, new)) (keep_times-HasRecent t xs))
  | inr old ↦ rw old (past (ground (arith, old)) (keep_times-HasRecent t xs))
]

-- After calls at times that do not go back, a further call emits a critical alert with a pause
-- exactly when more calls than allowed, it included, were made less than a minute before it, and
-- nothing else otherwise.
pub check_transaction_rate-rated :
    (config : MonitorConfig) (start t : ℕ) (ts : List ℕ)
    → Ascend start (ts ++ t ∷ [])
    → (n : ℕ) × HasRecent t (ts ++ t ∷ []) n
      × ((check_transaction_rate t (rated ts (new_detector config start))).1
          ≡ spike_events t (ltb config.max_transactions_per_minute n))
check_transaction_rate-rated config start t ts h = (
  length (keep_times 60000 t (ts ++ t ∷ [])),
  keep_times-HasRecent t (ts ++ t ∷ []),
  check_transaction_rate-keep_times config start t ts h,
)

raise_if-after :
    (b : Bool) (now : ℕ) (auto_pause : Bool) (s : Detector × List Emitted)
    → (rest : List Emitted) × ((raise_if b critical vault_depletion now auto_pause s).1
        ≡ s.1 ++ rest)
unfolding raise_if raise_alert
raise_if-after true now auto_pause (d, es) = (_, refl)
raise_if-after false now auto_pause (d, es) = ([], sym (append-nil es))

-- A fall of the vault's balance by more than a tenth since the last
-- check emits an emergency alert with a pause, first.
check_vault_depletion-fall :
    (now balance prev : ℕ) (d : Detector)
    → d.previous_vault_balance ≡ some prev
    → prev < (prev - balance) * 10
    → (alert : AnomalyAlert) × (rest : List Emitted) × ((check_vault_depletion now balance d).1
        ≡ alert_event alert ∷ auto_pause_event alert ∷ rest)
      × (alert.severity ≡ emergency)
      × ((check_vault_depletion now balance d).0.previous_vault_balance ≡ some balance)
unfolding check_vault_depletion fell_fast raise_if raise_alert
check_vault_depletion-fall now balance prev d e h =
    let fast : fell_fast d.previous_vault_balance balance ≡ true =
      rw e (lt→ltb prev ((prev - balance) * 10) h) in
    let entry : Entry = record { timestamp = now; amount = balance } in
    let history = keep_entries 3600000 now (d.vault_balance_history ++ entry ∷ []) in
    let first =
      raise_if (fell_fast d.previous_vault_balance balance) emergency vault_depletion now true
        (record d { vault_balance_history = history }, []) in
    let drained = has_previous d.previous_vault_balance && empty_within 24 now balance history in
    let (rest, found) = raise_if-after drained now (empty_within 4 now balance history) first in
    let alert : AnomalyAlert = record {
      severity = emergency;
      category = vault_depletion;
      timestamp = now;
      auto_pause = true;
    } in
    let emitted : first.1 ≡ alert_event alert ∷ auto_pause_event alert ∷ [] = rw fast in
    (alert, rest, found ∙ ap (λ es. es ++ rest) emitted, refl, refl)
