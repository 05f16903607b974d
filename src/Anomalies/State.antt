-- ===== src/Anomalies/State.antt =====
-- The configuration, the alerts and the state of monitoring/src/detectors/anomaly-detector.ts. A rate
-- that the code keeps as a float is an exact fraction. Of an alert, the texts (id, message, data) are
-- left out.
use sol_gateway_dcc_zk_proof.Base.{
  ℕ, Bool, Option, none, List, [], ◌∷◌, ◌++◌, length, last_entries, ltb, if◌then◌else◌,
}

pub record Fraction : Type 0 where
  pub num : ℕ
  pub den : ℕ

pub record MonitorConfig : Type 0 where
  pub max_supply_drift_percent : Fraction
  pub max_hourly_volume : ℕ
  pub large_transaction_threshold : ℕ
  pub max_transactions_per_minute : ℕ
  pub max_validator_fault_rate : Fraction
  pub min_active_validators : ℕ
  pub max_block_latency : ℕ
  pub min_chain_progress_ratio : Fraction
  pub min_fee_payer_transactions : ℕ

pub data Severity : Type 0 where
  info warning critical emergency : Severity

pub data Category : Type 0 where
  supply_invariant supply_drift abnormal_volume large_transaction rapid_transactions : Category
  validator_health validator_faults chain_sync chain_desync vault_depletion : Category
  unusual_outflow fee_payer_exhausted fee_payer_low pause_event : Category

pub record AnomalyAlert : Type 0 where
  pub severity : Severity
  pub category : Category
  pub timestamp : ℕ
  pub auto_pause : Bool

pub record ChainCheck : Type 0 where
  pub timestamp : ℕ
  pub sol_slot : ℕ
  pub dcc_height : ℕ

-- A balance or an amount, and its time.
pub record Entry : Type 0 where
  pub timestamp : ℕ
  pub amount : ℕ

pub record Detector : Type 0 where
  pub config : MonitorConfig
  pub hourly_volume : ℕ
  pub hourly_volume_reset : ℕ
  pub recent_transactions : List ℕ
  pub alerts : List AnomalyAlert
  pub previous_chain_check : Option ChainCheck
  pub previous_vault_balance : Option ℕ
  pub vault_balance_history : List Entry
  pub recent_unlocks : List Entry

pub data Emitted : Type 0 where
  alert_event : AnomalyAlert → Emitted
  auto_pause_event : AnomalyAlert → Emitted

abbrev pub max_alerts : ℕ
max_alerts = 1000

unfoldable pub new_detector : MonitorConfig → ℕ → Detector
new_detector config now = record {
  config = config;
  hourly_volume = 0;
  hourly_volume_reset = now;
  recent_transactions = [];
  alerts = [];
  previous_chain_check = none;
  previous_vault_balance = none;
  vault_balance_history = [];
  recent_unlocks = [];
}

unfoldable pub raise_alert : AnomalyAlert → Detector × List Emitted → Detector × List Emitted
raise_alert alert (d, emitted) =
    let alerts = d.alerts ++ alert ∷ [] in
    let kept = if ltb max_alerts (length alerts) then last_entries max_alerts alerts else alerts in
    let events =
      if alert.auto_pause
      then alert_event alert ∷ auto_pause_event alert ∷ []
      else alert_event alert ∷ [] in
    (record d { alerts = kept }, emitted ++ events)

-- `if (test) this.raiseAlert(…)`.
unfoldable pub raise_if :
    Bool → Severity → Category → ℕ → Bool → Detector × List Emitted → Detector × List Emitted
unfolding raise_alert
raise_if test severity category now auto_pause s =
    let raised =
      raise_alert
        (record {
          severity = severity;
          category = category;
          timestamp = now;
          auto_pause = auto_pause;
        })
        s in
    if test then raised else s
