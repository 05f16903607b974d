-- ===== src/Anomalies/Tests.antt =====
-- The detector of monitoring/src/detectors/anomaly-detector.ts on concrete checks.
use sol_gateway_dcc_zk_proof.Base.{ℕ, ◌≡◌, refl, none, some, [], ◌∷◌, ◌++◌, arith, ltb}
use sol_gateway_dcc_zk_proof.Anomalies.State.{MonitorConfig, Detector, new_detector}
use sol_gateway_dcc_zk_proof.Anomalies.Checks.{supply, check_transaction_rate, run_check}
use sol_gateway_dcc_zk_proof.Anomalies.Alerts.{IsLogged, run_check-IsLogged}
use sol_gateway_dcc_zk_proof.Anomalies.Windows.{
  HasRecent, rated, spike_events, check_transaction_rate-rated,
}

abbrev config : MonitorConfig
config = record {
  max_supply_drift_percent = record { num = 1; den = 100 };
  max_hourly_volume = 1000;
  large_transaction_threshold = 500;
  max_transactions_per_minute = 2;
  max_validator_fault_rate = record { num = 1; den = 10 };
  min_active_validators = 3;
  max_block_latency = 60;
  min_chain_progress_ratio = record { num = 1; den = 2 };
  min_fee_payer_transactions = 20;
}

run_check-IsLogged_example : IsLogged [] (run_check (supply 5 1000 1001) (new_detector config 0))
unfolding new_detector
run_check-IsLogged_example = run_check-IsLogged [] (supply 5 1000 1001) (new_detector config 0) refl

check_transaction_rate-rated_example :
    (n : ℕ) × HasRecent 70000 ((5 ∷ 20000 ∷ 30000 ∷ []) ++ 70000 ∷ []) n
    × ((check_transaction_rate 70000 (rated (5 ∷ 20000 ∷ 30000 ∷ []) (new_detector config 0))).1
        ≡ spike_events 70000 (ltb 2 n))
check_transaction_rate-rated_example =
    check_transaction_rate-rated config 0 70000 (5 ∷ 20000 ∷ 30000 ∷ []) (omega arith)

abbrev full : Detector
full = record {
  config = config;
  hourly_volume = 0;
  hourly_volume_reset = 0;
  recent_transactions = [];
  alerts = [];
  previous_chain_check = none;
  previous_vault_balance = some 1000;
  vault_balance_history = [];
  recent_unlocks = [];
}
