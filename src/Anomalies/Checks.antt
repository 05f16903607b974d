-- ===== src/Anomalies/Checks.antt =====
-- The checks of monitoring/src/detectors/anomaly-detector.ts. Times are in milliseconds and one
-- argument of a call; quotients are compared by multiplying out.
use sol_gateway_dcc_zk_proof.Base.{
  ℕ, ◌+◌, ◌-◌, ◌*◌, ◌/◌, Bool, true, false, ◌&&◌, Option, none, some, List, [], ◌∷◌, ◌++◌, length,
  leb, ltb, ◌==◌, if◌then◌else◌,
}
use sol_gateway_dcc_zk_proof.Anomalies.State.{
  raise_if, Fraction, ChainCheck, Entry, Detector, Emitted, warning, critical, emergency,
  supply_invariant, supply_drift, abnormal_volume, large_transaction, rapid_transactions,
  validator_health, validator_faults, chain_sync, chain_desync, vault_depletion, unusual_outflow,
  fee_payer_exhausted, fee_payer_low, pause_event,
}

-- With no locked SOL the drift is not computed.
unfoldable pub check_supply_invariant : ℕ → ℕ → ℕ → Detector → Detector × List Emitted
check_supply_invariant now locked_sol wsol_supply d =
    let drift = d.config.max_supply_drift_percent in
    let drifted =
      ltb 0 locked_sol && ltb (drift.num * locked_sol) ((locked_sol - wsol_supply) * drift.den) in
    if ltb locked_sol wsol_supply
    then raise_if true emergency supply_invariant now true (d, [])
    else raise_if drifted warning supply_drift now false (d, [])

unfoldable pub reset_hour : ℕ → Detector → Detector
reset_hour now d =
    if ltb (d.hourly_volume_reset + 3600000) now
    then record d { hourly_volume = 0; hourly_volume_reset = now }
    else d

unfoldable pub check_volume_anomaly : ℕ → ℕ → Detector → Detector × List Emitted
check_volume_anomaly now amount d =
    let d' = reset_hour now d in
    let counted : Detector = record d' { hourly_volume = d'.hourly_volume + amount } in
    raise_if (ltb d.config.max_hourly_volume counted.hourly_volume) critical abnormal_volume now
      true (counted, [])

unfoldable pub check_large_transaction : ℕ → ℕ → Detector → Detector × List Emitted
check_large_transaction now amount d =
    raise_if (leb d.config.large_transaction_threshold amount) warning large_transaction now false
      (d, [])

-- `filter((t) => now - t < window)`.
unfoldable pub keep_times : ℕ → ℕ → List ℕ → List ℕ
keep_times window now [] = []
keep_times window now (t ∷ ts) =
    let rest = keep_times window now ts in if ltb now (t + window) then t ∷ rest else rest

unfoldable pub keep_entries : ℕ → ℕ → List Entry → List Entry
keep_entries window now [] = []
keep_entries window now (e ∷ es) =
    let rest = keep_entries window now es in
    if ltb now (e.timestamp + window) then e ∷ rest else rest

unfoldable pub check_transaction_rate : ℕ → Detector → Detector × List Emitted
check_transaction_rate now d =
    let recent = keep_times 60000 now (d.recent_transactions ++ now ∷ []) in
    raise_if (ltb d.config.max_transactions_per_minute (length recent)) critical rapid_transactions
      now true (record d { recent_transactions = recent }, [])

unfoldable pub check_validator_health : ℕ → ℕ → Fraction → Detector → Detector × List Emitted
check_validator_health now active_validators fault_rate d =
    let max_rate = d.config.max_validator_fault_rate in
    raise_if (ltb (max_rate.num * fault_rate.den) (fault_rate.num * max_rate.den)) warning
      validator_faults now false
      (raise_if (ltb active_validators d.config.min_active_validators) critical validator_health now
        true (d, []))

-- Since `prev` a chain had `elapsed` milliseconds for a block every `ms_per_block`; it is stalled
-- when that makes `least` blocks and it advanced by less than the ratio of them.
unfoldable pub stalled : Fraction → ℕ → ℕ → ℕ → ℕ → ℕ → Bool
stalled ratio ms_per_block least elapsed prev height =
    leb (least * ms_per_block) elapsed
    && ltb (height * ms_per_block * ratio.den)
        (prev * ms_per_block * ratio.den + elapsed * ratio.num)

unfoldable pub stalled_sol : Fraction → ℕ → ℕ → Option ChainCheck → Bool
unfolding stalled
stalled_sol ratio now sol_slot none = false
stalled_sol ratio now sol_slot (some prev) =
    stalled ratio 400 10 (now - prev.timestamp) prev.sol_slot sol_slot

unfoldable pub stalled_dcc : Fraction → ℕ → ℕ → Option ChainCheck → Bool
unfolding stalled
stalled_dcc ratio now dcc_height none = false
stalled_dcc ratio now dcc_height (some prev) =
    stalled ratio 3000 2 (now - prev.timestamp) prev.dcc_height dcc_height

unfoldable pub check_chain_sync : ℕ → ℕ → ℕ → ℕ → ℕ → Detector → Detector × List Emitted
check_chain_sync now solana_latency dcc_latency sol_slot dcc_height d =
    let ratio = d.config.min_chain_progress_ratio in
    let prev = d.previous_chain_check in
    let (d', emitted) =
      raise_if (stalled_dcc ratio now dcc_height prev) critical chain_desync now true (
        raise_if (stalled_sol ratio now sol_slot prev) critical chain_desync now true (
          raise_if (ltb d.config.max_block_latency dcc_latency) warning chain_sync now false (
            raise_if (ltb d.config.max_block_latency solana_latency) warning chain_sync now false
              (d, [])))) in
    let check : ChainCheck = record {
      timestamp = now;
      sol_slot = sol_slot;
      dcc_height = dcc_height;
    } in
    (record d' { previous_chain_check = some check }, emitted)

-- The balance fell by more than a tenth since the last check.
unfoldable pub fell_fast : Option ℕ → ℕ → Bool
fell_fast none balance = false
fell_fast (some prev) balance = ltb prev ((prev - balance) * 10)

-- At the rate since the oldest entry the vault is empty within `hours`, and is not empty yet.
unfoldable pub empty_within : ℕ → ℕ → ℕ → List Entry → Bool
empty_within hours now balance [] = false
empty_within hours now balance (e ∷ []) = false
empty_within hours now balance (e ∷ e' ∷ es) =
    ltb balance e.amount
    && ltb 360000 (now - e.timestamp)
    && ltb 0 balance
    && ltb (balance * (now - e.timestamp)) (hours * 3600000 * (e.amount - balance))

abbrev pub has_previous : Option ℕ → Bool
has_previous none = false
has_previous (some prev) = true

unfoldable pub check_vault_depletion : ℕ → ℕ → Detector → Detector × List Emitted
check_vault_depletion now balance d =
    let entry : Entry = record { timestamp = now; amount = balance } in
    let history = keep_entries 3600000 now (d.vault_balance_history ++ entry ∷ []) in
    let prev = d.previous_vault_balance in
    let (d', emitted) =
      raise_if (has_previous prev && empty_within 24 now balance history) critical vault_depletion
        now (empty_within 4 now balance history)
        (raise_if (fell_fast prev balance) emergency vault_depletion now true
          (record d { vault_balance_history = history }, [])) in
    (record d' { previous_vault_balance = some balance }, emitted)

unfoldable pub check_unlock_pattern : ℕ → ℕ → Detector → Detector × List Emitted
check_unlock_pattern now amount d =
    let entry : Entry = record { timestamp = now; amount = amount } in
    let recent = keep_entries 600000 now (d.recent_unlocks ++ entry ∷ []) in
    raise_if (ltb 10 (length recent)) critical unusual_outflow now true
      (record d { recent_unlocks = recent }, [])

-- A fee of 0 leaves no transactions.
unfoldable pub remaining_transactions : ℕ → ℕ → ℕ
remaining_transactions balance fee_per_tx = if ltb 0 fee_per_tx then balance / fee_per_tx else 0

unfoldable pub check_fee_payer_balance : ℕ → ℕ → ℕ → Detector → Detector × List Emitted
check_fee_payer_balance now balance fee_per_tx d =
    let remaining = remaining_transactions balance fee_per_tx in
    if remaining == 0
    then raise_if true critical fee_payer_exhausted now false (d, [])
    else raise_if (ltb remaining d.config.min_fee_payer_transactions) warning fee_payer_low now
        false (d, [])

unfoldable pub check_pause_event : ℕ → Bool → Detector → Detector × List Emitted
check_pause_event now is_paused d =
    raise_if true (if is_paused then critical else warning) pause_event now false (d, [])

-- The calls of the detector.
pub data Check : Type 0 where
  supply : ℕ → ℕ → ℕ → Check
  volume : ℕ → ℕ → Check
  large : ℕ → ℕ → Check
  rate : ℕ → Check
  health : ℕ → ℕ → Fraction → Check
  sync : ℕ → ℕ → ℕ → ℕ → ℕ → Check
  vault : ℕ → ℕ → Check
  unlocked : ℕ → ℕ → Check
  fees : ℕ → ℕ → ℕ → Check
  paused : ℕ → Bool → Check

unfoldable pub run_check : Check → Detector → Detector × List Emitted
run_check (supply now locked_sol wsol_supply) d =
    check_supply_invariant now locked_sol wsol_supply d
run_check (volume now amount) d = check_volume_anomaly now amount d
run_check (large now amount) d = check_large_transaction now amount d
run_check (rate now) d = check_transaction_rate now d
run_check (health now active faults) d = check_validator_health now active faults d
run_check (sync now sol_latency dcc_latency slot height) d =
    check_chain_sync now sol_latency dcc_latency slot height d
run_check (vault now balance) d = check_vault_depletion now balance d
run_check (unlocked now amount) d = check_unlock_pattern now amount d
run_check (fees now balance fee) d = check_fee_payer_balance now balance fee d
run_check (paused now is_paused) d = check_pause_event now is_paused d
