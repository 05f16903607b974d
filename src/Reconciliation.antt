-- ===== src/Reconciliation.antt =====
-- monitoring/src/reconciliation.ts: one cycle of the balance reconciliation (`reconcile`). What the
-- two chains answer is an argument; none stands for an error thrown while it is fetched. The metrics,
-- the drift in percent and the texts of the alerts are left out.
pub mod Solvency
mod Tests
use sol_gateway_dcc_zk_proof.Base.{
  ℕ, zero, suc, ◌+◌, ◌-◌, ◌*◌, Bool, true, false, Option, none, some, List, [], ◌∷◌, ◌++◌, length,
  drop, leb, ltb, if◌then◌else◌,
}
use sol_gateway_dcc_zk_proof.Encoding.{Signed, pos, negsuc}

pub record ReconciliationConfig : Type 0 where
  pub warn_drift_lamports : ℕ
  pub critical_drift_lamports : ℕ

pub data Status : Type 0 where
  ok warn critical error : Status

-- What `fetchSolanaState` and `fetchDccState` return.
pub record ChainData : Type 0 where
  pub vault_balance : ℕ
  pub total_locked : ℕ
  pub total_unlocked : ℕ
  pub total_minted : ℕ
  pub total_burned : ℕ

pub record Snapshot : Type 0 where
  pub timestamp : ℕ
  pub totals : ChainData
  pub sol_net_locked : Signed
  pub dcc_net_supply : Signed
  pub drift : Signed
  pub status : Status

abbrev pub sol_to_wsol_divisor : ℕ
sol_to_wsol_divisor = 10

-- `a - b` of bigints.
unfoldable pub difference : ℕ → ℕ → Signed
difference a b = if ltb a b then negsuc (b - a - 1) else pos (a - b)

-- `dccNetSupply * 10 - netLocked`, with what is subtracted on the two sides brought together.
unfoldable pub drift_of : ChainData → Signed
unfolding difference
drift_of c =
    difference (c.total_minted * sol_to_wsol_divisor + c.total_unlocked)
      (c.total_burned * sol_to_wsol_divisor + c.total_locked)

-- The three tiers: `drift > 0` and critical, `drift > 0` and a warning, `drift < 0` and a warning.
unfoldable pub drift_status : ReconciliationConfig → Signed → Status
drift_status config (pos zero) = ok
drift_status config (pos (suc n)) =
    if leb config.critical_drift_lamports (suc n)
    then critical
    else if leb config.warn_drift_lamports (suc n)
    then warn
    else ok
drift_status config (negsuc n) = if leb config.warn_drift_lamports (suc n) then warn else ok

-- A vault with less than the net locked amount is critical, whatever the drift.
unfoldable pub status_of : ReconciliationConfig → ChainData → Status
unfolding drift_of drift_status
status_of config c =
    if ltb (c.vault_balance + c.total_unlocked) c.total_locked
    then critical
    else drift_status config (drift_of c)

unfoldable pub snapshot_of : ReconciliationConfig → ℕ → Option ChainData → Snapshot
unfolding status_of
snapshot_of config now none = record {
  timestamp = now;
  totals = record {
    vault_balance = 0;
    total_locked = 0;
    total_unlocked = 0;
    total_minted = 0;
    total_burned = 0;
  };
  sol_net_locked = pos 0;
  dcc_net_supply = pos 0;
  drift = pos 0;
  status = error;
}
snapshot_of config now (some c) = record {
  timestamp = now;
  totals = c;
  sol_net_locked = difference c.total_locked c.total_unlocked;
  dcc_net_supply = difference c.total_minted c.total_burned;
  drift = drift_of c;
  status = status_of config c;
}

-- `push`, then `shift` above 1000.
unfoldable pub record_snapshot : Snapshot → List Snapshot → List Snapshot
record_snapshot s history =
    let grown = history ++ s ∷ [] in if ltb 1000 (length grown) then drop 1 grown else grown

-- The level of the alert that is sent.
unfoldable pub alert_level : Status → Option Status
alert_level critical = some critical
alert_level warn = some warn
alert_level ok = none
alert_level error = none

unfoldable pub reconcile :
    ReconciliationConfig → ℕ → Option ChainData → List Snapshot → List Snapshot × Option Status
unfolding snapshot_of
reconcile config now fetched history =
    let s = snapshot_of config now fetched in (record_snapshot s history, alert_level s.status)
