-- ===== src/Reconciliation/Tests.antt =====
-- The reconciliation of monitoring/src/reconciliation.ts on concrete balances.
use sol_gateway_dcc_zk_proof.Base.{◌≡◌, ◌↔◌, inr, some, [], arith}
use sol_gateway_dcc_zk_proof.Encoding.{pos}
use sol_gateway_dcc_zk_proof.Reconciliation.{
  ReconciliationConfig, ChainData, Snapshot, ok, critical, status_of, reconcile,
}
use sol_gateway_dcc_zk_proof.Reconciliation.Solvency.{
  IsBalanced, status_of-IsBalanced, reconcile-critical,
}

abbrev config : ReconciliationConfig
config = record { warn_drift_lamports = 100; critical_drift_lamports = 1000 }

-- A supply of 500 wSOL units, 5000 lamports, against 3500 net locked.
abbrev unbacked : ChainData
unbacked = record {
  vault_balance = 3500;
  total_locked = 4000;
  total_unlocked = 500;
  total_minted = 600;
  total_burned = 100;
}

abbrev snapshot : Snapshot
snapshot = record {
  timestamp = 1;
  totals = unbacked;
  sol_net_locked = pos 3500;
  dcc_net_supply = pos 500;
  drift = pos 1500;
  status = critical;
}

-- A supply of 355 wSOL units, 3550 lamports, against 3500 net locked.
abbrev backed : ChainData
backed = record unbacked { total_minted = 455 }

status_of-IsBalanced_example : (status_of config backed ≡ ok) ↔ IsBalanced config backed
status_of-IsBalanced_example = status_of-IsBalanced config backed (omega arith)

backed-IsBalanced : IsBalanced config backed
backed-IsBalanced = record { covered = omega arith; backed = omega arith; minted = omega arith }

unbacked-fails : ¬ IsBalanced config unbacked
unbacked-fails b = let m = b.backed in omega arith

reconcile-critical_example : (reconcile config 7 (some unbacked) []).1 ≡ some critical
reconcile-critical_example =
    reconcile-critical config 7 unbacked [] (omega arith) (inr (omega arith))
