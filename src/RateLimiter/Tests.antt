-- ===== src/RateLimiter/Tests.antt =====
-- The limiter of validator/src/utils/rate-limiter.ts on a concrete state.
use sol_gateway_dcc_zk_proof.Base.{◌+◌, ◌≡◌, true, false, none, List, [], ◌∷◌, if◌then◌else◌}
use sol_gateway_dcc_zk_proof.RateLimiter.{RateLimiter, consume, can_consume, persist_state}
use sol_gateway_dcc_zk_proof.RateLimiter.Window.{Request, can_consume-consume}

abbrev limiter : RateLimiter
limiter = record {
  config = record {
    max_daily_outflow_lamports = 1000;
    max_single_tx_lamports = 500;
    min_deposit_lamports = 10;
  };
  daily_outflow = 200;
  window_start = 50;
  disk = none;
}

abbrev requests : List Request
requests =
    record { now = 60; disk_ok = true; amount = 700 }
    ∷ record { now = 86400050; disk_ok = false; amount = 900 }
    ∷ record { now = 86400051; disk_ok = true; amount = 900 }
    ∷ []

can_consume-consume_example : consume 60 true 900 limiter ≡ (
    let r' = (can_consume 60 true 900 limiter).0 in
    if (can_consume 60 true 900 limiter).1
    then (persist_state true (record r' { daily_outflow = r'.daily_outflow + 900 }), true)
    else (r', false))
can_consume-consume_example = can_consume-consume 60 900 true limiter
