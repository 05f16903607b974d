-- ===== src/RateLimiter/Restart.antt =====
-- A limiter of validator/src/utils/rate-limiter.ts made anew from its file.
use sol_gateway_dcc_zk_proof.Base.{ℕ, ◌+◌, ◌<◌, ◌≡◌, true, arith}
use sol_gateway_dcc_zk_proof.RateLimiter.{RateLimiter, window_ms, new_rate_limiter, consume}

-- After a grant whose state was written, a limiter that is made anew from the file before the window
-- ends has the same budget and the same window; time is not 0.
new_rate_limiter-consume :
    (r : RateLimiter) (now later amount : ℕ)
    → 0 < now
    → 0 < r.window_start
    → (consume now true amount r).1 ≡ true
    → later < (consume now true amount r).0.window_start + window_ms
    → let r' = (consume now true amount r).0 in
      ((new_rate_limiter r.config later r'.disk).daily_outflow ≡ r'.daily_outflow)
      × ((new_rate_limiter r.config later r'.disk).window_start ≡ r'.window_start)
unfolding consume new_rate_limiter
new_rate_limiter-consume r now later amount h k granted within = (ground arith, ground arith)
