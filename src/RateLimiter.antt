-- ===== src/RateLimiter.antt =====
-- validator/src/utils/rate-limiter.ts. Time is an argument of each call, in milliseconds; the state
-- file is the field `disk`, and `disk_ok` says whether a write of it succeeds.
pub mod Window
pub mod Restart
mod Tests
use sol_gateway_dcc_zk_proof.Base.{
  ℕ, ◌+◌, ◌*◌, ◌≤◌, Bool, true, false, Option, none, some, leb, ltb, ◌==◌, ◌&&◌, not, if◌then◌else◌,
}

pub record RateLimiterConfig : Type 0 where
  pub max_daily_outflow_lamports : ℕ
  pub max_single_tx_lamports : ℕ
  pub min_deposit_lamports : ℕ

-- What `persistState` writes.
pub record SavedState : Type 0 where
  pub daily_outflow : ℕ
  pub window_start : ℕ

pub record RateLimiter : Type 0 where
  pub config : RateLimiterConfig
  pub daily_outflow : ℕ
  pub window_start : ℕ
  pub disk : Option SavedState

abbrev pub window_ms : ℕ
window_ms = 24 * 60 * 60 * 1000

-- A failed write is ignored.
unfoldable pub persist_state : Bool → RateLimiter → RateLimiter
persist_state disk_ok r =
    if disk_ok
    then record r {
      disk = some (record { daily_outflow = r.daily_outflow; window_start = r.window_start });
    }
    else r

-- `now - windowStart >= WINDOW_MS`.
unfoldable pub maybe_reset_window : ℕ → Bool → RateLimiter → RateLimiter
unfolding persist_state
maybe_reset_window now disk_ok r =
    if leb (r.window_start + window_ms) now
    then persist_state disk_ok (record r { daily_outflow = 0; window_start = now })
    else r

-- `dailyOutflow` is saved as a text, which is never empty; a `windowStart` of 0 is falsy.
unfoldable pub load_state : ℕ → Option SavedState → RateLimiter → RateLimiter
load_state now none r = r
load_state now (some saved) r =
    if not (saved.window_start == 0) && ltb now (saved.window_start + window_ms)
    then record r { daily_outflow = saved.daily_outflow; window_start = saved.window_start }
    else r

-- The constructor, with the state file as it was left.
unfoldable pub new_rate_limiter : RateLimiterConfig → ℕ → Option SavedState → RateLimiter
unfolding load_state
new_rate_limiter config now disk =
    load_state now disk
      (record { config = config; daily_outflow = 0; window_start = now; disk = disk })

-- `tryConsume` and `consume` have the same body.
unfoldable pub try_consume : ℕ → Bool → ℕ → RateLimiter → RateLimiter × Bool
unfolding maybe_reset_window
try_consume now disk_ok amount r =
    let r' = maybe_reset_window now disk_ok r in
    if ltb r'.config.max_daily_outflow_lamports (r'.daily_outflow + amount)
    then (r', false)
    else (persist_state disk_ok (record r' { daily_outflow = r'.daily_outflow + amount }), true)

unfoldable pub can_consume : ℕ → Bool → ℕ → RateLimiter → RateLimiter × Bool
unfolding maybe_reset_window
can_consume now disk_ok amount r =
    let r' = maybe_reset_window now disk_ok r in
    (r', leb (r'.daily_outflow + amount) r'.config.max_daily_outflow_lamports)

unfoldable pub consume : ℕ → Bool → ℕ → RateLimiter → RateLimiter × Bool
unfolding maybe_reset_window
consume now disk_ok amount r =
    let r' = maybe_reset_window now disk_ok r in
    if ltb r'.config.max_daily_outflow_lamports (r'.daily_outflow + amount)
    then (r', false)
    else (persist_state disk_ok (record r' { daily_outflow = r'.daily_outflow + amount }), true)

unfoldable pub check_single_tx : ℕ → RateLimiter → Bool
check_single_tx amount r = leb amount r.config.max_single_tx_lamports

unfoldable pub check_min_deposit : ℕ → RateLimiter → Bool
check_min_deposit amount r = leb r.config.min_deposit_lamports amount
