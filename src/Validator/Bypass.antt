-- ===== src/Validator/Bypass.antt =====
-- Large deposits and failed submissions in validator/src/main.ts: what they do to the budget.
use sol_gateway_dcc_zk_proof.Base.{
  ℕ, zero, suc, ◌+◌, ◌*◌, ◌≤◌, ◌<◌, ◌≡◌, refl, ap, Bool, true, false, List, [], ◌∷◌, ◌++◌, arith,
  All, map, leb, ltb, le→leb,
}
use sol_gateway_dcc_zk_proof.RateLimiter.{
  RateLimiter, RateLimiterConfig, window_ms, maybe_reset_window, persist_state, can_consume,
  consume,
}
use sol_gateway_dcc_zk_proof.Messages.{SolanaDepositEvent}
use sol_gateway_dcc_zk_proof.Consensus.State.{ConsensusResult, Engine}
use sol_gateway_dcc_zk_proof.Validator.{
  ValidatorConfig, Call, add_deposit, to_zk, on_deposit_finalized, event_amount, begin_submission,
  end_submission,
}

-- Deposits, one after the other, at one time.
pub on_deposits :
    ValidatorConfig
    → Bool
    → ℕ
    → Bool
    → List SolanaDepositEvent
    → RateLimiter
    → RateLimiter × List Call
on_deposits config zk_service now disk_ok [] limiter = (limiter, [])
on_deposits config zk_service now disk_ok (event ∷ events) limiter =
    let (limiter₁, calls) = on_deposit_finalized config zk_service now disk_ok event limiter in
    let (limiter₂, later) = on_deposits config zk_service now disk_ok events limiter₁ in
    (limiter₂, calls ++ later)

-- A large deposit that the limits admit by itself.
pub record IsLarge (config : ValidatorConfig) (limiter : RateLimiter) (event : SolanaDepositEvent)
    : Type 0 where
  pub minimum : config.min_deposit_lamports ≤ event.amount
  pub maximum : event.amount ≤ config.max_single_tx_lamports
  pub large : config.fees.zk_threshold_lamports ≤ event.amount
  pub fits : limiter.daily_outflow + event.amount ≤ limiter.config.max_daily_outflow_lamports

on_deposit_finalized-large :
    (config : ValidatorConfig) (zk_service : Bool) (now : ℕ) (disk_ok : Bool)
    (event : SolanaDepositEvent) (limiter : RateLimiter)
    → now < limiter.window_start + window_ms
    → IsLarge config limiter event
    → on_deposit_finalized config zk_service now disk_ok event limiter
      ≡ (limiter, to_zk zk_service event)
unfolding on_deposit_finalized can_consume maybe_reset_window
on_deposit_finalized-large config zk_service now disk_ok event limiter inside h =
    let a = event.amount in
    let m = h.minimum in
    let x = h.maximum in
    let f = h.fits in
    let not_low : ltb a config.min_deposit_lamports ≡ false = ground arith in
    let not_over : ltb config.max_single_tx_lamports a ≡ false = ground arith in
    let same_window : leb (limiter.window_start + window_ms) now ≡ false = ground arith in
    rw
      (
        same_window,
        not_low,
        not_over,
        le→leb (limiter.daily_outflow + a) limiter.config.max_daily_outflow_lamports f,
        le→leb config.fees.zk_threshold_lamports a h.large,
      )
      refl

-- Within a window, large deposits never touch the budget: if each of them alone fits in it, the
-- handler passes all of them on to the ZK service, however many they are, and the budget is the
-- same after them.
pub on_deposits-unlimited :
    (config : ValidatorConfig) (now : ℕ) (disk_ok : Bool) (events : List SolanaDepositEvent)
    (limiter : RateLimiter)
    → now < limiter.window_start + window_ms
    → All (IsLarge config limiter) events
    → on_deposits config true now disk_ok events limiter ≡ (limiter, map add_deposit events)
unfolding on_deposits
on_deposits-unlimited config now disk_ok [] limiter inside h = refl
on_deposits-unlimited config now disk_ok (event ∷ events) limiter inside (h, hs) =
    rw
      (
        on_deposit_finalized-large config true now disk_ok event limiter inside h,
        on_deposits-unlimited config now disk_ok events limiter inside hs,
      )
      refl

-- A transfer that reaches consensus so many times at one time, and whose submission fails each time.
pub fail_times : ℕ → ℕ → Bool → ConsensusResult → RateLimiter → Engine → RateLimiter × Engine
fail_times zero now disk_ok result limiter engine = (limiter, engine)
fail_times (suc n) now disk_ok result limiter engine =
    let (limiter', goes_on) = begin_submission now disk_ok result limiter in
    fail_times n now disk_ok result limiter' (end_submission false disk_ok result engine)

record Spent (limiter limiter' : RateLimiter) (amount : ℕ) : Type 0 where
  config : limiter'.config ≡ limiter.config
  window : limiter'.window_start ≡ limiter.window_start
  outflow : limiter'.daily_outflow ≡ limiter.daily_outflow + amount

begin_submission-Spent :
    (now : ℕ) (disk_ok : Bool) (result : ConsensusResult) (limiter : RateLimiter)
    → now < limiter.window_start + window_ms
    → limiter.daily_outflow + event_amount result.request
      ≤ limiter.config.max_daily_outflow_lamports
    → Spent limiter (begin_submission now disk_ok result limiter).0 (event_amount result.request)
unfolding begin_submission consume maybe_reset_window persist_state
begin_submission-Spent now disk_ok result limiter inside fits = record {
  config = ground arith;
  window = ground arith;
  outflow = ground arith;
}

-- A submission that fails costs its amount of the budget each time, as long as the budget lasts,
-- though nothing is submitted, and leaves the engine as it is, so that the transfer may be proposed
-- again.
pub fail_times-spends :
    (n now : ℕ) (disk_ok : Bool) (result : ConsensusResult) (limiter : RateLimiter)
    (engine : Engine)
    → now < limiter.window_start + window_ms
    → limiter.daily_outflow + n * event_amount result.request
      ≤ limiter.config.max_daily_outflow_lamports
    → ((fail_times n now disk_ok result limiter engine).0.daily_outflow
        ≡ limiter.daily_outflow + n * event_amount result.request)
      × ((fail_times n now disk_ok result limiter engine).1 ≡ engine)
unfolding fail_times end_submission
fail_times-spends zero now disk_ok result limiter engine inside fits = (omega arith, refl)
fail_times-spends (suc n) now disk_ok result limiter engine inside fits =
    let a = event_amount result.request in
    let next = (begin_submission now disk_ok result limiter).0 in
    let more : suc n * a ≡ a + n * a = omega arith in
    let s = begin_submission-Spent now disk_ok result limiter inside (omega arith) in
    let room = ap (λ (c : RateLimiterConfig). c.max_daily_outflow_lamports) s.config in
    let (outflow, kept) =
      fail_times-spends n now disk_ok result next engine (omega (arith, s.window))
        (omega (arith, s.outflow)) in
    (omega (arith, s.outflow), kept)
