-- ===== src/RateLimiter/Window.antt =====
-- How much validator/src/utils/rate-limiter.ts lets out over time.
use sol_gateway_dcc_zk_proof.Base.{
  ℕ, ◌+◌, ◌*◌, ◌≤◌, ◌<◌, ◌≡◌, refl, ◌∙◌, leb→le, ◌⊎◌, inl, inr, Bool, true, false, List, [], ◌∷◌,
  arith, leb, ltb, ◌&&◌, if◌then◌else◌, Bool-cases,
}
use sol_gateway_dcc_zk_proof.RateLimiter.{
  RateLimiter, window_ms, persist_state, consume, can_consume,
}

-- A call of `consume` with its time, and whether its write to disk succeeds.
pub record Request : Type 0 where
  pub now : ℕ
  pub disk_ok : Bool
  pub amount : ℕ

abbrev pub granted : Bool → ℕ → ℕ
granted true amount = amount
granted false amount = 0

-- What a run of calls lets out at times in the `window_ms` milliseconds from `from` on.
unfoldable pub let_out : ℕ → RateLimiter → List Request → ℕ
let_out from r [] = 0
let_out from r (q ∷ qs) =
    let (r', allowed) = consume q.now q.disk_ok q.amount r in
    (if leb from q.now && ltb q.now (from + window_ms) then granted allowed q.amount else 0)
    + let_out from r' qs

-- Times do not go back.
abbrev pub IsInOrder : ℕ → List Request → Type 0
IsInOrder now [] = Unit
IsInOrder now (q ∷ qs) = (now ≤ q.now) × IsInOrder q.now qs

-- What one call may do: stay in the window, or start one at its own time.
record Consumes (r r' : RateLimiter) (q : Request) (allowed : Bool) : Type 0 where
  limit : r'.config.max_daily_outflow_lamports ≡ r.config.max_daily_outflow_lamports
  within :
      r.daily_outflow ≤ r.config.max_daily_outflow_lamports
      → r'.daily_outflow ≤ r.config.max_daily_outflow_lamports
  moves :
      ((r'.window_start ≡ r.window_start)
        × (q.now < r.window_start + window_ms)
        × (r'.daily_outflow ≡ r.daily_outflow + granted allowed q.amount))
      ⊎ ((r'.window_start ≡ q.now)
          × (r.window_start + window_ms ≤ q.now)
          × (r'.daily_outflow ≡ granted allowed q.amount))

consume-Consumes :
    (r : RateLimiter) (q : Request)
    → Consumes r (consume q.now q.disk_ok q.amount r).0 q (consume q.now q.disk_ok q.amount r).1
unfolding consume
consume-Consumes r q = record { limit = ground arith; within = ground arith; moves = ground arith }

module _ (from : ℕ) where
  -- Nothing is counted after the interval.
  let_out_after :
      (r : RateLimiter) (now : ℕ) (qs : List Request)
      → IsInOrder now qs
      → from + window_ms ≤ now
      → let_out from r qs ≡ 0
  unfolding let_out
  let_out_after r now [] o h = refl
  let_out_after r now (q ∷ qs) o h =
      let rest =
        let_out_after (consume q.now q.disk_ok q.amount r).0 q.now qs o.1 (omega (arith, o.0)) in
      ground (arith, rest, o.0)

  -- Once the window has started in the interval, the rest of its budget is all that is left.
  let_out_inside :
      (r : RateLimiter) (now limit : ℕ) (qs : List Request)
      → IsInOrder now qs
      → r.config.max_daily_outflow_lamports ≡ limit
      → r.daily_outflow ≤ limit
      → from ≤ r.window_start
      → r.daily_outflow + let_out from r qs ≤ limit
  unfolding let_out
  let_out_inside r now limit [] o e b h = omega arith
  let_out_inside r now limit (q ∷ qs) o e b h =
      let c = consume-Consumes r q in
      let r' = (consume q.now q.disk_ok q.amount r).0 in
      elim c.moves [
        | inl (start, _, outflow) ↦
            let rest =
              let_out_inside r' q.now limit qs o.1 (c.limit ∙ e) (ground (arith, c.within))
                (omega (arith, start)) in
            ground (arith, rest, outflow)
        | inr (_, past, _) ↦
            let rest = let_out_after r' q.now qs o.1 (omega (arith, past)) in
            ground (arith, rest, past)
      ]

  -- From the interval's start on, the window that is open and one more have a part in it.
  let_out_two :
      (r : RateLimiter) (now limit : ℕ) (qs : List Request)
      → IsInOrder now qs
      → r.config.max_daily_outflow_lamports ≡ limit
      → r.daily_outflow ≤ limit
      → from ≤ now
      → r.daily_outflow + let_out from r qs ≤ 2 * limit
  unfolding let_out
  let_out_two r now limit [] o e b h = omega arith
  let_out_two r now limit (q ∷ qs) o e b h =
      let c = consume-Consumes r q in
      let r' = (consume q.now q.disk_ok q.amount r).0 in
      let b' : r'.daily_outflow ≤ limit = ground (arith, c.within) in
      elim c.moves [
        | inl (_, _, outflow) ↦
            let rest = let_out_two r' q.now limit qs o.1 (c.limit ∙ e) b' (omega (arith, o.0)) in
            ground (arith, rest, outflow)
        | inr (start, _, outflow) ↦
            let rest =
              let_out_inside r' q.now limit qs o.1 (c.limit ∙ e) b' (omega (arith, start, o.0)) in
            ground (arith, rest, outflow)
      ]

  -- In any 24 hours the limiter lets out at most twice the daily limit, from a state within the limit
  -- and with a clock that does not go back: the fixed windows allow a burst at each end, and no more.
  pub let_out-le :
      (r : RateLimiter) (now limit : ℕ) (qs : List Request)
      → IsInOrder now qs
      → r.config.max_daily_outflow_lamports ≡ limit
      → r.daily_outflow ≤ limit
      → let_out from r qs ≤ 2 * limit
  unfolding let_out
  let_out-le r now limit [] o e b = omega arith
  let_out-le r now limit (q ∷ qs) o e b =
      let c = consume-Consumes r q in
      let r' = (consume q.now q.disk_ok q.amount r).0 in
      let b' : r'.daily_outflow ≤ limit = ground (arith, c.within) in
      let later = let_out-le r' q.now limit qs o.1 (c.limit ∙ e) b' in
      elim (Bool-cases (leb from q.now)) [
        | inl inside ↦
            let rest =
              let_out_two r' q.now limit qs o.1 (c.limit ∙ e) b' (leb→le from q.now inside) in
            ground (arith, rest, c.moves)
        | inr before ↦ ground (arith, later, before)
      ]

-- `consume` spends exactly what `canConsume` allows: it says what `canConsume` says at the same time,
-- and leaves the budget as `canConsume` does, with the amount added and saved when it is allowed.
pub can_consume-consume :
    (now amount : ℕ) (disk_ok : Bool) (r : RateLimiter)
    → consume now disk_ok amount r ≡ (
        let r' = (can_consume now disk_ok amount r).0 in
        if (can_consume now disk_ok amount r).1
        then (persist_state disk_ok (record r' { daily_outflow = r'.daily_outflow + amount }), true)
        else (r', false))
unfolding consume can_consume
can_consume-consume now amount disk_ok r = ground arith
