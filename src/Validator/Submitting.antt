-- ===== src/Validator/Submitting.antt =====
-- What the handler of `consensus_reached` of validator/src/main.ts lets through over time.
use sol_gateway_dcc_zk_proof.Base.{
  ℕ, ◌+◌, ◌*◌, ◌≤◌, ◌≡◌, refl, inl, inr, Bool, true, false, ◌&&◌, List, [], ◌∷◌, arith, leb, ltb,
  if◌then◌else◌, Bool-cases,
}
use sol_gateway_dcc_zk_proof.RateLimiter.{RateLimiter, window_ms, consume}
use sol_gateway_dcc_zk_proof.RateLimiter.Window.{Request, granted, let_out, IsInOrder, let_out-le}
use sol_gateway_dcc_zk_proof.Consensus.State.{ConsensusResult}
use sol_gateway_dcc_zk_proof.Validator.{event_amount, begin_submission}

-- A result that reaches the handler, with its time, and whether the write to disk succeeds.
pub record Reached : Type 0 where
  pub now : ℕ
  pub disk_ok : Bool
  pub result : ConsensusResult

abbrev pub amount_of : Reached → ℕ
amount_of q = event_amount q.result.request

abbrev pub attempted : Bool → ℕ → ℕ
attempted true amount = amount
attempted false amount = 0

-- What is submitted for a run of results, at times in the `window_ms` milliseconds from `from` on.
pub submitted_amount : ℕ → RateLimiter → List Reached → ℕ
submitted_amount from r [] = 0
submitted_amount from r (q ∷ qs) =
    let (r', goes_on) = begin_submission q.now q.disk_ok q.result r in
    (if leb from q.now && ltb q.now (from + window_ms) then attempted goes_on (amount_of q) else 0)
    + submitted_amount from r' qs

-- Times do not go back.
abbrev pub AreInOrder : ℕ → List Reached → Type 0
AreInOrder now [] = Unit
AreInOrder now (q ∷ qs) = (now ≤ q.now) × AreInOrder q.now qs

-- The calls of `consume` that the results make.
abbrev requests : List Reached → List Request
requests [] = []
requests (q ∷ qs) =
    let rest = requests qs in
    if ltb 0 (amount_of q)
    then record { now = q.now; disk_ok = q.disk_ok; amount = amount_of q } ∷ rest
    else rest

sooner :
    (earlier now : ℕ) (qs : List Request) → earlier ≤ now → IsInOrder now qs → IsInOrder earlier qs
sooner earlier now [] h o = tt
sooner earlier now (q ∷ qs) h (n, o) = (omega arith, o)

requests-IsInOrder : (now : ℕ) (qs : List Reached) → AreInOrder now qs → IsInOrder now (requests qs)
requests-IsInOrder now [] o = tt
requests-IsInOrder now (q ∷ qs) (h, o) =
    let later = requests-IsInOrder q.now qs o in
    elim (Bool-cases (ltb 0 (amount_of q))) [
      | inl paid ↦ rw paid (h, later)
      | inr free ↦ rw free (sooner now q.now (requests qs) h later)
    ]

attempted-granted : (b : Bool) (amount : ℕ) → attempted b amount ≡ granted b amount
attempted-granted true amount = refl
attempted-granted false amount = refl

zero_either : (b : Bool) (n : ℕ) → (if b then 0 else 0) + n ≡ n
zero_either true n = omega arith
zero_either false n = omega arith

submitted_amount-let_out :
    (from : ℕ) (r : RateLimiter) (qs : List Reached)
    → submitted_amount from r qs ≡ let_out from r (requests qs)
unfolding submitted_amount begin_submission let_out
submitted_amount-let_out from r [] = refl
submitted_amount-let_out from r (q ∷ qs) = elim (Bool-cases (ltb 0 (amount_of q))) [
  | inl paid ↦
      let (r', allowed) = consume q.now q.disk_ok (amount_of q) r in
      rw (paid, submitted_amount-let_out from r' qs, attempted-granted allowed (amount_of q)) refl
  | inr free ↦
      let zero_amount : amount_of q ≡ 0 = ground arith in
      rw (free, zero_amount, submitted_amount-let_out from r qs)
        (zero_either (leb from q.now && ltb q.now (from + window_ms))
          (let_out from r (requests qs)))
]

-- With a clock that does not go back and a limiter within its limit, the amounts of the results that
-- go on to a submission make up at most twice the daily limit in any 24 hours, whatever results
-- reach the handler.
pub submitted_amount-le :
    (from : ℕ) (r : RateLimiter) (now limit : ℕ) (qs : List Reached)
    → AreInOrder now qs
    → r.config.max_daily_outflow_lamports ≡ limit
    → r.daily_outflow ≤ limit
    → submitted_amount from r qs ≤ 2 * limit
submitted_amount-le from r now limit qs o e b =
    rw (submitted_amount-let_out from r qs)
      (let_out-le from r now limit (requests qs) (requests-IsInOrder now qs o) e b)
