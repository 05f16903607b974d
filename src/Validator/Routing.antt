-- ===== src/Validator/Routing.antt =====
-- Where the handlers of validator/src/main.ts send a deposit and a burn.
use sol_gateway_dcc_zk_proof.Base.{
  ℕ, ◌+◌, ◌-◌, ◌*◌, ◌/◌, ◌≤◌, ◌<◌, ◌≡◌, max, refl, ap, inl, inr, Bool, true, false, List, [], ◌∷◌,
  arith, ltb, leb, ltb→lt, leb→le, if◌then◌else◌, Bool-cases,
}
use sol_gateway_dcc_zk_proof.RateLimiter.{
  RateLimiter, window_ms, maybe_reset_window, persist_state, can_consume,
}
use sol_gateway_dcc_zk_proof.Fees.{FeeConfig, calculate_deposit_fee, calculate_withdrawal_fee}
use sol_gateway_dcc_zk_proof.Messages.{
  SolanaDepositEvent, DccBurnEvent, deposit_event, burn_event, AttestationRequest,
}
use sol_gateway_dcc_zk_proof.Validator.{
  ValidatorConfig, Call, propose_attestation, add_deposit, to_zk, on_deposit_finalized,
  on_burn_finalized,
}

-- What the window that is open at a time has let out.
abbrev pub outflow_at : ℕ → RateLimiter → ℕ
outflow_at now limiter =
    if leb (limiter.window_start + window_ms) now then 0 else limiter.daily_outflow

-- The budget of the window has room for an amount.
abbrev pub HasRoom : ℕ → ℕ → RateLimiter → Type 0
HasRoom now amount limiter =
    outflow_at now limiter + amount ≤ limiter.config.max_daily_outflow_lamports

pub record IsAdmitted (config : ValidatorConfig) (now amount : ℕ) (limiter : RateLimiter)
    : Type 0 where
  pub minimum : config.min_deposit_lamports ≤ amount
  pub maximum : amount ≤ config.max_single_tx_lamports
  pub room : HasRoom now amount limiter

-- What is left of an amount after a fee at a rate in basis points, rounded down, and no less than the
-- minimum: nothing, if the fee is as large as the amount.
abbrev pub net_of : ℕ → ℕ → ℕ → ℕ
net_of bps min_fee amount = amount - max min_fee (amount * bps / 10000)

-- The rate for a burn of an amount.
abbrev pub withdrawal_bps : ℕ → FeeConfig → ℕ
withdrawal_bps amount fees =
    if leb fees.zk_threshold_lamports amount
    then fees.withdrawal_zk_bps
    else fees.withdrawal_committee_bps

-- The calls that a deposit may lead to.
pub data Routes (config : ValidatorConfig) (now : ℕ) (event : SolanaDepositEvent)
    (limiter : RateLimiter) : Bool → List Call → Type 0 where
  rejected :
      {zk : Bool}
      → ¬ IsAdmitted config now event.amount limiter
      → Routes config now event limiter zk []
  proposed :
      {zk : Bool} {request : AttestationRequest}
      → IsAdmitted config now event.amount limiter
      → event.amount < config.fees.zk_threshold_lamports
      → request.transfer_id ≡ event.transfer_id
      → request.timestamp ≡ now
      → request.event
        ≡ deposit_event (record event {
          amount =
              net_of config.fees.deposit_committee_bps config.fees.min_fee_lamports event.amount;
        })
      → Routes config now event limiter zk (propose_attestation request ∷ [])
  proved :
      IsAdmitted config now event.amount limiter
      → config.fees.zk_threshold_lamports ≤ event.amount
      → Routes config now event limiter true (add_deposit event ∷ [])
  dropped :
      IsAdmitted config now event.amount limiter
      → config.fees.zk_threshold_lamports ≤ event.amount
      → Routes config now event limiter false []

can_consume-room :
    (now amount : ℕ) (disk_ok : Bool) (limiter : RateLimiter)
    → (can_consume now disk_ok amount limiter).1 ≡ true
    → HasRoom now amount limiter
unfolding can_consume maybe_reset_window persist_state
can_consume-room now amount disk_ok limiter h = ground arith

can_consume-full :
    (now amount : ℕ) (disk_ok : Bool) (limiter : RateLimiter)
    → (can_consume now disk_ok amount limiter).1 ≡ false
    → ¬ HasRoom now amount limiter
unfolding can_consume maybe_reset_window persist_state
can_consume-full now amount disk_ok limiter h = λ r. ground arith

net_cases :
    (amount fee min_fee : ℕ)
    → (let kept = if ltb fee min_fee then min_fee else fee in
        if ltb kept amount then amount - kept else 0)
      ≡ amount - max min_fee fee
net_cases amount fee min_fee = ground arith

calculate_deposit_fee-net :
    (amount : ℕ) (fees : FeeConfig)
    → leb fees.zk_threshold_lamports amount ≡ false
    → (calculate_deposit_fee amount fees).net_amount_lamports
      ≡ net_of fees.deposit_committee_bps fees.min_fee_lamports amount
unfolding calculate_deposit_fee
calculate_deposit_fee-net amount fees small =
    rw small (net_cases amount (amount * fees.deposit_committee_bps / 10000) fees.min_fee_lamports)

calculate_withdrawal_fee-net :
    (amount : ℕ) (fees : FeeConfig)
    → (calculate_withdrawal_fee amount fees).net_amount_lamports
      ≡ net_of (withdrawal_bps amount fees) fees.min_fee_lamports amount
unfolding calculate_withdrawal_fee
calculate_withdrawal_fee-net amount fees =
    net_cases amount (amount * withdrawal_bps amount fees / 10000) fees.min_fee_lamports

to_zk-Routes :
    (config : ValidatorConfig) (now : ℕ) (event : SolanaDepositEvent) (limiter : RateLimiter)
    (zk_service : Bool)
    → IsAdmitted config now event.amount limiter
    → config.fees.zk_threshold_lamports ≤ event.amount
    → Routes config now event limiter zk_service (to_zk zk_service event)
to_zk-Routes config now event limiter true admitted large = proved admitted large
to_zk-Routes config now event limiter false admitted large = dropped admitted large

-- A deposit is refused exactly if its amount is out of the limits or the window has no room for it.
-- Else one below the ZK threshold is proposed, as it is but for its amount, which is reduced by the
-- committee's fee for deposits, down to nothing if the fee is as large; and one from the threshold on
-- goes to the ZK service, whole, or nowhere if there is none.
pub on_deposit_finalized-Routes :
    (config : ValidatorConfig) (zk_service : Bool) (now : ℕ) (disk_ok : Bool)
    (event : SolanaDepositEvent) (limiter : RateLimiter)
    → Routes config now event limiter zk_service
        (on_deposit_finalized config zk_service now disk_ok event limiter).1
unfolding on_deposit_finalized
on_deposit_finalized-Routes config zk_service now disk_ok event limiter =
    let a = event.amount in
    elim (Bool-cases (ltb a config.min_deposit_lamports)) [
      | inl low ↦ rw low (rejected (λ h. let m = h.minimum in ground arith))
      | inr high ↦ elim (Bool-cases (ltb config.max_single_tx_lamports a)) [
        | inl over ↦ rw (high, over) (rejected (λ h. let m = h.maximum in ground arith))
        | inr under ↦ elim (Bool-cases (can_consume now disk_ok a limiter).1) [
          | inr full ↦
              rw (high, under, full)
                (rejected (λ h. can_consume-full now a disk_ok limiter full h.room))
          | inl room ↦
              let admitted : IsAdmitted config now a limiter = record {
                minimum = ground arith;
                maximum = ground arith;
                room = can_consume-room now a disk_ok limiter room;
              } in
              elim (Bool-cases (leb config.fees.zk_threshold_lamports a)) [
                | inl large ↦
                    rw (high, under, room, large)
                      (to_zk-Routes config now event limiter zk_service admitted (leb→le _ _ large))
                | inr small ↦
                    rw (high, under, room, small)
                      (proposed admitted (ground arith) refl refl (
                        ap (λ (net : ℕ). deposit_event (record event { amount = net }))
                          (calculate_deposit_fee-net a config.fees (ground arith))))
              ]
        ]
      ]
    ]

-- The calls that a burn may lead to: there is no minimum, and no ZK way.
pub data UnlockRoutes (config : ValidatorConfig) (now : ℕ) (event : DccBurnEvent)
    (limiter : RateLimiter) : List Call → Type 0 where
  too_large :
      config.max_single_tx_lamports < event.amount → UnlockRoutes config now event limiter []
  no_room : ¬ HasRoom now event.amount limiter → UnlockRoutes config now event limiter []
  proposed_unlock :
      {request : AttestationRequest}
      → event.amount ≤ config.max_single_tx_lamports
      → HasRoom now event.amount limiter
      → request.transfer_id ≡ event.burn_id
      → request.timestamp ≡ now
      → request.event
        ≡ burn_event (record event {
          amount =
              net_of
                (withdrawal_bps event.amount config.fees)
                config.fees.min_fee_lamports
                event.amount;
        })
      → UnlockRoutes config now event limiter (propose_attestation request ∷ [])

-- A burn is proposed exactly if its amount is within the limit of one transaction and the window has
-- room for it; it is proposed as it is but for its amount, which is reduced by the fee for
-- withdrawals at the rate for its size, down to nothing if the fee is as large.
pub on_burn_finalized-UnlockRoutes :
    (config : ValidatorConfig) (now : ℕ) (disk_ok : Bool) (event : DccBurnEvent)
    (limiter : RateLimiter)
    → UnlockRoutes config now event limiter (on_burn_finalized config now disk_ok event limiter).1
unfolding on_burn_finalized
on_burn_finalized-UnlockRoutes config now disk_ok event limiter =
    let a = event.amount in
    elim (Bool-cases (ltb config.max_single_tx_lamports a)) [
      | inl over ↦ rw over (too_large (ltb→lt _ _ over))
      | inr under ↦ elim (Bool-cases (can_consume now disk_ok a limiter).1) [
        | inr full ↦ rw (under, full) (no_room (can_consume-full now a disk_ok limiter full))
        | inl room ↦
            rw (under, room)
              (proposed_unlock (ground arith) (can_consume-room now a disk_ok limiter room) refl
                refl
                (ap (λ (net : ℕ). burn_event (record event { amount = net }))
                  (calculate_withdrawal_fee-net a config.fees)))
      ]
    ]
