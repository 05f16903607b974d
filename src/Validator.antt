-- ===== src/Validator.antt =====
-- validator/src/main.ts: the handlers that join the watchers, the rate limiter, the fees and the
-- consensus engine. A handler returns the state that it leaves and what it calls. `now` is
-- `Date.now()`; `disk_ok` says whether a write to disk succeeds.
pub mod Routing
pub mod Submitting
pub mod Bypass
mod Tests
use sol_gateway_dcc_zk_proof.Base.{
  ℕ, ◌+◌, Bool, true, false, ◌&&◌, ◌||◌, not, Option, none, some, List, [], ◌∷◌, Text, Result, ok,
  err, ◌>>=◌, ◌>>◌, require, ltb, leb, ◌==◌, if◌then◌else◌, text_eq, map,
}
use sol_gateway_dcc_zk_proof.Bytes.{Bytes, Error, range_error}
use sol_gateway_dcc_zk_proof.RateLimiter.{RateLimiter, can_consume, consume}
use sol_gateway_dcc_zk_proof.Fees.{
  FeeConfig, FeeResult, calculate_deposit_fee, calculate_withdrawal_fee,
}
use sol_gateway_dcc_zk_proof.Messages.{
  SolanaDepositEvent, DccBurnEvent, Event, deposit_event, burn_event, AttestationRequest,
  AttestationType, mint, unlock, dcc_recipient,
}
use sol_gateway_dcc_zk_proof.Encoding.Numbers.{number_of}
use sol_gateway_dcc_zk_proof.Consensus.State.{Attestation, ConsensusResult, Engine}
use sol_gateway_dcc_zk_proof.Consensus.Deciding.{mark_submitted}

pub record ValidatorConfig : Type 0 where
  pub min_deposit_lamports : ℕ
  pub max_single_tx_lamports : ℕ
  pub fees : FeeConfig
  pub disable_zk_path : Bool

-- What a handler of a watcher calls: `consensus.proposeAttestation`, `zkService.addDeposit`.
pub data Call : Type 0 where
  propose_attestation : AttestationRequest → Call
  add_deposit : SolanaDepositEvent → Call

abbrev mint_request : ℕ → SolanaDepositEvent → FeeResult → AttestationRequest
mint_request now event fee = record {
  transfer_id = event.transfer_id;
  event = deposit_event (record event { amount = fee.net_amount_lamports });
  timestamp = now;
}

abbrev unlock_request : ℕ → DccBurnEvent → FeeResult → AttestationRequest
unlock_request now event fee = record {
  transfer_id = event.burn_id;
  event = burn_event (record event { amount = fee.net_amount_lamports });
  timestamp = now;
}

-- `if (zkService) zkService.addDeposit(event)`.
abbrev pub to_zk : Bool → SolanaDepositEvent → List Call
to_zk true event = add_deposit event ∷ []
to_zk false event = []

-- `zk_service` says whether there is a ZK service.
unfoldable pub on_deposit_finalized :
    ValidatorConfig → Bool → ℕ → Bool → SolanaDepositEvent → RateLimiter → RateLimiter × List Call
on_deposit_finalized config zk_service now disk_ok event limiter =
    let (checked, allowed) = can_consume now disk_ok event.amount limiter in
    let use_zk = leb config.fees.zk_threshold_lamports event.amount in
    let deposit_fee = calculate_deposit_fee event.amount config.fees in
    if ltb event.amount config.min_deposit_lamports
    then (limiter, [])
    else if ltb config.max_single_tx_lamports event.amount
    then (limiter, [])
    else if not allowed
    then (checked, [])
    else if not use_zk
    then (checked, propose_attestation (mint_request now event deposit_fee) ∷ [])
    else (checked, to_zk zk_service event)

unfoldable pub on_burn_finalized :
    ValidatorConfig → ℕ → Bool → DccBurnEvent → RateLimiter → RateLimiter × List Call
on_burn_finalized config now disk_ok event limiter =
    let (checked, allowed) = can_consume now disk_ok event.amount limiter in
    let withdrawal_fee = calculate_withdrawal_fee event.amount config.fees in
    if ltb config.max_single_tx_lamports event.amount
    then (limiter, [])
    else if not allowed
    then (checked, [])
    else (checked, propose_attestation (unlock_request now event withdrawal_fee) ∷ [])

abbrev pub event_amount : Option AttestationRequest → ℕ
event_amount none = 0
event_amount (some request) = elim request.event [
  | deposit_event d ↦ d.amount
  | burn_event b ↦ b.amount
]

-- `consensus_reached` up to the submission: the budget is spent, unless the amount is 0; false
-- where the handler returns.
unfoldable pub begin_submission : ℕ → Bool → ConsensusResult → RateLimiter → RateLimiter × Bool
begin_submission now disk_ok result limiter =
    let amount = event_amount result.request in
    if ltb 0 amount then consume now disk_ok amount limiter else (limiter, true)

-- The rest of it, on the engine as it is then; `submitted` says whether the submission resolves,
-- and does not throw.
unfoldable pub end_submission : Bool → Bool → ConsensusResult → Engine → Engine
end_submission submitted disk_ok result engine =
    if submitted then mark_submitted disk_ok result.transfer_id engine else engine

-- 'EPjFWdd5AufqSSqeM2qN1xzybapC8G4wEGGkZwyTDt1v'
abbrev usdc_mint : Text
usdc_mint =
    b'E' ∷ b'P' ∷ b'j' ∷ b'F' ∷ b'W' ∷ b'd' ∷ b'd' ∷ b'5' ∷ b'A' ∷ b'u' ∷ b'f' ∷ b'q' ∷ b'S' ∷ b'S'
    ∷ b'q' ∷ b'e' ∷ b'M' ∷ b'2' ∷ b'q' ∷ b'N' ∷ b'1' ∷ b'x' ∷ b'z' ∷ b'y' ∷ b'b' ∷ b'a' ∷ b'p'
    ∷ b'C' ∷ b'8' ∷ b'G' ∷ b'4' ∷ b'w' ∷ b'E' ∷ b'G' ∷ b'G' ∷ b'k' ∷ b'Z' ∷ b'w' ∷ b'y' ∷ b'T'
    ∷ b'D' ∷ b't' ∷ b'1' ∷ b'v' ∷ []

-- 'Es9vMFrzaCERmJfrF4H2FYD4KCoNkY11McCe8BenwNYB'
abbrev usdt_mint : Text
usdt_mint =
    b'E' ∷ b's' ∷ b'9' ∷ b'v' ∷ b'M' ∷ b'F' ∷ b'r' ∷ b'z' ∷ b'a' ∷ b'C' ∷ b'E' ∷ b'R' ∷ b'm' ∷ b'J'
    ∷ b'f' ∷ b'r' ∷ b'F' ∷ b'4' ∷ b'H' ∷ b'2' ∷ b'F' ∷ b'Y' ∷ b'D' ∷ b'4' ∷ b'K' ∷ b'C' ∷ b'o'
    ∷ b'N' ∷ b'k' ∷ b'Y' ∷ b'1' ∷ b'1' ∷ b'M' ∷ b'c' ∷ b'C' ∷ b'e' ∷ b'8' ∷ b'B' ∷ b'e' ∷ b'n'
    ∷ b'w' ∷ b'N' ∷ b'Y' ∷ b'B' ∷ []

-- The contract that a mint goes to, and its arguments; base64 and the transaction are left out.
pub data MintCall : Type 0 where
  mint_dusd : (transfer_id recipient : Text) (amount sol_slot : ℕ) (token_mint : Text) → MintCall
  mint_bridge :
      (transfer_id recipient : Text) (amount sol_slot : ℕ) (signatures pubkeys : List Bytes)
      → MintCall

abbrev is_stable : Option Text → Option Text
is_stable none = none
is_stable (some token) =
    if text_eq token usdc_mint || text_eq token usdt_mint then some token else none

abbrev mint_call : ConsensusResult → SolanaDepositEvent → Text → Option Text → MintCall
mint_call result d recipient (some token) =
    mint_dusd result.transfer_id recipient (number_of d.amount) d.slot token
mint_call result d recipient none =
    mint_bridge result.transfer_id recipient (number_of d.amount) d.slot
      (map (λ (a : Attestation). a.signature) result.attestations)
      (map (λ (a : Attestation). a.public_key) result.attestations)

abbrev deposit_of : Option AttestationRequest → Result Error SolanaDepositEvent
deposit_of none = err range_error
deposit_of (some request) = elim request.event [
  | deposit_event d ↦ ok d
  | burn_event b ↦ err range_error
]

-- `submitMintToDcc` up to the transaction. The recipient is made as for the message.
unfoldable pub submit_mint_to_dcc : ConsensusResult → Result Error MintCall
submit_mint_to_dcc result = do
  d ← deposit_of result.request
  recipient ← dcc_recipient d.recipient_dcc
  require (ltb 0 (number_of d.amount)) range_error
  ok (mint_call result d recipient (is_stable d.token_mint))
