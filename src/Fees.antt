-- ===== src/Fees.antt =====
-- validator/src/utils/fee-calculator.ts. A fee rate enters as `Math.round(feeRate * 10000)`, the
-- basis points that the code computes with; the float itself, and the text that shows it, stay out.
pub mod Laws
mod Tests
use sol_gateway_dcc_zk_proof.Base.{
  ℕ, ◌+◌, ◌-◌, ◌*◌, ◌/◌, Bool, true, false, leb, ltb, if◌then◌else◌,
}

pub data FeePath : Type 0 where
  committee zk : FeePath

pub data Direction : Type 0 where
  deposit withdrawal : Direction

-- The part of `ValidatorConfig` that fees read, and `ZK_ONLY_THRESHOLD_LAMPORTS`.
pub record FeeConfig : Type 0 where
  pub deposit_committee_bps : ℕ
  pub deposit_zk_bps : ℕ
  pub withdrawal_committee_bps : ℕ
  pub withdrawal_zk_bps : ℕ
  pub min_fee_lamports : ℕ
  pub zk_threshold_lamports : ℕ

pub record FeeResult : Type 0 where
  pub original_amount_lamports : ℕ
  pub fee_lamports : ℕ
  pub net_amount_lamports : ℕ
  pub fee_rate_bps : ℕ
  pub path : FeePath
  pub direction : Direction

unfoldable pub calculate_deposit_fee : ℕ → FeeConfig → FeeResult
calculate_deposit_fee amount_lamports config =
    let use_zk = leb config.zk_threshold_lamports amount_lamports in
    let fee_rate_bps = if use_zk then config.deposit_zk_bps else config.deposit_committee_bps in
    let calculated_fee = amount_lamports * fee_rate_bps / 10000 in
    let fee_lamports =
      if ltb calculated_fee config.min_fee_lamports
      then config.min_fee_lamports
      else calculated_fee in
    record {
      original_amount_lamports = amount_lamports;
      fee_lamports = fee_lamports;
      net_amount_lamports =
          if ltb fee_lamports amount_lamports then amount_lamports - fee_lamports else 0;
      fee_rate_bps = fee_rate_bps;
      path = if use_zk then zk else committee;
      direction = deposit;
    }

unfoldable pub calculate_withdrawal_fee : ℕ → FeeConfig → FeeResult
calculate_withdrawal_fee amount_lamports config =
    let use_zk = leb config.zk_threshold_lamports amount_lamports in
    let fee_rate_bps =
      if use_zk then config.withdrawal_zk_bps else config.withdrawal_committee_bps in
    let calculated_fee = amount_lamports * fee_rate_bps / 10000 in
    let fee_lamports =
      if ltb calculated_fee config.min_fee_lamports
      then config.min_fee_lamports
      else calculated_fee in
    record {
      original_amount_lamports = amount_lamports;
      fee_lamports = fee_lamports;
      net_amount_lamports =
          if ltb fee_lamports amount_lamports then amount_lamports - fee_lamports else 0;
      fee_rate_bps = fee_rate_bps;
      path = if use_zk then zk else committee;
      direction = withdrawal;
    }
