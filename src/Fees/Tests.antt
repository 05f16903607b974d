-- ===== src/Fees/Tests.antt =====
-- The fees of validator/src/utils/fee-calculator.ts at the rates of the default configuration.
use sol_gateway_dcc_zk_proof.Fees.{FeeConfig, calculate_deposit_fee}
use sol_gateway_dcc_zk_proof.Fees.Laws.{IsSplit, calculate_deposit_fee-IsSplit}

abbrev config : FeeConfig
config = record {
  deposit_committee_bps = 10;
  deposit_zk_bps = 15;
  withdrawal_committee_bps = 25;
  withdrawal_zk_bps = 50;
  min_fee_lamports = 1000000;
  zk_threshold_lamports = 100000000000;
}

calculate_deposit_fee-IsSplit_example :
    IsSplit 5000000000 config (calculate_deposit_fee 5000000000 config)
calculate_deposit_fee-IsSplit_example = calculate_deposit_fee-IsSplit 5000000000 config
