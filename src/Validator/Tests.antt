-- ===== src/Validator/Tests.antt =====
-- The handlers of a validator with a daily limit of 1000 and a ZK threshold of 300.
use sol_gateway_dcc_zk_proof.Base.{
  ◌+◌, ◌*◌, ◌≤◌, ◌≡◌, refl, true, false, none, some, List, [], ◌∷◌, arith, map,
}
use sol_gateway_dcc_zk_proof.Encoding.{pos}
use sol_gateway_dcc_zk_proof.RateLimiter.{RateLimiter}
use sol_gateway_dcc_zk_proof.Messages.{SolanaDepositEvent, DccBurnEvent, deposit_event, mint}
use sol_gateway_dcc_zk_proof.Consensus.State.{ConsensusResult, Engine}
use sol_gateway_dcc_zk_proof.Validator.{
  ValidatorConfig, add_deposit, on_deposit_finalized, on_burn_finalized,
}
use sol_gateway_dcc_zk_proof.Validator.Routing.{
  Routes, UnlockRoutes, on_deposit_finalized-Routes, on_burn_finalized-UnlockRoutes,
}
use sol_gateway_dcc_zk_proof.Validator.Submitting.{Reached, submitted_amount, submitted_amount-le}
use sol_gateway_dcc_zk_proof.Validator.Bypass.{
  on_deposits, on_deposits-unlimited, fail_times, fail_times-spends,
}

abbrev config : ValidatorConfig
config = record {
  min_deposit_lamports = 10;
  max_single_tx_lamports = 500;
  fees = record {
    deposit_committee_bps = 10;
    deposit_zk_bps = 20;
    withdrawal_committee_bps = 50;
    withdrawal_zk_bps = 50;
    min_fee_lamports = 1;
    zk_threshold_lamports = 300;
  };
  disable_zk_path = true;
}

abbrev limiter : RateLimiter
limiter = record {
  config = record {
    max_daily_outflow_lamports = 1000;
    max_single_tx_lamports = 500;
    min_deposit_lamports = 10;
  };
  daily_outflow = 200;
  window_start = 50;
  disk = none;
}

abbrev deposit : SolanaDepositEvent
deposit = record {
  transfer_id = b't' ∷ [];
  message_id = [];
  sender = b's' ∷ [];
  recipient_dcc = [];
  amount = 400;
  nonce = 3;
  slot = 7;
  event_index = 0;
  timestamp = pos 1;
  src_chain_id = 1;
  dst_chain_id = 2;
  chain_id = 2;
  signature = [];
  confirmations = 32;
  token_mint = none;
}

abbrev burn : DccBurnEvent
burn = record {
  burn_id = b'2' ∷ [];
  sender = b'A' ∷ [];
  sol_recipient = b'S' ∷ [];
  spl_mint = [];
  amount = 250;
  height = 100;
  timestamp = 1760000000123;
  tx_id = b'3' ∷ [];
  confirmations = 12;
}

-- Below the ZK threshold.
abbrev small_deposit : SolanaDepositEvent
small_deposit = record deposit { amount = 250 }

on_deposit_finalized-Routes_example :
    Routes config 60 small_deposit limiter true
      (on_deposit_finalized config true 60 true small_deposit limiter).1
on_deposit_finalized-Routes_example =
    on_deposit_finalized-Routes config true 60 true small_deposit limiter

on_burn_finalized-UnlockRoutes_example :
    UnlockRoutes config 60 burn limiter (on_burn_finalized config 60 true burn limiter).1
on_burn_finalized-UnlockRoutes_example = on_burn_finalized-UnlockRoutes config 60 true burn limiter

abbrev minted : ConsensusResult
minted = record {
  transfer_id = b't' ∷ [];
  result_type = mint;
  attestations = [];
  achieved = true;
  required_signatures = 0;
  received_signatures = 0;
  request = some (record { transfer_id = b't' ∷ []; event = deposit_event deposit; timestamp = 1 });
}

abbrev run : List Reached
run =
    record { now = 60; disk_ok = true; result = minted }
    ∷ record { now = 86400050; disk_ok = false; result = minted }
    ∷ []

submitted_amount-le_example : submitted_amount 60 limiter run ≤ 2 * 1000
submitted_amount-le_example =
    submitted_amount-le 60 limiter 60 1000 run (omega arith) refl (omega arith)

abbrev three : List SolanaDepositEvent
three = deposit ∷ deposit ∷ deposit ∷ []

-- 1200 lamports on a budget of 800.
on_deposits-unlimited_example :
    on_deposits config true 60 true three limiter ≡ (limiter, map add_deposit three)
on_deposits-unlimited_example =
    on_deposits-unlimited config 60 true three limiter (omega arith)
      (omega arith, (omega arith, (omega arith, tt)))

abbrev engine : Engine
engine = record {
  config = record {
    min_validators = 1;
    min_validators_mint = none;
    min_validators_unlock = none;
    consensus_timeout_ms = 30000;
    chain_ids = record { dcc_bridge_chain_id = 2; dcc_chain_id = 63; unlock_expiry_seconds = 600 };
  };
  pending_consensus = [];
  processed_transfers = [];
  registered_validators = [];
  disk = none;
}

fail_times-spends_example :
    ((fail_times 2 60 true minted limiter engine).0.daily_outflow ≡ 200 + 2 * 400)
    × ((fail_times 2 60 true minted limiter engine).1 ≡ engine)
fail_times-spends_example =
    fail_times-spends 2 60 true minted limiter engine (omega arith) (omega arith)
