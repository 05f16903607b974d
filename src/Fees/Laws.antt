-- ===== src/Fees/Laws.antt =====
-- What validator/src/utils/fee-calculator.ts keeps and what it passes on.
use sol_gateway_dcc_zk_proof.Base.{ℕ, ◌+◌, ◌-◌, ◌*◌, ◌/◌, ◌≤◌, ◌<◌, ◌≡◌, ◌⊎◌, arith, leb}
use sol_gateway_dcc_zk_proof.Fees.{
  FeeConfig, FeeResult, committee, zk, calculate_deposit_fee, calculate_withdrawal_fee,
}

-- What is kept and what is passed on make up the amount, or nothing is passed on.
pub record IsSplit (amount : ℕ) (config : FeeConfig) (fee : FeeResult) : Type 0 where
  pub minimum : config.min_fee_lamports ≤ fee.fee_lamports
  pub split :
      ((fee.net_amount_lamports + fee.fee_lamports ≡ amount) × (fee.fee_lamports < amount))
      ⊎ ((fee.net_amount_lamports ≡ 0) × (amount ≤ fee.fee_lamports))
  pub route :
      ((fee.path ≡ zk) × (config.zk_threshold_lamports ≤ amount))
      ⊎ ((fee.path ≡ committee) × (amount < config.zk_threshold_lamports))

-- The fee of a deposit is at least the minimum; with the net amount it makes up the deposit, or the
-- deposit is not above it and nothing is minted; large deposits, and only those, go the ZK way.
pub calculate_deposit_fee-IsSplit :
    (amount : ℕ) (config : FeeConfig) → IsSplit amount config (calculate_deposit_fee amount config)
unfolding calculate_deposit_fee
calculate_deposit_fee-IsSplit amount config = record {
  minimum = ground arith;
  split = ground arith;
  route = ground arith;
}

-- The fee of a burn is at least the minimum; with the net amount it makes up the burn, or the burn is
-- not above it and nothing is unlocked; large burns, and only those, go the ZK way.
pub calculate_withdrawal_fee-IsSplit :
    (amount : ℕ) (config : FeeConfig)
    → IsSplit amount config (calculate_withdrawal_fee amount config)
unfolding calculate_withdrawal_fee
calculate_withdrawal_fee-IsSplit amount config = record {
  minimum = ground arith;
  split = ground arith;
  route = ground arith;
}

-- A fee rate of at most 100 % grows no faster than the amount.
fee_slope : (a k bps : ℕ) → bps ≤ 10000 → (a + k) * bps / 10000 ≤ a * bps / 10000 + k
fee_slope a k bps r = let q : k * bps ≤ k * 10000 = grind (arith, r) in omega (arith, q)

slope : (a b bps : ℕ) → a ≤ b → bps ≤ 10000 → b * bps / 10000 + a ≤ a * bps / 10000 + b
slope a b bps h r =
    let k : a + (b - a) ≡ b = omega arith in
    let s = rw k at (fee_slope a (b - a) bps r) in omega (arith, s)

-- Both amounts are routed alike.
abbrev pub IsSameRoute : ℕ → ℕ → FeeConfig → Type 0
IsSameRoute a b config = leb config.zk_threshold_lamports a ≡ leb config.zk_threshold_lamports b

-- Of two deposits that are routed alike the larger one mints no less, at rates of at most 100 %.
calculate_deposit_fee_mono :
    (a b : ℕ) (config : FeeConfig)
    → a ≤ b
    → IsSameRoute a b config
    → config.deposit_committee_bps ≤ 10000
    → config.deposit_zk_bps ≤ 10000
    → (calculate_deposit_fee a config).net_amount_lamports
      ≤ (calculate_deposit_fee b config).net_amount_lamports
unfolding calculate_deposit_fee
calculate_deposit_fee_mono a b config h same committee_rate zk_rate = ground (
  arith,
  slope a b config.deposit_committee_bps h committee_rate,
  slope a b config.deposit_zk_bps h zk_rate,
)

-- Of two burns that are routed alike the larger one unlocks no less, at rates of at most 100 %.
calculate_withdrawal_fee_mono :
    (a b : ℕ) (config : FeeConfig)
    → a ≤ b
    → IsSameRoute a b config
    → config.withdrawal_committee_bps ≤ 10000
    → config.withdrawal_zk_bps ≤ 10000
    → (calculate_withdrawal_fee a config).net_amount_lamports
      ≤ (calculate_withdrawal_fee b config).net_amount_lamports
unfolding calculate_withdrawal_fee
calculate_withdrawal_fee_mono a b config h same committee_rate zk_rate = ground (
  arith,
  slope a b config.withdrawal_committee_bps h committee_rate,
  slope a b config.withdrawal_zk_bps h zk_rate,
)
