-- ===== src/Reconciliation/Solvency.antt =====
-- What the statuses of monitoring/src/reconciliation.ts say about the balances.
use sol_gateway_dcc_zk_proof.Base.{
  ℕ, zero, suc, ◌+◌, ◌-◌, ◌*◌, ◌≤◌, ◌<◌, ◌≡◌, refl, ◌↔◌, ◌⊎◌, inl, inr, false, some, List, [], ◌∷◌,
  ◌++◌, length, length-append, length-drop, leb, ltb, ltb→lt, le→leb, lt→ltb, Bool-cases, arith,
}
use sol_gateway_dcc_zk_proof.Encoding.{pos, negsuc}
use sol_gateway_dcc_zk_proof.Reconciliation.{
  ReconciliationConfig, ok, critical, ChainData, Snapshot, sol_to_wsol_divisor, difference,
  drift_of, drift_status, status_of, snapshot_of, record_snapshot, alert_level, reconcile,
}

-- The minted supply in lamports, with what was unlocked; and what was burned, with what was locked.
abbrev pub issued : ChainData → ℕ
issued c = 10 * c.total_minted + c.total_unlocked

abbrev pub backing : ChainData → ℕ
backing c = 10 * c.total_burned + c.total_locked

-- The supply differs from the net locked amount by less than the warning threshold, or not at all,
-- and the vault holds the net locked amount.
pub record IsBalanced (config : ReconciliationConfig) (c : ChainData) : Type 0 where
  pub covered : c.total_locked ≤ c.vault_balance + c.total_unlocked
  pub backed : issued c ≤ backing c + (config.warn_drift_lamports - 1)
  pub minted : backing c ≤ issued c + (config.warn_drift_lamports - 1)

module _ (config : ReconciliationConfig) where
  drift_status-pos :
      (n : ℕ)
      → config.warn_drift_lamports ≤ config.critical_drift_lamports
      → (drift_status config (pos n) ≡ ok) ↔ (n ≤ config.warn_drift_lamports - 1)
  unfolding drift_status
  drift_status-pos zero h = ((λ _. omega arith), λ _. refl)
  drift_status-pos (suc n) h = elim (Bool-cases (leb config.critical_drift_lamports (suc n))) [
    | inl high ↦ rw high ((λ e. cc e), λ small. absurd (ground (arith, high, small, h)))
    | inr below ↦ elim (Bool-cases (leb config.warn_drift_lamports (suc n))) [
      | inl warned ↦
          rw (below, warned) ((λ e. cc e), λ small. absurd (ground (arith, warned, small)))
      | inr fine ↦ rw (below, fine) ((λ _. ground (arith, fine)), λ _. refl)
    ]
  ]

  drift_status-negsuc :
      (n : ℕ) → (drift_status config (negsuc n) ≡ ok) ↔ (suc n ≤ config.warn_drift_lamports - 1)
  unfolding drift_status
  drift_status-negsuc n = elim (Bool-cases (leb config.warn_drift_lamports (suc n))) [
    | inl warned ↦ rw warned ((λ e. cc e), λ small. absurd (ground (arith, warned, small)))
    | inr fine ↦ rw fine ((λ _. ground (arith, fine)), λ _. refl)
  ]

  drift_status-difference :
      (a b : ℕ)
      → config.warn_drift_lamports ≤ config.critical_drift_lamports
      → (drift_status config (difference a b) ≡ ok)
        ↔ ((a ≤ b + (config.warn_drift_lamports - 1)) × (b ≤ a + (config.warn_drift_lamports - 1)))
  unfolding difference
  drift_status-difference a b h = elim (Bool-cases (ltb a b)) [
    | inl short ↦
        let (to, from) = drift_status-negsuc (b - a - 1) in
        let lt = ltb→lt a b short in
        rw short ((λ e. let t = to e in omega arith), λ p. from (omega (arith, p.0, p.1)))
    | inr long ↦
        let (to, from) = drift_status-pos (a - b) h in
        let ge : b ≤ a = ground (arith, long) in
        rw long ((λ e. let t = to e in omega arith), λ p. from (omega (arith, p.0, p.1)))
  ]

-- When the critical threshold is no lower than the warning one, a cycle has status ok exactly when
-- the balances fetched are balanced: the vault holds the net locked amount, and the supply differs
-- from it by less than the warning threshold, or not at all.
pub status_of-IsBalanced :
    (config : ReconciliationConfig) (c : ChainData)
    → config.warn_drift_lamports ≤ config.critical_drift_lamports
    → (status_of config c ≡ ok) ↔ IsBalanced config c
unfolding status_of drift_of
status_of-IsBalanced config c h =
    let a = c.total_minted * sol_to_wsol_divisor + c.total_unlocked in
    let b = c.total_burned * sol_to_wsol_divisor + c.total_locked in
    let (to, from) = drift_status-difference config a b h in
    elim (Bool-cases (ltb (c.vault_balance + c.total_unlocked) c.total_locked)) [
      | inl deficit ↦ rw deficit (
        (λ e. cc e),
        λ p. absurd (
            omega (
              arith,
              ltb→lt (c.vault_balance + c.total_unlocked) c.total_locked deficit,
              p.covered,
            )),
      )
      | inr held ↦
          let covered : c.total_locked ≤ c.vault_balance + c.total_unlocked =
            ground (arith, held) in
          rw held (
            (λ e.
                let t = to e in
                record { covered = covered; backed = omega arith; minted = omega arith }),
            λ p. from (omega (arith, p.backed, p.minted)),
          )
    ]

drift_status-above :
    (config : ReconciliationConfig) (n : ℕ)
    → 0 < n
    → config.critical_drift_lamports ≤ n
    → drift_status config (pos n) ≡ critical
unfolding drift_status
drift_status-above config zero p q = absurd (omega arith)
drift_status-above config (suc n) p q = rw (le→leb config.critical_drift_lamports (suc n) q)

-- A vault that holds less than the net locked amount makes the cycle critical, and so does a supply
-- that exceeds the net locked amount by the critical threshold or more, when that is not 0; the
-- critical alert is sent.
pub reconcile-critical :
    (config : ReconciliationConfig) (now : ℕ) (c : ChainData) (history : List Snapshot)
    → 0 < config.critical_drift_lamports
    → (c.vault_balance + c.total_unlocked < c.total_locked)
      ⊎ (backing c + config.critical_drift_lamports ≤ issued c)
    → (reconcile config now (some c) history).1 ≡ some critical
unfolding reconcile snapshot_of status_of drift_of difference alert_level
reconcile-critical config now c history h (inl deficit) =
    rw (lt→ltb (c.vault_balance + c.total_unlocked) c.total_locked deficit)
reconcile-critical config now c history h (inr over) =
    let a = c.total_minted * sol_to_wsol_divisor + c.total_unlocked in
    let b = c.total_burned * sol_to_wsol_divisor + c.total_locked in
    let long : ltb a b ≡ false = ground (arith, over) in
    let high : drift_status config (pos (a - b)) ≡ critical =
      drift_status-above config (a - b) (omega (arith, over)) (omega (arith, over)) in
    elim (Bool-cases (ltb (c.vault_balance + c.total_unlocked) c.total_locked)) [
      | inl deficit ↦ rw deficit
      | inr held ↦ rw (held, long, high)
    ]

-- A history of at most 1000 snapshots stays one.
record_snapshot-bounded :
    (s : Snapshot) (history : List Snapshot)
    → length history ≤ 1000
    → length (record_snapshot s history) ≤ 1000
unfolding record_snapshot
record_snapshot-bounded s history h = elim (Bool-cases (ltb 1000 (length (history ++ s ∷ [])))) [
  | inl full ↦
      rw full (omega (arith, length-drop 1 (history ++ s ∷ []), length-append history (s ∷ [])))
  | inr room ↦ rw room (ground (arith, room))
]
