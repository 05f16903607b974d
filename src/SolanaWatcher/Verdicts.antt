-- ===== src/SolanaWatcher/Verdicts.antt =====
-- What validator/src/watchers/solana-watcher.ts gives out as a final deposit.
use sol_gateway_dcc_zk_proof.Base.{
  ℕ, ◌+◌, ◌-◌, ◌≤◌, ◌<◌, ◌≡◌, refl, sym, subst, inl, inr, Bool, true, false, ◌&&◌, not, some, List,
  [], ◌∷◌, Text, All, arith, length, leb, leb→le, ◌==◌, ==_iff, text_eq, eq_of_text_eq, map_delete,
  Bool-cases, Option-cases, and_split, ◌⊎◌,
}
use sol_gateway_dcc_zk_proof.Bytes.{Bytes, bytes_eq, eq_of_bytes_eq}
use sol_gateway_dcc_zk_proof.Bytes.Digits.{read_u64_le}
use sol_gateway_dcc_zk_proof.Bytes.Layout.{slice}
use sol_gateway_dcc_zk_proof.Messages.{SolanaDepositEvent, from_hex, to_hex}
use sol_gateway_dcc_zk_proof.SolanaWatcher.Polling.{SolanaWatcher}
use sol_gateway_dcc_zk_proof.SolanaWatcher.Finality.{
  SolanaTransaction, Account, SolanaNode, Verdict, deposit_finalized, deposit_invalidated,
  amount_matches, verify_transaction_finality, verify_deposit_pda, verified, settle, settle_all,
  check_at, check_finality,
}

not-true : (b : Bool) → not b ≡ true → b ≡ false
not-true true h = cc h
not-true false h = refl

module _ (program_id : Bytes) (deposit_address : Bytes → Bytes) (node : SolanaNode) where
  -- What makes a deposit final: depth, its transaction in its slot, without an error, and an account
  -- of the program at the address of its id that holds the id and, if it is long enough, the amount.
  pub record IsGenuine (required current : ℕ) (event : SolanaDepositEvent) : Type 0 where
    pub deep : event.slot + required ≤ current
    pub confirmations : event.confirmations ≡ current - event.slot
    pub tx : SolanaTransaction
    pub present : node.transaction event.signature ≡ some tx
    pub in_slot : tx.slot ≡ event.slot
    pub worked : tx.failed ≡ false
    pub account : Account
    pub stored : node.account (deposit_address (from_hex event.transfer_id)) ≡ some account
    pub owned : account.owner ≡ program_id
    pub named : to_hex (slice account.payload 8 32) ≡ event.transfer_id
    pub paid : (length account.payload < 144) ⊎ (read_u64_le account.payload 136 ≡ event.amount)

  abbrev pub IsSound : ℕ → ℕ → Verdict → Type 0
  IsSound required current (deposit_finalized event) = IsGenuine required current event
  IsSound required current (deposit_invalidated event) = Unit

  amount_checked :
      (account : Account) (event : SolanaDepositEvent)
      → amount_matches account event ≡ true
      → (length account.payload < 144) ⊎ (read_u64_le account.payload 136 ≡ event.amount)
  amount_checked account event h = elim (Bool-cases (leb 144 (length account.payload))) [
    | inl long ↦ inr ((==_iff (read_u64_le account.payload 136) event.amount).0 (rw long at h))
    | inr short ↦ inl (ground arith)
  ]

  verified-IsGenuine :
      (required current : ℕ) (event : SolanaDepositEvent)
      → event.slot + required ≤ current
      → verified program_id deposit_address node event ≡ true
      → IsGenuine required current (record event { confirmations = current - event.slot })
  unfolding verify_transaction_finality verify_deposit_pda
  verified-IsGenuine required current event deep h =
      let (final, pda) =
        and_split
          (verify_transaction_finality program_id deposit_address node event.signature event.slot)
          (verify_deposit_pda program_id deposit_address node event) h in
      elim (Option-cases (node.transaction event.signature)) [
        | inl gone ↦ let e = rw gone at final in cc e
        | inr (tx, present) ↦
            elim (Option-cases (node.account (deposit_address (from_hex event.transfer_id)))) [
              | inl gone ↦ let e = rw gone at pda in cc e
              | inr (account, stored) ↦
                  let (in_slot, worked) =
                    and_split (tx.slot == event.slot) (not tx.failed) (rw present at final) in
                  let p = rw stored at pda in
                  let size = leb 40 (length account.payload) in
                  let name = text_eq (to_hex (slice account.payload 8 32)) event.transfer_id in
                  let owner = bytes_eq account.owner program_id in
                  let (stated, paid) =
                    and_split (owner && size && name) (amount_matches account event) p in
                  let (sized, named) = and_split (owner && size) name stated in
                  let (owned, long) = and_split owner size sized in
                  record {
                    deep = deep;
                    confirmations = refl;
                    tx = tx;
                    present = present;
                    in_slot = (==_iff tx.slot event.slot).0 in_slot;
                    worked = not-true tx.failed worked;
                    account = account;
                    stored = stored;
                    owned = eq_of_bytes_eq account.owner program_id owned;
                    named = eq_of_text_eq _ _ named;
                    paid = amount_checked account event paid;
                  }
            ]
      ]

  settle_all-IsSound :
      (required current : ℕ) (events : List (Text × SolanaDepositEvent)) (w : SolanaWatcher)
      → All
          (IsSound required current)
          (settle_all program_id deposit_address node required current events w).1
  unfolding settle_all settle
  settle_all-IsSound required current [] w = tt
  settle_all-IsSound required current ((id, event) ∷ events) w =
      elim (Bool-cases (leb (event.slot + required) current)) [
        | inr shallow ↦ rw shallow (settle_all-IsSound required current events w)
        | inl deep ↦
            let next = record w { pending_events = map_delete id w.pending_events } in
            elim (Bool-cases (verified program_id deposit_address node event)) [
              | inl good ↦
                  rw (deep, good)
                    (
                      verified-IsGenuine required current event (leb→le _ _ deep) good,
                      settle_all-IsSound required current events next,
                    )
              | inr bad ↦ rw (deep, bad) (tt, settle_all-IsSound required current events next)
            ]
      ]

  -- Every deposit that a round of the finality loop gives out as final has the confirmations asked
  -- for at a finalized slot of the node, a finalized transaction of its own slot that did not fail,
  -- and an account of the program at the address of its id that holds the id and, unless it is too
  -- short to hold one, the amount.
  pub check_finality-IsSound :
      (required current : ℕ) (w : SolanaWatcher)
      → node.finalized_slot ≡ some current
      → All (IsSound required current) (check_finality program_id deposit_address node required w).1
  unfolding check_finality check_at
  check_finality-IsSound required current w e =
      subst
        (λ slot.
          All (IsSound required current)
            (check_at program_id deposit_address node required slot w).1)
        (sym e) (settle_all-IsSound required current w.pending_events w)
