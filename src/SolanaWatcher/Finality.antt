-- ===== src/SolanaWatcher/Finality.antt =====
-- validator/src/watchers/solana-watcher.ts: the check of pending deposits for finality.
use sol_gateway_dcc_zk_proof.Base.{
  ℕ, ◌+◌, ◌-◌, Bool, true, false, ◌&&◌, not, Option, none, some, List, [], ◌∷◌, ◌++◌, Text, length,
  leb, ◌==◌, if◌then◌else◌, text_eq, map_delete,
}
use sol_gateway_dcc_zk_proof.Bytes.{Bytes, bytes_eq}
use sol_gateway_dcc_zk_proof.Bytes.Digits.{read_u64_le}
use sol_gateway_dcc_zk_proof.Bytes.Layout.{slice}
use sol_gateway_dcc_zk_proof.Messages.{SolanaDepositEvent, from_hex, to_hex}
use sol_gateway_dcc_zk_proof.SolanaWatcher.Polling.{SolanaWatcher}

-- A transaction and an account as the node gives them at the commitment `finalized`.
pub record SolanaTransaction : Type 0 where
  pub slot : ℕ
  pub failed : Bool

pub record Account : Type 0 where
  pub owner : Bytes
  pub payload : Bytes

-- The answers, with none where the request throws or there is nothing.
pub record SolanaNode : Type 0 where
  pub finalized_slot : Option ℕ
  pub transaction : Text → Option SolanaTransaction
  pub account : Bytes → Option Account

pub data Verdict : Type 0 where
  deposit_finalized : SolanaDepositEvent → Verdict
  deposit_invalidated : SolanaDepositEvent → Verdict

abbrev is_final : ℕ → Option SolanaTransaction → Bool
is_final event_slot none = false
is_final event_slot (some tx) = tx.slot == event_slot && not tx.failed

-- The amount, if the account is long enough for one.
abbrev pub amount_matches : Account → SolanaDepositEvent → Bool
amount_matches account event =
    if leb 144 (length account.payload)
    then read_u64_le account.payload 136 == event.amount
    else true

-- `deposit_address` is `findProgramAddressSync` for the seed `deposit` and the id.
module _ (program_id : Bytes) (deposit_address : Bytes → Bytes) (node : SolanaNode) where
  unfoldable pub verify_transaction_finality : Text → ℕ → Bool
  verify_transaction_finality signature event_slot =
      is_final event_slot (node.transaction signature)

  unfoldable pub matches_account : SolanaDepositEvent → Option Account → Bool
  matches_account event none = false
  matches_account event (some account) =
      bytes_eq account.owner program_id
      && leb 40 (length account.payload)
      && text_eq (to_hex (slice account.payload 8 32)) event.transfer_id
      && amount_matches account event

  unfoldable pub verify_deposit_pda : SolanaDepositEvent → Bool
  unfolding matches_account
  verify_deposit_pda event =
      matches_account event (node.account (deposit_address (from_hex event.transfer_id)))

  abbrev pub verified : SolanaDepositEvent → Bool
  verified event =
      verify_transaction_finality event.signature event.slot && verify_deposit_pda event

  -- The body of the loop over the pending events.
  unfoldable pub settle :
      ℕ → ℕ → Text → SolanaDepositEvent → SolanaWatcher → SolanaWatcher × List Verdict
  settle required current transfer_id event w =
      if leb (event.slot + required) current
      then (
        record w { pending_events = map_delete transfer_id w.pending_events },
        (if verified event
              then deposit_finalized (record event { confirmations = current - event.slot })
              else deposit_invalidated event)
            ∷ [],
      )
      else (w, [])

  unfoldable pub settle_all :
      ℕ → ℕ → List (Text × SolanaDepositEvent) → SolanaWatcher → SolanaWatcher × List Verdict
  settle_all required current [] w = (w, [])
  settle_all required current ((transfer_id, event) ∷ events) w =
      let (w₁, verdicts) = settle required current transfer_id event w in
      let (w₂, later) = settle_all required current events w₁ in (w₂, verdicts ++ later)

  unfoldable pub check_at : ℕ → Option ℕ → SolanaWatcher → SolanaWatcher × List Verdict
  unfolding settle_all
  check_at required none w = (w, [])
  check_at required (some current) w = settle_all required current w.pending_events w

  -- One round of `runFinalityLoop`.
  unfoldable pub check_finality : ℕ → SolanaWatcher → SolanaWatcher × List Verdict
  unfolding check_at
  check_finality required w = check_at required node.finalized_slot w
