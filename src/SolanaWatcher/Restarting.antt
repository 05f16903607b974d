-- ===== src/SolanaWatcher/Restarting.antt =====
-- A restart of validator/src/watchers/solana-watcher.ts between a poll and the finality of what it
-- took up.
use sol_gateway_dcc_zk_proof.Base.{
  ℕ, ◌≡◌, refl, Bool, true, false, some, List, [], ◌∷◌, ◌++◌, Text, All, get_elem?,
}
use sol_gateway_dcc_zk_proof.Bytes.{Bytes}
use sol_gateway_dcc_zk_proof.Messages.{SolanaDepositEvent}
use sol_gateway_dcc_zk_proof.SolanaWatcher.Polling.{
  SignatureInfo, Fetched, log_lines, SolanaWatcher, new_watcher, seed_cursor,
}
use sol_gateway_dcc_zk_proof.SolanaWatcher.Pending.{IsPending}
use sol_gateway_dcc_zk_proof.SolanaWatcher.Skipping.{
  IsReadable, Stops, poll, events_of, handle_signature-Handled, poll-step, poll-Stops,
  poll_signatures-takes,
}

-- What a restart makes of a watcher, when the newest transactions can be asked for.
abbrev pub restarted : Bool → List SignatureInfo → SolanaWatcher → SolanaWatcher
restarted disk_ok recent w = seed_cursor disk_ok (some recent) (new_watcher w.cursor_file)

seed_cursor-saved :
    (disk_ok : Bool) (recent : List SignatureInfo) (signature : Text) (w : SolanaWatcher)
    → w.cursor_file ≡ some signature
    → restarted disk_ok recent w ≡ record {
      pending_events = [];
      last_seen_signature = some signature;
      cursor_file = some signature;
    }
unfolding seed_cursor new_watcher
seed_cursor-saved disk_ok recent signature w e = rw e refl

module _ (key_text : Bytes → Text) (from_base64 : Text → Bytes)
    (discriminator discriminator_spl : Bytes) (fetch : Text → Fetched) where
  abbrev polled : List SignatureInfo → SolanaWatcher → SolanaWatcher
  polled = poll key_text from_base64 discriminator discriminator_spl true fetch

  abbrev AreReadable : List SignatureInfo → Type 0
  AreReadable = All (IsReadable key_text from_base64 discriminator discriminator_spl true fetch)

  polled-saved :
      (ss rest : List SignatureInfo) (s : SignatureInfo) (w : SolanaWatcher)
      → AreReadable (ss ++ s ∷ [])
      → Stops key_text from_base64 discriminator discriminator_spl true fetch rest
      → (polled ((ss ++ s ∷ []) ++ rest) w).cursor_file ≡ some s.signature
  polled-saved [] rest s w (r, _) stops =
      let (w', done) =
        handle_signature-Handled key_text from_base64 discriminator discriminator_spl true fetch s w
          r in
      rw
        (
          poll-step key_text from_base64 discriminator discriminator_spl true fetch s rest w w'
              done.step,
          poll-Stops key_text from_base64 discriminator discriminator_spl true fetch rest w' stops,
        )
        done.saved
  polled-saved (t ∷ ss) rest s w (r, rs) stops =
      let (w', done) =
        handle_signature-Handled key_text from_base64 discriminator discriminator_spl true fetch t w
          r in
      rw
        (poll-step key_text from_base64 discriminator discriminator_spl true fetch t
          ((ss ++ s ∷ []) ++ rest) w w' done.step)
        (polled-saved ss rest s w' rs stops)

  -- A poll whose cursor can be written takes up the deposit events of its transactions, and a
  -- restart after it forgets them all: nothing is pending then, and the cursor stands at the last
  -- transaction that the poll moved past.
  pub seed_cursor-forgets :
      (ss rest recent : List SignatureInfo) (last : SignatureInfo) (i j : ℕ) (s : SignatureInfo)
      (lines : List Text) (event : SolanaDepositEvent) (disk_ok : Bool) (w : SolanaWatcher)
      → All
          (IsReadable key_text from_base64 discriminator discriminator_spl true fetch)
          (ss ++ last ∷ [])
      → Stops key_text from_base64 discriminator discriminator_spl true fetch rest
      → get_elem? (ss ++ last ∷ []) i ≡ some s
      → s.failed ≡ false
      → fetch s.signature ≡ log_lines lines
      → get_elem?
          (events_of key_text from_base64 discriminator discriminator_spl true fetch s.signature
            lines)
          j
        ≡ some event
      → IsPending event.transfer_id (polled ((ss ++ last ∷ []) ++ rest) w)
        × (restarted disk_ok recent (polled ((ss ++ last ∷ []) ++ rest) w) ≡ record {
          pending_events = [];
          last_seen_signature = some last.signature;
          cursor_file = some last.signature;
        })
  seed_cursor-forgets ss rest recent last i j s lines event disk_ok w r stops found worked fetched
        parsed =
      (
        (poll_signatures-takes key_text from_base64 discriminator discriminator_spl true fetch ss
            rest last i j s lines event w r stops found worked fetched parsed).1,
        seed_cursor-saved disk_ok recent last.signature (polled ((ss ++ last ∷ []) ++ rest) w)
            (polled-saved ss rest last w r stops),
      )
