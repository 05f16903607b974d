-- ===== src/SolanaWatcher/Skipping.antt =====
-- The poll of validator/src/watchers/solana-watcher.ts: which deposits it takes up, and where it
-- leaves its cursor.
use sol_gateway_dcc_zk_proof.Base.{
  ℕ, zero, suc, ◌≡◌, ◌≢◌, ◌⊎◌, refl, inl, inr, Bool, true, false, Option, some, List, [], ◌∷◌, ◌++◌,
  Text, All, if◌then◌else◌, get_elem?, Bool-cases,
}
use sol_gateway_dcc_zk_proof.Bytes.{Bytes}
use sol_gateway_dcc_zk_proof.Messages.{SolanaDepositEvent}
use sol_gateway_dcc_zk_proof.SolanaWatcher.Pending.{
  IsPending, add_events-keeps, add_events-takes, advance_cursor-keeps,
}
use sol_gateway_dcc_zk_proof.SolanaWatcher.Polling.{
  SignatureInfo, Fetched, throws, no_logs, log_lines, SolanaWatcher, add_events, advance_cursor,
  parse_deposit_events, process_logs, handle, handle_signature, poll_signatures,
}

module _ (key_text : Bytes → Text) (from_base64 : Text → Bytes)
    (discriminator discriminator_spl : Bytes) (disk_ok : Bool) (fetch : Text → Fetched) where
  abbrev pub poll : List SignatureInfo → SolanaWatcher → SolanaWatcher
  poll = poll_signatures key_text from_base64 discriminator discriminator_spl disk_ok fetch

  abbrev pub handled : SignatureInfo → SolanaWatcher → Option SolanaWatcher
  handled = handle_signature key_text from_base64 discriminator discriminator_spl disk_ok fetch

  abbrev pub events_of : Text → List Text → List SolanaDepositEvent
  events_of = parse_deposit_events key_text from_base64 discriminator discriminator_spl

  -- The transactions that a poll moves past.
  abbrev pub IsReadable : SignatureInfo → Type 0
  IsReadable s = (s.failed ≡ true) ⊎ (fetch s.signature ≢ throws)

  -- Nothing left, or a transaction that cannot be fetched now.
  abbrev pub Stops : List SignatureInfo → Type 0
  Stops [] = Unit
  Stops (s ∷ ss) = (s.failed ≡ false) × (fetch s.signature ≡ throws)

  pub record Handled (s : SignatureInfo) (w w' : SolanaWatcher) : Type 0 where
    pub moved : w'.last_seen_signature ≡ some s.signature
    -- What stays in the file where it cannot be written.
    pub old : Option Text
    pub saved : w'.cursor_file ≡ (if disk_ok then some s.signature else old)
    pub keeps : (k : Text) → IsPending k w → IsPending k w'
    pub step : handled s w ≡ some w'

  pub handle_signature-Handled :
      (s : SignatureInfo) (w : SolanaWatcher) → IsReadable s → (w' : SolanaWatcher) × Handled s w w'
  unfolding handle_signature handle process_logs advance_cursor
  handle_signature-Handled s w readable = elim (Bool-cases s.failed) [
    | inl failed ↦ (
      advance_cursor disk_ok s.signature w,
      record {
        moved = refl;
        old = w.cursor_file;
        saved = refl;
        keeps = λ k h. h;
        step = rw failed refl;
      },
    )
    | inr worked ↦ fetched (fetch s.signature) refl worked readable
  ]
    where
      fetched :
          (f : Fetched)
          → fetch s.signature ≡ f
          → s.failed ≡ false
          → IsReadable s
          → (w' : SolanaWatcher) × Handled s w w'
      fetched throws e worked (inl failed) = cc (worked, failed)
      fetched throws e worked (inr n) = absurd (n e)
      fetched no_logs e worked r = (
        advance_cursor disk_ok s.signature w,
        record {
          moved = refl;
          old = w.cursor_file;
          saved = refl;
          keeps = λ k h. h;
          step = rw (worked, e) refl;
        },
      )
      fetched (log_lines lines) e worked r =
          let events = events_of s.signature lines in
          (
            advance_cursor disk_ok s.signature (add_events events w),
            record {
              moved = refl;
              old = (add_events events w).cursor_file;
              saved = refl;
              keeps = λ k h. add_events-keeps k events w h;
              step = rw (worked, e) refl;
            },
          )

  handled-lines :
      (s : SignatureInfo) (lines : List Text) (w : SolanaWatcher)
      → s.failed ≡ false
      → fetch s.signature ≡ log_lines lines
      → handled s w
        ≡ some (advance_cursor disk_ok s.signature (add_events (events_of s.signature lines) w))
  unfolding handle_signature handle process_logs
  handled-lines s lines w worked e = rw (worked, e) refl

  pub poll-step :
      (s : SignatureInfo) (ss : List SignatureInfo) (w w' : SolanaWatcher)
      → handled s w ≡ some w'
      → poll (s ∷ ss) w ≡ poll ss w'
  unfolding poll_signatures
  poll-step s ss w w' e = rw e refl

  pub poll-Stops : (rest : List SignatureInfo) (w : SolanaWatcher) → Stops rest → poll rest w ≡ w
  unfolding poll_signatures handle_signature handle
  poll-Stops [] w h = refl
  poll-Stops (s ∷ ss) w (worked, e) = rw (worked, e) refl

  IsReadable-cases : (s : SignatureInfo) → IsReadable s ⊎ Stops (s ∷ [])
  IsReadable-cases s = elim (Bool-cases s.failed) [
    | inl failed ↦ inl (inl failed)
    | inr worked ↦ fetched (fetch s.signature) refl worked
  ]
    where
      fetched :
          (f : Fetched) → fetch s.signature ≡ f → s.failed ≡ false → IsReadable s ⊎ Stops (s ∷ [])
      fetched throws e worked = inr (worked, e)
      fetched no_logs e worked = inl (inr (λ t. cc (e, t)))
      fetched (log_lines lines) e worked = inl (inr (λ t. cc (e, t)))

  poll-keeps :
      (k : Text) (ss : List SignatureInfo) (w : SolanaWatcher)
      → IsPending k w
      → IsPending k (poll ss w)
  poll-keeps k [] w h = rw (poll-Stops [] w tt) h
  poll-keeps k (s ∷ ss) w h = elim (IsReadable-cases s) [
    | inl readable ↦
        let (w', done) = handle_signature-Handled s w readable in
        rw (poll-step s ss w w' done.step) (poll-keeps k ss w' (done.keeps k h))
    | inr stops ↦ rw (poll-Stops (s ∷ ss) w stops) h
  ]

  poll-takes :
      (ss rest : List SignatureInfo) (i j : ℕ) (s : SignatureInfo) (lines : List Text)
      (event : SolanaDepositEvent) (w : SolanaWatcher)
      → All IsReadable ss
      → get_elem? ss i ≡ some s
      → s.failed ≡ false
      → fetch s.signature ≡ log_lines lines
      → get_elem? (events_of s.signature lines) j ≡ some event
      → IsPending event.transfer_id (poll (ss ++ rest) w)
  poll-takes [] rest i j s lines event w r found worked fetched parsed = cc found
  poll-takes (t ∷ ss) rest zero j s lines event w (r, rs) found worked fetched parsed =
      let same : t ≡ s = cc found in
      let events = events_of s.signature lines in
      let next = advance_cursor disk_ok s.signature (add_events events w) in
      let done : handled s w ≡ some next = handled-lines s lines w worked fetched in
      rw (same, poll-step s (ss ++ rest) w next done)
        (poll-keeps event.transfer_id (ss ++ rest) next (
          advance_cursor-keeps disk_ok s.signature event.transfer_id (add_events events w)
            (add_events-takes event events j w parsed)))
  poll-takes (t ∷ ss) rest (suc i) j s lines event w (r, rs) found worked fetched parsed =
      let (w', done) = handle_signature-Handled t w r in
      rw (poll-step t (ss ++ rest) w w' done.step)
        (poll-takes ss rest i j s lines event w' rs found worked fetched parsed)

  poll-cursor :
      (ss rest : List SignatureInfo) (s : SignatureInfo) (w : SolanaWatcher)
      → All IsReadable (ss ++ s ∷ [])
      → Stops rest
      → (poll ((ss ++ s ∷ []) ++ rest) w).last_seen_signature ≡ some s.signature
  poll-cursor [] rest s w (r, _) stops =
      let (w', done) = handle_signature-Handled s w r in
      rw (poll-step s rest w w' done.step, poll-Stops rest w' stops) done.moved
  poll-cursor (t ∷ ss) rest s w (r, rs) stops =
      let (w', done) = handle_signature-Handled t w r in
      rw (poll-step t ((ss ++ s ∷ []) ++ rest) w w' done.step) (poll-cursor ss rest s w' rs stops)

  -- A poll of transactions, oldest first, that can be moved past up to the first that cannot be
  -- fetched, if there is one, leaves the cursor at the last before that, and every deposit event in
  -- the logs of a transaction up to there that did not fail is pending.
  pub poll_signatures-takes :
      (ss rest : List SignatureInfo) (last : SignatureInfo) (i j : ℕ) (s : SignatureInfo)
      (lines : List Text) (event : SolanaDepositEvent) (w : SolanaWatcher)
      → All IsReadable (ss ++ last ∷ [])
      → Stops rest
      → get_elem? (ss ++ last ∷ []) i ≡ some s
      → s.failed ≡ false
      → fetch s.signature ≡ log_lines lines
      → get_elem? (events_of s.signature lines) j ≡ some event
      → ((poll ((ss ++ last ∷ []) ++ rest) w).last_seen_signature ≡ some last.signature)
        × IsPending event.transfer_id (poll ((ss ++ last ∷ []) ++ rest) w)
  poll_signatures-takes ss rest last i j s lines event w r stops found worked fetched parsed = (
    poll-cursor ss rest last w r stops,
    poll-takes (ss ++ last ∷ []) rest i j s lines event w r found worked fetched parsed,
  )
