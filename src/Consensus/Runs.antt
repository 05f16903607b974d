-- ===== src/Consensus/Runs.antt =====
-- validator/src/consensus/engine.ts as a process: the calls, timers and signatures that may follow
-- one another, a proposal being two steps with anything in between.
use sol_gateway_dcc_zk_proof.Base.{
  ℕ, ◌≡◌, refl, Bool, true, Option, some, List, [], ◌∷◌, ◌++◌, Text, ok, All, All-append,
  Entries-map_delete,
}
use sol_gateway_dcc_zk_proof.Bytes.{Bytes}
use sol_gateway_dcc_zk_proof.Messages.{AttestationType, AttestationRequest, type_of}
use sol_gateway_dcc_zk_proof.Consensus.State.{PeerAttestation, ConsensusConfig, Engine, Effect}
use sol_gateway_dcc_zk_proof.Consensus.Deciding.{
  new_engine, register_validator, remove_validator, sync_validator_set, mark_submitted,
  check_consensus_timeout, cleanup,
}
use sol_gateway_dcc_zk_proof.Consensus.Attesting.{
  begin_proposal, finish_proposal, verify, receive_attestation,
}
use sol_gateway_dcc_zk_proof.Consensus.Rounds.{
  IsSoundRound, HasSoundRounds, IsSoundEffect, check_consensus_timeout-IsSoundStep, persist-config,
  persist-pending_consensus,
}
use sol_gateway_dcc_zk_proof.Consensus.Receipts.{
  receive_attestation-IsSoundStep, finish_proposal-IsSoundStep,
}

-- The engine, and the proposals whose message is being signed.
pub record Process : Type 0 where
  pub engine : Engine
  pub signing : List (AttestationRequest × Bytes)

module _ (nacl_verify dcc_verify : Bytes → Bytes → Bytes → Option Bool)
    (web3_key : Text → Option Bytes) (get_public_key : AttestationType → Bytes)
    (sign_message : Bytes → AttestationType → Bytes) where
  pub data Step : Process → List Effect → Process → Type 0 where
    registers :
        (key : Text) (s : Process)
        → Step s [] (record s { engine = register_validator key s.engine })
    removes :
        (key : Text) (s : Process) → Step s [] (record s { engine = remove_validator key s.engine })
    syncs :
        (own_key : Bytes) (keys : List Text) (s : Process)
        → Step s [] (record s { engine = sync_validator_set own_key keys s.engine })
    submits :
        (disk_ok : Bool) (transfer_id : Text) (s : Process)
        → Step s [] (record s { engine = mark_submitted disk_ok transfer_id s.engine })
    begins :
        (request : AttestationRequest) (message : Bytes) (s : Process)
        → begin_proposal web3_key request s.engine ≡ some (ok message)
        → Step s [] (record s { signing = (request, message) ∷ s.signing })
    signs :
        (disk_ok : Bool) (now : ℕ) (request : AttestationRequest) (message : Bytes)
        (before after : List (AttestationRequest × Bytes)) (s : Process)
        → s.signing ≡ before ++ (request, message) ∷ after
        → Step s
            (finish_proposal get_public_key disk_ok request message
              (sign_message message (type_of request.event))
              now
              s.engine).1
            (record {
              engine =
                  (finish_proposal get_public_key disk_ok request message
                    (sign_message message (type_of request.event))
                    now
                    s.engine).0;
              signing = before ++ after;
            })
    receives :
        (disk_ok : Bool) (a : PeerAttestation) (s : Process)
        → Step s (receive_attestation nacl_verify dcc_verify disk_ok a s.engine).1 (record s {
          engine = (receive_attestation nacl_verify dcc_verify disk_ok a s.engine).0;
        })
    times_out :
        (transfer_id : Text) (s : Process)
        → Step s
            (check_consensus_timeout transfer_id s.engine).1
            (record s { engine = (check_consensus_timeout transfer_id s.engine).0 })
    cleans :
        (transfer_id : Text) (s : Process)
        → Step s [] (record s { engine = cleanup transfer_id s.engine })

  -- Steps from a process, with all their effects in order.
  pub data Run : Process → List Effect → Process → Type 0 where
    rest : (s : Process) → Run s [] s
    step :
        {s t u : Process} {effects more : List Effect}
        → Step s effects t
        → Run t more u
        → Run s (effects ++ more) u

  unfoldable pub start : ConsensusConfig → Option (List Text) → Process
  start config disk = record { engine = new_engine config disk; signing = [] }

  module _ (config : ConsensusConfig)
      (signs-verifies : (message : Bytes) (type' : AttestationType)
        → verify nacl_verify dcc_verify type' message
            (sign_message message type')
            (get_public_key type')
          ≡ some true) where
    -- What a step needs and keeps.
    IsSound : Process → Type 0
    IsSound s = (s.engine.config ≡ config) × HasSoundRounds nacl_verify dcc_verify s.engine

    Outcome : List Effect → Process → Type 0
    Outcome effects s = IsSound s × All (IsSoundEffect nacl_verify dcc_verify config) effects

    Step-Outcome :
        {s t : Process} {effects : List Effect} → IsSound s → Step s effects t → Outcome effects t
    unfolding IsSound Outcome register_validator remove_validator sync_validator_set mark_submitted
        cleanup
    Step-Outcome (c, h) (registers key s) = ((c, h), tt)
    Step-Outcome (c, h) (removes key s) = ((c, h), tt)
    Step-Outcome (c, h) (syncs own_key keys s) = ((c, h), tt)
    Step-Outcome (c, h) (submits disk_ok id s) =
        ((rw (persist-config disk_ok) c, rw (persist-pending_consensus disk_ok) h), tt)
    Step-Outcome (c, h) (begins request message s _) = ((c, h), tt)
    Step-Outcome (c, h) (signs disk_ok now request message before after s _) =
        let type' = type_of request.event in
        let r =
          finish_proposal-IsSoundStep nacl_verify dcc_verify config get_public_key disk_ok request
            message (sign_message message type') now s.engine (signs-verifies message type') c h in
        ((r.same, r.rounds), r.effects)
    Step-Outcome (c, h) (receives disk_ok a s) =
        let r =
          receive_attestation-IsSoundStep nacl_verify dcc_verify config disk_ok a s.engine c h in
        ((r.same, r.rounds), r.effects)
    Step-Outcome (c, h) (times_out id s) =
        let r = check_consensus_timeout-IsSoundStep nacl_verify dcc_verify config id s.engine c h in
        ((r.same, r.rounds), r.effects)
    Step-Outcome (c, h) (cleans id s) = (
      (c, Entries-map_delete (IsSoundRound nacl_verify dcc_verify) id s.engine.pending_consensus h),
      tt,
    )

    Run-Outcome :
        {s u : Process} {effects : List Effect} → IsSound s → Run s effects u → Outcome effects u
    unfolding Outcome
    Run-Outcome h (rest s) = (h, tt)
    Run-Outcome h (step {effects = now} {more} one others) =
        let (sound, first) = Step-Outcome h one in
        let (last, later) = Run-Outcome sound others in
        (last, All-append (IsSoundEffect nacl_verify dcc_verify config) now more first later)

    -- When the own signatures verify, every result that a new engine emits as reached, in any order
    -- of calls, timers and signatures, holds at least as many attestations as its type requires, with
    -- distinct keys, for its transfer, each a verified signature of one and the same message.
    pub Run-IsQuorum :
        (disk : Option (List Text)) {effects : List Effect} {u : Process}
        → Run (start config disk) effects u
        → All (IsSoundEffect nacl_verify dcc_verify config) effects
    unfolding start new_engine Outcome IsSound
    Run-IsQuorum disk r = (Run-Outcome (refl, tt) r).1
