-- ===== src/Consensus/Receipts.antt =====
-- `receiveAttestation` and `proposeAttestation` of validator/src/consensus/engine.ts as steps between
-- engines with sound rounds.
use sol_gateway_dcc_zk_proof.Base.{
  is_some, ℕ, ◌≡◌, refl, sym, subst, Bool, true, false, not, ◌&&◌, Option, none, some, List, [],
  ◌∷◌, ◌++◌, Text, Result, ok, err, ◌>>=◌, ◌>>◌, require, require-eq-ok, length, ltb, All,
  All-append, text_eq, eq_of_text_eq, map_get, map_set, Entries-map_get, Entries-map_set, set_has,
  if◌then◌else◌,
}
use sol_gateway_dcc_zk_proof.Bytes.{Bytes, bytes_eq, eq_of_bytes_eq}
use sol_gateway_dcc_zk_proof.Messages.{AttestationType, AttestationRequest, type_of, to_hex}
use sol_gateway_dcc_zk_proof.Consensus.State.{
  Attestation, PeerAttestation, PendingConsensus, ConsensusConfig, Engine, Effect,
  unregistered_validator, byzantine_detected, timeout_timer, node_id_pubkey_mismatch,
  invalid_signature, message_mismatch,
}
use sol_gateway_dcc_zk_proof.Consensus.Deciding.{check_consensus}
use sol_gateway_dcc_zk_proof.Consensus.Attesting.{
  some_node, some_key, verify, screen, receive_attestation, add_attestation, local_attestation,
  finish_proposal, given, count_screened,
}
use sol_gateway_dcc_zk_proof.Consensus.Rounds.{
  IsSigned, IsSoundRound, HasSoundRounds, IsSoundEffect, IsSoundStep, HaveDistinctKeys-append,
  check_consensus-IsSoundStep,
}

module _ {A B : Type 0} where
  given-eq-ok :
      (o : Option A) (effects : List Effect) (k : A → Result (List Effect) B) {v : B}
      → (given o effects >>= k) ≡ ok v
      → (a : A) × (o ≡ some a) × (k a ≡ ok v)
  given-eq-ok none effects k h = cc
  given-eq-ok (some a) effects k h = (a, refl, h)

not-false : (b : Bool) → not b ≡ true → b ≡ false
not-false true h = cc
not-false false h = refl

module _ (nacl_verify dcc_verify : Bytes → Bytes → Bytes → Option Bool) where
  abbrev Sound : Text → Bytes → Attestation → Type 0
  Sound = IsSigned nacl_verify dcc_verify

  -- What the guards have found when they let an attestation through.
  record Passed (e : Engine) (a : PeerAttestation) (b : Attestation) (p : PendingConsensus)
      : Type 0 where
    found : map_get b.transfer_id e.pending_consensus ≡ some p
    signed : Sound b.transfer_id p.message b
    fresh : some_key b.public_key p.attestations ≡ false

  carry :
      (e : Engine) (a : PeerAttestation) (x b : Attestation) (q p : PendingConsensus)
      → Passed e a x q
      → ◌≡◌ {A = Result (List Effect) (Attestation × PendingConsensus)} (ok (x, q)) (ok (b, p))
      → Passed e a b p
  carry e a x b q p s h =
      let e₁ : x ≡ b = cc h in
      let e₂ : q ≡ p = cc h in subst (λ y. Passed e a y p) e₁ (subst (λ y. Passed e a x y) e₂ s)

  screen-Passed :
      (e : Engine) (a : PeerAttestation) (b : Attestation) (p : PendingConsensus)
      → screen nacl_verify dcc_verify e a ≡ ok (b, p)
      → Passed e a b p
  unfolding screen
  screen-Passed e a b p h =
      let (key, _, h₁) = given-eq-ok a.public_key [] _ h in
      let (sig, _, h₂) = given-eq-ok a.signature [] _ h₁ in
      let (hash, _, h₃) = given-eq-ok a.message_hash [] _ h₂ in
      let (_, h₄) =
        require-eq-ok
          (not (
            ltb 0 (length e.registered_validators)
            && not (set_has (to_hex key) e.registered_validators)))
          (unregistered_validator a.node_id a.transfer_id ∷ []) _ h₃ in
      let (named, h₅) =
        require-eq-ok (text_eq a.node_id (to_hex key))
          (byzantine_detected a.node_id a.transfer_id node_id_pubkey_mismatch ∷ []) _ h₄ in
      let (valid, checked, h₆) =
        given-eq-ok (verify nacl_verify dcc_verify a.attestation_type hash sig key) [] _ h₅ in
      let (good, h₇) =
        require-eq-ok valid (byzantine_detected a.node_id a.transfer_id invalid_signature ∷ []) _
          h₆ in
      let (q, found, h₈) = given-eq-ok (map_get a.transfer_id e.pending_consensus) [] _ h₇ in
      let (_, h₉) = require-eq-ok (not q.resolved) [] _ h₈ in
      let (_, h₁₀) = require-eq-ok (not (some_node a.node_id q.attestations)) [] _ h₉ in
      let (fresh, h₁₁) = require-eq-ok (not (some_key key q.attestations)) [] _ h₁₀ in
      let (agrees, h₁₂) =
        require-eq-ok (bytes_eq q.message hash)
          (byzantine_detected a.node_id a.transfer_id message_mismatch ∷ []) _ h₁₁ in
      carry e a _ b q p
        (record {
          found = found;
          signed = record {
            transfer = refl;
            node = eq_of_text_eq a.node_id (to_hex key) named;
            signs = sym (eq_of_bytes_eq q.message hash agrees);
            verified = rw good at checked;
          };
          fresh = not-false (some_key key q.attestations) fresh;
        })
        h₁₂

  module _ (config : ConsensusConfig) where
    -- A screening that, when it refuses, has effects that say nothing of a quorum.
    abbrev Quiet : {A : Type 0} → Result (List Effect) A → Type 0
    Quiet (ok v) = Unit
    Quiet (err effects) = All (IsSoundEffect nacl_verify dcc_verify config) effects

    module _ {A B : Type 0} where
      Quiet-given :
          (o : Option A) (effects : List Effect) (k : A → Result (List Effect) B)
          → All (IsSoundEffect nacl_verify dcc_verify config) effects
          → ((v : A) → Quiet (k v))
          → Quiet (given o effects >>= k)
      Quiet-given none effects k h hs = h
      Quiet-given (some v) effects k h hs = hs v

    module _ {B : Type 0} where
      Quiet-require :
          (b : Bool) (effects : List Effect) (k : Result (List Effect) B)
          → All (IsSoundEffect nacl_verify dcc_verify config) effects
          → Quiet k
          → Quiet (require b effects >> k)
      Quiet-require true effects k h hs = hs
      Quiet-require false effects k h hs = h

    screen-Quiet : (e : Engine) (a : PeerAttestation) → Quiet (screen nacl_verify dcc_verify e a)
    unfolding screen
    screen-Quiet e a = Quiet-given a.public_key [] _ tt λ key.
        Quiet-given a.signature [] _ tt λ sig. Quiet-given a.message_hash [] _ tt λ hash.
          Quiet-require
            (not (
              ltb 0 (length e.registered_validators)
              && not (set_has (to_hex key) e.registered_validators)))
            (unregistered_validator a.node_id a.transfer_id ∷ []) _ (tt, tt)
            (Quiet-require (text_eq a.node_id (to_hex key))
              (byzantine_detected a.node_id a.transfer_id node_id_pubkey_mismatch ∷ []) _ (tt, tt)
              (Quiet-given (verify nacl_verify dcc_verify a.attestation_type hash sig key) [] _ tt
                λ valid.
                  Quiet-require valid
                    (byzantine_detected a.node_id a.transfer_id invalid_signature ∷ []) _ (tt, tt)
                    (Quiet-given (map_get a.transfer_id e.pending_consensus) [] _ tt λ q.
                      Quiet-require (not q.resolved) [] _ tt (
                        Quiet-require (not (some_node a.node_id q.attestations)) [] _ tt (
                          Quiet-require (not (some_key key q.attestations)) [] _ tt (
                            Quiet-require (bytes_eq q.message hash)
                              (byzantine_detected a.node_id a.transfer_id message_mismatch ∷ []) _
                              (tt, tt) tt))))))

    add_attestation-HasSoundRounds :
        (e : Engine) (a : PeerAttestation) (b : Attestation) (p : PendingConsensus)
        → Passed e a b p
        → HasSoundRounds nacl_verify dcc_verify e
        → HasSoundRounds nacl_verify dcc_verify (add_attestation b p e)
    add_attestation-HasSoundRounds e a b p s h =
        let sound = IsSoundRound nacl_verify dcc_verify in
        let round = Entries-map_get sound b.transfer_id p e.pending_consensus h s.found in
        let grown : PendingConsensus = record p { attestations = p.attestations ++ b ∷ [] } in
        Entries-map_set sound b.transfer_id grown e.pending_consensus h (record {
          transfer = round.transfer;
          distinct = HaveDistinctKeys-append p.attestations b round.distinct s.fresh;
          signed =
              All-append (Sound b.transfer_id p.message) p.attestations (b ∷ []) round.signed
                (s.signed, tt);
        })

    -- On an engine with sound rounds an attestation from a peer, whatever it holds, leaves sound
    -- rounds, and a result that it brings about is a quorum.
    pub receive_attestation-IsSoundStep :
        (disk_ok : Bool) (a : PeerAttestation) (e : Engine)
        → e.config ≡ config
        → HasSoundRounds nacl_verify dcc_verify e
        → IsSoundStep nacl_verify dcc_verify config
            (receive_attestation nacl_verify dcc_verify disk_ok a e)
    unfolding receive_attestation count_screened
    receive_attestation-IsSoundStep disk_ok a e c h = go (screen nacl_verify dcc_verify e a) refl
      where
        go :
            (r : Result (List Effect) (Attestation × PendingConsensus))
            → screen nacl_verify dcc_verify e a ≡ r
            → IsSoundStep nacl_verify dcc_verify config (count_screened disk_ok e r)
        go (err effects) found = record {
          same = c;
          rounds = h;
          effects = subst Quiet found (screen-Quiet e a);
        }
        go (ok (b, p)) found =
            let s = screen-Passed e a b p found in
            check_consensus-IsSoundStep nacl_verify dcc_verify config disk_ok b.transfer_id
              (add_attestation b p e) c (add_attestation-HasSoundRounds e a b p s h)

    -- A proposal on an engine with sound rounds leaves sound rounds, and a result that it brings
    -- about at once is a quorum, when the signature of the own key verifies.
    pub finish_proposal-IsSoundStep :
        (get_public_key : AttestationType → Bytes) (disk_ok : Bool) (request : AttestationRequest)
        (message signature : Bytes) (now : ℕ) (e : Engine)
        → verify nacl_verify dcc_verify
            (type_of request.event)
            message
            signature
            (get_public_key (type_of request.event))
          ≡ some true
        → e.config ≡ config
        → HasSoundRounds nacl_verify dcc_verify e
        → IsSoundStep nacl_verify dcc_verify config
            (finish_proposal get_public_key disk_ok request message signature now e)
    unfolding finish_proposal local_attestation
    finish_proposal-IsSoundStep get_public_key disk_ok request message signature now e valid c h =
        let a = local_attestation get_public_key request message signature now in
        let pending : PendingConsensus = record {
          request = request;
          attestations = a ∷ [];
          message = message;
          start_time = now;
          resolved = false;
        } in
        let id = request.transfer_id in
        let round : IsSoundRound nacl_verify dcc_verify id pending = record {
          transfer = refl;
          distinct = (refl, tt);
          signed = (record { transfer = refl; node = refl; signs = refl; verified = valid }, tt);
        } in
        let begun : Engine = record e {
          pending_consensus = map_set id pending e.pending_consensus;
        } in
        let rounds =
          Entries-map_set (IsSoundRound nacl_verify dcc_verify) id pending e.pending_consensus h
            round in
        let s =
          check_consensus-IsSoundStep nacl_verify dcc_verify config disk_ok id begun c rounds in
        record {
          same = s.same;
          rounds = s.rounds;
          effects = (
            tt,
            All-append (IsSoundEffect nacl_verify dcc_verify config) _ _ s.effects (
                timers (is_some (map_get id (check_consensus disk_ok id begun).0.pending_consensus))
                  id e.config.consensus_timeout_ms),
          );
        }
      where
        timers :
            (b : Bool) (id : Text) (ms : ℕ)
            → All
                (IsSoundEffect nacl_verify dcc_verify config)
                (if b then timeout_timer id ms ∷ [] else [])
        timers true id ms = (tt, tt)
        timers false id ms = tt
