-- ===== src/Consensus/Progress.antt =====
-- `receiveAttestation` (validator/src/consensus/engine.ts) on the attestation of an honest validator.
use sol_gateway_dcc_zk_proof.Base.{
  ◌+◌, ◌≤◌, ◌≡◌, refl, Bool, true, false, ◌&&◌, not, Option, some, [], ◌∷◌, ◌++◌, ok, length,
  length-append, leb, le→leb, ltb, arith, text_eq, text_eq_refl, map_get, map_get-map_set, set_has,
}
use sol_gateway_dcc_zk_proof.Bytes.{Bytes, bytes_eq, bytes_eq_refl}
use sol_gateway_dcc_zk_proof.Messages.{type_of, to_hex}
use sol_gateway_dcc_zk_proof.Consensus.State.{
  Attestation, PeerAttestation, PendingConsensus, Engine, consensus_reached, cleanup_timer,
}
use sol_gateway_dcc_zk_proof.Consensus.Deciding.{
  required_for, reach, check_pending, check_consensus,
}
use sol_gateway_dcc_zk_proof.Consensus.Attesting.{
  some_node, some_key, verify, screen, receive_attestation, count_screened,
}

-- The attestation as a peer sends it.
abbrev pub sent : Attestation → PeerAttestation
sent b = record {
  node_id = b.node_id;
  transfer_id = b.transfer_id;
  attestation_type = b.attestation_type;
  signature = some b.signature;
  public_key = some b.public_key;
  message_hash = some b.message_hash;
  timestamp = b.timestamp;
}

module _ (nacl_verify dcc_verify : Bytes → Bytes → Bytes → Option Bool) where
  -- A registered validator, whose attestation is not in the unresolved round `p` of its transfer,
  -- signs the message of that round and names itself by its key.
  pub record IsWelcome (e : Engine) (b : Attestation) (p : PendingConsensus) : Type 0 where
    pub registered : set_has (to_hex b.public_key) e.registered_validators ≡ true
    pub named : b.node_id ≡ to_hex b.public_key
    pub verified :
        verify nacl_verify dcc_verify b.attestation_type b.message_hash b.signature b.public_key
        ≡ some true
    pub found : map_get b.transfer_id e.pending_consensus ≡ some p
    pub unresolved : p.resolved ≡ false
    pub new_node : some_node b.node_id p.attestations ≡ false
    pub new_key : some_key b.public_key p.attestations ≡ false
    pub same : b.message_hash ≡ p.message

  screen-sent :
      (e : Engine) (b : Attestation) (p : PendingConsensus)
      → IsWelcome e b p
      → screen nacl_verify dcc_verify e (sent b) ≡ ok (b, p)
  unfolding screen
  screen-sent e b p h =
      let registered : (ltb 0 (length e.registered_validators)
            && not (set_has (to_hex b.public_key) e.registered_validators))
          ≡ false =
        rw h.registered (and_false (ltb 0 (length e.registered_validators))) in
      let named : text_eq b.node_id (to_hex b.public_key) ≡ true =
        rw h.named (text_eq_refl (to_hex b.public_key)) in
      let agrees : bytes_eq p.message b.message_hash ≡ true = rw h.same (bytes_eq_refl p.message) in
      rw (registered, named, h.verified, h.found, h.unresolved, h.new_node, h.new_key, agrees) refl
    where
      and_false : (b : Bool) → (b && false) ≡ false
      and_false true = refl
      and_false false = refl

  -- A welcome attestation that brings its round to the signatures required resolves the round: the
  -- result that is emitted holds it and all those before it.
  pub receive_attestation-reaches :
      (disk_ok : Bool) (e : Engine) (b : Attestation) (p : PendingConsensus)
      → IsWelcome e b p
      → required_for e.config (type_of p.request.event) ≤ length p.attestations + 1
      → (receive_attestation nacl_verify dcc_verify disk_ok (sent b) e).1
        ≡ consensus_reached (record {
          transfer_id = b.transfer_id;
          result_type = type_of p.request.event;
          attestations = p.attestations ++ b ∷ [];
          achieved = true;
          required_signatures = required_for e.config (type_of p.request.event);
          received_signatures = length (p.attestations ++ b ∷ []);
          request = some p.request;
        })
          ∷ cleanup_timer b.transfer_id 60000
          ∷ []
  unfolding receive_attestation count_screened check_consensus check_pending reach
  receive_attestation-reaches disk_ok e b p h many =
      let grown : PendingConsensus = record p { attestations = p.attestations ++ b ∷ [] } in
      let stored = map_get-map_set b.transfer_id grown e.pending_consensus in
      let enough : leb (required_for e.config (type_of p.request.event))
            (length (p.attestations ++ b ∷ []))
          ≡ true =
        le→leb _ _ (omega (arith, many, length-append p.attestations (b ∷ []))) in
      rw (screen-sent e b p h, stored, h.unresolved, enough) refl
