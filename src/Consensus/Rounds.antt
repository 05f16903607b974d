-- ===== src/Consensus/Rounds.antt =====
-- The rounds of validator/src/consensus/engine.ts: what the operations keep true of each of them,
-- and of the results that they emit.
use sol_gateway_dcc_zk_proof.Base.{
  ◌≤◌, ◌≡◌, refl, inl, inr, Bool, true, false, Option, none, some, List, [], ◌∷◌, ◌++◌, Text,
  length, leb, leb→le, All, map_get, map_delete, Entries, Entries-map_get, Entries-map_set,
  Entries-map_delete, Bool-cases, Option-cases,
}
use sol_gateway_dcc_zk_proof.Bytes.{Bytes, bytes_eq, bytes_eq_comm}
use sol_gateway_dcc_zk_proof.Messages.{type_of, to_hex}
use sol_gateway_dcc_zk_proof.Consensus.State.{
  Attestation, PendingConsensus, ConsensusResult, ConsensusConfig, Engine, Effect,
  attestation_broadcast, unregistered_validator, byzantine_detected, consensus_reached,
  consensus_failed, timeout_timer, cleanup_timer,
}
use sol_gateway_dcc_zk_proof.Consensus.Deciding.{
  required_for, reach, check_pending, check_consensus, time_out, check_consensus_timeout,
  persist_processed_transfers, evict,
}
use sol_gateway_dcc_zk_proof.Consensus.Attesting.{some_key, verify}

-- No two attestations of the list have the same key.
abbrev pub HaveDistinctKeys : List Attestation → Type 0
HaveDistinctKeys [] = Unit
HaveDistinctKeys (a ∷ as') = (some_key a.public_key as' ≡ false) × HaveDistinctKeys as'

some_key-append :
    (xs : List Attestation) (b a : Attestation)
    → some_key b.public_key xs ≡ false
    → bytes_eq a.public_key b.public_key ≡ false
    → some_key b.public_key (xs ++ a ∷ []) ≡ false
some_key-append [] b a h other = rw other
some_key-append (x ∷ xs) b a h other = elim (Bool-cases (bytes_eq x.public_key b.public_key)) [
  | inl same ↦ let t : true ≡ false = rw same at h in cc t
  | inr differ ↦
      let rest : some_key b.public_key xs ≡ false = rw differ at h in
      rw differ (some_key-append xs b a rest other)
]

pub HaveDistinctKeys-append :
    (as' : List Attestation) (a : Attestation)
    → HaveDistinctKeys as'
    → some_key a.public_key as' ≡ false
    → HaveDistinctKeys (as' ++ a ∷ [])
HaveDistinctKeys-append [] a h new = (refl, tt)
HaveDistinctKeys-append (b ∷ as') a (h, hs) new =
    elim (Bool-cases (bytes_eq b.public_key a.public_key)) [
      | inl same ↦ let t : true ≡ false = rw same at new in cc t
      | inr other ↦
          let rest : some_key a.public_key as' ≡ false = rw other at new in
          (
            some_key-append as' b a h (bytes_eq_comm b.public_key a.public_key other),
            HaveDistinctKeys-append as' a hs rest,
          )
    ]

pub persist-config :
    (disk_ok : Bool) (e : Engine) → (persist_processed_transfers disk_ok e).config ≡ e.config
unfolding persist_processed_transfers
persist-config true e = refl
persist-config false e = refl

pub persist-pending_consensus :
    (disk_ok : Bool) (e : Engine)
    → (persist_processed_transfers disk_ok e).pending_consensus ≡ e.pending_consensus
unfolding persist_processed_transfers
persist-pending_consensus true e = refl
persist-pending_consensus false e = refl

module _ (nacl_verify dcc_verify : Bytes → Bytes → Bytes → Option Bool) where
  -- An attestation of a transfer that signs the message with the key it names itself by.
  pub record IsSigned (transfer_id : Text) (message : Bytes) (a : Attestation) : Type 0 where
    pub transfer : a.transfer_id ≡ transfer_id
    pub node : a.node_id ≡ to_hex a.public_key
    pub signs : a.message_hash ≡ message
    pub verified :
        verify nacl_verify dcc_verify a.attestation_type a.message_hash a.signature a.public_key
        ≡ some true

  pub record IsSoundRound (transfer_id : Text) (pending : PendingConsensus) : Type 0 where
    pub transfer : pending.request.transfer_id ≡ transfer_id
    pub distinct : HaveDistinctKeys pending.attestations
    pub signed : All (IsSigned transfer_id pending.message) pending.attestations

  abbrev pub HasSoundRounds : Engine → Type 0
  HasSoundRounds e = Entries IsSoundRound e.pending_consensus

  -- A result that holds as many signatures of one message, by distinct keys, as the configuration
  -- asks for.
  pub record IsQuorum (config : ConsensusConfig) (r : ConsensusResult) : Type 0 where
    pub message : Bytes
    pub enough : required_for config r.result_type ≤ length r.attestations
    pub distinct : HaveDistinctKeys r.attestations
    pub signed : All (IsSigned r.transfer_id message) r.attestations

  abbrev pub IsSoundEffect : ConsensusConfig → Effect → Type 0
  IsSoundEffect config (attestation_broadcast a) = Unit
  IsSoundEffect config (unregistered_validator node transfer_id) = Unit
  IsSoundEffect config (byzantine_detected node transfer_id reason) = Unit
  IsSoundEffect config (consensus_reached r) = IsQuorum config r
  IsSoundEffect config (consensus_failed r) = Unit
  IsSoundEffect config (timeout_timer transfer_id ms) = Unit
  IsSoundEffect config (cleanup_timer transfer_id ms) = Unit

  -- What an operation gives on an engine with the configuration.
  pub record IsSoundStep (config : ConsensusConfig) (s : Engine × List Effect) : Type 0 where
    pub same : s.0.config ≡ config
    pub rounds : HasSoundRounds s.0
    pub effects : All (IsSoundEffect config) s.1

  module _ (config : ConsensusConfig) where
    -- Nothing done, or only effects that say nothing of a quorum.
    idle :
        (e : Engine) (effects : List Effect)
        → e.config ≡ config
        → HasSoundRounds e
        → All (IsSoundEffect config) effects
        → IsSoundStep config (e, effects)
    idle e effects c h s = record { same = c; rounds = h; effects = s }

    reach-IsSoundStep :
        (disk_ok : Bool) (id : Text) (p : PendingConsensus) (e : Engine)
        → e.config ≡ config
        → HasSoundRounds e
        → IsSoundRound id p
        → leb (required_for e.config (type_of p.request.event)) (length p.attestations) ≡ true
        → IsSoundStep config (reach disk_ok id p e)
    unfolding reach
    reach-IsSoundStep disk_ok id p e c h round many =
        let left : Engine = record e {
          pending_consensus = map_delete id e.pending_consensus;
          processed_transfers = evict e.processed_transfers;
        } in
        record {
          same = rw (persist-config disk_ok left) c;
          rounds =
              rw (persist-pending_consensus disk_ok left)
                (Entries-map_delete IsSoundRound id e.pending_consensus h);
          effects = (
            record {
              message = p.message;
              enough =
                  leb→le (required_for config (type_of p.request.event)) (length p.attestations)
                    (rw c at many);
              distinct = round.distinct;
              signed = round.signed;
            },
            (tt, tt),
          );
        }

    check_pending-IsSoundStep :
        (disk_ok : Bool) (id : Text) (o : Option PendingConsensus) (e : Engine)
        → e.config ≡ config
        → HasSoundRounds e
        → ((p : PendingConsensus) → o ≡ some p → IsSoundRound id p)
        → IsSoundStep config (check_pending disk_ok id o e)
    unfolding check_pending reach
    check_pending-IsSoundStep disk_ok id none e c h sound = idle e [] c h tt
    check_pending-IsSoundStep disk_ok id (some p) e c h sound = elim (Bool-cases p.resolved) [
      | inl done ↦ rw done (idle e [] c h tt)
      | inr active ↦
          elim (Bool-cases
            (leb (required_for e.config (type_of p.request.event)) (length p.attestations))) [
              | inl many ↦
                  rw (active, many) (reach-IsSoundStep disk_ok id p e c h (sound p refl) many)
              | inr few ↦ rw (active, few) (idle e [] c h tt)
            ]
    ]

    pub check_consensus-IsSoundStep :
        (disk_ok : Bool) (id : Text) (e : Engine)
        → e.config ≡ config
        → HasSoundRounds e
        → IsSoundStep config (check_consensus disk_ok id e)
    unfolding check_consensus
    check_consensus-IsSoundStep disk_ok id e c h =
        check_pending-IsSoundStep disk_ok id (map_get id e.pending_consensus) e c h
          (λ p found. Entries-map_get IsSoundRound id p e.pending_consensus h found)

    pub check_consensus_timeout-IsSoundStep :
        (id : Text) (e : Engine)
        → e.config ≡ config
        → HasSoundRounds e
        → IsSoundStep config (check_consensus_timeout id e)
    unfolding check_consensus_timeout time_out
    check_consensus_timeout-IsSoundStep id e c h =
        elim (Option-cases (map_get id e.pending_consensus)) [
          | inl missing ↦ rw missing (idle e [] c h tt)
          | inr (p, found) ↦
              let round = Entries-map_get IsSoundRound id p e.pending_consensus h found in
              let marked : PendingConsensus = record p { resolved = true } in
              let kept : IsSoundRound id marked = record {
                transfer = round.transfer;
                distinct = round.distinct;
                signed = round.signed;
              } in
              elim (Bool-cases p.resolved) [
                | inl done ↦ rw (found, done) (idle e [] c h tt)
                | inr active ↦
                    rw (found, active)
                      (record {
                        same = c;
                        rounds = Entries-map_set IsSoundRound id marked e.pending_consensus h kept;
                        effects = (tt, (tt, tt));
                      })
              ]
        ]
