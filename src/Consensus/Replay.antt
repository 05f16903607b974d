-- ===== src/Consensus/Replay.antt =====
-- The processed transfers of validator/src/consensus/engine.ts: what `markSubmitted` remembers, and
-- what becomes of a proposal made twice.
use sol_gateway_dcc_zk_proof.Base.{
  ℕ, suc, ◌≤◌, ◌<◌, ◌≡◌, refl, ◌≢◌, inl, inr, Bool, true, false, ◌||◌, Option, none, some, List, [],
  ◌∷◌, ◌++◌, Text, length, length-append, leb, ltb, arith, All, All-append, text_eq, map_get,
  map_get-map_set, set_has, set_add, set_has-append, Bool-cases,
}
use sol_gateway_dcc_zk_proof.Bytes.{Bytes}
use sol_gateway_dcc_zk_proof.Messages.{AttestationType, AttestationRequest, type_of}
use sol_gateway_dcc_zk_proof.Consensus.State.{PendingConsensus, Engine}
use sol_gateway_dcc_zk_proof.Consensus.Deciding.{
  max_processed_transfers, delete_oldest, evict, persist_processed_transfers, mark_submitted,
  required_for, check_pending, check_consensus,
}
use sol_gateway_dcc_zk_proof.Consensus.Attesting.{
  begin_proposal, local_attestation, finish_proposal,
}

-- As many processed transfers as the engine keeps, none of them the empty text.
pub record IsBounded (e : Engine) : Type 0 where
  pub size : length e.processed_transfers ≤ max_processed_transfers
  pub named : All (λ id. id ≢ []) e.processed_transfers

persist-processed_transfers :
    (disk_ok : Bool) (e : Engine)
    → (persist_processed_transfers disk_ok e).processed_transfers ≡ e.processed_transfers
unfolding persist_processed_transfers
persist-processed_transfers true e = refl
persist-processed_transfers false e = refl

set_has-delete_oldest :
    (k x : Text) (ids : List Text) → set_has k (delete_oldest (x ∷ ids ++ k ∷ [])) ≡ true
unfolding set_has
set_has-delete_oldest k [] ids = rw (set_has-append k ids) (or_true (text_eq [] k))
  where
    or_true : (b : Bool) → (b || true) ≡ true
    or_true true = refl
    or_true false = refl
set_has-delete_oldest k (c ∷ cs) ids = set_has-append k ids

set_has-evict-add :
    (k : Text) (ids : List Text)
    → length ids ≤ max_processed_transfers
    → set_has k (evict (set_add k ids)) ≡ true
unfolding set_add
set_has-evict-add k ids h = elim (Bool-cases (set_has k ids)) [
  | inl old ↦
      let fits : ltb max_processed_transfers (length ids) ≡ false = ground (arith, h) in
      rw (old, fits) old
  | inr new ↦ rw new (added ids h)
]
  where
    added :
        (s : List Text)
        → length s ≤ max_processed_transfers
        → set_has k (evict (s ++ k ∷ [])) ≡ true
    added [] h = set_has-append k []
    added (x ∷ s) h = elim (Bool-cases (ltb max_processed_transfers (length (x ∷ s ++ k ∷ [])))) [
      | inl full ↦ rw full (set_has-delete_oldest k x s)
      | inr room ↦ rw room (set_has-append k (x ∷ s))
    ]

-- Once a transfer is marked as submitted, on an engine that keeps no more transfers than its bound,
-- a proposal for it returns at the guards, with nothing signed.
pub mark_submitted-begin_proposal :
    (web3_key : Text → Option Bytes) (disk_ok : Bool) (request : AttestationRequest) (e : Engine)
    → length e.processed_transfers ≤ max_processed_transfers
    → begin_proposal web3_key request (mark_submitted disk_ok request.transfer_id e) ≡ none
unfolding begin_proposal mark_submitted
mark_submitted-begin_proposal web3_key disk_ok request e h =
    let id = request.transfer_id in
    let marked : Engine = record e {
      processed_transfers = evict (set_add id e.processed_transfers);
    } in
    rw (persist-processed_transfers disk_ok marked, set_has-evict-add id e.processed_transfers h)

evict-bounded :
    (ids : List Text)
    → length ids ≤ suc max_processed_transfers
    → All (λ id. id ≢ []) ids
    → (length (evict ids) ≤ max_processed_transfers) × All (λ id. id ≢ []) (evict ids)
evict-bounded [] h hs = (omega arith, tt)
evict-bounded ([] ∷ ids) h (x, hs) = absurd (x refl)
evict-bounded ((c ∷ cs) ∷ ids) h (x, hs) =
    elim (Bool-cases (ltb max_processed_transfers (suc (length ids)))) [
      | inl full ↦ rw full (omega (arith, h), hs)
      | inr room ↦ rw room (ground (arith, room), (x, hs))
    ]

-- To mark a transfer that has a name keeps the processed transfers within their bound, all of them
-- with a name.
mark_submitted-IsBounded :
    (disk_ok : Bool) (transfer_id : Text) (e : Engine)
    → transfer_id ≢ []
    → IsBounded e
    → IsBounded (mark_submitted disk_ok transfer_id e)
unfolding mark_submitted set_add
mark_submitted-IsBounded disk_ok id e nonempty h =
    let marked : Engine = record e {
      processed_transfers = evict (set_add id e.processed_transfers);
    } in
    let same = persist-processed_transfers disk_ok marked in
    let (size, named) = evict-bounded (set_add id e.processed_transfers) added.0 added.1 in
    record { size = rw same size; named = rw same named }
  where
    added :
        (length (set_add id e.processed_transfers) ≤ suc max_processed_transfers)
        × All (λ id. id ≢ []) (set_add id e.processed_transfers)
    added = elim (Bool-cases (set_has id e.processed_transfers)) [
      | inl old ↦ rw old (omega (arith, h.size), h.named)
      | inr new ↦ rw new (
        omega (arith, h.size, length-append e.processed_transfers (id ∷ [])),
        All-append (λ id. id ≢ []) e.processed_transfers (id ∷ []) h.named (nonempty, tt),
      )
    ]

-- When a transfer needs more than one signature, a proposal whose signature arrives leaves a round
-- with the own attestation alone, whatever round the transfer has by then: the guards ran earlier.
pub finish_proposal-replaces :
    (get_public_key : AttestationType → Bytes) (disk_ok : Bool) (request : AttestationRequest)
    (message signature : Bytes) (now : ℕ) (e : Engine)
    → 1 < required_for e.config (type_of request.event)
    → map_get request.transfer_id
        (finish_proposal get_public_key disk_ok request message signature now e).0.pending_consensus
      ≡ some (record {
        request = request;
        attestations = local_attestation get_public_key request message signature now ∷ [];
        message = message;
        start_time = now;
        resolved = false;
      })
unfolding finish_proposal check_consensus check_pending
finish_proposal-replaces get_public_key disk_ok request message signature now e many =
    let a = local_attestation get_public_key request message signature now in
    let id = request.transfer_id in
    let pending : PendingConsensus = record {
      request = request;
      attestations = a ∷ [];
      message = message;
      start_time = now;
      resolved = false;
    } in
    let few : leb (required_for e.config (type_of request.event)) 1 ≡ false =
      ground (arith, many) in
    rw (
      map_get-map_set id pending e.pending_consensus,
      few,
      map_get-map_set id pending e.pending_consensus,
    )
