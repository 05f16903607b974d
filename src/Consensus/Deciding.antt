-- ===== src/Consensus/Deciding.antt =====
-- validator/src/consensus/engine.ts: the sets of validators and of processed transfers, and how a
-- round ends. `disk_ok` says whether the write of the processed transfers succeeds.
use sol_gateway_dcc_zk_proof.Base.{
  ℕ, Bool, true, false, Option, none, some, List, [], ◌∷◌, Text, length, last_entries, leb, ltb,
  if◌then◌else◌, map_get, map_set, map_delete, set_add, set_delete,
}
use sol_gateway_dcc_zk_proof.Bytes.{Bytes}
use sol_gateway_dcc_zk_proof.Messages.{AttestationType, mint, unlock, type_of, to_hex}
use sol_gateway_dcc_zk_proof.Consensus.State.{
  ConsensusConfig, PendingConsensus, ConsensusResult, Engine, Effect, consensus_reached,
  consensus_failed, cleanup_timer,
}

abbrev pub max_processed_transfers : ℕ
max_processed_transfers = 100000

abbrev add_all : List Text → List Text → List Text
add_all [] s = s
add_all (id ∷ ids) s = add_all ids (set_add id s)

unfoldable pub persist_processed_transfers : Bool → Engine → Engine
persist_processed_transfers disk_ok e =
    if disk_ok then record e { disk = some e.processed_transfers } else e

abbrev pub loaded : Option (List Text) → List Text
loaded none = []
loaded (some ids) = add_all (last_entries max_processed_transfers ids) []

-- The constructor, with the file as it was left.
unfoldable pub new_engine : ConsensusConfig → Option (List Text) → Engine
new_engine config disk = record {
  config = config;
  pending_consensus = [];
  processed_transfers = loaded disk;
  registered_validators = [];
  disk = disk;
}

unfoldable pub register_validator : Text → Engine → Engine
register_validator public_key_hex e = record e {
  registered_validators = set_add public_key_hex e.registered_validators;
}

unfoldable pub remove_validator : Text → Engine → Engine
remove_validator public_key_hex e = record e {
  registered_validators = set_delete public_key_hex e.registered_validators;
}

-- `own_key` is `getPublicKey('mint')`.
unfoldable pub sync_validator_set : Bytes → List Text → Engine → Engine
sync_validator_set own_key public_keys_hex e = record e {
  registered_validators = set_add (to_hex own_key) (add_all public_keys_hex []);
}

-- `if (oldest) delete(oldest)`: the first entry, unless it is the empty text.
abbrev pub delete_oldest : List Text → List Text
delete_oldest [] = []
delete_oldest ([] ∷ ids) = [] ∷ ids
delete_oldest ((c ∷ cs) ∷ ids) = ids

abbrev pub evict : List Text → List Text
evict ids = if ltb max_processed_transfers (length ids) then delete_oldest ids else ids

unfoldable pub mark_submitted : Bool → Text → Engine → Engine
unfolding persist_processed_transfers
mark_submitted disk_ok transfer_id e =
    persist_processed_transfers disk_ok
      (record e { processed_transfers = evict (set_add transfer_id e.processed_transfers) })

-- `override ?? minValidators`.
abbrev pub or_min : Option ℕ → ℕ → ℕ
or_min none min_validators = min_validators
or_min (some n) min_validators = n

unfoldable pub required_for : ConsensusConfig → AttestationType → ℕ
required_for config mint = or_min config.min_validators_mint config.min_validators
required_for config unlock = or_min config.min_validators_unlock config.min_validators

unfoldable pub reach : Bool → Text → PendingConsensus → Engine → Engine × List Effect
reach disk_ok transfer_id pending e =
    let result : ConsensusResult = record {
      transfer_id = transfer_id;
      result_type = type_of pending.request.event;
      attestations = pending.attestations;
      achieved = true;
      required_signatures = required_for e.config (type_of pending.request.event);
      received_signatures = length pending.attestations;
      request = some pending.request;
    } in
    let left = record e {
      pending_consensus = map_delete transfer_id e.pending_consensus;
      processed_transfers = evict e.processed_transfers;
    } in
    (
      persist_processed_transfers disk_ok left,
      consensus_reached result ∷ cleanup_timer transfer_id 60000 ∷ [],
    )

unfoldable pub check_pending : Bool → Text → Option PendingConsensus → Engine → Engine × List Effect
check_pending disk_ok transfer_id none e = (e, [])
check_pending disk_ok transfer_id (some pending) e =
    if pending.resolved
    then (e, [])
    else if leb (required_for e.config (type_of pending.request.event))
        (length pending.attestations)
    then reach disk_ok transfer_id pending e
    else (e, [])

unfoldable pub check_consensus : Bool → Text → Engine → Engine × List Effect
check_consensus disk_ok transfer_id e =
    check_pending disk_ok transfer_id (map_get transfer_id e.pending_consensus) e

unfoldable pub time_out : Text → Option PendingConsensus → Engine → Engine × List Effect
time_out transfer_id none e = (e, [])
time_out transfer_id (some pending) e =
    let result : ConsensusResult = record {
      transfer_id = transfer_id;
      result_type = type_of pending.request.event;
      attestations = pending.attestations;
      achieved = false;
      required_signatures = required_for e.config (type_of pending.request.event);
      received_signatures = length pending.attestations;
      request = none;
    } in
    let marked = record pending { resolved = true } in
    if pending.resolved then (e, []) else (
      record e { pending_consensus = map_set transfer_id marked e.pending_consensus },
      consensus_failed result ∷ cleanup_timer transfer_id 5000 ∷ [],
    )

unfoldable pub check_consensus_timeout : Text → Engine → Engine × List Effect
check_consensus_timeout transfer_id e =
    time_out transfer_id (map_get transfer_id e.pending_consensus) e

-- What the timer of a finished round does.
unfoldable pub cleanup : Text → Engine → Engine
cleanup transfer_id e = record e { pending_consensus = map_delete transfer_id e.pending_consensus }
