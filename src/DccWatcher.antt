-- ===== src/DccWatcher.antt =====
-- validator/src/watchers/dcc-watcher.ts: the watcher of burns on DecentralChain. An operation runs
-- whole, on one answer for each request that it makes: `DccNode` holds the answers, with none for a
-- request that throws or has another status than 200. The files of the cursor and of the burns seen
-- are fields of the state; `disk_ok` says whether a write succeeds. `BigInt` of a text is an
-- argument, with none where it throws, and so is `parseInt`, which is used on decimal numbers.
pub mod Scanning
pub mod Sweeping
pub mod Finality
pub mod Cursor
pub mod Capture
pub mod Verdicts
pub mod Settling
pub mod Losses
mod Tests
use sol_gateway_dcc_zk_proof.Base.{
  ℕ, zero, suc, ◌+◌, ◌*◌, Bool, true, false, ◌&&◌, ◌||◌, not, Option, none, some, List, [], ◌∷◌,
  ◌++◌, Text, length, drop, get_or, ltb, leb, ◌==◌, if◌then◌else◌, text_eq, map_get, map_set,
  set_add,
}
use sol_gateway_dcc_zk_proof.Messages.{DccBurnEvent}

pub record StateEntry : Type 0 where
  pub key : Text
  -- none where it is not a text
  pub value : Option Text

pub record DccTransaction : Type 0 where
  pub id : Text
  pub tx_type : ℕ
  pub dapp : Text
  pub function : Option Text
  pub state_changes : Option (List StateEntry)

pub record Block : Type 0 where
  pub transactions : Option (List DccTransaction)
  pub has_reference : Bool

pub record DccNode : Type 0 where
  pub height : Option ℕ
  pub block_at : ℕ → Option Block
  pub info : Text → Option DccTransaction
  pub entries : Option (List StateEntry)
  -- The value of an entry of the contract, none where it has none.
  pub entry : Text → Option (Option Text)

pub record DccWatcherConfig : Type 0 where
  pub bridge_contract : Text
  pub required_confirmations : ℕ

pub record Watcher : Type 0 where
  pub is_seeded : Bool
  pub seen_burn_ids : List Text
  pub last_processed_height : ℕ
  pub pending_burns : List (Text × DccBurnEvent)
  pub cursor_file : Option ℕ
  pub seen_file : Option (List Text)

abbrev pub wsol_to_lamports_divisor : ℕ
wsol_to_lamports_divisor = 10

abbrev pub scan_lag_blocks : ℕ
scan_lag_blocks = 1

abbrev pub max_resume_gap_blocks : ℕ
max_resume_gap_blocks = 1000

-- The fields of a new watcher, with the files as they were left.
unfoldable pub new_watcher : Option ℕ → Option (List Text) → Watcher
new_watcher cursor seen = record {
  is_seeded = false;
  seen_burn_ids = [];
  last_processed_height = 0;
  pending_burns = [];
  cursor_file = cursor;
  seen_file = seen;
}

abbrev pub starts_with : Text → Text → Bool
starts_with [] text = true
starts_with (c ∷ cs) [] = false
starts_with (c ∷ cs) (d ∷ ds) = c == d && starts_with cs ds

-- "burn_"
abbrev pub burn_prefix : Text
burn_prefix = b'b' ∷ b'u' ∷ b'r' ∷ b'n' ∷ b'_' ∷ []

-- "burn_nonce_"
abbrev nonce_prefix : Text
nonce_prefix = b'b' ∷ b'u' ∷ b'r' ∷ b'n' ∷ b'_' ∷ b'n' ∷ b'o' ∷ b'n' ∷ b'c' ∷ b'e' ∷ b'_' ∷ []

-- "burn"
abbrev pub burn_name : Text
burn_name = b'b' ∷ b'u' ∷ b'r' ∷ b'n' ∷ []

-- "burnToken"
abbrev burn_token_name : Text
burn_token_name = b'b' ∷ b'u' ∷ b'r' ∷ b'n' ∷ b'T' ∷ b'o' ∷ b'k' ∷ b'e' ∷ b'n' ∷ []

unfoldable pub is_burn_key : Text → Bool
is_burn_key key = starts_with burn_prefix key && not (starts_with nonce_prefix key)

-- `key.replace('burn_', '')`, on a key that starts with it.
abbrev pub burn_id_of : Text → Text
burn_id_of key = drop 5 key

abbrev is_burn_name : Option Text → Bool
is_burn_name none = false
is_burn_name (some name) = text_eq name burn_name || text_eq name burn_token_name

-- An `InvokeScript` of `burn` or `burnToken` of the contract.
unfoldable pub is_burn_call : Text → DccTransaction → Bool
is_burn_call contract tx = tx.tx_type == 16 && text_eq tx.dapp contract && is_burn_name tx.function

-- `text.split('|')`.
abbrev push_char : ℕ → List Text → List Text
push_char c [] = (c ∷ []) ∷ []
push_char c (part ∷ parts) = (c ∷ part) ∷ parts

unfoldable pub split_bars : Text → List Text
split_bars [] = [] ∷ []
split_bars (c ∷ cs) = let rest = split_bars cs in if c == b'|' then [] ∷ rest else push_char c rest

unfoldable pub mark_seen : Bool → Text → Watcher → Watcher
mark_seen disk_ok burn_id w =
    let seen = set_add burn_id w.seen_burn_ids in
    record w { seen_burn_ids = seen; seen_file = if disk_ok then some seen else w.seen_file }

unfoldable pub save_cursor : Bool → Watcher → Watcher
save_cursor disk_ok w =
    if disk_ok then record w { cursor_file = some w.last_processed_height } else w

abbrev pub add_all : List Text → List Text → List Text
add_all [] s = s
add_all (id ∷ ids) s = add_all ids (set_add id s)

unfoldable pub load_seen_burns : Watcher → Watcher
load_seen_burns w = elim w.seen_file [
  | none ↦ w
  | some ids ↦ record w { seen_burn_ids = add_all ids w.seen_burn_ids }
]

-- `pendingBurns.set(burnId, event); markSeen(burnId)`.
unfoldable pub detect : Bool → Text → DccBurnEvent → Watcher → Watcher
unfolding mark_seen
detect disk_ok burn_id event w =
    mark_seen disk_ok burn_id (record w { pending_burns = map_set burn_id event w.pending_burns })

module _ (big_int : Text → Option ℕ) (parse_int : Text → ℕ) where
  -- The event of six fields or more: caller | solRecipient | splMint | amount | height | timestamp.
  abbrev pub event_of_parts : Text → Text → List Text → ℕ → DccBurnEvent
  event_of_parts burn_id tx_id parts amount = record {
    burn_id = burn_id;
    sender = get_or parts 0 [];
    sol_recipient = get_or parts 1 [];
    spl_mint = get_or parts 2 [];
    amount = amount * wsol_to_lamports_divisor;
    height = parse_int (get_or parts 4 []);
    timestamp = parse_int (get_or parts 5 []);
    tx_id = tx_id;
    confirmations = 0;
  }

  abbrev event_of_amount : Text → Text → List Text → Option ℕ → Option DccBurnEvent
  event_of_amount burn_id tx_id parts none = none
  event_of_amount burn_id tx_id parts (some amount) =
      some (event_of_parts burn_id tx_id parts amount)

  unfoldable pub event_of_record : Text → Text → Text → Option DccBurnEvent
  event_of_record burn_id tx_id value =
      let parts = split_bars value in
      if ltb (length parts) 6
      then none
      else event_of_amount burn_id tx_id parts (big_int (get_or parts 3 []))

  -- `stateChanges.data?.find(…)`, and what is made of the entry found.
  unfoldable pub event_of_changes : Text → List StateEntry → Option DccBurnEvent
  event_of_changes tx_id [] = none
  event_of_changes tx_id (e ∷ changes) =
      let rest = event_of_changes tx_id changes in
      elim e.value [
        | none ↦ rest
        | some value ↦
            if is_burn_key e.key then event_of_record (burn_id_of e.key) tx_id value else rest
      ]

  unfoldable pub parse_burn_event : DccTransaction → Option DccBurnEvent
  parse_burn_event tx = elim tx.state_changes [
    | none ↦ none
    | some changes ↦ event_of_changes tx.id changes
  ]
