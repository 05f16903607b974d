-- ===== src/Messages.antt =====
-- validator/src/consensus/engine.ts (`constructCanonicalMessage`) and validator/src/utils/dcc-ids.ts:
-- the bytes that the validators sign. A text is the list of its character codes; all of them here
-- are ASCII, so that `Buffer.from(text, 'utf-8')` is the identity. `PublicKey` of @solana/web3.js
-- is an argument, with none where it throws.
pub mod Unlocks
pub mod Base58
mod Tests
use sol_gateway_dcc_zk_proof.Base.{
  ℕ, zero, suc, ◌+◌, ◌-◌, ◌*◌, ◌/◌, ◌%◌, ◌^◌, min, Bool, true, false, ◌&&◌, ◌||◌, Option, none,
  some, List, [], ◌∷◌, ◌++◌, Text, Result, ok, err, ◌>>=◌, ◌>>◌, require, length, replicate, take,
  drop, get_or, leb, ltb, ◌==◌, if◌then◌else◌,
}
use sol_gateway_dcc_zk_proof.Bytes.{Bytes, Error, range_error}
use sol_gateway_dcc_zk_proof.Bytes.Digits.{u32_bytes, u64_bytes}
use sol_gateway_dcc_zk_proof.Bytes.Layout.{concat}
use sol_gateway_dcc_zk_proof.Bytes.Values.{be_value}
use sol_gateway_dcc_zk_proof.Encoding.{Signed, domain_sep_unlock}

pub record SolanaDepositEvent : Type 0 where
  pub transfer_id : Text
  pub message_id : Text
  pub sender : Text
  pub recipient_dcc : Text
  pub amount : ℕ
  pub nonce : ℕ
  pub slot : ℕ
  pub event_index : ℕ
  pub timestamp : Signed
  pub src_chain_id : ℕ
  pub dst_chain_id : ℕ
  pub chain_id : ℕ
  pub signature : Text
  pub confirmations : ℕ
  pub token_mint : Option Text

pub record DccBurnEvent : Type 0 where
  pub burn_id : Text
  pub sender : Text
  pub sol_recipient : Text
  pub spl_mint : Text
  pub amount : ℕ
  pub height : ℕ
  pub timestamp : ℕ
  pub tx_id : Text
  pub confirmations : ℕ

-- The type of a request and its event: `mint` comes with a deposit, `unlock` with a burn.
pub data Event : Type 0 where
  deposit_event : SolanaDepositEvent → Event
  burn_event : DccBurnEvent → Event

pub data AttestationType : Type 0 where
  mint unlock : AttestationType

abbrev pub type_of : Event → AttestationType
type_of (deposit_event d) = mint
type_of (burn_event b) = unlock

pub record AttestationRequest : Type 0 where
  pub transfer_id : Text
  pub event : Event
  pub timestamp : ℕ

-- The settings that a message depends on; `unlock_expiry_seconds` is UNLOCK_EXPIRY_SECONDS.
pub record ChainIds : Type 0 where
  pub dcc_bridge_chain_id : ℕ
  pub dcc_chain_id : ℕ
  pub unlock_expiry_seconds : ℕ

-- '123456789ABCDEFGHJKLMNPQRSTUVWXYZabcdefghijkmnopqrstuvwxyz'
abbrev pub bs58_chars : Text
bs58_chars =
    b'1' ∷ b'2' ∷ b'3' ∷ b'4' ∷ b'5' ∷ b'6' ∷ b'7' ∷ b'8' ∷ b'9' ∷ b'A' ∷ b'B' ∷ b'C' ∷ b'D' ∷ b'E'
    ∷ b'F' ∷ b'G' ∷ b'H' ∷ b'J' ∷ b'K' ∷ b'L' ∷ b'M' ∷ b'N' ∷ b'P' ∷ b'Q' ∷ b'R' ∷ b'S' ∷ b'T'
    ∷ b'U' ∷ b'V' ∷ b'W' ∷ b'X' ∷ b'Y' ∷ b'Z' ∷ b'a' ∷ b'b' ∷ b'c' ∷ b'd' ∷ b'e' ∷ b'f' ∷ b'g'
    ∷ b'h' ∷ b'i' ∷ b'j' ∷ b'k' ∷ b'm' ∷ b'n' ∷ b'o' ∷ b'p' ∷ b'q' ∷ b'r' ∷ b's' ∷ b't' ∷ b'u'
    ∷ b'v' ∷ b'w' ∷ b'x' ∷ b'y' ∷ b'z' ∷ []

-- `indexOf`, with none for -1; `i` is the index of the first character.
unfoldable pub index_of : ℕ → ℕ → Text → Option ℕ
index_of c i [] = none
index_of c i (d ∷ ds) = let rest = index_of c (suc i) ds in if d == c then some i else rest

-- The value of a hexadecimal digit.
abbrev pub hex_value : ℕ → Option ℕ
hex_value c =
    if leb b'0' c && leb c b'9'
    then some (c - b'0')
    else if leb b'a' c && leb c b'f'
    then some (c - b'a' + 10)
    else if leb b'A' c && leb c b'F'
    then some (c - b'A' + 10)
    else none

abbrev pub hex_pair : Option ℕ → Option ℕ → Bytes → Bytes
hex_pair (some h) (some l) rest = (h * 16 + l) ∷ rest
hex_pair (some h) none rest = []
hex_pair none l rest = []

-- `Buffer.from(text, 'hex')`, which stops at the first pair that is not hexadecimal.
unfoldable pub from_hex : Text → Bytes
from_hex [] = []
from_hex (c ∷ []) = []
from_hex (c ∷ d ∷ cs) = hex_pair (hex_value c) (hex_value d) (from_hex cs)

abbrev pub hex_digit : ℕ → ℕ
hex_digit n = if ltb n 10 then b'0' + n else b'a' + (n - 10)

-- `bytes.toString('hex')`.
unfoldable pub to_hex : Bytes → Text
to_hex [] = []
to_hex (b ∷ bs) = hex_digit (b / 16) ∷ hex_digit (b % 16) ∷ to_hex bs

-- `while (lastNonZero > 0 && recipientRaw[lastNonZero] === 0) lastNonZero--`.
unfoldable pub last_non_zero : ℕ → Bytes → ℕ
last_non_zero zero raw = zero
last_non_zero (suc i) raw =
    let earlier = last_non_zero i raw in if get_or raw (suc i) 0 == 0 then earlier else suc i

-- `while (num > 0n)`, on fuel.
unfoldable pub base58_digits : ℕ → ℕ → Text → Text
base58_digits zero num b58 = b58
base58_digits (suc fuel) num b58 =
    let rest = base58_digits fuel (num / 58) (get_or bs58_chars (num % 58) 0 ∷ b58) in
    if num == 0 then b58 else rest

-- The loop that puts a '1' for each leading zero byte.
unfoldable pub leading_ones : Bytes → Text → Text
leading_ones [] b58 = b58
leading_ones (b ∷ bs) b58 = let rest = leading_ones bs (b'1' ∷ b58) in if b == 0 then rest else b58

abbrev pub or_one : Text → Text
or_one [] = b'1' ∷ []
or_one (c ∷ cs) = c ∷ cs

-- The recipient of a mint: hexadecimal to base58, without the trailing zero bytes. `BigInt('0x')`
-- throws. Two digits of base 58 hold a byte.
unfoldable pub dcc_recipient : Text → Result Error Text
dcc_recipient recipient_dcc = do
  let raw = from_hex recipient_dcc
  let trimmed = take (suc (last_non_zero (length raw - 1) raw)) raw
  require (ltb 0 (length trimmed)) range_error
  ok (or_one (leading_ones trimmed (base58_digits (2 * length trimmed) (be_value 0 trimmed) [])))

-- `n.toString()`, on fuel.
unfoldable pub decimal_digits : ℕ → ℕ → Text → Text
decimal_digits zero n acc = acc
decimal_digits (suc fuel) n acc =
    let rest = decimal_digits fuel (n / 10) ((b'0' + n % 10) ∷ acc) in
    if ltb n 10 then (b'0' + n % 10) ∷ acc else rest

unfoldable pub decimal : ℕ → Text
decimal n = decimal_digits (suc n) n []

-- "SOL_DCC_BRIDGE_V1|MINT|"
abbrev pub mint_prefix : Text
mint_prefix =
    b'S' ∷ b'O' ∷ b'L' ∷ b'_' ∷ b'D' ∷ b'C' ∷ b'C' ∷ b'_' ∷ b'B' ∷ b'R' ∷ b'I' ∷ b'D' ∷ b'G' ∷ b'E'
    ∷ b'_' ∷ b'V' ∷ b'1' ∷ b'|' ∷ b'M' ∷ b'I' ∷ b'N' ∷ b'T' ∷ b'|' ∷ []

unfoldable pub construct_mint_message : ChainIds → Text → SolanaDepositEvent → Result Error Bytes
construct_mint_message ids transfer_id event = do
  recipient ← dcc_recipient event.recipient_dcc
  ok (
      concat (
        mint_prefix
        ∷ transfer_id
        ∷ (b'|' ∷ [])
        ∷ recipient
        ∷ (b'|' ∷ [])
        ∷ decimal event.amount
        ∷ (b'|' ∷ [])
        ∷ decimal event.slot
        ∷ (b'|' ∷ [])
        ∷ decimal ids.dcc_bridge_chain_id
        ∷ []))

-- The loop over the characters of an id: none for a character that is not base58.
unfoldable pub decode_base58 : Text → ℕ → Option ℕ
decode_base58 [] n = some n
decode_base58 (c ∷ cs) n = elim (index_of c 0 bs58_chars) [
  | none ↦ none
  | some i ↦ decode_base58 cs (n * 58 + i)
]

-- The bytes of `n.toString(16)`, made even: the fewest that hold `n`, and one for 0; on fuel.
unfoldable pub number_bytes : ℕ → ℕ → Bytes → Bytes
number_bytes zero n acc = acc
number_bytes (suc fuel) n acc =
    let rest = number_bytes fuel (n / 256) ((n % 256) ∷ acc) in
    if ltb n 256 then (n % 256) ∷ acc else rest

unfoldable pub leading_zeros : Text → ℕ
leading_zeros [] = 0
leading_zeros (c ∷ cs) = let rest = leading_zeros cs in if c == b'1' then suc rest else 0

-- `full.copy(out, max(0, 32 - full.length), max(0, full.length - 32))` into 32 zeros.
unfoldable pub copy_right : Bytes → Bytes
copy_right full = replicate (32 - length full) 0 ++ drop (length full - 32) full

-- The 32 bytes of a decoded number, after so many zero bytes: all zero when there is none.
unfoldable pub id_bytes : ℕ → ℕ → Option ℕ → Bytes
id_bytes fuel padding none = replicate 32 0
id_bytes fuel padding (some n) = copy_right (replicate padding 0 ++ number_bytes fuel n [])

-- `dccIdToBytes32`. A character holds less than a byte, so the length of the id is fuel enough.
unfoldable pub dcc_id_to_bytes_32 : Text → Bytes
dcc_id_to_bytes_32 [] = replicate 32 0
dcc_id_to_bytes_32 (c ∷ cs) =
    id_bytes (length (c ∷ cs)) (leading_zeros (c ∷ cs)) (decode_base58 (c ∷ cs) 0)

unfoldable pub unlock_expiration : ℕ → ℕ → ℕ
unlock_expiration burn_timestamp_ms window_seconds = burn_timestamp_ms / 1000 + window_seconds

-- A value that a call gives, or the error that it throws.
abbrev pub or_throw {ℓ} : {A : Type ℓ} → Option A → Result Error A
or_throw none = err range_error
or_throw (some a) = ok a

-- The integer writers of `Buffer` throw for a value out of their range.
unfoldable pub construct_unlock_message :
    (Text → Option Bytes) → ChainIds → Text → DccBurnEvent → Result Error Bytes
construct_unlock_message public_key ids transfer_id event = do
  recipient ← or_throw (public_key event.sol_recipient)
  require (ltb event.amount (2 ^ 64)) range_error
  let burn_tx = dcc_id_to_bytes_32 event.tx_id
  let copied = min 32 (length burn_tx)
  require (ltb ids.dcc_chain_id (2 ^ 32)) range_error
  let expiration = unlock_expiration event.timestamp ids.unlock_expiry_seconds
  require (ltb expiration (2 ^ 63)) range_error
  ok (
      concat (
        domain_sep_unlock
        ∷ dcc_id_to_bytes_32 transfer_id
        ∷ recipient
        ∷ u64_bytes event.amount
        ∷ (take copied burn_tx ++ replicate (32 - copied) 0)
        ∷ u32_bytes ids.dcc_chain_id
        ∷ u64_bytes expiration
        ∷ []))

unfoldable pub construct_canonical_message :
    (Text → Option Bytes) → ChainIds → AttestationRequest → Result Error Bytes
construct_canonical_message public_key ids request = elim request.event [
  | deposit_event d ↦ construct_mint_message ids request.transfer_id d
  | burn_event b ↦ construct_unlock_message public_key ids request.transfer_id b
]
