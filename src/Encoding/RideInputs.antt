-- ===== src/Encoding/RideInputs.antt =====
-- From a deposit to the bytes of the RIDE call: `derivePublicInputs` and
-- `packPublicInputsForRide` of libs/encoding-ts/index.ts.
use sol_gateway_dcc_zk_proof.Base.{
  ℕ, zero, suc, ◌+◌, ◌*◌, ◌^◌, ◌<◌, ◌≡◌, refl, ◌∙◌, Option, none, some, List, [], ◌∷◌, ◌++◌, arith,
  ok, length, take, drop, map, lt→ltb, take-append, drop-append, All,
}
use mathlib.Core.List.{append-nil, append_assoc}
use sol_gateway_dcc_zk_proof.Bytes.{Bytes, AreBytes}
use sol_gateway_dcc_zk_proof.Bytes.Values.{be_value, le_value}
use sol_gateway_dcc_zk_proof.Bytes.Layout.{
  concat, total, written, zeroed-written, put_set-written, buf-written, length-concat,
}
use sol_gateway_dcc_zk_proof.Encoding.{
  split_root, field_to_bytes_32_be, ZkPublicInputs, check_field, bn128_order, derive_public_inputs,
  pack_fields, pack_public_inputs_for_ride,
}
use sol_gateway_dcc_zk_proof.Encoding.PublicInputs.{
  lo_half, hi_half, halves_of_bytes, split_to_128-eq, field_to_bytes_32_be-value,
}

abbrev pub input_fields : ZkPublicInputs → List ℕ
input_fields inputs =
    inputs.checkpoint_root_lo ∷ inputs.checkpoint_root_hi ∷ inputs.message_id_lo
    ∷ inputs.message_id_hi ∷ inputs.amount ∷ inputs.recipient_lo ∷ inputs.recipient_hi
    ∷ inputs.version ∷ []

-- How the verifier reads its inputs: big-endian numbers of 32 bytes.
abbrev pub ride_inputs : ℕ → Bytes → List ℕ
ride_inputs zero bytes = []
ride_inputs (suc n) bytes = be_value 0 (take 32 bytes) ∷ ride_inputs n (drop 32 bytes)

abbrev pub room : List ℕ → ℕ
room [] = 0
room (v ∷ vs) = 32 + room vs

abbrev pub Fits256 : ℕ → Type 0
Fits256 v = v < 2 ^ 256

pub pack_fields-written :
    (vs : List ℕ) (parts : List Bytes)
    → All Fits256 vs
    → pack_fields vs (written parts (room vs))
      ≡ ok (written (parts ++ map field_to_bytes_32_be vs) 0)
unfolding pack_fields
pack_fields-written [] parts h = rw (append-nil parts) refl
pack_fields-written (v ∷ vs) parts h =
    let bs = field_to_bytes_32_be v in
    rw (
      put_set-written parts bs 32 (room vs) (field_to_bytes_32_be-value v h.0).0,
      pack_fields-written vs (parts ++ bs ∷ []) h.1,
      append_assoc parts (bs ∷ []) (map field_to_bytes_32_be vs),
    )

pub ride_inputs-concat :
    (vs : List ℕ)
    → All Fits256 vs
    → ride_inputs (length vs) (concat (map field_to_bytes_32_be vs)) ≡ vs
ride_inputs-concat [] h = refl
ride_inputs-concat (v ∷ vs) h =
    let bs = field_to_bytes_32_be v in
    let rest = concat (map field_to_bytes_32_be vs) in
    let (n, value) = field_to_bytes_32_be-value v h.0 in
    let front : take 32 (bs ++ rest) ≡ bs = rw n at (take-append bs rest) in
    let back : drop 32 (bs ++ rest) ≡ rest = rw n at (drop-append bs rest) in
    rw (front, back, value, ride_inputs-concat vs h.1)

pub total-map : (vs : List ℕ) → All Fits256 vs → total (map field_to_bytes_32_be vs) ≡ room vs
total-map [] h = refl
total-map (v ∷ vs) h = omega (arith, (field_to_bytes_32_be-value v h.0).0, total-map vs h.1)

-- Eight inputs below 2^256 pack into 256 bytes, from which the verifier reads the same inputs in
-- the same order.
pub ride_inputs-pack_public_inputs_for_ride :
    (inputs : ZkPublicInputs)
    → All Fits256 (input_fields inputs)
    → (bytes : Bytes) × (pack_public_inputs_for_ride inputs ≡ ok bytes)
      × (length bytes ≡ 256)
      × (ride_inputs 8 bytes ≡ input_fields inputs)
unfolding pack_public_inputs_for_ride
ride_inputs-pack_public_inputs_for_ride inputs h =
    let vs = input_fields inputs in
    let parts = map field_to_bytes_32_be vs in
    (
      concat parts,
      rw (zeroed-written 256, pack_fields-written vs [] h, buf-written parts),
      length-concat parts ∙ total-map vs h,
      ride_inputs-concat vs h,
    )

check_field-ok : (vs : List ℕ) → All (λ v. v < bn128_order) vs → check_field vs ≡ ok tt
unfolding check_field
check_field-ok [] h = refl
check_field-ok (v ∷ vs) h = rw (lt→ltb v bn128_order h.0, check_field-ok vs h.1)

-- A checkpoint root that is absent, or a hash of 32 bytes.
abbrev pub IsRoot : Option Bytes → Type 0
IsRoot none = Unit
IsRoot (some root) = (length root ≡ 32) × AreBytes root

AreSmall : ℕ × ℕ → Type 0
AreSmall halves = (halves.0 < 2 ^ 128) × (halves.1 < 2 ^ 128)

split_root-AreSmall :
    (root : Option Bytes)
    → IsRoot root
    → (halves : ℕ × ℕ) × (split_root root ≡ ok halves) × AreSmall halves
unfolding AreSmall
split_root-AreSmall none h = ((0, 0), refl, omega arith)
split_root-AreSmall (some root) h =
    let p = halves_of_bytes root h.0 h.1 in
    ((lo_half root, hi_half root), split_to_128-eq root h.0, (p.lo_lt, p.hi_lt))

-- Hashes of 32 bytes and an amount of 64 bits always give public inputs, all of them below the
-- field order: the check of the field order never throws.
pub derive_public_inputs-total :
    (message_id recipient : Bytes) (amount : ℕ) (root : Option Bytes)
    → length message_id ≡ 32
    → length recipient ≡ 32
    → AreBytes message_id
    → AreBytes recipient
    → amount < 2 ^ 64
    → IsRoot root
    → (inputs : ZkPublicInputs) × (derive_public_inputs message_id amount recipient root
        ≡ ok inputs)
      × All (λ v. v < bn128_order) (input_fields inputs)
      × (le_value message_id ≡ inputs.message_id_lo + 2 ^ 128 * inputs.message_id_hi)
      × (le_value recipient ≡ inputs.recipient_lo + 2 ^ 128 * inputs.recipient_hi)
      × (inputs.amount ≡ amount)
unfolding derive_public_inputs AreSmall
derive_public_inputs-total message_id recipient amount root m r b c a g =
    let (halves, split, small) = split_root-AreSmall root g in
    let p = halves_of_bytes message_id m b in
    let q = halves_of_bytes recipient r c in
    let vs =
      halves.0
      ∷ halves.1
      ∷ lo_half message_id
      ∷ hi_half message_id
      ∷ amount
      ∷ lo_half recipient
      ∷ hi_half recipient
      ∷ [] in
    let below : All (λ v. v < bn128_order) vs =
      omega (arith, small, p.lo_lt, p.hi_lt, q.lo_lt, q.hi_lt) in
    let inputs : ZkPublicInputs = record {
      checkpoint_root_lo = halves.0;
      checkpoint_root_hi = halves.1;
      message_id_lo = lo_half message_id;
      message_id_hi = hi_half message_id;
      amount = amount;
      recipient_lo = lo_half recipient;
      recipient_hi = hi_half recipient;
      version = 1;
    } in
    (
      inputs,
      rw
          (
            m,
            r,
            split,
            split_to_128-eq message_id m,
            split_to_128-eq recipient r,
            check_field-ok vs below,
          )
          refl,
      omega (arith, small, p.lo_lt, p.hi_lt, q.lo_lt, q.hi_lt),
      p.joined,
      q.joined,
      refl,
    )
