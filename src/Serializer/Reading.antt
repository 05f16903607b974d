-- ===== src/Serializer/Reading.antt =====
-- What the verifier reads from the bytes of zk/prover/src/serializer.ts, and the serializers of the
-- prover, of the validator and of libs/encoding-ts/index.ts compared.
use mathlib.Core.List.{append-nil}
use sol_gateway_dcc_zk_proof.Base.{
  ℕ, ◌+◌, ◌*◌, ◌≡◌, refl, sym, ap, subst, ◌∙◌, List, [], ◌∷◌, ◌++◌, map, arith, Result, ok, ◌>>=◌,
  >>=-ext, >>=_assoc, length, take, take-append, All,
}
use sol_gateway_dcc_zk_proof.Bytes.{Bytes, Error}
use sol_gateway_dcc_zk_proof.Bytes.Layout.{
  concat, Cursor, zeroed, zeroed-written, put_set, buf-written, length-concat,
}
use sol_gateway_dcc_zk_proof.Encoding.{
  field_to_bytes_32_be, ZkPublicInputs, pack_fields, pack_public_inputs_for_ride,
}
use sol_gateway_dcc_zk_proof.Encoding.RideInputs.{
  ride_inputs, room, Fits256, input_fields, pack_fields-written, ride_inputs-concat, total-map,
}
use sol_gateway_dcc_zk_proof.Serializer.{
  G1, Proof, VerificationKey, field_element_to_bytes, set_elements, g1_elements, g2_elements,
  serialize_proof_for_ride, serialize_inputs_for_ride, validator_serialize_inputs, set_points,
  serialize_vk_for_ride,
}

set_elements-pack_fields : (vs : List ℕ) (c : Cursor) → set_elements vs c ≡ pack_fields vs c
unfolding set_elements pack_fields field_element_to_bytes field_to_bytes_32_be
set_elements-pack_fields [] c = refl
set_elements-pack_fields (v ∷ vs) c =
    >>=-ext (put_set 32 (field_to_bytes_32_be v) c) (set_elements vs) (pack_fields vs)
      (set_elements-pack_fields vs)

set_elements-append :
    (us vs : List ℕ) (c : Cursor)
    → set_elements (us ++ vs) c ≡ (set_elements us c >>= set_elements vs)
unfolding set_elements
set_elements-append [] vs c = refl
set_elements-append (u ∷ us) vs c =
    let first = put_set 32 (field_element_to_bytes u) c in
    >>=-ext first (set_elements (us ++ vs)) (λ d. set_elements us d >>= set_elements vs)
      (set_elements-append us vs)
    ∙ >>=_assoc first (set_elements us) (set_elements vs)

abbrev pub point_elements : List G1 → List ℕ
point_elements [] = []
point_elements (p ∷ ps) = g1_elements p ++ point_elements ps

set_points-elements :
    (ps : List G1) (c : Cursor) → set_points ps c ≡ set_elements (point_elements ps) c
unfolding set_points set_elements
set_points-elements [] c = refl
set_points-elements (p ∷ ps) c =
    >>=-ext (set_elements (g1_elements p) c) (set_points ps) (set_elements (point_elements ps))
      (set_points-elements ps)
    ∙ sym (set_elements-append (g1_elements p) (point_elements ps) c)

-- What a list of elements becomes, in a buffer made for it.
abbrev pub IsRead : List ℕ → Result Error Bytes → Type 0
IsRead vs r =
    (bytes : Bytes) × (r ≡ ok bytes)
    × (length bytes ≡ room vs)
    × (ride_inputs (length vs) bytes ≡ vs)

set_elements-IsRead :
    (vs : List ℕ) (n : ℕ)
    → n ≡ room vs
    → All Fits256 vs
    → IsRead vs (set_elements vs (zeroed n) >>= λ c. ok c.buf)
set_elements-IsRead vs n e h =
    let parts = map field_to_bytes_32_be vs in
    (
      concat parts,
      rw (
        e,
        set_elements-pack_fields,
        zeroed-written (room vs),
        pack_fields-written vs [] h,
        buf-written parts,
      ),
      length-concat parts ∙ total-map vs h,
      ride_inputs-concat vs h,
    )

abbrev pub proof_elements : Proof → List ℕ
proof_elements p = g1_elements p.pi_a ++ (g2_elements p.pi_b ++ g1_elements p.pi_c)

abbrev pub vk_elements : VerificationKey → List ℕ
vk_elements k =
    g1_elements k.vk_alpha_1
    ++ (g2_elements k.vk_beta_2
        ++ (g2_elements k.vk_gamma_2 ++ (g2_elements k.vk_delta_2 ++ point_elements k.ic)))

-- The elements of a list in two pieces, the second written on its own.
in_two :
    (us vs : List ℕ) (k : Cursor → Result Error Bytes) (c : Cursor)
    → (set_elements us c >>= λ d. set_elements vs d >>= k) ≡ (set_elements (us ++ vs) c >>= k)
in_two us vs k c =
    >>=_assoc (set_elements us c) (set_elements vs) k
    ∙ ap (λ r. r >>= k) (sym (set_elements-append us vs c))

-- A proof with coordinates below 2^256 gives 256 bytes, from which the verifier reads its
-- coordinates, in order.
ride_inputs-serialize_proof_for_ride :
    (p : Proof)
    → All Fits256 (proof_elements p)
    → IsRead (proof_elements p) (serialize_proof_for_ride p)
unfolding serialize_proof_for_ride
ride_inputs-serialize_proof_for_ride p h =
    let k : Cursor → Result Error Bytes = λ c. ok c.buf in
    let a = g1_elements p.pi_a in
    let b = g2_elements p.pi_b in
    let c = g1_elements p.pi_c in
    let tail : (d : Cursor)
        → (set_elements b d >>= λ e. set_elements c e >>= k) ≡ (set_elements (b ++ c) d >>= k) =
      in_two b c k in
    let joined : serialize_proof_for_ride p ≡ (set_elements (proof_elements p) (zeroed 256) >>= k) =
      >>=-ext (set_elements a (zeroed 256)) _ _ tail ∙ in_two a (b ++ c) k (zeroed 256) in
    subst (IsRead (proof_elements p)) (sym joined)
      (set_elements-IsRead (proof_elements p) 256 refl h)

room-append : (us vs : List ℕ) → room (us ++ vs) ≡ room us + room vs
room-append [] vs = omega arith
room-append (u ∷ us) vs = omega (arith, room-append us vs)

room-point_elements : (ps : List G1) → room (point_elements ps) ≡ length ps * 64
room-point_elements [] = refl
room-point_elements (p ∷ ps) = omega (arith, room-point_elements ps)

-- A verification key with coordinates below 2^256, whatever the number of its IC points, fills its
-- buffer exactly, and the verifier reads its coordinates from it, in order.
pub ride_inputs-serialize_vk_for_ride :
    (key : VerificationKey)
    → All Fits256 (vk_elements key)
    → IsRead (vk_elements key) (serialize_vk_for_ride key)
unfolding serialize_vk_for_ride
ride_inputs-serialize_vk_for_ride key h =
    let k : Cursor → Result Error Bytes = λ c. ok c.buf in
    let a = g1_elements key.vk_alpha_1 in
    let b = g2_elements key.vk_beta_2 in
    let g = g2_elements key.vk_gamma_2 in
    let d = g2_elements key.vk_delta_2 in
    let i = point_elements key.ic in
    let n = 64 + 128 + 128 + 128 + length key.ic * 64 in
    let t₀ : (c : Cursor) → (set_points key.ic c >>= k) ≡ (set_elements i c >>= k) =
      λ c. ap (λ r. r >>= k) (set_points-elements key.ic c) in
    let t₁ : (c : Cursor)
        → (set_elements d c >>= λ e. set_points key.ic e >>= k) ≡ (set_elements (d ++ i) c >>= k) =
      λ c. >>=-ext (set_elements d c) _ _ t₀ ∙ in_two d i k c in
    let t₂ : (c : Cursor)
        → (set_elements g c >>= λ e. set_elements d e >>= λ e'. set_points key.ic e' >>= k)
          ≡ (set_elements (g ++ (d ++ i)) c >>= k) =
      λ c. >>=-ext (set_elements g c) _ _ t₁ ∙ in_two g (d ++ i) k c in
    let t₃ : (c : Cursor)
        → (set_elements b c >>= λ e.
            set_elements g e >>= λ e'. set_elements d e' >>= λ e''. set_points key.ic e'' >>= k)
          ≡ (set_elements (b ++ (g ++ (d ++ i))) c >>= k) =
      λ c. >>=-ext (set_elements b c) _ _ t₂ ∙ in_two b (g ++ (d ++ i)) k c in
    let joined : serialize_vk_for_ride key ≡ (set_elements (vk_elements key) (zeroed n) >>= k) =
      >>=-ext (set_elements a (zeroed n)) _ _ t₃ ∙ in_two a (b ++ (g ++ (d ++ i))) k (zeroed n) in
    let size : n ≡ room (vk_elements key) = omega (arith, room-point_elements key.ic) in
    subst (IsRead (vk_elements key)) (sym joined) (set_elements-IsRead (vk_elements key) n size h)

-- The prover's serializer of public signals writes for the eight inputs of a deposit the bytes that
-- `packPublicInputsForRide` of the encoding library writes.
pub serialize_inputs_for_ride-pack_public_inputs_for_ride :
    (inputs : ZkPublicInputs)
    → serialize_inputs_for_ride (input_fields inputs) ≡ pack_public_inputs_for_ride inputs
unfolding serialize_inputs_for_ride pack_public_inputs_for_ride
serialize_inputs_for_ride-pack_public_inputs_for_ride inputs =
    ap (λ r. r >>= λ c. ok c.buf) (set_elements-pack_fields (input_fields inputs) (zeroed 256))

-- For eight signals the validator's serializer writes what the prover's does, or throws with it.
validator_serialize_inputs-serialize_inputs_for_ride :
    (signals : List ℕ)
    → length signals ≡ 8
    → validator_serialize_inputs signals ≡ serialize_inputs_for_ride signals
unfolding serialize_inputs_for_ride validator_serialize_inputs
validator_serialize_inputs-serialize_inputs_for_ride signals e =
    let all : take (length signals) signals ≡ signals =
      ap (take (length signals)) (sym (append-nil signals)) ∙ take-append signals [] in
    let whole : take 8 signals ≡ signals = rw e at all in rw (e, whole)
