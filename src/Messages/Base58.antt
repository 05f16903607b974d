-- ===== src/Messages/Base58.antt =====
-- The base58 text that validator/src/consensus/engine.ts writes, read by the loop of
-- validator/src/utils/dcc-ids.ts.
use native.Mathlib.Nat.{pow-suc, pow-zero}
use sol_gateway_dcc_zk_proof.Base.{
  ℕ, zero, suc, ◌+◌, ◌*◌, ◌/◌, ◌%◌, ◌^◌, ◌≤◌, ◌<◌, ◌≡◌, refl, ◌∙◌, inl, inr, Bool, true, false,
  ◌&&◌, Option, none, some, [], ◌∷◌, Text, length, get_or, ◌==◌, Bool-cases, arith,
}
use sol_gateway_dcc_zk_proof.Bytes.{Bytes, AreBytes}
use sol_gateway_dcc_zk_proof.Bytes.Values.{be_value}
use sol_gateway_dcc_zk_proof.Messages.{bs58_chars, index_of, base58_digits, decode_base58}

abbrev is_at : ℕ → Option ℕ → Bool
is_at d none = false
is_at d (some i) = i == d

abbrev all_at : ℕ → Bool
all_at zero = true
all_at (suc n) = is_at n (index_of (get_or bs58_chars n 0) 0 bs58_chars) && all_at n

eq_of_is_at : (d : ℕ) (o : Option ℕ) → is_at d o ≡ true → o ≡ some d
eq_of_is_at d none h = cc
eq_of_is_at d (some i) h = let e : i ≡ d = ground (arith, h) in rw e refl

is_at_of_all_at :
    (n d : ℕ) → all_at n ≡ true → d < n → index_of (get_or bs58_chars d 0) 0 bs58_chars ≡ some d
is_at_of_all_at zero d h lt = absurd (omega arith)
is_at_of_all_at (suc n) d h lt =
    let (here, rest) =
      both (is_at n (index_of (get_or bs58_chars n 0) 0 bs58_chars)) (all_at n) h in
    elim (Bool-cases (d == n)) [
      | inl same ↦
          let e : d ≡ n = ground (arith, same) in
          rw e (eq_of_is_at n (index_of (get_or bs58_chars n 0) 0 bs58_chars) here)
      | inr other ↦ is_at_of_all_at n d rest (ground (arith, other, lt))
    ]
  where
    both : (a b : Bool) → (a && b) ≡ true → (a ≡ true) × (b ≡ true)
    both true b h = (refl, h)
    both false b h = cc

index_of-get_or : (d : ℕ) → d < 58 → index_of (get_or bs58_chars d 0) 0 bs58_chars ≡ some d
unfolding index_of
index_of-get_or d h = is_at_of_all_at 58 d refl h

decode_base58_next :
    (c i n : ℕ) (acc : Text)
    → index_of c 0 bs58_chars ≡ some i
    → decode_base58 (c ∷ acc) n ≡ decode_base58 acc (n * 58 + i)
unfolding decode_base58
decode_base58_next c i n acc h = rw (decode_base58, h) refl

decode_base58-base58_digits_acc :
    (fuel num : ℕ) (acc : Text)
    → num < 58 ^ fuel
    → decode_base58 (base58_digits fuel num acc) 0 ≡ decode_base58 acc num
unfolding base58_digits
decode_base58-base58_digits_acc zero num acc h = let e : num ≡ 0 = omega arith in rw e refl
decode_base58-base58_digits_acc (suc fuel) num acc h =
    let c = get_or bs58_chars (num % 58) 0 in
    let less : num / 58 < 58 ^ fuel = omega (arith, pow-suc 58 fuel) in
    let back : num / 58 * 58 + num % 58 ≡ num = omega arith in
    let read : decode_base58 (c ∷ acc) (num / 58) ≡ decode_base58 acc num =
      rw back at (
        decode_base58_next c (num % 58) (num / 58) acc
          (index_of-get_or (num % 58) (omega arith))) in
    elim (Bool-cases (num == 0)) [
      | inl null ↦ let e : num ≡ 0 = ground (arith, null) in rw (null, e) refl
      | inr more ↦ rw more (decode_base58-base58_digits_acc fuel (num / 58) (c ∷ acc) less ∙ read)
    ]

be_value-lt :
    (acc : ℕ) (bytes : Bytes) → AreBytes bytes → be_value acc bytes < (acc + 1) * 256 ^ length bytes
be_value-lt acc [] h = omega (arith, pow-zero 256)
be_value-lt acc (b ∷ bytes) (lt, h) =
    let rest = be_value-lt (acc * 256 + b) bytes h in
    let p : ℕ = 256 ^ length bytes in
    let below : acc * 256 + b + 1 ≤ (acc + 1) * 256 = omega (arith, lt) in
    let scaled : (acc * 256 + b + 1) * p ≤ (acc + 1) * 256 * p = grind (arith, below) in
    let power : 256 ^ suc (length bytes) ≡ 256 * p = omega (arith, pow-suc 256 (length bytes)) in
    let whole : (acc + 1) * 256 ^ suc (length bytes) ≡ (acc + 1) * 256 * p =
      rw power (omega arith) in
    omega (arith, rest, scaled, whole)

pow-58-256 : (n : ℕ) → 256 ^ n ≤ 58 ^ (2 * n)
pow-58-256 zero = omega (arith, pow-zero 256, pow-zero 58)
pow-58-256 (suc n) =
    let e : 2 * suc n ≡ suc (suc (2 * n)) = omega arith in
    rw e (omega (arith, pow-58-256 n, pow-suc 256 n, pow-suc 58 (2 * n), pow-suc 58 (suc (2 * n))))

-- The number of a recipient's bytes, written in base 58 as for a mint message, is read back whole by
-- the loop that decodes DecentralChain ids: two digits for each byte are enough.
pub decode_base58-base58_digits :
    (bytes : Bytes)
    → AreBytes bytes
    → decode_base58 (base58_digits (2 * length bytes) (be_value 0 bytes) []) 0
      ≡ some (be_value 0 bytes)
unfolding decode_base58
decode_base58-base58_digits bytes h =
    decode_base58-base58_digits_acc (2 * length bytes) (be_value 0 bytes) []
      (omega (arith, be_value-lt 0 bytes h, pow-58-256 (length bytes)))
