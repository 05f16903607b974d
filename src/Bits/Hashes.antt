-- ===== src/Bits/Hashes.antt =====
-- The bits of a hash and of its two field elements in validator/src/zk/zk-utils.ts.
use native.Mathlib.Nat.{pow-suc}
use sol_gateway_dcc_zk_proof.Base.{
  ℕ, zero, suc, ◌+◌, ◌*◌, ◌/◌, ◌%◌, ◌^◌, ◌<◌, ◌≡◌, refl, sym, ap, ◌∙◌, [], ◌∷◌, ◌++◌, arith, length,
}
use sol_gateway_dcc_zk_proof.Bytes.{Bytes, AreBytes}
use sol_gateway_dcc_zk_proof.Bytes.Values.{le_value}
use sol_gateway_dcc_zk_proof.Encoding.PublicInputs.{lo_half, hi_half, halves_of_bytes}
use sol_gateway_dcc_zk_proof.Bits.{
  byte_bits, bytes_to_bits_le, number_to_bits_le, hash_to_field_elements,
}

number_to_bits_le-byte :
    (b r n : ℕ)
    → b < 256
    → number_to_bits_le (b + 256 * r) (n + 8) ≡ byte_bits b ++ number_to_bits_le r n
unfolding number_to_bits_le
number_to_bits_le-byte b r n h =
    let v = b + 256 * r in
    let b₀ : v % 2 ≡ b % 2 = omega arith in
    let b₁ : v / 2 % 2 ≡ b / 2 % 2 = omega arith in
    let b₂ : v / 2 / 2 % 2 ≡ b / 4 % 2 = omega arith in
    let b₃ : v / 2 / 2 / 2 % 2 ≡ b / 8 % 2 = omega arith in
    let b₄ : v / 2 / 2 / 2 / 2 % 2 ≡ b / 16 % 2 = omega arith in
    let b₅ : v / 2 / 2 / 2 / 2 / 2 % 2 ≡ b / 32 % 2 = omega arith in
    let b₆ : v / 2 / 2 / 2 / 2 / 2 / 2 % 2 ≡ b / 64 % 2 = omega arith in
    let b₇ : v / 2 / 2 / 2 / 2 / 2 / 2 / 2 % 2 ≡ b / 128 % 2 = omega arith in
    let rest : v / 2 / 2 / 2 / 2 / 2 / 2 / 2 / 2 ≡ r = omega arith in
    let eight : n + 8 ≡ suc (suc (suc (suc (suc (suc (suc (suc n))))))) = omega arith in
    rw (eight, b₀, b₁, b₂, b₃, b₄, b₅, b₆, b₇, rest) refl

number_to_bits_le-bytes :
    (bytes : Bytes)
    → AreBytes bytes
    → number_to_bits_le (le_value bytes) (8 * length bytes) ≡ bytes_to_bits_le bytes
unfolding number_to_bits_le bytes_to_bits_le
number_to_bits_le-bytes [] h = refl
number_to_bits_le-bytes (b ∷ bytes) (small, h) =
    let size : 8 * suc (length bytes) ≡ 8 * length bytes + 8 = omega arith in
    rw (size, number_to_bits_le-byte b (le_value bytes) (8 * length bytes) small)
      (ap (λ bits. byte_bits b ++ bits) (number_to_bits_le-bytes bytes h))

number_to_bits_le-split :
    (n m lo hi : ℕ)
    → lo < 2 ^ n
    → number_to_bits_le (lo + 2 ^ n * hi) (n + m) ≡ number_to_bits_le lo n ++ number_to_bits_le hi m
unfolding number_to_bits_le
number_to_bits_le-split zero m lo hi h =
    let e : lo + 2 ^ 0 * hi ≡ hi = omega arith in
    let size : 0 + m ≡ m = omega arith in rw (e, size) refl
number_to_bits_le-split (suc n) m lo hi h =
    let size : suc n + m ≡ suc (n + m) = omega arith in
    let double : 2 ^ suc n * hi ≡ 2 * (2 ^ n * hi) = rw (pow-suc 2 n) (omega arith) in
    let room : lo / 2 < 2 ^ n = omega (arith, pow-suc 2 n) in
    let low : (lo + 2 * (2 ^ n * hi)) % 2 ≡ lo % 2 = omega arith in
    let half : (lo + 2 * (2 ^ n * hi)) / 2 ≡ lo / 2 + 2 ^ n * hi = omega arith in
    rw (size, double, low, half)
      (ap (λ bits. lo % 2 ∷ bits) (number_to_bits_le-split n m (lo / 2) hi room))

-- The bits of the two field elements of a hash of 32 bytes, 128 of each, one after the other, are
-- the bits of its bytes, in order.
pub hash_to_field_elements-bits :
    (hash : Bytes)
    → length hash ≡ 32
    → AreBytes hash
    → number_to_bits_le (hash_to_field_elements hash).0 128
        ++ number_to_bits_le (hash_to_field_elements hash).1 128
      ≡ bytes_to_bits_le hash
unfolding hash_to_field_elements
hash_to_field_elements-bits hash h b =
    let halves = halves_of_bytes hash h b in
    let lo = lo_half hash in
    let hi = hi_half hash in
    let whole : number_to_bits_le (lo + 2 ^ 128 * hi) (128 + 128) ≡ bytes_to_bits_le hash =
      rw (← halves.joined) (rw h at (number_to_bits_le-bytes hash b)) in
    sym (number_to_bits_le-split 128 128 lo hi halves.lo_lt) ∙ whole
