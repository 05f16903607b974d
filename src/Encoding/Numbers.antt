-- ===== src/Encoding/Numbers.antt =====
-- `Number(v)` of a bigint: the double nearest to it, which has 53 bits, and of two doubles as near as
-- each other the one with the even last bit. For magnitudes up to 2^64.
use native.Mathlib.Nat.{mul-div_cancel, mul-mod_left, pow-suc}
use sol_gateway_dcc_zk_proof.Base.{
  ℕ, zero, suc, ◌+◌, ◌-◌, ◌*◌, ◌/◌, ◌%◌, ◌^◌, ◌<◌, ◌≡◌, refl, ap, inl, inr, true, arith, ltb,
  lt→ltb, if◌then◌else◌, Bool-cases,
}
use sol_gateway_dcc_zk_proof.Encoding.{Signed, pos, negsuc}

-- The multiple of `q` nearest to `v`; a tie goes to the even one.
unfoldable pub nearest : ℕ → ℕ → ℕ
nearest q v =
    let twice = 2 * (v % q) in
    let up = if ltb twice q then 0 else if ltb q twice then 1 else v / q % 2 in (v / q + up) * q

-- With `n` steps left, from the distance `q` of doubles on: below 2^53 steps of it, it serves.
unfoldable pub nearest_from : ℕ → ℕ → ℕ → ℕ
nearest_from zero q v = nearest q v
nearest_from (suc n) q v =
    let rest = nearest_from n (2 * q) v in if ltb v (2 ^ 53 * q) then nearest q v else rest

-- Doubles below 2^64 are at most 2^11 apart.
unfoldable pub number_of : ℕ → ℕ
number_of v = nearest_from 11 1 v

unfoldable pub signed_number_of : Signed → Signed
signed_number_of (pos n) = pos (number_of n)
signed_number_of (negsuc n) = negsuc (number_of (suc n) - 1)

-- A signed number whose magnitude is below 2^53.
abbrev pub IsSafe : Signed → Type 0
IsSafe (pos n) = n < 2 ^ 53
IsSafe (negsuc n) = suc n < 2 ^ 53

nearest-one : (v : ℕ) → nearest 1 v ≡ v
unfolding nearest
nearest-one v = ground arith

pub number_of-safe : (v : ℕ) → v < 2 ^ 53 → number_of v ≡ v
unfolding number_of nearest_from
number_of-safe v h = rw (lt→ltb v (2 ^ 53) h) (nearest-one v)

pub signed_number_of-safe : (v : Signed) → IsSafe v → signed_number_of v ≡ v
unfolding signed_number_of
signed_number_of-safe (pos n) h = ap pos (number_of-safe n h)
signed_number_of-safe (negsuc n) h =
    let back : suc n - 1 ≡ n = omega arith in rw (number_of-safe (suc n) h, back) refl

nearest-multiple : (q k : ℕ) → 0 < q → nearest q (k * q) ≡ k * q
unfolding nearest
nearest-multiple q k h =
    let whole : k * q / q ≡ k = mul-div_cancel k h in
    let left : k * q % q ≡ 0 = mul-mod_left k q in
    let small : ltb (2 * 0) q ≡ true = lt→ltb 0 q h in rw (whole, left, small) (omega arith)

nearest_from-multiple : (n q k : ℕ) → 0 < q → nearest_from n q (k * (2 ^ n * q)) ≡ k * (2 ^ n * q)
unfolding nearest_from
nearest_from-multiple zero q k h =
    let e : 2 ^ 0 * q ≡ q = omega arith in rw e (nearest-multiple q k h)
nearest_from-multiple (suc n) q k h =
    let e : 2 ^ suc n * q ≡ 2 ^ n * (2 * q) = rw (pow-suc 2 n) (omega arith) in
    let here : k * (2 ^ suc n * q) ≡ k * 2 ^ suc n * q = omega arith in
    elim (Bool-cases (ltb (k * (2 ^ suc n * q)) (2 ^ 53 * q))) [
      | inl fits ↦ rw fits (rw here (nearest-multiple q (k * 2 ^ suc n) h))
      | inr large ↦ rw large (rw e (nearest_from-multiple n (2 * q) k (omega arith)))
    ]

-- A multiple of 2^32 below 2^64 is a double.
number_of-multiple : (t : ℕ) → number_of (t * 2 ^ 32) ≡ t * 2 ^ 32
unfolding number_of
number_of-multiple t =
    let e : t * 2 ^ 32 ≡ t * 2 ^ 21 * (2 ^ 11 * 1) = omega arith in
    rw e (nearest_from-multiple 11 1 (t * 2 ^ 21) (omega arith))

pub signed_number_of-multiple : (t : ℕ) → signed_number_of (pos (t * 2 ^ 32)) ≡ pos (t * 2 ^ 32)
unfolding signed_number_of
signed_number_of-multiple t = ap pos (number_of-multiple t)
