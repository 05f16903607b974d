-- ===== src/Encoding/PublicInputs.antt =====
-- The public inputs of libs/encoding-ts/index.ts: the two halves of a hash and the bytes that the
-- RIDE verifier reads.
use mathlib.Core.List.{append-nil}
use sol_gateway_dcc_zk_proof.Base.{
  ℕ, ◌+◌, ◌*◌, ◌^◌, ◌<◌, ◌≡◌, sym, ◌∙◌, [], arith, Result, ok, length,
}
use sol_gateway_dcc_zk_proof.Bytes.{Bytes, AreBytes, Error}
use sol_gateway_dcc_zk_proof.Bytes.Values.{
  le_value, be_value, join_down, le_range, join_down-le_range, le_range-le_value, le_range-add,
  le_range-lt, le_value-injective, be_bytes, fill_down-be_bytes, length-be_bytes, be_value-be_bytes,
}
use sol_gateway_dcc_zk_proof.Encoding.{split_to_128, field_to_bytes_32_be}

-- The halves as the loops compute them.
abbrev pub lo_half : Bytes → ℕ
lo_half bytes = join_down 16 0 0 bytes

abbrev pub hi_half : Bytes → ℕ
hi_half bytes = join_down 16 16 0 bytes

-- A pair of halves below 2^128 that make up the little-endian value of the bytes.
pub record AreHalves (bytes : Bytes) (halves : ℕ × ℕ) : Type 0 where
  pub joined : le_value bytes ≡ halves.0 + 2 ^ 128 * halves.1
  pub lo_lt : halves.0 < 2 ^ 128
  pub hi_lt : halves.1 < 2 ^ 128

pub halves_of_bytes :
    (bytes : Bytes)
    → length bytes ≡ 32
    → AreBytes bytes
    → AreHalves bytes (lo_half bytes, hi_half bytes)
halves_of_bytes bytes h b =
    let lo : lo_half bytes ≡ le_range 16 0 bytes = omega (arith, join_down-le_range 16 0 0 bytes) in
    let hi : hi_half bytes ≡ le_range 16 16 bytes =
      omega (arith, join_down-le_range 16 16 0 bytes) in
    let whole : le_range 32 0 bytes ≡ le_value bytes = rw h at (le_range-le_value bytes) in
    record {
      joined = omega (arith, lo, hi, whole, le_range-add 16 16 0 bytes);
      lo_lt = omega (arith, lo, le_range-lt 16 0 bytes b);
      hi_lt = omega (arith, hi, le_range-lt 16 16 bytes b);
    }

pub split_to_128-eq :
    (bytes : Bytes) → length bytes ≡ 32 → split_to_128 bytes ≡ ok (lo_half bytes, hi_half bytes)
unfolding split_to_128
split_to_128-eq bytes h = rw h

-- A hash of 32 bytes splits, without an error, into two halves below 2^128 that make up its
-- little-endian value.
split_to_128-AreHalves :
    (bytes : Bytes)
    → length bytes ≡ 32
    → AreBytes bytes
    → (halves : ℕ × ℕ) × (split_to_128 bytes ≡ ok halves) × AreHalves bytes halves
split_to_128-AreHalves bytes h b =
    ((lo_half bytes, hi_half bytes), split_to_128-eq bytes h, halves_of_bytes bytes h b)

-- The two field elements determine the hash: of 32 bytes each, only equal hashes split alike.
split_to_128-injective :
    (xs ys : Bytes)
    → length xs ≡ 32
    → length ys ≡ 32
    → AreBytes xs
    → AreBytes ys
    → split_to_128 xs ≡ split_to_128 ys
    → xs ≡ ys
split_to_128-injective xs ys h k b c e =
    let same : ◌≡◌ {A = Result Error (ℕ × ℕ)} (ok (lo_half xs, hi_half xs))
        (ok (lo_half ys, hi_half ys)) =
      sym (split_to_128-eq xs h) ∙ (e ∙ split_to_128-eq ys k) in
    let los : lo_half xs ≡ lo_half ys = cc same in
    let his : hi_half xs ≡ hi_half ys = cc same in
    let p = halves_of_bytes xs h b in
    let q = halves_of_bytes ys k c in
    le_value-injective xs ys (h ∙ sym k) b c (omega (arith, p.joined, q.joined, los, his))

field_to_bytes_32_be-eq : (v : ℕ) → field_to_bytes_32_be v ≡ be_bytes 32 v
unfolding field_to_bytes_32_be
field_to_bytes_32_be-eq v = fill_down-be_bytes 32 v 0 [] ∙ append-nil (be_bytes 32 v)

-- A field element below 2^256 is packed into 32 bytes that stand for it, most significant first.
pub field_to_bytes_32_be-value :
    (v : ℕ)
    → v < 2 ^ 256
    → (length (field_to_bytes_32_be v) ≡ 32) × (be_value 0 (field_to_bytes_32_be v) ≡ v)
field_to_bytes_32_be-value v h =
    rw (field_to_bytes_32_be-eq v) (length-be_bytes 32 v, be_value-be_bytes 32 v h)
