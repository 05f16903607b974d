-- ===== src/Bytes/Digits.antt =====
-- Little-endian words: `writeU32LE`, `writeU64LE`, `writeI64LE` and the reads that undo them.
use native.Mathlib.Nat.{add-zero}
use sol_gateway_dcc_zk_proof.Base.{
  ℕ, zero, suc, ◌+◌, ◌*◌, ◌/◌, ◌%◌, ◌^◌, ◌<◌, ◌≡◌, refl, sym, ◌∙◌, ap, [], ◌∷◌, arith, get_or, take,
  drop,
}
use sol_gateway_dcc_zk_proof.Bytes.{Bytes}
use sol_gateway_dcc_zk_proof.Bytes.Stores.{store}

-- `(value >> 8 i) & 0xff`.
abbrev pub byte_at : ℕ → ℕ → ℕ
byte_at value i = value / 2 ^ (8 * i) % 256

abbrev pub u32_bytes : ℕ → Bytes
u32_bytes value = byte_at value 0 ∷ byte_at value 1 ∷ byte_at value 2 ∷ byte_at value 3 ∷ []

-- The bytes that the loop of `writeU64LE` stores from index `i` on, `n` of them.
abbrev pub bytes_from : ℕ → ℕ → ℕ → Bytes
bytes_from zero i value = []
bytes_from (suc n) i value = byte_at value i ∷ bytes_from n (i + 1) value

abbrev pub u64_bytes : ℕ → Bytes
u64_bytes value = bytes_from 8 0 value

unfoldable pub write_u32_le : Bytes → ℕ → ℕ → Bytes
write_u32_le buf offset value = store buf offset (u32_bytes value)

unfoldable pub write_u64_le : Bytes → ℕ → ℕ → Bytes
write_u64_le buf offset value = store buf offset (u64_bytes value)

-- The four bytes do not overlap, so `|` adds them; `>>> 0` makes the word unsigned.
unfoldable pub read_u32_le : Bytes → ℕ → ℕ
read_u32_le bytes offset =
    get_or bytes offset 0
    + get_or bytes (offset + 1) 0 * 2 ^ 8
    + get_or bytes (offset + 2) 0 * 2 ^ 16
    + get_or bytes (offset + 3) 0 * 2 ^ 24

-- The loop `value |= BigInt(bytes[offset + i]) << BigInt(i * 8)`, with `n` rounds left.
abbrev pub read_from : ℕ → ℕ → ℕ → Bytes → ℕ → ℕ
read_from zero i value bytes offset = value
read_from (suc n) i value bytes offset =
    read_from n (i + 1) (value + get_or bytes (offset + i) 0 * 2 ^ (8 * i)) bytes offset

unfoldable pub read_u64_le : Bytes → ℕ → ℕ
read_u64_le bytes offset = read_from 8 0 0 bytes offset

-- Bytes of a slice, by their places in the whole.
get_or-drop :
    (bytes : Bytes) (offset i : ℕ) → get_or (drop offset bytes) i 0 ≡ get_or bytes (offset + i) 0
get_or-drop bytes zero i = let e : 0 + i ≡ i = omega arith in rw e refl
get_or-drop [] (suc offset) i = refl
get_or-drop (b ∷ bytes) (suc offset) i =
    let e : suc offset + i ≡ suc (offset + i) = omega arith in rw e (get_or-drop bytes offset i)

get_or-take : (bytes : Bytes) (n i : ℕ) → i < n → get_or (take n bytes) i 0 ≡ get_or bytes i 0
get_or-take bytes zero i h = absurd (omega arith)
get_or-take [] (suc n) i h = refl
get_or-take (b ∷ bytes) (suc n) zero h = refl
get_or-take (b ∷ bytes) (suc n) (suc i) h = get_or-take bytes n i (omega arith)

pub get_or-slice :
    (bytes : Bytes) (offset n i : ℕ)
    → i < n
    → get_or bytes (offset + i) 0 ≡ get_or (take n (drop offset bytes)) i 0
get_or-slice bytes offset n i h =
    rw (get_or-take (drop offset bytes) n i h, get_or-drop bytes offset i) refl

-- A word is read from the slice that holds it.
pub read_u32_le_of_slice :
    (bytes : Bytes) (offset v : ℕ)
    → take 4 (drop offset bytes) ≡ u32_bytes v
    → v < 2 ^ 32
    → read_u32_le bytes offset ≡ v
unfolding read_u32_le
read_u32_le_of_slice bytes offset v e h =
    let s = λ (i : ℕ) (p : i < 4). rw e at (get_or-slice bytes offset 4 i p) in
    omega (
      arith,
      ap (λ k. get_or bytes k 0) (add-zero offset),
      s 0 (omega arith),
      s 1 (omega arith),
      s 2 (omega arith),
      s 3 (omega arith),
    )

pub read_u64_le_of_slice :
    (bytes : Bytes) (offset v : ℕ)
    → take 8 (drop offset bytes) ≡ u64_bytes v
    → v < 2 ^ 64
    → read_u64_le bytes offset ≡ v
unfolding read_u64_le
read_u64_le_of_slice bytes offset v e h =
    let s = λ (i : ℕ) (p : i < 8). rw e at (get_or-slice bytes offset 8 i p) in
    omega (
      arith,
      s 0 (omega arith),
      s 1 (omega arith),
      s 2 (omega arith),
      s 3 (omega arith),
      s 4 (omega arith),
      s 5 (omega arith),
      s 6 (omega arith),
      s 7 (omega arith),
    )

pub u32_bytes-injective : (v w : ℕ) → v < 2 ^ 32 → w < 2 ^ 32 → u32_bytes v ≡ u32_bytes w → v ≡ w
u32_bytes-injective v w h k e =
    sym (read_u32_le_of_slice (u32_bytes v) 0 v refl h) ∙ read_u32_le_of_slice (u32_bytes v) 0 w e k

pub u64_bytes-injective : (v w : ℕ) → v < 2 ^ 64 → w < 2 ^ 64 → u64_bytes v ≡ u64_bytes w → v ≡ w
u64_bytes-injective v w h k e =
    sym (read_u64_le_of_slice (u64_bytes v) 0 v refl h) ∙ read_u64_le_of_slice (u64_bytes v) 0 w e k
