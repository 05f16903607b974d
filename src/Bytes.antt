-- ===== src/Bytes.antt =====
-- Byte buffers as lists of numbers below 256: the `Uint8Array` and `Buffer` operations that the
-- encoders of libs/encoding-ts/index.ts, zk/prover/src and validator/src share.
pub mod Stores
pub mod Digits
pub mod Layout
pub mod Regions
pub mod Values
use sol_gateway_dcc_zk_proof.Base.{
  ℕ, ◌<◌, ◌≡◌, refl, ◌↔◌, Bool, true, false, ◌&&◌, List, [], ◌∷◌, All, Bool-cases, inl, inr, ◌==◌,
  ==_iff, arith,
}
use native.Mathlib.Decide.{ℕ_discrete}

abbrev pub Bytes : Type 0
Bytes = List ℕ

abbrev pub IsByte : ℕ → Type 0
IsByte b = b < 256

abbrev pub AreBytes : Bytes → Type 0
AreBytes bs = All IsByte bs

-- What the encoders and decoders throw; the text of a message is its constructor.
pub data Error : Type 0 where
  must_be_32_bytes : Error
  range_error : Error
  encoding_error : ℕ → ℕ → Error
  preimage_too_short : ℕ → Error
  exceeds_field_order : ℕ → Error

-- The test `bytesToHex(a) === bytesToHex(b)`, or `a.equals(b)`.
unfoldable pub bytes_eq : Bytes → Bytes → Bool
bytes_eq [] [] = true
bytes_eq [] (b ∷ bs) = false
bytes_eq (a ∷ xs) [] = false
bytes_eq (a ∷ xs) (b ∷ ys) = a == b && bytes_eq xs ys

pub eq_of_bytes_eq : (xs ys : Bytes) → bytes_eq xs ys ≡ true → xs ≡ ys
unfolding bytes_eq
eq_of_bytes_eq [] [] h = refl
eq_of_bytes_eq [] (b ∷ bs) h = cc
eq_of_bytes_eq (a ∷ xs) [] h = cc
eq_of_bytes_eq (a ∷ xs) (b ∷ ys) h = ground (arith, eq_of_bytes_eq xs ys)

pub bytes_eq_refl : (xs : Bytes) → bytes_eq xs xs ≡ true
unfolding bytes_eq
bytes_eq_refl [] = refl
bytes_eq_refl (a ∷ xs) = ground (arith, bytes_eq_refl xs)

pub bytes-discrete : Discrete Bytes
bytes-discrete = hlevel ℕ_discrete

pub bytes_eq_comm : (xs ys : Bytes) → bytes_eq xs ys ≡ false → bytes_eq ys xs ≡ false
bytes_eq_comm xs ys h = elim (Bool-cases (bytes_eq ys xs)) [
  | inl same ↦
      let e = eq_of_bytes_eq ys xs same in
      let t : bytes_eq xs ys ≡ true = rw e (bytes_eq_refl xs) in cc (h, t)
  | inr other ↦ other
]
