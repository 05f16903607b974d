-- ===== src/Bytes/Regions.antt =====
-- Runs of stores in one buffer, and the parts of the buffer that they leave alone.
use sol_gateway_dcc_zk_proof.Base.{
  ℕ, zero, suc, ◌+◌, ◌≤◌, ◌≡◌, refl, ap, ◌∙◌, ◌⊎◌, [], ◌∷◌, ◌++◌, arith, length, set,
}
use native.Mathlib.Nat.{add-zero}
use sol_gateway_dcc_zk_proof.Bytes.{Bytes}
use sol_gateway_dcc_zk_proof.Bytes.Layout.{slice}
use sol_gateway_dcc_zk_proof.Bytes.Stores.{store, store-cons}

length-set : (buf : Bytes) (i b : ℕ) → length (set buf i b) ≡ length buf
length-set [] i b = refl
length-set (c ∷ buf) zero b = refl
length-set (c ∷ buf) (suc i) b = ap suc (length-set buf i b)

pub length-store : (buf : Bytes) (i : ℕ) (bs : Bytes) → length (store buf i bs) ≡ length buf
unfolding store
length-store buf i [] = refl
length-store buf i (b ∷ bs) = length-store (set buf i b) (i + 1) bs ∙ length-set buf i b

-- Two runs of bytes that have no place in common.
abbrev pub Apart : ℕ → ℕ → ℕ → ℕ → Type 0
Apart i m j n = (i + m ≤ j) ⊎ (j + n ≤ i)

slice-set-Apart :
    (buf : Bytes) (i b j n : ℕ) → Apart i 1 j n → slice (set buf i b) j n ≡ slice buf j n
slice-set-Apart [] i b j n h = refl
slice-set-Apart (c ∷ buf) zero b zero zero h = refl
slice-set-Apart (c ∷ buf) zero b zero (suc n) h = absurd (omega arith)
slice-set-Apart (c ∷ buf) zero b (suc j) n h = refl
slice-set-Apart (c ∷ buf) (suc i) b zero zero h = refl
slice-set-Apart (c ∷ buf) (suc i) b zero (suc n) h =
    ap (◌∷◌ c) (slice-set-Apart buf i b zero n (omega arith))
slice-set-Apart (c ∷ buf) (suc i) b (suc j) n h = slice-set-Apart buf i b j n (omega arith)

-- A run of stores leaves the bytes elsewhere as they are.
pub slice-store-Apart :
    (buf : Bytes) (i : ℕ) (bs : Bytes) (j n : ℕ)
    → Apart i (length bs) j n
    → slice (store buf i bs) j n ≡ slice buf j n
unfolding store
slice-store-Apart buf i [] j n h = refl
slice-store-Apart buf i (b ∷ bs) j n h =
    slice-store-Apart (set buf i b) (i + 1) bs j n (omega arith)
    ∙ slice-set-Apart buf i b j n (omega arith)

store_head :
    (c : ℕ) (buf : Bytes) (b : ℕ) (bs : Bytes) → store (c ∷ buf) 0 (b ∷ bs) ≡ b ∷ store buf 0 bs
unfolding store
store_head c buf b bs = store-cons b buf 0 bs

-- What was stored inside the buffer is read back.
pub slice-store :
    (buf : Bytes) (i : ℕ) (bs : Bytes)
    → i + length bs ≤ length buf
    → slice (store buf i bs) i (length bs) ≡ bs
slice-store buf i [] h = refl
slice-store [] i (b ∷ bs) h = absurd (omega arith)
slice-store (c ∷ buf) zero (b ∷ bs) h =
    rw (store_head c buf b bs) (ap (◌∷◌ b) (slice-store buf 0 bs (omega arith)))
slice-store (c ∷ buf) (suc i) (b ∷ bs) h =
    rw (store-cons c buf i (b ∷ bs)) (slice-store buf i (b ∷ bs) (omega arith))

-- A run of stores that goes on where another ended.
pub store-store :
    (buf : Bytes) (i : ℕ) (xs ys : Bytes)
    → store (store buf i xs) (i + length xs) ys ≡ store buf i (xs ++ ys)
unfolding store
store-store buf i [] ys = rw (add-zero i) refl
store-store buf i (x ∷ xs) ys =
    let e : i + suc (length xs) ≡ i + 1 + length xs = omega arith in
    rw e (store-store (set buf i x) (i + 1) xs ys)
