-- ===== src/Bytes/Stores.antt =====
-- `dst.set(src, offset)` and runs of `buf[offset + i] = byte` on a typed array.
use sol_gateway_dcc_zk_proof.Base.{
  ℕ, zero, suc, ◌+◌, ◌≡◌, refl, ap, ◌∙◌, [], ◌∷◌, ◌++◌, arith, Result, ok, err, length, set,
  replicate, length-append, leb, if◌then◌else◌,
}
use sol_gateway_dcc_zk_proof.Bytes.{Bytes, Error, range_error}

-- `buf[offset] = b0; buf[offset + 1] = b1; ...`: a store outside the array is dropped.
unfoldable pub store : Bytes → ℕ → Bytes → Bytes
store buf offset [] = buf
store buf offset (b ∷ bs) = store (set buf offset b) (offset + 1) bs

-- `dst.set(src, offset)` throws where `src` does not fit.
unfoldable pub set_bytes : Bytes → ℕ → Bytes → Result Error Bytes
set_bytes dst offset src =
    if leb (offset + length src) (length dst) then ok (store dst offset src) else err range_error

pub store-cons :
    (c : ℕ) (buf : Bytes) (i : ℕ) (bs : Bytes) → store (c ∷ buf) (suc i) bs ≡ c ∷ store buf i bs
unfolding store
store-cons c buf i [] = refl
store-cons c buf i (b ∷ bs) =
    let e : suc i + 1 ≡ suc (i + 1) = omega arith in rw e (store-cons c (set buf i b) (i + 1) bs)

store-append : (pre buf bs : Bytes) → store (pre ++ buf) (length pre) bs ≡ pre ++ store buf 0 bs
store-append [] buf bs = refl
store-append (c ∷ pre) buf bs =
    rw (store-cons c (pre ++ buf) (length pre) bs) (ap (◌∷◌ c) (store-append pre buf bs))

-- A run of stores replaces as many bytes as it has, whatever they were.
store-zero : (old bs post : Bytes) → length bs ≡ length old → store (old ++ post) 0 bs ≡ bs ++ post
unfolding store
store-zero [] [] post h = refl
store-zero [] (b ∷ bs) post h = absurd (omega arith)
store-zero (c ∷ old) [] post h = absurd (omega arith)
store-zero (c ∷ old) (b ∷ bs) post h =
    store-cons b (old ++ post) 0 bs ∙ ap (◌∷◌ b) (store-zero old bs post (omega arith))

pub store-splice :
    (pre old bs post : Bytes)
    → length bs ≡ length old
    → store (pre ++ (old ++ post)) (length pre) bs ≡ pre ++ (bs ++ post)
store-splice pre old bs post h =
    rw (store-append pre (old ++ post) bs) (ap (◌++◌ pre) (store-zero old bs post h))

pub set_bytes-splice :
    (pre old bs post : Bytes)
    → length bs ≡ length old
    → set_bytes (pre ++ (old ++ post)) (length pre) bs ≡ ok (pre ++ (bs ++ post))
unfolding set_bytes
set_bytes-splice pre old bs post h =
    ground (
      arith,
      store-splice pre old bs post h,
      length-append pre (old ++ post),
      length-append old post,
    )

pub replicate-add : (k n : ℕ) (b : ℕ) → replicate (k + n) b ≡ replicate k b ++ replicate n b
replicate-add zero n b = rw (Prim.Native.Nat.add.zero n) refl
replicate-add (suc k) n b =
    let e : suc k + n ≡ suc (k + n) = omega arith in rw e (ap (◌∷◌ b) (replicate-add k n b))
