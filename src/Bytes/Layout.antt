-- ===== src/Bytes/Layout.antt =====
-- A message written field by field into a zeroed buffer is the concatenation of its fields, and a
-- field read back at its offset is what was written there.
use sol_gateway_dcc_zk_proof.Base.{
  ℕ, ◌+◌, ◌≡◌, refl, sym, ◌∙◌, List, [], ◌∷◌, ◌++◌, arith, Result, ok, ◌>>=◌, length, take, drop,
  replicate, length-append, take-append, drop-append, length-replicate,
}
use mathlib.Core.List.{append_assoc, append-nil}
use sol_gateway_dcc_zk_proof.Bytes.{Bytes, Error}
use sol_gateway_dcc_zk_proof.Bytes.Stores.{
  store, set_bytes, store-splice, set_bytes-splice, replicate-add,
}

-- `Buffer.concat(parts)`.
abbrev pub concat : List Bytes → Bytes
concat [] = []
concat (p ∷ ps) = p ++ concat ps

abbrev pub total : List Bytes → ℕ
total [] = 0
total (p ∷ ps) = length p + total ps

-- A buffer and the running `offset` of an encoder.
pub record Cursor : Type 0 where
  pub buf : Bytes
  pub offset : ℕ

-- `new Uint8Array(n)` and `let offset = 0`.
unfoldable pub zeroed : ℕ → Cursor
zeroed n = record { buf = replicate n 0; offset = 0 }

-- `write(buf, offset, …); offset += n` for a writer that stores the bytes one by one.
unfoldable pub put : ℕ → Bytes → Cursor → Cursor
put n bs c = record { buf = store c.buf c.offset bs; offset = c.offset + n }

-- `buf.set(src, offset); offset += n`.
unfoldable pub put_set : ℕ → Bytes → Cursor → Result Error Cursor
put_set n bs c = do
  buf ← set_bytes c.buf c.offset bs
  ok (record { buf = buf; offset = c.offset + n })

-- The cursor after the given parts, with `n` bytes left.
pub written : List Bytes → ℕ → Cursor
written parts n = record { buf = concat parts ++ replicate n 0; offset = total parts }

pub offset-written : (parts : List Bytes) (n : ℕ) → (written parts n).offset ≡ total parts
unfolding written
offset-written parts n = refl

pub buf-written : (parts : List Bytes) → (written parts 0).buf ≡ concat parts
unfolding written
buf-written parts = append-nil (concat parts)

concat-concat : (ps qs : List Bytes) → concat (ps ++ qs) ≡ concat ps ++ concat qs
concat-concat [] qs = refl
concat-concat (p ∷ ps) qs = rw (concat-concat ps qs) (sym (append_assoc p (concat ps) (concat qs)))

pub total-append : (ps qs : List Bytes) → total (ps ++ qs) ≡ total ps + total qs
total-append [] qs = omega arith
total-append (p ∷ ps) qs = omega (arith, total-append ps qs)

pub length-concat : (ps : List Bytes) → length (concat ps) ≡ total ps
length-concat [] = refl
length-concat (p ∷ ps) = omega (arith, length-append p (concat ps), length-concat ps)

pub zeroed-written : (n : ℕ) → zeroed n ≡ written [] n
unfolding zeroed written
zeroed-written n = refl

module _ (parts : List Bytes) (bs : Bytes) (k n : ℕ) (h : length bs ≡ k) where
  grown : concat (parts ++ bs ∷ []) ++ replicate n 0 ≡ concat parts ++ (bs ++ replicate n 0)
  grown =
      rw
        (
          concat-concat parts (bs ∷ []),
          append_assoc (concat parts) (bs ++ []) (replicate n 0),
          append-nil bs,
        )
        refl

  spliced :
      store (concat parts ++ (replicate k 0 ++ replicate n 0)) (length (concat parts)) bs
      ≡ concat parts ++ (bs ++ replicate n 0)
  spliced =
      store-splice (concat parts) (replicate k 0) bs (replicate n 0)
        (h ∙ sym (length-replicate k 0))

  moved : length (concat parts) + k ≡ total (parts ++ bs ∷ [])
  moved = omega (arith, h, length-concat parts, total-append parts (bs ∷ []))

  -- A field of `k` bytes fills the next `k` bytes and moves the offset past them.
  pub put-written : put k bs (written parts (k + n)) ≡ written (parts ++ bs ∷ []) n
  unfolding put written
  put-written = rw (replicate-add k n 0, ← length-concat parts, spliced, grown, moved) refl

  pub put_set-written : put_set k bs (written parts (k + n)) ≡ ok (written (parts ++ bs ∷ []) n)
  unfolding put_set written
  put_set-written =
      let set_spliced =
        set_bytes-splice (concat parts) (replicate k 0) bs (replicate n 0)
          (h ∙ sym (length-replicate k 0)) in
      rw (replicate-add k n 0, ← length-concat parts, set_spliced, grown, moved) refl

-- `bytes.slice(offset, offset + n)`.
abbrev pub slice : Bytes → ℕ → ℕ → Bytes
slice bytes offset n = take n (drop offset bytes)

-- A field is read back at its offset.
pub slice-concat :
    (pre : List Bytes) (part : Bytes) (post : List Bytes) (offset n : ℕ)
    → offset ≡ total pre
    → n ≡ length part
    → slice (concat (pre ++ part ∷ post)) offset n ≡ part
slice-concat pre part post offset n e f =
    rw
      (
        e,
        f,
        concat-concat pre (part ∷ post),
        ← length-concat pre,
        drop-append (concat pre) (part ++ concat post),
      )
      (take-append part (concat post))

-- Lists of parts whose lengths agree one by one.
abbrev pub HaveSameLengths : List Bytes → List Bytes → Type 0
HaveSameLengths [] [] = Unit
HaveSameLengths [] (q ∷ qs) = ⊥
HaveSameLengths (p ∷ ps) [] = ⊥
HaveSameLengths (p ∷ ps) (q ∷ qs) = (length p ≡ length q) × HaveSameLengths ps qs

abbrev pub AreSame : List Bytes → List Bytes → Type 0
AreSame [] [] = Unit
AreSame [] (q ∷ qs) = ⊥
AreSame (p ∷ ps) [] = ⊥
AreSame (p ∷ ps) (q ∷ qs) = (p ≡ q) × AreSame ps qs

pub append-injective :
    (xs ys us vs : Bytes) → length xs ≡ length ys → xs ++ us ≡ ys ++ vs → (xs ≡ ys) × (us ≡ vs)
append-injective [] [] us vs h e = (refl, e)
append-injective [] (y ∷ ys) us vs h e = absurd (omega arith)
append-injective (x ∷ xs) [] us vs h e = absurd (omega arith)
append-injective (x ∷ xs) (y ∷ ys) us vs h e =
    let heads : x ≡ y = cc e in
    let tails : xs ++ us ≡ ys ++ vs = cc e in
    let (same, rest) = append-injective xs ys us vs (omega arith) tails in (cc (heads, same), rest)

-- Parts of known lengths can be told apart in their concatenation.
pub concat-injective :
    (ps qs : List Bytes) → HaveSameLengths ps qs → concat ps ≡ concat qs → AreSame ps qs
concat-injective [] [] h e = tt
concat-injective [] (q ∷ qs) h e = h
concat-injective (p ∷ ps) [] h e = h
concat-injective (p ∷ ps) (q ∷ qs) (l, h) e =
    let (same, rest) = append-injective p q (concat ps) (concat qs) l e in
    (same, concat-injective ps qs h rest)
