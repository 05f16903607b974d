-- ===== src/Bytes/Values.antt =====
-- The number that a run of bytes stands for, and the loops of `splitTo128` and `fieldToBytes32BE`.
use native.Mathlib.Nat.{pow-suc, pow-zero}
use mathlib.Core.List.{append_assoc}
use sol_gateway_dcc_zk_proof.Base.{
  ℕ, zero, suc, ◌+◌, ◌*◌, ◌/◌, ◌%◌, ◌^◌, ◌≤◌, ◌<◌, ◌≡◌, refl, ap, ◌∙◌, [], ◌∷◌, ◌++◌, arith, length,
  set, get_or, replicate, length-append,
}
use sol_gateway_dcc_zk_proof.Bytes.{Bytes, AreBytes}

-- The little-endian value, least significant byte first.
abbrev pub le_value : Bytes → ℕ
le_value [] = 0
le_value (b ∷ bs) = b + 256 * le_value bs

-- The big-endian value, after the bytes that gave `acc`.
abbrev pub be_value : ℕ → Bytes → ℕ
be_value acc [] = acc
be_value acc (b ∷ bs) = be_value (acc * 256 + b) bs

-- `for (let i = base + n - 1; i >= base; i--) acc = (acc << 8n) | BigInt(bytes[i])`.
unfoldable pub join_down : ℕ → ℕ → ℕ → Bytes → ℕ
join_down zero base acc bytes = acc
join_down (suc n) base acc bytes = join_down n base (acc * 256 + get_or bytes (base + n) 0) bytes

-- `for (let i = n - 1; i >= 0; i--) { buf[i] = Number(v & 0xffn); v >>= 8n; }`.
unfoldable pub fill_down : ℕ → ℕ → Bytes → Bytes
fill_down zero v buf = buf
fill_down (suc i) v buf = fill_down i (v / 256) (set buf i (v % 256))

-- The little-endian value of `n` bytes from `base` on.
pub le_range : ℕ → ℕ → Bytes → ℕ
le_range zero base bytes = 0
le_range (suc n) base bytes = le_range n base bytes + get_or bytes (base + n) 0 * 256 ^ n

pub join_down-le_range :
    (n base acc : ℕ) (bytes : Bytes)
    → join_down n base acc bytes ≡ acc * 256 ^ n + le_range n base bytes
unfolding join_down le_range
join_down-le_range zero base acc bytes = omega arith
join_down-le_range (suc n) base acc bytes = omega (
  arith,
  pow-suc 256 n,
  join_down-le_range n base (acc * 256 + get_or bytes (base + n) 0) bytes,
  ap (λ (p : ℕ). acc * p) (pow-suc 256 n),
)

le_range-cons :
    (n base b : ℕ) (bytes : Bytes) → le_range n (suc base) (b ∷ bytes) ≡ le_range n base bytes
unfolding le_range
le_range-cons zero base b bytes = refl
le_range-cons (suc n) base b bytes =
    let e : suc base + n ≡ suc (base + n) = omega arith in rw (e, le_range-cons n base b bytes) refl

-- The first byte apart.
le_range-head :
    (n b : ℕ) (bytes : Bytes) → le_range (suc n) 0 (b ∷ bytes) ≡ b + 256 * le_range n 0 bytes
unfolding le_range
le_range-head zero b bytes = omega arith
le_range-head (suc n) b bytes =
    let e : 0 + n ≡ n = omega arith in
    let e' : 0 + suc n ≡ suc n = omega arith in
    let ih = rw e at (le_range-head n b bytes) in
    rw (e, e')
      (omega (arith, ih, pow-suc 256 n, ap (λ (p : ℕ). get_or bytes n 0 * p) (pow-suc 256 n)))

pub le_range-le_value : (bytes : Bytes) → le_range (length bytes) 0 bytes ≡ le_value bytes
unfolding le_range
le_range-le_value [] = refl
le_range-le_value (b ∷ bytes) =
    le_range-head (length bytes) b bytes ∙ ap (λ v. b + 256 * v) (le_range-le_value bytes)

pow-add : (b m n : ℕ) → b ^ (m + n) ≡ b ^ m * b ^ n
pow-add b m zero = let e : m + 0 ≡ m = omega arith in rw (e, pow-zero b) (omega arith)
pow-add b m (suc n) =
    let e : m + suc n ≡ suc (m + n) = omega arith in
    rw (e, pow-suc b (m + n), pow-suc b n, pow-add b m n) (omega arith)

get_or-lt : (bytes : Bytes) (i : ℕ) → AreBytes bytes → get_or bytes i 0 < 256
get_or-lt [] i h = omega arith
get_or-lt (b ∷ bytes) zero h = h.0
get_or-lt (b ∷ bytes) (suc i) h = get_or-lt bytes i h.1

-- A range of `m + n` bytes is two ranges.
pub le_range-add :
    (m n base : ℕ) (bytes : Bytes)
    → le_range (m + n) base bytes ≡ le_range m base bytes + 256 ^ m * le_range n (base + m) bytes
unfolding le_range
le_range-add m zero base bytes = let e : m + 0 ≡ m = omega arith in rw e (omega arith)
le_range-add m (suc n) base bytes =
    let e : m + suc n ≡ suc (m + n) = omega arith in
    let e' : base + (m + n) ≡ base + m + n = omega arith in
    rw (e, e')
      (omega (
        arith,
        le_range-add m n base bytes,
        ap (λ (p : ℕ). get_or bytes (base + m + n) 0 * p) (pow-add 256 m n),
      ))

pub le_range-lt : (n base : ℕ) (bytes : Bytes) → AreBytes bytes → le_range n base bytes < 256 ^ n
unfolding le_range
le_range-lt zero base bytes h = omega arith
le_range-lt (suc n) base bytes h =
    let g = get_or-lt bytes (base + n) h in
    let scaled : get_or bytes (base + n) 0 * 256 ^ n ≤ 255 * 256 ^ n = grind (arith, g) in
    omega (arith, le_range-lt n base bytes h, scaled, pow-suc 256 n)

-- The big-endian bytes of `v`, as many as `n`.
pub be_bytes : ℕ → ℕ → Bytes
be_bytes zero v = []
be_bytes (suc n) v = be_bytes n (v / 256) ++ (v % 256) ∷ []

set-replicate :
    (n c x : ℕ) (post : Bytes) → set (replicate (suc n) x ++ post) n c ≡ replicate n x ++ c ∷ post
set-replicate zero c x post = refl
set-replicate (suc n) c x post = ap (◌∷◌ x) (set-replicate n c x post)

pub fill_down-be_bytes :
    (n v x : ℕ) (post : Bytes) → fill_down n v (replicate n x ++ post) ≡ be_bytes n v ++ post
unfolding fill_down be_bytes
fill_down-be_bytes zero v x post = refl
fill_down-be_bytes (suc n) v x post =
    rw
      (
        set-replicate n (v % 256) x post,
        fill_down-be_bytes n (v / 256) x ((v % 256) ∷ post),
        append_assoc (be_bytes n (v / 256)) ((v % 256) ∷ []) post,
      )
      refl

pub length-be_bytes : (n v : ℕ) → length (be_bytes n v) ≡ n
unfolding be_bytes
length-be_bytes zero v = refl
length-be_bytes (suc n) v =
    omega
      (arith, length-append (be_bytes n (v / 256)) ((v % 256) ∷ []), length-be_bytes n (v / 256))

be_value-snoc :
    (acc : ℕ) (bs : Bytes) (c : ℕ) → be_value acc (bs ++ c ∷ []) ≡ be_value acc bs * 256 + c
be_value-snoc acc [] c = refl
be_value-snoc acc (b ∷ bs) c = be_value-snoc (acc * 256 + b) bs c

pub be_value-be_bytes : (n v : ℕ) → v < 256 ^ n → be_value 0 (be_bytes n v) ≡ v
unfolding be_bytes
be_value-be_bytes zero v h = omega arith
be_value-be_bytes (suc n) v h =
    rw
      (
        be_value-snoc 0 (be_bytes n (v / 256)) (v % 256),
        be_value-be_bytes n (v / 256) (omega (arith, pow-suc 256 n)),
      )
      (omega arith)

-- Bytes of one number are determined by their value.
pub le_value-injective :
    (xs ys : Bytes)
    → length xs ≡ length ys
    → AreBytes xs
    → AreBytes ys
    → le_value xs ≡ le_value ys
    → xs ≡ ys
le_value-injective [] [] n h k e = refl
le_value-injective [] (y ∷ ys) n h k e = absurd (omega arith)
le_value-injective (x ∷ xs) [] n h k e = absurd (omega arith)
le_value-injective (x ∷ xs) (y ∷ ys) n h k e =
    let heads : x ≡ y = omega (arith, h.0, k.0) in
    let values : le_value xs ≡ le_value ys = omega (arith, h.0, k.0) in
    cc (heads, le_value-injective xs ys (omega arith) h.1 k.1 values)
