-- ===== src/Base/Texts.antt =====
-- Texts as lists of character codes, tested for equality, and the `Map` and `Set` that have them as
-- keys, in insertion order.
use mathlib.Core.Path.{◌≡◌, refl}
use mathlib.Core.Bool.{Bool, true, false, ◌&&◌, ◌||◌}
use mathlib.Core.Option.{Option, none, some}
use mathlib.Core.List.{List, [], ◌∷◌, ◌++◌}
use Prim.Native.Nat.{ℕ}
use native.Mathlib.Omega.{arith}
use sol_gateway_dcc_zk_proof.Base.Tests.{◌==◌, if◌then◌else◌, Bool-cases}
use sol_gateway_dcc_zk_proof.Base.Lists.{All}
use mathlib.Core.Logic.{inl, inr, ◌≢◌}

abbrev pub Text : Type 0
Text = List ℕ

unfoldable pub text_eq : Text → Text → Bool
text_eq [] [] = true
text_eq [] (b ∷ bs) = false
text_eq (a ∷ xs) [] = false
text_eq (a ∷ xs) (b ∷ ys) = a == b && text_eq xs ys

pub eq_of_text_eq : (xs ys : Text) → text_eq xs ys ≡ true → xs ≡ ys
unfolding text_eq
eq_of_text_eq [] [] h = refl
eq_of_text_eq [] (b ∷ bs) h = cc
eq_of_text_eq (a ∷ xs) [] h = cc
eq_of_text_eq (a ∷ xs) (b ∷ ys) h = ground (arith, eq_of_text_eq xs ys)

pub text_eq_refl : (xs : Text) → text_eq xs xs ≡ true
unfolding text_eq
text_eq_refl [] = refl
text_eq_refl (a ∷ xs) = ground (arith, text_eq_refl xs)

ne_of_text_eq : (xs ys : Text) → text_eq xs ys ≡ false → xs ≢ ys
ne_of_text_eq xs ys h e = let same : text_eq xs ys ≡ true = rw e (text_eq_refl ys) in cc (h, same)

module _ {ℓ} {V : Type ℓ} where
  unfoldable pub map_get : Text → List (Text × V) → Option V
  map_get k [] = none
  map_get k ((j, v) ∷ m) = if text_eq j k then some v else map_get k m

  unfoldable pub map_set : Text → V → List (Text × V) → List (Text × V)
  map_set k v [] = (k, v) ∷ []
  map_set k v ((j, w) ∷ m) = if text_eq j k then (j, v) ∷ m else (j, w) ∷ map_set k v m

  unfoldable pub map_delete : Text → List (Text × V) → List (Text × V)
  map_delete k [] = []
  map_delete k ((j, w) ∷ m) = if text_eq j k then m else (j, w) ∷ map_delete k m

  pub map_get-map_set :
      (k : Text) (v : V) (m : List (Text × V)) → map_get k (map_set k v m) ≡ some v
  unfolding map_get map_set
  map_get-map_set k v [] = rw (text_eq_refl k)
  map_get-map_set k v ((j, w) ∷ m) = elim (Bool-cases (text_eq j k)) [
    | inl e ↦ rw (e, map_get, e)
    | inr e ↦ rw (e, map_get, e) (map_get-map_set k v m)
  ]

  module _ {κ} (P : Text → V → Type κ) where
    abbrev pub Entries : List (Text × V) → Type κ
    Entries m = All (λ e. P e.0 e.1) m

    pub Entries-map_get :
        (k : Text) (v : V) (m : List (Text × V)) → Entries m → map_get k m ≡ some v → P k v
    unfolding map_get
    Entries-map_get k v [] h e = cc
    Entries-map_get k v ((j, w) ∷ m) (p, h) e = elim (Bool-cases (text_eq j k)) [
      | inl same ↦
          let value : w ≡ v = cc (rw (same, map_get) at e) in
          let key = eq_of_text_eq j k same in rw (← key, ← value) p
      | inr other ↦ Entries-map_get k v m h (rw (other, map_get) at e)
    ]

    pub Entries-map_set :
        (k : Text) (v : V) (m : List (Text × V)) → Entries m → P k v → Entries (map_set k v m)
    unfolding map_set
    Entries-map_set k v [] h p = (p, tt)
    Entries-map_set k v ((j, w) ∷ m) (q, h) p = elim (Bool-cases (text_eq j k)) [
      | inl same ↦ let key = eq_of_text_eq j k same in rw same (rw key p, h)
      | inr other ↦ rw other (q, Entries-map_set k v m h p)
    ]

    pub Entries-map_delete : (k : Text) (m : List (Text × V)) → Entries m → Entries (map_delete k m)
    unfolding map_delete
    Entries-map_delete k [] h = tt
    Entries-map_delete k ((j, w) ∷ m) (q, h) = elim (Bool-cases (text_eq j k)) [
      | inl same ↦ rw same h
      | inr other ↦ rw other (q, Entries-map_delete k m h)
    ]

unfoldable pub set_has : Text → List Text → Bool
set_has k [] = false
set_has k (j ∷ s) = text_eq j k || set_has k s

unfoldable pub set_add : Text → List Text → List Text
set_add k s = if set_has k s then s else s ++ k ∷ []

unfoldable pub set_delete : Text → List Text → List Text
set_delete k [] = []
set_delete k (j ∷ s) = if text_eq j k then s else j ∷ set_delete k s

pub set_has-append : (k : Text) (s : List Text) → set_has k (s ++ k ∷ []) ≡ true
unfolding set_has
set_has-append k [] = rw (text_eq_refl k)
set_has-append k (j ∷ s) = ground (arith, set_has-append k s)

pub set_has-set_add : (k : Text) (s : List Text) → set_has k (set_add k s) ≡ true
unfolding set_add
set_has-set_add k s = elim (Bool-cases (set_has k s)) [
  | inl old ↦ rw old old
  | inr new ↦ rw new (set_has-append k s)
]
