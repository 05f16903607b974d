-- ===== src/Base/Maps.antt =====
-- Maps with text keys as lists of entries: what lookup and removal do where no key stands twice.
use mathlib.Core.Path.{◌≡◌, refl}
use mathlib.Core.Logic.{inl, inr}
use mathlib.Core.Bool.{Bool, true, false}
use mathlib.Core.Option.{some}
use mathlib.Core.List.{List, [], ◌∷◌, ◌++◌}
use sol_gateway_dcc_zk_proof.Base.Tests.{Bool-cases, is_some}
use sol_gateway_dcc_zk_proof.Base.Texts.{
  Text, text_eq, text_eq_refl, eq_of_text_eq, map_get, map_set, map_delete, set_has, set_add,
}

text_eq_comm : (xs ys : Text) → text_eq xs ys ≡ false → text_eq ys xs ≡ false
text_eq_comm xs ys h = elim (Bool-cases (text_eq ys xs)) [
  | inl same ↦
      let e = eq_of_text_eq ys xs same in
      let t : text_eq xs ys ≡ true = rw e (text_eq_refl xs) in cc (h, t)
  | inr other ↦ other
]

module _ {ℓ} {V : Type ℓ} where
  abbrev pub HasKey : Text → List (Text × V) → Bool → Type 0
  HasKey k m b = is_some (map_get k m) ≡ b

  abbrev pub HasDistinctKeys : List (Text × V) → Type 0
  HasDistinctKeys [] = Unit
  HasDistinctKeys ((k, v) ∷ m) = HasKey k m false × HasDistinctKeys m

  HasKey-prefix :
      (k j : Text) (v : V) (p r : List (Text × V))
      → HasKey k (p ++ (j, v) ∷ r) false
      → text_eq j k ≡ false
  unfolding map_get
  HasKey-prefix k j v [] r h = elim (Bool-cases (text_eq j k)) [
    | inl same ↦ let e = rw same at h in cc e
    | inr other ↦ other
  ]
  HasKey-prefix k j v ((i, u) ∷ p) r h = elim (Bool-cases (text_eq i k)) [
    | inl same ↦ let e = rw same at h in cc e
    | inr other ↦ HasKey-prefix k j v p r (rw other at h)
  ]

  -- A key behind a prefix with other keys.
  pub HasDistinctKeys-front :
      (p : List (Text × V)) (k : Text) (v : V) (r : List (Text × V))
      → HasDistinctKeys (p ++ (k, v) ∷ r)
      → HasKey k p false
  unfolding map_get
  HasDistinctKeys-front [] k v r h = refl
  HasDistinctKeys-front ((j, u) ∷ p) k v r (new, h) =
      let other = text_eq_comm k j (HasKey-prefix j k v p r new) in
      rw other (HasDistinctKeys-front p k v r h)

  HasKey-without :
      (k j : Text) (v : V) (p r : List (Text × V))
      → HasKey k (p ++ (j, v) ∷ r) false
      → HasKey k (p ++ r) false
  unfolding map_get
  HasKey-without k j v [] r h = elim (Bool-cases (text_eq j k)) [
    | inl same ↦ let e = rw same at h in cc e
    | inr other ↦ rw other at h
  ]
  HasKey-without k j v ((i, u) ∷ p) r h = elim (Bool-cases (text_eq i k)) [
    | inl same ↦ let e = rw same at h in cc e
    | inr other ↦ rw other (HasKey-without k j v p r (rw other at h))
  ]

  pub HasDistinctKeys-without :
      (p : List (Text × V)) (k : Text) (v : V) (r : List (Text × V))
      → HasDistinctKeys (p ++ (k, v) ∷ r)
      → HasDistinctKeys (p ++ r)
  HasDistinctKeys-without [] k v r (new, h) = h
  HasDistinctKeys-without ((j, u) ∷ p) k v r (new, h) =
      (HasKey-without j k v p r new, HasDistinctKeys-without p k v r h)

  pub map_get-front :
      (p : List (Text × V)) (k : Text) (v : V) (r : List (Text × V))
      → HasKey k p false
      → map_get k (p ++ (k, v) ∷ r) ≡ some v
  unfolding map_get
  map_get-front [] k v r h = rw (text_eq_refl k) refl
  map_get-front ((j, u) ∷ p) k v r h = elim (Bool-cases (text_eq j k)) [
    | inl same ↦ let e = rw same at h in cc e
    | inr other ↦ rw other (map_get-front p k v r (rw other at h))
  ]

  pub map_delete-front :
      (p : List (Text × V)) (k : Text) (v : V) (r : List (Text × V))
      → HasKey k p false
      → map_delete k (p ++ (k, v) ∷ r) ≡ p ++ r
  unfolding map_get map_delete
  map_delete-front [] k v r h = rw (text_eq_refl k) refl
  map_delete-front ((j, u) ∷ p) k v r h = elim (Bool-cases (text_eq j k)) [
    | inl same ↦ let e = rw same at h in cc e
    | inr other ↦ rw (other, map_delete-front p k v r (rw other at h)) refl
  ]

  pub HasKey-map_set :
      (k j : Text) (v : V) (m : List (Text × V)) → HasKey k m true → HasKey k (map_set j v m) true
  unfolding map_get map_set
  HasKey-map_set k j v [] h = cc h
  HasKey-map_set k j v ((i, u) ∷ m) h = elim (Bool-cases (text_eq i j)) [
    | inl same ↦ elim (Bool-cases (text_eq i k)) [
      | inl here ↦ rw (same, map_get, here) refl
      | inr other ↦ rw (same, map_get, other) (rw other at h)
    ]
    | inr differ ↦ elim (Bool-cases (text_eq i k)) [
      | inl here ↦ rw (differ, map_get, here) refl
      | inr other ↦ rw (differ, map_get, other) (HasKey-map_set k j v m (rw other at h))
    ]
  ]

  pub HasKey-map_set_other :
      (k j : Text) (v : V) (m : List (Text × V))
      → text_eq j k ≡ false
      → HasKey k m false
      → HasKey k (map_set j v m) false
  unfolding map_get map_set
  HasKey-map_set_other k j v [] other h = rw other refl
  HasKey-map_set_other k j v ((i, u) ∷ m) other h = elim (Bool-cases (text_eq i k)) [
    | inl same ↦ let e = rw same at h in cc e
    | inr differ ↦ elim (Bool-cases (text_eq i j)) [
      | inl here ↦ rw (here, map_get, differ) (rw differ at h)
      | inr away ↦ rw (away, map_get, differ) (HasKey-map_set_other k j v m other (rw differ at h))
    ]
  ]

set_has-append_keeps : (k : Text) (s t : List Text) → set_has k s ≡ true → set_has k (s ++ t) ≡ true
unfolding set_has
set_has-append_keeps k [] t h = cc h
set_has-append_keeps k (j ∷ s) t h = elim (Bool-cases (text_eq j k)) [
  | inl same ↦ rw same refl
  | inr other ↦ rw other (set_has-append_keeps k s t (rw other at h))
]

pub set_has-set_add_keeps :
    (k j : Text) (s : List Text) → set_has k s ≡ true → set_has k (set_add j s) ≡ true
unfolding set_add
set_has-set_add_keeps k j s h = elim (Bool-cases (set_has j s)) [
  | inl old ↦ rw old h
  | inr new ↦ rw new (set_has-append_keeps k s (j ∷ []) h)
]
