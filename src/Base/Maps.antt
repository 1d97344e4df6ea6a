-- ===== src/Base/Maps.antt =====
-- A Go map from strings, by the keys that are set in it.
use mathlib.Core.Path.{◌≡◌, refl, sym, ap, ◌∙◌}
use mathlib.Core.Logic.{inl, inr}
use mathlib.Core.Bool.{false}
use mathlib.Core.Option.{Option, none, some}
use mathlib.Core.List.{List, [], ◌∷◌}
use logger.Base.Tests.{if◌then◌else◌, Bool-cases}
use logger.Base.Text.{Bytes, bytes_eq, bytes_eq_iff}

abbrev pub Map : Type 0 → Type 0
Map A = List (Bytes × A)

-- `m[key] = v`
unfoldable pub put : {A : Type 0} → Bytes → A → Map A → Map A
unfolding bytes_eq
put key v [] = (key, v) ∷ []
put key v ((k, x) ∷ m) =
    let rest = put key v m in if bytes_eq k key then (k, v) ∷ m else (k, x) ∷ rest

-- `v, ok := m[key]`
unfoldable pub lookup : {A : Type 0} → Bytes → Map A → Option A
unfolding bytes_eq
lookup key [] = none
lookup key ((k, x) ∷ m) = let rest = lookup key m in if bytes_eq k key then some x else rest

-- A value that was put under its key is found there, and the others are as they were.
pub lookup-put :
    {A : Type 0}
    → (key k : Bytes) (v : A) (m : Map A)
    → lookup key (put k v m) ≡ (if bytes_eq k key then some v else lookup key m)
unfolding lookup put
lookup-put key k v [] = refl
lookup-put key k v ((j, x) ∷ m) = elim (Bool-cases (bytes_eq j k)) [
  | inl e ↦
      let same : j ≡ k = (bytes_eq_iff j k).0 e in
      rw (e, same) (elim (Bool-cases (bytes_eq k key)) [ inl o ↦ rw o refl | inr o ↦ rw o refl ])
  | inr e ↦
      rw (e, lookup-put key k v m)
        (elim (Bool-cases (bytes_eq k key)) [
          | inl o ↦
              let same : k ≡ key = (bytes_eq_iff k key).0 o in
              let other : bytes_eq j key ≡ false = ap (bytes_eq j) (sym same) ∙ e in
              rw (o, other) refl
          | inr o ↦ rw o refl
        ])
]
