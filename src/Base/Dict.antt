-- ===== src/Base/Dict.antt =====
-- A Go map from texts, as an association list: `m[k]`, `m[k] = v`, `delete(m, k)`, `len(m)`.
-- The order of the list stands for an iteration order, which Go leaves open.
use codeai.Base.Tests.{if◌then◌else◌, str_eq_cases}
use Prim.Native.String.{String}
use mathlib.Core.Path.{◌≡◌, refl, sym, ◌∙◌}
use mathlib.Core.Logic.{◌≢◌, ◌⊎◌, inl, inr}
use mathlib.Core.Option.{Option, none, some}
use mathlib.Core.List.{List, [], ◌∷◌}
use native.Mathlib.Omega.{arith}
use text.Mathlib.Text.{◌==◌ as str_eq}
use text.Mathlib.TextEquality.{eq_iff}
use text.Mathlib.TextPositions.{eq_refl}

abbrev pub Dict {ℓ} : Type ℓ → Type ℓ
Dict V = List (String × V)

module _ {ℓ} {V : Type ℓ} where
  unfoldable pub lookup : String → Dict V → Option V
  lookup key [] = none
  lookup key ((first, value) ∷ rest) =
      let further = lookup key rest in if str_eq first key then some value else further

  -- An assignment keeps the place of a key that is there.
  unfoldable pub insert : String → V → Dict V → Dict V
  insert key new [] = (key, new) ∷ []
  insert key new ((first, value) ∷ rest) =
      let further = (first, value) ∷ insert key new rest in
      if str_eq first key then (first, new) ∷ rest else further

  unfoldable pub delete : String → Dict V → Dict V
  delete key [] = []
  delete key ((first, value) ∷ rest) =
      let further = delete key rest in
      if str_eq first key then further else (first, value) ∷ further

  pub lookup-insert :
      (written read : String) (new : V) (entries : Dict V)
      → lookup read (insert written new entries)
        ≡ (if str_eq written read then some new else lookup read entries)
  unfolding lookup insert
  lookup-insert written read new [] = refl
  lookup-insert written read new ((first, value) ∷ rest) =
      let ih = lookup-insert written read new rest in
      ground (ih, eq_iff first written, eq_iff first read, eq_iff written read, arith)

  pub lookup-insert_self :
      (key : String) (new : V) (entries : Dict V) → lookup key (insert key new entries) ≡ some new
  lookup-insert_self key new entries = simp (eq_refl, lookup-insert)

  pub lookup-insert_ne :
      (k j : String) (v : V) (m : Dict V) → k ≢ j → lookup j (insert k v m) ≡ lookup j m
  lookup-insert_ne k j v m h = ground (arith, lookup-insert k j v m, eq_iff k j)

  pub lookup-delete :
      (k j : String) (m : Dict V)
      → lookup j (delete k m) ≡ (if str_eq k j then none else lookup j m)
  unfolding lookup delete
  lookup-delete k j [] = ground arith
  lookup-delete k j ((i, w) ∷ m) =
      ground (arith, eq_iff k j, eq_iff i k, eq_iff i j, lookup-delete k j m)

  -- An entry that is read after a write is the one written, or an older one under another key.
  pub lookup-insert_cases :
      (k j : String) (v : V) (m : Dict V) {w : V}
      → lookup j (insert k v m) ≡ some w
      → ((k ≡ j) × (v ≡ w)) ⊎ ((k ≢ j) × (lookup j m ≡ some w))
  lookup-insert_cases k j v m {w} h =
      let e : (if str_eq k j then some v else lookup j m) ≡ some w =
        sym (lookup-insert k j v m) ∙ h in
      elim (str_eq_cases k j) [
        | inl (same, t) ↦ inl (same, cc (rw t at e))
        | inr (other, t) ↦ inr (other, rw t at e)
      ]

  pub lookup-delete_cases :
      (k j : String) (m : Dict V) {w : V}
      → lookup j (delete k m) ≡ some w
      → (k ≢ j) × (lookup j m ≡ some w)
  lookup-delete_cases k j m {w} h =
      let e : (if str_eq k j then none else lookup j m) ≡ some w = sym (lookup-delete k j m) ∙ h in
      elim (str_eq_cases k j) [
        | inl (same, t) ↦ cc (rw t at e)
        | inr (other, t) ↦ (other, rw t at e)
      ]

  pub lookup-delete_ne : (k j : String) (m : Dict V) → k ≢ j → lookup j (delete k m) ≡ lookup j m
  lookup-delete_ne k j m h = ground (arith, lookup-delete k j m, eq_iff k j)

  pub lookup-delete_self : (k : String) (m : Dict V) → lookup k (delete k m) ≡ none
  lookup-delete_self k m = simp (lookup-delete, eq_refl)
