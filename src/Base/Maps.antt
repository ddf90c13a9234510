-- ===== src/Base/Maps.antt =====
-- A Python dictionary as an association list in insertion order.
use mathlib.Core.Path.{◌≡◌, refl, sym, ap, ◌∙◌}
use mathlib.Core.Logic.{inl, inr}
use mathlib.Core.Option.{Option, none, some}
use mathlib.Core.List.{List, [], ◌∷◌}
use native.Mathlib.Omega.{arith}
use irrigation.Base.Tests.{if◌then◌else◌, Key, ◌==◌, Bool-cases, Option-cases}

abbrev pub map_some {κ} : {V : Type κ} → (V → V) → Option V → Option V
map_some f none = none
map_some f (some v) = some (f v)

module _ {ℓ κ} {K : Type ℓ} {V : Type κ} ⦃e : Key K⦄ where
  -- `d.get(k)`
  abbrev pub lookup : K → List (K × V) → Option V
  lookup k [] = none
  lookup k ((j, v) ∷ m) = if j == k then some v else lookup k m

  -- `d[k] = v`: a key that is there keeps its place, and a new one goes to the end.
  abbrev pub insert : K → V → List (K × V) → List (K × V)
  insert k v [] = (k, v) ∷ []
  insert k v ((j, w) ∷ m) = if j == k then (k, v) ∷ m else (j, w) ∷ insert k v m

  -- `d.pop(k, None)`
  abbrev pub erase : K → List (K × V) → List (K × V)
  erase k [] = []
  erase k ((j, w) ∷ m) = if j == k then erase k m else (j, w) ∷ erase k m

  abbrev pub get_or : K → V → List (K × V) → V
  get_or k d m = elim (lookup k m) [ none ↦ d | some v ↦ v ]

  pub lookup-insert :
      (k j : K) (v : V) (m : List (K × V))
      → lookup j (insert k v m) ≡ (if k == j then some v else lookup j m)
  lookup-insert k j v [] = refl
  lookup-insert k j v ((i, w) ∷ m) =
      ground (arith, e.eqb_iff k j, e.eqb_iff i k, e.eqb_iff i j, lookup-insert k j v m)

  pub lookup-erase :
      (k j : K) (m : List (K × V)) → lookup j (erase k m) ≡ (if k == j then none else lookup j m)
  lookup-erase k j [] = ground arith
  lookup-erase k j ((i, w) ∷ m) =
      ground (arith, e.eqb_iff k j, e.eqb_iff i k, e.eqb_iff i j, lookup-erase k j m)

  -- `UPDATE … WHERE id = k`: the row of a key, if there is one.
  abbrev pub adjust : K → (V → V) → List (K × V) → List (K × V)
  adjust k f m = elim (lookup k m) [ none ↦ m | some v ↦ insert k (f v) m ]

  pub lookup-adjust :
      (k j : K) (f : V → V) (m : List (K × V))
      → lookup j (adjust k f m) ≡ (if k == j then map_some f (lookup j m) else lookup j m)
  lookup-adjust k j f m = elim (Option-cases (lookup k m)) [
    | inl missing ↦
        rw (adjust, missing)
          (elim (Bool-cases (k == j)) [
            | inl same ↦
                rw (same, sym (ap (λ i. lookup i m) ((e.eqb_iff k j).0 same)) ∙ missing) refl
            | inr other ↦ rw other refl
          ])
    | inr (v, there) ↦
        rw (adjust, there)
          (lookup-insert k j (f v) m ∙ (elim (Bool-cases (k == j)) [
            | inl same ↦ rw (same, sym (ap (λ i. lookup i m) ((e.eqb_iff k j).0 same)) ∙ there) refl
            | inr other ↦ rw other refl
          ]))
  ]
