-- ===== src/Base/Store.antt =====
-- A Python dictionary whose order does not matter, as a function.
use irrigation.Base.Tests.{if◌then◌else◌, Key, ◌==◌}
use mathlib.Core.Option.{Option, none, some}

abbrev pub Store {ℓ κ} : Type ℓ → Type κ → Type (ℓ ⊔ κ)
Store K V = K → Option V

abbrev pub empty {ℓ κ} : {K : Type ℓ} {V : Type κ} → Store K V
empty k = none

abbrev pub or_default {ℓ} : {V : Type ℓ} → V → Option V → V
or_default d none = d
or_default d (some v) = v

-- `d.get(k, default)`
abbrev pub get_or {ℓ κ} : {K : Type ℓ} {V : Type κ} → K → V → Store K V → V
get_or k d m = or_default d (m k)

module _ {ℓ κ} {K : Type ℓ} {V : Type κ} ⦃e : Key K⦄ where
  -- `d[k] = v`
  abbrev pub put : K → V → Store K V → Store K V
  put k v m j = if k == j then some v else m j

  -- `d.pop(k, None)`
  abbrev pub del : K → Store K V → Store K V
  del k m j = if k == j then none else m j
