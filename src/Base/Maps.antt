-- ===== src/Base/Maps.antt =====
-- Go maps whose iteration order the code does not look at: a function from keys.
use mathlib.Core.Bool.{Bool}
use mathlib.Core.Option.{Option, none, some}
use revika.Base.Tests.{if◌then◌else◌}
use revika.Base.Equality.{Eq, ◌==◌}

abbrev pub Map {ℓ κ} : Type ℓ → Type κ → Type (ℓ ⊔ κ)
Map K V = K → Option V

abbrev pub empty_map {ℓ κ} : {K : Type ℓ} {V : Type κ} → Map K V
empty_map k = none

module _ {ℓ κ} {K : Type ℓ} {V : Type κ} ⦃e : Eq K⦄ where
  -- `m[k] = v`
  abbrev pub put : Map K V → K → V → Map K V
  put m k v j = if k == j then some v else m j

  -- `delete(m, k)`
  abbrev pub remove : Map K V → K → Map K V
  remove m k j = if k == j then none else m j

-- `for k, v := range m { if drop(v) { delete(m, k) } }`
abbrev pub prune_option {ℓ} : {V : Type ℓ} → (V → Bool) → Option V → Option V
prune_option drop none = none
prune_option drop (some v) = if drop v then none else some v

abbrev pub prune_map {ℓ κ} : {K : Type ℓ} {V : Type κ} → (V → Bool) → Map K V → Map K V
prune_map drop m k = prune_option drop (m k)
