-- ===== src/Prelude/Map.antt =====
-- Go maps as association lists over keys that can be compared.
use mathlib.Core.Path.{◌≡◌, refl}
use mathlib.Core.List.{List, [], ◌∷◌}
use mathlib.Core.Option.{Option, none, some}
use native.Mathlib.Omega.{arith}
use zdm_proxy.Prelude.Tests.{Comparable, ◌==◌, if◌then◌else◌}

module _ {ℓ κ} {K : Type ℓ} {V : Type κ} ⦃e : Comparable K⦄ where
  -- v, ok := m[key]
  unfoldable pub lookup : K → List (K × V) → Option V
  lookup key [] = none
  lookup key ((at, here) ∷ entries) =
      let further = lookup key entries in if at == key then some here else further

  -- delete(m, key)
  unfoldable pub delete : K → List (K × V) → List (K × V)
  delete key [] = []
  delete key ((at, here) ∷ entries) =
      let rest = delete key entries in if at == key then rest else (at, here) ∷ rest

  -- m[key] = value
  unfoldable pub insert : K → V → List (K × V) → List (K × V)
  insert key value [] = (key, value) ∷ []
  insert key value ((at, here) ∷ entries) =
      let changed = insert key value entries in
      if at == key then (key, value) ∷ entries else (at, here) ∷ changed

  pub lookup-insert :
      (changed asked : K) (value : V) (entries : List (K × V))
      → lookup asked (insert changed value entries)
        ≡ (if changed == asked then some value else lookup asked entries)
  unfolding lookup insert
  lookup-insert changed asked value [] = refl
  lookup-insert changed asked value ((at, here) ∷ entries) =
      let others = lookup-insert changed asked value entries in
      ground
        (arith, others, e.equal_iff changed asked, e.equal_iff at changed, e.equal_iff at asked)

  pub lookup-delete :
      (removed asked : K) (entries : List (K × V))
      → lookup asked (delete removed entries)
        ≡ (if removed == asked then none else lookup asked entries)
  unfolding lookup delete
  lookup-delete removed asked [] = ground arith
  lookup-delete removed asked ((at, here) ∷ entries) =
      let others = lookup-delete removed asked entries in
      ground
        (arith, others, e.equal_iff removed asked, e.equal_iff at removed, e.equal_iff at asked)
