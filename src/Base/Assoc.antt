-- ===== src/Base/Assoc.antt =====
-- Go maps as association lists: `m[k]`, `m[k] = v`, `delete(m, k)` and the loops that copy a map
-- except for some entries. The order of the entries stands for Go's unspecified order.
use mathlib.Core.Path.{◌≡◌}
use mathlib.Core.Bool.{Bool}
use mathlib.Core.Option.{Option, none, some}
use mathlib.Core.List.{List, [], ◌∷◌, map}
use native.Mathlib.Omega.{arith}
use easytun.Base.Tests.{Eq, ◌==◌, if◌then◌else◌, beq_refl}

abbrev pub Assoc {ℓ κ} : Type ℓ → Type κ → Type (ℓ ⊔ κ)
Assoc K V = List (K × V)

module _ {ℓ κ} {K : Type ℓ} {V : Type κ} ⦃e : Eq K⦄ where
  unfoldable pub lookup : K → Assoc K V → Option V
  lookup k [] = none
  lookup k ((j, v) ∷ m) = let rest = lookup k m in if j == k then some v else rest

  unfoldable pub delete : K → Assoc K V → Assoc K V
  delete k [] = []
  delete k ((j, v) ∷ m) = let rest = delete k m in if j == k then rest else (j, v) ∷ rest

  unfoldable pub insert : K → V → Assoc K V → Assoc K V
  insert k v m = (k, v) ∷ delete k m

  -- `delete` inside `range`: the entries that the test picks go.
  unfoldable pub delete_if : (K → V → Bool) → Assoc K V → Assoc K V
  delete_if p [] = []
  delete_if p ((j, v) ∷ m) = let rest = delete_if p m in if p j v then rest else (j, v) ∷ rest

  pub lookup-delete :
      (k j : K) (m : Assoc K V) → lookup j (delete k m) ≡ (if k == j then none else lookup j m)
  unfolding lookup delete
  lookup-delete k j [] = ground arith
  lookup-delete k j ((i, v) ∷ m) =
      ground
        (arith, lookup-delete k j m, e.same_key_iff i k, e.same_key_iff i j, e.same_key_iff k j)

  pub lookup-insert :
      (k j : K) (v : V) (m : Assoc K V)
      → lookup j (insert k v m) ≡ (if k == j then some v else lookup j m)
  unfolding lookup insert
  lookup-insert k j v m = ground (arith, lookup-delete k j m)

  pub lookup-insert_self : (k : K) (v : V) (m : Assoc K V) → lookup k (insert k v m) ≡ some v
  lookup-insert_self k v m = ground (arith, lookup-insert k k v m, beq_refl k)

  pub lookup-delete_self : (k : K) (m : Assoc K V) → lookup k (delete k m) ≡ none
  lookup-delete_self k m = ground (arith, lookup-delete k k m, beq_refl k)

pub values {ℓ κ} : {K : Type ℓ} {V : Type κ} → Assoc K V → List V
values = map (λ p. p.1)

pub ruleset map_laws = (lookup-delete, lookup-insert, lookup-insert_self)
