-- ===== src/Base/Keys.antt =====
-- Association lists in which a key stands once, as in a Go map.
use mathlib.Core.Path.{◌≡◌, refl}
use mathlib.Core.Logic.{inl, inr}
use mathlib.Core.Bool.{Bool}
use mathlib.Core.Option.{Option, none, some}
use mathlib.Core.List.{[], ◌∷◌}
use native.Mathlib.Omega.{arith}
use easytun.Base.Tests.{Eq, ◌==◌, if◌then◌else◌, Bool-cases, Eq-cases}
use easytun.Base.Assoc.{Assoc, lookup, delete, insert, delete_if, lookup-delete, lookup-delete_self}

-- What a test leaves of a value.
abbrev pub unless {ℓ} : {V : Type ℓ} → (V → Bool) → Option V → Option V
unless p none = none
unless p (some v) = if p v then none else some v

module _ {ℓ κ} {K : Type ℓ} {V : Type κ} ⦃e : Eq K⦄ where
  abbrev pub IsDistinct : Assoc K V → Type κ
  IsDistinct [] = Unit
  IsDistinct ((k, v) ∷ m) = (lookup k m ≡ none) × IsDistinct m

  lookup-delete-none : (k j : K) (m : Assoc K V) → lookup j m ≡ none → lookup j (delete k m) ≡ none
  lookup-delete-none k j m h = ground (arith, lookup-delete k j m)

  pub delete-IsDistinct : (k : K) (m : Assoc K V) → IsDistinct m → IsDistinct (delete k m)
  unfolding delete
  delete-IsDistinct k [] h = tt
  delete-IsDistinct k ((j, v) ∷ m) h = elim (Bool-cases (j == k)) [
    | inl q ↦ rw q (delete-IsDistinct k m h.1)
    | inr q ↦ rw q (lookup-delete-none k j m h.0, delete-IsDistinct k m h.1)
  ]

  pub insert-IsDistinct : (k : K) (v : V) (m : Assoc K V) → IsDistinct m → IsDistinct (insert k v m)
  unfolding insert
  insert-IsDistinct k v m h = (lookup-delete_self k m, delete-IsDistinct k m h)

  lookup-delete_if-none :
      (p : K → V → Bool) (k : K) (m : Assoc K V)
      → lookup k m ≡ none
      → lookup k (delete_if p m) ≡ none
  unfolding lookup delete_if
  lookup-delete_if-none p k [] h = refl
  lookup-delete_if-none p k ((j, v) ∷ m) h = elim (Bool-cases (j == k)) [
    | inl q ↦ cc (rw q at h)
    | inr q ↦ elim (Bool-cases (p j v)) [
      | inl s ↦ rw s (lookup-delete_if-none p k m (rw q at h))
      | inr s ↦ rw (s, q) (lookup-delete_if-none p k m (rw q at h))
    ]
  ]

  -- A sweep takes away the entries that the test picks, and no others.
  pub lookup-delete_if :
      (p : K → V → Bool) (k : K) (m : Assoc K V)
      → IsDistinct m
      → lookup k (delete_if p m) ≡ unless (p k) (lookup k m)
  unfolding lookup delete_if
  lookup-delete_if p k [] h = refl
  lookup-delete_if p k ((j, v) ∷ m) h = elim (Eq-cases j k) [
    | inl (same, q) ↦ elim (Bool-cases (p j v)) [
      | inl s ↦ rw (s, q, ← same) (rw s (lookup-delete_if-none p j m h.0))
      | inr s ↦ rw (s, q, ← same) (rw s)
    ]
    | inr q ↦ elim (Bool-cases (p j v)) [
      | inl s ↦ rw (s, q) (lookup-delete_if p k m h.1)
      | inr s ↦ rw (s, q) (lookup-delete_if p k m h.1)
    ]
  ]

  pub delete_if-IsDistinct :
      (p : K → V → Bool) (m : Assoc K V) → IsDistinct m → IsDistinct (delete_if p m)
  unfolding delete_if
  delete_if-IsDistinct p [] h = tt
  delete_if-IsDistinct p ((j, v) ∷ m) h = elim (Bool-cases (p j v)) [
    | inl s ↦ rw s (delete_if-IsDistinct p m h.1)
    | inr s ↦ rw s (lookup-delete_if-none p j m h.0, delete_if-IsDistinct p m h.1)
  ]
