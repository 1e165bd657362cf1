-- ===== src/Hub/Names.antt =====
-- UniqueHostName of internal/util/format.go, with strconv.Itoa. Names are lists of bytes.
pub mod Fresh
use easytun.Base.{
  ℕ, zero, suc, ◌+◌, ◌-◌, ◌*◌, ◌/◌, ◌%◌, ◌≤◌, ◌<◌, ◌≡◌, ◌≢◌, refl, ap, sym, ◌∙◌, inl, inr, Bool,
  true, false, List, [], ◌∷◌, ◌++◌, Option, none, some, length, ltb, if◌then◌else◌, arith, bytes_eq,
  ◌==◌, Eq, Eq-cases, Option-cases, Bool-cases,
}
use easytun.Base.Assoc.{Assoc, lookup, delete, lookup-delete}

-- Decimal digits in front of `acc`; the fuel bounds their number.
decimal : ℕ → ℕ → List ℕ → List ℕ
decimal zero n acc = acc
decimal (suc fuel) n acc =
    let rest = decimal fuel (n / 10) ((b'0' + n % 10) ∷ acc) in
    if ltb n 10 then (b'0' + n % 10) ∷ acc else rest

unfoldable pub itoa : ℕ → List ℕ
unfolding decimal
itoa n = decimal (suc n) n []

unfoldable pub numbered : List ℕ → ℕ → List ℕ
numbered hostname i = hostname ++ (b'-' ∷ itoa i)

-- The loop over i; `none` means that the fuel ran out.
unfoldable pub next_free_name : {V : Type 0} → ℕ → List ℕ → ℕ → Assoc (List ℕ) V → Option (List ℕ)
next_free_name zero hostname i m = none
next_free_name (suc fuel) hostname i m = elim (lookup (numbered hostname i) m) [
  | none ↦ some (numbered hostname i)
  | some _ ↦ next_free_name fuel hostname (i + 1) m
]

unfoldable pub unique_host_name : {V : Type 0} → List ℕ → Assoc (List ℕ) V → Option (List ℕ)
unfolding next_free_name
unique_host_name hostname m = elim (lookup hostname m) [
  | none ↦ some hostname
  | some _ ↦ next_free_name (suc (length m)) hostname 1 m
]
