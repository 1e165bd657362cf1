-- ===== src/Hub/Names/Fresh.antt =====
-- The names that UniqueHostName tries, and the one that it settles for.
use easytun.Base.{
  ℕ, zero, suc, ◌+◌, ◌-◌, ◌*◌, ◌/◌, ◌%◌, ◌≤◌, ◌<◌, ◌≡◌, ◌⊎◌, refl, ap, sym, ◌∙◌, inl, inr, List, [],
  ◌∷◌, ◌++◌, Option, none, some, length, ltb, arith, bytes_eq, Eq-cases, Option-cases, Bool-cases,
  drop, subst,
}
use easytun.Base.Assoc.{Assoc, lookup, delete, lookup-delete}
use easytun.Hub.Names.{decimal, itoa, numbered, next_free_name, unique_host_name}

-- The number that digits stand for, read on from `a`.
value : List ℕ → ℕ → ℕ
value [] a = a
value (d ∷ ds) a = value ds (a * 10 + (d - b'0'))

value-decimal : (fuel n : ℕ) (acc : List ℕ) → n < fuel → value (decimal fuel n acc) 0 ≡ value acc n
unfolding value decimal
value-decimal zero n acc h = absurd (omega arith)
value-decimal (suc fuel) n acc h = elim (Bool-cases (ltb n 10)) [
  | inl e ↦ rw e (ap (value acc) (ground arith))
  | inr e ↦ rw e (
      value-decimal fuel (n / 10) ((b'0' + n % 10) ∷ acc) (ground arith)
      ∙ ap (value acc) (omega arith))
]

itoa-injective : (m n : ℕ) → itoa m ≡ itoa n → m ≡ n
unfolding itoa value
itoa-injective m n e =
    sym (value-decimal (suc m) m [] (omega arith))
    ∙ ap (λ (ds : List ℕ). value ds 0) e
    ∙ value-decimal (suc n) n [] (omega arith)

drop-append : (xs ys : List ℕ) → drop (length xs) (xs ++ ys) ≡ ys
drop-append [] ys = refl
drop-append (x ∷ xs) ys = drop-append xs ys

numbered-injective :
    (hostname : List ℕ) (i j : ℕ) → numbered hostname i ≡ numbered hostname j → i ≡ j
unfolding numbered
numbered-injective hostname i j e = itoa-injective i j (
    ap (drop 1) (
      sym (drop-append hostname (b'-' ∷ itoa i))
      ∙ ap (drop (length hostname)) e
      ∙ drop-append hostname (b'-' ∷ itoa j)))

module _ {V : Type 0} where
  length-delete-le : (k : List ℕ) (m : Assoc (List ℕ) V) → length (delete k m) ≤ length m
  unfolding delete
  length-delete-le k [] = omega arith
  length-delete-le k ((j, v) ∷ m) = ground (arith, length-delete-le k m)

  length-delete-lt :
      (k : List ℕ) (m : Assoc (List ℕ) V) (v : V)
      → lookup k m ≡ some v
      → length (delete k m) < length m
  unfolding delete lookup
  length-delete-lt k [] v e = cc
  length-delete-lt k ((j, u) ∷ m) v e = elim (Eq-cases j k) [
    | inl (same, q) ↦ rw q (omega (arith, length-delete-le k m))
    | inr q ↦ rw q (omega (arith, length-delete-lt k m v (rw q at e)))
  ]

  -- A name with a smaller number may go: the loop has passed it.
  next_free_name-delete :
      (fuel : ℕ) (hostname : List ℕ) (i j : ℕ) (m : Assoc (List ℕ) V)
      → j < i
      → next_free_name fuel hostname i (delete (numbered hostname j) m)
        ≡ next_free_name fuel hostname i m
  unfolding next_free_name
  next_free_name-delete zero hostname i j m h = refl
  next_free_name-delete (suc fuel) hostname i j m h =
      elim (Eq-cases (numbered hostname j) (numbered hostname i)) [
        | inl (same, q) ↦ absurd (omega (arith, numbered-injective hostname j i same))
        | inr q ↦
            let kept : lookup (numbered hostname i) (delete (numbered hostname j) m)
                ≡ lookup (numbered hostname i) m =
              lookup-delete (numbered hostname j) (numbered hostname i) m ∙ rw q in
            rw (kept, next_free_name)
              (ap
                (λ (r : Option (List ℕ)). elim (lookup (numbered hostname i) m) [
                  | none ↦ some (numbered hostname i)
                  | some _ ↦ r
                ])
                (next_free_name-delete fuel hostname (i + 1) j m (omega arith)))
      ]

  -- Every round that goes on uses up a name of the map.
  next_free_name-total :
      (fuel : ℕ) (hostname : List ℕ) (i : ℕ) (m : Assoc (List ℕ) V)
      → length m < fuel
      → (name : List ℕ) × (next_free_name fuel hostname i m ≡ some name)
  unfolding next_free_name
  next_free_name-total zero hostname i m h = absurd (omega arith)
  next_free_name-total (suc fuel) hostname i m h =
      elim (Option-cases (lookup (numbered hostname i) m)) [
        | inl e ↦ (numbered hostname i, rw (e, next_free_name))
        | inr (v, e) ↦
            let m' : Assoc (List ℕ) V = delete (numbered hostname i) m in
            let (name, found) =
              next_free_name-total fuel hostname (i + 1) m'
                (omega (arith, length-delete-lt (numbered hostname i) m v e)) in
            (
              name,
              rw (e, next_free_name)
                  (sym (next_free_name-delete fuel hostname (i + 1) i m (omega arith)) ∙ found),
            )
      ]

  next_free_name-unused :
      (fuel : ℕ) (hostname : List ℕ) (i : ℕ) (m : Assoc (List ℕ) V) (name : List ℕ)
      → next_free_name fuel hostname i m ≡ some name
      → lookup name m ≡ none
  unfolding next_free_name
  next_free_name-unused zero hostname i m name e = cc
  next_free_name-unused (suc fuel) hostname i m name e =
      elim (Option-cases (lookup (numbered hostname i) m)) [
        | inl q ↦
            let found : some (numbered hostname i) ≡ some name = (rw (q, next_free_name) at e) in
            let same : numbered hostname i ≡ name = cc in
            subst (λ (x : List ℕ). lookup x m ≡ none) same q
        | inr (v, q) ↦
            next_free_name-unused fuel hostname (i + 1) m name (rw (q, next_free_name) at e)
      ]

  -- For every name and every map of names, UniqueHostName returns (its loop ends), the name that it
  -- returns is not in the map, and it is the wanted one unless that is in the map.
  pub unique_host_name-unused :
      (hostname : List ℕ) (m : Assoc (List ℕ) V)
      → (name : List ℕ) × (unique_host_name hostname m ≡ some name)
        × (lookup name m ≡ none)
        × ((name ≡ hostname) ⊎ ((v : V) × (lookup hostname m ≡ some v)))
  unfolding unique_host_name
  unique_host_name-unused hostname m = elim (Option-cases (lookup hostname m)) [
    | inl e ↦ (hostname, rw (e, unique_host_name), e, inl refl)
    | inr (v, e) ↦
        let (name, found) = next_free_name-total (suc (length m)) hostname 1 m (omega arith) in
        (
          name,
          rw (e, unique_host_name) found,
          next_free_name-unused (suc (length m)) hostname 1 m name found,
          inr (v, e),
        )
  ]
