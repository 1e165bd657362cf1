-- ===== src/Display/Units.antt =====
-- FormatBytes of internal/util/format.go.
use easytun.Base.{
  ℕ, zero, suc, ◌+◌, ◌*◌, ◌/◌, ◌%◌, ◌^◌, ◌≤◌, ◌<◌, ◌≡◌, refl, List, ◌++◌, Option, none, some,
  Bool-cases, inl, inr, false, ap, ltb, arith, if◌then◌else◌,
}
use native.Mathlib.Nat.{pow-suc, mul-le-mul_left, mod-eq_of_lt}
use easytun.Hub.Names.{itoa}
use easytun.Base.Text.{codes}

-- The loop over n, with `div` an uint64; `none` means that the fuel ran out.
unfoldable pub scale : ℕ → ℕ → ℕ → ℕ → Option (ℕ × ℕ)
scale zero n div exp = none
scale (suc fuel) n div exp =
    let rest = scale fuel (n / 1024) (div * 1024 % 2 ^ 64) (exp + 1) in
    if ltb n 1024 then some (div, exp) else rest

unfoldable pub suffix : ℕ → Option (List ℕ)
suffix zero = some (codes "KB")
suffix (suc zero) = some (codes "MB")
suffix (suc (suc zero)) = some (codes "GB")
suffix (suc (suc (suc zero))) = some (codes "TB")
suffix (suc (suc (suc (suc zero)))) = some (codes "PB")
suffix (suc (suc (suc (suc (suc zero))))) = some (codes "EB")
suffix (suc (suc (suc (suc (suc (suc n)))))) = none

-- `quotient` is `%.2f` at the quotient of two floats. An index out of range panics.
abbrev pub with_unit : (ℕ → ℕ → List ℕ) → ℕ → ℕ → Option (List ℕ) → Option (List ℕ)
with_unit quotient bytes div none = none
with_unit quotient bytes div (some unit) = some (quotient bytes div ++ (codes " " ++ unit))

abbrev pub scaled : (ℕ → ℕ → List ℕ) → ℕ → Option (ℕ × ℕ) → Option (List ℕ)
scaled quotient bytes none = none
scaled quotient bytes (some (div, exp)) = with_unit quotient bytes div (suffix exp)

-- The loop makes at most five rounds for an uint64, and its test is read once more.
unfoldable pub format_bytes : (ℕ → ℕ → List ℕ) → ℕ → Option (List ℕ)
unfolding scale suffix itoa
format_bytes quotient bytes =
    if ltb bytes 1024
    then some (itoa bytes ++ codes " B")
    else scaled quotient bytes (scale 6 (bytes / 1024) 1024 0)

-- What the loop ends with: the power of the unit that the number of bytes reaches, and not the next.
abbrev IsScale : ℕ → ℕ → ℕ → Type 0
IsScale bytes div exp = (div ≡ 1024 ^ (exp + 1)) × (exp ≤ 5) × (div ≤ bytes) × (bytes < 1024 * div)

-- The bytes lie between `n` and `n + 1` times `div`, which the division of n and the product keep.
scale-IsScale :
    (fuel exp n div bytes : ℕ)
    → exp + fuel ≤ 6
    → n < 1024 ^ fuel
    → 1 ≤ n
    → div ≡ 1024 ^ (exp + 1)
    → div * n ≤ bytes
    → bytes < div * (n + 1)
    → bytes < 2 ^ 64
    → (d : ℕ) × (e : ℕ) × (scale fuel n div exp ≡ some (d, e)) × IsScale bytes d e
unfolding scale
scale-IsScale zero exp n div bytes rounds few pos power low high small = absurd (omega arith)
scale-IsScale (suc fuel) exp n div bytes rounds few pos power low high small =
    elim (Bool-cases (ltb n 1024)) [
      | inl e ↦
          let few' : n + 1 ≤ 1024 = ground arith in
          let above : div * 1 ≤ div * n = mul-le-mul_left div pos in
          let below : div * (n + 1) ≤ div * 1024 = mul-le-mul_left div few' in
          (div, exp, rw e refl, (power, omega arith, omega arith, omega arith))
      | inr e ↦
          let large : 1024 ≤ n = ground arith in
          let fits : div * 1024 % 2 ^ 64 ≡ div * 1024 =
            mod-eq_of_lt (omega (arith, mul-le-mul_left div large)) in
          let whole : 1024 * (n / 1024) ≤ n = omega arith in
          let over : n + 1 ≤ 1024 * (n / 1024 + 1) = omega arith in
          let same : 1024 ^ (exp + 1 + 1) ≡ 1024 ^ suc (exp + 1) =
            ap (λ (k : ℕ). 1024 ^ k) (omega arith) in
          let next : div * 1024 ≡ 1024 ^ (exp + 1 + 1) =
            omega (arith, pow-suc 1024 (exp + 1), same) in
          let fewer : n / 1024 < 1024 ^ fuel = omega (arith, pow-suc 1024 fuel) in
          rw (e, fits)
            (scale-IsScale fuel (exp + 1) (n / 1024) (div * 1024) bytes (omega arith) fewer
              (omega arith) next (omega (arith, mul-le-mul_left div whole))
              (omega (arith, mul-le-mul_left div over)) small)
    ]

suffix-some : (exp : ℕ) → exp ≤ 5 → (unit : List ℕ) × (suffix exp ≡ some unit)
unfolding suffix
suffix-some zero h = (codes "KB", refl)
suffix-some (suc zero) h = (codes "MB", refl)
suffix-some (suc (suc zero)) h = (codes "GB", refl)
suffix-some (suc (suc (suc zero))) h = (codes "TB", refl)
suffix-some (suc (suc (suc (suc zero)))) h = (codes "PB", refl)
suffix-some (suc (suc (suc (suc (suc zero))))) h = (codes "EB", refl)
suffix-some (suc (suc (suc (suc (suc (suc n)))))) h = absurd (omega arith)

-- FormatBytes gives a text for every number of bytes of 64 bits that is at least 1024: its loop ends,
-- no product overflows and no suffix is out of range. The text is the number in a unit, 1024 ^ (exp + 1)
-- bytes with `exp` at most 5, the largest unit that is not more than the number.
pub format_bytes-some :
    (quotient : ℕ → ℕ → List ℕ) (bytes : ℕ)
    → 1024 ≤ bytes
    → bytes < 2 ^ 64
    → (div : ℕ) × (exp : ℕ) × (unit : List ℕ) × (format_bytes quotient bytes
        ≡ some (quotient bytes div ++ (codes " " ++ unit)))
      × (suffix exp ≡ some unit)
      × (div ≡ 1024 ^ (exp + 1))
      × (exp ≤ 5)
      × (div ≤ bytes)
      × (bytes < 1024 * div)
unfolding format_bytes
format_bytes-some quotient bytes big small =
    let (div, exp, ends, (power, few, low, high)) =
      scale-IsScale 6 0 (bytes / 1024) 1024 bytes (omega arith) (omega arith) (omega arith) refl
        (omega arith) (omega arith) small in
    let (unit, named) = suffix-some exp few in
    let large : ltb bytes 1024 ≡ false = ground arith in
    (div, exp, unit, rw (large, ends, named) refl, named, power, few, low, high)
