-- ===== src/Endpoint/Backoff.antt =====
-- backoffWait of internal/transport/client.go: how long the client waits before it connects again.
use easytun.Base.{
  Bool-cases, inl, inr, ℕ, zero, suc, ap, ◌∙◌, ◌+◌, ◌-◌, ◌*◌, ◌%◌, ◌^◌, ◌≤◌, ◌≡◌, ltb, leb,
  if◌then◌else◌, arith,
}
use native.Mathlib.Nat.{pow-le-pow_right, pow-suc}

-- `1 << uint(n)` in an int of 64 bits. A duration that is negative or 0 is no wait.
unfoldable pub wait_sec : ℕ → ℕ
wait_sec retry_count =
    let shifted = 2 ^ retry_count % 2 ^ 64 in
    if leb (2 ^ 63) shifted then 0 else if ltb 30 shifted then 30 else shifted

pow_from : (k : ℕ) → 2 ^ (63 + k) ≡ 2 ^ 63 * 2 ^ k
pow_from zero = omega arith
pow_from (suc k) =
    let next : 2 ^ (63 + suc k) ≡ 2 ^ (63 + k) * 2 =
      ap (λ (m : ℕ). 2 ^ m) (omega arith) ∙ pow-suc 2 (63 + k) in
    omega (arith, pow_from k, pow-suc 2 k, next)

-- The wait in seconds for every count of attempts: 2 ^ n below the fifth, 30 up to the
-- sixty-second, and none at all from the sixty-third on.
pub wait_sec-attempts :
    (n : ℕ) → wait_sec n ≡ (if ltb n 5 then 2 ^ n else if ltb n 63 then 30 else 0)
unfolding wait_sec
wait_sec-attempts n = elim (Bool-cases (ltb n 5)) [
  | inl e ↦
      let few : n ≤ 4 = ground arith in
      let most : 2 ^ n ≤ 2 ^ 4 = pow-le-pow_right (omega arith) few in ground (arith, most)
  | inr e ↦ elim (Bool-cases (ltb n 63)) [
    | inl f ↦
        let low : 5 ≤ n = ground arith in
        let high : n ≤ 62 = ground arith in
        let least : 2 ^ 5 ≤ 2 ^ n = pow-le-pow_right (omega arith) low in
        let most : 2 ^ n ≤ 2 ^ 62 = pow-le-pow_right (omega arith) high in
        ground (arith, least, most)
    | inr f ↦
        let far : 63 ≤ n = ground arith in
        let split : 2 ^ n ≡ 2 ^ 63 * 2 ^ (n - 63) =
          ap (λ (m : ℕ). 2 ^ m) (omega arith) ∙ pow_from (n - 63) in
        ground (arith, split)
  ]
]
