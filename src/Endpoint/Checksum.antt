-- ===== src/Endpoint/Checksum.antt =====
-- The checksums of internal/util/dns.go.
use easytun.Base.{
  ℕ, zero, suc, ◌+◌, ◌-◌, ◌*◌, ◌/◌, ◌%◌, ◌^◌, ◌≤◌, ◌<◌, ◌≡◌, List, [], ◌∷◌, ◌++◌, length, ltb,
  if◌then◌else◌, arith, All,
}
use easytun.Base.Bytes.{Vip, vip_bytes, be16, IsByte}

-- The first loop, over an even number of bytes, and the odd byte at the end.
unfoldable pub word_sum : List ℕ → ℕ → ℕ
word_sum [] sum = sum
word_sum (x ∷ []) sum = (sum + x * 2 ^ 8) % 2 ^ 32
word_sum (x ∷ y ∷ data') sum = word_sum data' ((sum + (x * 256 + y)) % 2 ^ 32)

-- The second loop, on fuel.
unfoldable pub fold_sum : ℕ → ℕ → ℕ
fold_sum zero sum = sum
fold_sum (suc fuel) sum =
    let rest = fold_sum fuel (sum % 2 ^ 16 + sum / 2 ^ 16) in if ltb 0xffff sum then rest else sum

-- ^uint16(sum)
unfoldable pub checksum : List ℕ → ℕ
unfolding word_sum fold_sum
checksum bytes = 0xffff - fold_sum 2 (word_sum bytes 0) % 2 ^ 16

-- Two rounds are enough for every uint32.
pub fold_sum-le : (sum : ℕ) → sum < 2 ^ 32 → fold_sum 2 sum ≤ 0xffff
unfolding fold_sum
fold_sum-le sum h = ground arith

unfoldable pub udp_checksum : Vip → Vip → List ℕ → ℕ
unfolding checksum
udp_checksum src dst udp_data =
    checksum (vip_bytes src ++ (vip_bytes dst ++ (0 ∷ 17 ∷ (be16 (length udp_data) ++ udp_data))))

-- A sum that is completed by its checksum folds to all ones.
pub fold_sum-checksum :
    (sum : ℕ)
    → 0 < sum
    → sum < 2 ^ 31
    → fold_sum 2 (sum + (0xffff - fold_sum 2 sum % 2 ^ 16)) ≡ 0xffff
unfolding fold_sum
fold_sum-checksum sum pos small = ground arith

pub checksum-le : (xs : List ℕ) → checksum xs ≤ 0xffff
unfolding checksum
checksum-le xs = omega arith

-- The sum of the 16-bit words, without wrap-around.
unfoldable pub words : List ℕ → ℕ
words [] = 0
words (x ∷ []) = x * 2 ^ 8
words (x ∷ y ∷ data') = x * 256 + y + words data'

pub word_sum-words : (xs : List ℕ) (s : ℕ) → s + words xs < 2 ^ 32 → word_sum xs s ≡ s + words xs
unfolding word_sum words
word_sum-words [] s h = omega arith
word_sum-words (x ∷ []) s h = omega arith
word_sum-words (x ∷ y ∷ xs) s h =
    let step : (s + (x * 256 + y)) % 2 ^ 32 ≡ s + (x * 256 + y) = omega arith in
    rw step (omega (arith, word_sum-words xs (s + (x * 256 + y)) (omega arith)))

-- Bytes whose words sum up to the words of others and the checksum of those check out.
pub checksum-completed :
    (xs ys : List ℕ)
    → 0 < words xs
    → words xs < 2 ^ 31
    → words ys ≡ words xs + checksum xs
    → checksum ys ≡ 0
unfolding checksum
checksum-completed xs ys pos small sum =
    let plain : word_sum xs 0 ≡ words xs = omega (arith, word_sum-words xs 0 (omega arith)) in
    let bound : words ys < 2 ^ 32 = ground (arith, sum) in
    let full : word_sum ys 0 ≡ words ys =
      omega (arith, word_sum-words ys 0 (omega (arith, bound))) in
    let ones : fold_sum 2 (words xs + (0xffff - fold_sum 2 (words xs) % 2 ^ 16)) ≡ 0xffff =
      fold_sum-checksum (words xs) pos small in
    let all : fold_sum 2 (words ys) ≡ 0xffff = rw (sum, plain) ones in rw (full, all)

pub words-le : (xs : List ℕ) → All IsByte xs → words xs ≤ 2 ^ 15 * (length xs + 1)
unfolding words
words-le [] h = omega arith
words-le (x ∷ []) h = omega (arith, h.0)
words-le (x ∷ y ∷ xs) h = omega (arith, h.0, h.1.0, words-le xs h.1.1)
