-- ===== src/Endpoint/OnesComplement.antt =====
-- The sum that the checksums of internal/util/dns.go are defined by, and what the code computes in
-- place of it.
use easytun.Base.{
  ℕ, ◌+◌, ◌-◌, ◌*◌, ◌%◌, ◌^◌, ◌≤◌, ◌<◌, ◌≡◌, refl, ap, ◌∙◌, sym, List, [], ◌∷◌, length, ltb, eqb,
  if◌then◌else◌, arith, All,
}
use easytun.Base.Bytes.{IsByte}
use easytun.Endpoint.Checksum.{word_sum, fold_sum, checksum, words, word_sum-words, words-le}

-- The one's complement sum of RFC 1071: 16-bit addition with the carry brought around at each
-- word, an odd byte being the high half of a word.
unfoldable pub ones_add : ℕ → ℕ → ℕ
ones_add a b = if ltb 0xffff (a + b) then a + b - 0xffff else a + b

unfoldable pub ones_sum : List ℕ → ℕ
unfolding ones_add
ones_sum [] = 0
ones_sum (x ∷ []) = ones_add (x * 2 ^ 8) 0
ones_sum (x ∷ y ∷ rest) = ones_add (x * 256 + y) (ones_sum rest)

-- What a sum folds to.
abbrev folded : ℕ → ℕ
folded s = if eqb s 0 then 0 else (s - 1) % 65535 + 1

fold_sum-folded : (s : ℕ) → s < 2 ^ 32 → fold_sum 2 s ≡ folded s
unfolding fold_sum
fold_sum-folded s h = ground arith

ones_add-folded : (a s : ℕ) → a ≤ 65535 → ones_add a (folded s) ≡ folded (a + s)
unfolding ones_add
ones_add-folded a s h = ground arith

ones_sum-folded : (xs : List ℕ) → All IsByte xs → ones_sum xs ≡ folded (words xs)
unfolding ones_sum words
ones_sum-folded [] h = refl
ones_sum-folded (x ∷ []) h =
    ones_add-folded (x * 2 ^ 8) 0 (omega (arith, h.0)) ∙ ap folded (omega arith)
ones_sum-folded (x ∷ y ∷ rest) h =
    ap (ones_add (x * 256 + y)) (ones_sum-folded rest h.1.1)
    ∙ ones_add-folded (x * 256 + y) (words rest) (omega (arith, h.0, h.1.0))

-- For at most 100000 bytes, the checksum that the code computes, with a sum of 32 bits folded at
-- the end, is the complement of the one's complement sum of RFC 1071.
pub checksum-ones_sum :
    (bytes : List ℕ)
    → length bytes ≤ 100000
    → All IsByte bytes
    → checksum bytes ≡ 0xffff - ones_sum bytes
unfolding checksum
checksum-ones_sum bytes small h =
    let bound : words bytes < 2 ^ 32 = omega (arith, words-le bytes h, small) in
    let plain : word_sum bytes 0 ≡ words bytes =
      omega (arith, word_sum-words bytes 0 (omega (arith, bound))) in
    let same : fold_sum 2 (words bytes) ≡ ones_sum bytes =
      fold_sum-folded (words bytes) bound ∙ sym (ones_sum-folded bytes h) in
    let fits : folded (words bytes) ≤ 65535 = ground arith in
    let low : ones_sum bytes % 2 ^ 16 ≡ ones_sum bytes =
      omega (arith, ones_sum-folded bytes h, fits) in
    rw (plain, same, low) refl

-- Bytes whose checksum is 0 sum to all ones.
pub ones_sum-whole :
    (bytes : List ℕ)
    → length bytes ≤ 100000
    → All IsByte bytes
    → checksum bytes ≡ 0
    → ones_sum bytes ≡ 0xffff
ones_sum-whole bytes small h zero_sum =
    let fits : folded (words bytes) ≤ 65535 = ground arith in
    omega (arith, checksum-ones_sum bytes small h, ones_sum-folded bytes h, fits, zero_sum)
