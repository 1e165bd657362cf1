-- ===== src/Examples/Toys.antt =====
-- Small stand-ins for the libraries: a cipher that appends a tag of zeros, a compressor that knows
-- runs of the byte 7, and a handshake whose messages carry one byte; and two addresses.
use easytun.Base.{
  ◌-◌, ◌≤◌, eqb, get_or, ℕ, zero, suc, ◌+◌, ◌≡◌, ◌≢◌, refl, ap, sym, ◌∙◌, inl, inr, true, List, [],
  ◌∷◌, ◌++◌, ◌/◌, Option, none, some, length, take, if◌then◌else◌, arith, bytes_eq, ◌==◌, Eq-cases,
  length-append,
}
use easytun.Base.Bytes.{Vip}
use easytun.Cipher.{Aead}
use easytun.Packet.Compress.{Lz4}
use easytun.Hub.Names.{itoa}
use easytun.Display.{Pterm}
use easytun.Noise.Library.{NoiseLibrary, HandshakeState, Keys}

abbrev pub repeated : ℕ → ℕ → List ℕ
repeated zero b = []
repeated (suc n) b = b ∷ repeated n b

pub length-repeated : (n b : ℕ) → length (repeated n b) ≡ n
length-repeated zero b = refl
length-repeated (suc n) b = omega (arith, length-repeated n b)

take-before : (xs ys : List ℕ) → take (length xs) (xs ++ ys) ≡ xs
take-before [] ys = refl
take-before (x ∷ xs) ys = ap (λ (l : List ℕ). x ∷ l) (take-before xs ys)

unfoldable pub open_box : List ℕ → List ℕ → List ℕ → Option (List ℕ)
open_box nonce box header = some (take (length box - 16) box)

pub open-seal :
    (nonce plain header : List ℕ) → open_box nonce (plain ++ repeated 16 0) header ≡ some plain
unfolding open_box
open-seal nonce plain header =
    let n : length (plain ++ repeated 16 0) - 16 ≡ length plain =
      omega (arith, length-append plain (repeated 16 0)) in
    rw n (ap some (take-before plain (repeated 16 0)))

unfoldable pub zero_aead : Aead
unfolding open_box
zero_aead = record {
  seal = λ nonce plain header. plain ++ repeated 16 0;
  open_box = open_box;
  open-seal = open-seal;
  length-seal = λ nonce plain header. length-append plain (repeated 16 0);
}

unfoldable pub compress_block : ℕ → List ℕ → Option (List ℕ)
compress_block n src = if src == repeated (length src) 7 then some (length src ∷ []) else none

unfoldable pub uncompress_block : ℕ → List ℕ → Option (List ℕ)
uncompress_block m out = some (repeated (get_or out 0 0) 7)

pub uncompress-compress :
    (n m : ℕ) (src out : List ℕ)
    → compress_block n src ≡ some out
    → out ≢ []
    → length src ≤ m
    → uncompress_block m out ≡ some src
unfolding compress_block uncompress_block
uncompress-compress n m src out e filled fits = elim (Eq-cases src (repeated (length src) 7)) [
  | inl (same, q) ↦
      let found : some (length src ∷ []) ≡ some out = (rw q at e) in
      let head : length src ≡ get_or out 0 0 =
        ap (λ (o : Option (List ℕ)). get_or (elim o [ none ↦ [] | some l ↦ l ]) 0 0) found in
      ap some (ap (λ (k : ℕ). repeated k 7) (sym head) ∙ sym same)
  | inr q ↦ cc (rw q at e)
]

unfoldable pub runs : Lz4
unfolding compress_block uncompress_block
runs = record {
  compress_block_bound = λ n. n + 16;
  compress_block = compress_block;
  uncompress_block = uncompress_block;
  uncompress-compress = uncompress-compress;
}

abbrev pub alice : Vip
alice = record { b0 = 10; b1 = 0; b2 = 6; b3 = 2 }

abbrev pub bob : Vip
bob = record { b0 = 10; b1 = 0; b2 = 6; b3 = 3 }

-- The byte that a message begins with.
abbrev head_of : Option (List ℕ) → ℕ
head_of none = 0
head_of (some bytes) = get_or bytes 0 0

abbrev size_of : Option (List ℕ) → ℕ
size_of none = 0
size_of (some bytes) = length bytes

abbrev pub toy_keys : Keys
toy_keys = record { first = 1 ∷ []; second = 2 ∷ [] }

unfoldable pub toy_first : HandshakeState → List ℕ → HandshakeState × Option (List ℕ)
toy_first hs random =
    (record { bytes = get_or random 0 0 ∷ [] }, some (get_or random 0 0 ∷ repeated 95 1))

unfoldable pub toy_read_first : HandshakeState → List ℕ → Option HandshakeState
toy_read_first hs msg = some (record { bytes = get_or msg 0 0 ∷ [] })

unfoldable pub toy_second : HandshakeState → List ℕ → Option (List ℕ × Keys)
toy_second hs random = some (get_or hs.bytes 0 0 ∷ repeated 47 2, toy_keys)

unfoldable pub toy_read_second : HandshakeState → List ℕ → HandshakeState × Option Keys
toy_read_second hs answer =
    (hs, if eqb (get_or answer 0 0) (get_or hs.bytes 0 0) then some toy_keys else none)

abbrev answer_of : Option (List ℕ × Keys) → Option (List ℕ)
answer_of none = none
answer_of (some (answer, keys)) = some answer

abbrev keys_of : Option (List ℕ × Keys) → Option Keys
keys_of none = none
keys_of (some (answer, keys)) = some keys

pub toy_agrees :
    (mine theirs random msg random' answer : List ℕ) (hs : HandshakeState) (keys : Keys)
    → (toy_first (record { bytes = mine ++ theirs }) random).1 ≡ some msg
    → toy_read_first (record { bytes = theirs }) msg ≡ some hs
    → toy_second hs random' ≡ some (answer, keys)
    → (toy_read_second (toy_first (record { bytes = mine ++ theirs }) random).0 answer).1
      ≡ some keys
unfolding toy_first toy_read_first toy_second toy_read_second
toy_agrees mine theirs random msg random' answer hs keys e f g =
    let sent : get_or random 0 0 ≡ get_or msg 0 0 = ap head_of e in
    let read : get_or msg 0 0 ≡ get_or hs.bytes 0 0 =
      ap (λ (o : Option HandshakeState). elim o [ none ↦ 0 | some s ↦ get_or s.bytes 0 0 ]) f in
    let replied : get_or hs.bytes 0 0 ≡ get_or answer 0 0 =
      ap (λ (o : Option (List ℕ × Keys)). head_of (answer_of o)) g in
    let same : eqb (get_or answer 0 0) (get_or random 0 0) ≡ true =
      ground (arith, sent, read, replied) in
    rw same (ap keys_of g)

unfoldable pub toy : NoiseLibrary
unfolding toy_first toy_read_first toy_second toy_read_second
toy = record {
  public = λ private. private;
  new_initiator = λ mine theirs. record { bytes = mine ++ theirs };
  new_responder = λ private. record { bytes = private };
  write_first = toy_first;
  read_first = toy_read_first;
  write_second = toy_second;
  read_second = toy_read_second;
  aead = λ key. zero_aead;
  read-write_first = λ mine theirs random msg e. (record { bytes = get_or msg 0 0 ∷ [] }, refl);
  read-write_second = toy_agrees;
  write_second-total =
      λ theirs msg random hs e. (get_or hs.bytes 0 0 ∷ repeated 47 2, toy_keys, refl);
  length-write_first = λ hs random msg e. sym (ap size_of e);
  length-write_second =
      λ hs random answer keys e. sym (ap (λ (o : Option (List ℕ × Keys)). size_of (answer_of o)) e);
}

-- A terminal without colours, and quotients without decimals.
abbrev pub bare : Pterm
bare = record {
  light_cyan = λ s. s;
  light_green = λ s. s;
  light_red = λ s. s;
  light_yellow = λ s. s;
  box = λ title s. title ++ s;
  quotient = λ a b. itoa (a / b);
}
