-- ===== src/Packet/Wire.antt =====
-- The wire layout of a packet, [magic 2][type 1][dst 4][length 2][src 4][counter 8][body], and how
-- `encode` writes it and parse_header reads it.
use easytun.Base.{
  ◌≤◌, ltb, get_or, Bool-cases, ℕ, ◌+◌, ◌-◌, ◌*◌, ◌/◌, ◌%◌, ◌<◌, ◌^◌, ◌≡◌, ◌⊎◌, inl, inr, ap, sym,
  zero, suc, All, [], ◌↔◌, true, false, not, ◌&&◌, List, ◌∷◌, ◌++◌, length, eqb, arith,
}
use easytun.Base.Bytes.{IsByte, u16_at, vip_bytes, be16, be64, top_bit, clear_top_bit}
use easytun.Errors.{ok}
use easytun.Packet.Header.{
  Mode, plaintext, ciphertext, data_compat, Header, header_at, parse_header, valid_payload_length,
  has_flag, clear_flag,
}

abbrev pub wire : Header → ℕ → List ℕ → List ℕ
wire h nonce body =
    0xda
    ∷ 0xaa
    ∷ h.ptype
    ∷ h.dst.b0
    ∷ h.dst.b1
    ∷ h.dst.b2
    ∷ h.dst.b3
    ∷ (be16 h.len ++ (vip_bytes h.src ++ (be64 nonce ++ body)))

-- The types that may stand in a header: a plain type, or TypeData with the compression flag.
abbrev pub IsWireType : ℕ → Type 0
IsWireType p = (p < 128) ⊎ (p ≡ 136)

pub flag_accepted : (p : ℕ) → IsWireType p → (has_flag p && not (eqb (clear_flag p) 8)) ≡ false
flag_accepted p (inl h) = ground (arith, top_bit p, clear_top_bit p)
flag_accepted p (inr e) = ground (arith, top_bit p, clear_top_bit p)

u16_be16 : (n : ℕ) → n < 2 ^ 16 → n / 256 % 256 * 256 + n % 256 ≡ n
u16_be16 n h = omega arith

pub parse_header-wire :
    (h : Header) (nonce : ℕ) (body : List ℕ) (mode : Mode)
    → IsWireType h.ptype
    → h.len < 2 ^ 16
    → length body < 2 ^ 16
    → valid_payload_length (length body) h.len mode ≡ true
    → parse_header (wire h nonce body) mode ≡ ok h
unfolding parse_header
parse_header-wire h nonce body mode t hl hb v =
    let size : length (wire h nonce body) - 21 ≡ length body = omega arith in
    ground (arith, flag_accepted h.ptype t, v, size, u16_be16 h.len hl)

-- What parseHeader has tested where it returns a header.
parse_header-guards :
    (bs : List ℕ) (mode : Mode) (h : Header)
    → parse_header bs mode ≡ ok h
    → (21 ≤ length bs)
      × (length bs ≤ 65556)
      × (u16_at bs 0 ≡ 0xdaaa)
      × ((has_flag (get_or bs 2 0) && not (eqb (clear_flag (get_or bs 2 0)) 8)) ≡ false)
      × (valid_payload_length (length bs - 21) (u16_at bs 7) mode ≡ true)
      × (h ≡ header_at bs)
unfolding parse_header
parse_header-guards bs mode h e = elim (Bool-cases (ltb (length bs) 21)) [
  | inl a ↦ cc (rw (a, parse_header) at e)
  | inr a ↦ elim (Bool-cases (ltb 65556 (length bs))) [
    | inl b ↦ cc (rw (a, b, parse_header) at e)
    | inr b ↦ elim (Bool-cases (eqb (u16_at bs 0) 0xdaaa)) [
      | inr c ↦ cc (rw (a, b, c, parse_header) at e)
      | inl c ↦
          elim (Bool-cases (has_flag (get_or bs 2 0) && not (eqb (clear_flag (get_or bs 2 0)) 8))) [
            | inl d ↦ cc (rw (a, b, c, d, parse_header) at e)
            | inr d ↦ elim (Bool-cases (valid_payload_length (length bs - 21) (u16_at bs 7) mode)) [
              | inr f ↦ cc (rw (a, b, c, d, f, parse_header) at e)
              | inl f ↦
                  let same : ok (header_at bs) ≡ ok h = rw (a, b, c, d, f, parse_header) at e in
                  (ground arith, ground arith, ground arith, d, f, cc)
            ]
          ]
    ]
  ]
]

-- The lengths that a body of `n` bytes may have announced: the length of its ciphertext, which is 16
-- longer than a plaintext that is not empty and is 0 for an empty one; ParsePacket reads a data packet
-- with no cipher either way.
abbrev pub Announces : Mode → ℕ → ℕ → Type 0
Announces plaintext n len = ((n ≡ 0) × (len ≡ 0)) ⊎ ((1 ≤ n) × (len ≡ n + 16))
Announces ciphertext n len = len ≡ n
Announces data_compat n len = (len ≡ n) ⊎ ((1 ≤ n) × (len ≡ n + 16))

-- The bytes are a header with these fields at the offsets of the wire layout, and a body for it.
abbrev pub Carries : List ℕ → Mode → Header → Type 0
Carries bs mode h =
    (21 ≤ length bs)
    × (length bs ≤ 65556)
    × (get_or bs 0 0 ≡ 0xda)
    × (get_or bs 1 0 ≡ 0xaa)
    × IsWireType (get_or bs 2 0)
    × Announces mode (length bs - 21) (get_or bs 7 0 * 256 + get_or bs 8 0)
    × (h ≡ record {
      ptype = get_or bs 2 0;
      dst = record {
        b0 = get_or bs 3 0;
        b1 = get_or bs 4 0;
        b2 = get_or bs 5 0;
        b3 = get_or bs 6 0;
      };
      src = record {
        b0 = get_or bs 9 0;
        b1 = get_or bs 10 0;
        b2 = get_or bs 11 0;
        b3 = get_or bs 12 0;
      };
      len = get_or bs 7 0 * 256 + get_or bs 8 0;
    })

valid_payload_length-Announces :
    (mode : Mode) (n len : ℕ) → valid_payload_length n len mode ≡ true → Announces mode n len
unfolding valid_payload_length
valid_payload_length-Announces plaintext n len e = ground arith
valid_payload_length-Announces ciphertext n len e = ground arith
valid_payload_length-Announces data_compat n len e = ground arith

Announces-valid :
    (mode : Mode) (n len : ℕ) → Announces mode n len → valid_payload_length n len mode ≡ true
unfolding valid_payload_length
Announces-valid plaintext n len e = ground arith
Announces-valid ciphertext n len e = ground arith
Announces-valid data_compat n len e = ground arith

flag_accepted-IsWireType :
    (p : ℕ) → p < 256 → (has_flag p && not (eqb (clear_flag p) 8)) ≡ false → IsWireType p
flag_accepted-IsWireType p low e = ground (arith, top_bit p, clear_top_bit p)

get_or-IsByte : (bs : List ℕ) (i : ℕ) → All IsByte bs → get_or bs i 0 < 256
get_or-IsByte [] i h = omega arith
get_or-IsByte (x ∷ bs) zero h = h.0
get_or-IsByte (x ∷ bs) (suc i) h = get_or-IsByte bs i h.1

parse_header-Carries :
    (bs : List ℕ) (mode : Mode) (h : Header)
    → All IsByte bs
    → parse_header bs mode ≡ ok h
    → Carries bs mode h
parse_header-Carries bs mode h bytes e =
    let (low, high, magic, flag, valid, same) = parse_header-guards bs mode h e in
    (
      low,
      high,
      omega (arith, magic, get_or-IsByte bs 0 bytes, get_or-IsByte bs 1 bytes),
      omega (arith, magic, get_or-IsByte bs 0 bytes, get_or-IsByte bs 1 bytes),
      flag_accepted-IsWireType (get_or bs 2 0) (get_or-IsByte bs 2 bytes) flag,
      valid_payload_length-Announces mode (length bs - 21) (u16_at bs 7) valid,
      same,
    )

Carries-parse_header :
    (bs : List ℕ) (mode : Mode) (h : Header) → Carries bs mode h → parse_header bs mode ≡ ok h
unfolding parse_header
Carries-parse_header bs mode h (low, high, m0, m1, t, valid, same) =
    let a : ltb (length bs) 21 ≡ false = ground arith in
    let b : ltb 65556 (length bs) ≡ false = ground arith in
    let c : eqb (u16_at bs 0) 0xdaaa ≡ true = ground arith in
    let d = flag_accepted (get_or bs 2 0) t in
    let f = Announces-valid mode (length bs - 21) (u16_at bs 7) valid in
    rw (a, b, c, d, f) (ap ok (sym same))

-- For bytes, parseHeader returns a header exactly if they are 21 to 65556, begin with 0xdaaa, have a type
-- below 128 or that of a compressed data packet, and announce a length that is right for the bytes
-- behind the header: as a plaintext, as a ciphertext, or as either. The header that it returns has the
-- type from offset 2, the destination from 3, the length from 7 and the source from 9.
pub parse_header-accepts :
    (bs : List ℕ) (mode : Mode) (h : Header)
    → All IsByte bs
    → (parse_header bs mode ≡ ok h) ↔ Carries bs mode h
parse_header-accepts bs mode h bytes =
    (parse_header-Carries bs mode h bytes, Carries-parse_header bs mode h)
