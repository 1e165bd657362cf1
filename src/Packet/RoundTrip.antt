-- ===== src/Packet/RoundTrip.antt =====
-- What `encode` of packet.go writes, and the parsers ParseControl and ParsePacket on it, for
-- packets without a cipher.
use easytun.Base.{
  ℕ, ◌+◌, ◌%◌, ◌≤◌, ◌<◌, ◌^◌, ◌≡◌, ap, inl, inr, Bool, true, false, ◌&&◌, List, [], ◌∷◌, ◌++◌, none,
  some, length, get_or, ltb, eqb, arith, if◌then◌else◌, take, Bool-cases, lt→ltb,
}
use mathlib.Core.List.{append-nil}
use mathlib.Core.Path.{sym}
use easytun.Base.Bytes.{vip_bytes, be64}
use easytun.Cipher.{CipherState, get_nonce, encrypt}
use easytun.Errors.{ok}
use easytun.Packet.Header.{
  Header, parse_header, valid_payload_length, payload_length_field, clear_flag, max_payload_size,
  plaintext, data_compat,
}
use easytun.Packet.Compress.{GamePacket}
use easytun.Packet.Codec.{encode, parse_mode, parse_packet, parse_control, with_header}
use easytun.Packet.Wire.{wire, IsWireType, parse_header-wire}

-- The length field of a payload that fits: the tag is counted unless the payload is empty.
abbrev pub field_of : ℕ → ℕ
field_of n = if eqb n 0 then 0 else n + 16

pub payload_length_field_fits :
    (n : ℕ) → n ≤ max_payload_size → payload_length_field n ≡ some (field_of n)
unfolding payload_length_field
payload_length_field_fits n h = ground arith

abbrev pub header_of : GamePacket → Header
header_of g = record {
  ptype = g.ptype;
  dst = g.dst;
  src = g.src;
  len = field_of (length g.payload);
}

abbrev pub sized : GamePacket → GamePacket
sized g = record g { len = field_of (length g.payload) }

-- `encode` appends nothing for an empty payload.
skip_empty : (b xs : List ℕ) → (if ltb 0 (length xs) then b ++ xs else b) ≡ b ++ xs
skip_empty b [] = sym (append-nil b)
skip_empty b (x ∷ xs) = ground arith

pub encode_plain :
    (g : GamePacket) (control : Bool)
    → length g.payload ≤ max_payload_size
    → encode g [] control none ≡ (some (wire (header_of g) 0 g.payload), sized g, none)
unfolding encode
encode_plain g control h =
    rw (payload_length_field_fits _ h, encode)
      (ap (λ (bs : List ℕ). (some bs, sized g, none))
        (skip_empty (wire (header_of g) 0 []) g.payload))

pub valid_plain :
    (n : ℕ) → n ≤ max_payload_size → valid_payload_length n (field_of n) plaintext ≡ true
unfolding valid_payload_length
valid_plain n h = ground arith

pub valid_compat :
    (n : ℕ) → n ≤ max_payload_size → valid_payload_length n (field_of n) data_compat ≡ true
unfolding valid_payload_length
valid_compat n h = ground arith

abbrev pub received : GamePacket → GamePacket → GamePacket
received g h = record (with_header h (header_of g)) { payload = g.payload }

-- A packet whose type has no flag, or is TypeData with it, and whose payload has at most 65519
-- bytes: encoding it without a cipher gives bytes, and ParseControl reads its type, addresses,
-- length field and payload back from them.
pub parse_control-encode :
    (g h : GamePacket) (control : Bool)
    → IsWireType g.ptype
    → length g.payload ≤ max_payload_size
    → (bs : List ℕ) × (encode g [] control none ≡ (some bs, sized g, none))
      × (parse_control h bs ≡ (received g h, none))
unfolding parse_control
parse_control-encode g h control t fits = (
  wire (header_of g) 0 g.payload,
  encode_plain g control fits,
  rw (
    parse_header-wire (header_of g) 0 g.payload plaintext t (ground arith) (omega arith)
        (valid_plain _ fits),
    parse_control,
  ),
)

-- Whichever of the two modes parse_mode picks for a plain packet, its length is valid.
valid_unsealed :
    (bs : List ℕ) (n : ℕ)
    → n ≤ max_payload_size
    → valid_payload_length n (field_of n) (parse_mode bs none) ≡ true
valid_unsealed bs n h =
    elim (Bool-cases (ltb 2 (length bs) && eqb (clear_flag (get_or bs 2 0)) 8)) [
      | inl e ↦ rw e (valid_compat n h)
      | inr e ↦ rw e (valid_plain n h)
    ]

-- A packet whose type has no flag, or is TypeData with it, and whose payload has at most 65519
-- bytes: encoding it without a cipher gives bytes, and ParsePacket without a cipher reads the
-- packet back from them and keeps the bytes.
pub parse_packet-encode :
    (g h : GamePacket) (control wanted : Bool)
    → IsWireType g.ptype
    → length g.payload ≤ max_payload_size
    → (bs : List ℕ) × (encode g [] control none ≡ (some bs, sized g, none))
      × (parse_packet h bs wanted none ≡ (record (received g h) { raw_data = bs }, none))
unfolding parse_packet
parse_packet-encode g h control wanted t fits =
    let bs : List ℕ = wire (header_of g) 0 g.payload in
    let head : parse_header bs (parse_mode bs none) ≡ ok (header_of g) =
      parse_header-wire (header_of g) 0 g.payload _ t (ground arith) (omega arith)
        (valid_unsealed bs _ fits) in
    (bs, encode_plain g control fits, ground (arith, head))

abbrev pub nonce_of : GamePacket → ℕ → List ℕ
nonce_of g n = vip_bytes g.src ++ be64 n

-- The additional data: the header without the nonce.
abbrev pub aad_of : Header → List ℕ
aad_of h = take 9 (wire h 0 [])

abbrev pub sealed : GamePacket → CipherState → List ℕ
sealed g cs = cs.aead.seal (nonce_of g cs.nonce) g.payload (aad_of (header_of g))

abbrev pub advanced : CipherState → CipherState
advanced cs = record cs { nonce = (cs.nonce + 1) % 2 ^ 64 }

pub get_nonce_lem : (cs : CipherState) → cs.nonce < 2 ^ 64 → get_nonce cs ≡ (cs.nonce, advanced cs)
unfolding get_nonce
get_nonce_lem cs h = ground arith

pub encode-sealed :
    (g : GamePacket) (cs : CipherState)
    → 0 < length g.payload
    → length g.payload ≤ max_payload_size
    → cs.nonce < 2 ^ 64
    → encode g [] false (some cs)
      ≡ (some (wire (header_of g) cs.nonce (sealed g cs)), sized g, some (advanced cs))
unfolding encode encrypt
encode-sealed g cs pos fits hn =
    rw (payload_length_field_fits _ fits, get_nonce_lem cs hn, lt→ltb _ _ pos, encode)
