-- ===== src/Packet/EndToEnd.antt =====
-- EncodePacket of packet.go with compression, and the two phases of the receiving client,
-- ParsePacket without a cipher and then DecryptParse.
use easytun.Base.{
  ℕ, ◌≤◌, ◌<◌, ◌^◌, ◌≡◌, refl, ap, ◌∙◌, ◌⊎◌, inl, inr, ◌≢◌, Bool, true, false, ◌||◌, List, [], ◌++◌,
  Option, none, some, length, ltb, leb, eqb, arith, take, Bool-cases,
}
use easytun.Base.Bytes.{set_top_bit, clear_top_bit}
use easytun.Cipher.{CipherState}
use easytun.Errors.{Error}
use easytun.Packet.Header.{has_flag, max_payload_size}
use easytun.Packet.Compress.{
  GamePacket, Lz4, Buffer, compress, take_block, probe_ok, probe_length, decompress, take_plain,
}
use easytun.Packet.Codec.{
  encode, encode_packet, compress_flag, parse_packet, decrypt_parse, finish_open,
}
use easytun.Packet.RoundTrip.{field_of, received, encode-sealed, payload_length_field_fits}
use easytun.Packet.Sealed.{
  paired, sealed_wire, opened_raw, IsDataType, parse_packet-sealed_wire, open_raw-boxed,
}

abbrev pub squeezed : GamePacket → List ℕ → GamePacket
squeezed g out = record g { payload = out; len = field_of (length out); ptype = 136 }

-- What EncodePacket does to the payload: it is left as it is, or replaced by a shorter block that
-- LZ4 made of it, and the flag says which.
abbrev pub Squeezed : Lz4 → GamePacket → GamePacket → Type 0
Squeezed z g g' =
    (g' ≡ g)
    ⊎ ((out : List ℕ) × (g' ≡ squeezed g out)
        × (0 < length out)
        × (length out ≤ max_payload_size)
        × (length out < length g.payload)
        × (z.compress_block (z.compress_block_bound (length g.payload)) g.payload ≡ some out))

take_block-cases :
    (g : GamePacket) (o : Option (List ℕ))
    → (take_block g o ≡ (false, g))
      ⊎ ((out : List ℕ) × (o ≡ some out)
          × (take_block g o ≡ (true, record g { payload = out; len = field_of (length out) }))
          × (0 < length out)
          × (length out ≤ max_payload_size)
          × (length out < length g.payload))
unfolding take_block
take_block-cases g none = inl refl
take_block-cases g (some out) =
    let test : Bool =
      leb (length g.payload) (length out)
      || (eqb (length out) 0 || ltb max_payload_size (length out)) in
    elim (Bool-cases test) [
      | inl e ↦ inl (rw e)
      | inr e ↦
          let fits : length out ≤ max_payload_size = ground arith in
          inr
            (out, refl, rw (e, payload_length_field_fits _ fits), ground arith, fits, ground arith)
    ]

pub compress-cases :
    (z : Lz4) (probe : Buffer) (g : GamePacket)
    → (compress z probe g ≡ (false, g))
      ⊎ ((out : List ℕ) × (z.compress_block (z.compress_block_bound (length g.payload)) g.payload
            ≡ some out)
          × (compress z probe g ≡ (true, record g { payload = out; len = field_of (length out) }))
          × (0 < length out)
          × (length out ≤ max_payload_size)
          × (length out < length g.payload))
unfolding compress
compress-cases z probe g = elim (Bool-cases (leb (length g.payload) 128)) [
  | inl e ↦ inl (rw e)
  | inr e ↦
      elim (Bool-cases (probe_ok (z.compress_block (probe_length z probe) (take 64 g.payload)))) [
        | inl p ↦
            rw (e, p)
              (take_block-cases g
                (z.compress_block (z.compress_block_bound (length g.payload)) g.payload))
        | inr p ↦ inl (rw (e, p))
      ]
]

pub compress_flag-Squeezed :
    (z : Lz4) (probe : Buffer) (compressed : Bool) (g : GamePacket)
    → g.ptype ≡ 8
    → Squeezed z g (compress_flag z probe compressed g)
unfolding compress_flag
compress_flag-Squeezed z probe false g e = inl refl
compress_flag-Squeezed z probe true g e = elim (compress-cases z probe g) [
  | inl c ↦ inl (rw c (ground (arith, clear_top_bit g.ptype)))
  | inr (out, b, c, pos, fits, less) ↦
      inr (out, rw c (ground (arith, set_top_bit g.ptype)), pos, fits, less, b)
]

pub Squeezed-fits :
    (z : Lz4) (g g' : GamePacket)
    → g.ptype ≡ 8
    → 0 < length g.payload
    → length g.payload ≤ max_payload_size
    → Squeezed z g g'
    → IsDataType g'.ptype × (0 < length g'.payload) × (length g'.payload ≤ max_payload_size)
Squeezed-fits z g g' t pos fits (inl e) = rw e (inl t, pos, fits)
Squeezed-fits z g g' t pos fits (inr (out, e, pos', fits', less, b)) = rw e (inr refl, pos', fits')

pub encode_packet-flag :
    (z : Lz4) (probe : Buffer) (g : GamePacket) (compressed : Bool) (cs : CipherState)
    → length g.payload ≤ max_payload_size
    → encode_packet z probe g false compressed (some cs)
      ≡ encode (compress_flag z probe compressed g) [] false (some cs)
unfolding encode_packet
encode_packet-flag z probe g compressed cs fits =
    rw (payload_length_field_fits _ fits, encode_packet)

-- The packet that the receiving client reads off the wire.
abbrev pub receive : Lz4 → GamePacket → CipherState → ℕ → List ℕ → GamePacket × Option Error
receive z h cs n bs = decrypt_parse z (parse_packet h bs true none).0 (some (paired cs n))

abbrev pub Delivered : GamePacket → GamePacket × Option Error → Type 0
Delivered g (r, e) = (e ≡ none) × (r.payload ≡ g.payload) × (r.src ≡ g.src) × (r.dst ≡ g.dst)

-- The packet after both phases, before it is decompressed.
abbrev pub arrived : GamePacket → GamePacket → CipherState → GamePacket
arrived g h cs = record (received g h) { raw_data = opened_raw g cs }

pub receive_opens :
    (z : Lz4) (g h : GamePacket) (cs : CipherState) (n : ℕ)
    → IsDataType g.ptype
    → 0 < length g.payload
    → length g.payload ≤ max_payload_size
    → receive z h cs n (sealed_wire g cs) ≡ finish_open z (arrived g h cs, none)
unfolding decrypt_parse
receive_opens z g h cs n t pos fits =
    ap (λ (p : GamePacket × Option Error). decrypt_parse z p.0 (some (paired cs n)))
      (parse_packet-sealed_wire g h cs n t pos fits)
    ∙ ap (finish_open z) (open_raw-boxed g h cs n t pos fits)

unflagged : (p : ℕ) → p ≡ 8 → has_flag p ≡ false
unflagged p e = rw e

pub finish_plain : (z : Lz4) (r : GamePacket) → r.ptype ≡ 8 → finish_open z (r, none) ≡ (r, none)
unfolding finish_open
finish_plain z r e = rw (unflagged _ e)

-- A block of LZ4's that decompresses to a payload which fits a packet replaces it.
pub finish_compressed :
    (z : Lz4) (r : GamePacket) (plain : List ℕ)
    → r.ptype ≡ 136
    → z.uncompress_block max_payload_size r.payload ≡ some plain
    → 0 < length plain
    → length plain ≤ max_payload_size
    → finish_open z (r, none)
      ≡ (record r { payload = plain; raw_data = take 21 r.raw_data ++ plain }, none)
unfolding finish_open decompress
finish_compressed z r plain e u pos fits =
    let flag : has_flag r.ptype ≡ true = rw e in
    let kept : (eqb (length plain) 0 || ltb max_payload_size (length plain)) ≡ false =
      ground arith in
    rw (flag, u, kept, decompress, take_plain)

-- The packet that EncodePacket seals, and what reaches the peer of it.
pub sealed-Delivered :
    (z : Lz4) (g g' h : GamePacket) (cs : CipherState) (n : ℕ)
    → g.ptype ≡ 8
    → 0 < length g.payload
    → length g.payload ≤ max_payload_size
    → Squeezed z g g'
    → Delivered g (receive z h cs n (sealed_wire g' cs))
sealed-Delivered z g g' h cs n t pos fits (inl e) =
    rw (e, receive_opens z g h cs n (inl t) pos fits, finish_plain z (arrived g h cs) t)
      (refl, refl, refl, refl)
sealed-Delivered z g g' h cs n t pos fits (inr (out, e, pos', fits', less, b)) =
    let filled : out ≢ [] = λ x. absurd (omega (arith, ap length x)) in
    let u : z.uncompress_block max_payload_size out ≡ some g.payload =
      z.uncompress-compress _ max_payload_size g.payload out b filled fits in
    rw
      (
        e,
        receive_opens z (squeezed g out) h cs n (inr refl) pos' fits',
        finish_compressed z (arrived (squeezed g out) h cs) g.payload refl u pos fits,
      )
      (refl, refl, refl, refl)

-- For a packet of TypeData with 1 to 65519 bytes of payload and a counter below 2 ^ 64, with or
-- without compression and whatever the probe buffer was: EncodePacket under the session's cipher
-- gives a wire packet, ParsePacket without a cipher accepts it, and DecryptParse with the peer's
-- cipher then succeeds and gives back the payload, the source and the destination.
pub decrypt_parse-encode_packet :
    (z : Lz4) (probe : Buffer) (compressed : Bool) (g h : GamePacket) (cs : CipherState) (n : ℕ)
    → g.ptype ≡ 8
    → 0 < length g.payload
    → length g.payload ≤ max_payload_size
    → cs.nonce < 2 ^ 64
    → (bs : List ℕ) × ((encode_packet z probe g false compressed (some cs)).0 ≡ some bs)
      × ((parse_packet h bs true none).1 ≡ none)
      × Delivered g (receive z h cs n bs)
decrypt_parse-encode_packet z probe compressed g h cs n t pos fits fresh =
    let g' : GamePacket = compress_flag z probe compressed g in
    let s : Squeezed z g g' = compress_flag-Squeezed z probe compressed g t in
    let (t', pos', fits') = Squeezed-fits z g g' t pos fits s in
    (
      sealed_wire g' cs,
      rw (encode_packet-flag z probe g compressed cs fits, encode-sealed g' cs pos' fits' fresh),
      rw (parse_packet-sealed_wire g' h cs n t' pos' fits'),
      sealed-Delivered z g g' h cs n t pos fits s,
    )
