-- ===== src/Packet/Sealed.antt =====
-- Sealed packets: `encode` of packet.go with a cipher, ParsePacket with and without one, and the
-- opening in place of DecryptParse.
use easytun.Base.{
  ℕ, ◌+◌, ◌≤◌, ◌<◌, ◌^◌, ◌≡◌, ◌⊎◌, inl, inr, true, false, ◌&&◌, List, [], ◌++◌, none, some, length,
  ltb, eqb, arith, if◌then◌else◌, drop, take, drop-drop,
}
use easytun.Cipher.{CipherState, decrypt}
use easytun.Errors.{ok}
use easytun.Packet.Header.{
  parse_header, valid_payload_length, clear_flag, max_payload_size, ciphertext, data_compat,
  plaintext,
}
use easytun.Packet.Compress.{GamePacket}
use easytun.Packet.Codec.{
  encode, parse_payload, parse_packet, opened, open_bytes, open_raw, with_header, parse,
}
use easytun.Packet.Wire.{wire, IsWireType, parse_header-wire}
use easytun.Packet.RoundTrip.{
  field_of, header_of, sized, received, sealed, advanced, encode-sealed, nonce_of, aad_of,
}

-- A sealed body is exactly as long as the length field says.
valid_sealed :
    (n m : ℕ) → 0 < n → m ≡ n + 16 → valid_payload_length m (field_of n) ciphertext ≡ true
unfolding valid_payload_length
valid_sealed n m h e = ground arith

valid_sealed_compat :
    (n m : ℕ) → 0 < n → m ≡ n + 16 → valid_payload_length m (field_of n) data_compat ≡ true
unfolding valid_payload_length
valid_sealed_compat n m h e = ground arith

pub length-sealed :
    (g : GamePacket) (cs : CipherState) → length (sealed g cs) ≡ length g.payload + 16
length-sealed g cs = cs.aead.length-seal _ g.payload _

-- The receiver's cipher of a session holds the key of the sender's.
abbrev pub paired : CipherState → ℕ → CipherState
paired cs n = record cs { nonce = n }

abbrev pub sealed_wire : GamePacket → CipherState → List ℕ
sealed_wire g cs = wire (header_of g) cs.nonce (sealed g cs)

pub open_bytes-sealed :
    (g : GamePacket) (cs : CipherState) (n : ℕ)
    → open_bytes (paired cs n) (sealed_wire g cs) ≡ some g.payload
unfolding decrypt
open_bytes-sealed g cs n = cs.aead.open-seal (nonce_of g cs.nonce) g.payload (aad_of (header_of g))

-- The buffer after it was opened in place: the tag is still behind the plaintext.
abbrev pub opened_raw : GamePacket → CipherState → List ℕ
opened_raw g cs = take 21 (sealed_wire g cs) ++ (g.payload ++ drop (length g.payload) (sealed g cs))

pub field_of_pos : (n : ℕ) → 0 < n → ltb 0 (field_of n) ≡ true
field_of_pos n h = ground arith

-- Opening the box in place.
opened-sealed :
    (g h : GamePacket) (cs : CipherState)
    → opened h (sealed_wire g cs) (some g.payload)
      ≡ (record h { payload = g.payload; raw_data = opened_raw g cs }, none)
unfolding opened
opened-sealed g h cs = rw (drop-drop 21 (length g.payload) (sealed_wire g cs))

module _ (g h : GamePacket) (cs : CipherState) (n : ℕ) (t : IsWireType g.ptype)
    (pos : 0 < length g.payload) (fits : length g.payload ≤ max_payload_size)
    (fresh : cs.nonce < 2 ^ 64) where
  -- A packet whose type has no flag, or is TypeData with it, with 1 to 65519 bytes of payload and
  -- a counter below 2 ^ 64: encoding it under the session's cipher gives bytes and moves the
  -- counter, and ParsePacket with the peer's cipher gives back the packet with its payload; the
  -- buffer then holds header, plaintext and tag.
  pub parse_packet-encode_sealed :
      (bs : List ℕ) × (encode g [] false (some cs) ≡ (some bs, sized g, some (advanced cs)))
      × (parse_packet h bs true (some (paired cs n))
          ≡ (record (received g h) { raw_data = opened_raw g cs }, none))
  unfolding parse_packet
  parse_packet-encode_sealed =
      let head : parse_header (sealed_wire g cs) ciphertext ≡ ok (header_of g) =
        parse_header-wire (header_of g) cs.nonce (sealed g cs) ciphertext t (ground arith)
          (omega (arith, length-sealed g cs)) (valid_sealed _ _ pos (length-sealed g cs)) in
      let small : ltb 65556 (length (sealed_wire g cs)) ≡ false =
        ground (arith, length-sealed g cs) in
      (
        sealed_wire g cs,
        encode-sealed g cs pos fits fresh,
        rw (
          small,
          head,
          field_of_pos _ pos,
          open_bytes-sealed g cs n,
          opened-sealed g (with_header (record h { raw_data = sealed_wire g cs }) (header_of g)) cs,
          parse_packet,
          parse,
          parse_payload,
        ),
      )

-- TypeData, with or without the compression flag.
abbrev pub IsDataType : ℕ → Type 0
IsDataType p = (p ≡ 8) ⊎ (p ≡ 136)

IsDataType-wire : (p : ℕ) → IsDataType p → IsWireType p
IsDataType-wire p (inl e) = inl (omega arith)
IsDataType-wire p (inr e) = inr e

pub clear_flag-IsDataType : (p : ℕ) → IsDataType p → eqb (clear_flag p) 8 ≡ true
clear_flag-IsDataType p (inl e) = rw e
clear_flag-IsDataType p (inr e) = rw e

-- The client's first phase checks the lengths and leaves the box shut.
abbrev pub boxed : GamePacket → GamePacket → CipherState → GamePacket
boxed g h cs = record (received g h) { payload = sealed g cs; raw_data = sealed_wire g cs }

module _ (g h : GamePacket) (cs : CipherState) (n : ℕ) (t : IsDataType g.ptype)
    (pos : 0 < length g.payload) (fits : length g.payload ≤ max_payload_size) where
  pub parse_packet-sealed_wire : parse_packet h (sealed_wire g cs) true none ≡ (boxed g h cs, none)
  unfolding parse_packet
  parse_packet-sealed_wire =
      let two : ltb 2 (length (sealed_wire g cs)) ≡ true = ground arith in
      let head : parse_header (sealed_wire g cs)
            (if ltb 2 (length (sealed_wire g cs)) && true then data_compat else plaintext)
          ≡ ok (header_of g) =
        rw two (
          parse_header-wire (header_of g) cs.nonce (sealed g cs) data_compat (IsDataType-wire _ t)
            (ground arith) (omega (arith, length-sealed g cs))
            (valid_sealed_compat _ _ pos (length-sealed g cs))) in
      let small : ltb 65556 (length (sealed_wire g cs)) ≡ false =
        ground (arith, length-sealed g cs) in
      rw (small, clear_flag-IsDataType _ t, head, parse_packet, parse, parse_payload)

  pub open_raw-boxed :
      open_raw (boxed g h cs) (some (paired cs n))
      ≡ (record (received g h) { raw_data = opened_raw g cs }, none)
  unfolding open_raw
  open_raw-boxed = rw (field_of_pos _ pos, open_bytes-sealed g cs n, opened-sealed, open_raw)
