-- ===== src/Packet/Codec.antt =====
-- packet.go: the methods of GamePacket. A buffer of the pool is a fresh list, since every use
-- overwrites what the buffer held.
use Prim.Native.Nat.{bit_or}
use easytun.Base.{
  ℕ, ◌+◌, ◌-◌, Bool, true, false, ◌&&◌, List, [], ◌∷◌, ◌++◌, Option, none, some, length, take, drop,
  slice, get_or, ltb, eqb, if◌then◌else◌,
}
use easytun.Base.Bytes.{Vip, zero_vip, vip_bytes, be16, be64}
use easytun.Cipher.{CipherState, get_nonce, encrypt, decrypt}
use easytun.Errors.{Error, ok, err, payload_mismatch, open_failed}
use easytun.Packet.PType
use easytun.Packet.Header.{
  Mode, Header, plaintext, ciphertext, data_compat, payload_length_field, parse_header,
  magic_number, header_length, nonce_length, max_packet_size, clear_flag, has_flag,
}
use easytun.Packet.Compress.{GamePacket, Lz4, Buffer, length_or_zero, compress, decompress}

unfoldable pub reset : GamePacket → Vip → Vip → ℕ → List ℕ → GamePacket
reset g src dst ptype payload = record g {
  src = src;
  dst = dst;
  ptype = clear_flag ptype;
  payload = payload;
  len = length_or_zero (payload_length_field (length payload));
}

abbrev pub empty_packet : GamePacket
empty_packet = record {
  src = zero_vip;
  dst = zero_vip;
  ptype = 0;
  payload = [];
  raw_data = [];
  len = 0;
}

unfoldable pub new_game_packet : Vip → Vip → ℕ → List ℕ → GamePacket
unfolding reset
new_game_packet src dst ptype payload = reset empty_packet src dst ptype payload

-- A nil cipher gives the nonce 0; any other counts on.
unfoldable pub next_nonce : Option CipherState → ℕ × Option CipherState
next_nonce none = (0, none)
next_nonce (some cs) = let (n, cs') = get_nonce cs in (n, some cs')

-- The header behind whatever `b` holds already.
unfoldable pub append_header : List ℕ → GamePacket → ℕ → List ℕ
append_header b g nonce =
    b
    ++ (be16 magic_number
        ++ (g.ptype ∷ (vip_bytes g.dst ++ (be16 g.len ++ (vip_bytes g.src ++ be64 nonce)))))

unfoldable pub append_payload : List ℕ → GamePacket → Bool → Option CipherState → List ℕ
append_payload b g control none = b ++ g.payload
append_payload b g control (some cs) =
    if control
    then b ++ g.payload
    else encrypt cs b (slice (header_length - nonce_length) header_length b) g.payload
        (take (header_length - nonce_length) b)

-- `none` is the nil slice. The packet comes back with its length field set, the cipher with its
-- counter moved.
unfoldable pub encode :
    GamePacket
    → List ℕ
    → Bool
    → Option CipherState
    → Option (List ℕ) × GamePacket × Option CipherState
unfolding next_nonce append_header append_payload
encode g b control cipher = elim (payload_length_field (length g.payload)) [
  | none ↦ (none, g, cipher)
  | some len ↦
      let g' = record g { len = len } in
      let (nonce, cipher') = next_nonce cipher in
      let b' = append_header b g' nonce in
      (
        some (if ltb 0 (length g.payload) then append_payload b' g' control cipher' else b'),
        g',
        cipher',
      )
]

unfoldable pub encode_packet_with_buffer :
    GamePacket
    → List ℕ
    → Bool
    → Option CipherState
    → Option (List ℕ) × GamePacket × Option CipherState
unfolding encode
encode_packet_with_buffer g buf control cipher = encode g buf control cipher

-- The flag says whether the payload is compressed; without the feature it stays as it was.
unfoldable pub compress_flag : Lz4 → Buffer → Bool → GamePacket → GamePacket
compress_flag z probe false g = g
compress_flag z probe true g =
    let (done, g') = compress z probe g in
    record g' { ptype = if done then bit_or g'.ptype 0x80 else clear_flag g'.ptype }

unfoldable pub encode_packet :
    Lz4
    → Buffer
    → GamePacket
    → Bool
    → Bool
    → Option CipherState
    → Option (List ℕ) × GamePacket × Option CipherState
unfolding encode compress_flag
encode_packet z probe g control compressed cipher = elim (payload_length_field (length g.payload)) [
  | none ↦ (none, g, cipher)
  | some _ ↦ encode (compress_flag z probe compressed g) [] control cipher
]

abbrev pub parse_mode : List ℕ → Option CipherState → Mode
parse_mode bs (some cs) = ciphertext
parse_mode bs none =
    if ltb 2 (length bs) && eqb (clear_flag (get_or bs 2 0)) PType.data_type
    then data_compat
    else plaintext

abbrev pub with_header : GamePacket → Header → GamePacket
with_header g h = record g { ptype = h.ptype; dst = h.dst; src = h.src; len = h.len }

-- `Open` writes the plaintext over the front of the ciphertext in the buffer of the packet; what
-- is behind it, the tag, stays.
unfoldable pub opened : GamePacket → List ℕ → Option (List ℕ) → GamePacket × Option Error
opened g bs none = (g, some open_failed)
opened g bs (some plain) = (
  record g {
    payload = plain;
    raw_data = take header_length bs ++ (plain ++ drop (header_length + length plain) bs);
  },
  none,
)

abbrev pub open_bytes : CipherState → List ℕ → Option (List ℕ)
open_bytes cs bs =
    decrypt cs (slice 9 (9 + nonce_length) bs) (drop header_length bs)
      (take (header_length - nonce_length) bs)

unfoldable pub parse_payload :
    GamePacket → List ℕ → Bool → Option CipherState → GamePacket × Option Error
unfolding opened
parse_payload g bs wanted none = (record g { payload = drop header_length bs }, none)
parse_payload g bs wanted (some cs) =
    if wanted && ltb 0 g.len then opened g bs (open_bytes cs bs) else (g, none)

unfoldable pub parse : GamePacket → List ℕ → Bool → Option CipherState → GamePacket × Option Error
unfolding parse_payload
parse g bs wanted cipher = elim (parse_header bs (parse_mode bs cipher)) [
  | err e ↦ (g, some e)
  | ok h ↦ parse_payload (with_header g h) bs wanted cipher
]

-- A failed parse gives the buffer back and keeps no slice of it.
abbrev pub drop_on_error : GamePacket × Option Error → GamePacket × Option Error
drop_on_error (g, none) = (g, none)
drop_on_error (g, some e) = (record g { payload = []; raw_data = [] }, some e)

unfoldable pub parse_packet :
    GamePacket → List ℕ → Bool → Option CipherState → GamePacket × Option Error
unfolding parse
parse_packet g content wanted cipher =
    if ltb max_packet_size (length content)
    then (g, some payload_mismatch)
    else drop_on_error (parse (record g { raw_data = content }) content wanted cipher)

unfoldable pub parse_control : GamePacket → List ℕ → GamePacket × Option Error
parse_control g bs = elim (parse_header bs plaintext) [
  | err e ↦ (record g { payload = [] }, some e)
  | ok h ↦ (record (with_header g h) { payload = drop (9 + nonce_length) bs }, none)
]

-- The second phase: open the box in place, if there is a cipher and a payload, then decompress.
unfoldable pub open_raw : GamePacket → Option CipherState → GamePacket × Option Error
unfolding opened
open_raw g none = (g, none)
open_raw g (some cs) =
    if ltb 0 g.len then opened g g.raw_data (open_bytes cs g.raw_data) else (g, none)

unfoldable pub finish_open : Lz4 → GamePacket × Option Error → GamePacket × Option Error
finish_open z (g, some e) = (g, some e)
finish_open z (g, none) = if has_flag g.ptype then decompress z g else (g, none)

unfoldable pub decrypt_parse : Lz4 → GamePacket → Option CipherState → GamePacket × Option Error
unfolding open_raw finish_open
decrypt_parse z g cipher = finish_open z (open_raw g cipher)

-- net.IPv4 of the four bytes
unfoldable pub destination : GamePacket → Vip
destination g = g.dst

unfoldable pub source_virtual_ip : GamePacket → Vip
source_virtual_ip g = g.src
