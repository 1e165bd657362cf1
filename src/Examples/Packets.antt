-- ===== src/Examples/Packets.antt =====
-- Packets on the wire: plain ones, sealed ones, compressed ones.
use easytun.Base.{
  ◌↔◌, All, ℕ, ◌≡◌, refl, true, false, List, [], ◌∷◌, none, some, length, arith, bytes_eq,
}
use easytun.Cipher.{CipherState, encrypt, get_nonce}
use easytun.Packet.Compress.{GamePacket, Buffer, compress}
use easytun.Packet.Header.{
  payload_length_field, parse_header, valid_payload_length, plaintext, header_at,
}
use easytun.Packet.Wire.{Carries, parse_header-accepts}
use easytun.Errors.{ok}
use easytun.Base.Bytes.{IsByte}
use easytun.Base.Tests.{bytes_beq}
use easytun.Packet.Codec.{encode_packet, parse_packet, empty_packet}
use easytun.Packet.EndToEnd.{Delivered, receive, decrypt_parse-encode_packet}
use easytun.Examples.Toys.{repeated, zero_aead, runs, alice, bob}

abbrev session : CipherState
session = record { aead = zero_aead; nonce = 5 }

-- A run of 200 bytes, which the compressor shortens to one.
abbrev run_packet : GamePacket
run_packet = record {
  src = alice;
  dst = bob;
  ptype = 8;
  payload = repeated 200 7;
  raw_data = [];
  len = 0;
}

abbrev probe_buffer : Buffer
probe_buffer = record { buf_len = 80; cap = 80 }

shrinks :
    length (elim (encode_packet runs probe_buffer run_packet false true (some session)).0 [
      | none ↦ []
      | some bs ↦ bs
    ])
    ≡ 38
unfolding encode_packet payload_length_field compress runs bytes_beq encrypt zero_aead get_nonce
shrinks = refl

decrypt_parse-encode_packet_example :
    (bs : List ℕ) × ((encode_packet runs probe_buffer run_packet false true (some session)).0
      ≡ some bs)
    × ((parse_packet empty_packet bs true none).1 ≡ none)
    × Delivered run_packet (receive runs empty_packet session 9 bs)
decrypt_parse-encode_packet_example =
    decrypt_parse-encode_packet runs probe_buffer true run_packet empty_packet session 9 refl
      (omega arith) (omega arith) (omega arith)

-- A command with the address 1.2.3.4:1024 of a client behind a cone NAT.
abbrev command : GamePacket
command = record {
  src = alice;
  dst = bob;
  ptype = 10;
  payload = 1 ∷ 2 ∷ 3 ∷ 4 ∷ 4 ∷ 0 ∷ 3 ∷ [];
  raw_data = [];
  len = 0;
}

-- A ping from 10.0.6.2, which has no payload.
abbrev ping_bytes : List ℕ
ping_bytes =
    0xda ∷ 0xaa ∷ 6 ∷ 0 ∷ 0 ∷ 0 ∷ 0 ∷ 0 ∷ 0 ∷ 10 ∷ 0 ∷ 6 ∷ 2 ∷ 0 ∷ 0 ∷ 0 ∷ 0 ∷ 0 ∷ 0 ∷ 0 ∷ 0 ∷ []

ping_parses : parse_header ping_bytes plaintext ≡ ok (header_at ping_bytes)
unfolding parse_header valid_payload_length
ping_parses = refl

ping_bytes-IsByte : All IsByte ping_bytes
ping_bytes-IsByte = ground arith

parse_header-accepts_example :
    (parse_header ping_bytes plaintext ≡ ok (header_at ping_bytes))
    ↔ Carries ping_bytes plaintext (header_at ping_bytes)
parse_header-accepts_example =
    parse_header-accepts ping_bytes plaintext (header_at ping_bytes) ping_bytes-IsByte
