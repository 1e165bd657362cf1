-- ===== src/Noise/Secured.antt =====
-- A linked pair of sessions under the packet codec: the cipher of one end in EncodePacket, that of
-- the other in DecryptParse.
use easytun.Base.{ℕ, ◌≤◌, ◌<◌, ◌≡◌, Bool, true, false, List, none, some, length, arith}
use easytun.Cipher.{Cipher}
use easytun.Packet.Compress.{GamePacket, Lz4, Buffer}
use easytun.Packet.Codec.{encode_packet, parse_packet, decrypt_parse}
use easytun.Packet.Header.{max_payload_size}
use easytun.Packet.EndToEnd.{Delivered, decrypt_parse-encode_packet}
use easytun.Noise.Agreement.{Linked}

-- What a client encodes with the sender of a session is delivered by the peer's receiver, for a
-- packet of TypeData with 1 to 65519 bytes of payload, if the two sessions are linked.
pub Linked-Delivered :
    (c d : Cipher) (z : Lz4) (probe : Buffer) (compressed : Bool) (g h : GamePacket)
    → Linked c d
    → g.ptype ≡ 8
    → 0 < length g.payload
    → length g.payload ≤ max_payload_size
    → (bs : List ℕ) × ((encode_packet z probe g false compressed c.sender).0 ≡ some bs)
      × ((parse_packet h bs true none).1 ≡ none)
      × Delivered g (decrypt_parse z (parse_packet h bs true none).0 d.recver)
Linked-Delivered c d z probe compressed g h l t pos fits =
    rw (l.c_sender, l.d_recver)
      (decrypt_parse-encode_packet z probe compressed g h (record { aead = l.forth; nonce = 0 }) 0 t
        pos fits (omega arith))
