-- ===== src/Endpoint/Fitting.antt =====
-- How long the datagrams of packetSend in internal/transport/client_udp.go are.
use easytun.Base.{
  ℕ, ◌+◌, ◌≡◌, ◌≤◌, refl, sym, inl, inr, Bool, true, false, List, [], ◌∷◌, ◌++◌, Option, none, some,
  length, All, arith, ltb, eqb, get_or, Bool-cases, Option-cases, length-append, length-drop,
  if◌then◌else◌,
}
use mathlib.Core.List.{append-nil}
use easytun.Base.Bytes.{Vip, vip_at}
use easytun.Cipher.{CipherState, is_ready, encrypt}
use easytun.Packet.PType
use easytun.Packet.Compress.{GamePacket, Lz4, Buffer}
use easytun.Packet.Codec.{
  encode, encode_packet, append_header, append_payload, compress_flag, new_game_packet, next_nonce,
}
use easytun.Packet.Header.{payload_length_field}
use easytun.Packet.EndToEnd.{compress-cases}
use easytun.Hub.Udp.{Message, bytes_or_nil}
use easytun.Noise.Session.{NoiseSession}
use easytun.Noise.Manager.{get_session}
use easytun.Endpoint.Transport.{ClientTransport, send_control}
use easytun.Endpoint.Sending.{
  packet_send, is_dns, send_plain, send_sealed, seal_with, write_packet, dns_query, ihl,
}

length-append_header : (g : GamePacket) (nonce : ℕ) → length (append_header [] g nonce) ≡ 21
unfolding append_header
length-append_header g nonce = refl

length-append_payload :
    (b : List ℕ) (g : GamePacket) (control : Bool) (cipher : Option CipherState)
    → length (append_payload b g control cipher) ≤ length b + length g.payload + 16
unfolding append_payload encrypt
length-append_payload b g control none = omega (arith, length-append b g.payload)
length-append_payload b g true (some cs) = omega (arith, length-append b g.payload)
length-append_payload b g false (some cs) =
    omega (arith, length-append b (cs.aead.seal _ g.payload _), cs.aead.length-seal _ g.payload _)

either-le :
    (b : Bool) (xs ys : List ℕ) (n : ℕ)
    → length xs ≤ n
    → length ys ≤ n
    → length (if b then xs else ys) ≤ n
either-le true xs ys n h k = h
either-le false xs ys n h k = k

length-encode :
    (g : GamePacket) (control : Bool) (cipher : Option CipherState)
    → length (bytes_or_nil (encode g [] control cipher).0) ≤ length g.payload + 37
unfolding encode
length-encode g control cipher = elim (Option-cases (payload_length_field (length g.payload))) [
  | inl e ↦ rw (e, encode) (omega arith)
  | inr (n, e) ↦
      let g' : GamePacket = record g { len = n } in
      let b : List ℕ = append_header [] g' (next_nonce cipher).0 in
      let long = length-append_header g' (next_nonce cipher).0 in
      rw (e, encode)
        (either-le (ltb 0 (length g.payload)) (append_payload b g' control (next_nonce cipher).1) b
          _ (omega (arith, long, length-append_payload b g' control (next_nonce cipher).1))
          (omega (arith, long)))
]

length-compress_flag :
    (z : Lz4) (probe : Buffer) (compressed : Bool) (g : GamePacket)
    → length (compress_flag z probe compressed g).payload ≤ length g.payload
unfolding compress_flag
length-compress_flag z probe false g = omega arith
length-compress_flag z probe true g = elim (compress-cases z probe g) [
  | inl c ↦ rw (c, compress_flag) (omega arith)
  | inr (out, b, c, pos, fits, less) ↦ rw (c, compress_flag) (omega (arith, less))
]

length-encode_packet :
    (z : Lz4) (probe : Buffer) (g : GamePacket) (control compressed : Bool)
    (cipher : Option CipherState)
    → length (bytes_or_nil (encode_packet z probe g control compressed cipher).0)
      ≤ length g.payload + 37
unfolding encode_packet
length-encode_packet z probe g control compressed cipher =
    elim (Option-cases (payload_length_field (length g.payload))) [
      | inl e ↦ rw (e, encode_packet) (omega arith)
      | inr (n, e) ↦
          rw (e, encode_packet)
            (omega (
              arith,
              length-encode (compress_flag z probe compressed g) control cipher,
              length-compress_flag z probe compressed g,
            ))
    ]

-- At most one datagram has gone out, of `n` bytes at most.
abbrev Sends : ℕ → ClientTransport → ClientTransport → Type 0
Sends n t t' =
    (sent : List Message) × (t'.data_conn ≡ t.data_conn ++ sent)
    × (length sent ≤ 1)
    × All (λ m. length m.body ≤ n) sent

All-le :
    (sent : List Message) (m n : ℕ)
    → m ≤ n
    → All (λ x. length x.body ≤ m) sent
    → All (λ x. length x.body ≤ n) sent
All-le [] m n h each = tt
All-le (x ∷ sent) m n h each = (omega (arith, h, each.0), All-le sent m n h each.1)

module _ (z : Lz4) (probe : Buffer) (compressed : Bool) where
  send_plain-Sends :
      (t : ClientTransport) (v : Vip) (ptype n : ℕ) (payload : List ℕ)
      → length payload ≤ n
      → Sends (n + 37) t (send_plain z probe compressed t v ptype payload)
  unfolding send_plain write_packet new_game_packet
  send_plain-Sends t v ptype n payload h = (
    _,
    refl,
    omega arith,
    (
      omega (
        arith,
        h,
        length-encode_packet z probe (new_game_packet t.local_ip v ptype payload) false false none,
      ),
      tt,
    ),
  )

  send_sealed-Sends :
      (t : ClientTransport) (now : ℕ) (v : Vip) (p : List ℕ) (s : Option NoiseSession)
      → Sends (length p + 37) t (send_sealed z probe compressed t now v p s)
  unfolding send_sealed seal_with write_packet send_control new_game_packet
  send_sealed-Sends t now v p none = ([], sym (append-nil t.data_conn), omega arith, tt)
  send_sealed-Sends t now v p (some s) = elim (Bool-cases (is_ready s.cipher)) [
    | inl e ↦ rw e (
      _,
      refl,
      omega arith,
      (
        length-encode_packet z probe (new_game_packet t.local_ip v PType.data_type p) false
            compressed s.cipher.sender,
        tt,
      ),
    )
    | inr e ↦ rw e ([], sym (append-nil t.data_conn), omega arith, tt)
  ]

  length-dns_query :
      (t : ClientTransport) (p : List ℕ) → is_dns t p ≡ true → length (dns_query p) ≤ length p
  unfolding dns_query is_dns
  length-dns_query t p d =
      let long : ihl p + 8 ≤ length p = ground arith in
      omega (arith, long, length-drop (ihl p + 8) p)

  packet_send-one :
      (t : ClientTransport) (now : ℕ) (p : List ℕ)
      → Sends (length p + 37) t (packet_send z probe compressed t now p)
  unfolding packet_send
  packet_send-one t now p = elim (Bool-cases (ltb (length p) 20)) [
    | inl e ↦ rw e ([], sym (append-nil t.data_conn), omega arith, tt)
    | inr e ↦ rw e (elim (Bool-cases (is_dns t p)) [
      | inl d ↦ rw d (
          send_plain-Sends t (vip_at p 16) PType.dns_request (length p) (dns_query p)
            (length-dns_query t p d))
      | inr d ↦ rw d (elim (Bool-cases (eqb (get_or p 19 0) 255)) [
        | inl u ↦ rw u (send_plain-Sends t (vip_at p 16) PType.data_type (length p) p (omega arith))
        | inr u ↦
            rw u (send_sealed-Sends t now (vip_at p 16) p (get_session t.noise_mgr (vip_at p 16)))
      ])
    ])
  ]

  -- For a packet from the TUN device packetSend puts at most one datagram on the socket, whatever the
  -- peer, the session and the compression; and it is at most 37 bytes longer than the packet, so
  -- a packet that is no longer than the MTU of the device, 1280, fits the buffers of 2048 bytes
  -- that the server receives into.
  pub packet_send-Sends :
      (t : ClientTransport) (now : ℕ) (p : List ℕ)
      → (sent : List Message) × ((packet_send z probe compressed t now p).data_conn
          ≡ t.data_conn ++ sent)
        × (length sent ≤ 1)
        × All (λ m. length m.body ≤ length p + 37) sent
        × (length p ≤ 1280 → All (λ m. length m.body ≤ 2048) sent)
  packet_send-Sends t now p =
      let (sent, out, one, fits) = packet_send-one t now p in
      (sent, out, one, fits, λ h. All-le sent (length p + 37) 2048 (omega arith) fits)
