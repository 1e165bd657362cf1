-- ===== src/Endpoint/Device.antt =====
-- The packets of the TUN device: tunRecv and tunSend of internal/tun/device_linux.go, one packet
-- each, and the whole way from one device to another. device_windows.go has the same test and cuts
-- off the same header.
use easytun.Base.{
  ℕ, ◌/◌, ◌^◌, ◌≡◌, ◌≤◌, ◌<◌, refl, ap, sym, ◌∙◌, Bool, true, false, not, ◌&&◌, ◌||◌, List, [], ◌∷◌,
  ◌++◌, Option, none, some, length, drop, get_or, ltb, eqb, arith, if◌then◌else◌, ◌==◌, length-drop,
  length-append,
}
use easytun.Base.Bytes.{Vip, vip_eq, vip_at}
use easytun.Cipher.{CipherState, is_ready}
use easytun.Packet.Header.{header_length, max_payload_size}
use easytun.Packet.Compress.{Lz4, Buffer}
use easytun.Packet.Sealed.{paired}
use easytun.Packet.Frames.{Framed}
use easytun.Hub.State.{AddrPort}
use easytun.Hub.Transfer.{is_multicast, is_loopback}
use easytun.Noise.Library.{NoiseLibrary}
use easytun.Noise.Session.{NoiseSession}
use easytun.Noise.Manager.{get_session}
use easytun.Endpoint.Transport.{ClientTransport}
use easytun.Endpoint.Sending.{packet_send, is_dns, addr_or}
use easytun.Endpoint.Peers.{packet_path}
use easytun.Endpoint.Receiving.{packet_recv}
use easytun.Endpoint.Delivery.{packet_recv-packet_send}

abbrev pub broadcast_ip : Vip
broadcast_ip = record { b0 = 255; b1 = 255; b2 = 255; b3 = 255 }

-- Subnet.Contains, for the /24 of the device's address
abbrev pub in_subnet_of : Vip → Vip → Bool
in_subnet_of ip v = eqb v.b0 ip.b0 && (eqb v.b1 ip.b1 && eqb v.b2 ip.b2)

unfoldable pub is_wanted : Vip → Vip → Bool
is_wanted ip dst =
    dst == broadcast_ip
    || (eqb dst.b3 255 || (is_multicast dst || (in_subnet_of ip dst && not (is_loopback dst))))

unfoldable pub tun_accepts : Vip → List ℕ → Bool
unfolding is_wanted
tun_accepts ip p =
    not (ltb (length p) 20 || not (eqb (get_or p 0 0 / 16) 4)) && is_wanted ip (vip_at p 16)

-- FromTun has room for 256 packets.
unfoldable pub tun_recv : ClientTransport → List ℕ → ClientTransport
unfolding tun_accepts
tun_recv t p =
    if tun_accepts t.local_ip p && ltb (length t.noise_mgr.tun_chan) 256
    then (let m = t.noise_mgr in
        record t { noise_mgr = record m { tun_chan = m.tun_chan ++ (p ∷ []) } })
    else t

-- The oldest packet leaves the queue of packetSend.
unfoldable pub packet_from : ClientTransport → List (List ℕ) → Option (List ℕ × ClientTransport)
packet_from t [] = none
packet_from t (p ∷ rest) =
    let m = t.noise_mgr in some (p, record t { noise_mgr = record m { tun_chan = rest } })

unfoldable pub next_packet : ClientTransport → Option (List ℕ × ClientTransport)
unfolding packet_from
next_packet t = packet_from t t.noise_mgr.tun_chan

unfoldable pub tun_write : ClientTransport → List ℕ → ClientTransport
tun_write t payload =
    if ltb header_length (length payload)
    then record t { device = t.device ++ (drop header_length payload ∷ []) }
    else t

unfoldable pub tun_send_from : ClientTransport → List (List ℕ) → ClientTransport
unfolding tun_write
tun_send_from t [] = t
tun_send_from t (payload ∷ rest) =
    let queue = t.from_net in
    tun_write (record t { from_net = record queue { items = rest } }) payload

unfoldable pub tun_send : ClientTransport → ClientTransport
unfolding tun_send_from
tun_send t = tun_send_from t t.from_net.items

tun_send-frame :
    (t : ClientTransport) (frame p : List ℕ) (rest : List (List ℕ))
    → t.from_net.items ≡ frame ∷ rest
    → 20 ≤ length p
    → (framed : Framed p frame) → (tun_send t).device ≡ t.device ++ ((p ++ framed.0) ∷ [])
unfolding tun_send tun_send_from tun_write
tun_send-frame t frame p rest e long (extra, same, short) =
    let big : ltb header_length (length frame) ≡ true =
      ground (arith, length-drop 21 frame, ap length same, length-append p extra) in
    ap (λ (l : List (List ℕ)). (tun_send_from t l).device) e ∙ rw (big, tun_write, same) refl

next_packet-tun_recv :
    (t : ClientTransport) (p : List ℕ)
    → tun_accepts t.local_ip p ≡ true
    → t.noise_mgr.tun_chan ≡ []
    → next_packet (tun_recv t p) ≡ some (p, t)
unfolding next_packet packet_from tun_recv
next_packet-tun_recv t p wanted idle =
    let room : ltb (length t.noise_mgr.tun_chan) 256 ≡ true = rw idle refl in
    let m = t.noise_mgr in
    rw (wanted, room, tun_recv)
      (ap
          (λ (l : List (List ℕ)).
            packet_from (record t { noise_mgr = record m { tun_chan = l ++ (p ∷ []) } })
              (l ++ (p ∷ [])))
          idle
        ∙ ap (λ (l : List (List ℕ)). some (p, record t { noise_mgr = record m { tun_chan = l } }))
            (sym idle))

tun_accepts-length : (ip : Vip) (p : List ℕ) → tun_accepts ip p ≡ true → 20 ≤ length p
unfolding tun_accepts
tun_accepts-length ip p h = ground arith

module _ (z : Lz4) (probe : Buffer) (compressed : Bool) (lib : NoiseLibrary) where
  -- The TUN device of a client hands over a packet that it accepts, of at most 65519 bytes, for one
  -- address and no DNS request; the client has a ready session with the address, and the client
  -- there a ready session that opens what the first seals; the queues are empty. Then the packet is
  -- the one that packetSend takes; it sends one datagram; and when the datagram arrives, whatever it
  -- came by, and the other's device takes its packet from the queue, the device is written once:
  -- the packet, with at most 16 bytes behind it.
  pub tun_send-tun_recv :
      (a b : ClientTransport) (now later n : ℕ) (p random : List ℕ) (from : AddrPort)
      (sa sb : NoiseSession) (cs : CipherState)
      → tun_accepts a.local_ip p ≡ true
      → a.noise_mgr.tun_chan ≡ []
      → length p ≤ max_payload_size
      → is_dns a p ≡ false
      → eqb (get_or p 19 0) 255 ≡ false
      → get_session a.noise_mgr (vip_at p 16) ≡ some sa
      → is_ready sa.cipher ≡ true
      → sa.cipher.sender ≡ some cs
      → cs.nonce < 2 ^ 64
      → get_session b.noise_mgr a.local_ip ≡ some sb
      → is_ready sb.cipher ≡ true
      → sb.cipher.recver ≡ some (paired cs n)
      → b.from_net.items ≡ []
      → 0 < b.from_net.cap
      → (wire : List ℕ) × (extra : List ℕ) × (addr : AddrPort) × (b' : ClientTransport)
        × (next_packet (tun_recv a p) ≡ some (p, a))
        × ((packet_send z probe compressed a now p).data_conn
            ≡ a.data_conn ++ (record { body = wire; addr = addr } ∷ []))
        × (packet_recv lib z probe b later random wire from ≡ some b')
        × ((tun_send b').device ≡ b.device ++ ((p ++ extra) ∷ []))
        × (length extra ≤ 16)
  tun_send-tun_recv a b now later n p random from sa sb cs wanted idle fits d u ea ready_a has fresh
        eb ready_b opens empty holds =
      let long = tun_accepts-length a.local_ip p wanted in
      let room : length b.from_net.items < b.from_net.cap = omega (arith, ap length empty, holds) in
      let (
        wire, frame, b', sa', sent, came, queued, framed, quiet, untouched, kept, still, counted,
      ) =
        packet_recv-packet_send z probe compressed lib a b now later n p random from sa sb cs long
          fits d u ea ready_a has fresh eb ready_b opens room in
      let only : b'.from_net.items ≡ frame ∷ [] =
        queued ∙ ap (λ (l : List (List ℕ)). l ++ (frame ∷ [])) empty in
      (
        wire,
        framed.0,
        addr_or a.server_addr (packet_path a (vip_at p 16)),
        b',
        next_packet-tun_recv a p wanted idle,
        sent,
        came,
        tun_send-frame b' frame p [] only long framed
            ∙ ap (λ (l : List (List ℕ)). l ++ ((p ++ framed.0) ∷ [])) untouched,
        framed.2,
      )
