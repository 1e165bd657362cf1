-- ===== src/Endpoint/Resolving.antt =====
-- A DNS request of a host: packetSend of client_udp.go, the server's listenUdp and
-- buildDnsResponse, and packetRecv with BuildDNSResponse.
use easytun.Base.{
  ℕ, ◌+◌, ◌^◌, ◌≡◌, ◌≤◌, ◌<◌, refl, ap, ◌∙◌, inl, Bool, true, false, List, [], ◌∷◌, ◌++◌, Option,
  none, some, length, drop, get_or, ltb, arith, length-drop, subst,
}
use easytun.Base.Bytes.{Vip, vip_eq, vip_at, zero_vip, be16, u16_at}
use easytun.Errors.{Error, ok}
use easytun.Packet.Compress.{GamePacket, Lz4, Buffer}
use easytun.Packet.Codec.{new_game_packet, reset, empty_packet}
use easytun.Packet.PType
use easytun.Hub.State.{Hub, AddrPort, try_send, has_room}
use easytun.Hub.Records.{DnsCodec, build_dns_response, answer_with, get_dns, dot_et}
use easytun.Hub.Udp.{receive_datagram, sort_packet, answer}
use easytun.Noise.Library.{NoiseLibrary}
use easytun.Endpoint.Transport.{ClientTransport}
use easytun.Endpoint.Dns
use easytun.Endpoint.Checksum.{checksum, udp_checksum}
use easytun.Endpoint.Dns.{ip_header, udp_datagram}
use easytun.Endpoint.Sending.{packet_send, send_plain, write_packet, is_dns, dns_query, ihl}
use easytun.Endpoint.Receiving.{packet_recv, receive_packet, receive_dns}
use easytun.Endpoint.Introducing.{packet-Carried}

-- The frame that carries the message `payload` to the port, by the offsets of RFC 791 and RFC 768: an IPv4
-- header of 20 bytes with the length of the frame, protocol 17 and the two addresses, then the source port,
-- the destination port and the length of the datagram, then the message.
abbrev pub IsFrameOf : ClientTransport → ℕ → List ℕ → List ℕ → Type 0
IsFrameOf t port payload frame =
    (length frame ≡ 28 + length payload)
    × (get_or frame 0 0 ≡ 0x45)
    × (u16_at frame 2 ≡ 28 + length payload)
    × (get_or frame 9 0 ≡ 17)
    × (vip_at frame 12 ≡ t.dns_ip)
    × (vip_at frame 16 ≡ t.local_ip)
    × (u16_at frame 20 ≡ 53)
    × (u16_at frame 22 ≡ port)
    × (u16_at frame 24 ≡ 8 + length payload)
    × (drop 28 frame ≡ payload)

frame-IsFrameOf :
    (t : ClientTransport) (port check udp_check : ℕ) (payload : List ℕ)
    → port < 2 ^ 16
    → length payload ≤ 65000
    → IsFrameOf t port payload (
        ip_header (28 + length payload) check t.dns_ip t.local_ip
        ++ udp_datagram port udp_check payload)
unfolding ip_header udp_datagram
frame-IsFrameOf t port check udp_check payload low small = (
  omega arith,
  refl,
  omega (arith, small),
  refl,
  refl,
  refl,
  refl,
  omega (arith, low),
  omega (arith, small),
  refl,
)

build_dns_response-frame :
    (t : ClientTransport) (raw : List ℕ)
    → 2 ≤ length raw
    → length raw ≤ 65002
    → u16_at raw 0 < 2 ^ 16
    → (frame : List ℕ) × (Dns.build_dns_response raw t.local_ip t.dns_ip ≡ some frame)
      × IsFrameOf t (u16_at raw 0) (drop 2 raw) frame
unfolding Dns.build_dns_response
build_dns_response-frame t raw long small low =
    let big : ltb (length raw) 2 ≡ false = ground arith in
    let port = u16_at raw 0 in
    let payload = drop 2 raw in
    let check = checksum (ip_header (28 + length payload) 0 t.dns_ip t.local_ip) in
    let udp_check = udp_checksum t.dns_ip t.local_ip (udp_datagram port 0 payload) in
    (
      ip_header (28 + length payload) check t.dns_ip t.local_ip
          ++ udp_datagram port udp_check payload,
      rw big refl,
      frame-IsFrameOf t port check udp_check payload low (omega (arith, length-drop 2 raw)),
    )

module _ (lib : NoiseLibrary) (z : Lz4) (probe : Buffer) (compressed : Bool) (d : DnsCodec) where
  -- A DNS request goes out, comes to the server and comes back as the reply `raw` that the server
  -- makes for it.
  dns-carried :
      (t : ClientTransport) (h : Hub) (now later : ℕ) (p random raw : List ℕ) (addr from : AddrPort)
      → 20 ≤ length p
      → length p ≤ 65000
      → is_dns t p ≡ true
      → build_dns_response d h (dns_query p) ≡ ok raw
      → 2 ≤ length raw
      → length raw ≤ 65002
      → u16_at raw 0 < 2 ^ 16
      → length h.packet_chan.items < h.packet_chan.cap
      → (request : List ℕ) × (reply : List ℕ) × (frame : List ℕ) × (packet_send z probe compressed t
            now p
          ≡ write_packet t (vip_at p 16) request)
        × ((receive_datagram z probe d h request addr).packet_chan.items
            ≡ h.packet_chan.items
              ++ (record { bytes = reply; broadcast = false; dst_addr = some addr } ∷ []))
        × (packet_recv lib z probe t later random reply from
            ≡ some (record t { device = t.device ++ (frame ∷ []) }))
        × IsFrameOf t (u16_at raw 0) (drop 2 raw) frame
  unfolding new_game_packet reset packet_send send_plain receive_datagram sort_packet answer
      try_send has_room packet_recv receive_packet receive_dns dns_query
  dns-carried t h now later p random raw addr from long fits asks answers two small low room =
      let dst = vip_at p 16 in
      let big : ltb (length p) 20 ≡ false = ground arith in
      let (request, wrote, read) =
        packet-Carried z probe (new_game_packet t.local_ip dst PType.dns_request (dns_query p))
          empty_packet false (inl (omega arith)) (omega (arith, length-drop (ihl p + 8) p)) in
      let (reply, wrote', read') =
        packet-Carried z probe (new_game_packet zero_vip t.local_ip PType.dns_response raw)
          empty_packet false (inl (omega arith)) (omega arith) in
      let (frame, made, framed) = build_dns_response-frame t raw two small low in
      let space : ltb (length h.packet_chan.items) h.packet_chan.cap ≡ true = ground arith in
      (
        request,
        reply,
        frame,
        rw (big, asks, wrote) refl,
        ap (λ (x : GamePacket × Option Error). (sort_packet z probe d h addr x).packet_chan.items)
              read
            ∙ rw (answers, answer, wrote', space) refl,
        ap (receive_packet lib z probe t later random from) read' ∙ rw (made, receive_dns) refl,
        framed,
      )

  -- The message of a request, and what the server gets of it.
  abbrev question : List ℕ → List ℕ
  question p = drop (ihl p + 8) p

  build_dns_response-answer :
      (h : Hub) (p hostname rr reply : List ℕ) (more : List (List ℕ)) (ip : Vip)
      → d.unpack (question p) ≡ some (hostname ∷ more)
      → get_dns h hostname dot_et ≡ some ip
      → d.new_rr hostname ip ≡ some rr
      → d.pack_answer (question p) rr ≡ some reply
      → build_dns_response d h (dns_query p) ≡ ok (be16 (u16_at p (ihl p)) ++ reply)
  unfolding build_dns_response dns_query
  build_dns_response-answer h p hostname rr reply more ip e f g k =
      let long : ltb (length (dns_query p)) 2 ≡ false = ground arith in
      rw (long, e, f, answer_with, g, k) refl

  -- A client takes a DNS request of 20 to 65000 bytes, with a port below 2 ^ 16 that asks, from its TUN
  -- device; the server's library
  -- reads a name in it, the server has an address for the name, the library makes a reply of at
  -- most 65000 bytes, and the server's queue has room. Then the client sends the request towards
  -- the server's address, the server queues one reply for the address that the request came from,
  -- and the client writes one frame to its device when the reply comes: an IPv4 packet from its DNS
  -- server to itself, with a UDP datagram from port 53 to the port that asked, and the reply in it.
  pub packet_recv-dns :
      (t : ClientTransport) (h : Hub) (now later : ℕ) (p random hostname rr message : List ℕ)
      (more : List (List ℕ)) (ip : Vip) (addr from : AddrPort)
      → 20 ≤ length p
      → length p ≤ 65000
      → is_dns t p ≡ true
      → u16_at p (ihl p) < 2 ^ 16
      → d.unpack (drop (ihl p + 8) p) ≡ some (hostname ∷ more)
      → get_dns h hostname dot_et ≡ some ip
      → d.new_rr hostname ip ≡ some rr
      → d.pack_answer (drop (ihl p + 8) p) rr ≡ some message
      → length message ≤ 65000
      → length h.packet_chan.items < h.packet_chan.cap
      → (request : List ℕ) × (reply : List ℕ) × (frame : List ℕ) × (packet_send z probe compressed t
            now p
          ≡ write_packet t (vip_at p 16) request)
        × ((receive_datagram z probe d h request addr).packet_chan.items
            ≡ h.packet_chan.items
              ++ (record { bytes = reply; broadcast = false; dst_addr = some addr } ∷ []))
        × (packet_recv lib z probe t later random reply from
            ≡ some (record t { device = t.device ++ (frame ∷ []) }))
        × IsFrameOf t (u16_at p (ihl p)) message frame
  packet_recv-dns t h now later p random hostname rr message more ip addr from long fits asks port e
        f g k small room =
      let raw : List ℕ = be16 (u16_at p (ihl p)) ++ message in
      let same : u16_at raw 0 ≡ u16_at p (ihl p) = omega (arith, port) in
      let (request, reply, frame, sent, queued, came, framed) =
        dns-carried t h now later p random raw addr from long fits asks
          (build_dns_response-answer h p hostname rr message more ip e f g k) (omega arith)
          (omega (arith, small)) (omega (arith, same, port)) room in
      (
        request,
        reply,
        frame,
        sent,
        queued,
        came,
        subst (λ (n : ℕ). IsFrameOf t n message frame) same framed,
      )

  build_dns_response-unknown :
      (h : Hub) (p hostname reply : List ℕ) (more : List (List ℕ))
      → d.unpack (question p) ≡ some (hostname ∷ more)
      → get_dns h hostname dot_et ≡ none
      → d.pack_name_error (question p) ≡ some reply
      → build_dns_response d h (dns_query p) ≡ ok reply
  unfolding build_dns_response dns_query
  build_dns_response-unknown h p hostname reply more e f g =
      let long : ltb (length (dns_query p)) 2 ≡ false = ground arith in
      rw (long, e, f, answer_with, g) refl

  -- The same for a name that the server does not know, with no condition on the port that asked: the
  -- reply with the code NXDOMAIN, of 2 to 65000 bytes, whose first two make a number below 2 ^ 16, goes
  -- back without the port. The frame that the client then writes is for the port
  -- whose number is the first two bytes of the reply, and these are missing in its message.
  pub packet_recv-dns_unknown :
      (t : ClientTransport) (h : Hub) (now later : ℕ) (p random hostname message : List ℕ)
      (more : List (List ℕ)) (addr from : AddrPort)
      → 20 ≤ length p
      → length p ≤ 65000
      → is_dns t p ≡ true
      → d.unpack (drop (ihl p + 8) p) ≡ some (hostname ∷ more)
      → get_dns h hostname dot_et ≡ none
      → d.pack_name_error (drop (ihl p + 8) p) ≡ some message
      → 2 ≤ length message
      → length message ≤ 65000
      → u16_at message 0 < 2 ^ 16
      → length h.packet_chan.items < h.packet_chan.cap
      → (request : List ℕ) × (reply : List ℕ) × (frame : List ℕ) × (packet_send z probe compressed t
            now p
          ≡ write_packet t (vip_at p 16) request)
        × ((receive_datagram z probe d h request addr).packet_chan.items
            ≡ h.packet_chan.items
              ++ (record { bytes = reply; broadcast = false; dst_addr = some addr } ∷ []))
        × (packet_recv lib z probe t later random reply from
            ≡ some (record t { device = t.device ++ (frame ∷ []) }))
        × IsFrameOf t (u16_at message 0) (drop 2 message) frame
  packet_recv-dns_unknown t h now later p random hostname message more addr from long fits asks e f
        g two small low room =
      dns-carried t h now later p random message addr from long fits asks
        (build_dns_response-unknown h p hostname message more e f g) two (omega (arith, small)) low
        room
