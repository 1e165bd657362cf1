-- ===== src/Endpoint/Delivery.antt =====
-- A packet from the TUN device of one client to that of another: packetSend and packetRecv of
-- client_udp.go with a session between the two.
use easytun.Base.{
  ℕ, ◌≡◌, ◌≤◌, ◌<◌, ◌^◌, refl, ap, sym, ◌∙◌, Bool, true, false, List, [], ◌∷◌, ◌++◌, Option, none,
  some, length, get_or, ltb, eqb, arith, subst,
}
use easytun.Base.Assoc.{lookup-insert_self}
use easytun.Base.Bytes.{Vip, vip_eq, vip_at}
use easytun.Cipher.{CipherState, is_ready}
use easytun.Errors.{Error}
use easytun.Packet.Header.{max_payload_size, clear_flag}
use easytun.Packet.Compress.{GamePacket, Lz4, Buffer}
use easytun.Packet.Codec.{
  new_game_packet, encode_packet, parse_packet, decrypt_parse, empty_packet, reset,
}
use easytun.Packet.RoundTrip.{advanced, sized}
use easytun.Packet.Sealed.{paired, sealed_wire, boxed, clear_flag-IsDataType}
use easytun.Packet.Frames.{Framed, Carried, encode_packet-Carried}
use easytun.Packet.PType
use easytun.Hub.State.{AddrPort, Chan, try_send, has_room}
use easytun.Hub.Udp.{bytes_or_nil}
use easytun.Noise.Library.{NoiseLibrary}
use easytun.Noise.Session.{NoiseSession, update_last_seen}
use easytun.Noise.Manager.{get_session, set_session, touch}
use easytun.Noise.Steps.{handle_noise_packet-ready}
use easytun.Endpoint.Transport.{ClientTransport, write_to_udp}
use easytun.Endpoint.Peers.{packet_path}
use easytun.Endpoint.Sending.{packet_send, send_sealed, seal_with, write_packet, is_dns, addr_or}
use easytun.Endpoint.Receiving.{packet_recv, receive_packet, receive_data, accept_data}

accept_data-none :
    (t : ClientTransport) (now : ℕ) (v : Vip) (d : GamePacket × Option Error)
    → d.1 ≡ none
    → accept_data t now v d ≡ record t {
      noise_mgr = touch t.noise_mgr now v;
      from_net = try_send t.from_net d.0.raw_data;
    }
unfolding accept_data
accept_data-none t now v (gp, none) e = refl
accept_data-none t now v (gp, some x) e = cc

try_send-room :
    (c : Chan (List ℕ)) (x : List ℕ)
    → length c.items < c.cap
    → (try_send c x).items ≡ c.items ++ (x ∷ [])
unfolding try_send has_room
try_send-room c x h = ground arith

module _ (z : Lz4) (probe : Buffer) (compressed : Bool) where
  abbrev outgoing : ClientTransport → List ℕ → GamePacket
  outgoing a p = new_game_packet a.local_ip (vip_at p 16) PType.data_type p

  packet_send-sealed :
      (a : ClientTransport) (now : ℕ) (p : List ℕ) (s : NoiseSession)
      → 20 ≤ length p
      → is_dns a p ≡ false
      → eqb (get_or p 19 0) 255 ≡ false
      → get_session a.noise_mgr (vip_at p 16) ≡ some s
      → is_ready s.cipher ≡ true
      → packet_send z probe compressed a now p
        ≡ seal_with z probe compressed a now (vip_at p 16) p s
  unfolding packet_send send_sealed
  packet_send-sealed a now p s long d u e ready =
      let big : ltb (length p) 20 ≡ false = ground arith in
      rw (big, d, u, e, packet_send, send_sealed, ready)

  -- What the sender's session is after a packet.
  abbrev pub after_sending : ℕ → NoiseSession → CipherState → NoiseSession
  after_sending now s cs =
      let c = s.cipher in
      update_last_seen now (record s { cipher = record c { sender = some (advanced cs) } })

  seal_with-Carried :
      (a : ClientTransport) (now : ℕ) (v : Vip) (p : List ℕ) (s : NoiseSession) (cs : CipherState)
      (wire : List ℕ) (gp : GamePacket)
      → s.cipher.sender ≡ some cs
      → encode_packet z probe
          (new_game_packet a.local_ip v PType.data_type p)
          false
          compressed
          (some cs)
        ≡ (some wire, gp, some (advanced cs))
      → seal_with z probe compressed a now v p s
        ≡ write_packet
            (record a { noise_mgr = set_session a.noise_mgr v (after_sending now s cs) })
            v
            wire
  unfolding seal_with
  seal_with-Carried a now v p s cs wire gp has e =
      let g = new_game_packet a.local_ip v PType.data_type p in
      ap
        (λ (x : Option (List ℕ) × GamePacket × Option CipherState).
          let c = s.cipher in
          write_packet
            (record a {
              noise_mgr =
                  set_session a.noise_mgr v
                    (update_last_seen now (record s { cipher = record c { sender = x.2 } }));
            })
            v (bytes_or_nil x.0))
        (ap (encode_packet z probe g false compressed) has ∙ e)

  module _ (lib : NoiseLibrary) where
    packet_recv-opens :
        (b : ClientTransport) (later : ℕ) (random wire : List ℕ) (from : AddrPort) (gp : GamePacket)
        (s : NoiseSession)
        → parse_packet empty_packet wire true none ≡ (gp, none)
        → eqb (clear_flag gp.ptype) 8 ≡ true
        → get_session b.noise_mgr gp.src ≡ some s
        → is_ready s.cipher ≡ true
        → (decrypt_parse z gp s.cipher.recver).1 ≡ none
        → packet_recv lib z probe b later random wire from
          ≡ some (record b {
            noise_mgr = touch b.noise_mgr later gp.src;
            from_net = try_send b.from_net (decrypt_parse z gp s.cipher.recver).0.raw_data;
          })
    unfolding packet_recv receive_packet receive_data
    packet_recv-opens b later random wire from gp s parsed is_data e ready opens =
        ap (receive_packet lib z probe b later random from) parsed
        ∙ rw (is_data, receive_packet)
            (ap (receive_data lib z probe b later from gp)
                (handle_noise_packet-ready lib b.noise_mgr later random gp.src gp.payload s e ready)
              ∙ ap some
                  (accept_data-none b later gp.src (decrypt_parse z gp s.cipher.recver) opens))

    -- A client takes an IPv4 packet of 20 to 65519 bytes from its TUN device, for an address that is
    -- no broadcast, which is no DNS request, and has a ready session with that address; the client
    -- there has a ready session that opens what the first seals, and room in its queue. Then one
    -- datagram goes out, to the peer itself or to the server; when it arrives, whatever it came by, a
    -- frame enters the queue of the other's TUN device, which is the packet behind the header, with
    -- at most 16 bytes behind it. Nothing else is sent. The session of the first is ready for the
    -- next packet, with its counter moved.
    pub packet_recv-packet_send :
        (a b : ClientTransport) (now later n : ℕ) (p random : List ℕ) (from : AddrPort)
        (sa sb : NoiseSession) (cs : CipherState)
        → 20 ≤ length p
        → length p ≤ max_payload_size
        → is_dns a p ≡ false
        → eqb (get_or p 19 0) 255 ≡ false
        → get_session a.noise_mgr (vip_at p 16) ≡ some sa
        → is_ready sa.cipher ≡ true
        → sa.cipher.sender ≡ some cs
        → cs.nonce < 2 ^ 64
        → get_session b.noise_mgr a.local_ip ≡ some sb
        → is_ready sb.cipher ≡ true
        → sb.cipher.recver ≡ some (paired cs n)
        → length b.from_net.items < b.from_net.cap
        → (wire : List ℕ) × (frame : List ℕ) × (b' : ClientTransport) × (sa' : NoiseSession)
          × ((packet_send z probe compressed a now p).data_conn
              ≡ a.data_conn
                ++ (record {
                  body = wire;
                  addr = addr_or a.server_addr (packet_path a (vip_at p 16));
                }
                    ∷ []))
          × (packet_recv lib z probe b later random wire from ≡ some b')
          × (b'.from_net.items ≡ b.from_net.items ++ (frame ∷ []))
          × Framed p frame
          × (b'.data_conn ≡ b.data_conn)
          × (b'.device ≡ b.device)
          × (get_session (packet_send z probe compressed a now p).noise_mgr (vip_at p 16)
              ≡ some sa')
          × (is_ready sa'.cipher ≡ true)
          × (sa'.cipher.sender ≡ some (advanced cs))
    packet_recv-packet_send a b now later n p random from sa sb cs long fits d u ea ready_a has
          fresh eb ready_b opens room =
        let v = vip_at p 16 in
        let way : Carried z probe compressed (outgoing a p) empty_packet cs n =
          encode_packet-Carried z probe compressed (outgoing a p) empty_packet cs n
            (unfold new_game_packet reset in refl) (unfold new_game_packet reset in omega arith)
            (unfold new_game_packet reset in fits) fresh in
        let gp : GamePacket = boxed way.sent empty_packet cs in
        let went : packet_send z probe compressed a now p
            ≡ write_packet
                (record a { noise_mgr = set_session a.noise_mgr v (after_sending now sa cs) }) v
                (sealed_wire way.sent cs) =
          packet_send-sealed a now p sa long d u ea ready_a
          ∙ seal_with-Carried a now v p sa cs (sealed_wire way.sent cs) (sized way.sent) has
              way.encodes in
        let from_a : gp.src ≡ a.local_ip = way.same_src ∙ (unfold new_game_packet reset in refl) in
        let same = ap (decrypt_parse z gp) opens in
        let came =
          packet_recv-opens b later random (sealed_wire way.sent cs) from gp sb way.parses
            (clear_flag-IsDataType _ way.is_data) (ap (get_session b.noise_mgr) from_a ∙ eb) ready_b
            (ap (λ (x : GamePacket × Option Error). x.1) same ∙ way.arrives.0) in
        let frame : List ℕ = (decrypt_parse z gp sb.cipher.recver).0.raw_data in
        (
          sealed_wire way.sent cs,
          frame,
          record b {
            noise_mgr = touch b.noise_mgr later gp.src;
            from_net = try_send b.from_net frame;
          },
          after_sending now sa cs,
          rw went (unfold write_packet write_to_udp packet_path in refl),
          came,
          try_send-room b.from_net frame room,
          subst (λ (x : GamePacket × Option Error). Framed p x.0.raw_data) (sym same)
              (unfold new_game_packet reset in way.framed),
          refl,
          refl,
          rw went (
              unfold write_packet write_to_udp get_session set_session in
              lookup-insert_self v (after_sending now sa cs) a.noise_mgr.sessions),
          unfold update_last_seen is_ready in ready_a,
          unfold update_last_seen in refl,
        )
