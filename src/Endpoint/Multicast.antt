-- ===== src/Endpoint/Multicast.antt =====
-- A packet for a multicast group: the test of the TUN device, packetSend, and the query that it
-- makes at the server.
use easytun.Base.{
  ℕ, ◌/◌, ◌≡◌, ◌≤◌, refl, ap, ◌∙◌, inl, inr, Bool, true, false, List, [], none, some, length,
  get_or, ltb, eqb, arith, ◌==◌, nat_eq, Bool-cases,
}
use easytun.Base.Assoc.{lookup}
use easytun.Base.Bytes.{Vip, vip_eq, vip_at}
use easytun.Packet.Compress.{GamePacket, Lz4, Buffer}
use easytun.Packet.Codec.{new_game_packet, reset, parse_control, empty_packet}
use easytun.Packet.RoundTrip.{field_of}
use easytun.Packet.PType
use easytun.Hub.State.{Hub, client_of, on_noise_handshake}
use easytun.Hub.Session.{
  read_frame, after_parse, handle_ws_message, dispatch, run_handler, handle_noise_handshake,
  noise_answer,
}
use easytun.Hub.Transfer.{is_multicast}
use easytun.Noise.Library.{NoiseLibrary}
use easytun.Noise.Manager.{get_session}
use easytun.Endpoint.Transport.{ClientTransport, send_control}
use easytun.Endpoint.Sending.{packet_send, is_dns}
use easytun.Endpoint.Control.{control_send, frame_of, binary}
use easytun.Endpoint.Device.{tun_accepts, is_wanted, broadcast_ip}
use easytun.Endpoint.Introducing.{control-Carried, packet_send-query, query_for, message}

tun_accepts-group :
    (ip : Vip) (p : List ℕ)
    → 20 ≤ length p
    → eqb (get_or p 0 0 / 16) 4 ≡ true
    → is_multicast (vip_at p 16) ≡ true
    → tun_accepts ip p ≡ true
unfolding tun_accepts is_wanted
tun_accepts-group ip p long four group =
    let big : ltb (length p) 20 ≡ false = ground arith in
    rw (big, four, group)
      (elim (Bool-cases (vip_at p 16 == broadcast_ip)) [
        | inl e ↦ rw e refl
        | inr e ↦ elim (Bool-cases (eqb (get_or p 19 0) 255)) [
          | inl f ↦ rw (e, f) refl
          | inr f ↦ rw (e, f) refl
        ]
      ])

module _ (z : Lz4) (probe : Buffer) (compressed : Bool) (lib : NoiseLibrary) where
  read_frame-unrouted :
      (h : Hub) (c len : ℕ) (v src dst : Vip) (bs payload : List ℕ)
      → parse_control empty_packet bs ≡ (message z probe compressed lib src dst 2 payload len, none)
      → (client_of h c).virtual_ip ≡ some v
      → lookup PType.noise_handshake h.ws_handlers ≡ some on_noise_handshake
      → lookup dst h.router.client_map ≡ none
      → read_frame h c bs ≡ (h, true)
  unfolding read_frame handle_ws_message dispatch run_handler handle_noise_handshake noise_answer
  read_frame-unrouted h c len v src dst bs payload parsed joined handler unrouted =
      ap (after_parse h c) parsed ∙ rw (joined, handler, dispatch, unrouted, noise_answer) refl

  -- An IPv4 packet of 20 to 65487 bytes for a multicast group, no DNS request, at a client with an
  -- empty control queue and no session with the group's address, which does not end in 255. The TUN
  -- device accepts the packet, but nothing is sent over UDP: the client asks for the group's key,
  -- and the server, where the client is known and no client has the group's address, does nothing.
  pub packet_send-group :
      (a : ClientTransport) (h : Hub) (c now : ℕ) (p : List ℕ) (v : Vip)
      → 20 ≤ length p
      → length p ≤ 65487
      → eqb (get_or p 0 0 / 16) 4 ≡ true
      → is_multicast (vip_at p 16) ≡ true
      → is_dns a p ≡ false
      → eqb (get_or p 19 0) 255 ≡ false
      → get_session a.noise_mgr (vip_at p 16) ≡ none
      → a.control_send_chan.items ≡ []
      → (client_of h c).virtual_ip ≡ some v
      → lookup PType.noise_handshake h.ws_handlers ≡ some on_noise_handshake
      → lookup (vip_at p 16) h.router.client_map ≡ none
      → (query : List ℕ) × (tun_accepts a.local_ip p ≡ true)
        × ((packet_send z probe compressed a now p).data_conn ≡ a.data_conn)
        × (control_send lib z probe (packet_send z probe compressed a now p)
            ≡ some (binary query, a))
        × (read_frame h c query ≡ (h, true))
  unfolding new_game_packet reset control_send frame_of send_control
  packet_send-group a h c now p v long fits four group d u fresh idle joined handler unrouted =
      let gp : GamePacket = query_for z probe compressed lib a p in
      let (query, wrote, read) =
        control-Carried z probe gp empty_packet (inl (omega arith)) (omega (arith, fits)) in
      let asks = packet_send-query z probe compressed lib a now p long d u fresh in
      (
        query,
        tun_accepts-group a.local_ip p long four group,
        rw asks refl,
        rw (asks, idle, wrote) refl,
        read_frame-unrouted h c (field_of (length p)) v a.local_ip (vip_at p 16) query p read joined
            handler unrouted,
      )
