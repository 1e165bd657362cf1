-- ===== src/Endpoint/Introducing.antt =====
-- The way to a peer's Noise key: the query of packetSend over the websocket, the handler of the
-- server, and the answer at controlRecv.
use easytun.Base.{
  ℕ, ◌≡◌, ◌≤◌, refl, ap, ◌∙◌, inl, Bool, true, false, List, [], ◌∷◌, ◌++◌, none, some, length,
  get_or, ltb, eqb, arith, length-append, take-append, drop-append, nat_eq,
}
use easytun.Base.Assoc.{lookup}
use easytun.Base.Bytes.{Vip, vip_eq, vip_at}
use easytun.Packet.Header.{max_payload_size}
use easytun.Packet.Compress.{GamePacket, Lz4, Buffer}
use easytun.Packet.Codec.{
  new_game_packet, reset, encode_packet, compress_flag, parse_control, parse_packet, empty_packet,
}
use easytun.Packet.RoundTrip.{
  field_of, received, parse_control-encode, parse_packet-encode, payload_length_field_fits,
}
use easytun.Packet.Wire.{IsWireType}
use easytun.Packet.PType
use easytun.Hub.State.{
  Hub, Client, client_of, try_send, has_room, try_send_control, on_noise_handshake,
}
use easytun.Hub.Joining.{client_of-set_client_self}
use easytun.Hub.Router.{vip_of}
use easytun.Hub.Session.{
  read_frame, after_parse, handle_ws_message, dispatch, run_handler, handle_noise_handshake,
  noise_answer,
}
use easytun.Cipher.{is_ready}
use easytun.Noise.Library.{NoiseLibrary, HandshakeState}
use easytun.Noise.Session.{NoiseSession}
use easytun.Noise.Manager.{get_session, handshake_init}
use easytun.Noise.Steps.{initiated, initiated-fields, handshake_init-session}
use easytun.Endpoint.Transport.{ClientTransport, send_control, write_to_udp}
use easytun.Endpoint.Sending.{packet_send, send_sealed, is_dns}
use easytun.Endpoint.Control.{
  control_send, frame_of, binary, control_recv, obey, read_into, initiate_noise,
}

-- A control packet on its way: what is encoded is read back.
pub control-Carried :
    (z : Lz4) (probe : Buffer) (g h : GamePacket)
    → IsWireType g.ptype
    → length g.payload ≤ max_payload_size
    → (bs : List ℕ) × ((encode_packet z probe g true false none).0 ≡ some bs)
      × (parse_control h bs ≡ (received g h, none))
unfolding encode_packet compress_flag
control-Carried z probe g h t fits =
    let (bs, wrote, read) = parse_control-encode g h true t fits in
    (bs, rw (payload_length_field_fits _ fits, encode_packet, wrote), read)

pub packet-Carried :
    (z : Lz4) (probe : Buffer) (g h : GamePacket) (control : Bool)
    → IsWireType g.ptype
    → length g.payload ≤ max_payload_size
    → (bs : List ℕ) × ((encode_packet z probe g control false none).0 ≡ some bs)
      × (parse_packet h bs true none ≡ (record (received g h) { raw_data = bs }, none))
unfolding encode_packet compress_flag
packet-Carried z probe g h control t fits =
    let (bs, wrote, read) = parse_packet-encode g h control true t fits in
    (bs, rw (payload_length_field_fits _ fits, encode_packet, wrote), read)

module _ (z : Lz4) (probe : Buffer) (compressed : Bool) (lib : NoiseLibrary) where
  abbrev pub query_for : ClientTransport → List ℕ → GamePacket
  query_for a p = new_game_packet a.local_ip (vip_at p 16) PType.noise_handshake p

  pub packet_send-query :
      (a : ClientTransport) (now : ℕ) (p : List ℕ)
      → 20 ≤ length p
      → is_dns a p ≡ false
      → eqb (get_or p 19 0) 255 ≡ false
      → get_session a.noise_mgr (vip_at p 16) ≡ none
      → packet_send z probe compressed a now p ≡ send_control a (query_for a p)
  unfolding packet_send send_sealed
  packet_send-query a now p long d u e =
      let big : ltb (length p) 20 ≡ false = ground arith in
      rw (big, d, u, e, packet_send, send_sealed)

  abbrev answer_of : Hub → ℕ → ℕ → Vip → List ℕ → GamePacket
  answer_of h c d dst payload =
      new_game_packet dst (vip_of h c) PType.noise_response
        ((client_of h d).noise_public_key ++ payload)

  abbrev pub message : Vip → Vip → ℕ → List ℕ → ℕ → GamePacket
  message src dst ptype payload len = record {
    src = src;
    dst = dst;
    ptype = ptype;
    payload = payload;
    raw_data = [];
    len = len;
  }

  read_frame-query :
      (h : Hub) (c d len : ℕ) (v src dst : Vip) (bs payload : List ℕ)
      → parse_control empty_packet bs ≡ (message src dst 2 payload len, none)
      → (client_of h c).virtual_ip ≡ some v
      → lookup PType.noise_handshake h.ws_handlers ≡ some on_noise_handshake
      → lookup dst h.router.client_map ≡ some d
      → read_frame h c bs ≡ (try_send_control h c (answer_of h c d dst payload), true)
  unfolding read_frame handle_ws_message dispatch run_handler handle_noise_handshake noise_answer
  read_frame-query h c d len v src dst bs payload parsed joined handler routed =
      ap (after_parse h c) parsed ∙ rw (joined, handler, dispatch, routed, noise_answer, joined)

  obey-answer :
      (t : ClientTransport) (now len : ℕ) (random key p : List ℕ) (src dst : Vip)
      → length key ≡ 32
      → obey lib z probe t now random (message src dst 3 (key ++ p) len, none)
        ≡ initiate_noise lib z probe t now random src key p
  unfolding obey
  obey-answer t now len random key p src dst n =
      let long : ltb (length (key ++ p)) 32 ≡ false = ground (arith, length-append key p) in
      rw (long, take-append 32 key p n, drop-append 32 key p n)

  -- What a client has after it wrote the first message `first` of a handshake to `dst`, for the packet
  -- `p`: a session of an initiator that is not ready, with this state of the handshake and the packet as
  -- the one that waits, and one more datagram on its socket, to the server, in which ParsePacket finds
  -- the message, from the client to `dst`.
  abbrev pub HasStarted :
      ClientTransport → Vip → HandshakeState → List ℕ → List ℕ → ClientTransport → Type 0
  HasStarted t dst hs first p t' =
      (s : NoiseSession) × (datagram : List ℕ) × (get_session t'.noise_mgr dst ≡ some s)
      × (s.is_initiator ≡ true)
      × (is_ready s.cipher ≡ false)
      × (s.hs ≡ some hs)
      × (s.pending_chan.items ≡ p ∷ [])
      × (t'.data_conn ≡ t.data_conn ++ (record { body = datagram; addr = t.server_addr } ∷ []))
      × (parse_packet empty_packet datagram true none ≡ (
        record (message t.local_ip dst PType.data_type first (field_of (length first))) {
          raw_data = datagram;
        },
        none,
      ))

  initiate_noise-HasStarted :
      (t : ClientTransport) (now : ℕ) (random : List ℕ) (dst : Vip) (key p first : List ℕ)
      → (lib.write_first (lib.new_initiator t.noise_mgr.static_priv key) random).1 ≡ some first
      → HasStarted t dst
          (lib.write_first (lib.new_initiator t.noise_mgr.static_priv key) random).0
          first
          p
          (initiate_noise lib z probe t now random dst key p)
  unfolding new_game_packet reset initiate_noise
  initiate_noise-HasStarted t now random dst key p first e =
      let m = t.noise_mgr in
      let (idle, starts, has, waits, fresh) = initiated-fields lib m now random dst key p in
      let size : length first ≡ 96 =
        lib.length-write_first (lib.new_initiator m.static_priv key) random first e in
      let (datagram, wrote, read) =
        packet-Carried z probe (new_game_packet t.local_ip dst PType.data_type first) empty_packet
          true (inl (omega arith)) (omega (arith, size)) in
      let written : (handshake_init lib m now random dst key p).1 ≡ some first =
        unfold handshake_init in e in
      let sent : initiate_noise lib z probe t now random dst key p
          ≡ write_to_udp (record t { noise_mgr = (handshake_init lib m now random dst key p).0 })
              datagram t.server_addr =
        rw (written, initiate_noise, wrote) refl in
      rw sent (
        initiated lib m now random dst key p,
        datagram,
        unfold write_to_udp in handshake_init-session lib m now random dst key p,
        starts,
        idle,
        has,
        waits,
        unfold write_to_udp in refl,
        read,
      )

  -- Reading a message leaves what a handshake is about.
  read_into-HasStarted :
      (a b : ClientTransport) (reused : Bool) (bytes first p : List ℕ) (dst : Vip)
      (hs : HandshakeState)
      → HasStarted (read_into a reused bytes) dst hs first p b
      → HasStarted a dst hs first p b
  unfolding read_into
  read_into-HasStarted a b true bytes first p dst hs h = h
  read_into-HasStarted a b false bytes first p dst hs h = h

  read_into-noise_mgr :
      (a : ClientTransport) (reused : Bool) (bytes : List ℕ)
      → (read_into a reused bytes).noise_mgr ≡ a.noise_mgr
  unfolding read_into
  read_into-noise_mgr a true bytes = refl
  read_into-noise_mgr a false bytes = refl

  try_send_control-items :
      (h : Hub) (c : ℕ) (gp : GamePacket)
      → has_room (client_of h c).control_chan ≡ true
      → (client_of (try_send_control h c gp) c).control_chan.items
        ≡ (client_of h c).control_chan.items ++ (gp ∷ [])
  unfolding try_send_control try_send
  try_send_control-items h c gp space =
      ap (λ (k : Client). k.control_chan.items) (client_of-set_client_self h c _) ∙ rw space refl

  -- A client takes an IPv4 packet of 20 to 65487 bytes from its TUN device, for an address with
  -- which it has no session, not a broadcast and no DNS request, and its control queue is empty.
  -- The oldest message of the queue is then a query; the server, where the client is known and the
  -- address leads to a client with a key of 32 bytes, and where the client's queue has room, puts an
  -- answer at the end of that queue and reads on. Encoded and received, in whichever array, the
  -- answer makes the client start a handshake with that key, if the library writes a first message:
  -- the client then has a session with that address, of an initiator and not ready, with the state of
  -- that handshake and the packet as the only one that waits; and one datagram more went out, to the
  -- server, which ParsePacket reads as a TypeData packet from the client to that address with the
  -- first message in it.
  pub control_recv-packet_send :
      (a : ClientTransport) (h : Hub) (c d now later : ℕ) (p random : List ℕ) (first : List ℕ)
      (v : Vip) (reused : Bool)
      → 20 ≤ length p
      → length p ≤ 65487
      → is_dns a p ≡ false
      → eqb (get_or p 19 0) 255 ≡ false
      → get_session a.noise_mgr (vip_at p 16) ≡ none
      → a.control_send_chan.items ≡ []
      → (client_of h c).virtual_ip ≡ some v
      → lookup PType.noise_handshake h.ws_handlers ≡ some on_noise_handshake
      → lookup (vip_at p 16) h.router.client_map ≡ some d
      → length (client_of h d).noise_public_key ≡ 32
      → has_room (client_of h c).control_chan ≡ true
      → (lib.write_first
          (lib.new_initiator a.noise_mgr.static_priv (client_of h d).noise_public_key)
          random).1
        ≡ some first
      → (query : List ℕ) × (reply : GamePacket) × (bytes : List ℕ) × (control_send lib z probe
            (packet_send z probe compressed a now p)
          ≡ some (binary query, a))
        × (read_frame h c query ≡ (try_send_control h c reply, true))
        × ((client_of (try_send_control h c reply) c).control_chan.items
            ≡ (client_of h c).control_chan.items ++ (reply ∷ []))
        × ((encode_packet z probe reply true false none).0 ≡ some bytes)
        × HasStarted a
            (vip_at p 16)
            (lib.write_first
              (lib.new_initiator a.noise_mgr.static_priv (client_of h d).noise_public_key)
              random).0
            first
            p
            (control_recv lib z probe a later random reused bytes)
  unfolding new_game_packet reset control_send frame_of send_control control_recv
  control_recv-packet_send a h c d now later p random first v reused long fits b u fresh idle joined
        handler routed n space e =
      let key = (client_of h d).noise_public_key in
      let dst = vip_at p 16 in
      let reply : GamePacket = answer_of h c d dst p in
      let (query, wrote, read) =
        control-Carried z probe (query_for a p) empty_packet (inl (omega arith))
          (omega (arith, fits)) in
      let (bytes, wrote', read') =
        control-Carried z probe reply empty_packet (inl (omega arith))
          (omega (arith, fits, n, length-append key p)) in
      let a' = read_into a reused bytes in
      let obeyed : control_recv lib z probe a later random reused bytes
          ≡ initiate_noise lib z probe a' later random dst key p =
        ap (obey lib z probe a' later random) read'
        ∙ obey-answer a' later (field_of (length (key ++ p))) random key p dst (vip_of h c) n in
      let same : a'.noise_mgr ≡ a.noise_mgr = read_into-noise_mgr a reused bytes in
      let started = initiate_noise-HasStarted a' later random dst key p first (rw same e) in
      (
        query,
        reply,
        bytes,
        rw (packet_send-query a now p long b u fresh, idle, wrote) refl,
        read_frame-query h c d (field_of (length p)) v a.local_ip dst query p read joined handler
            routed,
        try_send_control-items h c reply space,
        wrote',
        rw obeyed (
            read_into-HasStarted a (initiate_noise lib z probe a' later random dst key p) reused
              bytes first p dst
              (lib.write_first (lib.new_initiator a.noise_mgr.static_priv key) random).0
              (rw (same) at started)),
      )
