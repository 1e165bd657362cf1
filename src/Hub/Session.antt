-- ===== src/Hub/Session.antt =====
-- internal/transport/server_ws.go: the control messages of a client, from its handshake until its
-- connection ends. A handler returns the new state and Go's error.
use easytun.Base.{
  ℕ, Bool, true, false, not, ◌&&◌, List, ◌++◌, Option, none, some, length, drop, slice, get_or, ltb,
  eqb, if◌then◌else◌, bytes_eq, nat_eq,
}
use easytun.Base.Assoc.{lookup, insert, delete}
use easytun.Base.Bytes.{Vip, vip_eq, zero_vip}
use easytun.Errors.{Error, packet_too_short, no_virtual_ip}
use easytun.Packet.Codec.{new_game_packet, parse_control, empty_packet}
use easytun.Packet.Compress.{GamePacket}
use easytun.Packet.PType
use easytun.Tunnel.Manager.{
  P2pTunnel, TunnelManager, exist, add_tunnel, update_tunnel, change_status, add_retry_times,
  tunnel_init, tunnel_connected, tunnel_failed,
}
use easytun.Hub.State.{
  Hub, OfflineClient, WsHandler, on_handshake, on_noise_handshake, on_p2p_established,
  on_p2p_closed, client_of, set_client, try_send_control,
}
use easytun.Hub.Names.{unique_host_name}
use easytun.Hub.Pool.{get_ip}
use easytun.Hub.Records.{add_dns}
use easytun.Hub.Router.{vip_of, add_client, remove_client}

abbrev pub name_or : List ℕ → Option (List ℕ) → List ℕ
name_or hostname none = hostname
name_or hostname (some name) = name

-- The client takes over the address and name that are kept for its ID.
unfoldable pub restore_client : Hub → ℕ → OfflineClient → Hub
restore_client h c oc =
    let k = client_of h c in
    let h1 =
      set_client h c (record k { virtual_ip = some oc.virtual_ip; hostname = oc.hostname }) in
    record h1 { retention_map = delete k.client_id h1.retention_map }

-- A client that is new gets a free address and a name that is not in use; the loop of
-- UniqueHostName always ends with one.
unfoldable pub admit_client : Hub → ℕ → List ℕ → Hub
admit_client h c wanted =
    let (vip, h1) = get_ip h in
    let k = client_of h1 c in
    set_client h1 c (record k {
      virtual_ip = vip;
      hostname = name_or wanted (unique_host_name wanted h1.dns_map);
    })

unfoldable pub identify_with : Hub → ℕ → List ℕ → Option OfflineClient → Hub
identify_with h c wanted none = admit_client h c wanted
identify_with h c wanted (some oc) = restore_client h c oc

unfoldable pub identify : Hub → ℕ → List ℕ → Hub
unfolding identify_with
identify h c wanted = identify_with h c wanted (lookup (client_of h c).client_id h.retention_map)

-- Routing, name and answer, once the client has an address.
unfoldable pub publish_with : Hub → ℕ → Option Vip → Hub × Option Error
publish_with h c none = (h, some no_virtual_ip)
publish_with h c (some vip) =
    let name = (client_of h c).hostname in
    let h1 = add_dns (add_client h c) name vip in
    (try_send_control h1 c (new_game_packet zero_vip vip PType.handshake name), none)

unfoldable pub publish : Hub → ℕ → Hub × Option Error
unfolding publish_with
publish h c = publish_with h c (client_of h c).virtual_ip

-- The fields of the payload: NAT type, Noise key, client ID.
unfoldable pub introduce : Hub → ℕ → List ℕ → Hub
introduce h c payload =
    let k = client_of h c in
    set_client h c (record k {
      nat_type = get_or payload 0 0;
      noise_public_key = slice 1 33 payload;
      client_id = slice 33 49 payload;
    })

unfoldable pub handle_handshake : Hub → ℕ → GamePacket → Hub × Option Error
unfolding introduce identify publish
handle_handshake h c gp =
    if ltb (length gp.payload) 49
    then (h, some packet_too_short)
    else publish (identify (introduce h c gp.payload) c (drop 49 gp.payload)) c

unfoldable pub noise_answer : Hub → ℕ → GamePacket → Option ℕ → Hub
noise_answer h c gp none = h
noise_answer h c gp (some d) = try_send_control h c (
    new_game_packet gp.dst (vip_of h c) PType.noise_response
      ((client_of h d).noise_public_key ++ gp.payload))

unfoldable pub handle_noise_handshake : Hub → ℕ → GamePacket → Hub × Option Error
unfolding noise_answer
handle_noise_handshake h c gp = (noise_answer h c gp (lookup gp.dst h.router.client_map), none)

unfoldable pub establish : TunnelManager → Vip → Vip → Option P2pTunnel → TunnelManager
establish tm a b none = add_tunnel tm a b tunnel_connected
establish tm a b (some t) =
    if eqb t.status tunnel_init then update_tunnel tm a b (change_status tunnel_connected) else tm

unfoldable pub handle_p2p_established : Hub → ℕ → GamePacket → Hub × Option Error
unfolding establish
handle_p2p_established h c gp =
    (record h { tm = establish h.tm (vip_of h c) gp.dst (exist h.tm (vip_of h c) gp.dst) }, none)

unfoldable pub close_tunnel : P2pTunnel → P2pTunnel
close_tunnel t = add_retry_times (change_status tunnel_failed t)

unfoldable pub handle_p2p_closed : Hub → ℕ → GamePacket → Hub × Option Error
unfolding close_tunnel
handle_p2p_closed h c gp =
    (record h { tm = update_tunnel h.tm (vip_of h c) gp.dst close_tunnel }, none)

unfoldable pub run_handler : WsHandler → Hub → ℕ → GamePacket → Hub × Option Error
run_handler on_handshake = handle_handshake
run_handler on_noise_handshake = handle_noise_handshake
run_handler on_p2p_established = handle_p2p_established
run_handler on_p2p_closed = handle_p2p_closed

unfoldable pub dispatch : Option WsHandler → Hub → ℕ → GamePacket → Hub × Option Error
dispatch none h c gp = (h, none)
dispatch (some handler) h c gp = run_handler handler h c gp

unfoldable pub handle_ws_message : Hub → ℕ → GamePacket → Hub × Option Error
unfolding dispatch run_handler
handle_ws_message h c gp = dispatch (lookup gp.ptype h.ws_handlers) h c gp

abbrev pub is_nil : Option Vip → Bool
is_nil none = true
is_nil (some v) = false

-- What readPump does with the message of a frame; the flag tells it to go on reading.
abbrev pub after_handler : GamePacket → Hub × Option Error → Hub × Bool
after_handler gp (h, none) = (h, true)
after_handler gp (h, some e) = (h, not (eqb gp.ptype PType.handshake))

abbrev pub after_parse : Hub → ℕ → GamePacket × Option Error → Hub × Bool
after_parse h c (gp, some e) = (h, true)
after_parse h c (gp, none) =
    if not (eqb gp.ptype PType.handshake) && is_nil (client_of h c).virtual_ip
    then (h, true)
    else after_handler gp (handle_ws_message h c gp)

unfoldable pub read_frame : Hub → ℕ → List ℕ → Hub × Bool
read_frame h c bytes = after_parse h c (parse_control empty_packet bytes)

-- The end of serverWS in its two critical sections: first the client's address and name are kept
-- under its ID, then its route goes.
unfoldable pub retain_with : Hub → ℕ → ℕ → Option Vip → Hub
retain_with h c deadline none = h
retain_with h c deadline (some vip) =
    let k = client_of h c in
    record h {
      retention_map =
          insert k.client_id (record { virtual_ip = vip; hostname = k.hostname; expiry = deadline })
            h.retention_map;
    }

unfoldable pub retain_client : Hub → ℕ → ℕ → Hub
unfolding retain_with
retain_client h c deadline = retain_with h c deadline (client_of h c).virtual_ip

-- A client without an address has nothing to take down.
unfoldable pub disconnect : Hub → ℕ → ℕ → Hub
disconnect h c deadline =
    if is_nil (client_of h c).virtual_ip then h else remove_client (retain_client h c deadline) c
