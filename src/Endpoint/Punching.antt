-- ===== src/Endpoint/Punching.antt =====
-- handleP2P and punch of internal/transport/client_p2p.go: one tick. A write to a port outside 0 to
-- 65535 is an error, every other goes out; the snapshot is gone through in the order of the list.
use easytun.Base.{ℕ, zero, suc, ◌+◌, ◌-◌, true, ◌||◌, List, [], ◌∷◌, none, ltb, eqb, if◌then◌else◌}
use easytun.Base.Assoc.{Assoc}
use easytun.Base.Bytes.{Vip, zero_vip}
use easytun.Packet.Codec.{new_game_packet, encode_packet_with_buffer}
use easytun.Packet.PType
use easytun.Hub.State.{AddrPort}
use easytun.Hub.P2p.{type_cone, type_symmetric}
use easytun.Hub.Udp.{bytes_or_nil}
use easytun.Endpoint.Transport.{ClientTransport, P2pStatus, get_dst_addr, write_to_udp}
use easytun.Endpoint.Peers.{is_timeout, remove_p2p}

-- The ports that the loop from -100 to 199 reaches, with `n` rounds to go and `i` counted from 0.
unfoldable pub punch_ports : ℕ → ℕ → ℕ → List ℕ
punch_ports zero i port = []
punch_ports (suc n) i port =
    let rest = punch_ports n (i + 1) port in
    if ltb (port + i) 100 || ltb 65535 (port + i - 100) then [] else (port + i - 100) ∷ rest

unfoldable pub write_ports : ClientTransport → List ℕ → AddrPort → List ℕ → ClientTransport
unfolding write_to_udp
write_ports t bytes addr [] = t
write_ports t bytes addr (port ∷ ports) =
    write_ports (write_to_udp t bytes (record addr { port = port })) bytes addr ports

unfoldable pub punch : ClientTransport → List ℕ → P2pStatus → ClientTransport
unfolding write_ports
punch t bytes s =
    let addr = get_dst_addr t.arrays s in
    if eqb s.dst_nat_type type_cone
    then write_to_udp t bytes addr
    else if eqb s.dst_nat_type type_symmetric
    then write_ports t bytes addr (punch_ports 300 0 addr.port)
    else t

abbrev pub ping_data : Vip → List ℕ
ping_data local_ip =
    bytes_or_nil
      (encode_packet_with_buffer (new_game_packet local_ip zero_vip PType.ping []) [] true none).0

unfoldable pub visit : ClientTransport → ℕ → Vip → P2pStatus → ClientTransport
unfolding punch write_to_udp
visit t now v s =
    if is_timeout now 10 s
    then remove_p2p t v
    else if s.established
    then write_to_udp t (ping_data t.local_ip) (get_dst_addr t.arrays s)
    else punch t (ping_data t.local_ip) s

unfoldable pub visit_all : ClientTransport → ℕ → Assoc Vip P2pStatus → ClientTransport
unfolding visit
visit_all t now [] = t
visit_all t now ((v, s) ∷ snapshot) = visit_all (visit t now v s) now snapshot

unfoldable pub handle_p2p : ClientTransport → ℕ → ClientTransport
unfolding visit_all
handle_p2p t now = visit_all t now t.p2p_router
