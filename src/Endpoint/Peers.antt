-- ===== src/Endpoint/Peers.antt =====
-- The peers that a client talks to directly: P2PStatus of internal/stun/client.go, addP2P and
-- removeP2P of internal/transport/client_p2p.go, and what client_udp.go does with them. A write
-- through the pointer of a status is a write to the map's entry.
use easytun.Base.{
  ℕ, ◌-◌, ◌≡◌, ◌∙◌, inl, inr, Bool, true, false, List, [], Option, none, some, ltb, if◌then◌else◌,
  Bool-cases, ◌==◌,
}
use easytun.Base.Assoc.{lookup, insert, delete, lookup-insert, lookup-insert_self, lookup-delete}
use easytun.Base.Bytes.{Vip, vip_eq}
use easytun.Packet.Codec.{new_game_packet}
use easytun.Packet.PType
use easytun.Hub.State.{AddrPort, try_send}
use easytun.Endpoint.Transport.{ClientTransport, P2pStatus, UdpAddr, own, get_dst_addr}

unfoldable pub set_dst_addr : AddrPort → P2pStatus → P2pStatus
set_dst_addr addr s = record s { dst_addr = own addr }

unfoldable pub update_last_seen : ℕ → Bool → P2pStatus → P2pStatus
update_last_seen now established s = record s { last_seen = now; established = established }

-- A clock that went back gives a difference that is not above the timeout.
unfoldable pub is_timeout : ℕ → ℕ → P2pStatus → Bool
is_timeout now timeout s = ltb timeout (now - s.last_seen)

unfoldable pub add_p2p : ClientTransport → ℕ → Vip → UdpAddr → ℕ → ClientTransport
add_p2p t now v addr nat_type = record t {
  p2p_router =
      insert v
        (record { dst_nat_type = nat_type; dst_addr = addr; last_seen = now; established = false })
        t.p2p_router;
}

unfoldable pub notify : ClientTransport → Vip → ℕ → ClientTransport
notify t v ptype = record t {
  control_send_chan = try_send t.control_send_chan (new_game_packet t.local_ip v ptype []);
}

unfoldable pub remove_p2p : ClientTransport → Vip → ClientTransport
unfolding notify
remove_p2p t v = notify (record t { p2p_router = delete v t.p2p_router }) v PType.p2p_closed

-- TypePing of packetRecv, without the answer to the sender
unfoldable pub on_ping : ClientTransport → Vip → AddrPort → ClientTransport
on_ping t v addr = elim (lookup v t.p2p_router) [
  | none ↦ t
  | some s ↦ record t { p2p_router = insert v (set_dst_addr addr s) t.p2p_router }
]

-- TypePong of packetRecv
unfoldable pub on_pong : ClientTransport → ℕ → Vip → AddrPort → ClientTransport
unfolding notify
on_pong t now v addr = elim (lookup v t.p2p_router) [
  | none ↦ t
  | some s ↦
      let s' = update_last_seen now true (set_dst_addr addr s) in
      notify (record t { p2p_router = insert v s' t.p2p_router }) v PType.p2p_established
]

-- Where packetSend writes a packet: to a peer, or `none` to the server.
unfoldable pub path_of : (ℕ → List ℕ) → Option P2pStatus → Option AddrPort
path_of arrays none = none
path_of arrays (some s) = if s.established then some (get_dst_addr arrays s) else none

unfoldable pub packet_path : ClientTransport → Vip → Option AddrPort
unfolding path_of get_dst_addr
packet_path t v = path_of t.arrays (lookup v t.p2p_router)

add_p2p-path :
    (t : ClientTransport) (now nat : ℕ) (v w : Vip) (addr : UdpAddr)
    → packet_path (add_p2p t now v addr nat) w ≡ (if v == w then none else packet_path t w)
unfolding packet_path add_p2p
add_p2p-path t now nat v w addr =
    rw (lookup-insert v w _ t.p2p_router)
      (elim (Bool-cases (v == w)) [ inl e ↦ rw (e, path_of) | inr e ↦ rw (e, path_of) ])

remove_p2p-path :
    (t : ClientTransport) (v w : Vip)
    → packet_path (remove_p2p t v) w ≡ (if v == w then none else packet_path t w)
unfolding packet_path remove_p2p
remove_p2p-path t v w =
    rw (lookup-delete v w t.p2p_router)
      (elim (Bool-cases (v == w)) [ inl e ↦ rw (e, path_of) | inr e ↦ rw (e, path_of) ])

on_pong-path :
    (t : ClientTransport) (now : ℕ) (v w : Vip) (addr : AddrPort) (s : P2pStatus)
    → lookup v t.p2p_router ≡ some s
    → packet_path (on_pong t now v addr) w ≡ (if v == w then some addr else packet_path t w)
unfolding packet_path on_pong update_last_seen set_dst_addr notify get_dst_addr
on_pong-path t now v w addr s e =
    rw (e, on_pong)
      (rw (lookup-insert v w _ t.p2p_router)
        (elim (Bool-cases (v == w)) [ inl q ↦ rw (q, path_of) | inr q ↦ rw (q, path_of) ]))

-- A peer through addP2P, its first pong and removeP2P. Packets to it go to the server, then to the
-- address that the pong came from, then to the server again; the path to every other peer is what
-- it was before, all the time.
pub packet_path-lifecycle :
    (t : ClientTransport) (now later nat : ℕ) (v w : Vip) (addr : UdpAddr) (seen : AddrPort)
    → (packet_path (add_p2p t now v addr nat) w ≡ (if v == w then none else packet_path t w))
      × (packet_path (on_pong (add_p2p t now v addr nat) later v seen) w
          ≡ (if v == w then some seen else packet_path t w))
      × (packet_path (remove_p2p (on_pong (add_p2p t now v addr nat) later v seen) v) w
          ≡ (if v == w then none else packet_path t w))
packet_path-lifecycle t now later nat v w addr seen =
    let t1 : ClientTransport = add_p2p t now v addr nat in
    let fresh : P2pStatus = record {
      dst_nat_type = nat;
      dst_addr = addr;
      last_seen = now;
      established = false;
    } in
    let known : lookup v t1.p2p_router ≡ some fresh =
      unfold add_p2p in lookup-insert_self v fresh t.p2p_router in
    let added = add_p2p-path t now nat v w addr in
    let met = on_pong-path t1 later v w seen fresh known in
    let gone = remove_p2p-path (on_pong t1 later v seen) v w in
    elim (Bool-cases (v == w)) [
      | inl e ↦ (added, met ∙ rw e, gone ∙ rw e)
      | inr e ↦ (added, met ∙ rw e (added ∙ rw e), gone ∙ rw e (met ∙ rw e (added ∙ rw e)))
    ]
