-- ===== src/Hub/P2p.antt =====
-- internal/transport/server_p2p.go, the NAT types of internal/stun/p2p.go, and
-- UDPAddrPortToBytes of internal/util/ipTransform.go.
use easytun.Base.{
  ℕ, Bool, true, false, List, [], ◌∷◌, ◌++◌, Option, none, some, leb, ltb, eqb, ◌||◌, ◌&&◌,
  if◌then◌else◌,
}
use easytun.Base.Assoc.{lookup}
use easytun.Base.Bytes.{Vip, vip_eq, vip_bytes, be16}
use easytun.Packet.Codec.{new_game_packet}
use easytun.Packet.PType
use easytun.Tunnel.Manager.{
  P2pTunnel, TunnelManager, exist, add_tunnel, update_tunnel, change_status, add_retry_times,
  tunnel_init, tunnel_failed,
}
use easytun.Hub.State.{Hub, Client, AddrPort, P2pTask, client_of, try_send, try_send_control}

-- TypeBlock, TypeUnknown, TypeCone, TypeSymmetric
abbrev pub type_block : ℕ
type_block = 1

abbrev pub type_unknown : ℕ
type_unknown = 2

abbrev pub type_cone : ℕ
type_cone = 3

abbrev pub type_symmetric : ℕ
type_symmetric = 4

-- A tunnel that failed gets another try, up to the sixth.
unfoldable pub retry_tunnel : TunnelManager → Vip → Vip → P2pTunnel → Bool × TunnelManager
retry_tunnel tm src dst t =
    if eqb t.status tunnel_failed && ltb t.retry_times 6
    then (true, update_tunnel tm src dst (change_status tunnel_init))
    else (false, tm)

unfoldable pub if_establish : TunnelManager → Vip → Vip → ℕ → ℕ → Bool × TunnelManager
unfolding retry_tunnel
if_establish tm src dst src_nat dst_nat =
    if leb src_nat type_unknown || leb dst_nat type_unknown
    then (false, tm)
    else elim (exist tm src dst) [
      | none ↦ (true, add_tunnel tm src dst tunnel_init)
      | some t ↦ retry_tunnel tm src dst t
    ]

unfoldable pub new_p2p_task : Hub → Vip → Vip → Option AddrPort → Option AddrPort → Hub
new_p2p_task h src_vip dst_vip src_addr dst_addr = record h {
  p2p_task_chan =
      try_send h.p2p_task_chan
        (record { dst_vip = dst_vip; dst_addr = dst_addr; src_vip = src_vip; src_addr = src_addr });
}

-- `none` is a panic: netip's As4 takes neither the zero address nor one of IPv6 that has no IPv4 address in
-- it.
unfoldable pub udp_addr_port_to_bytes : Option AddrPort → ℕ → Option (List ℕ)
udp_addr_port_to_bytes none nat = none
udp_addr_port_to_bytes (some a) nat = elim a.ip6 [
  | some bytes ↦ none
  | none ↦ some (vip_bytes a.ip ++ (be16 a.port ++ (nat ∷ [])))
]

-- Send `to` a command with the address and NAT type of the client at `peer`.
unfoldable pub send_command : Hub → ℕ → Vip → Vip → Option AddrPort → ℕ → Option Hub
unfolding udp_addr_port_to_bytes
send_command h to peer to_vip addr nat = elim (udp_addr_port_to_bytes addr nat) [
  | none ↦ none
  | some body ↦ some (try_send_control h to (new_game_packet peer to_vip PType.p2p_command body))
]

abbrev pub send_check : Hub → ℕ → Vip → Vip → Hub
send_check h to peer to_vip = try_send_control h to (new_game_packet peer to_vip PType.p2p_check [])

infixl 5 ◌>>=◌
abbrev pub ◌>>=◌ : Option Hub → (Hub → Option Hub) → Option Hub
none >>= f = none
some h >>= f = f h

-- For a client `a` at `me` behind a symmetric NAT: it is asked to open a port, and its peer is
-- given its address.
unfoldable pub symmetric_side : Client → ℕ → ℕ → Vip → Vip → Hub → Option Hub
unfolding send_command
symmetric_side a me peer my_vip peer_vip h =
    if eqb a.nat_type type_symmetric
    then send_command (send_check h me peer_vip my_vip) peer my_vip peer_vip a.data_addr a.nat_type
    else some h

-- For one behind a cone NAT its peer is given its address.
unfoldable pub cone_side : Client → ℕ → Vip → Vip → Hub → Option Hub
unfolding send_command
cone_side a peer my_vip peer_vip h =
    if eqb a.nat_type type_cone
    then send_command h peer my_vip peer_vip a.data_addr a.nat_type
    else some h

-- The addresses and NAT types are those of the moment when the command starts.
unfoldable pub handle_p2p_command : Hub → ℕ → ℕ → P2pTask → Option Hub
unfolding symmetric_side cone_side
handle_p2p_command h src dst task =
    let a = client_of h src in
    let b = client_of h dst in
    symmetric_side a src dst task.src_vip task.dst_vip h
    >>= symmetric_side b dst src task.dst_vip task.src_vip
    >>= cone_side b src task.dst_vip task.src_vip
    >>= cone_side a dst task.src_vip task.dst_vip

unfoldable pub count_task : TunnelManager → Vip → Vip → Option P2pTunnel → TunnelManager
count_task tm src dst none = add_tunnel tm src dst tunnel_init
count_task tm src dst (some _) = update_tunnel tm src dst add_retry_times

unfoldable pub run_command : Hub → P2pTask → Option ℕ → Option ℕ → Option Hub
run_command h task none dst = some h
run_command h task (some src) none = some h
run_command h task (some src) (some dst) = handle_p2p_command h src dst task

-- One round of the loop of handleP2PTask.
unfoldable pub handle_p2p_task : Hub → P2pTask → Option Hub
unfolding count_task run_command
handle_p2p_task h task =
    run_command
      (record h {
        tm = count_task h.tm task.src_vip task.dst_vip (exist h.tm task.src_vip task.dst_vip);
      })
      task (lookup task.src_vip h.router.client_map) (lookup task.dst_vip h.router.client_map)
