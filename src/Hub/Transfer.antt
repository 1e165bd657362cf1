-- ===== src/Hub/Transfer.antt =====
-- The relay of internal/transport/server.go: one packet of the loop of `transfer`.
use easytun.Base.{
  ℕ, Bool, false, not, ◌&&◌, ◌||◌, List, Option, none, some, leb, ltb, eqb, if◌then◌else◌,
}
use easytun.Base.Assoc.{lookup}
use easytun.Base.Bytes.{Vip, vip_eq}
use easytun.Hub.State.{Hub, AddrPort, TransferPacket, client_of, set_client, try_send}
use easytun.Hub.P2p.{if_establish, new_p2p_task}

-- Storing the address that is there already changes nothing, so the test of the source is about
-- its log line.
unfoldable pub update_addr_check : Hub → ℕ → Option AddrPort → Hub
update_addr_check h c addr = let k = client_of h c in set_client h c (record k { data_addr = addr })

-- h.Subnet.Contains: the first three bytes agree.
unfoldable pub in_subnet : Vip → Bool
in_subnet v = eqb v.b0 10 && (eqb v.b1 0 && eqb v.b2 6)

-- net.IP's IsMulticast and IsLoopback over IPv4
unfoldable pub is_multicast : Vip → Bool
is_multicast v = leb 224 v.b0 && ltb v.b0 240

unfoldable pub is_loopback : Vip → Bool
is_loopback v = eqb v.b0 127

-- Into the queue to the socket, if the peer's address is known and there is room.
unfoldable pub enqueue : Hub → List ℕ → Option AddrPort → Hub
enqueue h bytes none = h
enqueue h bytes (some a) = record h {
  packet_chan =
      try_send h.packet_chan (record { bytes = bytes; broadcast = false; dst_addr = some a });
}

-- Whether the two should talk directly is asked for every packet.
unfoldable pub consider : Hub → Vip → Vip → ℕ → ℕ → Option AddrPort → Hub
consider h src_vip dst_vip src dst addr =
    let (yes_or_no, tm) =
      if_establish h.tm src_vip dst_vip (client_of h src).nat_type (client_of h dst).nat_type in
    let h1 = record h { tm = tm } in
    if yes_or_no then new_p2p_task h1 src_vip dst_vip addr (client_of h1 dst).data_addr else h1

unfoldable pub relay_to : Hub → TransferPacket → ℕ → Option ℕ → Hub
relay_to h tp src none = h
relay_to h tp src (some dst) =
    let h1 = consider h tp.gp.src tp.gp.dst src dst tp.src_addr in
    enqueue h1 tp.gp.raw_data (client_of h dst).data_addr

unfoldable pub relay_from : Hub → TransferPacket → Option ℕ → Hub
relay_from h tp none = h
relay_from h tp (some src) =
    let h1 = update_addr_check h src tp.src_addr in
    let dst = tp.gp.dst in
    if eqb dst.b3 255 || is_multicast dst
    then h1
    else if in_subnet dst && not (is_loopback dst)
    then relay_to h1 tp src (lookup dst h1.router.client_map)
    else h1

unfoldable pub transfer : Hub → TransferPacket → Hub
unfolding relay_from relay_to consider enqueue
transfer h tp = relay_from h tp (lookup tp.gp.src h.router.client_map)
