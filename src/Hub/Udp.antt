-- ===== src/Hub/Udp.antt =====
-- internal/transport/server_udp.go: one datagram of listenUdp, one of listenCheck, and one batch
-- of writeUdpPacket.
use easytun.Base.{
  ℕ, true, false, List, [], ◌∷◌, ◌++◌, Option, none, some, eqb, if◌then◌else◌, take, drop,
}
use easytun.Base.Assoc.{lookup}
use easytun.Base.Bytes.{vip_eq, zero_vip}
use easytun.Errors.{Error, Result, ok, err}
use easytun.Packet.Codec.{parse_packet, parse_control, empty_packet, new_game_packet, encode_packet}
use easytun.Packet.Compress.{GamePacket, Lz4, Buffer}
use easytun.Packet.Header.{clear_flag}
use easytun.Packet.PType
use easytun.Tunnel.Manager.{P2pTunnel, exist}
use easytun.Hub.State.{Hub, AddrPort, Outgoing, client_of, try_send}
use easytun.Hub.P2p.{send_command}
use easytun.Hub.Records.{DnsCodec, build_dns_response}
use easytun.Hub.Transfer.{update_addr_check}

unfoldable pub update_known : Hub → Option ℕ → AddrPort → Hub
update_known h none addr = h
update_known h (some c) addr = update_addr_check h c (some addr)

-- EncodePacket gives nil only for a reply that is too long; the source queues that as well.
abbrev pub bytes_or_nil : Option (List ℕ) → List ℕ
bytes_or_nil none = []
bytes_or_nil (some bs) = bs

unfoldable pub answer : Lz4 → Buffer → Hub → GamePacket → AddrPort → Result (List ℕ) → Hub
answer z probe h gp addr (err e) = h
answer z probe h gp addr (ok reply) =
    let reply_gp = new_game_packet zero_vip gp.src PType.dns_response reply in
    record h {
      packet_chan = try_send h.packet_chan (record {
        bytes = bytes_or_nil (encode_packet z probe reply_gp false false none).0;
        broadcast = false;
        dst_addr = some addr;
      });
    }

-- A heartbeat moves the client's address, a DNS request is answered, a data packet goes to the
-- relay; anything else is dropped.
unfoldable pub sort_packet :
    Lz4 → Buffer → DnsCodec → Hub → AddrPort → GamePacket × Option Error → Hub
sort_packet z probe d h addr (gp, some e) = h
sort_packet z probe d h addr (gp, none) =
    if eqb (clear_flag gp.ptype) PType.ping
    then update_known h (lookup gp.src h.router.client_map) addr
    else if eqb (clear_flag gp.ptype) PType.dns_request
    then answer z probe h gp addr (build_dns_response d h gp.payload)
    else if eqb (clear_flag gp.ptype) PType.data_type
    then record h {
      transfer_chan = try_send h.transfer_chan (record { gp = gp; src_addr = some addr });
    }
    else h

unfoldable pub receive_datagram : Lz4 → Buffer → DnsCodec → Hub → List ℕ → AddrPort → Hub
unfolding sort_packet update_known answer
receive_datagram z probe d h payload addr =
    sort_packet z probe d h addr (parse_packet empty_packet payload true none)

-- The command goes to the other end of a tunnel that exists.
unfoldable pub forward_check :
    Hub → GamePacket → AddrPort → Option P2pTunnel → Option ℕ → Option ℕ → Option Hub
forward_check h gp addr none src dst = some h
forward_check h gp addr (some t) none dst = some h
forward_check h gp addr (some t) (some src) none = some h
forward_check h gp addr (some t) (some src) (some dst) =
    send_command h dst gp.src gp.dst (some addr) (client_of h src).nat_type

abbrev pub check_packet : Hub → AddrPort → GamePacket × Option Error → Option Hub
check_packet h addr (gp, some e) = some h
check_packet h addr (gp, none) =
    if eqb gp.ptype PType.p2p_check
    then forward_check h gp addr (exist h.tm gp.src gp.dst) (lookup gp.src h.router.client_map)
        (lookup gp.dst h.router.client_map)
    else some h

unfoldable pub receive_check : Hub → List ℕ → AddrPort → Option Hub
unfolding forward_check
receive_check h bytes addr = check_packet h addr (parse_control empty_packet bytes)

-- ipv4.Message
pub record Message : Type 0 where
  pub body : List ℕ
  pub addr : AddrPort

abbrev pub to_addr : List ℕ → Option AddrPort → List Message
to_addr bytes none = []
to_addr bytes (some a) = record { body = bytes; addr = a } ∷ []

unfoldable pub broadcast_to : Hub → List ℕ → List ℕ → List Message
broadcast_to h bytes [] = []
broadcast_to h bytes (c ∷ cs) = to_addr bytes (client_of h c).data_addr ++ broadcast_to h bytes cs

unfoldable pub messages : Hub → List Outgoing → List Message
messages h [] = []
messages h (p ∷ ps) =
    (if p.broadcast
      then broadcast_to h p.bytes h.router.client_slice
      else to_addr p.bytes p.dst_addr)
    ++ messages h ps

-- One batch: up to 16 packets leave the queue, and their messages are written at once.
unfoldable pub write_batch : Hub → List Message × Hub
unfolding messages broadcast_to
write_batch h =
    let batch = take 16 h.packet_chan.items in
    let left = h.packet_chan in
    (
      messages h batch,
      record h { packet_chan = record left { items = drop 16 h.packet_chan.items } },
    )
