-- ===== src/Examples/Rooms.antt =====
-- A server with two clients, written out: packets between them, handshakes, and holes to punch.
use easytun.Base.{
  ℕ, ◌≡◌, ◌⊎◌, refl, true, false, List, [], ◌∷◌, ◌++◌, Option, none, some, bytes_eq, slice, ◌||◌,
}
use easytun.Base.Tests.{bytes_beq}
use easytun.Base.Assoc.{lookup}
use easytun.Base.Bytes.{Vip, vip_eq, vip_beq}
use easytun.Packet.Compress.{GamePacket}
use easytun.Packet.Codec.{empty_packet}
use easytun.Hub.State.{
  Hub, Client, OfflineClient, TransferPacket, P2pTask, AddrPort, client_of, new_hub, count_up,
  register_default_ws_handlers, register_ws_handler, make_chan, subnet_ip,
}
use easytun.Tunnel.Manager.{TunnelManager, exist}
use easytun.Hub.Names.{unique_host_name}
use easytun.Hub.Names.Fresh.{unique_host_name-unused}
use easytun.Hub.Session.{handle_handshake, disconnect, retain_client}
use easytun.Hub.Router.{remove_client}
use easytun.Hub.Transfer.{transfer, is_multicast, in_subnet, is_loopback}
use easytun.Hub.P2p.{if_establish, handle_p2p_command}
use easytun.Hub.Relaying.{transfer-packet_chan, sent_to, target}
use easytun.Hub.Joining.{Joined, handshake-restored, handshake-admitted}
use easytun.Hub.Returning.{reconnect-Joined, reconnect_race}
use easytun.Hub.Punching.{if_establish-once, handle_p2p_command-is_panic, is_panic, is_unreached}

abbrev vip : ℕ → Vip
vip n = record { b0 = 10; b1 = 0; b2 = 6; b3 = n }

abbrev id : List ℕ
id = 1 ∷ 2 ∷ 3 ∷ 4 ∷ 5 ∷ 6 ∷ 7 ∷ 8 ∷ 9 ∷ 10 ∷ 11 ∷ 12 ∷ 13 ∷ 14 ∷ 15 ∷ 16 ∷ []

abbrev pc : List ℕ
pc = b'p' ∷ b'c' ∷ []

abbrev home : AddrPort
home = record { ip = record { b0 = 1; b1 = 2; b2 = 3; b3 = 4 }; port = 4000; ip6 = none }

-- Behind a cone NAT.
abbrev member : ℕ → Option AddrPort → Client
member n addr = record {
  nat_type = 3;
  control_chan = make_chan 16;
  data_addr = addr;
  virtual_ip = some (vip n);
  hostname = pc;
  noise_public_key = [];
  client_id = id;
}

-- The first client has been heard of, the second has not.
abbrev room : Hub
room = record new_hub {
  clients = (0, member 2 (some home)) ∷ (1, member 3 none) ∷ [];
  router = record { client_map = (vip 2, 0) ∷ (vip 3, 1) ∷ []; client_slice = 0 ∷ 1 ∷ [] };
}

abbrev greeting : GamePacket
greeting = record empty_packet { ptype = 1; payload = 3 ∷ (id ++ (id ++ (id ++ pc))) }

-- From the second client to the first.
abbrev letter : TransferPacket
letter = record {
  gp = record empty_packet { src = vip 3; dst = vip 2; ptype = 8; raw_data = 1 ∷ 2 ∷ 3 ∷ [] };
  src_addr = some home;
}

-- The letter goes to the first client.
target_found : target room letter ≡ some home
unfolding lookup client_of vip_beq new_hub register_default_ws_handlers register_ws_handler count_up
    is_multicast in_subnet is_loopback
target_found = refl

transfer-packet_chan_example :
    (transfer room letter).packet_chan
    ≡ sent_to room.packet_chan (1 ∷ 2 ∷ 3 ∷ []) (target room letter)
transfer-packet_chan_example = transfer-packet_chan room letter

handshake-admitted_example :
    ((handle_handshake new_hub 0 greeting).1 ≡ none)
    × ((handle_handshake new_hub 0 greeting).0.free_ips ≡ count_up 3 252)
    × ((n : List ℕ) × Joined
          (handle_handshake new_hub 0 greeting).0
          0
          (record subnet_ip { b3 = 2 })
          n
        × (lookup n new_hub.dns_map ≡ none)
        × ((n ≡ pc) ⊎ ((w : Vip) × (lookup pc new_hub.dns_map ≡ some w))))
unfolding new_hub register_default_ws_handlers register_ws_handler lookup count_up
handshake-admitted_example = handshake-admitted new_hub 0 greeting 2 (count_up 3 252) refl refl refl

abbrev kept : OfflineClient
kept = record { virtual_ip = vip 9; hostname = pc; expiry = 50 }

abbrev waiting : Hub
waiting = record new_hub { retention_map = (id, kept) ∷ [] }

handshake-restored_example :
    ((handle_handshake waiting 4 greeting).1 ≡ none)
    × Joined (handle_handshake waiting 4 greeting).0 4 (vip 9) pc
    × (lookup id (handle_handshake waiting 4 greeting).0.retention_map ≡ none)
    × ((handle_handshake waiting 4 greeting).0.free_ips ≡ waiting.free_ips)
unfolding lookup bytes_beq
handshake-restored_example = handshake-restored waiting 4 greeting kept refl refl

first_vip : (client_of room 0).virtual_ip ≡ some (vip 2)
unfolding client_of lookup
first_vip = refl

first_id : slice 33 49 greeting.payload ≡ (client_of room 0).client_id
unfolding client_of lookup
first_id = refl

reconnect-Joined_example :
    ((handle_handshake (disconnect room 0 50) 7 greeting).1 ≡ none)
    × Joined
        (handle_handshake (disconnect room 0 50) 7 greeting).0
        7
        (vip 2)
        (client_of room 0).hostname
reconnect-Joined_example = reconnect-Joined room 0 7 50 (vip 2) greeting first_vip refl first_id

reconnect_race_example :
    Joined
      (handle_handshake (retain_client room 0 50) 7 greeting).0
      7
      (vip 2)
      (client_of room 0).hostname
    × (lookup
          (vip 2)
          (remove_client
            (handle_handshake (retain_client room 0 50) 7 greeting).0
            0).router.client_map
        ≡ none)
reconnect_race_example = reconnect_race room 0 7 50 (vip 2) greeting refl first_vip refl first_id

abbrev no_tunnels : TunnelManager
no_tunnels = []

asked : (if_establish no_tunnels (vip 2) (vip 3) 3 4).0 ≡ true
unfolding if_establish lookup exist
asked = refl

if_establish-once_example :
    ((if_establish (if_establish no_tunnels (vip 2) (vip 3) 3 4).1 (vip 2) (vip 3) 3 4).0 ≡ false)
    × ((if_establish (if_establish no_tunnels (vip 2) (vip 3) 3 4).1 (vip 3) (vip 2) 3 4).0 ≡ false)
if_establish-once_example = if_establish-once no_tunnels (vip 2) (vip 3) 3 4 3 4 asked

abbrev task : P2pTask
task = record { dst_vip = vip 3; dst_addr = none; src_vip = vip 2; src_addr = some home }

handle_p2p_command-is_panic_example :
    is_panic (handle_p2p_command room 0 1 task)
    ≡ (is_unreached (client_of room 0) || is_unreached (client_of room 1))
handle_p2p_command-is_panic_example = handle_p2p_command-is_panic room 0 1 task

abbrev names : List (List ℕ × Vip)
names = (pc, vip 2) ∷ []

unique_host_name-unused_example :
    (name : List ℕ) × (unique_host_name pc names ≡ some name)
    × (lookup name names ≡ none)
    × ((name ≡ pc) ⊎ ((v : Vip) × (lookup pc names ≡ some v)))
unique_host_name-unused_example = unique_host_name-unused pc names
