-- ===== src/Examples/Servers.antt =====
-- Runs of the server with two clients, and packets between them.
use easytun.Base.{ℕ, ◌≡◌, ◌≢◌, ◌≤◌, refl, List, [], ◌∷◌, ◌++◌, some, arith, bytes_eq}
use easytun.Base.Tests.{bytes_beq}
use easytun.Base.Assoc.{lookup, insert, delete}
use easytun.Base.Bytes.{Vip, vip_eq, vip_beq}
use easytun.Packet.Codec.{parse_control, new_game_packet}
use easytun.Packet.Header.{parse_header, valid_payload_length}
use easytun.Hub.State.{
  OfflineClient, client_of, new_hub, count_up, register_default_ws_handlers, register_ws_handler,
  set_client, try_send_control, ip_to_key, new_client, has_room, try_send,
}
use easytun.Hub.Session.{
  read_frame, disconnect, handle_ws_message, dispatch, run_handler, handle_handshake, introduce,
  identify, identify_with, admit_client, publish, publish_with, retain_client, retain_with,
}
use easytun.Hub.Pool.{get_ip, pop_ip}
use easytun.Hub.Records.{add_dns}
use easytun.Hub.Router.{add_client, remove_client}
use easytun.Hub.Names.{unique_host_name}
use easytun.Tunnel.Manager.{remove_a}
use easytun.Hub.Owners.{count, retained}
use easytun.Hub.Owners.Leaving.{without}
use easytun.Hub.Owners.Run.{
  World, start, Reach, connects, reads, ends, here, next, owners, owners-le,
}
use easytun.Hub.Owners.Distinct.{addresses_distinct, disconnect_leaks}

abbrev id : List ℕ
id = 1 ∷ 2 ∷ 3 ∷ 4 ∷ 5 ∷ 6 ∷ 7 ∷ 8 ∷ 9 ∷ 10 ∷ 11 ∷ 12 ∷ 13 ∷ 14 ∷ 15 ∷ 16 ∷ []

abbrev noise_key : List ℕ
noise_key = id ++ id

-- NAT type, Noise key, client ID, name.
abbrev hello_payload : List ℕ
hello_payload = 3 ∷ (noise_key ++ (id ++ (b'p' ∷ b'c' ∷ [])))

abbrev hello_bytes : List ℕ
hello_bytes =
    0xda ∷ 0xaa ∷ 1 ∷ 0 ∷ 0 ∷ 0 ∷ 0 ∷ 0 ∷ 67 ∷ 0 ∷ 0 ∷ 0 ∷ 0 ∷ 0 ∷ 0 ∷ 0 ∷ 0 ∷ 0 ∷ 0 ∷ 0 ∷ 0
    ∷ hello_payload

abbrev joins : World → ℕ → World
joins w c = record w { hub = (read_frame w.hub c hello_bytes).0 }

abbrev opens : World → ℕ → World
opens w c = record { hub = set_client w.hub c new_client; live = c ∷ w.live }

-- Two connections with the same ID.
abbrev both : World
both = joins (opens (joins (opens start 0) 0) 1) 1

both_reached : Reach start both
unfolding count
both_reached =
    next (next (next (next here (connects 0 refl)) (reads 0 hello_bytes refl)) (connects 1 refl))
      (reads 1 hello_bytes refl)

owners-le_example : owners 2 both ≤ 1
owners-le_example = owners-le 2 both_reached

-- Then the first of them ends.
abbrev one_left : World
one_left = record { hub = disconnect both.hub 0 50; live = without 0 both.live }

one_left_reached : Reach start one_left
unfolding count
one_left_reached = next both_reached (ends 0 50 refl)

abbrev vip : ℕ → Vip
vip n = record { b0 = 10; b1 = 0; b2 = 6; b3 = n }

first_vip : (client_of both.hub 0).virtual_ip ≡ some (vip 2)
unfolding new_hub register_default_ws_handlers register_ws_handler count_up client_of lookup insert
    delete set_client read_frame parse_control parse_header valid_payload_length handle_ws_message
    dispatch run_handler handle_handshake introduce identify identify_with admit_client get_ip
    pop_ip publish publish_with add_dns add_client try_send_control ip_to_key new_client has_room
    try_send new_game_packet vip_beq bytes_beq
first_vip = refl

second_vip : (client_of both.hub 1).virtual_ip ≡ some (vip 3)
unfolding new_hub register_default_ws_handlers register_ws_handler count_up client_of lookup insert
    delete set_client read_frame parse_control parse_header valid_payload_length handle_ws_message
    dispatch run_handler handle_handshake introduce identify identify_with admit_client get_ip
    pop_ip publish publish_with add_dns add_client try_send_control ip_to_key new_client has_room
    try_send new_game_packet vip_beq bytes_beq
second_vip = refl

addresses_distinct_example :
    ((vip 2).b3 ≢ (vip 3).b3)
    × (count (vip 2).b3 both.hub.free_ips ≡ 0)
    × (retained (vip 2).b3 both.hub.retention_map ≡ 0)
unfolding count
addresses_distinct_example =
    addresses_distinct 0 1 (vip 2) (vip 3) both_reached (omega arith) (omega arith) (ground arith)
      first_vip second_vip

abbrev kept : OfflineClient
kept = record { virtual_ip = vip 2; hostname = b'p' ∷ b'c' ∷ []; expiry = 50 }

left_vip : (client_of one_left.hub 1).virtual_ip ≡ some (vip 3)
unfolding disconnect retain_client retain_with remove_client remove_a new_hub
    register_default_ws_handlers register_ws_handler count_up client_of lookup insert delete
    set_client read_frame parse_control parse_header valid_payload_length handle_ws_message dispatch
    run_handler handle_handshake introduce identify identify_with admit_client get_ip pop_ip publish
    publish_with add_dns add_client try_send_control ip_to_key new_client has_room try_send
    new_game_packet vip_beq bytes_beq
left_vip = refl

left_kept : lookup (client_of one_left.hub 1).client_id one_left.hub.retention_map ≡ some kept
unfolding disconnect retain_client retain_with remove_client remove_a new_hub
    register_default_ws_handlers register_ws_handler count_up client_of lookup insert delete
    set_client read_frame parse_control parse_header valid_payload_length handle_ws_message dispatch
    run_handler handle_handshake introduce identify identify_with admit_client get_ip pop_ip publish
    publish_with add_dns add_client try_send_control ip_to_key new_client has_room try_send
    new_game_packet vip_beq bytes_beq unique_host_name
left_kept = refl

-- The second of them ends as well.
abbrev all_left : World
all_left = record { hub = disconnect one_left.hub 1 60; live = without 1 one_left.live }

disconnect_leaks_example : owners 2 all_left ≡ 0
unfolding count without
disconnect_leaks_example =
    disconnect_leaks {w = one_left} {w' = all_left} 1 60 (vip 3) kept one_left_reached refl left_vip
      left_kept (ground arith) here
