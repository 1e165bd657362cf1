-- ===== src/Examples/Connections.antt =====
-- A connection of the server: what it is told, and what is written to it.
use easytun.Base.{
  ◌≡◌, refl, arith, true, false, List, [], ◌∷◌, ◌++◌, inl, ◌+◌, if◌then◌else◌, bytes_eq, none, some,
  slice, ℕ,
}
use easytun.Base.Tests.{bytes_beq}
use easytun.Base.Bytes.{Vip, vip_eq, zero_vip}
use easytun.Hub.State.{Hub, new_hub, register_default_ws_handlers, register_ws_handler, subnet_ip}
use easytun.Packet.Header.{parse_header, valid_payload_length}
use easytun.Hub.Pumps.Hearing.{IsQuiet}
use easytun.Hub.Pumps.Lifetime.{server_ws-retained}
use easytun.Base.Assoc.{lookup, insert, delete}
use easytun.Base.Keys.{unless}
use easytun.Hub.Router.{clean_retention, is_expired}
use easytun.Hub.Owners.Leaving.{released}
use easytun.Hub.Sweeping.{is_over, clean_retention-Released}
use easytun.Packet.Compress.{GamePacket, Buffer}
use easytun.Packet.Codec.{empty_packet, parse_control}
use easytun.Packet.PType
use easytun.Hub.Pumps.{
  WsMessage, fails, not_closed, write_pump, pong_packet, pinged, timed_out, broken, message,
  server_ws,
}
use easytun.Hub.Pumps.Writing.{ConveysAll, Stopped, successes, pump_of, write_pump-Stopped}
use easytun.Hub.Owners.{count}
use easytun.Examples.Toys.{runs}

abbrev probe_buffer : Buffer
probe_buffer = record { buf_len = 80; cap = 80 }

abbrev peer : Vip
peer = record { b0 = 10; b1 = 0; b2 = 6; b3 = 3 }

abbrev check : GamePacket
check = record empty_packet { dst = peer; ptype = PType.p2p_check }

abbrev reply : GamePacket
reply = record empty_packet { dst = peer; ptype = PType.noise_response; payload = 1 ∷ 2 ∷ [] }

write_pump-Stopped_example :
    let p =
      write_pump runs probe_buffer
        (successes (check ∷ pong_packet ∷ []) (fails not_closed ∷ []))
        (pump_of ((check ∷ pong_packet ∷ []) ++ (reply ∷ (check ∷ []))) 16 [] false) in
    (sent : List WsMessage) × ConveysAll (check ∷ pong_packet ∷ []) sent
    × (p.frames ≡ [] ++ sent)
    × Stopped not_closed false p.cancelled
    × (p.returned ≡ true)
    × (p.queue.items ≡ (check ∷ []))
unfolding pong_packet
write_pump-Stopped_example =
    write_pump-Stopped runs probe_buffer (check ∷ pong_packet ∷ []) reply (check ∷ []) 16 [] false
      not_closed [] ((inl (omega arith), omega arith), ((inl (omega arith), omega arith), tt)) refl

abbrev id : List ℕ
id = 1 ∷ 2 ∷ 3 ∷ 4 ∷ 5 ∷ 6 ∷ 7 ∷ 8 ∷ 9 ∷ 10 ∷ 11 ∷ 12 ∷ 13 ∷ 14 ∷ 15 ∷ 16 ∷ []

abbrev pc : List ℕ
pc = b'p' ∷ b'c' ∷ []

abbrev rest_of_header : List ℕ
rest_of_header = 0 ∷ 0 ∷ 0 ∷ 0 ∷ 0 ∷ 0 ∷ 0 ∷ 0 ∷ 0 ∷ 0 ∷ 0 ∷ 0 ∷ []

-- A handshake of 51 bytes and a query with none, as they come.
abbrev greeting_bytes : List ℕ
greeting_bytes =
    0xda ∷ 0xaa ∷ 1 ∷ 0 ∷ 0 ∷ 0 ∷ 0 ∷ 0 ∷ 67 ∷ (rest_of_header ++ (3 ∷ (id ++ (id ++ (id ++ pc)))))

abbrev query_bytes : List ℕ
query_bytes = 0xda ∷ 0xaa ∷ 2 ∷ 0 ∷ 0 ∷ 0 ∷ 0 ∷ 0 ∷ 0 ∷ rest_of_header

abbrev greeting : GamePacket
greeting = record empty_packet { ptype = 1; payload = 3 ∷ (id ++ (id ++ (id ++ pc))); len = 67 }

greeting_parses : parse_control empty_packet greeting_bytes ≡ (greeting, none)
unfolding parse_control parse_header valid_payload_length
greeting_parses = refl

query_bytes-IsQuiet : IsQuiet none (message query_bytes)
unfolding parse_control parse_header valid_payload_length
query_bytes-IsQuiet = refl

abbrev empty_room : Hub
empty_room = record new_hub { free_ips = 2 ∷ 3 ∷ [] }

server_ws-retained_example :
    let ip = record subnet_ip { b3 = 2 } in
    let h' =
      server_ws empty_room 7
        ((message query_bytes ∷ timed_out ∷ pinged ∷ [])
          ++ (message greeting_bytes
              ∷ ((pinged ∷ message (1 ∷ []) ∷ []) ++ (broken ∷ (message query_bytes ∷ [])))))
        300 in
    (name : List ℕ) × (lookup (slice 33 49 greeting.payload) h'.retention_map
      ≡ some (record { virtual_ip = ip; hostname = name; expiry = 300 }))
    × (lookup name empty_room.dns_map ≡ none)
    × (lookup name h'.dns_map ≡ some ip)
    × (lookup ip h'.router.client_map ≡ none)
    × (h'.free_ips ≡ 3 ∷ [])
unfolding new_hub register_default_ws_handlers register_ws_handler lookup insert delete
    parse_control parse_header
server_ws-retained_example =
    server_ws-retained empty_room 7 300 2 (3 ∷ []) greeting_bytes
      (message query_bytes ∷ timed_out ∷ pinged ∷ []) (pinged ∷ message (1 ∷ []) ∷ [])
      (message query_bytes ∷ []) greeting greeting_parses refl refl refl refl refl
      (query_bytes-IsQuiet, (tt, (tt, tt))) (tt, (tt, tt))

-- Two clients that are away, of which one's time is over.
abbrev away : Hub
away = record new_hub {
  dns_map = (1 ∷ [], peer) ∷ [];
  retention_map =
      (7 ∷ [], record { virtual_ip = peer; hostname = 1 ∷ []; expiry = 100 })
      ∷ (8 ∷ [], record { virtual_ip = zero_vip; hostname = 2 ∷ []; expiry = 400 })
      ∷ [];
}

clean_retention-Released_example :
    let h' = clean_retention 300 away in
    (lookup (7 ∷ []) h'.retention_map
      ≡ unless (is_expired 300) (lookup (7 ∷ []) away.retention_map))
    × (count 3 h'.free_ips ≡ count 3 away.free_ips + released 3 300 away.retention_map)
    × (lookup (1 ∷ []) h'.dns_map
        ≡ (if is_over 300 (1 ∷ []) away.retention_map then none else lookup (1 ∷ []) away.dns_map))
    × (h'.clients ≡ away.clients)
    × (h'.router ≡ away.router)
    × (h'.tm ≡ away.tm)
unfolding lookup bytes_beq
clean_retention-Released_example =
    clean_retention-Released 300 away (7 ∷ []) (1 ∷ []) 3 (refl, (refl, tt))
