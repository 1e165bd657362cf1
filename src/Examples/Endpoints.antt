-- ===== src/Examples/Endpoints.antt =====
-- What the clients and the server of the scenes say to each other.
use easytun.Base.{
  ℕ, ◌≡◌, ◌≤◌, refl, true, false, List, [], ◌∷◌, ◌++◌, none, some, length, arith, nat_eq, bytes_eq,
  if◌then◌else◌, drop,
}
use easytun.Base.Assoc.{lookup, insert, delete}
use easytun.Base.Bytes.{vip_eq, vip_beq, vip_at, zero_vip, u16_at}
use easytun.Base.Tests.{bytes_beq}
use easytun.Cipher.{is_ready, init}
use easytun.Packet.Compress.{GamePacket}
use easytun.Packet.Codec.{
  new_game_packet, encode_packet, parse_packet, empty_packet, reset, encode, next_nonce,
  append_header, append_payload, compress_flag,
}
use easytun.Packet.Header.{payload_length_field}
use easytun.Packet.PType
use easytun.Hub.State.{
  has_room, ipv4, Client, AddrPort, client_of, set_client, try_send_control, new_hub,
  register_default_ws_handlers, register_ws_handler,
}
use easytun.Hub.Session.{read_frame, after_handler, publish, identify}
use easytun.Hub.Records.{get_dns, remove_first, starts_with}
use easytun.Hub.Transfer.{is_multicast, is_loopback}
use easytun.Hub.Udp.{receive_datagram}
use easytun.Noise.Session.{new_noise_session}
use easytun.Noise.Manager.{get_session}
use easytun.Endpoint.Transport.{ClientTransport, P2pStatus, get_dst_addr}
use easytun.Endpoint.Sending.{packet_send, write_packet, is_dns, ihl}
use easytun.Endpoint.Receiving.{packet_recv}
use easytun.Endpoint.Control.{
  control_send, control_recv, binary, handshake_packet, finish_handshake, is_none,
}
use easytun.Endpoint.Punching.{punch}
use easytun.Endpoint.Device.{
  tun_accepts, is_wanted, tun_recv, tun_send, next_packet, tun_send-tun_recv,
}
use easytun.Endpoint.Introducing.{HasStarted, control_recv-packet_send}
use easytun.Endpoint.Greeting.{IsSettled, read_frame-handshake_packet, finish_handshake-IsSettled}
use easytun.Endpoint.Resolving.{IsFrameOf, packet_recv-dns, packet_recv-dns_unknown}
use easytun.Endpoint.Shared.{control_recv-twice}
use easytun.Endpoint.Multicast.{packet_send-group}
use easytun.Examples.Toys.{runs, toy, toy_first}
use easytun.Examples.Scenes.{
  vip, server, home, elsewhere, probe_buffer, id, pc, key, to_far, to_near, near, far, lonely,
  packet, first_message, question, group_packet, room, pc_et, answer_message, refusal, names,
  command_of,
}

tun_send-tun_recv_example :
    (wire : List ℕ) × (extra : List ℕ) × (addr : AddrPort) × (b' : ClientTransport) × (next_packet
        (tun_recv near packet)
      ≡ some (packet, near))
    × ((packet_send runs probe_buffer true near 105 packet).data_conn
        ≡ near.data_conn ++ (record { body = wire; addr = addr } ∷ []))
    × (packet_recv toy runs probe_buffer far 106 [] wire server ≡ some b')
    × ((tun_send b').device ≡ far.device ++ ((packet ++ extra) ∷ []))
    × (length extra ≤ 16)
unfolding tun_accepts is_wanted vip_beq is_dns get_session lookup init is_ready new_noise_session
    is_multicast is_loopback
tun_send-tun_recv_example =
    tun_send-tun_recv runs probe_buffer true toy near far 105 106 0 packet [] server to_far to_near
      key refl refl (omega arith) refl refl refl refl refl (omega arith) refl refl refl refl
      (omega arith)

control_recv-packet_send_example :
    (query : List ℕ) × (reply : GamePacket) × (bytes : List ℕ) × (control_send toy runs probe_buffer
        (packet_send runs probe_buffer true lonely 105 packet)
      ≡ some (binary query, lonely))
    × (read_frame room 0 query ≡ (try_send_control room 0 reply, true))
    × ((client_of (try_send_control room 0 reply) 0).control_chan.items
        ≡ (client_of room 0).control_chan.items ++ (reply ∷ []))
    × ((encode_packet runs probe_buffer reply true false none).0 ≡ some bytes)
    × HasStarted runs probe_buffer true toy lonely
        (vip_at packet 16)
        (toy.write_first
          (toy.new_initiator lonely.noise_mgr.static_priv (client_of room 1).noise_public_key)
          (5 ∷ [])).0
        first_message
        packet
        (control_recv toy runs probe_buffer lonely 106 (5 ∷ []) true bytes)
unfolding new_hub register_default_ws_handlers register_ws_handler lookup insert delete client_of
    vip_beq is_dns get_session has_room toy toy_first
control_recv-packet_send_example =
    control_recv-packet_send runs probe_buffer true toy lonely room 0 1 105 106 packet (5 ∷ [])
      first_message (vip 2) true (omega arith) (omega arith) refl refl refl refl refl refl refl refl
      refl refl

read_frame-handshake_packet_example :
    (bytes : List ℕ) × (gp : GamePacket) × (k : Client) × ((encode_packet runs probe_buffer
        (handshake_packet lonely id pc)
        true
        false
        none).0
      ≡ some bytes)
    × (read_frame new_hub 0 bytes
        ≡ after_handler gp (publish (identify (set_client new_hub 0 k) 0 pc) 0))
    × (k.nat_type ≡ lonely.nat_type)
    × (k.noise_public_key ≡ lonely.noise_mgr.static_pub)
    × (k.client_id ≡ id)
    × (gp.payload ≡ (handshake_packet lonely id pc).payload)
unfolding new_hub register_default_ws_handlers register_ws_handler lookup insert delete
read_frame-handshake_packet_example =
    read_frame-handshake_packet runs probe_buffer lonely new_hub 0 id pc refl refl (omega arith)
      refl

finish_handshake-IsSettled_example :
    (bytes : List ℕ) × (t' : ClientTransport) × ((encode_packet runs probe_buffer
        (new_game_packet zero_vip (vip 9) PType.handshake pc)
        true
        false
        none).0
      ≡ some bytes)
    × (finish_handshake lonely (parse_packet empty_packet bytes true none) ≡ some t')
    × (t'.local_ip ≡ (vip 9))
    × IsSettled t'
    × (is_none t'.tun_name ≡ false)
finish_handshake-IsSettled_example =
    finish_handshake-IsSettled runs probe_buffer lonely empty_packet (vip 9) pc (omega arith)
      (λ e. (refl, refl))

packet_recv-dns_example :
    (request : List ℕ) × (reply : List ℕ) × (frame : List ℕ) × (packet_send runs probe_buffer true
        lonely 105 question
      ≡ write_packet lonely (vip_at question 16) request)
    × ((receive_datagram runs probe_buffer names room request home).packet_chan.items
        ≡ room.packet_chan.items
          ++ (record { bytes = reply; broadcast = false; dst_addr = some home } ∷ []))
    × (packet_recv toy runs probe_buffer lonely 106 [] reply server
        ≡ some (record lonely { device = lonely.device ++ (frame ∷ []) }))
    × IsFrameOf lonely (u16_at question (ihl question)) answer_message frame
unfolding new_hub register_default_ws_handlers is_dns vip_beq get_dns remove_first starts_with
    lookup bytes_beq
packet_recv-dns_example =
    packet_recv-dns toy runs probe_buffer true names lonely room 105 106 question [] pc_et (1 ∷ [])
      answer_message [] (vip 3) home server (omega arith) (omega arith) refl (omega arith) refl refl
      refl refl (omega arith) (omega arith)

packet_recv-dns_unknown_example :
    (request : List ℕ) × (reply : List ℕ) × (frame : List ℕ) × (packet_send runs probe_buffer true
        lonely 105 question
      ≡ write_packet lonely (vip_at question 16) request)
    × ((receive_datagram runs probe_buffer names new_hub request home).packet_chan.items
        ≡ new_hub.packet_chan.items
          ++ (record { bytes = reply; broadcast = false; dst_addr = some home } ∷ []))
    × (packet_recv toy runs probe_buffer lonely 106 [] reply server
        ≡ some (record lonely { device = lonely.device ++ (frame ∷ []) }))
    × IsFrameOf lonely (u16_at refusal 0) (drop 2 refusal) frame
unfolding new_hub register_default_ws_handlers register_ws_handler is_dns vip_beq get_dns lookup
packet_recv-dns_unknown_example =
    packet_recv-dns_unknown toy runs probe_buffer true names lonely new_hub 105 106 question []
      pc_et refusal [] home server (omega arith) (omega arith) refl refl refl refl (omega arith)
      (omega arith) (omega arith) (omega arith)

control_recv-twice_example :
    (s : P2pStatus) × (lookup
        (vip 3)
        (control_recv toy runs probe_buffer lonely 105 [] false
          (command_of (vip 3) home 3)).p2p_router
      ≡ some s)
    × (get_dst_addr
          (control_recv toy runs probe_buffer lonely 105 [] false
            (command_of (vip 3) home 3)).arrays
          s
        ≡ ipv4 home.ip home.port)
    × (lookup
          (vip 3)
          (control_recv toy runs probe_buffer
            (control_recv toy runs probe_buffer lonely 105 [] false (command_of (vip 3) home 3))
            106
            []
            true
            (command_of (vip 4) elsewhere 4)).p2p_router
        ≡ some s)
    × ((punch
          (control_recv toy runs probe_buffer
            (control_recv toy runs probe_buffer lonely 105 [] false (command_of (vip 3) home 3))
            106
            []
            true
            (command_of (vip 4) elsewhere 4))
          (7 ∷ [])
          s).data_conn
        ≡ lonely.data_conn
          ++ (record {
            body = (7 ∷ []);
            addr = ipv4 (if true then elsewhere.ip else home.ip) home.port;
          }
              ∷ []))
unfolding encode_packet compress_flag encode payload_length_field next_nonce append_header
    append_payload new_game_packet reset vip_beq
control_recv-twice_example =
    control_recv-twice toy runs probe_buffer lonely 105 106 [] [] (command_of (vip 3) home 3)
      (command_of (vip 4) elsewhere 4) (7 ∷ []) false true (vip 3) (vip 4) home elsewhere 4 refl
      (omega arith) (omega arith) refl refl

packet_send-group_example :
    (query : List ℕ) × (tun_accepts lonely.local_ip group_packet ≡ true)
    × ((packet_send runs probe_buffer true lonely 105 group_packet).data_conn ≡ lonely.data_conn)
    × (control_send toy runs probe_buffer
          (packet_send runs probe_buffer true lonely 105 group_packet)
        ≡ some (binary query, lonely))
    × (read_frame room 0 query ≡ (room, true))
unfolding new_hub register_default_ws_handlers register_ws_handler lookup insert delete client_of
    vip_beq is_dns get_session has_room toy toy_first is_multicast
packet_send-group_example =
    packet_send-group runs probe_buffer true toy lonely room 0 105 group_packet (vip 2)
      (omega arith) (omega arith) refl refl refl refl refl refl refl refl refl
