-- ===== src/Endpoint/Receiving.antt =====
-- packetRecv of internal/transport/client_udp.go: one datagram. `none` is a panic.
use easytun.Base.{ℕ, true, false, List, [], ◌∷◌, ◌++◌, Option, none, some, eqb, if◌then◌else◌}
use easytun.Base.Bytes.{Vip, zero_vip}
use easytun.Errors.{Error}
use easytun.Packet.Codec.{
  new_game_packet, encode_packet, encode_packet_with_buffer, parse_packet, decrypt_parse,
  empty_packet,
}
use easytun.Packet.Compress.{GamePacket, Lz4, Buffer}
use easytun.Packet.Header.{clear_flag}
use easytun.Packet.PType
use easytun.Hub.State.{AddrPort, try_send}
use easytun.Hub.Udp.{bytes_or_nil}
use easytun.Noise.Library.{NoiseLibrary}
use easytun.Noise.Manager.{
  NoiseManager, Handled, with_session, answered, waited, failed, panicked, handle_noise_packet,
  touch,
}
use easytun.Endpoint.Transport.{ClientTransport, write_to_udp}
use easytun.Endpoint.Peers.{on_ping, on_pong}
use easytun.Endpoint.Dns.{build_dns_response}

abbrev pub pong_bytes : ClientTransport → List ℕ
pong_bytes t =
    bytes_or_nil
      (encode_packet_with_buffer (new_game_packet t.local_ip zero_vip PType.pong []) [] true none).0

-- A packet of a session that opens goes to the TUN device.
unfoldable pub accept_data : ClientTransport → ℕ → Vip → GamePacket × Option Error → ClientTransport
accept_data t now v (gp, some e) = t
accept_data t now v (gp, none) = record t {
  noise_mgr = touch t.noise_mgr now v;
  from_net = try_send t.from_net gp.raw_data;
}

unfoldable pub receive_dns : ClientTransport → Option (List ℕ) → ClientTransport
receive_dns t none = t
receive_dns t (some frame) = record t { device = t.device ++ (frame ∷ []) }

module _ (lib : NoiseLibrary) (z : Lz4) (probe : Buffer) where
  unfoldable pub receive_data :
      ClientTransport → ℕ → AddrPort → GamePacket → NoiseManager × Handled → Option ClientTransport
  unfolding accept_data write_to_udp
  receive_data t now addr gp (m, with_session s) =
      some
        (accept_data (record t { noise_mgr = m }) now gp.src (decrypt_parse z gp s.cipher.recver))
  receive_data t now addr gp (m, answered s msg) =
      let resp_gp = new_game_packet t.local_ip gp.src PType.data_type msg in
      let bytes = bytes_or_nil (encode_packet z probe resp_gp false false none).0 in
      some (write_to_udp (record t { noise_mgr = m }) bytes addr)
  receive_data t now addr gp (m, waited) = some (record t { noise_mgr = m })
  receive_data t now addr gp (m, failed e) = some (record t { noise_mgr = m })
  receive_data t now addr gp (m, panicked) = none

  unfoldable pub receive_packet :
      ClientTransport → ℕ → List ℕ → AddrPort → GamePacket × Option Error → Option ClientTransport
  unfolding receive_data receive_dns
  receive_packet t now random addr (gp, some e) = some t
  receive_packet t now random addr (gp, none) =
      if eqb (clear_flag gp.ptype) PType.data_type
      then receive_data t now addr gp
          (handle_noise_packet lib t.noise_mgr now random gp.src gp.payload)
      else if eqb (clear_flag gp.ptype) PType.ping
      then some (write_to_udp (on_ping t gp.src addr) (pong_bytes t) addr)
      else if eqb (clear_flag gp.ptype) PType.pong
      then some (on_pong t now gp.src addr)
      else if eqb (clear_flag gp.ptype) PType.dns_response
      then some (receive_dns t (build_dns_response gp.payload t.local_ip t.dns_ip))
      else some t

  unfoldable pub packet_recv :
      ClientTransport → ℕ → List ℕ → List ℕ → AddrPort → Option ClientTransport
  unfolding receive_packet
  packet_recv t now random bytes addr =
      receive_packet t now random addr (parse_packet empty_packet bytes true none)
