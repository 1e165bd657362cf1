-- ===== src/Endpoint/Sending.antt =====
-- packetSend of internal/transport/client_udp.go: one packet from the TUN device. The table of
-- peers is the one at the time of the packet; `gp` is reused, which leaves nothing in what is
-- encoded.
use easytun.Base.{
  ℕ, ◌+◌, ◌*◌, ◌/◌, ◌%◌, Bool, false, ◌&&◌, List, ◌++◌, Option, none, some, length, drop, get_or,
  ltb, leb, eqb, ◌==◌, if◌then◌else◌,
}
use easytun.Base.Bytes.{Vip, vip_eq, vip_at, be16, u16_at}
use easytun.Cipher.{is_ready}
use easytun.Packet.Codec.{new_game_packet, encode_packet}
use easytun.Packet.Compress.{Lz4, Buffer}
use easytun.Packet.PType
use easytun.Hub.State.{AddrPort}
use easytun.Hub.Udp.{bytes_or_nil}
use easytun.Noise.Session.{NoiseSession, add_pending_data, update_last_seen}
use easytun.Noise.Manager.{get_session, set_session}
use easytun.Endpoint.Transport.{ClientTransport, write_to_udp, send_control}
use easytun.Endpoint.Peers.{packet_path}

-- The length of the IPv4 header of `p`.
abbrev pub ihl : List ℕ → ℕ
ihl p = get_or p 0 0 % 16 * 4

unfoldable pub is_dns : ClientTransport → List ℕ → Bool
is_dns t p =
    leb (ihl p + 8) (length p)
    && (leb 20 (ihl p)
        && (eqb (get_or p 0 0 / 16) 4
            && (eqb (get_or p 9 0) 17
                && (vip_at p 16 == t.dns_ip && eqb (u16_at p (ihl p + 2)) 53))))

-- The source port, then the DNS message.
unfoldable pub dns_query : List ℕ → List ℕ
dns_query p = be16 (u16_at p (ihl p)) ++ drop (ihl p + 8) p

abbrev pub addr_or : AddrPort → Option AddrPort → AddrPort
addr_or server none = server
addr_or server (some addr) = addr

unfoldable pub write_packet : ClientTransport → Vip → List ℕ → ClientTransport
unfolding write_to_udp
write_packet t v bytes = write_to_udp t bytes (addr_or t.server_addr (packet_path t v))

module _ (z : Lz4) (probe : Buffer) (compressed : Bool) where
  unfoldable pub send_plain : ClientTransport → Vip → ℕ → List ℕ → ClientTransport
  unfolding write_packet
  send_plain t v ptype payload = write_packet t v (
      bytes_or_nil
        (encode_packet z probe (new_game_packet t.local_ip v ptype payload) false false none).0)

  -- The cipher of the session counts on, through its pointer.
  unfoldable pub seal_with : ClientTransport → ℕ → Vip → List ℕ → NoiseSession → ClientTransport
  unfolding write_packet
  seal_with t now v p s =
      let (bytes, gp, sender) =
        encode_packet z probe (new_game_packet t.local_ip v PType.data_type p) false compressed
          s.cipher.sender in
      let c = s.cipher in
      let s' = update_last_seen now (record s { cipher = record c { sender = sender } }) in
      write_packet (record t { noise_mgr = set_session t.noise_mgr v s' }) v (bytes_or_nil bytes)

  unfoldable pub send_sealed :
      ClientTransport → ℕ → Vip → List ℕ → Option NoiseSession → ClientTransport
  unfolding seal_with send_control
  send_sealed t now v p none = send_control t (new_game_packet t.local_ip v PType.noise_handshake p)
  send_sealed t now v p (some s) =
      if is_ready s.cipher
      then seal_with t now v p s
      else record t { noise_mgr = set_session t.noise_mgr v (add_pending_data p s) }

  unfoldable pub packet_send : ClientTransport → ℕ → List ℕ → ClientTransport
  unfolding send_plain send_sealed is_dns dns_query
  packet_send t now p =
      if ltb (length p) 20
      then t
      else if is_dns t p
      then send_plain t (vip_at p 16) PType.dns_request (dns_query p)
      else if eqb (get_or p 19 0) 255
      then send_plain t (vip_at p 16) PType.data_type p
      else send_sealed t now (vip_at p 16) p (get_session t.noise_mgr (vip_at p 16))
