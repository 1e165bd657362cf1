-- ===== src/Endpoint/Control.antt =====
-- internal/transport/client_control.go and the part of ListenAndServe in client.go that takes over
-- the answer to the handshake. The packet that waits for a Noise session is passed by value.
use easytun.Base.{
  ℕ, ◌+◌, Bool, true, false, List, [], ◌∷◌, ◌++◌, Option, none, some, length, take, drop, get_or,
  ltb, eqb, ◌==◌, if◌then◌else◌,
}
use easytun.Base.Bytes.{Vip, vip_eq, zero_vip, u16_at}
use easytun.Errors.{Error}
use easytun.Packet.Codec.{new_game_packet, encode_packet, parse_control, empty_packet}
use easytun.Packet.Compress.{GamePacket, Lz4, Buffer}
use easytun.Packet.PType
use easytun.Hub.Udp.{bytes_or_nil}
use easytun.Noise.Library.{NoiseLibrary}
use easytun.Noise.Manager.{handshake_init, set_virtual_ip}
use easytun.Endpoint.Transport.{ClientTransport, UdpAddr, in_buffer, write_to_udp, send_control}
use easytun.Endpoint.Peers.{add_p2p}

-- The message of the handshake: NAT type, Noise key, client ID, device name.
unfoldable pub handshake_packet : ClientTransport → List ℕ → List ℕ → GamePacket
handshake_packet t client_id device_name =
    new_game_packet zero_vip zero_vip PType.handshake
      (t.nat_type ∷ (t.noise_mgr.static_pub ++ (client_id ++ device_name)))

-- DnsIp of tun.NewTun: the first address of the /24.
abbrev pub first_of_subnet : Vip → Vip
first_of_subnet ip = record ip { b3 = 1 }

abbrev pub is_none : Option (List ℕ) → Bool
is_none none = true
is_none (some name) = false

-- The new address, and a new device for it.
unfoldable pub renew : ClientTransport → GamePacket → ClientTransport
renew t answer = record t {
  local_ip = answer.dst;
  noise_mgr = set_virtual_ip answer.dst t.noise_mgr;
  dns_ip = first_of_subnet answer.dst;
  tun_name = some answer.payload;
  device = [];
}

-- Only where there was no device, or the address is another than before.
unfoldable pub adopt : ClientTransport → GamePacket → ClientTransport
unfolding renew
adopt t answer =
    if is_none t.tun_name
    then renew t answer
    else if t.local_ip == answer.dst
    then t
    else renew t answer

-- What the client does with the bytes that answer its handshake; `none` is the error.
unfoldable pub finish_handshake :
    ClientTransport → GamePacket × Option Error → Option ClientTransport
unfolding adopt
finish_handshake t (answer, some e) = none
finish_handshake t (answer, none) = some (adopt t answer)

-- A message is read into the array of the message before, `reused`, or into a new one.
unfoldable pub read_into : ClientTransport → Bool → List ℕ → ClientTransport
read_into t true bytes = record t {
  arrays = λ i. if eqb i t.current then bytes ++ drop (length bytes) (t.arrays i) else t.arrays i;
}
read_into t false bytes = record t {
  arrays = λ i. if eqb i (t.current + 1) then bytes else t.arrays i;
  current = t.current + 1;
}

-- util.BytesToIP of the payload: the port is read, the IP is a slice of the array.
unfoldable pub bytes_to_ip : ClientTransport → GamePacket → UdpAddr
bytes_to_ip t gp = in_buffer t.current (u16_at gp.payload 4)

module _ (lib : NoiseLibrary) (z : Lz4) (probe : Buffer) where
  unfoldable pub initiate_noise :
      ClientTransport → ℕ → List ℕ → Vip → List ℕ → List ℕ → ClientTransport
  unfolding write_to_udp
  initiate_noise t now random remote_vip remote_pub first_payload =
      let (m, msg) =
        handshake_init lib t.noise_mgr now random remote_vip remote_pub first_payload in
      elim msg [
        | none ↦ record t { noise_mgr = m }
        | some bytes ↦
            let gp = new_game_packet t.local_ip remote_vip PType.data_type bytes in
            write_to_udp (record t { noise_mgr = m })
              (bytes_or_nil (encode_packet z probe gp true false none).0) t.server_addr
      ]

  unfoldable pub check_p2p : ClientTransport → Vip → ClientTransport
  check_p2p t dst =
      let check_gp = new_game_packet t.local_ip dst PType.p2p_check [] in
      record t {
        check_conn =
            t.check_conn
            ++ (record {
              body = bytes_or_nil (encode_packet z probe check_gp true false none).0;
              addr = t.check_addr;
            }
                ∷ []);
      }

  unfoldable pub obey : ClientTransport → ℕ → List ℕ → GamePacket × Option Error → ClientTransport
  unfolding initiate_noise check_p2p bytes_to_ip
  obey t now random (gp, some e) = t
  obey t now random (gp, none) =
      if eqb gp.ptype PType.noise_response
      then if ltb (length gp.payload) 32
        then t
        else initiate_noise t now random gp.src (take 32 gp.payload) (drop 32 gp.payload)
      else if eqb gp.ptype PType.p2p_check
      then check_p2p t gp.src
      else if eqb gp.ptype PType.p2p_command
      then if ltb (length gp.payload) 7
        then t
        else add_p2p t now gp.src (bytes_to_ip t gp) (get_or gp.payload 6 0)
      else t

  -- One binary message of the server.
  unfoldable pub control_recv : ClientTransport → ℕ → List ℕ → Bool → List ℕ → ClientTransport
  unfolding obey read_into
  control_recv t now random reused bytes =
      obey (read_into t reused bytes) now random (parse_control empty_packet bytes)

  -- A heartbeat is a ping of the websocket; anything else is a binary message.
  pub data Frame : Type 0 where
    ws_ping : Frame
    binary : List ℕ → Frame

  unfoldable pub frame_of : GamePacket → Frame
  frame_of gp =
      if eqb gp.ptype PType.ping
      then ws_ping
      else binary (bytes_or_nil (encode_packet z probe gp true false none).0)

  -- The oldest message of the queue leaves it.
  unfoldable pub control_send : ClientTransport → Option (Frame × ClientTransport)
  unfolding frame_of
  control_send t = elim t.control_send_chan.items [
    | [] ↦ none
    | gp ∷ rest ↦
        let queue = t.control_send_chan in
        some (frame_of gp, record t { control_send_chan = record queue { items = rest } })
  ]

  -- A tick of heartbeat.
  unfoldable pub heartbeat : ClientTransport → ClientTransport
  unfolding send_control write_to_udp
  heartbeat t =
      let ping = new_game_packet t.local_ip zero_vip PType.ping [] in
      write_to_udp (send_control t ping)
        (bytes_or_nil (encode_packet z probe ping true false none).0) t.server_addr
