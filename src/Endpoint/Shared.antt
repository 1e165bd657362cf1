-- ===== src/Endpoint/Shared.antt =====
-- Two commands of the server to talk to peers directly, one after the other, at controlRecv of
-- client_control.go, which reads both through one buffer.
use easytun.Base.{
  ℕ, ◌+◌, ◌*◌, ◌/◌, ◌%◌, ◌^◌, ◌≡◌, ◌<◌, ◌≤◌, refl, ap, sym, ◌∙◌, inl, Bool, true, false, List, [],
  ◌∷◌, ◌++◌, Option, none, some, length, eqb, arith, if◌then◌else◌, ◌==◌, subst,
}
use easytun.Base.Assoc.{lookup, lookup-insert, lookup-insert_self}
use easytun.Base.Bytes.{Vip, vip_eq, vip_at, vip_bytes, be16}
use easytun.Packet.Header.{max_payload_size}
use easytun.Packet.Compress.{GamePacket, Lz4, Buffer}
use easytun.Packet.Codec.{
  new_game_packet, reset, encode_packet, encode, compress_flag, parse_control, empty_packet,
}
use easytun.Packet.RoundTrip.{
  received, header_of, encode_plain, parse_control-encode, payload_length_field_fits,
}
use easytun.Packet.Wire.{IsWireType, wire}
use easytun.Packet.PType
use easytun.Hub.State.{AddrPort, ipv4}
use easytun.Hub.P2p.{type_cone}
use easytun.Hub.Udp.{Message}
use easytun.Noise.Library.{NoiseLibrary}
use easytun.Endpoint.Transport.{ClientTransport, P2pStatus, in_buffer, get_dst_addr, write_to_udp}
use easytun.Endpoint.Peers.{add_p2p}
use easytun.Endpoint.Control.{control_recv, obey, read_into, bytes_to_ip}
use easytun.Endpoint.Punching.{punch}

-- A packet without a cipher on the wire, byte by byte.
wire_of :
    (z : Lz4) (probe : Buffer) (g h : GamePacket) (bytes : List ℕ)
    → IsWireType g.ptype
    → length g.payload ≤ max_payload_size
    → (encode_packet z probe g true false none).0 ≡ some bytes
    → (bytes ≡ wire (header_of g) 0 g.payload) × (parse_control h bytes ≡ (received g h, none))
unfolding encode_packet compress_flag
wire_of z probe g h bytes t fits e =
    let plain = encode_plain g true fits in
    let (bs, wrote, read) = parse_control-encode g h true t fits in
    let mine : encode_packet z probe g true false none ≡ encode g [] true none =
      rw (payload_length_field_fits _ fits, encode_packet) refl in
    let first : some (wire (header_of g) 0 g.payload) ≡ some bytes =
      ap (λ (x : Option (List ℕ) × GamePacket × Option _). x.0) (sym plain)
      ∙ ap (λ (x : Option (List ℕ) × GamePacket × Option _). x.0) (sym mine)
      ∙ e in
    let second : some bs ≡ some bytes =
      ap (λ (x : Option (List ℕ) × GamePacket × Option _). x.0) (sym wrote)
      ∙ ap (λ (x : Option (List ℕ) × GamePacket × Option _). x.0) (sym mine)
      ∙ e in
    let same : bs ≡ bytes = cc in
    (cc, subst (λ (l : List ℕ). parse_control h l ≡ (received g h, none)) same read)

abbrev command : Vip → Vip → AddrPort → ℕ → GamePacket
command peer local addr nat =
    new_game_packet peer local PType.p2p_command
      (vip_bytes addr.ip ++ (be16 addr.port ++ (nat ∷ [])))

-- The array that the latest message is in.
newest :
    (t : ClientTransport) (r : Bool) (peer local : Vip) (addr : AddrPort) (nat : ℕ)
    → vip_at
        ((read_into t r (
            wire
              (header_of (command peer local addr nat))
              0
              (command peer local addr nat).payload)).arrays
          (read_into t r (
            wire
              (header_of (command peer local addr nat))
              0
              (command peer local addr nat).payload)).current)
        21
      ≡ addr.ip
unfolding read_into new_game_packet reset
newest t true peer local addr nat =
    let here : eqb t.current t.current ≡ true = ground arith in rw here refl
newest t false peer local addr nat =
    let here : eqb (t.current + 1) (t.current + 1) ≡ true = ground arith in rw here refl

older :
    (t : ClientTransport) (bytes : List ℕ)
    → (read_into t false bytes).arrays t.current ≡ t.arrays t.current
unfolding read_into
older t bytes = let apart : eqb t.current (t.current + 1) ≡ false = ground arith in rw apart refl

-- The array of the latest message after the next one.
overlaid :
    (t : ClientTransport) (reused : Bool) (bytes : List ℕ) (peer local ip : Vip) (addr : AddrPort)
    (nat : ℕ)
    → bytes ≡ wire (header_of (command peer local addr nat)) 0 (command peer local addr nat).payload
    → vip_at (t.arrays t.current) 21 ≡ ip
    → vip_at ((read_into t reused bytes).arrays t.current) 21 ≡ (if reused then addr.ip else ip)
overlaid t true bytes peer local ip addr nat e held =
    rw e (unfold read_into in newest t true peer local addr nat)
overlaid t false bytes peer local ip addr nat e held =
    ap (λ (l : List ℕ). vip_at l 21) (older t bytes) ∙ held

read_into-rest :
    (t : ClientTransport) (r : Bool) (bytes : List ℕ)
    → ((read_into t r bytes).p2p_router ≡ t.p2p_router)
      × ((read_into t r bytes).data_conn ≡ t.data_conn)
unfolding read_into
read_into-rest t true bytes = (refl, refl)
read_into-rest t false bytes = (refl, refl)

module _ (lib : NoiseLibrary) (z : Lz4) (probe : Buffer) where
  -- The client after a command.
  control_recv-command :
      (t : ClientTransport) (now : ℕ) (random bytes : List ℕ) (reused : Bool) (peer local : Vip)
      (addr : AddrPort) (nat : ℕ)
      → addr.port < 2 ^ 16
      → parse_control empty_packet bytes
        ≡ (received (command peer local addr nat) empty_packet, none)
      → control_recv lib z probe t now random reused bytes
        ≡ add_p2p
            (read_into t reused bytes)
            now
            peer
            (in_buffer (read_into t reused bytes).current addr.port)
            nat
  unfolding control_recv obey bytes_to_ip new_game_packet reset
  control_recv-command t now random bytes reused peer local addr nat low read =
      let port : addr.port / 256 % 256 * 256 + addr.port % 256 ≡ addr.port = omega (arith, low) in
      ap (obey lib z probe (read_into t reused bytes) now random) read
      ∙ ap
          (λ (n : ℕ).
            add_p2p (read_into t reused bytes) now peer
              (in_buffer (read_into t reused bytes).current n) nat)
          port

  -- The server tells a client to talk to a peer behind a cone NAT at the IP and port of `a`, and then to
  -- another peer at those of `b`; the second message is read into the array of the first, or
  -- not. After the first message the status of the first peer leads to those of `a`. After the second it is
  -- still the status in the table, but where the array was used again, its IP is now that of `b`,
  -- with the port of `a`, and the next attempt to reach the first peer goes there.
  pub control_recv-twice :
      (t : ClientTransport) (now later : ℕ) (random random' bytes bytes' ping : List ℕ)
      (r reused : Bool) (v w : Vip) (a b : AddrPort) (nat : ℕ)
      → w == v ≡ false
      → a.port < 2 ^ 16
      → b.port < 2 ^ 16
      → (encode_packet z probe
          (new_game_packet v t.local_ip PType.p2p_command
            (vip_bytes a.ip ++ (be16 a.port ++ (type_cone ∷ []))))
          true
          false
          none).0
        ≡ some bytes
      → (encode_packet z probe
          (new_game_packet w t.local_ip PType.p2p_command
            (vip_bytes b.ip ++ (be16 b.port ++ (nat ∷ []))))
          true
          false
          none).0
        ≡ some bytes'
      → (s : P2pStatus) × (lookup v (control_recv lib z probe t now random r bytes).p2p_router
          ≡ some s)
        × (get_dst_addr (control_recv lib z probe t now random r bytes).arrays s ≡ ipv4 a.ip a.port)
        × (lookup v
              (control_recv lib z probe
                (control_recv lib z probe t now random r bytes)
                later
                random'
                reused
                bytes').p2p_router
            ≡ some s)
        × ((punch
              (control_recv lib z probe
                (control_recv lib z probe t now random r bytes)
                later
                random'
                reused
                bytes')
              ping
              s).data_conn
            ≡ t.data_conn
              ++ (record { body = ping; addr = ipv4 (if reused then b.ip else a.ip) a.port } ∷ []))
  control_recv-twice t now later random random' bytes bytes' ping r reused v w a b nat apart low
        low' e e' =
      let g = command v t.local_ip a type_cone in
      let g' = command w t.local_ip b nat in
      let (same, read) =
        wire_of z probe g empty_packet bytes (inl (unfold new_game_packet reset in omega arith))
          (unfold new_game_packet reset in omega arith) e in
      let (same', read') =
        wire_of z probe g' empty_packet bytes' (inl (unfold new_game_packet reset in omega arith))
          (unfold new_game_packet reset in omega arith) e' in
      let t1 = read_into t r bytes in
      let s : P2pStatus = record {
        dst_nat_type = type_cone;
        dst_addr = in_buffer t1.current a.port;
        last_seen = now;
        established = false;
      } in
      let after = control_recv-command t now random bytes r v t.local_ip a type_cone low read in
      let t2 : ClientTransport = add_p2p t1 now v (in_buffer t1.current a.port) type_cone in
      let t3 : ClientTransport = read_into t2 reused bytes' in
      let after' =
        control_recv-command t2 later random' bytes' reused w t.local_ip b nat low' read' in
      let both : control_recv lib z probe (control_recv lib z probe t now random r bytes) later
            random' reused bytes'
          ≡ add_p2p t3 later w (in_buffer t3.current b.port) nat =
        ap (λ (x : ClientTransport). control_recv lib z probe x later random' reused bytes') after
        ∙ after' in
      let first : vip_at (t1.arrays t1.current) 21 ≡ a.ip =
        rw same (newest t r v t.local_ip a type_cone) in
      let known : lookup v t2.p2p_router ≡ some s =
        unfold add_p2p in lookup-insert_self v s t1.p2p_router in
      let (router, written) = read_into-rest t2 reused bytes' in
      let held : vip_at (t3.arrays t1.current) 21 ≡ (if reused then b.ip else a.ip) =
        unfold add_p2p in overlaid t2 reused bytes' w t.local_ip a.ip b nat same' first in
      (
        s,
        rw after known,
        rw after (unfold add_p2p get_dst_addr in ap (λ (ip : Vip). ipv4 ip a.port) first),
        rw both (unfold add_p2p in lookup-insert w v _ t3.p2p_router ∙ rw apart (rw router known)),
        rw both (
            unfold add_p2p punch write_to_udp get_dst_addr in
            ap (λ (ip : Vip). t3.data_conn ++ (record { body = ping; addr = ipv4 ip a.port } ∷ []))
              held
            ∙ ap
                (λ (l : List Message).
                  l
                  ++ (record { body = ping; addr = ipv4 (if reused then b.ip else a.ip) a.port }
                      ∷ []))
                (written ∙ (unfold add_p2p in (read_into-rest t r bytes).1))),
      )
