-- ===== src/Endpoint/Greeting.antt =====
-- The handshake with the server: client_control.go and the head of the loop in client.go, against
-- the handler of server_ws.go.
use easytun.Base.{
  ℕ, ◌≡◌, ◌≤◌, refl, ap, ◌∙◌, inl, inr, true, false, List, ◌∷◌, ◌++◌, none, some, length, take,
  drop, slice, ltb, arith, length-append, take-append, drop-append, drop-drop, Bool-cases, Eq-cases,
  nat_eq,
}
use easytun.Base.Assoc.{lookup}
use easytun.Base.Bytes.{Vip, vip_eq, zero_vip}
use easytun.Packet.Header.{max_payload_size}
use easytun.Packet.Compress.{GamePacket, Lz4, Buffer}
use easytun.Packet.Codec.{new_game_packet, reset, encode_packet, parse_packet, empty_packet}
use easytun.Packet.RoundTrip.{received}
use easytun.Packet.PType
use easytun.Hub.State.{Hub, Client, client_of, set_client, on_handshake}
use easytun.Hub.Session.{
  read_frame, after_parse, after_handler, handle_ws_message, dispatch, run_handler,
  handle_handshake, introduce, identify, publish,
}
use easytun.Noise.Manager.{set_virtual_ip}
use easytun.Endpoint.Transport.{ClientTransport}
use easytun.Endpoint.Control.{
  handshake_packet, finish_handshake, adopt, renew, is_none, first_of_subnet,
}
use easytun.Endpoint.Introducing.{control-Carried, packet-Carried}

-- The fields of a handshake's payload, cut out again.
fields_cut :
    (nat : ℕ) (key id name : List ℕ)
    → length key ≡ 32
    → length id ≡ 16
    → (slice 1 33 (nat ∷ (key ++ (id ++ name))) ≡ key)
      × (slice 33 49 (nat ∷ (key ++ (id ++ name))) ≡ id)
      × (drop 49 (nat ∷ (key ++ (id ++ name))) ≡ name)
fields_cut nat key id name k i =
    let behind = drop-append 32 key (id ++ name) k in
    (
      take-append 32 key (id ++ name) k,
      ap (take 16) behind ∙ take-append 16 id name i,
      drop-drop 32 16 (key ++ (id ++ name)) ∙ ap (drop 16) behind ∙ drop-append 16 id name i,
    )

-- A client's own address is that of its NoiseManager, and its DNS server the first address of the
-- subnet, as soon as it has a device.
abbrev pub IsSettled : ClientTransport → Type 0
IsSettled t = (t.noise_mgr.my_vip ≡ t.local_ip) × (t.dns_ip ≡ first_of_subnet t.local_ip)

renew-IsSettled :
    (t : ClientTransport) (gp : GamePacket)
    → (IsSettled (renew t gp))
      × ((renew t gp).local_ip ≡ gp.dst)
      × (is_none (renew t gp).tun_name ≡ false)
unfolding renew set_virtual_ip
renew-IsSettled t gp = ((refl, refl), refl, refl)

pub adopt-IsSettled :
    (t : ClientTransport) (gp : GamePacket)
    → (is_none t.tun_name ≡ false → IsSettled t)
    → (IsSettled (adopt t gp))
      × ((adopt t gp).local_ip ≡ gp.dst)
      × (is_none (adopt t gp).tun_name ≡ false)
unfolding adopt
adopt-IsSettled t gp held = elim (Bool-cases (is_none t.tun_name)) [
  | inl e ↦ rw (e, adopt) (renew-IsSettled t gp)
  | inr e ↦ elim (Eq-cases t.local_ip gp.dst) [
    | inl (same, q) ↦ let kept : adopt t gp ≡ t = rw (e, adopt, q) refl in rw kept (held e, same, e)
    | inr q ↦ rw (e, adopt, q) (renew-IsSettled t gp)
  ]
]

-- The message that a client with a Noise key of 32 bytes and an ID of 16 bytes sends first, with
-- at most 65470 bytes of name: it is encoded, and at the server, for a connection, the client gets
-- the NAT type, the key and the ID of the message, and goes on with the name.
pub read_frame-handshake_packet :
    (z : Lz4) (probe : Buffer) (t : ClientTransport) (h : Hub) (c : ℕ) (id name : List ℕ)
    → length t.noise_mgr.static_pub ≡ 32
    → length id ≡ 16
    → length name ≤ 65470
    → lookup PType.handshake h.ws_handlers ≡ some on_handshake
    → (bytes : List ℕ) × (gp : GamePacket) × (k : Client) × ((encode_packet z probe
          (handshake_packet t id name)
          true
          false
          none).0
        ≡ some bytes)
      × (read_frame h c bytes ≡ after_handler gp (publish (identify (set_client h c k) c name) c))
      × (k.nat_type ≡ t.nat_type)
      × (k.noise_public_key ≡ t.noise_mgr.static_pub)
      × (k.client_id ≡ id)
      × (gp.payload ≡ (handshake_packet t id name).payload)
unfolding read_frame handle_ws_message dispatch run_handler handle_handshake introduce
    new_game_packet reset handshake_packet
read_frame-handshake_packet z probe t h c id name n i fits handler =
    let key = t.noise_mgr.static_pub in
    let payload : List ℕ = t.nat_type ∷ (key ++ (id ++ name)) in
    let g : GamePacket = handshake_packet t id name in
    let whole = length-append key (id ++ name) in
    let rest = length-append id name in
    let (bytes, wrote, read) =
      control-Carried z probe g empty_packet (inl (omega arith))
        (omega (arith, whole, rest, n, i, fits)) in
    let (a, b, d) = fields_cut t.nat_type key id name n i in
    let long : ltb (length payload) 49 ≡ false = ground (arith, whole, rest, n, i) in
    let k = client_of h c in
    (
      bytes,
      received g empty_packet,
      record k {
        nat_type = t.nat_type;
        noise_public_key = slice 1 33 payload;
        client_id = slice 33 49 payload;
      },
      wrote,
      ap (after_parse h c) read ∙ rw (handler, dispatch, long, d) refl,
      refl,
      a,
      b,
      refl,
    )

-- The answer of the server to the handshake, with a name of at most 65519 bytes: encoded and
-- parsed, it makes the client take the address in the answer as its own. If the client was settled
-- or had no device, it is settled after: its NoiseManager has that address, and its DNS server is
-- the first address of the subnet.
pub finish_handshake-IsSettled :
    (z : Lz4) (probe : Buffer) (t : ClientTransport) (hs : GamePacket) (v : Vip) (name : List ℕ)
    → length name ≤ max_payload_size
    → (is_none t.tun_name ≡ false → IsSettled t)
    → (bytes : List ℕ) × (t' : ClientTransport) × ((encode_packet z probe
          (new_game_packet zero_vip v PType.handshake name)
          true
          false
          none).0
        ≡ some bytes)
      × (finish_handshake t (parse_packet hs bytes true none) ≡ some t')
      × (t'.local_ip ≡ v)
      × IsSettled t'
      × (is_none t'.tun_name ≡ false)
unfolding finish_handshake new_game_packet reset
finish_handshake-IsSettled z probe t hs v name fits held =
    let g : GamePacket = new_game_packet zero_vip v PType.handshake name in
    let (bytes, wrote, read) = packet-Carried z probe g hs true (inl (omega arith)) fits in
    let gp : GamePacket = record (received g hs) { raw_data = bytes } in
    let (settled, mine, named) = adopt-IsSettled t gp held in
    (bytes, adopt t gp, wrote, ap (finish_handshake t) read, mine, settled, named)
