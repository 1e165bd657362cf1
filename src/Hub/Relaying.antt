-- ===== src/Hub/Relaying.antt =====
-- What `transfer` of internal/transport/server.go puts on the queue to the socket.
use easytun.Base.{
  ℕ, ◌≡◌, refl, ap, ◌∙◌, inl, inr, Bool, false, not, ◌&&◌, ◌||◌, List, Option, none, some, eqb,
  if◌then◌else◌, Bool-cases, Option-cases, nat_eq, ◌==◌,
}
use easytun.Base.Assoc.{lookup}
use easytun.Base.Bytes.{Vip, vip_eq}
use easytun.Hub.State.{
  Hub, Client, AddrPort, Chan, Outgoing, TransferPacket, client_of, set_client, try_send,
}
use easytun.Hub.P2p.{if_establish, new_p2p_task}
use easytun.Hub.Transfer.{
  transfer, relay_from, relay_to, enqueue, consider, update_addr_check, in_subnet, is_multicast,
  is_loopback,
}
use easytun.Hub.Joining.{client_of-set_client}

-- An address that a packet may be relayed to.
abbrev pub is_unicast : Vip → Bool
is_unicast v = not (eqb v.b3 255 || is_multicast v) && (in_subnet v && not (is_loopback v))

-- Where the packet goes: to the client at its destination, if both ends are registered; a sender
-- that sends to itself has the address that the packet comes from.
abbrev pub target_of : Hub → TransferPacket → Option ℕ → Option ℕ → Option AddrPort
target_of h tp none d = none
target_of h tp (some s) none = none
target_of h tp (some s) (some d) = if s == d then tp.src_addr else (client_of h d).data_addr

abbrev pub target : Hub → TransferPacket → Option AddrPort
target h tp =
    if is_unicast tp.gp.dst
    then target_of h tp (lookup tp.gp.src h.router.client_map)
        (lookup tp.gp.dst h.router.client_map)
    else none

abbrev pub sent_to : Chan Outgoing → List ℕ → Option AddrPort → Chan Outgoing
sent_to q bytes none = q
sent_to q bytes (some a) =
    try_send q (record { bytes = bytes; broadcast = false; dst_addr = some a })

enqueue-packet_chan :
    (h : Hub) (bytes : List ℕ) (addr : Option AddrPort)
    → (enqueue h bytes addr).packet_chan ≡ sent_to h.packet_chan bytes addr
unfolding enqueue
enqueue-packet_chan h bytes none = refl
enqueue-packet_chan h bytes (some a) = refl

consider-packet_chan :
    (h : Hub) (v w : Vip) (s d : ℕ) (addr : Option AddrPort)
    → (consider h v w s d addr).packet_chan ≡ h.packet_chan
unfolding consider new_p2p_task
consider-packet_chan h v w s d addr =
    elim (Bool-cases (if_establish h.tm v w (client_of h s).nat_type (client_of h d).nat_type).0) [
      | inl e ↦ rw (e, consider)
      | inr e ↦ rw (e, consider)
    ]

update_addr_check-data_addr :
    (h : Hub) (s d : ℕ) (addr : Option AddrPort)
    → (client_of (update_addr_check h s addr) d).data_addr
      ≡ (if s == d then addr else (client_of h d).data_addr)
unfolding update_addr_check
update_addr_check-data_addr h s d addr =
    ap (λ (k : Client). k.data_addr) (client_of-set_client h s d _)
    ∙ elim (Bool-cases (s == d)) [ inl e ↦ rw e | inr e ↦ rw e ]

relay_to-packet_chan :
    (h : Hub) (tp : TransferPacket) (s : ℕ) (d : Option ℕ)
    → (relay_to (update_addr_check h s tp.src_addr) tp s d).packet_chan
      ≡ sent_to h.packet_chan tp.gp.raw_data (target_of h tp (some s) d)
unfolding relay_to update_addr_check set_client
relay_to-packet_chan h tp s none = refl
relay_to-packet_chan h tp s (some d) =
    enqueue-packet_chan _ tp.gp.raw_data _
    ∙ rw (
      update_addr_check-data_addr h s d tp.src_addr,
      consider-packet_chan (update_addr_check h s tp.src_addr) tp.gp.src tp.gp.dst s d tp.src_addr,
    )

relay_from-packet_chan :
    (h : Hub) (tp : TransferPacket) (s : ℕ)
    → (relay_from h tp (some s)).packet_chan
      ≡ sent_to h.packet_chan tp.gp.raw_data (
          if is_unicast tp.gp.dst
          then target_of h tp (some s) (lookup tp.gp.dst h.router.client_map)
          else none)
unfolding relay_from update_addr_check set_client
relay_from-packet_chan h tp s = elim (Bool-cases (eqb tp.gp.dst.b3 255 || is_multicast tp.gp.dst)) [
  | inl e ↦ rw (e, relay_from)
  | inr e ↦ elim (Bool-cases (in_subnet tp.gp.dst && not (is_loopback tp.gp.dst))) [
    | inl f ↦
        rw (e, f, relay_from) (relay_to-packet_chan h tp s (lookup tp.gp.dst h.router.client_map))
    | inr f ↦ rw (e, f, relay_from)
  ]
]

-- The queue to the socket after `transfer` took a packet. If the sender is a registered address, if
-- the destination is in the server's subnet and is no broadcast, multicast or loopback address, if a
-- client is registered for it whose data address is known, and if the queue has room, the bytes of
-- the packet as they came are put at its end, for that data address; for a client that sends to
-- itself it is the address that the packet came from. In every other case, so for every broadcast and
-- multicast packet, nothing is put on it.
pub transfer-packet_chan :
    (h : Hub) (tp : TransferPacket)
    → (transfer h tp).packet_chan ≡ sent_to h.packet_chan tp.gp.raw_data (target h tp)
unfolding transfer
transfer-packet_chan h tp = elim (Option-cases (lookup tp.gp.src h.router.client_map)) [
  | inl e ↦ elim (Bool-cases (is_unicast tp.gp.dst)) [
    | inl f ↦ rw (e, f, relay_from)
    | inr f ↦ rw (e, f, relay_from)
  ]
  | inr (s, e) ↦ rw e (relay_from-packet_chan h tp s)
]
