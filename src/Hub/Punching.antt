-- ===== src/Hub/Punching.antt =====
-- ifEstablish and handleP2PCommand of internal/transport/server_p2p.go.
use easytun.Base.{
  ℕ, ◌≡◌, refl, ◌∙◌, inl, inr, Bool, true, false, List, Option, none, some, leb, ltb, eqb, ◌||◌,
  ◌&&◌, arith, Bool-cases, Option-cases, nat_eq, bytes_eq, beq_refl,
}
use easytun.Base.Bytes.{Vip, vip_eq}
use easytun.Tunnel.Key.{make_key}
use easytun.Tunnel.Manager.{
  P2pTunnel, TunnelManager, exist, change_status, tunnel_init, tunnel_failed,
}
use easytun.Tunnel.Laws.{exist_comm}
use easytun.Tunnel.Removal.{exist-add_tunnel, exist-update_tunnel}
use easytun.Hub.State.{Hub, Client, AddrPort, P2pTask, client_of}
use easytun.Hub.P2p.{
  if_establish, retry_tunnel, type_unknown, type_cone, type_symmetric, handle_p2p_command,
  symmetric_side, cone_side, send_command, udp_addr_port_to_bytes, ◌>>=◌,
}

-- A tunnel that is being set up.
abbrev Pending : TunnelManager → Vip → Vip → Type 0
Pending tm v w = (t : P2pTunnel) × (exist tm v w ≡ some t) × (t.status ≡ tunnel_init)

not_asked_again :
    (tm : TunnelManager) (v w : Vip) (m n : ℕ)
    → Pending tm v w
    → (if_establish tm v w m n).0 ≡ false
unfolding if_establish retry_tunnel
not_asked_again tm v w m n (t, e, s) =
    elim (Bool-cases (leb m type_unknown || leb n type_unknown)) [
      | inl p ↦ rw p
      | inr p ↦ rw (p, if_establish, e, retry_tunnel, s)
    ]

retry_tunnel-Pending :
    (tm : TunnelManager) (v w : Vip) (t : P2pTunnel)
    → exist tm v w ≡ some t
    → (retry_tunnel tm v w t).0 ≡ true
    → Pending (retry_tunnel tm v w t).1 v w
unfolding retry_tunnel
retry_tunnel-Pending tm v w t e asked =
    elim (Bool-cases (eqb t.status tunnel_failed && ltb t.retry_times 6)) [
      | inl p ↦
          rw (p, retry_tunnel)
            (
              change_status tunnel_init t,
              exist-update_tunnel tm v w (change_status tunnel_init) t e,
              unfold change_status in refl,
            )
      | inr p ↦ cc (rw (p, retry_tunnel) at asked)
    ]

if_establish-Pending :
    (tm : TunnelManager) (v w : Vip) (m n : ℕ)
    → (if_establish tm v w m n).0 ≡ true
    → Pending (if_establish tm v w m n).1 v w
unfolding if_establish retry_tunnel
if_establish-Pending tm v w m n asked =
    elim (Bool-cases (leb m type_unknown || leb n type_unknown)) [
      | inl p ↦ cc (rw (p, if_establish) at asked)
      | inr p ↦ elim (Option-cases (exist tm v w)) [
        | inl e ↦
            rw (p, if_establish, e)
              (
                record { a = v; b = w; status = tunnel_init; retry_times = 0 },
                exist-add_tunnel tm v w v w tunnel_init ∙ rw (e, beq_refl (make_key v w)),
                refl,
              )
        | inr (t, e) ↦
            rw (p, if_establish, e)
              (retry_tunnel-Pending tm v w t e (rw (p, if_establish, e) at asked))
      ]
    ]

-- When ifEstablish says yes to a pair, it says no the next time it is asked about the two, in
-- either direction and with whatever NAT types.
pub if_establish-once :
    (tm : TunnelManager) (v w : Vip) (m n i j : ℕ)
    → (if_establish tm v w m n).0 ≡ true
    → ((if_establish (if_establish tm v w m n).1 v w i j).0 ≡ false)
      × ((if_establish (if_establish tm v w m n).1 w v i j).0 ≡ false)
if_establish-once tm v w m n i j asked =
    let (t, e, s) = if_establish-Pending tm v w m n asked in
    let next : TunnelManager = (if_establish tm v w m n).1 in
    (
      not_asked_again next v w i j (t, e, s),
      not_asked_again next w v i j (t, exist_comm next w v ∙ e, s),
    )

-- `none`, a panic
abbrev pub is_panic : Option Hub → Bool
is_panic none = true
is_panic (some h) = false

abbrev pub is_some : Option (List ℕ) → Bool
is_some none = false
is_some (some bytes) = true

-- No address is stored, or one of IPv6 with no IPv4 address in it.
abbrev pub has_no_ipv4 : Option AddrPort → Bool
has_no_ipv4 none = true
has_no_ipv4 (some a) = is_some a.ip6

bind-is_panic :
    (x : Option Hub) (f : Hub → Option Hub) (b : Bool)
    → ((h : Hub) → is_panic (f h) ≡ b)
    → is_panic (x >>= f) ≡ (is_panic x || b)
bind-is_panic none f b e = refl
bind-is_panic (some h) f b e = e h

send_command-is_panic :
    (h : Hub) (to : ℕ) (peer to_vip : Vip) (addr : Option AddrPort) (nat : ℕ)
    → is_panic (send_command h to peer to_vip addr nat) ≡ has_no_ipv4 addr
unfolding send_command udp_addr_port_to_bytes
send_command-is_panic h to peer to_vip none nat = refl
send_command-is_panic h to peer to_vip (some a) nat = elim (Option-cases a.ip6) [
  | inl four ↦ rw (four, udp_addr_port_to_bytes, send_command) refl
  | inr (bytes, six) ↦ rw (six, udp_addr_port_to_bytes, send_command) refl
]

symmetric_side-is_panic :
    (a : Client) (me peer : ℕ) (my_vip peer_vip : Vip) (h : Hub)
    → is_panic (symmetric_side a me peer my_vip peer_vip h)
      ≡ (eqb a.nat_type type_symmetric && has_no_ipv4 a.data_addr)
unfolding symmetric_side
symmetric_side-is_panic a me peer my_vip peer_vip h =
    elim (Bool-cases (eqb a.nat_type type_symmetric)) [
      | inl p ↦
          rw (p, symmetric_side)
            (send_command-is_panic _ peer my_vip peer_vip a.data_addr a.nat_type)
      | inr p ↦ rw (p, symmetric_side)
    ]

cone_side-is_panic :
    (a : Client) (peer : ℕ) (my_vip peer_vip : Vip) (h : Hub)
    → is_panic (cone_side a peer my_vip peer_vip h)
      ≡ (eqb a.nat_type type_cone && has_no_ipv4 a.data_addr)
unfolding cone_side
cone_side-is_panic a peer my_vip peer_vip h = elim (Bool-cases (eqb a.nat_type type_cone)) [
  | inl p ↦ rw (p, cone_side) (send_command-is_panic h peer my_vip peer_vip a.data_addr a.nat_type)
  | inr p ↦ rw (p, cone_side)
]

-- A client whose address a command carries, while none of IPv4 is stored.
abbrev pub is_unreached : Client → Bool
is_unreached k =
    (eqb k.nat_type type_symmetric || eqb k.nat_type type_cone) && has_no_ipv4 k.data_addr

four_parts :
    (a b c d p q : Bool)
    → (((a && p) || (b && q)) || (d && q)) || (c && p) ≡ ((a || c) && p) || ((b || d) && q)
four_parts a b c d p q = ground arith

-- handleP2PCommand panics exactly if one of the two clients is behind a cone or a symmetric NAT
-- and the data address that is stored for it is missing, or is one of IPv6 that has no IPv4 address
-- in it.
pub handle_p2p_command-is_panic :
    (h : Hub) (src dst : ℕ) (task : P2pTask)
    → is_panic (handle_p2p_command h src dst task)
      ≡ (is_unreached (client_of h src) || is_unreached (client_of h dst))
unfolding handle_p2p_command
handle_p2p_command-is_panic h src dst task =
    let a : Client = client_of h src in
    let b : Client = client_of h dst in
    let s1 = symmetric_side a src dst task.src_vip task.dst_vip h in
    bind-is_panic _ (cone_side a dst task.src_vip task.dst_vip) _
      (cone_side-is_panic a dst task.src_vip task.dst_vip)
    ∙ rw
        (
          bind-is_panic (s1 >>= symmetric_side b dst src task.dst_vip task.src_vip)
              (cone_side b src task.dst_vip task.src_vip) _
              (cone_side-is_panic b src task.dst_vip task.src_vip),
          bind-is_panic s1 (symmetric_side b dst src task.dst_vip task.src_vip) _
              (symmetric_side-is_panic b dst src task.dst_vip task.src_vip),
          symmetric_side-is_panic a src dst task.src_vip task.dst_vip h,
        )
        (four_parts (eqb a.nat_type type_symmetric) (eqb b.nat_type type_symmetric)
          (eqb a.nat_type type_cone) (eqb b.nat_type type_cone) (has_no_ipv4 a.data_addr)
          (has_no_ipv4 b.data_addr))
