-- ===== src/Hub/Owners/Datagrams.antt =====
-- The datagrams of the UDP sockets and the hole-punching tasks leave the owners of an address
-- alone.
use easytun.Base.{
  ℕ, ◌≡◌, refl, ap, ◌∙◌, inl, inr, true, List, Option, none, some, eqb, Bool-cases, Option-cases,
}
use easytun.Base.Assoc.{lookup}
use easytun.Base.Bytes.{Vip, vip_eq}
use easytun.Errors.{Error, Result, ok, err}
use easytun.Packet.Codec.{parse_packet, parse_control, empty_packet}
use easytun.Packet.Compress.{GamePacket, Lz4, Buffer}
use easytun.Packet.Header.{clear_flag}
use easytun.Packet.PType
use easytun.Tunnel.Manager.{exist, P2pTunnel}
use easytun.Hub.State.{Hub, Client, AddrPort, P2pTask, client_of}
use easytun.Hub.Records.{DnsCodec, build_dns_response}
use easytun.Hub.P2p.{
  handle_p2p_command, handle_p2p_task, run_command, count_task, send_command, symmetric_side,
  cone_side, udp_addr_port_to_bytes, type_symmetric, type_cone, send_check, ◌>>=◌,
}
use easytun.Hub.Udp.{
  receive_datagram, sort_packet, update_known, answer, receive_check, check_packet, forward_check,
}
use easytun.Hub.Transfer.{update_addr_check}
use easytun.Hub.Owners.{owned}
use easytun.Hub.Owners.Moves.{owned-set_client_same, owned-try_send_control}

module _ (a : ℕ) (live : List ℕ) where
  owned-update_known :
      (h : Hub) (o : Option ℕ) (addr : AddrPort)
      → owned a live (update_known h o addr) ≡ owned a live h
  unfolding update_known update_addr_check
  owned-update_known h none addr = refl
  owned-update_known h (some c) addr = owned-set_client_same a live h c _ refl

  owned-answer :
      (z : Lz4) (probe : Buffer) (h : Hub) (gp : GamePacket) (addr : AddrPort) (r : Result (List ℕ))
      → owned a live (answer z probe h gp addr r) ≡ owned a live h
  unfolding answer owned
  owned-answer z probe h gp addr (err e) = refl
  owned-answer z probe h gp addr (ok reply) = refl

  owned-sort_packet :
      (z : Lz4) (probe : Buffer) (d : DnsCodec) (h : Hub) (addr : AddrPort)
      (r : GamePacket × Option Error)
      → owned a live (sort_packet z probe d h addr r) ≡ owned a live h
  unfolding sort_packet
  owned-sort_packet z probe d h addr (gp, some e) = refl
  owned-sort_packet z probe d h addr (gp, none) =
      elim (Bool-cases (eqb (clear_flag gp.ptype) PType.ping)) [
        | inl e ↦ rw e (owned-update_known h (lookup gp.src h.router.client_map) addr)
        | inr e ↦ elim (Bool-cases (eqb (clear_flag gp.ptype) PType.dns_request)) [
          | inl f ↦ rw (e, f) (owned-answer z probe h gp addr (build_dns_response d h gp.payload))
          | inr f ↦ elim (Bool-cases (eqb (clear_flag gp.ptype) PType.data_type)) [
            | inl g ↦ rw (e, f, g) (unfold owned in refl)
            | inr g ↦ rw (e, f, g)
          ]
        ]
      ]

  pub owned-receive_datagram :
      (z : Lz4) (probe : Buffer) (d : DnsCodec) (h : Hub) (bytes : List ℕ) (addr : AddrPort)
      → owned a live (receive_datagram z probe d h bytes addr) ≡ owned a live h
  unfolding receive_datagram
  owned-receive_datagram z probe d h bytes addr =
      owned-sort_packet z probe d h addr (parse_packet empty_packet bytes true none)

  -- A step that may panic keeps the owners if it does not.
  data Keeps (h : Hub) : Option Hub → Type 0 where
    panics : Keeps h none
    keeps : {h' : Hub} → owned a live h' ≡ owned a live h → Keeps h (some h')

  send_command-Keeps :
      (h : Hub) (to : ℕ) (v w : Vip) (o : Option AddrPort) (n : ℕ)
      → Keeps h (send_command h to v w o n)
  unfolding send_command udp_addr_port_to_bytes
  send_command-Keeps h to v w none n = panics
  send_command-Keeps h to v w (some addr) n = elim (Option-cases addr.ip6) [
    | inl four ↦
        rw (four, udp_addr_port_to_bytes, send_command)
          (keeps (owned-try_send_control a live h to _))
    | inr (bytes, six) ↦ rw (six, udp_addr_port_to_bytes, send_command) panics
  ]

  Keeps-trans :
      {h g : Hub} {o : Option Hub} → owned a live g ≡ owned a live h → Keeps g o → Keeps h o
  Keeps-trans e panics = panics
  Keeps-trans e (keeps f) = keeps (f ∙ e)

  >>=-Keeps :
      {h : Hub} {o : Option Hub} (f : Hub → Option Hub)
      → Keeps h o
      → ((g : Hub) → Keeps g (f g))
      → Keeps h (o >>= f)
  >>=-Keeps f panics l = panics
  >>=-Keeps f (keeps {h' = g} e) l = Keeps-trans e (l g)

  symmetric_side-Keeps :
      (k : Client) (me peer : ℕ) (v w : Vip) (h : Hub) → Keeps h (symmetric_side k me peer v w h)
  unfolding symmetric_side
  symmetric_side-Keeps k me peer v w h = elim (Bool-cases (eqb k.nat_type type_symmetric)) [
    | inl e ↦ rw e (
        Keeps-trans (owned-try_send_control a live h me _)
          (send_command-Keeps (send_check h me w v) peer v w k.data_addr k.nat_type))
    | inr e ↦ rw e (keeps refl)
  ]

  cone_side-Keeps : (k : Client) (peer : ℕ) (v w : Vip) (h : Hub) → Keeps h (cone_side k peer v w h)
  unfolding cone_side
  cone_side-Keeps k peer v w h = elim (Bool-cases (eqb k.nat_type type_cone)) [
    | inl e ↦ rw e (send_command-Keeps h peer v w k.data_addr k.nat_type)
    | inr e ↦ rw e (keeps refl)
  ]

  handle_p2p_command-Keeps :
      (h : Hub) (src dst : ℕ) (task : P2pTask) → Keeps h (handle_p2p_command h src dst task)
  unfolding handle_p2p_command
  handle_p2p_command-Keeps h src dst task =
      let v = task.src_vip in
      let w = task.dst_vip in
      let k = client_of h src in
      let l = client_of h dst in
      >>=-Keeps (cone_side k dst v w)
        (>>=-Keeps (cone_side l src w v)
          (>>=-Keeps (symmetric_side l dst src w v) (symmetric_side-Keeps k src dst v w h)
            (symmetric_side-Keeps l dst src w v))
          (cone_side-Keeps l src w v))
        (cone_side-Keeps k dst v w)

  run_command-Keeps : (h : Hub) (task : P2pTask) (o p : Option ℕ) → Keeps h (run_command h task o p)
  unfolding run_command
  run_command-Keeps h task none p = keeps refl
  run_command-Keeps h task (some src) none = keeps refl
  run_command-Keeps h task (some src) (some dst) = handle_p2p_command-Keeps h src dst task

  forward_check-Keeps :
      (h : Hub) (gp : GamePacket) (addr : AddrPort) (t : Option P2pTunnel) (o p : Option ℕ)
      → Keeps h (forward_check h gp addr t o p)
  unfolding forward_check
  forward_check-Keeps h gp addr none o p = keeps refl
  forward_check-Keeps h gp addr (some t) none p = keeps refl
  forward_check-Keeps h gp addr (some t) (some src) none = keeps refl
  forward_check-Keeps h gp addr (some t) (some src) (some dst) =
      send_command-Keeps h dst gp.src gp.dst (some addr) (client_of h src).nat_type

  check_packet-Keeps :
      (h : Hub) (addr : AddrPort) (r : GamePacket × Option Error) → Keeps h (check_packet h addr r)
  check_packet-Keeps h addr (gp, some e) = keeps refl
  check_packet-Keeps h addr (gp, none) = elim (Bool-cases (eqb gp.ptype PType.p2p_check)) [
    | inl e ↦ rw e (
        forward_check-Keeps h gp addr (exist h.tm gp.src gp.dst) (lookup gp.src h.router.client_map)
          (lookup gp.dst h.router.client_map))
    | inr e ↦ rw e (keeps refl)
  ]

  from_Keeps :
      (h h' : Hub) (o : Option Hub) → Keeps h o → o ≡ some h' → owned a live h' ≡ owned a live h
  from_Keeps h h' none k e = cc
  from_Keeps h h' (some g) (keeps k) e =
      let same : h' ≡ g = cc in ap (λ (x : Hub). owned a live x) same ∙ k

  pub owned-handle_p2p_task :
      (h h' : Hub) (task : P2pTask)
      → handle_p2p_task h task ≡ some h'
      → owned a live h' ≡ owned a live h
  unfolding handle_p2p_task
  owned-handle_p2p_task h h' task e =
      let tm = count_task h.tm task.src_vip task.dst_vip (exist h.tm task.src_vip task.dst_vip) in
      let g = record h { tm = tm } in
      let o = lookup task.src_vip h.router.client_map in
      let p = lookup task.dst_vip h.router.client_map in
      from_Keeps g h' (run_command g task o p) (run_command-Keeps g task o p) e
      ∙ unfold owned in refl

  pub owned-receive_check :
      (h h' : Hub) (bytes : List ℕ) (addr : AddrPort)
      → receive_check h bytes addr ≡ some h'
      → owned a live h' ≡ owned a live h
  unfolding receive_check
  owned-receive_check h h' bytes addr e =
      let r = parse_control empty_packet bytes in
      from_Keeps h h' (check_packet h addr r) (check_packet-Keeps h addr r) e
