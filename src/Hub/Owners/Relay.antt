-- ===== src/Hub/Owners/Relay.antt =====
-- Relaying, hole punching and DNS leave the owners of an address alone.
use easytun.Base.{
  ℕ, ◌≤◌, ◌≡◌, refl, ◌∙◌, inl, inr, not, ◌&&◌, ◌||◌, List, Option, none, some, eqb, arith, nat_eq,
  bytes_eq, Bool-cases, Option-cases,
}
use easytun.Base.Assoc.{lookup}
use easytun.Base.Bytes.{Vip, vip_eq}
use easytun.Errors.{Error}
use easytun.Packet.Codec.{parse_control, empty_packet}
use easytun.Packet.Compress.{GamePacket}
use easytun.Packet.PType
use easytun.Hub.State.{
  Hub, WsHandler, on_handshake, on_noise_handshake, on_p2p_established, on_p2p_closed, AddrPort,
  TransferPacket, client_of,
}
use easytun.Hub.Session.{
  handle_noise_handshake, noise_answer, handle_p2p_established, handle_p2p_closed,
  handle_ws_message, dispatch, run_handler, after_parse, read_frame, after_handler, is_nil,
}
use easytun.Hub.P2p.{if_establish, new_p2p_task}
use easytun.Hub.Transfer.{
  transfer, relay_from, relay_to, consider, enqueue, update_addr_check, is_multicast, in_subnet,
  is_loopback,
}
use easytun.Hub.Owners.{count, owned}
use easytun.Hub.Owners.Moves.{owned-set_client_same, owned-try_send_control, owned-handle_handshake}

module _ (a : ℕ) (live : List ℕ) where
  owned-noise_answer :
      (h : Hub) (c : ℕ) (gp : GamePacket) (o : Option ℕ)
      → owned a live (noise_answer h c gp o) ≡ owned a live h
  unfolding noise_answer
  owned-noise_answer h c gp none = refl
  owned-noise_answer h c gp (some d) = owned-try_send_control a live h c _

  owned-run_handler :
      (w : WsHandler) (h : Hub) (c : ℕ) (gp : GamePacket)
      → count c live ≡ 1
      → owned a live (run_handler w h c gp).0 ≤ owned a live h
  unfolding run_handler
  owned-run_handler on_handshake h c gp once = owned-handle_handshake a live h c gp once
  owned-run_handler on_noise_handshake h c gp once =
      unfold handle_noise_handshake in
      omega (arith, owned-noise_answer h c gp (lookup gp.dst h.router.client_map))
  owned-run_handler on_p2p_established h c gp once =
      unfold handle_p2p_established owned in omega arith
  owned-run_handler on_p2p_closed h c gp once = unfold handle_p2p_closed owned in omega arith

  owned-handle_ws_message :
      (h : Hub) (c : ℕ) (gp : GamePacket)
      → count c live ≡ 1
      → owned a live (handle_ws_message h c gp).0 ≤ owned a live h
  unfolding handle_ws_message
  owned-handle_ws_message h c gp once = elim (Option-cases (lookup gp.ptype h.ws_handlers)) [
    | inl e ↦ rw (e, dispatch) (omega arith)
    | inr (w, e) ↦ rw (e, dispatch) (owned-run_handler w h c gp once)
  ]

  owned-after_handler :
      (gp : GamePacket) (r : Hub × Option Error)
      → owned a live (after_handler gp r).0 ≡ owned a live r.0
  owned-after_handler gp (h, none) = refl
  owned-after_handler gp (h, some e) = refl

  owned-after_parse :
      (h : Hub) (c : ℕ) (r : GamePacket × Option Error)
      → count c live ≡ 1
      → owned a live (after_parse h c r).0 ≤ owned a live h
  owned-after_parse h c (gp, some e) once = omega arith
  owned-after_parse h c (gp, none) once =
      elim (Bool-cases (not (eqb gp.ptype PType.handshake) && is_nil (client_of h c).virtual_ip)) [
        | inl e ↦ rw e (omega arith)
        | inr e ↦ rw e (
            omega (
              arith,
              owned-after_handler gp (handle_ws_message h c gp),
              owned-handle_ws_message h c gp once,
            ))
      ]

  pub owned-read_frame :
      (h : Hub) (c : ℕ) (bytes : List ℕ)
      → count c live ≡ 1
      → owned a live (read_frame h c bytes).0 ≤ owned a live h
  unfolding read_frame
  owned-read_frame h c bytes once = owned-after_parse h c (parse_control empty_packet bytes) once

  owned-update_addr_check :
      (h : Hub) (c : ℕ) (o : Option AddrPort)
      → owned a live (update_addr_check h c o) ≡ owned a live h
  unfolding update_addr_check
  owned-update_addr_check h c o = owned-set_client_same a live h c _ refl

  owned-enqueue :
      (h : Hub) (bytes : List ℕ) (o : Option AddrPort)
      → owned a live (enqueue h bytes o) ≡ owned a live h
  unfolding enqueue owned
  owned-enqueue h bytes none = refl
  owned-enqueue h bytes (some addr) = refl

  owned-consider :
      (h : Hub) (v w : Vip) (src dst : ℕ) (o : Option AddrPort)
      → owned a live (consider h v w src dst o) ≡ owned a live h
  unfolding consider owned new_p2p_task
  owned-consider h v w src dst o =
      elim (Bool-cases
        (if_establish h.tm v w (client_of h src).nat_type (client_of h dst).nat_type).0) [
          | inl e ↦ rw e
          | inr e ↦ rw e
        ]

  owned-relay_to :
      (h : Hub) (tp : TransferPacket) (src : ℕ) (o : Option ℕ)
      → owned a live (relay_to h tp src o) ≡ owned a live h
  unfolding relay_to
  owned-relay_to h tp src none = refl
  owned-relay_to h tp src (some dst) =
      owned-enqueue _ tp.gp.raw_data (client_of h dst).data_addr
      ∙ owned-consider h tp.gp.src tp.gp.dst src dst tp.src_addr

  owned-relay_from :
      (h : Hub) (tp : TransferPacket) (o : Option ℕ)
      → owned a live (relay_from h tp o) ≡ owned a live h
  unfolding relay_from
  owned-relay_from h tp none = refl
  owned-relay_from h tp (some src) =
      let h1 = update_addr_check h src tp.src_addr in
      let dst = tp.gp.dst in
      let moved = owned-update_addr_check h src tp.src_addr in
      elim (Bool-cases (eqb dst.b3 255 || is_multicast dst)) [
        | inl e ↦ rw e moved
        | inr e ↦ elim (Bool-cases (in_subnet dst && not (is_loopback dst))) [
          | inl f ↦ rw (e, f) (owned-relay_to h1 tp src (lookup dst h1.router.client_map) ∙ moved)
          | inr f ↦ rw (e, f) moved
        ]
      ]

  pub owned-transfer :
      (h : Hub) (tp : TransferPacket) → owned a live (transfer h tp) ≡ owned a live h
  unfolding transfer
  owned-transfer h tp = owned-relay_from h tp (lookup tp.gp.src h.router.client_map)
