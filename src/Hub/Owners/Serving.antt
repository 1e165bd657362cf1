-- ===== src/Hub/Owners/Serving.antt =====
-- serverWS of internal/transport/server_ws.go as a run of the server.
use easytun.Base.{
  ℕ, ◌≡◌, refl, false, List, [], ◌∷◌, arith, Bool-cases, inl, inr, nat_eq, ap, eqb, subst, beq_refl,
  Option, none, some, Option-cases,
}
use easytun.Hub.State.{Hub, new_client, set_client}
use easytun.Hub.Pumps.{
  Heard, pinged, timed_out, broken, not_binary, unreadable, message, hear, read_pump, server_ws,
}
use easytun.Hub.Owners.{count}
use easytun.Hub.Owners.Leaving.{without}
use easytun.Hub.Owners.Run.{World, Reach, here, next, connects, reads, pings, ends, hears, checks}
use easytun.Packet.Compress.{Lz4, Buffer}
use easytun.Hub.Records.{DnsCodec}
use easytun.Hub.Udp.{Message, receive_datagram, receive_check}
use easytun.Hub.Listening.{ReadBatch, not_read, batch, receive_batch, listen_udp, listen_check}

Reach-trans : {u v w : World} → Reach u v → Reach v w → Reach u w
Reach-trans r here = r
Reach-trans r (next q s) = next (Reach-trans r q) s

hear-Reach :
    (w : World) (c : ℕ) (e : Heard)
    → count c w.live ≡ 1
    → Reach w (record w { hub = (hear w.hub c e).0 })
unfolding hear
hear-Reach w c pinged h = next here (pings c h)
hear-Reach w c timed_out h = here
hear-Reach w c broken h = here
hear-Reach w c not_binary h = here
hear-Reach w c unreadable h = here
hear-Reach w c (message bytes) h = next here (reads c bytes h)

read_pump-Reach :
    (events : List Heard) (w : World) (c : ℕ)
    → count c w.live ≡ 1
    → Reach w (record w { hub = read_pump w.hub c events })
unfolding read_pump
read_pump-Reach [] w c h = here
read_pump-Reach (e ∷ events) w c h = elim (Bool-cases (hear w.hub c e).1) [
  | inl goes ↦ rw goes (
      Reach-trans (hear-Reach w c e h)
        (read_pump-Reach events (record w { hub = (hear w.hub c e).0 }) c h))
  | inr stops ↦ rw stops (hear-Reach w c e h)
]

without-unused : (c : ℕ) (live : List ℕ) → count c live ≡ 0 → without c live ≡ live
unfolding without count
without-unused c [] h = refl
without-unused c (d ∷ live) h =
    let differs : eqb c d ≡ false = ground arith in
    rw differs (ap (◌∷◌ d) (without-unused c live (ground arith)))

-- The live connections are the same after one has come and gone.
without-cons : (c : ℕ) (live : List ℕ) → count c live ≡ 0 → without c (c ∷ live) ≡ live
unfolding without
without-cons c live h = rw (beq_refl c, without-unused c live h) refl

count-cons : (c : ℕ) (live : List ℕ) → count c live ≡ 0 → count c (c ∷ live) ≡ 1
unfolding count
count-cons c live h = ground arith

-- A connection from its upgrade to its end, whatever NextReader gives it, is a run of the server, which
-- leaves the other connections open.
pub server_ws-Reach :
    (w : World) (c : ℕ) (events : List Heard) (deadline : ℕ)
    → count c w.live ≡ 0
    → Reach w (record w { hub = server_ws w.hub c events deadline })
unfolding server_ws
server_ws-Reach w c events deadline new =
    let opened : World = record { hub = set_client w.hub c new_client; live = c ∷ w.live } in
    let once : count c (c ∷ w.live) ≡ 1 = count-cons c w.live new in
    let heard = read_pump-Reach events opened c once in
    let closed = next (Reach-trans (next here (connects c new)) heard) (ends c deadline once) in
    subst (λ l. Reach w (record { hub = server_ws w.hub c events deadline; live = l }))
      (without-cons c w.live new) closed

module _ (z : Lz4) (probe : Buffer) (d : DnsCodec) where
  receive_batch-Reach :
      (msgs : List Message) (w : World)
      → Reach w (record w { hub = receive_batch z probe d w.hub msgs })
  unfolding receive_batch
  receive_batch-Reach [] w = here
  receive_batch-Reach (m ∷ msgs) w =
      Reach-trans (next here (hears z probe d m.body m.addr)) (
        receive_batch-Reach msgs
          (record w { hub = receive_datagram z probe d w.hub m.body m.addr }))

  -- Every run of the loop of listenUdp is a run of the server.
  pub listen_udp-Reach :
      (rest : List ReadBatch) (w : World)
      → Reach w (record w { hub = listen_udp z probe d w.hub rest })
  unfolding listen_udp
  listen_udp-Reach [] w = here
  listen_udp-Reach (not_read ∷ rest) w = listen_udp-Reach rest w
  listen_udp-Reach (batch msgs ∷ rest) w =
      Reach-trans (receive_batch-Reach msgs w)
        (listen_udp-Reach rest (record w { hub = receive_batch z probe d w.hub msgs }))

-- So is every run of the loop of listenCheck that does not panic.
pub listen_check-Reach :
    (rest : List (Option Message)) (w : World) (h : Hub)
    → listen_check w.hub rest ≡ some h
    → Reach w (record w { hub = h })
unfolding listen_check
listen_check-Reach [] w h e = subst (λ k. Reach w (record w { hub = k })) (cc) here
listen_check-Reach (none ∷ rest) w h e = listen_check-Reach rest w h e
listen_check-Reach (some m ∷ rest) w h e = elim (Option-cases (receive_check w.hub m.body m.addr)) [
  | inl stops ↦ cc (rw (stops, listen_check) at e)
  | inr (h', goes) ↦
      Reach-trans (next here (checks m.body m.addr h' goes))
        (listen_check-Reach rest (record w { hub = h' }) h (rw (goes, listen_check) at e))
]
