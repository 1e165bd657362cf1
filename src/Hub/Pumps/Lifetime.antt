-- ===== src/Hub/Pumps/Lifetime.antt =====
-- A connection of internal/transport/server_ws.go from its upgrade to its end: readPump before and
-- after the handshake, and what serverWS keeps of the client.
use easytun.Base.{
  ℕ, ◌≡◌, refl, ap, sym, ◌∙◌, inl, inr, true, false, List, ◌∷◌, ◌++◌, Option, none, some, length,
  slice, drop, ltb, eqb, All, Option-cases, nat_eq, bytes_eq,
}
use easytun.Base.Assoc.{lookup}
use easytun.Base.Bytes.{Vip, vip_eq}
use easytun.Errors.{Error}
use easytun.Packet.Codec.{parse_control, empty_packet}
use easytun.Packet.Compress.{GamePacket}
use easytun.Packet.PType
use easytun.Hub.State.{
  Hub, Client, on_handshake, client_of, set_client, new_client, subnet_ip, try_send_control,
}
use easytun.Hub.Router.{remove_client, vip_of, add_client}
use easytun.Hub.Records.{add_dns}
use easytun.Hub.Pool.{get_ip, pop_ip}
use easytun.Hub.Session.{
  read_frame, after_handler, handle_ws_message, dispatch, run_handler, handle_handshake, introduce,
  identify, identify_with, admit_client, publish, publish_with, retain_client, retain_with,
  disconnect,
}
use easytun.Hub.Joining.{
  client_of-set_client_self, introduce-client_id, introduce-retention_map, handshake-admitted,
}
use easytun.Hub.Returning.{
  remove_client-retention_map, retain_client-lookup, retain_client-clients, remove_client-route,
}
use easytun.Hub.Pumps.Hearing.{IsQuiet, read_pump-Unmoved, read_pump-message}
use easytun.Hub.Pumps.{Heard, broken, message, hear, read_pump, server_ws}

publish_with-client_id :
    (h : Hub) (c : ℕ) (o : Option Vip)
    → (client_of (publish_with h c o).0 c).client_id ≡ (client_of h c).client_id
unfolding publish_with try_send_control add_dns add_client client_of
publish_with-client_id h c none = refl
publish_with-client_id h c (some v) =
    let h1 : Hub = add_dns (add_client h c) (client_of h c).hostname v in
    ap (λ (k : Client). k.client_id) (client_of-set_client_self h1 c _)

admit_client-client_id :
    (h : Hub) (c : ℕ) (wanted : List ℕ) (last : ℕ) (rest : List ℕ)
    → h.free_ips ≡ last ∷ rest
    → (client_of (admit_client h c wanted) c).client_id ≡ (client_of h c).client_id
unfolding admit_client get_ip client_of
admit_client-client_id h c wanted last rest pool =
    rw (pool, pop_ip)
      (ap (λ (k : Client). k.client_id)
        (client_of-set_client_self (record h { free_ips = rest }) c _))

handshake-client_id :
    (h : Hub) (c : ℕ) (gp : GamePacket) (last : ℕ) (rest : List ℕ)
    → ltb (length gp.payload) 49 ≡ false
    → lookup (slice 33 49 gp.payload) h.retention_map ≡ none
    → h.free_ips ≡ last ∷ rest
    → (client_of (handle_handshake h c gp).0 c).client_id ≡ slice 33 49 gp.payload
unfolding handle_handshake publish
handshake-client_id h c gp last rest long kept pool =
    let h1 : Hub = introduce h c gp.payload in
    let wanted = drop 49 gp.payload in
    let (same, pool1, dns) = introduce-retention_map h c gp.payload in
    let known : lookup (client_of h1 c).client_id h1.retention_map ≡ none =
      rw (introduce-client_id h c gp.payload, same) kept in
    let admitted : identify h1 c wanted ≡ admit_client h1 c wanted =
      unfold identify in rw (known, identify_with) in
    rw (long, admitted)
      (publish_with-client_id (admit_client h1 c wanted) c _
        ∙ admit_client-client_id h1 c wanted last rest (pool1 ∙ pool)
        ∙ introduce-client_id h c gp.payload)

after_handler-done :
    (gp : GamePacket) (r : Hub × Option Error) → r.1 ≡ none → after_handler gp r ≡ (r.0, true)
after_handler-done gp (h, none) e = refl
after_handler-done gp (h, some x) e = cc

read_frame-handshake :
    (h : Hub) (c : ℕ) (bytes : List ℕ) (gp : GamePacket)
    → parse_control empty_packet bytes ≡ (gp, none)
    → eqb gp.ptype PType.handshake ≡ true
    → lookup gp.ptype h.ws_handlers ≡ some on_handshake
    → (handle_handshake h c gp).1 ≡ none
    → read_frame h c bytes ≡ ((handle_handshake h c gp).0, true)
unfolding read_frame handle_ws_message dispatch run_handler
read_frame-handshake h c bytes gp parsed is_one handler fine =
    rw (parsed, is_one, handler) (after_handler-done gp (handle_handshake h c gp) fine)

remove_client-tables :
    (h : Hub) (c : ℕ)
    → ((remove_client h c).free_ips ≡ h.free_ips) × ((remove_client h c).dns_map ≡ h.dns_map)
unfolding remove_client
remove_client-tables h c = elim (Option-cases (lookup (vip_of h c) h.router.client_map)) [
  | inl e ↦ rw (remove_client, e) (refl, refl)
  | inr (d, e) ↦ rw (remove_client, e) (refl, refl)
]

retain_client-tables :
    (h : Hub) (c deadline : ℕ) (v : Vip)
    → (client_of h c).virtual_ip ≡ some v
    → ((retain_client h c deadline).free_ips ≡ h.free_ips)
      × ((retain_client h c deadline).dns_map ≡ h.dns_map)
unfolding retain_client
retain_client-tables h c deadline v at_v = rw (at_v, retain_with) (refl, refl)

-- What the end of a connection leaves of a client with an address.
disconnect-Kept :
    (h : Hub) (c deadline : ℕ) (v : Vip)
    → (client_of h c).virtual_ip ≡ some v
    → (lookup (client_of h c).client_id (disconnect h c deadline).retention_map
        ≡ some (record { virtual_ip = v; hostname = (client_of h c).hostname; expiry = deadline }))
      × (lookup v (disconnect h c deadline).router.client_map ≡ none)
      × ((disconnect h c deadline).free_ips ≡ h.free_ips)
      × ((disconnect h c deadline).dns_map ≡ h.dns_map)
unfolding disconnect
disconnect-Kept h c deadline v at_v =
    let kept : Hub = retain_client h c deadline in
    let still : (client_of kept c).virtual_ip ≡ some v =
      ap (λ (k : Client). k.virtual_ip) (retain_client-clients h c deadline v at_v) ∙ at_v in
    let (ips, names) = remove_client-tables kept c in
    let (ips', names') = retain_client-tables h c deadline v at_v in
    rw at_v (
      rw (remove_client-retention_map kept c) (retain_client-lookup h c v deadline at_v),
      remove_client-route kept c v still,
      ips ∙ ips',
      names ∙ names',
    )

-- A connection, from its upgrade to its end, of a client whose ID is not kept, while an address is
-- free. Before its handshake there are pings, timeouts, frames that are no binary messages or cannot
-- be read, and messages, none of which ParseControl reads as a handshake; then a handshake of at least
-- 49 bytes, for which the server has its handler; then anything but messages that ParseControl
-- accepts; then NextReader returns an error that is no timeout. With
-- nothing else happening meanwhile, the server ends with the address on top of the stack taken off
-- it and kept, until the deadline, under the client's ID, together with a name that nobody had,
-- which still leads to the address, while the address has no route. What comes before the handshake
-- has no effect on this, and what would come after the error neither.
pub server_ws-retained :
    (h : Hub) (c deadline last : ℕ) (ips bytes : List ℕ) (before idle more : List Heard)
    (gp : GamePacket)
    → parse_control empty_packet bytes ≡ (gp, none)
    → eqb gp.ptype PType.handshake ≡ true
    → lookup gp.ptype h.ws_handlers ≡ some on_handshake
    → ltb (length gp.payload) 49 ≡ false
    → lookup (slice 33 49 gp.payload) h.retention_map ≡ none
    → h.free_ips ≡ last ∷ ips
    → All (IsQuiet none) before
    → All (IsQuiet (some (record subnet_ip { b3 = last }))) idle
    → let ip = record subnet_ip { b3 = last } in
      let h' = server_ws h c (before ++ (message bytes ∷ (idle ++ (broken ∷ more)))) deadline in
      (name : List ℕ) × (lookup (slice 33 49 gp.payload) h'.retention_map
        ≡ some (record { virtual_ip = ip; hostname = name; expiry = deadline }))
      × (lookup name h.dns_map ≡ none)
      × (lookup name h'.dns_map ≡ some ip)
      × (lookup ip h'.router.client_map ≡ none)
      × (h'.free_ips ≡ ips)
unfolding server_ws
server_ws-retained h c deadline last ips bytes before idle more gp parsed is_one handler long kept
      pool quiet quiet' =
    let ip : Vip = record subnet_ip { b3 = last } in
    let h0 : Hub = set_client h c new_client in
    let fresh : (client_of h0 c).virtual_ip ≡ none =
      ap (λ (k : Client). k.virtual_ip) (client_of-set_client_self h c new_client)
      ∙ (unfold new_client in refl) in
    let (h1, ran, moved) =
      read_pump-Unmoved before (message bytes ∷ (idle ++ (broken ∷ more))) h0 c none fresh quiet in
    let over : h1 ≡ record h { clients = h1.clients } = unfold set_client in moved.0 in
    let kept1 : lookup (slice 33 49 gp.payload) h1.retention_map ≡ none =
      ap (λ (x : Hub). lookup (slice 33 49 gp.payload) x.retention_map) over ∙ kept in
    let pool1 : h1.free_ips ≡ last ∷ ips = ap (λ (x : Hub). x.free_ips) over ∙ pool in
    let handler1 : lookup gp.ptype h1.ws_handlers ≡ some on_handshake =
      ap (λ (x : Hub). lookup gp.ptype x.ws_handlers) over ∙ handler in
    let (fine, rest, (name, joined, unused, wish)) =
      handshake-admitted h1 c gp last ips long kept1 pool1 in
    let h2 : Hub = (handle_handshake h1 c gp).0 in
    let heard : hear h1 c (message bytes) ≡ (h2, true) =
      unfold hear in read_frame-handshake h1 c bytes gp parsed is_one handler1 fine in
    let (h3, ran', moved') =
      read_pump-Unmoved idle (broken ∷ more) h2 c (some ip) joined.address quiet' in
    let (e3, v3, n3, i3) = moved' in
    let ended : read_pump h0 c (before ++ (message bytes ∷ (idle ++ (broken ∷ more)))) ≡ h3 =
      ran
      ∙ read_pump-message h1 h2 c (message bytes) (idle ++ (broken ∷ more)) heard
      ∙ ran'
      ∙ (unfold read_pump hear in refl) in
    let at_ip : (client_of h3 c).virtual_ip ≡ some ip = v3 ∙ joined.address in
    let id3 : (client_of h3 c).client_id ≡ slice 33 49 gp.payload =
      i3 ∙ handshake-client_id h1 c gp last ips long kept1 pool1 in
    let name3 : (client_of h3 c).hostname ≡ name = n3 ∙ joined.name in
    let (held, gone, ips3, names3) = disconnect-Kept h3 c deadline ip at_ip in
    rw ended (
      name,
      rw (id3, name3) at held,
      ap (λ (x : Hub). lookup name x.dns_map) (sym over) ∙ unused,
      ap (lookup name) names3 ∙ ap (λ (x : Hub). lookup name x.dns_map) e3 ∙ joined.resolves,
      gone,
      ips3 ∙ ap (λ (x : Hub). x.free_ips) e3 ∙ rest,
    )
