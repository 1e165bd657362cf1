-- ===== src/Hub/Returning.antt =====
-- A client that leaves and comes back: serverWS keeps its address and name, handleHandshake gives
-- them back, and what happens when the two overlap.
use easytun.Base.{
  ℕ, ◌≡◌, ◌∙◌, inl, inr, false, none, some, length, slice, drop, ltb, nat_eq, bytes_eq, ◌==◌,
  Option-cases,
}
use easytun.Base.Assoc.{lookup, lookup-insert_self, lookup-delete_self}
use easytun.Base.Bytes.{Vip, vip_eq}
use easytun.Packet.Compress.{GamePacket}
use easytun.Hub.State.{
  Hub, Client, OfflineClient, client_of, set_client, try_send_control, ip_to_key,
}
use easytun.Hub.Records.{add_dns}
use easytun.Hub.Router.{add_client, remove_client, vip_of}
use easytun.Hub.Session.{
  restore_client, identify, identify_with, publish, publish_with, introduce, handle_handshake,
  disconnect, retain_client, retain_with,
}
use easytun.Hub.Joining.{
  Joined, handshake-restored, client_of-set_client, introduce-client_id, introduce-retention_map,
  restore_client-fields,
}

pub remove_client-retention_map :
    (h : Hub) (c : ℕ) → (remove_client h c).retention_map ≡ h.retention_map
unfolding remove_client
remove_client-retention_map h c = elim (Option-cases (lookup (vip_of h c) h.router.client_map)) [
  | inl e ↦ rw (remove_client, e)
  | inr (d, e) ↦ rw (remove_client, e)
]

pub retain_client-lookup :
    (h : Hub) (c : ℕ) (v : Vip) (deadline : ℕ)
    → (client_of h c).virtual_ip ≡ some v
    → lookup (client_of h c).client_id (retain_client h c deadline).retention_map
      ≡ some (record { virtual_ip = v; hostname = (client_of h c).hostname; expiry = deadline })
unfolding retain_client
retain_client-lookup h c v deadline at_v =
    rw (at_v, retain_with) (lookup-insert_self (client_of h c).client_id _ h.retention_map)

-- A client with an address disconnects, and a connection shakes hands, in at least 49 bytes, with
-- its ID before anything else happens: it gets the same address and name, and both lead to it.
pub reconnect-Joined :
    (h : Hub) (c d deadline : ℕ) (v : Vip) (gp : GamePacket)
    → (client_of h c).virtual_ip ≡ some v
    → ltb (length gp.payload) 49 ≡ false
    → slice 33 49 gp.payload ≡ (client_of h c).client_id
    → ((handle_handshake (disconnect h c deadline) d gp).1 ≡ none)
      × Joined (handle_handshake (disconnect h c deadline) d gp).0 d v (client_of h c).hostname
unfolding disconnect
reconnect-Joined h c d deadline v gp at_v long same =
    let gone : Hub = remove_client (retain_client h c deadline) c in
    let oc : OfflineClient = record {
      virtual_ip = v;
      hostname = (client_of h c).hostname;
      expiry = deadline;
    } in
    let kept : lookup (slice 33 49 gp.payload) gone.retention_map ≡ some oc =
      rw (same, remove_client-retention_map (retain_client h c deadline) c)
        (retain_client-lookup h c v deadline at_v) in
    let (e, j, gone_id, pool) = handshake-restored gone d gp oc long kept in rw at_v (e, j)

-- Nothing that a handshake does reaches another client.
others :
    (h : Hub) (c d : ℕ) (k : Client)
    → d == c ≡ false
    → client_of (set_client h d k) c ≡ client_of h c
others h c d k apart = client_of-set_client h d c k ∙ rw apart

restore_client-others :
    (h : Hub) (c d : ℕ) (oc : OfflineClient)
    → d == c ≡ false
    → client_of (restore_client h d oc) c ≡ client_of h c
unfolding restore_client client_of
restore_client-others h c d oc apart = others h c d _ apart

publish-others :
    (h : Hub) (c d : ℕ) (v : Vip)
    → d == c ≡ false
    → (client_of h d).virtual_ip ≡ some v
    → client_of (publish h d).0 c ≡ client_of h c
unfolding publish try_send_control client_of add_client add_dns
publish-others h c d v apart at_v =
    rw (at_v, publish_with)
      (others (add_dns (add_client h d) (client_of h d).hostname v) c d _ apart)

handshake-others :
    (h : Hub) (c d : ℕ) (gp : GamePacket) (oc : OfflineClient)
    → d == c ≡ false
    → ltb (length gp.payload) 49 ≡ false
    → lookup (slice 33 49 gp.payload) h.retention_map ≡ some oc
    → client_of (handle_handshake h d gp).0 c ≡ client_of h c
unfolding handle_handshake
handshake-others h c d gp oc apart long kept =
    let h1 : Hub = introduce h d gp.payload in
    let known : lookup (client_of h1 d).client_id h1.retention_map ≡ some oc =
      rw (introduce-client_id h d gp.payload, (introduce-retention_map h d gp.payload).0) kept in
    let restored : identify h1 d (drop 49 gp.payload) ≡ restore_client h1 d oc =
      unfold identify in rw (known, identify_with) in
    rw (long, restored)
      (publish-others (restore_client h1 d oc) c d oc.virtual_ip apart
          (restore_client-fields h1 d oc).0
        ∙ restore_client-others h1 c d oc apart
        ∙ others h c d _ apart)

pub retain_client-clients :
    (h : Hub) (c deadline : ℕ) (v : Vip)
    → (client_of h c).virtual_ip ≡ some v
    → client_of (retain_client h c deadline) c ≡ client_of h c
unfolding retain_client client_of
retain_client-clients h c deadline v at_v = rw (at_v, retain_with)

pub remove_client-route :
    (h : Hub) (c : ℕ) (v : Vip)
    → (client_of h c).virtual_ip ≡ some v
    → lookup v (remove_client h c).router.client_map ≡ none
unfolding remove_client ip_to_key
remove_client-route h c v at_v = elim (Option-cases (lookup (vip_of h c) h.router.client_map)) [
  | inl e ↦ rw (e, remove_client) (rw (at_v, ip_to_key) at e)
  | inr (d, e) ↦ rw (e, remove_client, at_v, ip_to_key) (lookup-delete_self v h.router.client_map)
]

-- serverWS keeps the address of a client first and takes its route down later. If another
-- connection shakes hands, in at least 49 bytes, with the same ID in between, it is given the
-- address with its route and name, and then the address has no route.
pub reconnect_race :
    (h : Hub) (c d deadline : ℕ) (v : Vip) (gp : GamePacket)
    → d == c ≡ false
    → (client_of h c).virtual_ip ≡ some v
    → ltb (length gp.payload) 49 ≡ false
    → slice 33 49 gp.payload ≡ (client_of h c).client_id
    → Joined (handle_handshake (retain_client h c deadline) d gp).0 d v (client_of h c).hostname
      × (lookup v
            (remove_client
              (handle_handshake (retain_client h c deadline) d gp).0
              c).router.client_map
          ≡ none)
reconnect_race h c d deadline v gp apart at_v long same =
    let kept : Hub = retain_client h c deadline in
    let oc : OfflineClient = record {
      virtual_ip = v;
      hostname = (client_of h c).hostname;
      expiry = deadline;
    } in
    let found : lookup (slice 33 49 gp.payload) kept.retention_map ≡ some oc =
      rw same (retain_client-lookup h c v deadline at_v) in
    let (e, j, gone, pool) = handshake-restored kept d gp oc long found in
    let still : client_of (handle_handshake kept d gp).0 c ≡ client_of h c =
      handshake-others kept c d gp oc apart long found
      ∙ retain_client-clients h c deadline v at_v in
    (j, remove_client-route (handle_handshake kept d gp).0 c v (rw still at_v))
