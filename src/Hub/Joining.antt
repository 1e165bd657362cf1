-- ===== src/Hub/Joining.antt =====
-- handleHandshake of internal/transport/server_ws.go, for a client that is kept and for a new one.
use easytun.Base.{
  ℕ, ◌≡◌, ◌⊎◌, refl, ap, ◌∙◌, inl, inr, false, List, ◌∷◌, none, some, length, drop, slice, ltb,
  if◌then◌else◌, Eq-cases, nat_eq, bytes_eq, ◌==◌, beq_refl,
}
use easytun.Base.Assoc.{
  lookup, insert, delete, lookup-insert, lookup-insert_self, lookup-delete_self,
}
use easytun.Base.Bytes.{Vip, vip_eq}
use easytun.Packet.Compress.{GamePacket}
use easytun.Hub.State.{
  Hub, Client, OfflineClient, or_new, client_of, set_client, try_send_control, subnet_ip, ip_to_key,
}
use easytun.Hub.Names.{unique_host_name}
use easytun.Hub.Names.Fresh.{unique_host_name-unused}
use easytun.Hub.Pool.{get_ip, pop_ip}
use easytun.Hub.Records.{add_dns}
use easytun.Hub.Router.{add_client, vip_of}
use easytun.Hub.Session.{
  restore_client, admit_client, identify, identify_with, publish, publish_with, introduce,
  handle_handshake,
}

pub client_of-set_client :
    (h : Hub) (c d : ℕ) (k : Client)
    → client_of (set_client h c k) d ≡ (if c == d then k else client_of h d)
unfolding client_of set_client
client_of-set_client h c d k = elim (Eq-cases c d) [
  | inl (same, q) ↦ rw (lookup-insert c d k h.clients, q)
  | inr q ↦ rw (lookup-insert c d k h.clients, q)
]

pub client_of-set_client_self : (h : Hub) (c : ℕ) (k : Client) → client_of (set_client h c k) c ≡ k
client_of-set_client_self h c k = client_of-set_client h c c k ∙ rw (beq_refl c)

-- The client `c` has the address `v` and the name `n`, and both lead to it.
pub record Joined (h : Hub) (c : ℕ) (v : Vip) (n : List ℕ) : Type 0 where
  pub address : (client_of h c).virtual_ip ≡ some v
  pub name : (client_of h c).hostname ≡ n
  pub route : lookup v h.router.client_map ≡ some c
  pub resolves : lookup n h.dns_map ≡ some v

-- The state that `publish_with` leaves behind.
abbrev published : Hub → ℕ → Vip → Hub
published h c v = (publish_with h c (some v)).0

published-client :
    (h : Hub) (c : ℕ) (v : Vip)
    → ((client_of (published h c v) c).virtual_ip ≡ (client_of h c).virtual_ip)
      × ((client_of (published h c v) c).hostname ≡ (client_of h c).hostname)
unfolding publish_with try_send_control add_dns add_client
published-client h c v =
    let h1 : Hub = add_dns (add_client h c) (client_of h c).hostname v in
    let same : client_of h1 c ≡ client_of h c = unfold client_of in refl in
    let k : Client = client_of (published h c v) c in
    (
      ap (λ (k : Client). k.virtual_ip) (client_of-set_client_self h1 c _)
          ∙ ap (λ (k : Client). k.virtual_ip) same,
      ap (λ (k : Client). k.hostname) (client_of-set_client_self h1 c _)
          ∙ ap (λ (k : Client). k.hostname) same,
    )

published-tables :
    (h : Hub) (c : ℕ) (v : Vip)
    → ((published h c v).router.client_map ≡ insert (vip_of h c) c h.router.client_map)
      × ((published h c v).dns_map ≡ insert (client_of h c).hostname v h.dns_map)
unfolding publish_with try_send_control add_dns add_client set_client
published-tables h c v = (refl, refl)

publish_with-Joined :
    (h : Hub) (c : ℕ) (v : Vip) (n : List ℕ)
    → (client_of h c).virtual_ip ≡ some v
    → (client_of h c).hostname ≡ n
    → Joined (published h c v) c v n
unfolding ip_to_key
publish_with-Joined h c v n ev en =
    let (a, b) = published-client h c v in
    let (r, d) = published-tables h c v in
    record {
      address = a ∙ ev;
      name = b ∙ en;
      route = rw (r, ev) (lookup-insert_self v c h.router.client_map);
      resolves = rw (d, en) (lookup-insert_self n v h.dns_map);
    }

publish-Joined :
    (h : Hub) (c : ℕ) (v : Vip) (n : List ℕ)
    → (client_of h c).virtual_ip ≡ some v
    → (client_of h c).hostname ≡ n
    → ((publish h c).1 ≡ none)
      × Joined (publish h c).0 c v n
      × ((publish h c).0.retention_map ≡ h.retention_map)
      × ((publish h c).0.free_ips ≡ h.free_ips)
unfolding publish
publish-Joined h c v n ev en = rw ev (
  unfold publish_with in refl,
  publish_with-Joined h c v n ev en,
  unfold publish_with try_send_control add_dns add_client set_client in refl,
  unfold publish_with try_send_control add_dns add_client set_client in refl,
)

pub introduce-client_id :
    (h : Hub) (c : ℕ) (payload : List ℕ)
    → (client_of (introduce h c payload) c).client_id ≡ slice 33 49 payload
unfolding introduce
introduce-client_id h c payload = ap (λ (k : Client). k.client_id) (client_of-set_client_self h c _)

pub introduce-retention_map :
    (h : Hub) (c : ℕ) (payload : List ℕ)
    → ((introduce h c payload).retention_map ≡ h.retention_map)
      × ((introduce h c payload).free_ips ≡ h.free_ips)
      × ((introduce h c payload).dns_map ≡ h.dns_map)
unfolding introduce set_client
introduce-retention_map h c payload = (refl, refl, refl)

pub restore_client-fields :
    (h : Hub) (c : ℕ) (oc : OfflineClient)
    → ((client_of (restore_client h c oc) c).virtual_ip ≡ some oc.virtual_ip)
      × ((client_of (restore_client h c oc) c).hostname ≡ oc.hostname)
      × ((restore_client h c oc).retention_map ≡ delete (client_of h c).client_id h.retention_map)
      × ((restore_client h c oc).free_ips ≡ h.free_ips)
unfolding restore_client set_client client_of
restore_client-fields h c oc =
    let k : Client = record (client_of h c) {
      virtual_ip = some oc.virtual_ip;
      hostname = oc.hostname;
    } in
    let e : lookup c (insert c k h.clients) ≡ some k = lookup-insert_self c k h.clients in
    (ap (λ o. (or_new o).virtual_ip) e, ap (λ o. (or_new o).hostname) e, refl, refl)

-- A handshake of at least 49 bytes with an ID under which an address and a name are kept: it succeeds, the client has
-- that address and that name, both lead to it, nothing is kept under the ID any more, and no
-- address is taken from the pool.
pub handshake-restored :
    (h : Hub) (c : ℕ) (gp : GamePacket) (oc : OfflineClient)
    → ltb (length gp.payload) 49 ≡ false
    → lookup (slice 33 49 gp.payload) h.retention_map ≡ some oc
    → ((handle_handshake h c gp).1 ≡ none)
      × Joined (handle_handshake h c gp).0 c oc.virtual_ip oc.hostname
      × (lookup (slice 33 49 gp.payload) (handle_handshake h c gp).0.retention_map ≡ none)
      × ((handle_handshake h c gp).0.free_ips ≡ h.free_ips)
unfolding handle_handshake
handshake-restored h c gp oc long kept =
    let h1 : Hub = introduce h c gp.payload in
    let (same, pool, dns) = introduce-retention_map h c gp.payload in
    let known : lookup (client_of h1 c).client_id h1.retention_map ≡ some oc =
      rw (introduce-client_id h c gp.payload, same) kept in
    let restored : identify h1 c (drop 49 gp.payload) ≡ restore_client h1 c oc =
      unfold identify in rw (known, identify_with) in
    let (v, n, r, f) = restore_client-fields h1 c oc in
    let (e, j, kr, kf) = publish-Joined (restore_client h1 c oc) c oc.virtual_ip oc.hostname v n in
    rw (long, restored)
      (
        e,
        j,
        rw (kr, r, introduce-client_id h c gp.payload)
            (lookup-delete_self (slice 33 49 gp.payload) h1.retention_map),
        kf ∙ f ∙ pool,
      )

admit_client-fields :
    (h : Hub) (c : ℕ) (wanted n : List ℕ) (last : ℕ) (rest : List ℕ)
    → h.free_ips ≡ last ∷ rest
    → unique_host_name wanted h.dns_map ≡ some n
    → ((client_of (admit_client h c wanted) c).virtual_ip ≡ some (record subnet_ip { b3 = last }))
      × ((client_of (admit_client h c wanted) c).hostname ≡ n)
      × ((admit_client h c wanted).free_ips ≡ rest)
unfolding admit_client get_ip
admit_client-fields h c wanted n last rest pool name =
    rw (pool, pop_ip, name)
      (
        ap (λ (k : Client). k.virtual_ip)
            (client_of-set_client_self (record h { free_ips = rest }) c _),
        ap (λ (k : Client). k.hostname)
            (client_of-set_client_self (record h { free_ips = rest }) c _),
        unfold set_client in refl,
      )

-- A handshake of at least 49 bytes with an ID under which nothing is kept, while an address is
-- free: it succeeds, the
-- client has the address on top of the stack, which is taken off, and a name that nobody had,
-- the wanted one unless somebody had that; both lead to the client.
pub handshake-admitted :
    (h : Hub) (c : ℕ) (gp : GamePacket) (last : ℕ) (rest : List ℕ)
    → ltb (length gp.payload) 49 ≡ false
    → lookup (slice 33 49 gp.payload) h.retention_map ≡ none
    → h.free_ips ≡ last ∷ rest
    → ((handle_handshake h c gp).1 ≡ none)
      × ((handle_handshake h c gp).0.free_ips ≡ rest)
      × ((n : List ℕ) × Joined (handle_handshake h c gp).0 c (record subnet_ip { b3 = last }) n
          × (lookup n h.dns_map ≡ none)
          × ((n ≡ drop 49 gp.payload)
              ⊎ ((w : Vip) × (lookup (drop 49 gp.payload) h.dns_map ≡ some w))))
unfolding handle_handshake set_client
handshake-admitted h c gp last rest long kept pool =
    let h1 : Hub = introduce h c gp.payload in
    let wanted = drop 49 gp.payload in
    let (same, pool1, dns) = introduce-retention_map h c gp.payload in
    let known : lookup (client_of h1 c).client_id h1.retention_map ≡ none =
      rw (introduce-client_id h c gp.payload, same) kept in
    let admitted : identify h1 c wanted ≡ admit_client h1 c wanted =
      unfold identify in rw (known, identify_with) in
    let (name, found, free, wish) = unique_host_name-unused wanted h1.dns_map in
    let (v, n, f) = admit_client-fields h1 c wanted name last rest (pool1 ∙ pool) found in
    let (e, j, kr, kf) =
      publish-Joined (admit_client h1 c wanted) c (record subnet_ip { b3 = last }) name v n in
    rw (long, admitted) (e, kf ∙ f, (name, j, rw dns at free, rw dns at wish))
