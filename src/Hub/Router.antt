-- ===== src/Hub/Router.antt =====
-- addClient, removeClient, releasing what has expired: internal/transport/server_hub.go.
use easytun.Base.{ℕ, Bool, List, [], ◌∷◌, ◌++◌, none, some, ltb, if◌then◌else◌, bytes_eq}
use easytun.Base.Assoc.{Assoc, lookup, insert, delete, delete_if, values}
use easytun.Base.Bytes.{Vip, vip_eq}
use easytun.Tunnel.Manager.{remove_a}
use easytun.Hub.State.{Hub, OfflineClient, client_of, ip_to_key}
use easytun.Hub.Pool.{release_ip}
use easytun.Hub.Records.{remove_dns}

abbrev pub vip_of : Hub → ℕ → Vip
vip_of h c = ip_to_key (client_of h c).virtual_ip

-- The new snapshot: the old map with the client in it, and the clients of the old map with the
-- client at the end.
unfoldable pub add_client : Hub → ℕ → Hub
add_client h c = record h {
  router = record {
    client_map = insert (vip_of h c) c h.router.client_map;
    client_slice = values h.router.client_map ++ (c ∷ []);
  };
}

unfoldable pub remove_client : Hub → ℕ → Hub
remove_client h c = elim (lookup (vip_of h c) h.router.client_map) [
  | none ↦ h
  | some _ ↦
      let client_map = delete (vip_of h c) h.router.client_map in
      record h {
        router = record { client_map = client_map; client_slice = values client_map };
        tm = remove_a h.tm (vip_of h c);
      }
]

-- What the loop of cleanRetention gives back for an entry whose time is over.
unfoldable pub release_offline : Hub → OfflineClient → Hub
unfolding release_ip remove_dns
release_offline h oc = remove_dns (release_ip h oc.virtual_ip) oc.hostname

-- `now.After(expiry)`
abbrev pub is_expired : ℕ → OfflineClient → Bool
is_expired now oc = ltb oc.expiry now

unfoldable pub release_expired : ℕ → Assoc (List ℕ) OfflineClient → Hub → Hub
release_expired now [] h = h
release_expired now ((cid, oc) ∷ rest) h =
    release_expired now rest (if is_expired now oc then release_offline h oc else h)

-- The loop deletes the entries that it releases; the map is locked meanwhile.
unfoldable pub clean_retention : ℕ → Hub → Hub
unfolding release_expired
clean_retention now h =
    let h1 = release_expired now h.retention_map h in
    record h1 { retention_map = delete_if (λ cid oc. is_expired now oc) h1.retention_map }
