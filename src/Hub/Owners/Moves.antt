-- ===== src/Hub/Owners/Moves.antt =====
-- What the operations of the server do to the owners of an address.
use easytun.Base.{
  ℕ, ◌+◌, ◌≤◌, ◌≡◌, refl, ap, ◌∙◌, inl, inr, List, [], ◌∷◌, Option, none, some, ltb, arith, nat_eq,
  bytes_eq, Bool-cases, Option-cases, length, drop,
}
use easytun.Base.Assoc.{lookup}
use easytun.Base.Bytes.{Vip, vip_eq}
use easytun.Packet.Compress.{GamePacket}
use easytun.Hub.State.{Hub, Client, OfflineClient, client_of, set_client, try_send_control}
use easytun.Hub.Pool.{pop_ip, get_ip}
use easytun.Hub.Records.{add_dns}
use easytun.Hub.Router.{add_client}
use easytun.Hub.Session.{
  restore_client, admit_client, identify, identify_with, publish_with, introduce, handle_handshake,
}
use easytun.Hub.Owners.{
  count, is_at, retained, owned, retained-delete, held-insert_same, held-insert,
}

module _ (a : ℕ) (live : List ℕ) where
  -- A write through the pointer of a client that leaves its address alone.
  pub owned-set_client_same :
      (h : Hub) (c : ℕ) (k : Client)
      → k.virtual_ip ≡ (client_of h c).virtual_ip
      → owned a live (set_client h c k) ≡ owned a live h
  unfolding owned set_client client_of
  owned-set_client_same h c k e =
      ap (λ (n : ℕ). count a h.free_ips + (retained a h.retention_map + n))
        (held-insert_same a live c k h.clients e)

  pub owned-try_send_control :
      (h : Hub) (c : ℕ) (gp : GamePacket) → owned a live (try_send_control h c gp) ≡ owned a live h
  unfolding try_send_control
  owned-try_send_control h c gp = owned-set_client_same h c _ refl

  pub owned-introduce :
      (h : Hub) (c : ℕ) (payload : List ℕ) → owned a live (introduce h c payload) ≡ owned a live h
  unfolding introduce
  owned-introduce h c payload = owned-set_client_same h c _ refl

  -- Coming back moves an address from the map to the client.
  pub owned-restore_client :
      (h : Hub) (c : ℕ) (oc : OfflineClient)
      → count c live ≡ 1
      → lookup (client_of h c).client_id h.retention_map ≡ some oc
      → owned a live (restore_client h c oc) ≤ owned a live h
  unfolding owned restore_client set_client
  owned-restore_client h c oc once e =
      let k = client_of h c in
      omega (
        arith,
        held-insert a live c (record k { virtual_ip = some oc.virtual_ip; hostname = oc.hostname })
            h.clients once,
        retained-delete a k.client_id h.retention_map oc e,
      )

  take_ip : Option Vip × Hub → ℕ
  take_ip (o, h) = is_at a o + owned a live h

  owned-pop_ip :
      (h : Hub) (free : List ℕ) → h.free_ips ≡ free → take_ip (pop_ip h free) ≡ owned a live h
  unfolding take_ip pop_ip owned is_at count
  owned-pop_ip h [] e = omega arith
  owned-pop_ip h (x ∷ rest) e = omega (arith, ap (count a) e)

  -- A fresh address comes off the stack.
  owned-get_ip : (h : Hub) → take_ip (get_ip h) ≡ owned a live h
  unfolding get_ip
  owned-get_ip h = owned-pop_ip h h.free_ips refl

  pub owned-admit_client :
      (h : Hub) (c : ℕ) (wanted : List ℕ)
      → count c live ≡ 1
      → owned a live (admit_client h c wanted) ≤ owned a live h
  unfolding admit_client take_ip owned set_client
  owned-admit_client h c wanted once =
      omega (arith, owned-get_ip h, held-insert a live c _ (get_ip h).1.clients once)

  owned-identify :
      (h : Hub) (c : ℕ) (wanted : List ℕ)
      → count c live ≡ 1
      → owned a live (identify h c wanted) ≤ owned a live h
  unfolding identify
  owned-identify h c wanted once =
      elim (Option-cases (lookup (client_of h c).client_id h.retention_map)) [
        | inl e ↦ rw (e, identify_with) (owned-admit_client h c wanted once)
        | inr (oc, e) ↦ rw (e, identify_with) (owned-restore_client h c oc once e)
      ]

  owned-publish_with :
      (h : Hub) (c : ℕ) (o : Option Vip) → owned a live (publish_with h c o).0 ≡ owned a live h
  unfolding publish_with
  owned-publish_with h c none = refl
  owned-publish_with h c (some vip) =
      owned-try_send_control _ c _ ∙ unfold owned add_dns add_client in refl

  pub owned-handle_handshake :
      (h : Hub) (c : ℕ) (gp : GamePacket)
      → count c live ≡ 1
      → owned a live (handle_handshake h c gp).0 ≤ owned a live h
  unfolding handle_handshake
  owned-handle_handshake h c gp once = elim (Bool-cases (ltb (length gp.payload) 49)) [
    | inl e ↦ rw e (omega arith)
    | inr e ↦ rw e (
        omega (
          arith,
          owned-introduce h c gp.payload,
          owned-identify (introduce h c gp.payload) c (drop 49 gp.payload) once,
          owned-publish_with (identify (introduce h c gp.payload) c (drop 49 gp.payload)) c
              (client_of (identify (introduce h c gp.payload) c (drop 49 gp.payload)) c).virtual_ip,
        ))
  ]
