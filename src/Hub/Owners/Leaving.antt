-- ===== src/Hub/Owners/Leaving.antt =====
-- The owners of an address when a client leaves, and when the server gives up on it.
use easytun.Base.{
  ℕ, ◌+◌, ◌≤◌, ◌≡◌, refl, ap, ◌∙◌, inl, inr, false, List, [], ◌∷◌, Option, none, some, eqb,
  if◌then◌else◌, arith, nat_eq, bytes_eq, Bool-cases, Option-cases, Eq-cases,
}
use easytun.Base.Assoc.{Assoc, lookup, insert, delete_if}
use easytun.Base.Bytes.{Vip, vip_eq}
use easytun.Hub.State.{Hub, Client, OfflineClient, or_new, client_of}
use easytun.Hub.Router.{
  remove_client, release_offline, release_expired, clean_retention, is_expired, vip_of,
}
use easytun.Hub.Session.{retain_client, retain_with, disconnect, is_nil}
use easytun.Hub.Owners.{count, is_at, retained, held, owned, retained-delete-le}

unfoldable pub without : ℕ → List ℕ → List ℕ
without c [] = []
without c (d ∷ live) = let rest = without c live in if eqb c d then rest else d ∷ rest

pub count-without :
    (c d : ℕ) (live : List ℕ) → count d (without c live) ≡ (if eqb c d then 0 else count d live)
unfolding count without
count-without c d [] = ground arith
count-without c d (x ∷ live) = ground (arith, count-without c d live)

module _ (a : ℕ) where
  held-without_other :
      (live : List ℕ) (c : ℕ) (m : Assoc ℕ Client)
      → count c live ≡ 0
      → held a (without c live) m ≡ held a live m
  unfolding held count without
  held-without_other [] c m h = refl
  held-without_other (d ∷ live) c m h =
      let differs : eqb c d ≡ false = ground arith in
      rw differs (rw (held-without_other live c m (ground arith)))

  -- A connection that ends takes its share with it.
  pub held-without :
      (live : List ℕ) (c : ℕ) (m : Assoc ℕ Client)
      → count c live ≡ 1
      → held a (without c live) m + is_at a (or_new (lookup c m)).virtual_ip ≡ held a live m
  unfolding held count without
  held-without [] c m h = absurd (omega arith)
  held-without (d ∷ live) c m h = elim (Eq-cases c d) [
    | inl (same, q) ↦
        let rest : count c live ≡ 0 = ground arith in
        rw (q, held-without_other live c m rest, same) (omega arith)
    | inr q ↦
        let rest : count c live ≡ 1 = ground arith in
        rw q (omega (arith, held-without live c m rest))
  ]

  pub owned-remove_client :
      (live : List ℕ) (h : Hub) (c : ℕ) → owned a live (remove_client h c) ≡ owned a live h
  unfolding remove_client owned
  owned-remove_client live h c = elim (Option-cases (lookup (vip_of h c) h.router.client_map)) [
    | inl e ↦ rw (e, remove_client)
    | inr (d, e) ↦ rw (e, remove_client)
  ]

  owned-retain_with :
      (live : List ℕ) (h : Hub) (c deadline : ℕ) (o : Option Vip)
      → (client_of h c).virtual_ip ≡ o
      → count c live ≡ 1
      → owned a (without c live) (retain_with h c deadline o) ≤ owned a live h
  unfolding retain_with owned retained insert client_of
  owned-retain_with live h c deadline none e once =
      omega (arith, held-without live c h.clients once)
  owned-retain_with live h c deadline (some v) e once = omega (
    arith,
    held-without live c h.clients once,
    ap (is_at a) e,
    retained-delete-le a (client_of h c).client_id h.retention_map,
  )

  -- The address goes from the connection to the map of those that are away; if the ID was there
  -- already, the address that it had is lost.
  pub owned-disconnect :
      (live : List ℕ) (h : Hub) (c deadline : ℕ)
      → count c live ≡ 1
      → owned a (without c live) (disconnect h c deadline) ≤ owned a live h
  unfolding disconnect retain_client
  owned-disconnect live h c deadline once = elim (Bool-cases (is_nil (client_of h c).virtual_ip)) [
    | inl e ↦ rw e (unfold owned client_of in omega (arith, held-without live c h.clients once))
    | inr e ↦ rw e (
        omega (
          arith,
          owned-remove_client (without c live) (retain_client h c deadline) c,
          owned-retain_with live h c deadline (client_of h c).virtual_ip refl once,
        ))
  ]

  -- The addresses that a sweep gives back.
  abbrev pub released : ℕ → Assoc (List ℕ) OfflineClient → ℕ
  released now [] = 0
  released now ((cid, oc) ∷ m) =
      (if is_expired now oc then is_at a (some oc.virtual_ip) else 0) + released now m

  retained-delete_if :
      (now : ℕ) (m : Assoc (List ℕ) OfflineClient)
      → retained a (delete_if (λ cid oc. is_expired now oc) m) + released now m ≡ retained a m
  unfolding retained delete_if
  retained-delete_if now [] = omega arith
  retained-delete_if now ((cid, oc) ∷ m) = elim (Bool-cases (is_expired now oc)) [
    | inl e ↦ rw e (omega (arith, retained-delete_if now m))
    | inr e ↦ rw e (omega (arith, retained-delete_if now m))
  ]

  abbrev pub Swept : List ℕ → Hub → Hub → ℕ → Type 0
  Swept live h h' n =
      (count a h'.free_ips ≡ count a h.free_ips + n)
      × (h'.retention_map ≡ h.retention_map)
      × (h'.clients ≡ h.clients)

  release_offline-Swept :
      (live : List ℕ) (h : Hub) (oc : OfflineClient)
      → Swept live h (release_offline h oc) (is_at a (some oc.virtual_ip))
  unfolding release_offline count is_at
  release_offline-Swept live h oc = (omega arith, refl, refl)

  pub release_expired-Swept :
      (live : List ℕ) (now : ℕ) (m : Assoc (List ℕ) OfflineClient) (h : Hub)
      → Swept live h (release_expired now m h) (released now m)
  unfolding release_expired
  release_expired-Swept live now [] h = (omega arith, refl, refl)
  release_expired-Swept live now ((cid, oc) ∷ m) h = elim (Bool-cases (is_expired now oc)) [
    | inl e ↦
        let (f, r, k) = release_expired-Swept live now m (release_offline h oc) in
        let (f0, r0, k0) = release_offline-Swept live h oc in
        rw (e, release_expired) (omega (arith, f, f0), r ∙ r0, k ∙ k0)
    | inr e ↦
        let (f, r, k) = release_expired-Swept live now m h in
        rw (e, release_expired) (omega (arith, f), r, k)
  ]

  -- A sweep only moves addresses back to the stack.
  pub owned-clean_retention :
      (live : List ℕ) (now : ℕ) (h : Hub) → owned a live (clean_retention now h) ≡ owned a live h
  unfolding clean_retention owned
  owned-clean_retention live now h =
      let (f, r, k) = release_expired-Swept live now h.retention_map h in
      rw (r, k) (omega (arith, f, retained-delete_if now h.retention_map))
