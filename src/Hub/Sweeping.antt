-- ===== src/Hub/Sweeping.antt =====
-- A tick of cleanRetention in internal/transport/server_hub.go: what becomes of the clients that are away.
-- Go visits the entries of a map in any order, so the order of the free stack is left open.
use easytun.Base.{
  ℕ, ◌+◌, ◌≡◌, refl, ap, ◌∙◌, inl, inr, Bool, true, false, ◌||◌, ◌&&◌, List, [], ◌∷◌, Option, none,
  if◌then◌else◌, Bool-cases, bytes_eq, ◌==◌,
}
use easytun.Base.Assoc.{Assoc, lookup, delete_if, lookup-delete}
use easytun.Base.Keys.{unless, IsDistinct, lookup-delete_if}
use easytun.Base.Bytes.{Vip}
use easytun.Hub.State.{Hub, OfflineClient}
use easytun.Hub.Pool.{release_ip}
use easytun.Hub.Records.{remove_dns}
use easytun.Hub.Router.{clean_retention, release_expired, release_offline, is_expired}
use easytun.Hub.Owners.{count}
use easytun.Hub.Owners.Leaving.{released, release_expired-Swept}

-- Whether a client whose time is over has this name.
abbrev pub is_over : ℕ → List ℕ → Assoc (List ℕ) OfflineClient → Bool
is_over now name [] = false
is_over now name ((cid, oc) ∷ m) = (is_expired now oc && oc.hostname == name) || is_over now name m

lookup-released :
    (name : List ℕ) (h : Hub) (oc : OfflineClient)
    → lookup name (release_offline h oc).dns_map
      ≡ (if oc.hostname == name then none else lookup name h.dns_map)
unfolding release_offline remove_dns release_ip
lookup-released name h oc = lookup-delete oc.hostname name h.dns_map

over :
    (b c : Bool) (o : Option Vip) {p : Option Vip}
    → p ≡ (if c then none else o)
    → (if b then none else p) ≡ (if c || b then none else o)
over true true o e = refl
over true false o e = refl
over false true o e = e
over false false o e = e

lookup-release_expired :
    (now : ℕ) (name : List ℕ) (m : Assoc (List ℕ) OfflineClient) (h : Hub)
    → lookup name (release_expired now m h).dns_map
      ≡ (if is_over now name m then none else lookup name h.dns_map)
unfolding release_expired
lookup-release_expired now name [] h = refl
lookup-release_expired now name ((cid, oc) ∷ m) h = elim (Bool-cases (is_expired now oc)) [
  | inl e ↦
      rw (e, release_expired)
        (lookup-release_expired now name m (release_offline h oc)
          ∙ over (is_over now name m) (oc.hostname == name) (lookup name h.dns_map)
              (lookup-released name h oc))
  | inr e ↦ rw (e, release_expired) (lookup-release_expired now name m h)
]

release_expired-rest :
    (now : ℕ) (m : Assoc (List ℕ) OfflineClient) (h : Hub)
    → ((release_expired now m h).router ≡ h.router) × ((release_expired now m h).tm ≡ h.tm)
unfolding release_expired release_offline release_ip remove_dns
release_expired-rest now [] h = (refl, refl)
release_expired-rest now ((cid, oc) ∷ m) h = elim (Bool-cases (is_expired now oc)) [
  | inl e ↦ rw (e, release_expired) (release_expired-rest now m (release_offline h oc))
  | inr e ↦ rw (e, release_expired) (release_expired-rest now m h)
]

-- A tick of cleanRetention, for every ID and every name. What is kept under the ID is kept if its time
-- is not over, and is gone otherwise. The free stack has an address once more for every client away with it whose
-- time is over. The name leads nowhere if a client whose time is over has it, and otherwise to what
-- it led to. The clients, the routes and the tunnels stay.
pub clean_retention-Released :
    (now : ℕ) (h : Hub) (cid name : List ℕ) (a : ℕ)
    → IsDistinct h.retention_map
    → let h' = clean_retention now h in
      (lookup cid h'.retention_map ≡ unless (is_expired now) (lookup cid h.retention_map))
      × (count a h'.free_ips ≡ count a h.free_ips + released a now h.retention_map)
      × (lookup name h'.dns_map
          ≡ (if is_over now name h.retention_map then none else lookup name h.dns_map))
      × (h'.clients ≡ h.clients)
      × (h'.router ≡ h.router)
      × (h'.tm ≡ h.tm)
unfolding clean_retention
clean_retention-Released now h cid name a distinct =
    let (free, kept, clients) = release_expired-Swept a [] now h.retention_map h in
    let (router, tm) = release_expired-rest now h.retention_map h in
    (
      ap
            (λ (m : Assoc (List ℕ) OfflineClient).
              lookup cid (delete_if (λ cid oc. is_expired now oc) m))
            kept
          ∙ lookup-delete_if (λ cid oc. is_expired now oc) cid h.retention_map distinct,
      free,
      lookup-release_expired now name h.retention_map h,
      clients,
      router,
      tm,
    )
