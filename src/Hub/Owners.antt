-- ===== src/Hub/Owners.antt =====
-- Who owns a virtual address: the free stack, a client that is away, or a client that is
-- connected. The address is named by its last byte. The children follow the number of owners
-- through the handlers of internal/transport/server*.go.
pub mod Moves
pub mod Leaving
pub mod Relay
pub mod Datagrams
pub mod Run
pub mod Distinct
pub mod Serving
use easytun.Base.{
  ℕ, ◌+◌, ◌≤◌, ◌≡◌, refl, ap, sym, ◌∙◌, ◌⊎◌, inl, inr, Bool, true, false, List, [], ◌∷◌, Option,
  none, some, eqb, ltb, if◌then◌else◌, arith, nat_eq, bytes_eq, Eq, ◌==◌, Eq-cases, Bool-cases,
}
use easytun.Base.Assoc.{Assoc, lookup, insert, delete, delete_if, lookup-insert}
use easytun.Base.Bytes.{Vip}
use easytun.Hub.State.{Hub, Client, OfflineClient, or_new, client_of, set_client}

unfoldable pub count : ℕ → List ℕ → ℕ
count a [] = 0
count a (x ∷ xs) = (if eqb x a then 1 else 0) + count a xs

unfoldable pub is_at : ℕ → Option Vip → ℕ
is_at a none = 0
is_at a (some v) = if eqb v.b3 a then 1 else 0

-- The clients that are away.
unfoldable pub retained : ℕ → Assoc (List ℕ) OfflineClient → ℕ
retained a [] = 0
retained a ((cid, oc) ∷ m) = is_at a (some oc.virtual_ip) + retained a m

-- The clients on the connections `live`.
unfoldable pub held : ℕ → List ℕ → Assoc ℕ Client → ℕ
held a [] m = 0
held a (c ∷ cs) m = is_at a (or_new (lookup c m)).virtual_ip + held a cs m

unfoldable pub owned : ℕ → List ℕ → Hub → ℕ
owned a live h = count a h.free_ips + (retained a h.retention_map + held a live h.clients)

pub retained-delete-le :
    (a : ℕ) (k : List ℕ) (m : Assoc (List ℕ) OfflineClient) → retained a (delete k m) ≤ retained a m
unfolding retained delete
retained-delete-le a k [] = omega arith
retained-delete-le a k ((j, oc) ∷ m) = ground (arith, retained-delete-le a k m)

-- Taking an entry out frees its address.
pub retained-delete :
    (a : ℕ) (k : List ℕ) (m : Assoc (List ℕ) OfflineClient) (oc : OfflineClient)
    → lookup k m ≡ some oc
    → is_at a (some oc.virtual_ip) + retained a (delete k m) ≤ retained a m
unfolding retained delete lookup
retained-delete a k [] oc e = cc
retained-delete a k ((j, u) ∷ m) oc e = elim (Eq-cases j k) [
  | inl (same, q) ↦
      let u_is_oc : some u ≡ some oc = (rw q at e) in
      rw q (ground (arith, u_is_oc, retained-delete-le a k m))
  | inr q ↦ rw q (omega (arith, retained-delete a k m oc (rw q at e)))
]

-- A write that leaves the address of its client alone.
pub held-insert_same :
    (a : ℕ) (live : List ℕ) (c : ℕ) (k : Client) (m : Assoc ℕ Client)
    → k.virtual_ip ≡ (or_new (lookup c m)).virtual_ip
    → held a live (insert c k m) ≡ held a live m
unfolding held
held-insert_same a [] c k m e = refl
held-insert_same a (d ∷ live) c k m e = elim (Eq-cases c d) [
  | inl (same, q) ↦ rw (lookup-insert c d k m, q) (rw (held-insert_same a live c k m e, e, same))
  | inr q ↦ rw (lookup-insert c d k m, q) (rw (held-insert_same a live c k m e))
]

-- A write to a client that is not among them.
pub held-insert_other :
    (a : ℕ) (live : List ℕ) (c : ℕ) (k : Client) (m : Assoc ℕ Client)
    → count c live ≡ 0
    → held a live (insert c k m) ≡ held a live m
unfolding held count
held-insert_other a [] c k m h = refl
held-insert_other a (d ∷ live) c k m h =
    let differs : (c == d) ≡ false = ground arith in
    rw (lookup-insert c d k m, differs) (rw (held-insert_other a live c k m (ground arith)))

-- A write to one that stands there once moves its share.
pub held-insert :
    (a : ℕ) (live : List ℕ) (c : ℕ) (k : Client) (m : Assoc ℕ Client)
    → count c live ≡ 1
    → held a live (insert c k m) + is_at a (or_new (lookup c m)).virtual_ip
      ≡ held a live m + is_at a k.virtual_ip
unfolding held count
held-insert a [] c k m h = absurd (omega arith)
held-insert a (d ∷ live) c k m h = elim (Eq-cases c d) [
  | inl (same, q) ↦
      let rest : count c live ≡ 0 = ground arith in
      rw (lookup-insert c d k m, q, held-insert_other a live c k m rest, same) (omega arith)
  | inr q ↦
      let rest : count c live ≡ 1 = ground arith in
      rw (lookup-insert c d k m, q) (omega (arith, held-insert a live c k m rest))
]
