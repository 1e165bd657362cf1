-- ===== src/Hub/Owners/Distinct.antt =====
-- What one owner at most means for the clients, and an address that loses its last owner.
use easytun.Base.{
  ℕ, ◌+◌, ◌≤◌, ◌≡◌, ◌≢◌, ap, ◌∙◌, inl, inr, true, false, List, [], ◌∷◌, some, eqb, if◌then◌else◌,
  arith, Eq-cases, nat_eq, bytes_eq,
}
use mathlib.Core.Bool.{Bool}
use easytun.Base.Assoc.{Assoc, lookup, insert}
use easytun.Base.Bytes.{Vip}
use easytun.Hub.State.{Hub, Client, OfflineClient, or_new, client_of}
use easytun.Hub.Session.{disconnect, retain_client, retain_with}
use easytun.Hub.Owners.{count, is_at, retained, held, owned, retained-delete}
use easytun.Hub.Owners.Leaving.{without, held-without, owned-remove_client}
use easytun.Hub.Owners.Run.{World, start, Reach, owners, owners-le, Reach-owners}

-- The share of one connection.
held-one :
    (a : ℕ) (live : List ℕ) (c : ℕ) (m : Assoc ℕ Client)
    → 1 ≤ count c live
    → is_at a (or_new (lookup c m)).virtual_ip ≤ held a live m
unfolding held count
held-one a [] c m h = absurd (omega arith)
held-one a (d ∷ live) c m h = elim (Eq-cases d c) [
  | inl (same, q) ↦ rw same (omega arith)
  | inr q ↦ let rest : 1 ≤ count c live = ground arith in omega (arith, held-one a live c m rest)
]

held-two :
    (a : ℕ) (live : List ℕ) (c d : ℕ) (m : Assoc ℕ Client)
    → 1 ≤ count c live
    → 1 ≤ count d live
    → c ≢ d
    → is_at a (or_new (lookup c m)).virtual_ip + is_at a (or_new (lookup d m)).virtual_ip
      ≤ held a live m
unfolding held count
held-two a [] c d m h k n = absurd (omega arith)
held-two a (x ∷ live) c d m h k n = elim (Eq-cases x c) [
  | inl (same, q) ↦
      let rest : 1 ≤ count d live = ground arith in
      rw same (omega (arith, held-one a live d m rest))
  | inr q ↦ elim (Eq-cases x d) [
    | inl (same, r) ↦
        let rest : 1 ≤ count c live = ground arith in
        rw same (omega (arith, held-one a live c m rest))
    | inr r ↦
        let left : 1 ≤ count c live = ground arith in
        let right : 1 ≤ count d live = ground arith in
        omega (arith, held-two a live c d m left right n)
  ]
]

-- In every run of the server, two different open connections that have addresses have different
-- ones, and the address of the first is neither on the free stack nor kept for a client that is
-- away.
pub addresses_distinct :
    {w : World} (c d : ℕ) (v v' : Vip)
    → Reach start w
    → 1 ≤ count c w.live
    → 1 ≤ count d w.live
    → c ≢ d
    → (client_of w.hub c).virtual_ip ≡ some v
    → (client_of w.hub d).virtual_ip ≡ some v'
    → (v.b3 ≢ v'.b3) × (count v.b3 w.hub.free_ips ≡ 0) × (retained v.b3 w.hub.retention_map ≡ 0)
unfolding client_of owned is_at
addresses_distinct {w} c d v v' r hc hd n ec ed =
    let one = owners-le v.b3 r in
    let two = held-two v.b3 w.live c d w.hub.clients hc hd n in
    let mine : is_at v.b3 (client_of w.hub c).virtual_ip ≡ 1 = rw ec (ground arith) in
    let yours : is_at v.b3 (client_of w.hub d).virtual_ip ≡ (if eqb v'.b3 v.b3 then 1 else 0) =
      rw ed in
    (
      (λ e. absurd (ground (arith, one, two, mine, yours))),
      omega (arith, one, two, mine),
      omega (arith, one, two, mine),
    )

lost :
    (h : Hub) (live : List ℕ) (c deadline : ℕ) (v : Vip) (oc : OfflineClient)
    → owned oc.virtual_ip.b3 live h ≤ 1
    → count c live ≡ 1
    → lookup (client_of h c).client_id h.retention_map ≡ some oc
    → oc.virtual_ip.b3 ≢ v.b3
    → owned oc.virtual_ip.b3 (without c live) (retain_with h c deadline (some v)) ≡ 0
unfolding retain_with owned retained insert client_of is_at
lost h live c deadline v oc one once el ne =
    let a = oc.virtual_ip.b3 in
    let other : eqb v.b3 a ≡ false = ground arith in
    let self : eqb a a ≡ true = ground arith in
    rw other (
      omega (
        arith,
        one,
        ap {B = ℕ} (λ (b : Bool). if b then 1 else 0) self,
        retained-delete a (client_of h c).client_id h.retention_map oc el,
        held-without a live c h.clients once,
      ))

-- In a run of the server, an open connection ends under an ID for which another address is kept
-- already: the address that was kept has no owner then, nor after any further run.
pub disconnect_leaks :
    {w w' : World} (c deadline : ℕ) (v : Vip) (oc : OfflineClient)
    → Reach start w
    → count c w.live ≡ 1
    → (client_of w.hub c).virtual_ip ≡ some v
    → lookup (client_of w.hub c).client_id w.hub.retention_map ≡ some oc
    → oc.virtual_ip.b3 ≢ v.b3
    → Reach (record { hub = disconnect w.hub c deadline; live = without c w.live }) w'
    → owners oc.virtual_ip.b3 w' ≡ 0
unfolding disconnect retain_client
disconnect_leaks {w} c deadline v oc r once ev el ne later =
    let a = oc.virtual_ip.b3 in
    let gone = lost w.hub w.live c deadline v oc (owners-le a r) once el ne in
    let ended : owned a (without c w.live) (disconnect w.hub c deadline) ≡ 0 =
      rw (ev, disconnect, retain_client)
        (owned-remove_client a (without c w.live) (retain_with w.hub c deadline (some v)) c
          ∙ gone) in
    omega (arith, Reach-owners a later, ended)
