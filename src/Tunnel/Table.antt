-- ===== src/Tunnel/Table.antt =====
-- What TunnelManager of internal/stun/server.go promises: a table of pairs without an order, each
-- with a status and a number of retries.
use easytun.Base.{
  ℕ, ◌+◌, ◌%◌, ◌^◌, ◌≡◌, refl, ap, sym, ◌∙◌, inl, inr, Bool, true, ◌&&◌, ◌||◌, List, [], ◌∷◌,
  Option, none, some, ◌==◌, Eq-cases, bytes_eq, arith, if◌then◌else◌, Option-cases, Bool-cases,
  beq_refl,
}
use easytun.Base.Assoc.{lookup, lookup-insert, lookup-delete}
use easytun.Base.Bytes.{Vip, vip_eq, vip_beq}
use easytun.Tunnel.Key.{make_key, make_key_comm, make_key-injective, SamePair}
use easytun.Tunnel.Manager.{
  P2pTunnel, TunnelManager, new_tunnel_manager, exist, add_tunnel, remove_tunnel, remove_a,
  update_tunnel, change_status, add_retry_times,
}
use easytun.Tunnel.Laws.{
  exist_comm, IsKeyed, add_tunnel-IsKeyed, remove_tunnel-IsKeyed, remove_a-IsKeyed,
  update_tunnel-IsKeyed,
}
use easytun.Tunnel.Removal.{exist-remove_a, exist-add_tunnel, touches}

-- Status and retries, without the order of the two ends.
pub record Entry : Type 0 where
  pub status : ℕ
  pub retries : ℕ

abbrev pub Table : Type 0
Table = Vip → Vip → Option Entry

abbrev pub same_pair : Vip → Vip → Vip → Vip → Bool
same_pair v w x y = (v == x && w == y) || (v == y && w == x)

abbrev pub map_entry : (Entry → Entry) → Option Entry → Option Entry
map_entry f none = none
map_entry f (some e) = some (f e)

abbrev pub or_entry : Entry → Option Entry → Option Entry
or_entry e none = some e
or_entry e (some old) = some old

-- A call of the server.
pub data TunnelEvent : Type 0 where
  adds : Vip → Vip → ℕ → TunnelEvent
  removes : Vip → Vip → TunnelEvent
  leaves : Vip → TunnelEvent
  changes : Vip → Vip → ℕ → TunnelEvent
  retries_again : Vip → Vip → TunnelEvent

-- What each call means for the table.
unfoldable pub table_step : Table → TunnelEvent → Table
table_step T (adds v w s) x y =
    if same_pair v w x y then or_entry (record { status = s; retries = 0 }) (T v w) else T x y
table_step T (removes v w) x y = if same_pair v w x y then none else T x y
table_step T (leaves v) x y = if touches v x y then none else T x y
table_step T (changes v w s) x y =
    if same_pair v w x y then map_entry (λ e. record e { status = s }) (T v w) else T x y
table_step T (retries_again v w) x y =
    if same_pair v w x y
    then map_entry (λ e. record e { retries = (e.retries + 1) % 2 ^ 32 }) (T v w)
    else T x y

unfoldable pub table_run : Table → List TunnelEvent → Table
unfolding table_step
table_run T [] = T
table_run T (e ∷ es) = table_run (table_step T e) es

-- The calls themselves.
unfoldable pub tunnel_step : TunnelManager → TunnelEvent → TunnelManager
tunnel_step tm (adds v w s) = add_tunnel tm v w s
tunnel_step tm (removes v w) = remove_tunnel tm v w
tunnel_step tm (leaves v) = remove_a tm v
tunnel_step tm (changes v w s) = update_tunnel tm v w (change_status s)
tunnel_step tm (retries_again v w) = update_tunnel tm v w add_retry_times

unfoldable pub tunnel_run : TunnelManager → List TunnelEvent → TunnelManager
unfolding tunnel_step
tunnel_run tm [] = tm
tunnel_run tm (e ∷ es) = tunnel_run (tunnel_step tm e) es

abbrev pub entry_of : Option P2pTunnel → Option Entry
entry_of none = none
entry_of (some t) = some (record { status = t.status; retries = t.retry_times })

-- The table that Exist shows.
abbrev pub view : TunnelManager → Table
view tm x y = entry_of (exist tm x y)

same_pair-SamePair : (v w x y : Vip) → same_pair v w x y ≡ true → SamePair v w x y
same_pair-SamePair v w x y h = elim (Eq-cases v x) [
  | inl (p, p') ↦ elim (Eq-cases w y) [
    | inl (q, q') ↦ inl (p, q)
    | inr q ↦ elim (Eq-cases v y) [
      | inl (r, r') ↦ elim (Eq-cases w x) [
        | inl (s, s') ↦ inr (r, s)
        | inr s ↦ ground (arith, h, q, s)
      ]
      | inr r ↦ ground (arith, h, q, r)
    ]
  ]
  | inr p ↦ elim (Eq-cases v y) [
    | inl (r, r') ↦ elim (Eq-cases w x) [
      | inl (s, s') ↦ inr (r, s)
      | inr s ↦ ground (arith, h, p, s)
    ]
    | inr r ↦ ground (arith, h, p, r)
  ]
]

SamePair-same_pair : (v w x y : Vip) → SamePair v w x y → same_pair v w x y ≡ true
SamePair-same_pair v w x y (inl (p, q)) = rw (p, q, beq_refl x, beq_refl y) refl
SamePair-same_pair v w x y (inr (p, q)) =
    rw (p, q, beq_refl x, beq_refl y)
      (elim (Bool-cases (y == x && x == y)) [ inl e ↦ rw e refl | inr e ↦ rw e refl ])

SamePair-make_key : (v w x y : Vip) → SamePair v w x y → make_key v w ≡ make_key x y
SamePair-make_key v w x y (inl (p, q)) = rw (p, q) refl
SamePair-make_key v w x y (inr (p, q)) = rw (p, q) (make_key_comm y x)

-- Two keys are the same for the two orders of a pair and for nothing else.
make_key-same_pair : (v w x y : Vip) → (make_key v w == make_key x y) ≡ same_pair v w x y
make_key-same_pair v w x y = elim (Eq-cases (make_key v w) (make_key x y)) [
  | inl (same, q) ↦ q ∙ sym (SamePair-same_pair v w x y (make_key-injective v w x y same))
  | inr q ↦ elim (Bool-cases (same_pair v w x y)) [
    | inl p ↦
        let same = SamePair-make_key v w x y (same_pair-SamePair v w x y p) in
        cc (ap (λ (k : List ℕ). make_key v w == k) same, beq_refl (make_key v w))
    | inr p ↦ q ∙ sym p
  ]
]

exist-update :
    (tm : TunnelManager) (v w x y : Vip) (f : P2pTunnel → P2pTunnel) (g : Entry → Entry)
    → ((t : P2pTunnel) → entry_of (some (f t)) ≡ map_entry g (entry_of (some t)))
    → view (update_tunnel tm v w f) x y
      ≡ (if same_pair v w x y then map_entry g (view tm v w) else view tm x y)
unfolding exist update_tunnel
exist-update tm v w x y f g same = elim (Option-cases (lookup (make_key v w) tm)) [
  | inl e ↦ elim (Bool-cases (same_pair v w x y)) [
    | inl p ↦
        let keys = SamePair-make_key v w x y (same_pair-SamePair v w x y p) in
        rw (e, update_tunnel, p, ← keys, e) refl
    | inr p ↦ rw (e, update_tunnel, p) refl
  ]
  | inr (t, e) ↦
      rw (e, update_tunnel)
        (ap entry_of (lookup-insert (make_key v w) (make_key x y) (f t) tm)
          ∙ rw (make_key-same_pair v w x y)
              (elim (Bool-cases (same_pair v w x y)) [ inl p ↦ rw p (same t) | inr p ↦ rw p refl ]))
]

exist-add :
    (tm : TunnelManager) (v w x y : Vip) (s : ℕ)
    → view (add_tunnel tm v w s) x y ≡ (
        if same_pair v w x y
        then or_entry (record { status = s; retries = 0 }) (view tm v w)
        else view tm x y)
unfolding exist
exist-add tm v w x y s =
    ap entry_of (exist-add_tunnel tm v w x y s) ∙ elim (Option-cases (lookup (make_key v w) tm)) [
      | inl e ↦
          rw (e, make_key-same_pair v w x y)
            (elim (Bool-cases (same_pair v w x y)) [ inl p ↦ rw p refl | inr p ↦ rw p refl ])
      | inr (t, e) ↦ elim (Bool-cases (same_pair v w x y)) [
        | inl p ↦
            let keys = SamePair-make_key v w x y (same_pair-SamePair v w x y p) in
            rw (e, p, ← keys, e) refl
        | inr p ↦ rw (e, p) refl
      ]
    ]

exist-remove :
    (tm : TunnelManager) (v w x y : Vip)
    → view (remove_tunnel tm v w) x y ≡ (if same_pair v w x y then none else view tm x y)
unfolding exist remove_tunnel
exist-remove tm v w x y =
    ap entry_of (lookup-delete (make_key v w) (make_key x y) tm)
    ∙ rw (make_key-same_pair v w x y)
        (elim (Bool-cases (same_pair v w x y)) [ inl p ↦ rw p refl | inr p ↦ rw p refl ])

tunnel_step-table_step :
    (tm : TunnelManager) (e : TunnelEvent) (x y : Vip)
    → IsKeyed tm
    → view (tunnel_step tm e) x y ≡ table_step (view tm) e x y
unfolding tunnel_step table_step change_status add_retry_times vip_beq
tunnel_step-table_step tm (adds v w s) x y h = exist-add tm v w x y s
tunnel_step-table_step tm (removes v w) x y h = exist-remove tm v w x y
tunnel_step-table_step tm (leaves v) x y h =
    ap entry_of (exist-remove_a tm v x y h)
    ∙ elim (Bool-cases (touches v x y)) [ inl p ↦ rw p refl | inr p ↦ rw p refl ]
tunnel_step-table_step tm (changes v w s) x y h =
    exist-update tm v w x y (change_status s) (λ e. record e { status = s }) (λ t. refl)
tunnel_step-table_step tm (retries_again v w) x y h =
    exist-update tm v w x y add_retry_times (λ e. record e { retries = (e.retries + 1) % 2 ^ 32 })
      (λ t. refl)

tunnel_step-IsKeyed :
    (tm : TunnelManager) (e : TunnelEvent) → IsKeyed tm → IsKeyed (tunnel_step tm e)
unfolding tunnel_step change_status add_retry_times
tunnel_step-IsKeyed tm (adds v w s) h = add_tunnel-IsKeyed tm v w s h
tunnel_step-IsKeyed tm (removes v w) h = remove_tunnel-IsKeyed tm v w h
tunnel_step-IsKeyed tm (leaves v) h = remove_a-IsKeyed tm v h
tunnel_step-IsKeyed tm (changes v w s) h =
    update_tunnel-IsKeyed tm v w (change_status s) (λ t. (refl, refl)) h
tunnel_step-IsKeyed tm (retries_again v w) h =
    update_tunnel-IsKeyed tm v w add_retry_times (λ t. (refl, refl)) h

run_from :
    (es : List TunnelEvent) (tm : TunnelManager)
    → IsKeyed tm
    → view (tunnel_run tm es) ≡ table_run (view tm) es
unfolding tunnel_run table_run
run_from [] tm h = refl
run_from (e ∷ es) tm h =
    let now : view (tunnel_step tm e) ≡ table_step (view tm) e =
      λ i x y. tunnel_step-table_step tm e x y h i in
    run_from es (tunnel_step tm e) (tunnel_step-IsKeyed tm e h)
    ∙ ap (λ (T : Table). table_run T es) now

-- Whatever calls the server makes on a new TunnelManager, in any order, Exist shows for every two
-- addresses, in both orders, the status and the retries of the table of unordered pairs that the
-- calls stand for.
pub tunnel_run-table_run :
    (es : List TunnelEvent) (x y : Vip)
    → (view (tunnel_run new_tunnel_manager es) x y ≡ table_run (λ v w. none) es x y)
      × (view (tunnel_run new_tunnel_manager es) y x ≡ table_run (λ v w. none) es x y)
unfolding exist lookup
tunnel_run-table_run es x y =
    let shown : view (tunnel_run new_tunnel_manager es) ≡ table_run (λ v w. none) es =
      run_from es new_tunnel_manager tt in
    let here = ap (λ (T : Table). T x y) shown in
    (here, ap entry_of (exist_comm (tunnel_run new_tunnel_manager es) y x) ∙ here)
