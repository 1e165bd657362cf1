-- ===== src/Tunnel/Removal.antt =====
-- RemoveA and AddTunnel of internal/stun/server.go, seen through Exist.
use easytun.Base.{
  ℕ, ◌≡◌, sym, ◌∙◌, inl, inr, Bool, [], ◌∷◌, none, some, ◌||◌, ◌==◌, Eq-cases, bytes_eq, arith,
  if◌then◌else◌, Option-cases, Bool-cases,
}
use easytun.Base.Assoc.{lookup, delete_if, lookup-insert, lookup-insert_self}
use easytun.Base.Bytes.{Vip, vip_eq}
use easytun.Tunnel.Key.{make_key, make_key-injective, SamePair}
use easytun.Tunnel.Manager.{P2pTunnel, TunnelManager, exist, add_tunnel, remove_a, update_tunnel}
use easytun.Tunnel.Laws.{IsKeyed}

abbrev pub touches : Vip → Vip → Vip → Bool
touches v w x = w == v || x == v

touches-SamePair : (v w x a b : Vip) → SamePair w x a b → touches v a b ≡ touches v w x
touches-SamePair v w x a b (inl (p, q)) = rw (p, q)
touches-SamePair v w x a b (inr (p, q)) = rw (p, q) (or_comm (a == v) (b == v))
  where
    or_comm : (c d : Bool) → (c || d) ≡ (d || c)
    or_comm c d = ground arith

-- In a manager whose tunnels stand under the keys of their own ends: after RemoveA, Exist finds no
-- tunnel for a pair that the client belongs to, and what it found before for every other pair.
pub exist-remove_a :
    (tm : TunnelManager) (v w x : Vip)
    → IsKeyed tm
    → exist (remove_a tm v) w x ≡ (if touches v w x then none else exist tm w x)
unfolding exist remove_a lookup delete_if
exist-remove_a [] v w x h = ground arith
exist-remove_a ((j, t) ∷ tm) v w x h = elim (Eq-cases j (make_key w x)) [
  | inl (same, q) ↦
      let ends : touches v t.a t.b ≡ touches v w x =
        touches-SamePair v w x t.a t.b (make_key-injective w x t.a t.b (sym same ∙ h.0)) in
      elim (Bool-cases (touches v w x)) [
        | inl s ↦ rw (ends ∙ s, s) (exist-remove_a tm v w x h.1 ∙ rw s)
        | inr s ↦ rw (ends ∙ s, s, q)
      ]
  | inr q ↦ elim (Bool-cases (touches v t.a t.b)) [
    | inl s ↦ rw (s, q) (exist-remove_a tm v w x h.1)
    | inr s ↦ rw (s, q) (exist-remove_a tm v w x h.1)
  ]
]

-- After AddTunnel, Exist finds what it found before if the pair had a tunnel; if it had none, it
-- finds the new one with the status and no retries under the key of the pair, and what it found
-- before under every other key.
pub exist-add_tunnel :
    (tm : TunnelManager) (v w x y : Vip) (s : ℕ)
    → exist (add_tunnel tm v w s) x y ≡ elim (exist tm v w) [
      | some _ ↦ exist tm x y
      | none ↦
          if make_key v w == make_key x y
          then some (record { a = v; b = w; status = s; retry_times = 0 })
          else exist tm x y
    ]
unfolding exist add_tunnel
exist-add_tunnel tm v w x y s = elim (Option-cases (lookup (make_key v w) tm)) [
  | inl e ↦ rw (e, add_tunnel) (lookup-insert (make_key v w) (make_key x y) _ tm)
  | inr (t, e) ↦ rw (e, add_tunnel)
]

pub exist-update_tunnel :
    (tm : TunnelManager) (v w : Vip) (f : P2pTunnel → P2pTunnel) (t : P2pTunnel)
    → exist tm v w ≡ some t
    → exist (update_tunnel tm v w f) v w ≡ some (f t)
unfolding exist update_tunnel
exist-update_tunnel tm v w f t e =
    rw (e, update_tunnel) (lookup-insert_self (make_key v w) (f t) tm)
