-- ===== src/Tunnel/Laws.antt =====
-- The tunnel manager of internal/stun/server.go: the keys under which its tunnels stand.
use easytun.Base.{
  ℕ, ◌≡◌, refl, ap, inl, inr, List, [], ◌∷◌, some, Eq-cases, bytes_eq, arith, Option-cases,
}
use easytun.Base.Assoc.{lookup, insert, delete, delete_if}
use easytun.Base.Bytes.{Vip, vip_eq}
use easytun.Tunnel.Key.{make_key, make_key_comm, make_key-injective, SamePair}
use easytun.Tunnel.Manager.{
  P2pTunnel, TunnelManager, exist, add_tunnel, remove_tunnel, remove_a, update_tunnel,
}

-- Both directions see the same tunnel.
pub exist_comm : (tm : TunnelManager) (v w : Vip) → exist tm v w ≡ exist tm w v
unfolding exist
exist_comm tm v w = ap (λ (k : List ℕ). lookup k tm) (make_key_comm v w)

-- Every tunnel stands under the key of its own two ends.
abbrev pub IsKeyed : TunnelManager → Type 0
IsKeyed [] = Unit {0}
IsKeyed ((k, t) ∷ tm) = (k ≡ make_key t.a t.b) × IsKeyed tm

delete-IsKeyed : (k : List ℕ) (tm : TunnelManager) → IsKeyed tm → IsKeyed (delete k tm)
unfolding delete
delete-IsKeyed k [] h = tt
delete-IsKeyed k ((j, t) ∷ tm) h = ground (arith, delete-IsKeyed k tm h.1)

lookup-IsKeyed :
    (k : List ℕ) (tm : TunnelManager) (t : P2pTunnel)
    → IsKeyed tm
    → lookup k tm ≡ some t
    → k ≡ make_key t.a t.b
unfolding lookup
lookup-IsKeyed k [] t h e = cc
lookup-IsKeyed k ((j, u) ∷ tm) t h e = elim (Eq-cases j k) [
  | inl (same, q) ↦ ground (arith, h.0)
  | inr q ↦ lookup-IsKeyed k tm t h.1 (rw q at e)
]

-- In a manager whose tunnels stand under the keys of their own ends, a tunnel that Exist finds
-- joins the two that were asked for, in one order or the other.
pub exist-ends :
    (tm : TunnelManager) (v w : Vip) (t : P2pTunnel)
    → IsKeyed tm
    → exist tm v w ≡ some t
    → SamePair v w t.a t.b
unfolding exist
exist-ends tm v w t h e = make_key-injective v w t.a t.b (lookup-IsKeyed (make_key v w) tm t h e)

pub add_tunnel-IsKeyed :
    (tm : TunnelManager) (v w : Vip) (s : ℕ) → IsKeyed tm → IsKeyed (add_tunnel tm v w s)
unfolding add_tunnel insert
add_tunnel-IsKeyed tm v w s h = elim (Option-cases (lookup (make_key v w) tm)) [
  | inl e ↦ rw (e, add_tunnel) (refl, delete-IsKeyed (make_key v w) tm h)
  | inr (t, e) ↦ rw (e, add_tunnel) h
]

pub remove_tunnel-IsKeyed :
    (tm : TunnelManager) (v w : Vip) → IsKeyed tm → IsKeyed (remove_tunnel tm v w)
unfolding remove_tunnel
remove_tunnel-IsKeyed tm v w h = delete-IsKeyed (make_key v w) tm h

pub remove_a-IsKeyed : (tm : TunnelManager) (v : Vip) → IsKeyed tm → IsKeyed (remove_a tm v)
unfolding remove_a delete_if
remove_a-IsKeyed [] v h = tt
remove_a-IsKeyed ((k, t) ∷ tm) v h = ground (arith, remove_a-IsKeyed tm v h.1)

pub update_tunnel-IsKeyed :
    (tm : TunnelManager) (v w : Vip) (f : P2pTunnel → P2pTunnel)
    → ((t : P2pTunnel) → ((f t).a ≡ t.a) × ((f t).b ≡ t.b))
    → IsKeyed tm
    → IsKeyed (update_tunnel tm v w f)
unfolding update_tunnel insert
update_tunnel-IsKeyed tm v w f ends h = elim (Option-cases (lookup (make_key v w) tm)) [
  | inl e ↦ rw (e, update_tunnel) h
  | inr (t, e) ↦
      rw (e, update_tunnel)
        (
          rw ((ends t).0, (ends t).1) (lookup-IsKeyed (make_key v w) tm t h e),
          delete-IsKeyed (make_key v w) tm h,
        )
]
