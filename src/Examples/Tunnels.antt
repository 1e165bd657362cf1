-- ===== src/Examples/Tunnels.antt =====
-- Tunnels between three clients.
use easytun.Base.{ℕ, ◌≡◌, refl, List, [], ◌∷◌, none, some, if◌then◌else◌, bytes_eq}
use easytun.Base.Bytes.{Vip, vip_eq, vip_beq}
use easytun.Tunnel.Key.{make_key, bytes_lt}
use easytun.Tunnel.Manager.{P2pTunnel, TunnelManager, new_tunnel_manager, exist, remove_a}
use easytun.Tunnel.Laws.{IsKeyed}
use easytun.Tunnel.Table.{
  TunnelEvent, adds, changes, leaves, table_step, table_run, tunnel_run, view, tunnel_run-table_run,
}
use easytun.Tunnel.Removal.{exist-remove_a, touches}

abbrev vip : ℕ → Vip
vip n = record { b0 = 10; b1 = 0; b2 = 6; b3 = n }

abbrev tunnel : ℕ → ℕ → P2pTunnel
tunnel a b = record { a = vip a; b = vip b; status = 2; retry_times = 1 }

-- The pairs 3 and 2, and 4 and 3, the first asked for from the larger end.
abbrev two_tunnels : TunnelManager
two_tunnels =
    (10 ∷ 0 ∷ 6 ∷ 2 ∷ 10 ∷ 0 ∷ 6 ∷ 3 ∷ [], tunnel 3 2)
    ∷ (10 ∷ 0 ∷ 6 ∷ 3 ∷ 10 ∷ 0 ∷ 6 ∷ 4 ∷ [], tunnel 4 3)
    ∷ []

two_tunnels-IsKeyed : IsKeyed two_tunnels
unfolding make_key bytes_lt
two_tunnels-IsKeyed = (refl, (refl, tt))

exist-remove_a_example :
    exist (remove_a two_tunnels (vip 2)) (vip 3) (vip 4)
    ≡ (if touches (vip 2) (vip 3) (vip 4) then none else exist two_tunnels (vip 3) (vip 4))
exist-remove_a_example = exist-remove_a two_tunnels (vip 2) (vip 3) (vip 4) two_tunnels-IsKeyed

-- 10.0.6.3 asks for 10.0.6.2, both report success, and 10.0.6.4 leaves.
abbrev calls : List TunnelEvent
calls = adds (vip 3) (vip 2) 1 ∷ changes (vip 2) (vip 3) 2 ∷ leaves (vip 4) ∷ []

connected :
    table_run (λ v w. none) calls (vip 2) (vip 3) ≡ some (record { status = 2; retries = 0 })
unfolding table_run table_step vip_beq
connected = refl

tunnel_run-table_run_example :
    (view (tunnel_run new_tunnel_manager calls) (vip 2) (vip 3)
      ≡ table_run (λ v w. none) calls (vip 2) (vip 3))
    × (view (tunnel_run new_tunnel_manager calls) (vip 3) (vip 2)
        ≡ table_run (λ v w. none) calls (vip 2) (vip 3))
tunnel_run-table_run_example = tunnel_run-table_run calls (vip 2) (vip 3)
