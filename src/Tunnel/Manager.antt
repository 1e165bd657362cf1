-- ===== src/Tunnel/Manager.antt =====
-- P2PTunnel and TunnelManager of internal/stun/server.go. `Exist` hands out a pointer into the
-- map; a call through that pointer is an update of the map's entry.
use easytun.Base.{ℕ, ◌+◌, ◌%◌, ◌^◌, List, [], Option, none, some, ◌||◌, ◌==◌, bytes_eq}
use easytun.Base.Assoc.{Assoc, lookup, insert, delete, delete_if}
use easytun.Base.Bytes.{Vip, vip_eq}
use easytun.Tunnel.Key.{make_key}

-- TunnelInit, TunnelConnected, TunnelFailed
abbrev pub tunnel_init : ℕ
tunnel_init = 1

abbrev pub tunnel_connected : ℕ
tunnel_connected = 2

abbrev pub tunnel_failed : ℕ
tunnel_failed = 3

pub record P2pTunnel : Type 0 where
  pub a : Vip
  pub b : Vip
  pub status : ℕ
  pub retry_times : ℕ

abbrev pub TunnelManager : Type 0
TunnelManager = Assoc (List ℕ) P2pTunnel

abbrev pub new_tunnel_manager : TunnelManager
new_tunnel_manager = []

-- atomic.AddUint32(&t.RetryTimes, 1)
unfoldable pub add_retry_times : P2pTunnel → P2pTunnel
add_retry_times t = record t { retry_times = (t.retry_times + 1) % 2 ^ 32 }

unfoldable pub change_status : ℕ → P2pTunnel → P2pTunnel
change_status s t = record t { status = s }

unfoldable pub exist : TunnelManager → Vip → Vip → Option P2pTunnel
exist tm v w = lookup (make_key v w) tm

unfoldable pub add_tunnel : TunnelManager → Vip → Vip → ℕ → TunnelManager
add_tunnel tm v w status = elim (lookup (make_key v w) tm) [
  | some _ ↦ tm
  | none ↦ insert (make_key v w) (record { a = v; b = w; status = status; retry_times = 0 }) tm
]

unfoldable pub remove_tunnel : TunnelManager → Vip → Vip → TunnelManager
remove_tunnel tm v w = delete (make_key v w) tm

unfoldable pub remove_a : TunnelManager → Vip → TunnelManager
remove_a tm v = delete_if (λ key t. t.a == v || t.b == v) tm

-- What the holder of a pointer does to the tunnel of a pair.
unfoldable pub update_tunnel : TunnelManager → Vip → Vip → (P2pTunnel → P2pTunnel) → TunnelManager
update_tunnel tm v w f = elim (lookup (make_key v w) tm) [
  | none ↦ tm
  | some t ↦ insert (make_key v w) (f t) tm
]
