-- ===== src/Hub/Pool.antt =====
-- getIp and releaseIp of internal/transport/server_hub.go.
use easytun.Base.{ℕ, List, [], ◌∷◌, Option, none, some}
use easytun.Base.Bytes.{Vip}
use easytun.Hub.State.{Hub, subnet_ip}

unfoldable pub pop_ip : Hub → List ℕ → Option Vip × Hub
pop_ip h [] = (none, h)
pop_ip h (last ∷ rest) = (some (record subnet_ip { b3 = last }), record h { free_ips = rest })

unfoldable pub get_ip : Hub → Option Vip × Hub
unfolding pop_ip
get_ip h = pop_ip h h.free_ips

unfoldable pub release_ip : Hub → Vip → Hub
release_ip h v = record h { free_ips = v.b3 ∷ h.free_ips }
