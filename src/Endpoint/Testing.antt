-- ===== src/Endpoint/Testing.antt =====
-- testBroadCast of internal/transport/client_ui.go. ipv4.Header and its Marshal are of golang.org/x/net.
use easytun.Base.{ℕ, zero, suc, List, [], ◌∷◌, ◌++◌, Option, none, some}
use easytun.Base.Bytes.{Vip}
use easytun.Endpoint.Device.{broadcast_ip}
use easytun.Endpoint.Transport.{ClientTransport}

-- The fields that are set.
pub record Ipv4Header : Type 0 where
  pub version : ℕ
  pub len : ℕ
  pub tos : ℕ
  pub total_len : ℕ
  pub ttl : ℕ
  pub protocol : ℕ
  pub dst : Vip
  pub src : Vip

unfoldable pub broad_cast_header : ClientTransport → Ipv4Header
broad_cast_header t = record {
  version = 4;
  len = 20;
  tos = 0;
  total_len = 20;
  ttl = 64;
  protocol = 17;
  dst = broadcast_ip;
  src = t.local_ip;
}

-- A send that waits for room.
unfoldable pub into_from_tun : ClientTransport → List ℕ → ClientTransport
into_from_tun t p =
    let m = t.noise_mgr in record t { noise_mgr = record m { tun_chan = m.tun_chan ++ (p ∷ []) } }

unfoldable pub broad_cast_ticks : ℕ → List ℕ → ClientTransport → ClientTransport
unfolding into_from_tun
broad_cast_ticks zero bch t = t
broad_cast_ticks (suc n) bch t = broad_cast_ticks n bch (into_from_tun t bch)

-- `n` ticks, until the context ends; `none` is the error of Marshal.
unfoldable pub test_broad_cast :
    (Ipv4Header → Option (List ℕ)) → ℕ → ClientTransport → Option ClientTransport
unfolding broad_cast_header broad_cast_ticks
test_broad_cast marshal n t = elim (marshal (broad_cast_header t)) [
  | none ↦ none
  | some bch ↦ some (broad_cast_ticks n bch t)
]
