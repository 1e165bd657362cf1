-- ===== src/Examples/Clients.antt =====
-- A client with a peer, a DNS answer, and the waits between attempts.
use easytun.Base.{
  ℕ, ◌^◌, ◌≡◌, ◌+◌, ◌-◌, refl, List, [], ◌∷◌, some, arith, length, take, none, drop, get_or, ltb,
  if◌then◌else◌,
}
use easytun.Base.Bytes.{Vip, vip_at, vip_eq}
use easytun.Hub.State.{AddrPort}
use easytun.Endpoint.OnesComplement.{ones_sum}
use easytun.Endpoint.Dns.{udp_summed, build_dns_response, build_dns_response-checks}
use easytun.Endpoint.Backoff.{wait_sec, wait_sec-attempts}

abbrev vip : ℕ → Vip
vip n = record { b0 = 10; b1 = 0; b2 = 6; b3 = n }

abbrev addr : ℕ → AddrPort
addr port = record { ip = record { b0 = 1; b1 = 2; b2 = 3; b3 = 4 }; port = port; ip6 = none }

-- Port 5353 and a message of three bytes.
abbrev reply : List ℕ
reply = 20 ∷ 233 ∷ 171 ∷ 205 ∷ 129 ∷ []

build_dns_response-checks_example :
    (packet : List ℕ) × (build_dns_response reply (vip 2) (vip 1) ≡ some packet)
    × (length packet ≡ 28 + (length reply - 2))
    × (get_or packet 9 0 ≡ 17)
    × (vip_at packet 12 ≡ vip 1)
    × (vip_at packet 16 ≡ vip 2)
    × (ones_sum (take 20 packet) ≡ 0xffff)
    × (ones_sum (udp_summed packet) ≡ 0xffff)
    × (drop 28 packet ≡ drop 2 reply)
build_dns_response-checks_example =
    build_dns_response-checks reply (vip 2) (vip 1) refl (omega arith)
      (omega arith, (omega arith, (omega arith, (omega arith, (omega arith, tt)))))
      (omega arith, omega arith, omega arith, omega arith)
      (omega arith, omega arith, omega arith, omega arith)

wait_sec-attempts_example : wait_sec 63 ≡ (if ltb 63 5 then 2 ^ 63 else if ltb 63 63 then 30 else 0)
wait_sec-attempts_example = wait_sec-attempts 63
