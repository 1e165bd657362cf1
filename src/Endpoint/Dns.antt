-- ===== src/Endpoint/Dns.antt =====
-- BuildDNSResponse of internal/util/dns.go: the IPv4 packet that carries the server's answer to
-- the host.
use easytun.Base.{
  ℕ, ◌-◌, ◌+◌, ◌*◌, ◌^◌, ◌≤◌, ◌<◌, ◌≡◌, refl, ap, ◌∙◌, false, List, [], ◌∷◌, ◌++◌, Option, none,
  some, length, take, drop, get_or, All, ltb, if◌then◌else◌, arith,
}
use easytun.Base.Bytes.{Vip, vip_bytes, vip_at, be16, u16_at, IsVip, IsByte}
use easytun.Endpoint.Checksum.{
  checksum, udp_checksum, words, checksum-completed, words-le, checksum-le,
}
use easytun.Endpoint.OnesComplement.{ones_sum, ones_sum-whole}

-- A length is written modulo 2 ^ 16.
unfoldable pub ip_header : ℕ → ℕ → Vip → Vip → List ℕ
ip_header total_len check dns_server_ip local_ip =
    0x45
    ∷ 0x00
    ∷ (be16 total_len
        ++ (be16 0
            ++ (be16 0x4000
                ++ (64 ∷ 17 ∷ (be16 check ++ (vip_bytes dns_server_ip ++ vip_bytes local_ip))))))

unfoldable pub udp_datagram : ℕ → ℕ → List ℕ → List ℕ
udp_datagram dst_port check dns_payload =
    be16 53 ++ (be16 dst_port ++ (be16 (8 + length dns_payload) ++ (be16 check ++ dns_payload)))

-- `none` is the error for a reply without a port.
unfoldable pub build_dns_response : List ℕ → Vip → Vip → Option (List ℕ)
unfolding ip_header udp_datagram
build_dns_response raw_resp local_ip dns_server_ip =
    if ltb (length raw_resp) 2
    then none
    else let dst_port = u16_at raw_resp 0 in
      let dns_payload = drop 2 raw_resp in
      let total_len = 20 + 8 + length dns_payload in
      let check = checksum (ip_header total_len 0 dns_server_ip local_ip) in
      let udp_check = udp_checksum dns_server_ip local_ip (udp_datagram dst_port 0 dns_payload) in
      some (
        ip_header total_len check dns_server_ip local_ip
        ++ udp_datagram dst_port udp_check dns_payload)

-- The bytes that udpChecksum sums up.
abbrev pseudo : Vip → Vip → List ℕ → List ℕ
pseudo src dst udp_data =
    vip_bytes src ++ (vip_bytes dst ++ (0 ∷ 17 ∷ (be16 (length udp_data) ++ udp_data)))

header-checks :
    (n : ℕ) (s l : Vip)
    → IsVip s
    → IsVip l
    → checksum (ip_header n (checksum (ip_header n 0 s l)) s l) ≡ 0
unfolding ip_header words
header-checks n s l hs hl =
    checksum-completed (ip_header n 0 s l) (ip_header n (checksum (ip_header n 0 s l)) s l)
      (omega arith) (omega arith) (omega (arith, checksum-le (ip_header n 0 s l)))

datagram-checks :
    (port : ℕ) (payload : List ℕ) (s l : Vip)
    → IsVip s
    → IsVip l
    → All IsByte payload
    → length payload ≤ 65000
    → port < 2 ^ 16
    → udp_checksum s l (udp_datagram port (udp_checksum s l (udp_datagram port 0 payload)) payload)
      ≡ 0
unfolding udp_datagram words udp_checksum
datagram-checks port payload s l hs hl hp small low =
    let check = udp_checksum s l (udp_datagram port 0 payload) in
    checksum-completed (pseudo s l (udp_datagram port 0 payload))
      (pseudo s l (udp_datagram port check payload)) (omega arith)
      (omega (arith, words-le payload hp))
      (omega (arith, checksum-le (pseudo s l (udp_datagram port 0 payload))))

ip_header-IsByte :
    (n check : ℕ) (s l : Vip) → IsVip s → IsVip l → All IsByte (ip_header n check s l)
unfolding ip_header
ip_header-IsByte n check s l hs hl = ground arith

pseudo-IsByte :
    (port check n : ℕ) (payload : List ℕ) (s l : Vip)
    → IsVip s
    → IsVip l
    → All IsByte payload
    → All IsByte
        (vip_bytes s ++ (vip_bytes l ++ (0 ∷ 17 ∷ (be16 n ++ udp_datagram port check payload))))
unfolding udp_datagram
pseudo-IsByte port check n payload s l hs hl h = ground arith

-- The bytes that RFC 768 has a host sum up: the addresses of the packet, a zero, the number 17 of UDP and
-- the length of the datagram, as they stand in the packet behind 20 bytes of header, and the datagram.
abbrev pub udp_summed : List ℕ → List ℕ
udp_summed packet =
    take 8 (drop 12 packet) ++ (0 ∷ 17 ∷ (be16 (length packet - 20) ++ drop 20 packet))

udp_summed-whole :
    (n check port udp_check : ℕ) (s l : Vip) (payload : List ℕ)
    → ones_sum (pseudo s l (udp_datagram port udp_check payload)) ≡ 0xffff
    → ones_sum (udp_summed (ip_header n check s l ++ udp_datagram port udp_check payload)) ≡ 0xffff
unfolding ip_header udp_datagram
udp_summed-whole n check port udp_check s l payload h =
    let udp = udp_datagram port udp_check payload in
    let size : length (ip_header n check s l ++ udp) - 20 ≡ length udp = omega arith in
    ap (λ k. ones_sum (vip_bytes s ++ (vip_bytes l ++ (0 ∷ 17 ∷ (be16 k ++ udp))))) size ∙ h

-- What the host receives for a reply of 2 to 65000 bytes: an IPv4 packet of protocol 17 from the DNS
-- server's address to its own, whose header, and whose datagram with the pseudo-header of RFC 768,
-- sum to all ones in 16-bit one's complement arithmetic, as a host wants them. The packet is as long
-- as the reply without its port and the two headers, with the DNS message behind them.
pub build_dns_response-checks :
    (raw_resp : List ℕ) (l s : Vip)
    → ltb (length raw_resp) 2 ≡ false
    → length raw_resp ≤ 65000
    → All IsByte raw_resp
    → IsVip l
    → IsVip s
    → (packet : List ℕ) × (build_dns_response raw_resp l s ≡ some packet)
      × (length packet ≡ 28 + (length raw_resp - 2))
      × (get_or packet 9 0 ≡ 17)
      × (vip_at packet 12 ≡ s)
      × (vip_at packet 16 ≡ l)
      × (ones_sum (take 20 packet) ≡ 0xffff)
      × (ones_sum (udp_summed packet) ≡ 0xffff)
      × (drop 28 packet ≡ drop 2 raw_resp)
unfolding build_dns_response
build_dns_response-checks [] l s long small bytes hl hs = cc
build_dns_response-checks (x ∷ []) l s long small bytes hl hs = cc
build_dns_response-checks (x ∷ y ∷ payload) l s long small bytes hl hs =
    let n = 20 + 8 + length payload in
    let port = x * 256 + y in
    let check = checksum (ip_header n 0 s l) in
    let udp_check = udp_checksum s l (udp_datagram port 0 payload) in
    (
      ip_header n check s l ++ udp_datagram port udp_check payload,
      rw long,
      unfold ip_header udp_datagram in omega arith,
      unfold ip_header in refl,
      unfold ip_header in refl,
      unfold ip_header in refl,
      unfold ip_header in
          ones_sum-whole (ip_header n check s l) (omega arith) (ip_header-IsByte n check s l hs hl)
            (header-checks n s l hs hl),
      udp_summed-whole n check port udp_check s l payload (
          unfold udp_checksum in
          ones_sum-whole (pseudo s l (udp_datagram port udp_check payload))
            (unfold udp_datagram in omega arith)
            (pseudo-IsByte port udp_check (length (udp_datagram port udp_check payload)) payload s l
              hs hl bytes.1.1)
            (datagram-checks port payload s l hs hl bytes.1.1 (omega arith)
              (omega (arith, bytes.0, bytes.1.0)))),
      unfold ip_header udp_datagram in refl,
    )
