-- ===== src/Hub/Records.antt =====
-- internal/transport/server_dns.go: the names of the clients and the answers to DNS requests. The
-- DNS library is a parameter.
use easytun.Base.{
  ℕ, Bool, true, false, List, [], ◌∷◌, ◌++◌, Option, none, some, length, take, drop, ltb, eqb, ◌&&◌,
  if◌then◌else◌, bytes_eq,
}
use easytun.Base.Assoc.{lookup, insert, delete}
use easytun.Base.Bytes.{Vip}
use easytun.Errors.{Result, ok, err, packet_too_short, parse_dns_error, dns_codec_failed}
use easytun.Hub.State.{Hub}

unfoldable pub add_dns : Hub → List ℕ → Vip → Hub
add_dns h hostname ip = record h { dns_map = insert hostname ip h.dns_map }

unfoldable pub remove_dns : Hub → List ℕ → Hub
remove_dns h hostname = record h { dns_map = delete hostname h.dns_map }

unfoldable pub starts_with : List ℕ → List ℕ → Bool
starts_with [] s = true
starts_with (c ∷ cs) [] = false
starts_with (c ∷ cs) (x ∷ xs) = eqb c x && starts_with cs xs

-- strings.Replace(s, old, "", 1), for an `old` that is not empty
unfoldable pub remove_first : List ℕ → List ℕ → List ℕ
unfolding starts_with
remove_first old [] = []
remove_first old (x ∷ xs) =
    let rest = remove_first old xs in
    if starts_with old (x ∷ xs) then drop (length old) (x ∷ xs) else x ∷ rest

unfoldable pub get_dns : Hub → List ℕ → List ℕ → Option Vip
unfolding remove_first
get_dns h hostname domain = lookup (remove_first (domain ++ (b'.' ∷ [])) hostname) h.dns_map

-- codeberg.org/miekg/dns: the names that a query asks for, a reply with the code NXDOMAIN, an
-- A record with its text form parsed, and a reply that carries it. `none` is an error.
pub record DnsCodec : Type 0 where
  pub unpack : List ℕ → Option (List (List ℕ))
  pub pack_name_error : List ℕ → Option (List ℕ)
  pub new_rr : List ℕ → Vip → Option (List ℕ)
  pub pack_answer : List ℕ → List ℕ → Option (List ℕ)

abbrev pub dot_et : List ℕ
dot_et = b'.' ∷ b'e' ∷ b't' ∷ []

-- The two bytes in front of the query, the client's port, come back only with an answer.
unfoldable pub answer_with : DnsCodec → List ℕ → List ℕ → Option Vip → Result (List ℕ)
answer_with d r hostname none = elim (d.pack_name_error (drop 2 r)) [
  | none ↦ err dns_codec_failed
  | some reply ↦ ok reply
]
answer_with d r hostname (some ip) = elim (d.new_rr hostname ip) [
  | none ↦ err parse_dns_error
  | some rr ↦ elim (d.pack_answer (drop 2 r) rr) [
    | none ↦ err dns_codec_failed
    | some reply ↦ ok (take 2 r ++ reply)
  ]
]

unfoldable pub build_dns_response : DnsCodec → Hub → List ℕ → Result (List ℕ)
unfolding get_dns answer_with
build_dns_response d h r =
    if ltb (length r) 2 then err packet_too_short else elim (d.unpack (drop 2 r)) [
      | none ↦ err dns_codec_failed
      | some [] ↦ err parse_dns_error
      | some (hostname ∷ _) ↦ answer_with d r hostname (get_dns h hostname dot_et)
    ]
