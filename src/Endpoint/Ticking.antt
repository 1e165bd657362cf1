-- ===== src/Endpoint/Ticking.antt =====
-- What a tick of handleP2P in client_p2p.go leaves of the table of peers, and the ports that punch
-- reaches.
use easytun.Base.{
  ℕ, zero, suc, ◌+◌, ◌-◌, ◌≡◌, ◌≤◌, ◌<◌, refl, ap, sym, ◌∙◌, inl, inr, Bool, true, false, ◌||◌,
  List, [], ◌∷◌, Option, none, some, length, get_or, ltb, eqb, arith, if◌then◌else◌, Bool-cases,
  Eq-cases, ◌==◌, ◌++◌, map,
}
use easytun.Base.Assoc.{Assoc, lookup, lookup-delete}
use easytun.Base.Keys.{IsDistinct, unless}
use easytun.Base.Bytes.{Vip, vip_eq}
use mathlib.Core.List.{append-nil, append_assoc}
use easytun.Hub.Udp.{Message}
use easytun.Hub.State.{AddrPort}
use easytun.Hub.P2p.{type_cone, type_symmetric}
use easytun.Endpoint.Transport.{ClientTransport, P2pStatus, write_to_udp, get_dst_addr}
use easytun.Endpoint.Peers.{is_timeout, remove_p2p, notify}
use easytun.Endpoint.Punching.{
  punch_ports, write_ports, punch, visit, visit_all, handle_p2p, ping_data,
}

write_ports-router :
    (t : ClientTransport) (bytes : List ℕ) (addr : AddrPort) (ports : List ℕ)
    → (write_ports t bytes addr ports).p2p_router ≡ t.p2p_router
unfolding write_ports write_to_udp
write_ports-router t bytes addr [] = refl
write_ports-router t bytes addr (port ∷ ports) =
    write_ports-router (write_to_udp t bytes (record addr { port = port })) bytes addr ports

punch-router :
    (t : ClientTransport) (bytes : List ℕ) (s : P2pStatus)
    → (punch t bytes s).p2p_router ≡ t.p2p_router
unfolding punch write_to_udp
punch-router t bytes s = elim (Bool-cases (eqb s.dst_nat_type type_cone)) [
  | inl e ↦ rw (e, punch) refl
  | inr e ↦ elim (Bool-cases (eqb s.dst_nat_type type_symmetric)) [
    | inl f ↦
        rw (e, f, punch)
          (write_ports-router t bytes (get_dst_addr t.arrays s)
            (punch_ports 300 0 (get_dst_addr t.arrays s).port))
    | inr f ↦ rw (e, f, punch) refl
  ]
]

sent-router :
    (t : ClientTransport) (bytes : List ℕ) (s : P2pStatus) (b : Bool)
    → (if b then write_to_udp t bytes (get_dst_addr t.arrays s) else punch t bytes s).p2p_router
      ≡ t.p2p_router
unfolding write_to_udp
sent-router t bytes s true = refl
sent-router t bytes s false = punch-router t bytes s

visit-router :
    (t : ClientTransport) (now : ℕ) (w v : Vip) (s : P2pStatus)
    → lookup v (visit t now w s).p2p_router ≡ (
        if is_timeout now 10 s
        then (if w == v then none else lookup v t.p2p_router)
        else lookup v t.p2p_router)
unfolding visit remove_p2p notify
visit-router t now w v s = elim (Bool-cases (is_timeout now 10 s)) [
  | inl e ↦ rw (e, visit) (lookup-delete w v t.p2p_router)
  | inr e ↦ rw (e, visit) (ap (lookup v) (sent-router t (ping_data t.local_ip) s s.established))
]

-- What is left of `kept` when the snapshot has `o`.
abbrev swept : ℕ → Option P2pStatus → Option P2pStatus → Option P2pStatus
swept now none kept = kept
swept now (some s) kept = if is_timeout now 10 s then none else kept

visit_all-router :
    (snapshot : Assoc Vip P2pStatus) (t : ClientTransport) (now : ℕ) (v : Vip)
    → IsDistinct snapshot
    → lookup v (visit_all t now snapshot).p2p_router
      ≡ swept now (lookup v snapshot) (lookup v t.p2p_router)
unfolding visit_all lookup
visit_all-router [] t now v h = refl
visit_all-router ((w, s) ∷ snapshot) t now v (fresh, h) =
    let rest = visit_all-router snapshot (visit t now w s) now v h in
    elim (Eq-cases w v) [
      | inl (same, q) ↦
          let alone : lookup v snapshot ≡ none =
            ap (λ (x : Vip). lookup x snapshot) (sym same) ∙ fresh in
          rest ∙ rw (alone, q, visit-router t now w v s, q) refl
      | inr q ↦ elim (Bool-cases (is_timeout now 10 s)) [
        | inl e ↦ rest ∙ rw (q, visit-router t now w v s, e, q) refl
        | inr e ↦ rest ∙ rw (q, visit-router t now w v s, e) refl
      ]
    ]

swept_self : (now : ℕ) (o : Option P2pStatus) → swept now o o ≡ unless (is_timeout now 10) o
swept_self now none = refl
swept_self now (some s) = refl

-- A tick takes the peers away that were last heard of more than ten seconds ago, and leaves the
-- status of every other as it is, in a table where an address stands once.
pub handle_p2p-lookup :
    (t : ClientTransport) (now : ℕ) (v : Vip)
    → IsDistinct t.p2p_router
    → lookup v (handle_p2p t now).p2p_router ≡ unless (is_timeout now 10) (lookup v t.p2p_router)
unfolding handle_p2p
handle_p2p-lookup t now v h =
    visit_all-router t.p2p_router t now v h ∙ swept_self now (lookup v t.p2p_router)

-- The loop of punch from a port between 100 and 65336 makes 300 attempts, at the ports from 100
-- below it to 199 above it, each once and in order; from a port below 100 it makes none, since the
-- first write is an error.
abbrev pub Fan : ℕ → ℕ → ℕ → Type 0
Fan n i port =
    (length (punch_ports n i port) ≡ n)
    × ((k : ℕ) → k < n → get_or (punch_ports n i port) k 0 ≡ port + i + k - 100)

punch_ports-Fan : (n i port : ℕ) → 100 ≤ port + i → port + i + n ≤ 65636 → Fan n i port
unfolding punch_ports
punch_ports-Fan zero i port low high = (refl, λ k h. absurd (omega (arith, h)))
punch_ports-Fan (suc n) i port low high =
    let fits : (ltb (port + i) 100 || ltb 65535 (port + i - 100)) ≡ false = ground arith in
    let (len, each) = punch_ports-Fan n (i + 1) port (omega (arith, low)) (omega (arith, high)) in
    rw fits (omega (arith, len), nth n i port each)
  where
    nth :
        (n i port : ℕ)
        → ((k : ℕ) → k < n → get_or (punch_ports n (i + 1) port) k 0 ≡ port + (i + 1) + k - 100)
        → (k : ℕ) → k < suc n
        → get_or ((port + i - 100) ∷ punch_ports n (i + 1) port) k 0 ≡ port + i + k - 100
    nth n i port each zero h = omega arith
    nth n i port each (suc k) h = omega (arith, each k (omega (arith, h)))

abbrev pub datagram : List ℕ → AddrPort → ℕ → Message
datagram bytes addr port = record { body = bytes; addr = record addr { port = port } }

write_ports-written :
    (t : ClientTransport) (bytes : List ℕ) (addr : AddrPort) (ports : List ℕ)
    → (write_ports t bytes addr ports).data_conn ≡ t.data_conn ++ map (datagram bytes addr) ports
unfolding write_ports write_to_udp
write_ports-written t bytes addr [] = sym (append-nil t.data_conn)
write_ports-written t bytes addr (port ∷ ports) =
    write_ports-written (write_to_udp t bytes (record addr { port = port })) bytes addr ports
    ∙ append_assoc t.data_conn _ _

-- A peer behind a symmetric NAT, at a port between 100 and 65336: punch sends one datagram to each
-- of 300 ports of its address, in order, from 100 below the port to 199 above it.
pub punch-symmetric :
    (t : ClientTransport) (bytes : List ℕ) (s : P2pStatus)
    → eqb s.dst_nat_type type_symmetric ≡ true
    → 100 ≤ (get_dst_addr t.arrays s).port
    → (get_dst_addr t.arrays s).port ≤ 65336
    → (ports : List ℕ) × ((punch t bytes s).data_conn
        ≡ t.data_conn ++ map (datagram bytes (get_dst_addr t.arrays s)) ports)
      × (length ports ≡ 300)
      × ((k : ℕ) → k < 300 → get_or ports k 0 ≡ (get_dst_addr t.arrays s).port + k - 100)
unfolding punch
punch-symmetric t bytes s symmetric low high =
    let addr = get_dst_addr t.arrays s in
    let apart : eqb s.dst_nat_type type_cone ≡ false = ground arith in
    let (len, each) = punch_ports-Fan 300 0 addr.port (omega (arith, low)) (omega (arith, high)) in
    (
      punch_ports 300 0 addr.port,
      rw (apart, symmetric, punch) (write_ports-written t bytes addr (punch_ports 300 0 addr.port)),
      len,
      λ k h. omega (arith, each k h),
    )
