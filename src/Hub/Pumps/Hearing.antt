-- ===== src/Hub/Pumps/Hearing.antt =====
-- What readPump of internal/transport/server_ws.go ignores.
use easytun.Base.{
  ℕ, ◌≡◌, refl, ap, ◌∙◌, true, false, List, [], ◌∷◌, ◌++◌, Option, none, some, eqb, All, nat_eq,
  bytes_eq,
}
use easytun.Base.Bytes.{Vip, vip_eq}
use easytun.Errors.{Error}
use easytun.Packet.Codec.{parse_control, empty_packet}
use easytun.Packet.Compress.{GamePacket}
use easytun.Packet.PType
use easytun.Hub.State.{Hub, Client, client_of, set_client}
use easytun.Hub.Session.{read_frame, after_parse}
use easytun.Hub.Joining.{client_of-set_client_self}
use easytun.Hub.Pumps.{
  Heard, pinged, timed_out, broken, not_binary, unreadable, message, hear, answer_ping, read_pump,
}

-- A message that nothing is done for, at a client with this address: bytes that ParseControl refuses, or,
-- while there is no address, anything but a handshake.
abbrev pub IsIgnored : Option Vip → GamePacket × Option Error → Type 0
IsIgnored o (gp, some e) = Unit {0}
IsIgnored none (gp, none) = eqb gp.ptype PType.handshake ≡ false
IsIgnored (some v) (gp, none) = ⊥

abbrev pub IsQuiet : Option Vip → Heard → Type 0
IsQuiet o pinged = Unit {0}
IsQuiet o timed_out = Unit {0}
IsQuiet o broken = ⊥
IsQuiet o not_binary = Unit {0}
IsQuiet o unreadable = Unit {0}
IsQuiet o (message bytes) = IsIgnored o (parse_control empty_packet bytes)

-- Only records of clients differ, and that of `c` not in its address, name and ID.
abbrev pub Unmoved : ℕ → Hub → Hub → Type 0
Unmoved c h h' =
    (h' ≡ record h { clients = h'.clients })
    × ((client_of h' c).virtual_ip ≡ (client_of h c).virtual_ip)
    × ((client_of h' c).hostname ≡ (client_of h c).hostname)
    × ((client_of h' c).client_id ≡ (client_of h c).client_id)

Unmoved-trans : (c : ℕ) (h g k : Hub) → Unmoved c h g → Unmoved c g k → Unmoved c h k
Unmoved-trans c h g k (e, v, n, i) (e', v', n', i') =
    (e' ∙ ap (λ (x : Hub). record x { clients = k.clients }) e, v' ∙ v, n' ∙ n, i' ∙ i)

set_client-Unmoved :
    (h : Hub) (c : ℕ) (k : Client)
    → k.virtual_ip ≡ (client_of h c).virtual_ip
    → k.hostname ≡ (client_of h c).hostname
    → k.client_id ≡ (client_of h c).client_id
    → Unmoved c h (set_client h c k)
set_client-Unmoved h c k v n i =
    let e = client_of-set_client_self h c k in
    (
      unfold set_client in refl,
      ap (λ (x : Client). x.virtual_ip) e ∙ v,
      ap (λ (x : Client). x.hostname) e ∙ n,
      ap (λ (x : Client). x.client_id) e ∙ i,
    )

after_parse-ignored :
    (h : Hub) (c : ℕ) (o : Option Vip) (p : GamePacket × Option Error)
    → (client_of h c).virtual_ip ≡ o
    → IsIgnored o p
    → after_parse h c p ≡ (h, true)
after_parse-ignored h c o (gp, some e) at_o q = refl
after_parse-ignored h c none (gp, none) at_o q = rw (q, at_o) refl
after_parse-ignored h c (some v) (gp, none) at_o q = elim q [ ]

hear-Unmoved :
    (e : Heard) (h : Hub) (c : ℕ) (o : Option Vip)
    → (client_of h c).virtual_ip ≡ o
    → IsQuiet o e
    → ((hear h c e).1 ≡ true) × Unmoved c h (hear h c e).0
unfolding hear answer_ping read_frame
hear-Unmoved pinged h c o at_o q = (refl, set_client-Unmoved h c _ refl refl refl)
hear-Unmoved timed_out h c o at_o q = (refl, (refl, refl, refl, refl))
hear-Unmoved broken h c o at_o q = elim q [ ]
hear-Unmoved not_binary h c o at_o q = (refl, (refl, refl, refl, refl))
hear-Unmoved unreadable h c o at_o q = (refl, (refl, refl, refl, refl))
hear-Unmoved (message bytes) h c o at_o q =
    let same = after_parse-ignored h c o (parse_control empty_packet bytes) at_o q in
    rw same (refl, (refl, refl, refl, refl))

pub read_pump-Unmoved :
    (es rest : List Heard) (h : Hub) (c : ℕ) (o : Option Vip)
    → (client_of h c).virtual_ip ≡ o
    → All (IsQuiet o) es
    → (h' : Hub) × (read_pump h c (es ++ rest) ≡ read_pump h' c rest) × Unmoved c h h'
unfolding read_pump
read_pump-Unmoved [] rest h c o at_o q = (h, refl, (refl, refl, refl, refl))
read_pump-Unmoved (e ∷ es) rest h c o at_o q =
    let (goes, moved) = hear-Unmoved e h c o at_o q.0 in
    let (h', same, moved') = read_pump-Unmoved es rest (hear h c e).0 c o (moved.1 ∙ at_o) q.1 in
    (h', rw goes same, Unmoved-trans c h (hear h c e).0 h' moved moved')

pub read_pump-message :
    (h h' : Hub) (c : ℕ) (e : Heard) (es : List Heard)
    → hear h c e ≡ (h', true)
    → read_pump h c (e ∷ es) ≡ read_pump h' c es
unfolding read_pump
read_pump-message h h' c e es heard = rw heard refl
