-- ===== src/Examples/Handshakes.antt =====
-- Handshakes between two managers, with small keys.
use easytun.Base.{ℕ, ◌≡◌, refl, ap, false, List, [], ◌∷◌, Option, none, some, arith, eqb, get_or}
use easytun.Base.Bytes.{vip_beq, vip_eq}
use easytun.Base.Assoc.{insert, lookup, delete}
use easytun.Cipher.{is_ready, init}
use easytun.Errors.{collision, handshake_failed}
use easytun.Noise.Library.{HandshakeState, Keys}
use easytun.Noise.Session.{NoiseSession, new_noise_session, close_pending}
use easytun.Noise.Manager.{
  NoiseManager, with_session, answered, waited, failed, new_noise_manager, set_virtual_ip,
  set_session, get_session, handshake_init, handle_noise_packet, init_cipher,
}
use easytun.Noise.Agreement.{Linked, handle_noise_packet-Linked}
use easytun.Noise.Collision.{collision-Linked}
use easytun.Noise.Events.{NoiseEvent, arrives, seals, renews, sweeps, begins, waits, moves, run}
use easytun.Noise.Keeping.{HasKeysOf, run-with_session}
use easytun.Noise.Repeat.{handshake_init-twice}
use easytun.Tunnel.Key.{bytes_lt}
use easytun.Examples.Toys.{
  repeated, alice, bob, toy, toy_first, toy_second, toy_read_first, toy_read_second,
}

abbrev low : NoiseManager
low = record {
  tun_chan = (7 ∷ []) ∷ [];
  my_vip = alice;
  static_priv = 5 ∷ [];
  static_pub = 5 ∷ [];
  sessions = [];
}

abbrev high : NoiseManager
high = record {
  tun_chan = [];
  my_vip = bob;
  static_priv = 6 ∷ [];
  static_pub = 6 ∷ [];
  sessions = [];
}

new_manager : set_virtual_ip alice (new_noise_manager toy (5 ∷ [])) ≡ record low { tun_chan = [] }
unfolding set_virtual_ip new_noise_manager toy
new_manager = refl

-- The first message whose random byte is `r`, and the packets that wait.
abbrev message : ℕ → List ℕ
message r = r ∷ repeated 95 1

abbrev greeting : List ℕ
greeting = 69 ∷ 1 ∷ []

abbrev query : List ℕ
query = 69 ∷ 2 ∷ []

-- `low` writes to `high` at 100, which answers at 101; the answer arrives at 102.
abbrev begun : NoiseManager
begun = (handshake_init toy low 100 (3 ∷ []) bob (6 ∷ []) greeting).0

handle_noise_packet-Linked_example :
    (answer : List ℕ) × (sa : NoiseSession) × (sb : NoiseSession) × ((handle_noise_packet toy high
        101 [] alice
        (message 3)).1
      ≡ answered sb answer)
    × ((handle_noise_packet toy begun 102 [] bob answer).1 ≡ waited)
    × (get_session (handle_noise_packet toy begun 102 [] bob answer).0 bob ≡ some sa)
    × (get_session (handle_noise_packet toy high 101 [] alice (message 3)).0 alice ≡ some sb)
    × Linked sa.cipher sb.cipher
    × ((handle_noise_packet toy high 101 [] alice (message 3)).0.tun_chan ≡ [])
    × ((handle_noise_packet toy begun 102 [] bob answer).0.tun_chan ≡ (7 ∷ []) ∷ greeting ∷ [])
unfolding toy get_session handshake_init toy_first lookup
handle_noise_packet-Linked_example =
    handle_noise_packet-Linked toy low high alice bob (3 ∷ []) (message 3) greeting 100 refl refl
      refl 101 102 [] []

-- `high` writes at the same time, with the random byte 4.
abbrev crossed : NoiseManager
crossed = (handshake_init toy high 100 (4 ∷ []) alice (5 ∷ []) query).0

collision-Linked_example :
    (answer : List ℕ) × (sa : NoiseSession) × (sb : NoiseSession) × ((handle_noise_packet toy
        crossed 101 [] alice
        (message 3)).1
      ≡ answered sa answer)
    × (handle_noise_packet toy begun 101 [] bob (message 4) ≡ (begun, failed collision))
    × ((handle_noise_packet toy begun 102 [] bob answer).1 ≡ waited)
    × (get_session (handle_noise_packet toy crossed 101 [] alice (message 3)).0 alice ≡ some sa)
    × (get_session (handle_noise_packet toy begun 102 [] bob answer).0 bob ≡ some sb)
    × Linked sb.cipher sa.cipher
    × ((handle_noise_packet toy begun 102 [] bob answer).0.tun_chan ≡ (7 ∷ []) ∷ greeting ∷ [])
    × ((handle_noise_packet toy crossed 101 [] alice (message 3)).0.tun_chan ≡ [])
unfolding toy handshake_init toy_first bytes_lt
collision-Linked_example =
    collision-Linked toy high low (4 ∷ []) (3 ∷ []) (message 4) (message 3) query greeting 100 refl
      refl refl refl refl 101 102 [] [] []

-- The handshake with the random byte 9 does not accept an answer to the message with 3.
other_answer :
    (hs : HandshakeState) (answer : List ℕ) (keys : Keys)
    → toy.read_first (toy.new_responder (6 ∷ [])) (message 3) ≡ some hs
    → toy.write_second hs [] ≡ some (answer, keys)
    → (toy.read_second (toy.write_first (toy.new_initiator (5 ∷ []) (6 ∷ [])) (9 ∷ [])).0 answer).1
      ≡ none
unfolding toy toy_first toy_read_first toy_second toy_read_second
other_answer hs answer keys e f =
    let read : 3 ≡ get_or hs.bytes 0 0 =
      ap (λ (o : Option HandshakeState). elim o [ none ↦ 0 | some s ↦ get_or s.bytes 0 0 ]) e in
    let replied : get_or hs.bytes 0 0 ≡ get_or answer 0 0 =
      ap (λ (o : Option (List ℕ × Keys)). elim o [ none ↦ 0 | some p ↦ get_or p.0 0 0 ]) f in
    let apart : eqb (get_or answer 0 0) 9 ≡ false = ground (arith, read, replied) in rw apart

handshake_init-twice_example :
    (answer : List ℕ) × (sa : NoiseSession) × (sb : NoiseSession) × ((handle_noise_packet toy high
        101 [] alice
        (message 3)).1
      ≡ answered sb answer)
    × (handle_noise_packet toy
          (handle_noise_packet toy high 101 [] alice (message 3)).0
          102
          []
          alice
          (message 9)
        ≡ ((handle_noise_packet toy high 101 [] alice (message 3)).0, with_session sb))
    × ((handle_noise_packet toy
          (handshake_init toy begun 101 (9 ∷ []) bob (6 ∷ []) query).0
          103
          []
          bob
          answer).1
        ≡ failed handshake_failed)
    × (get_session
          (handle_noise_packet toy
            (handshake_init toy begun 101 (9 ∷ []) bob (6 ∷ []) query).0
            103
            []
            bob
            answer).0
          bob
        ≡ some sa)
    × (is_ready sa.cipher ≡ false)
    × (sa.pending_chan.items ≡ query ∷ [])
    × ((handle_noise_packet toy
          (handshake_init toy begun 101 (9 ∷ []) bob (6 ∷ []) query).0
          103
          []
          bob
          answer).0.tun_chan
        ≡ (7 ∷ []) ∷ [])
unfolding toy get_session handshake_init toy_first lookup
handshake_init-twice_example =
    handshake_init-twice toy low high alice bob (3 ∷ []) (9 ∷ []) (message 3) (message 9) greeting
      query 100 101 refl refl refl refl 101 102 103 [] [] [] other_answer

-- A ready session of `low` with `high`.
abbrev talking : NoiseSession
talking = init_cipher toy (new_noise_session 100 bob false none) (2 ∷ []) (1 ∷ [])

abbrev linked_low : NoiseManager
linked_low = set_session low bob talking

-- A packet goes to `high` every few seconds, and a first message of `high`, restarted, comes in.
abbrev busy_run : List NoiseEvent
busy_run =
    seals 104 bob
    ∷ sweeps 110
    ∷ begins 110 (3 ∷ []) alice (5 ∷ []) greeting
    ∷ waits alice query
    ∷ moves alice
    ∷ arrives 111 [] bob (message 8)
    ∷ renews 113 bob
    ∷ sweeps 120
    ∷ []

run-with_session_example :
    (t : NoiseSession) × (handle_noise_packet toy
        (run toy linked_low busy_run)
        121
        []
        bob
        (message 9)
      ≡ (run toy linked_low busy_run, with_session t))
    × HasKeysOf t.cipher talking.cipher
unfolding get_session set_session init_cipher new_noise_session is_ready init insert lookup vip_beq
    close_pending delete toy
run-with_session_example =
    run-with_session toy busy_run linked_low bob talking 121 [] (message 9) refl refl (refl, tt)
      (omega arith, (refl, (omega arith, tt)))
