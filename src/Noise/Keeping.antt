-- ===== src/Noise/Keeping.antt =====
-- How long a session of NoiseManager stays: CheckSession, which sweeps with a timeout of 10
-- seconds, against the packets that come and go.
use easytun.Base.{
  ℕ, ◌≡◌, ◌≤◌, ◌+◌, ◌-◌, refl, ap, ◌∙◌, inl, inr, true, false, List, [], ◌∷◌, Option, none, some,
  ltb, eqb, ◌==◌, Bool-cases, arith, if◌then◌else◌, Eq-cases, Option-cases,
}
use easytun.Base.Assoc.{lookup-insert}
use easytun.Base.Keys.{IsDistinct, insert-IsDistinct}
use easytun.Base.Bytes.{Vip, vip_eq}
use easytun.Cipher.{Aead, Cipher, CipherState, is_ready, get_nonce}
use easytun.Packet.Codec.{next_nonce}
use easytun.Noise.Library.{NoiseLibrary}
use easytun.Noise.Session.{NoiseSession, update_last_seen, is_timeout, add_pending_data}
use easytun.Noise.Manager.{
  NoiseManager, with_session, handle_noise_packet, handshake_init, set_virtual_ip, sweep_sessions,
  get_session, set_session, touch,
}
use easytun.Noise.Events.{
  NoiseEvent, arrives, seals, renews, sweeps, begins, waits, moves, count_on, keep_waiting, step,
  run,
}
use easytun.Noise.Spared.{sweep_sessions_lem, set_session-Spared, handle_noise_packet-Spared}

-- No handshake is begun with `v`, and at most ten seconds before each sweep a packet to `v` was sent
-- or one of its opened, `last` being the time of the latest one.
abbrev pub Busy : Vip → ℕ → List NoiseEvent → Type 0
Busy v last [] = Unit {0}
Busy v last (arrives now random w bytes ∷ es) = Busy v last es
Busy v last (seals now w ∷ es) = Busy v (if w == v then now else last) es
Busy v last (renews now w ∷ es) = Busy v (if w == v then now else last) es
Busy v last (sweeps now ∷ es) = (now ≤ last + 10) × Busy v last es
Busy v last (begins now random w peer payload ∷ es) = (w == v ≡ false) × Busy v last es
Busy v last (waits w packet ∷ es) = Busy v last es
Busy v last (moves w ∷ es) = Busy v last es

abbrev aead_of : Option CipherState → Option Aead
aead_of none = none
aead_of (some cs) = some cs.aead

-- The keys are the same; the counter of what was sent may have moved on.
abbrev pub HasKeysOf : Cipher → Cipher → Type 0
HasKeysOf c d =
    (c.status ≡ d.status) × (c.recver ≡ d.recver) × (aead_of c.sender ≡ aead_of d.sender)

aead_of-next_nonce : (o : Option CipherState) → aead_of (next_nonce o).1 ≡ aead_of o
unfolding next_nonce get_nonce
aead_of-next_nonce none = refl
aead_of-next_nonce (some cs) = refl

module _ (lib : NoiseLibrary) where
  module _ (v : Vip) (c : Cipher) (ready : is_ready c ≡ true) where
    -- The map has a session with `v` with this cipher, last seen at `last`.
    abbrev Holding : NoiseManager → ℕ → Type 0
    Holding m last =
        (s : NoiseSession) × (get_session m v ≡ some s)
        × HasKeysOf s.cipher c
        × (s.last_seen ≡ last)
        × IsDistinct m.sessions

    still_ready : (s : NoiseSession) → HasKeysOf s.cipher c → is_ready s.cipher ≡ true
    unfolding is_ready
    still_ready s k = ap (λ (n : ℕ). eqb n 2) k.0 ∙ ready

    arrival-Holding :
        (m : NoiseManager) (last now : ℕ) (random : List ℕ) (w : Vip) (bytes : List ℕ)
        → Holding m last
        → Holding (handle_noise_packet lib m now random w bytes).0 last
    unfolding handle_noise_packet
    arrival-Holding m last now random w bytes (s, e, k, l, h) = elim (Eq-cases w v) [
      | inl (same, q) ↦
          rw (same, e, handle_noise_packet, still_ready s k) (s, unfold get_session in e, k, l, h)
      | inr q ↦
          let (kept, h') = handle_noise_packet-Spared lib m w v now random bytes h q in
          (s, kept ∙ e, k, l, h')
    ]

    opens :
        (m : NoiseManager) (last now : ℕ) (random bytes : List ℕ)
        → Holding m last
        → (s : NoiseSession) × (handle_noise_packet lib m now random v bytes ≡ (m, with_session s))
          × HasKeysOf s.cipher c
    unfolding handle_noise_packet
    opens m last now random bytes (s, e, k, l, h) =
        (s, rw (e, handle_noise_packet, still_ready s k), k)

    -- A write to the session of another peer.
    write-Holding :
        (m : NoiseManager) (last : ℕ) (w : Vip) (t : NoiseSession)
        → w == v ≡ false
        → Holding m last
        → Holding (set_session m w t) last
    write-Holding m last w t apart (s, e, k, l, h) =
        let (kept, h') = set_session-Spared m w v t h apart in (s, kept ∙ e, k, l, h')

    sealing-Holding :
        (m : NoiseManager) (last now : ℕ) (w : Vip)
        → Holding m last
        → Holding (count_on m now w (get_session m w)) (if w == v then now else last)
    unfolding count_on update_last_seen
    sealing-Holding m last now w (s, e, k, l, h) = elim (Eq-cases w v) [
      | inl (same, q) ↦
          let x = s.cipher in
          let s' = record s {
            cipher = record x { sender = (next_nonce x.sender).1 };
            last_seen = now;
          } in
          let there : get_session m w ≡ some s = ap (get_session m) same ∙ e in
          rw (there, q, still_ready s k)
            (
              s',
              unfold get_session set_session in lookup-insert w v s' m.sessions ∙ rw (q) refl,
              (k.0, k.1, aead_of-next_nonce x.sender ∙ k.2),
              refl,
              unfold set_session in insert-IsDistinct w s' m.sessions h,
            )
      | inr q ↦ elim (Option-cases (get_session m w)) [
        | inl none_there ↦ rw (none_there, q, count_on) (s, e, k, l, h)
        | inr (t, there) ↦ elim (Bool-cases (is_ready t.cipher)) [
          | inl yet ↦ rw (there, yet, q) (write-Holding m last w _ q (s, e, k, l, h))
          | inr not_yet ↦ rw (there, not_yet, q) (s, e, k, l, h)
        ]
      ]
    ]

    renewal-Holding :
        (m : NoiseManager) (last now : ℕ) (w : Vip)
        → Holding m last
        → Holding (touch m now w) (if w == v then now else last)
    unfolding touch update_last_seen
    renewal-Holding m last now w (s, e, k, l, h) = elim (Eq-cases w v) [
      | inl (same, q) ↦
          let s' = record s { last_seen = now } in
          let there : get_session m w ≡ some s = ap (get_session m) same ∙ e in
          rw (there, q, touch, update_last_seen)
            (
              s',
              unfold get_session set_session in lookup-insert w v s' m.sessions ∙ rw (q) refl,
              k,
              refl,
              unfold set_session in insert-IsDistinct w s' m.sessions h,
            )
      | inr q ↦ elim (Option-cases (get_session m w)) [
        | inl none_there ↦ rw (none_there, q, touch) (s, e, k, l, h)
        | inr (t, there) ↦
            let (kept, h') = set_session-Spared m w v (update_last_seen now t) h q in
            rw (there, q, touch) (s, kept ∙ e, k, l, h')
      ]
    ]

    sweep-Holding :
        (m : NoiseManager) (last now : ℕ)
        → now ≤ last + 10
        → Holding m last
        → Holding (sweep_sessions now 10 m) last
    unfolding is_timeout
    sweep-Holding m last now recent (s, e, k, l, h) =
        let (kept, h') = sweep_sessions_lem m now 10 v h in
        let young : ltb 10 (now - s.last_seen) ≡ false = ground (arith, l) in
        (s, kept ∙ rw (e, young), k, l, h')

    waiting-Holding :
        (m : NoiseManager) (last : ℕ) (w : Vip) (packet : List ℕ)
        → Holding m last
        → Holding (keep_waiting m w packet (get_session m w)) last
    unfolding keep_waiting
    waiting-Holding m last w packet (s, e, k, l, h) = elim (Eq-cases w v) [
      | inl (same, q) ↦
          let there : get_session m w ≡ some s = ap (get_session m) same ∙ e in
          rw (there, still_ready s k) (s, e, k, l, h)
      | inr q ↦ elim (Option-cases (get_session m w)) [
        | inl none_there ↦ rw (none_there, keep_waiting) (s, e, k, l, h)
        | inr (t, there) ↦ elim (Bool-cases (is_ready t.cipher)) [
          | inl yet ↦ rw (there, yet) (s, e, k, l, h)
          | inr not_yet ↦
              rw (there, not_yet)
                (write-Holding m last w (add_pending_data packet t) q (s, e, k, l, h))
        ]
      ]
    ]

    run-Holding :
        (es : List NoiseEvent) (m : NoiseManager) (last : ℕ)
        → Busy v last es
        → Holding m last
        → (latest : ℕ) × Holding (run lib m es) latest
    unfolding run step
    run-Holding [] m last busy held = (last, held)
    run-Holding (arrives now random w bytes ∷ es) m last busy held =
        run-Holding es (handle_noise_packet lib m now random w bytes).0 last busy
          (arrival-Holding m last now random w bytes held)
    run-Holding (seals now w ∷ es) m last busy held =
        run-Holding es (count_on m now w (get_session m w)) (if w == v then now else last) busy
          (sealing-Holding m last now w held)
    run-Holding (renews now w ∷ es) m last busy held =
        run-Holding es (touch m now w) (if w == v then now else last) busy
          (renewal-Holding m last now w held)
    run-Holding (sweeps now ∷ es) m last busy held =
        run-Holding es (sweep_sessions now 10 m) last busy.1 (sweep-Holding m last now busy.0 held)
    run-Holding (begins now random w peer payload ∷ es) m last busy held =
        run-Holding es (handshake_init lib m now random w peer payload).0 last busy.1
          (unfold handshake_init in write-Holding m last w _ busy.0 held)
    run-Holding (waits w packet ∷ es) m last busy held =
        run-Holding es (keep_waiting m w packet (get_session m w)) last busy
          (waiting-Holding m last w packet held)
    run-Holding (moves w ∷ es) m last busy held =
        run-Holding es (set_virtual_ip w m) last busy (unfold set_virtual_ip get_session in held)

  -- A manager has a ready session with a peer, in a map where an address stands once. Through every
  -- run of its operations in which it begins no handshake with that peer and in which, at most ten
  -- seconds before each sweep, a packet to the peer was sent or one of its was opened, it treats the next
  -- packet of the peer, whatever that is, as one of that session: the keys are the same, nothing
  -- changes, and no answer is made. So a peer that lost its keys and starts a handshake is not heard,
  -- while the manager itself begins none.
  pub run-with_session :
      (es : List NoiseEvent) (m : NoiseManager) (v : Vip) (s : NoiseSession) (now : ℕ)
      (random bytes : List ℕ)
      → get_session m v ≡ some s
      → is_ready s.cipher ≡ true
      → IsDistinct m.sessions
      → Busy v s.last_seen es
      → (t : NoiseSession) × (handle_noise_packet lib (run lib m es) now random v bytes
          ≡ (run lib m es, with_session t))
        × HasKeysOf t.cipher s.cipher
  run-with_session es m v s now random bytes e ready h busy =
      let (latest, held) =
        run-Holding v s.cipher ready es m s.last_seen busy (s, e, (refl, refl, refl), refl, h) in
      opens v s.cipher ready (run lib m es) latest now random bytes held
