-- ===== src/Noise/Repeat.antt =====
-- Two first messages to one peer: what a burst of packets brings about before the first answer.
use easytun.Base.{ℕ, ◌≡◌, refl, ap, ◌∙◌, true, false, List, [], ◌∷◌, none, some, length, arith}
use easytun.Base.Assoc.{lookup-insert_self}
use easytun.Base.Bytes.{Vip, vip_eq}
use easytun.Cipher.{is_ready, init}
use easytun.Errors.{handshake_failed}
use easytun.Noise.Library.{NoiseLibrary, HandshakeState, Keys}
use easytun.Noise.Session.{NoiseSession}
use easytun.Noise.Manager.{
  NoiseManager, Handled, answered, with_session, failed, handshake_init, handle_noise_packet,
  read_answer, complete, store_and_flush, get_session, set_session,
}
use easytun.Noise.Steps.{
  store_and_flush_lem, initiated, handshake_init-session, responding, handle_noise_packet-first,
  handle_noise_packet-ready, handle_pending-brief, initiated-fields, responding-fields,
}

module _ (lib : NoiseLibrary) where
  -- An answer that the handshake does not accept.
  handle_noise_packet-rejected :
      (m : NoiseManager) (now : ℕ) (random : List ℕ) (v : Vip) (answer : List ℕ) (s : NoiseSession)
      (hs : HandshakeState)
      → get_session m v ≡ some s
      → is_ready s.cipher ≡ false
      → s.is_initiator ≡ true
      → s.hs ≡ some hs
      → length answer ≡ 48
      → (lib.read_second hs answer).1 ≡ none
      → handle_noise_packet lib m now random v answer ≡ (
        set_session m v (record s { hs = some (lib.read_second hs answer).0 }),
        failed handshake_failed,
      )
  unfolding handle_noise_packet read_answer complete
  handle_noise_packet-rejected m now random v answer s hs e pending starts has short rejects =
      rw (e, handle_noise_packet, pending)
        (handle_pending-brief lib m now random v answer s starts (omega arith)
          ∙ ap (read_answer lib m v s answer) has
          ∙ rw (rejects, complete))

  module _ (a b : NoiseManager) (va vb : Vip) (random random2 msg msg2 payload payload2 : List ℕ)
      (now now2 : ℕ) (key : b.static_pub ≡ lib.public b.static_priv)
      (no_session : get_session b va ≡ none)
      (wrote : (handshake_init lib a now random vb b.static_pub payload).1 ≡ some msg)
      (wrote2 : (handshake_init lib
          (handshake_init lib a now random vb b.static_pub payload).0
          now2
          random2
          vb
          b.static_pub
          payload2).1
        ≡ some msg2) where
    abbrev a2 : NoiseManager
    a2 =
        (handshake_init lib (handshake_init lib a now random vb b.static_pub payload).0 now2 random2
          vb b.static_pub payload2).0

    read-sent :
        (hs : HandshakeState) × (lib.read_first (lib.new_responder b.static_priv) msg ≡ some hs)
    unfolding handshake_init
    read-sent = lib.read-write_first a.static_priv b.static_priv random msg (rw (← key) wrote)

    -- A manager writes a first message to a peer, and a second one before the answer comes. The
    -- peer, which has no session, answers the first and takes the second as a packet of the new
    -- session: it makes no answer and does not change. The answer is to the handshake that the
    -- second message replaced. Where the second handshake does not accept it, the manager fails,
    -- the session with the peer is still not ready, and of the two waiting packets only the second
    -- waits: the first is neither there nor in the queue.
    pub handshake_init-twice :
        (later later2 latest : ℕ) (random' random2' random'' : List ℕ)
        → (other : (hs : HandshakeState) (answer : List ℕ) (keys : Keys)
            → lib.read_first (lib.new_responder b.static_priv) msg ≡ some hs
            → lib.write_second hs random' ≡ some (answer, keys)
            → (lib.read_second
                (lib.write_first (lib.new_initiator a.static_priv b.static_pub) random2).0
                answer).1
              ≡ none)
        → (answer : List ℕ) × (sa : NoiseSession) × (sb : NoiseSession) × ((handle_noise_packet lib
              b later random' va msg).1
            ≡ answered sb answer)
          × (handle_noise_packet lib
                (handle_noise_packet lib b later random' va msg).0
                later2
                random2'
                va
                msg2
              ≡ ((handle_noise_packet lib b later random' va msg).0, with_session sb))
          × ((handle_noise_packet lib a2 latest random'' vb answer).1 ≡ failed handshake_failed)
          × (get_session (handle_noise_packet lib a2 latest random'' vb answer).0 vb ≡ some sa)
          × (is_ready sa.cipher ≡ false)
          × (sa.pending_chan.items ≡ payload2 ∷ [])
          × ((handle_noise_packet lib a2 latest random'' vb answer).0.tun_chan ≡ a.tun_chan)
    handshake_init-twice later later2 latest random' random2' random'' other =
        let a1 : NoiseManager = (handshake_init lib a now random vb b.static_pub payload).0 in
        let s2 : NoiseSession = initiated lib a1 now2 random2 vb b.static_pub payload2 in
        let (idle, starts, has, waits, fresh) =
          initiated-fields lib a1 now2 random2 vb b.static_pub payload2 in
        let (hs, read) = read-sent in
        let (answer, keys, wrote') = lib.write_second-total b.static_priv msg random' hs read in
        let sb : NoiseSession = responding lib later va keys in
        let hs2 : HandshakeState =
          (lib.write_first (lib.new_initiator a1.static_priv b.static_pub) random2).0 in
        let took : handle_noise_packet lib b later random' va msg
            ≡ (store_and_flush lib b va sb, answered sb answer) =
          handle_noise_packet-first lib b later random' va msg answer hs keys no_session read
            wrote' in
        let (same_b, empty_b, cipher_b) = responding-fields lib later va keys in
        let (got_b, queue_b) = store_and_flush_lem lib b va sb in
        let refused : handle_noise_packet lib a2 latest random'' vb answer ≡ (
          set_session a2 vb (record s2 { hs = some (lib.read_second hs2 answer).0 }),
          failed handshake_failed,
        ) =
          handle_noise_packet-rejected a2 latest random'' vb answer s2 hs2
            (handshake_init-session lib a1 now2 random2 vb b.static_pub payload2) idle starts has
            (lib.length-write_second hs random' answer keys wrote')
            (unfold handshake_init in other hs answer keys read wrote') in
        (
          answer,
          record s2 { hs = some (lib.read_second hs2 answer).0 },
          sb,
          ap (λ (p : NoiseManager × Handled). p.1) took,
          rw took (
              handle_noise_packet-ready lib (store_and_flush lib b va sb) later2 random2' va msg2 sb
                (got_b ∙ ap some same_b) (ap is_ready cipher_b ∙ (unfold init is_ready in refl))),
          ap (λ (p : NoiseManager × Handled). p.1) refused,
          rw refused (
              unfold get_session set_session in
              lookup-insert_self vb (record s2 { hs = some (lib.read_second hs2 answer).0 })
                a2.sessions),
          idle,
          waits,
          rw refused (unfold handshake_init set_session in refl),
        )
