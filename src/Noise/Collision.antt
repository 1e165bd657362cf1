-- ===== src/Noise/Collision.antt =====
-- Two managers that write the first message to each other at the same time.
use easytun.Base.{
  ℕ, ◌≡◌, ◌≤◌, refl, ap, ◌∙◌, Bool, true, false, List, [], ◌∷◌, ◌++◌, some, length, leb, arith,
  ◌&&◌, if◌then◌else◌,
}
use mathlib.Core.List.{append-nil}
use easytun.Base.Bytes.{Vip}
use easytun.Cipher.{is_ready, new_chacha}
use easytun.Errors.{collision, invalid_state}
use easytun.Tunnel.Key.{vip_lt, vip_lt_asym}
use easytun.Noise.Library.{NoiseLibrary}
use easytun.Noise.Session.{NoiseSession}
use easytun.Noise.Manager.{
  NoiseManager, Handled, answered, failed, waited, handshake_init, handle_noise_packet,
  handle_pending, handle_responder_first, read_answer, store_and_flush, get_session, set_session,
}
use easytun.Noise.Steps.{
  flushed, store_and_flush_lem, initiated, handshake_init-session, responding,
  handle_responder_first_lem, completed, handle_noise_packet-answer, initiated-fields,
  responding-fields, completed-fields,
}
use easytun.Noise.Agreement.{Linked, init-Linked}

module _ (lib : NoiseLibrary) where
  -- A long message meets the session of an initiator that waits.
  handle_pending-long :
      (m : NoiseManager) (now : ℕ) (random : List ℕ) (v : Vip) (msg : List ℕ) (s : NoiseSession)
      → s.is_initiator ≡ true
      → 64 ≤ length msg
      → handle_pending lib m now random v msg s ≡ (
          if vip_lt v m.my_vip
          then handle_responder_first lib m now random v msg
          else (m, failed collision))
  unfolding handle_pending
  handle_pending-long m now random v msg s starts long =
      let wide : leb 64 (length msg) ≡ true = ground arith in
      ap
        (λ (b : Bool).
          if b && leb 64 (length msg)
          then if vip_lt v m.my_vip
            then handle_responder_first lib m now random v msg
            else (m, failed collision)
          else if b
          then read_answer lib m v s msg s.hs
          else (m, failed invalid_state))
        starts
      ∙ rw wide

  handle_noise_packet-long :
      (m : NoiseManager) (now : ℕ) (random : List ℕ) (v : Vip) (msg : List ℕ) (s : NoiseSession)
      → get_session m v ≡ some s
      → is_ready s.cipher ≡ false
      → s.is_initiator ≡ true
      → 64 ≤ length msg
      → handle_noise_packet lib m now random v msg ≡ (
          if vip_lt v m.my_vip
          then handle_responder_first lib m now random v msg
          else (m, failed collision))
  unfolding handle_noise_packet
  handle_noise_packet-long m now random v msg s e pending starts long =
      rw (e, handle_noise_packet, pending) (handle_pending-long m now random v msg s starts long)

  module _ (a b : NoiseManager) (random_a random_b msg_a msg_b payload_a payload_b : List ℕ)
      (now : ℕ) (key_a : a.static_pub ≡ lib.public a.static_priv)
      (key_b : b.static_pub ≡ lib.public b.static_priv) (above : vip_lt b.my_vip a.my_vip ≡ true)
      (wrote_a : (handshake_init lib a now random_a b.my_vip b.static_pub payload_a).1 ≡ some msg_a)
      (wrote_b : (handshake_init lib b now random_b a.my_vip a.static_pub payload_b).1
        ≡ some msg_b) where
    sent_b :
        (lib.write_first (lib.new_initiator b.static_priv (lib.public a.static_priv)) random_b).1
        ≡ some msg_b
    unfolding handshake_init
    sent_b = rw (← key_a) wrote_b

    long_a : 64 ≤ length msg_a
    unfolding handshake_init
    long_a = omega (
      arith,
      lib.length-write_first (lib.new_initiator a.static_priv b.static_pub) random_a msg_a wrote_a,
    )

    long_b : 64 ≤ length msg_b
    unfolding handshake_init
    long_b = omega (
      arith,
      lib.length-write_first (lib.new_initiator b.static_priv a.static_pub) random_b msg_b wrote_b,
    )

    -- The managers after both first messages are on their way.
    abbrev waiting_a : NoiseManager
    waiting_a = (handshake_init lib a now random_a b.my_vip b.static_pub payload_a).0

    abbrev waiting_b : NoiseManager
    waiting_b = (handshake_init lib b now random_b a.my_vip a.static_pub payload_b).0

    same_vips :
        (waiting_a.my_vip ≡ a.my_vip)
        × (waiting_b.my_vip ≡ b.my_vip)
        × (waiting_a.static_priv ≡ a.static_priv)
        × (waiting_a.tun_chan ≡ a.tun_chan)
        × (waiting_b.tun_chan ≡ b.tun_chan)
    unfolding handshake_init set_session
    same_vips = (refl, refl, refl, refl, refl)

    -- Two managers write the first message to each other before either arrives. The one with the
    -- higher address gives way and answers; the other refuses the message it gets and takes the
    -- answer. Then both have a session with a ready cipher, each opens what the other seals, and
    -- the packet that waited at the lower address is in its queue again. The one that waited at
    -- the higher address is lost: its queue is what it was.
    pub collision-Linked :
        (later latest : ℕ) (random random' random'' : List ℕ)
        → (answer : List ℕ) × (sa : NoiseSession) × (sb : NoiseSession) × ((handle_noise_packet lib
              waiting_a later random b.my_vip msg_b).1
            ≡ answered sa answer)
          × (handle_noise_packet lib waiting_b later random' a.my_vip msg_a
              ≡ (waiting_b, failed collision))
          × ((handle_noise_packet lib waiting_b latest random'' a.my_vip answer).1 ≡ waited)
          × (get_session (handle_noise_packet lib waiting_a later random b.my_vip msg_b).0 b.my_vip
              ≡ some sa)
          × (get_session
                (handle_noise_packet lib waiting_b latest random'' a.my_vip answer).0
                a.my_vip
              ≡ some sb)
          × Linked sb.cipher sa.cipher
          × ((handle_noise_packet lib waiting_b latest random'' a.my_vip answer).0.tun_chan
              ≡ b.tun_chan ++ (payload_b ∷ []))
          × ((handle_noise_packet lib waiting_a later random b.my_vip msg_b).0.tun_chan
              ≡ a.tun_chan)
    collision-Linked later latest random random' random'' =
        let sa : NoiseSession = initiated lib a now random_a b.my_vip b.static_pub payload_a in
        let sb : NoiseSession = initiated lib b now random_b a.my_vip a.static_pub payload_b in
        let (idle_a, starts_a, has_a, waits_a, fresh_a) =
          initiated-fields lib a now random_a b.my_vip b.static_pub payload_a in
        let (idle_b, starts_b, has_b, waits_b, fresh_b) =
          initiated-fields lib b now random_b a.my_vip a.static_pub payload_b in
        let got_a = handshake_init-session lib a now random_a b.my_vip b.static_pub payload_a in
        let got_b = handshake_init-session lib b now random_b a.my_vip a.static_pub payload_b in
        let (vip_a, vip_b, priv_a, queue_a, queue_b) = same_vips in
        let (hs, read) = lib.read-write_first b.static_priv a.static_priv random_b msg_b sent_b in
        let (answer, keys, wrote) = lib.write_second-total a.static_priv msg_b random hs read in
        let ready_a : NoiseSession = responding lib later b.my_vip keys in
        let yields : handle_noise_packet lib waiting_a later random b.my_vip msg_b
            ≡ (store_and_flush lib waiting_a b.my_vip ready_a, answered ready_a answer) =
          handle_noise_packet-long waiting_a later random b.my_vip msg_b sa got_a idle_a starts_a
            long_b
          ∙ rw (vip_a, above)
              (handle_responder_first_lem lib waiting_a later random b.my_vip msg_b answer hs keys
                (rw priv_a read) wrote) in
        let refuses : handle_noise_packet lib waiting_b later random' a.my_vip msg_a
            ≡ (waiting_b, failed collision) =
          handle_noise_packet-long waiting_b later random' a.my_vip msg_a sb got_b idle_b starts_b
            long_a
          ∙ rw (vip_b, vip_lt_asym b.my_vip a.my_vip above) in
        let done : handle_noise_packet lib waiting_b latest random'' a.my_vip answer
            ≡ (store_and_flush lib waiting_b a.my_vip (completed lib sb keys), waited) =
          handle_noise_packet-answer lib waiting_b latest random'' a.my_vip answer sb
            (lib.write_first (lib.new_initiator b.static_priv a.static_pub) random_b).0 keys got_b
            idle_b starts_b has_b (lib.length-write_second hs random answer keys wrote)
            (rw key_a (
              lib.read-write_second b.static_priv a.static_priv random_b msg_b random answer hs keys
                sent_b read wrote)) in
        let (flush_a, put_a) = store_and_flush_lem lib waiting_a b.my_vip ready_a in
        let (flush_b, put_b) = store_and_flush_lem lib waiting_b a.my_vip (completed lib sb keys) in
        let (same_a, empty_a, cipher_a) = responding-fields lib later b.my_vip keys in
        let (same_q, cipher_b) = completed-fields lib sb keys in
        (
          answer,
          ready_a,
          flushed (completed lib sb keys),
          ap (λ (p : NoiseManager × Handled). p.1) yields,
          refuses,
          ap (λ (p : NoiseManager × Handled). p.1) done,
          rw yields (flush_a ∙ ap some same_a),
          rw done flush_b,
          rw (cipher_a, cipher_b, fresh_b)
              (init-Linked new_chacha new_chacha (lib.aead keys.first) (lib.aead keys.second)),
          rw done (put_b ∙ rw (same_q, waits_b, queue_b)),
          rw yields (put_a ∙ rw (empty_a, queue_a) (append-nil a.tun_chan)),
        )
