-- ===== src/Noise/Steps.antt =====
-- What one message does to a NoiseManager of internal/protocol/noise.go.
use easytun.Base.{
  ℕ, ◌≡◌, ◌<◌, refl, ap, ◌∙◌, Bool, true, false, List, [], ◌∷◌, ◌++◌, none, some, length, leb,
  arith, if◌then◌else◌, ◌&&◌,
}
use easytun.Base.Assoc.{lookup-insert_self}
use easytun.Base.Bytes.{Vip, vip_eq}
use easytun.Cipher.{init, is_ready, new_chacha}
use easytun.Noise.Library.{NoiseLibrary, HandshakeState, Keys}
use easytun.Noise.Session.{
  NoiseSession, new_noise_session, add_pending_data, close_pending, send_all_pending_data,
}
use easytun.Noise.Manager.{
  NoiseManager, answered, with_session, waited, handshake_init, failed, handle_noise_packet,
  handle_responder_first, handle_pending, respond, store_and_flush, init_cipher, complete,
  read_answer, get_session,
}
use easytun.Hub.State.{try_send}
use easytun.Tunnel.Key.{vip_lt}
use easytun.Errors.{collision, invalid_state}

-- A session without what waited in it.
abbrev pub flushed : NoiseSession → NoiseSession
flushed s = let queue = s.pending_chan in record s { pending_chan = record queue { items = [] } }

module _ (lib : NoiseLibrary) where
  pub store_and_flush_lem :
      (m : NoiseManager) (v : Vip) (s : NoiseSession)
      → (get_session (store_and_flush lib m v s) v ≡ some (flushed s))
        × ((store_and_flush lib m v s).tun_chan ≡ m.tun_chan ++ s.pending_chan.items)
  unfolding store_and_flush get_session send_all_pending_data
  store_and_flush_lem m v s = (lookup-insert_self v (flushed s) m.sessions, refl)

  abbrev pub initiated : NoiseManager → ℕ → List ℕ → Vip → List ℕ → List ℕ → NoiseSession
  initiated m now random v peer payload = add_pending_data payload (
      new_noise_session now v true
        (some (lib.write_first (lib.new_initiator m.static_priv peer) random).0))

  pub handshake_init-session :
      (m : NoiseManager) (now : ℕ) (random : List ℕ) (v : Vip) (peer payload : List ℕ)
      → get_session (handshake_init lib m now random v peer payload).0 v
        ≡ some (initiated m now random v peer payload)
  unfolding handshake_init get_session
  handshake_init-session m now random v peer payload =
      lookup-insert_self v (initiated m now random v peer payload) m.sessions

  -- What the responder keeps.
  abbrev pub responding : ℕ → Vip → Keys → NoiseSession
  responding now v keys =
      init_cipher lib (new_noise_session now v false none) keys.second keys.first

  pub handle_responder_first_lem :
      (m : NoiseManager) (now : ℕ) (random : List ℕ) (v : Vip) (msg answer : List ℕ)
      (hs : HandshakeState) (keys : Keys)
      → lib.read_first (lib.new_responder m.static_priv) msg ≡ some hs
      → lib.write_second hs random ≡ some (answer, keys)
      → handle_responder_first lib m now random v msg
        ≡ (store_and_flush lib m v (responding now v keys), answered (responding now v keys) answer)
  unfolding handle_responder_first respond
  handle_responder_first_lem m now random v msg answer hs keys e f =
      rw (e, handle_responder_first, f, respond)

  -- The first message of a peer without a session.
  pub handle_noise_packet-first :
      (m : NoiseManager) (now : ℕ) (random : List ℕ) (v : Vip) (msg answer : List ℕ)
      (hs : HandshakeState) (keys : Keys)
      → get_session m v ≡ none
      → lib.read_first (lib.new_responder m.static_priv) msg ≡ some hs
      → lib.write_second hs random ≡ some (answer, keys)
      → handle_noise_packet lib m now random v msg
        ≡ (store_and_flush lib m v (responding now v keys), answered (responding now v keys) answer)
  unfolding handle_noise_packet
  handle_noise_packet-first m now random v msg answer hs keys no_session read wrote =
      rw (no_session, handle_noise_packet)
        (handle_responder_first_lem m now random v msg answer hs keys read wrote)

  pub handle_noise_packet-ready :
      (m : NoiseManager) (now : ℕ) (random : List ℕ) (v : Vip) (bytes : List ℕ) (s : NoiseSession)
      → get_session m v ≡ some s
      → is_ready s.cipher ≡ true
      → handle_noise_packet lib m now random v bytes ≡ (m, with_session s)
  unfolding handle_noise_packet
  handle_noise_packet-ready m now random v bytes s e ready = rw (e, handle_noise_packet, ready) refl

  abbrev pub completed : NoiseSession → Keys → NoiseSession
  completed s keys = init_cipher lib (record s { hs = none }) keys.first keys.second

  pub handle_pending-brief :
      (m : NoiseManager) (now : ℕ) (random : List ℕ) (v : Vip) (answer : List ℕ) (s : NoiseSession)
      → s.is_initiator ≡ true
      → length answer < 64
      → handle_pending lib m now random v answer s ≡ read_answer lib m v s answer s.hs
  unfolding handle_pending
  handle_pending-brief m now random v answer s starts short =
      let brief : leb 64 (length answer) ≡ false = ground arith in
      ap
        (λ (b : Bool).
          if b && leb 64 (length answer)
          then if vip_lt v m.my_vip
            then handle_responder_first lib m now random v answer
            else (m, failed collision)
          else if b
          then read_answer lib m v s answer s.hs
          else (m, failed invalid_state))
        starts
      ∙ rw brief

  -- The initiator, whose session is not ready, reads an answer.
  pub handle_noise_packet-answer :
      (m : NoiseManager) (now : ℕ) (random : List ℕ) (v : Vip) (answer : List ℕ) (s : NoiseSession)
      (hs : HandshakeState) (keys : Keys)
      → get_session m v ≡ some s
      → is_ready s.cipher ≡ false
      → s.is_initiator ≡ true
      → s.hs ≡ some hs
      → length answer ≡ 48
      → (lib.read_second hs answer).1 ≡ some keys
      → handle_noise_packet lib m now random v answer
        ≡ (store_and_flush lib m v (completed s keys), waited)
  unfolding handle_noise_packet read_answer complete
  handle_noise_packet-answer m now random v answer s hs keys e pending starts has short read =
      rw (e, handle_noise_packet, pending)
        (handle_pending-brief m now random v answer s starts (omega arith)
          ∙ ap (read_answer lib m v s answer) has
          ∙ rw (read, complete))

  pub initiated-fields :
      (m : NoiseManager) (now : ℕ) (random : List ℕ) (v : Vip) (peer payload : List ℕ)
      → (is_ready (initiated m now random v peer payload).cipher ≡ false)
        × ((initiated m now random v peer payload).is_initiator ≡ true)
        × ((initiated m now random v peer payload).hs
            ≡ some (lib.write_first (lib.new_initiator m.static_priv peer) random).0)
        × ((initiated m now random v peer payload).pending_chan.items ≡ payload ∷ [])
        × ((initiated m now random v peer payload).cipher ≡ new_chacha)
  unfolding add_pending_data new_noise_session new_chacha is_ready try_send
  initiated-fields m now random v peer payload = (refl, refl, refl, refl, refl)

  pub responding-fields :
      (now : ℕ) (v : Vip) (keys : Keys)
      → (flushed (responding now v keys) ≡ responding now v keys)
        × ((responding now v keys).pending_chan.items ≡ [])
        × ((responding now v keys).cipher
            ≡ init new_chacha (lib.aead keys.second) (lib.aead keys.first))
  unfolding init_cipher close_pending new_noise_session
  responding-fields now v keys = (refl, refl, refl)

  pub completed-fields :
      (s : NoiseSession) (keys : Keys)
      → ((completed s keys).pending_chan ≡ s.pending_chan)
        × ((completed s keys).cipher ≡ init s.cipher (lib.aead keys.first) (lib.aead keys.second))
  unfolding init_cipher close_pending
  completed-fields s keys = (refl, refl)
