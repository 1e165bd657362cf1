-- ===== src/Noise/Agreement.antt =====
-- The two messages of a handshake, from one manager to the other and back.
use easytun.Base.{ℕ, ◌≡◌, refl, ap, ◌∙◌, true, List, [], ◌∷◌, ◌++◌, none, some}
use mathlib.Core.List.{append-nil}
use easytun.Base.Bytes.{Vip, vip_eq}
use easytun.Cipher.{Aead, Cipher, init, is_ready, new_chacha}
use easytun.Noise.Library.{NoiseLibrary}
use easytun.Noise.Session.{NoiseSession}
use easytun.Noise.Manager.{
  NoiseManager, Handled, answered, waited, handshake_init, handle_noise_packet, store_and_flush,
  get_session, set_session,
}
use easytun.Noise.Steps.{
  flushed, store_and_flush_lem, initiated, handshake_init-session, responding,
  handle_noise_packet-first, completed, handle_noise_packet-answer, initiated-fields,
  responding-fields, completed-fields,
}

-- Both ciphers are ready, and each opens what the other seals: the keys are crossed and the
-- counters are at the start.
pub record Linked (c d : Cipher) : Type 0 where
  pub forth : Aead
  pub back : Aead
  pub c_ready : is_ready c ≡ true
  pub d_ready : is_ready d ≡ true
  pub c_sender : c.sender ≡ some (record { aead = forth; nonce = 0 })
  pub d_recver : d.recver ≡ some (record { aead = forth; nonce = 0 })
  pub d_sender : d.sender ≡ some (record { aead = back; nonce = 0 })
  pub c_recver : c.recver ≡ some (record { aead = back; nonce = 0 })

pub init-Linked : (c d : Cipher) (x y : Aead) → Linked (init c x y) (init d y x)
unfolding init is_ready
init-Linked c d x y = record {
  forth = y;
  back = x;
  c_ready = refl;
  d_ready = refl;
  c_sender = refl;
  d_recver = refl;
  d_sender = refl;
  c_recver = refl;
}

module _ (lib : NoiseLibrary) where
  module _ (a b : NoiseManager) (va vb : Vip) (random msg payload : List ℕ) (now : ℕ)
      (key : b.static_pub ≡ lib.public b.static_priv) (no_session : get_session b va ≡ none)
      (wrote : (handshake_init lib a now random vb b.static_pub payload).1 ≡ some msg) where
    sent :
        (lib.write_first (lib.new_initiator a.static_priv (lib.public b.static_priv)) random).1
        ≡ some msg
    unfolding handshake_init
    sent = rw (← key) wrote

    -- A manager writes the first message of a handshake to a manager that has no session with it.
    -- The other accepts the message and answers, the first accepts the answer; then both have a
    -- session with a ready cipher, each opens what the other seals, and the packet that waited for
    -- the handshake is back in the queue of the first, once, behind what the queue held.
    pub handle_noise_packet-Linked :
        (later latest : ℕ) (random' random'' : List ℕ)
        → (answer : List ℕ) × (sa : NoiseSession) × (sb : NoiseSession) × ((handle_noise_packet lib
              b later random' va msg).1
            ≡ answered sb answer)
          × ((handle_noise_packet lib
                (handshake_init lib a now random vb b.static_pub payload).0
                latest
                random''
                vb
                answer).1
              ≡ waited)
          × (get_session
                (handle_noise_packet lib
                  (handshake_init lib a now random vb b.static_pub payload).0
                  latest
                  random''
                  vb
                  answer).0
                vb
              ≡ some sa)
          × (get_session (handle_noise_packet lib b later random' va msg).0 va ≡ some sb)
          × Linked sa.cipher sb.cipher
          × ((handle_noise_packet lib b later random' va msg).0.tun_chan ≡ b.tun_chan)
          × ((handle_noise_packet lib
                (handshake_init lib a now random vb b.static_pub payload).0
                latest
                random''
                vb
                answer).0.tun_chan
              ≡ a.tun_chan ++ (payload ∷ []))
    handle_noise_packet-Linked later latest random' random'' =
        let a1 : NoiseManager = (handshake_init lib a now random vb b.static_pub payload).0 in
        let s1 : NoiseSession = initiated lib a now random vb b.static_pub payload in
        let (idle, starts, has, waits, fresh) =
          initiated-fields lib a now random vb b.static_pub payload in
        let (hs, read) = lib.read-write_first a.static_priv b.static_priv random msg sent in
        let (answer, keys, wrote') = lib.write_second-total b.static_priv msg random' hs read in
        let sb : NoiseSession = responding lib later va keys in
        let took : handle_noise_packet lib b later random' va msg
            ≡ (store_and_flush lib b va sb, answered sb answer) =
          handle_noise_packet-first lib b later random' va msg answer hs keys no_session read
            wrote' in
        let done : handle_noise_packet lib a1 latest random'' vb answer
            ≡ (store_and_flush lib a1 vb (completed lib s1 keys), waited) =
          handle_noise_packet-answer lib a1 latest random'' vb answer s1
            (lib.write_first (lib.new_initiator a.static_priv b.static_pub) random).0 keys
            (handshake_init-session lib a now random vb b.static_pub payload) idle starts has
            (lib.length-write_second hs random' answer keys wrote')
            (rw key (
              lib.read-write_second a.static_priv b.static_priv random msg random' answer hs keys
                sent read wrote')) in
        let (same_b, empty_b, cipher_b) = responding-fields lib later va keys in
        let (same_q, cipher_a) = completed-fields lib s1 keys in
        let (got_b, queue_b) = store_and_flush_lem lib b va sb in
        let (got_a, queue_a) = store_and_flush_lem lib a1 vb (completed lib s1 keys) in
        (
          answer,
          flushed (completed lib s1 keys),
          sb,
          ap (λ (p : NoiseManager × Handled). p.1) took,
          ap (λ (p : NoiseManager × Handled). p.1) done,
          rw done got_a,
          rw took (got_b ∙ ap some same_b),
          rw (cipher_a, cipher_b, fresh)
              (init-Linked new_chacha new_chacha (lib.aead keys.first) (lib.aead keys.second)),
          rw took (queue_b ∙ rw empty_b (append-nil b.tun_chan)),
          rw done (queue_a ∙ rw (same_q, waits) (unfold handshake_init set_session in refl)),
        )
