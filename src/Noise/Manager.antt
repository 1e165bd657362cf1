-- ===== src/Noise/Manager.antt =====
-- NoiseManager of internal/protocol/noise.go. The map of sessions holds pointers; a write through
-- one is a write to the map's entry.
use easytun.Base.{ℕ, leb, ◌&&◌, true, false, List, [], Option, none, some, length, if◌then◌else◌}
use easytun.Base.Assoc.{Assoc, lookup, insert, delete, delete_if}
use easytun.Base.Bytes.{Vip, vip_eq}
use easytun.Cipher.{init, is_ready}
use easytun.Errors.{Error, handshake_failed, collision, invalid_state}
use easytun.Noise.Library.{NoiseLibrary, HandshakeState, Keys}
use easytun.Noise.Session.{
  NoiseSession, new_noise_session, is_timeout, update_last_seen, send_all_pending_data,
  close_pending, add_pending_data,
}
use easytun.Tunnel.Key.{vip_lt}

-- `tun_chan` is the queue of packets from the TUN device, where packets that waited go again.
pub record NoiseManager : Type 0 where
  pub tun_chan : List (List ℕ)
  pub my_vip : Vip
  pub static_priv : List ℕ
  pub static_pub : List ℕ
  pub sessions : Assoc Vip NoiseSession

-- The triple that HandleNoisePacket returns, and the panic of a nil CipherState.
pub data Handled : Type 0 where
  with_session : NoiseSession → Handled
  answered : NoiseSession → List ℕ → Handled
  waited : Handled
  failed : Error → Handled
  panicked : Handled

unfoldable pub set_virtual_ip : Vip → NoiseManager → NoiseManager
set_virtual_ip vip m = record m { my_vip = vip }

unfoldable pub get_session : NoiseManager → Vip → Option NoiseSession
get_session m key = lookup key m.sessions

unfoldable pub set_session : NoiseManager → Vip → NoiseSession → NoiseManager
set_session m key value = record m { sessions = insert key value m.sessions }

-- session.UpdateLastSeen() of a packet that is sent or opened
unfoldable pub touch : NoiseManager → ℕ → Vip → NoiseManager
unfolding set_session
touch m now key = elim (get_session m key) [
  | none ↦ m
  | some s ↦ set_session m key (update_last_seen now s)
]

unfoldable pub delete_session : NoiseManager → Vip → NoiseManager
delete_session m key = record m { sessions = delete key m.sessions }

unfoldable pub sweep_sessions : ℕ → ℕ → NoiseManager → NoiseManager
sweep_sessions now timeout m = record m {
  sessions = delete_if (λ key s. is_timeout now timeout s) m.sessions;
}

module _ (lib : NoiseLibrary) where
  unfoldable pub new_noise_manager : List ℕ → NoiseManager
  new_noise_manager private = record {
    tun_chan = [];
    my_vip = record { b0 = 0; b1 = 0; b2 = 0; b3 = 0 };
    static_priv = private;
    static_pub = lib.public private;
    sessions = [];
  }

  -- The session stands in the map before its first message is written; the message is written
  -- through the same pointer.
  unfoldable pub handshake_init :
      NoiseManager → ℕ → List ℕ → Vip → List ℕ → List ℕ → NoiseManager × Option (List ℕ)
  unfolding set_session
  handshake_init m now random remote_vip remote_pub payload =
      let (hs, msg) = lib.write_first (lib.new_initiator m.static_priv remote_pub) random in
      (
        set_session m remote_vip
            (add_pending_data payload (new_noise_session now remote_vip true (some hs))),
        msg,
      )

  -- Cipher.Init with the keys in the order of its arguments, then the waiting packets.
  unfoldable pub init_cipher : NoiseSession → List ℕ → List ℕ → NoiseSession
  init_cipher s recv_key send_key =
      close_pending (record s { cipher = init s.cipher (lib.aead recv_key) (lib.aead send_key) })

  unfoldable pub store_and_flush : NoiseManager → Vip → NoiseSession → NoiseManager
  unfolding set_session
  store_and_flush m vip s =
      let (s', tun_chan) = send_all_pending_data s m.tun_chan in
      set_session (record m { tun_chan = tun_chan }) vip s'

  unfoldable pub respond : NoiseManager → ℕ → List ℕ → Vip → HandshakeState → NoiseManager × Handled
  unfolding store_and_flush
  respond m now random src_vip hs = elim (lib.write_second hs random) [
    | none ↦ (m, panicked)
    | some (msg, keys) ↦
        let s = init_cipher (new_noise_session now src_vip false none) keys.second keys.first in
        (store_and_flush m src_vip s, answered s msg)
  ]

  unfoldable pub handle_responder_first :
      NoiseManager → ℕ → List ℕ → Vip → List ℕ → NoiseManager × Handled
  unfolding respond
  handle_responder_first m now random src_vip bytes =
      elim (lib.read_first (lib.new_responder m.static_priv) bytes) [
        | none ↦ (m, failed handshake_failed)
        | some hs ↦ respond m now random src_vip hs
      ]

  -- The initiator reads the answer.
  unfoldable pub complete :
      NoiseManager → Vip → NoiseSession → HandshakeState × Option Keys → NoiseManager × Handled
  unfolding store_and_flush
  complete m src_vip s (hs, none) =
      (set_session m src_vip (record s { hs = some hs }), failed handshake_failed)
  complete m src_vip s (hs, some keys) = (
    store_and_flush m src_vip (init_cipher (record s { hs = none }) keys.first keys.second),
    waited,
  )

  unfoldable pub read_answer :
      NoiseManager → Vip → NoiseSession → List ℕ → Option HandshakeState → NoiseManager × Handled
  unfolding complete
  read_answer m src_vip s bytes none = (m, panicked)
  read_answer m src_vip s bytes (some hs) = complete m src_vip s (lib.read_second hs bytes)

  -- A session that is not ready yet.
  unfoldable pub handle_pending :
      NoiseManager → ℕ → List ℕ → Vip → List ℕ → NoiseSession → NoiseManager × Handled
  unfolding handle_responder_first read_answer
  handle_pending m now random src_vip bytes s =
      if s.is_initiator && leb 64 (length bytes)
      then if vip_lt src_vip m.my_vip
        then handle_responder_first m now random src_vip bytes
        else (m, failed collision)
      else if s.is_initiator
      then read_answer m src_vip s bytes s.hs
      else (m, failed invalid_state)

  unfoldable pub handle_noise_packet :
      NoiseManager → ℕ → List ℕ → Vip → List ℕ → NoiseManager × Handled
  unfolding handle_responder_first handle_pending get_session
  handle_noise_packet m now random src_vip bytes = elim (get_session m src_vip) [
    | none ↦ handle_responder_first m now random src_vip bytes
    | some s ↦
        if is_ready s.cipher
        then (m, with_session s)
        else handle_pending m now random src_vip bytes s
  ]
