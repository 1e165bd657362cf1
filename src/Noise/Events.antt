-- ===== src/Noise/Events.antt =====
-- The operations of a NoiseManager of internal/protocol/noise.go in any order, with what packetSend of
-- internal/transport/client_udp.go does to a session.
use easytun.Base.{ℕ, List, [], ◌∷◌, Option, none, some, if◌then◌else◌}
use easytun.Base.Bytes.{Vip, vip_eq}
use easytun.Cipher.{is_ready}
use easytun.Packet.Codec.{next_nonce}
use easytun.Noise.Library.{NoiseLibrary}
use easytun.Noise.Session.{NoiseSession, update_last_seen, add_pending_data}
use easytun.Noise.Manager.{
  NoiseManager, handle_noise_packet, handshake_init, set_virtual_ip, sweep_sessions, get_session,
  set_session, touch,
}

-- What changes the sessions: HandleNoisePacket with a packet of a peer; a packet is sealed for a peer, with
-- the counter and UpdateLastSeen; UpdateLastSeen for one of its that was opened; CheckSession; HandshakeInit, for an answer to a query
-- for the peer's key; AddPendingData, for a packet to a peer whose session is not ready; and
-- SetVirtualIp, for an answer to the handshake with the server.
pub data NoiseEvent : Type 0 where
  arrives : ℕ → List ℕ → Vip → List ℕ → NoiseEvent
  seals : ℕ → Vip → NoiseEvent
  renews : ℕ → Vip → NoiseEvent
  sweeps : ℕ → NoiseEvent
  begins : ℕ → List ℕ → Vip → List ℕ → List ℕ → NoiseEvent
  waits : Vip → List ℕ → NoiseEvent
  moves : Vip → NoiseEvent

-- What packetSend does to a session that it has found, where that is ready.
unfoldable pub count_on : NoiseManager → ℕ → Vip → Option NoiseSession → NoiseManager
count_on m now w none = m
count_on m now w (some s) =
    let c = s.cipher in
    if is_ready c
    then set_session m w
        (update_last_seen now (record s { cipher = record c { sender = (next_nonce c.sender).1 } }))
    else m

-- What packetSend does for a session that it has found, where that is not ready.
unfoldable pub keep_waiting : NoiseManager → Vip → List ℕ → Option NoiseSession → NoiseManager
keep_waiting m w packet none = m
keep_waiting m w packet (some s) =
    if is_ready s.cipher then m else set_session m w (add_pending_data packet s)

module _ (lib : NoiseLibrary) where
  unfoldable pub step : NoiseManager → NoiseEvent → NoiseManager
  unfolding keep_waiting count_on
  step m (arrives now random w bytes) = (handle_noise_packet lib m now random w bytes).0
  step m (seals now w) = count_on m now w (get_session m w)
  step m (renews now w) = touch m now w
  step m (sweeps now) = sweep_sessions now 10 m
  step m (begins now random w peer payload) = (handshake_init lib m now random w peer payload).0
  step m (waits w packet) = keep_waiting m w packet (get_session m w)
  step m (moves w) = set_virtual_ip w m

  unfoldable pub run : NoiseManager → List NoiseEvent → NoiseManager
  unfolding step
  run m [] = m
  run m (e ∷ es) = run (step m e) es
