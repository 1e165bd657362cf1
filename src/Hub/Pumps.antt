-- ===== src/Hub/Pumps.antt =====
-- writePump, readPump and serverWS of internal/transport/server_ws.go: a connection from its upgrade
-- until its end. What its channel gives to writePump and what NextReader returns are sequences.
pub mod Writing
pub mod Hearing
pub mod Lifetime
use easytun.Base.{ℕ, Bool, true, false, List, [], ◌∷◌, ◌++◌, none, take, drop, eqb, if◌then◌else◌}
use easytun.Base.Bytes.{zero_vip}
use easytun.Packet.Codec.{new_game_packet, encode_packet}
use easytun.Packet.Compress.{GamePacket, Lz4, Buffer}
use easytun.Packet.PType
use easytun.Hub.State.{Hub, Chan, client_of, set_client, new_client}
use easytun.Hub.Session.{read_frame, disconnect}
use easytun.Hub.Udp.{bytes_or_nil}

-- A message on the websocket.
pub data WsMessage : Type 0 where
  pong_frame : WsMessage
  binary : List ℕ → WsMessage

-- How a write fails: NextWriter does, or the Close of the writer, which flushes the message to the
-- network. For a pong both stand for the failure of WriteMessage.
pub data Failure : Type 0 where
  no_writer not_closed : Failure

-- How a write goes. At `cut n` the writer's Write returns an error after `n` bytes, which no code looks
-- at, and the Close goes well.
pub data Writer : Type 0 where
  writes : Writer
  cut : ℕ → Writer
  fails : Failure → Writer

-- controlChan, what went out on the websocket, whether the context is cancelled, and whether
-- writePump has returned. No code closes the channel.
pub record Pump : Type 0 where
  pub queue : Chan GamePacket
  pub frames : List WsMessage
  pub cancelled : Bool
  pub returned : Bool

module _ (z : Lz4) (probe : Buffer) where
  -- EncodePacket gives nil only for a payload that is too long; an empty message goes out then.
  unfoldable pub bytes_for : GamePacket → List ℕ
  bytes_for gp = bytes_or_nil (encode_packet z probe gp true false none).0

  unfoldable pub message_for : GamePacket → WsMessage
  unfolding bytes_for
  message_for gp = binary (bytes_for gp)

  unfoldable pub write_binary : Writer → GamePacket → Pump → Pump
  unfolding message_for bytes_for
  write_binary writes gp p = record p { frames = p.frames ++ (message_for gp ∷ []) }
  write_binary (cut n) gp p = record p {
    frames = p.frames ++ (binary (take n (bytes_for gp)) ∷ []);
  }
  write_binary (fails no_writer) gp p = record p { cancelled = true; returned = true }
  write_binary (fails not_closed) gp p = record p { returned = true }

  -- The error of a pong is not looked at.
  unfoldable pub write_pong : Writer → Pump → Pump
  write_pong writes p = record p { frames = p.frames ++ (pong_frame ∷ []) }
  write_pong (cut n) p = p
  write_pong (fails f) p = p

  unfoldable pub write_control : Writer → GamePacket → Pump → Pump
  unfolding write_binary write_pong
  write_control w gp p = if eqb gp.ptype PType.pong then write_pong w p else write_binary w gp p

  -- One message of the channel, if there is one.
  unfoldable pub write_from : Writer → List GamePacket → Pump → Pump
  unfolding write_control
  write_from w [] p = p
  write_from w (gp ∷ rest) p =
      let chan = p.queue in write_control w gp (record p { queue = record chan { items = rest } })

  -- The loop.
  unfoldable pub write_pump : List Writer → Pump → Pump
  unfolding write_from
  write_pump [] p = p
  write_pump (w ∷ ws) p =
      let rest = write_pump ws (write_from w p.queue.items p) in if p.returned then p else rest

-- Where writePump takes a message, the channel of its client loses it.
unfoldable pub take_control : Hub → ℕ → Hub
take_control h c =
    let k = client_of h c in
    let chan = k.control_chan in
    set_client h c (record k { control_chan = record chan { items = drop 1 chan.items } })

unfoldable pub pong_packet : GamePacket
unfolding new_game_packet
pong_packet = new_game_packet zero_vip zero_vip PType.pong []

-- The ping handler: a send that waits for room.
unfoldable pub answer_ping : Hub → ℕ → Hub
unfolding pong_packet
answer_ping h c =
    let k = client_of h c in
    let chan = k.control_chan in
    set_client h c
      (record k { control_chan = record chan { items = chan.items ++ (pong_packet ∷ []) } })

-- What NextReader does: it runs the ping handler, or returns a timeout, another error, or a message, which
-- is not binary, cannot be read, or has bytes.
pub data Heard : Type 0 where
  pinged : Heard
  timed_out : Heard
  broken : Heard
  not_binary : Heard
  unreadable : Heard
  message : List ℕ → Heard

-- The flag tells whether readPump goes on.
unfoldable pub hear : Hub → ℕ → Heard → Hub × Bool
unfolding answer_ping
hear h c pinged = (answer_ping h c, true)
hear h c timed_out = (h, true)
hear h c broken = (h, false)
hear h c not_binary = (h, true)
hear h c unreadable = (h, true)
hear h c (message bytes) = read_frame h c bytes

-- The loop of readPump, until it cancels the context; the list ends where another does.
unfoldable pub read_pump : Hub → ℕ → List Heard → Hub
unfolding hear
read_pump h c [] = h
read_pump h c (e ∷ events) =
    let rest = read_pump (hear h c e).0 c events in if (hear h c e).1 then rest else (hear h c e).0

-- serverWS, where nothing else happens meanwhile.
unfoldable pub server_ws : Hub → ℕ → List Heard → ℕ → Hub
unfolding read_pump
server_ws h c events deadline =
    disconnect (read_pump (set_client h c new_client) c events) c deadline
