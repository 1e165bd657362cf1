-- ===== src/Hub/Listening.antt =====
-- The loops of listenUdp and listenCheck in internal/transport/server_udp.go: what their reads give, one
-- after the other.
use easytun.Base.{List, [], ◌∷◌, Option, none, some}
use easytun.Packet.Compress.{Lz4, Buffer}
use easytun.Hub.State.{Hub}
use easytun.Hub.Records.{DnsCodec}
use easytun.Hub.Udp.{Message, receive_datagram, receive_check}

-- ReadBatch gives up to 128 messages, or an error, a timeout too, after which the loop goes on.
pub data ReadBatch : Type 0 where
  not_read : ReadBatch
  batch : List Message → ReadBatch

module _ (z : Lz4) (probe : Buffer) (d : DnsCodec) where
  unfoldable pub receive_batch : Hub → List Message → Hub
  receive_batch h [] = h
  receive_batch h (m ∷ msgs) = receive_batch (receive_datagram z probe d h m.body m.addr) msgs

  unfoldable pub listen_udp : Hub → List ReadBatch → Hub
  unfolding receive_batch
  listen_udp h [] = h
  listen_udp h (not_read ∷ reads) = listen_udp h reads
  listen_udp h (batch msgs ∷ reads) = listen_udp (receive_batch h msgs) reads

-- The loop of listenCheck over the datagrams that ReadFromUDP gives; after an error it goes on. `none` is the
-- panic of a handler.
unfoldable pub listen_check : Hub → List (Option Message) → Option Hub
listen_check h [] = some h
listen_check h (none ∷ reads) = listen_check h reads
listen_check h (some m ∷ reads) = elim (receive_check h m.body m.addr) [
  | none ↦ none
  | some h' ↦ listen_check h' reads
]
