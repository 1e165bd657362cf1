-- ===== src/Lib.antt =====
-- EasyTun, a virtual network: a client reads packets from its TUN device, seals them and sends
-- them over UDP to a server, which relays them to the client that owns the destination address,
-- or to that client directly once the two have punched holes. A websocket per client carries the
-- control messages.
--
-- The parts and the files that model them (all under internal/):
--
-- - Packet: protocol/packet.go and protocol/compress.go. Header has the constants, parseHeader
--   and validPayloadLength; Codec the methods of GamePacket; Compress the two halves of
--   compression; Cipher is protocol/cipher.go and Errors errorcode/errorcode.go.
-- - Tunnel: the TunnelManager of stun/server.go, which knows the pairs that talk directly.
-- - Hub: the server. State has the records of transport/server.go and NewHub; Pool, Router and
--   Records the critical sections of server_hub.go and server_dns.go; Names UniqueHostName of
--   util/format.go; Session the handlers of server_ws.go, Pumps its writePump, readPump and
--   serverWS; Transfer the relay of server.go; Udp one datagram of the two receiving loops of
--   server_udp.go and a batch of the writing loop, Listening the receiving loops; P2p
--   server_p2p.go.
-- - Noise: protocol/noise.go. Library is what it uses of flynn/noise; Session and Manager have
--   its types and methods; the clock and the random bytes are arguments.
-- - Endpoint: the client. Transport has the record of transport/client.go; Sending and Receiving
--   are packetSend and packetRecv of client_udp.go; Control is client_control.go and the step of
--   ListenAndServe that takes over the answer to a handshake; Peers and Punching are
--   client_p2p.go and stun/client.go; Dns and Checksum are util/dns.go; Batching has the rounds
--   of packetSend; Device is the test and the cut of tun/device_linux.go, Windows the loops of
--   tun/device_windows.go; Setup, with its children Linux and Windows, is NewTun and Close of the
--   two, and Wintun InitWintunDLL of tun/dll_loader.go; Config is InitConfig of config/config.go;
--   Backoff and Attempts are backoffWait, NewTransport and the loop of ListenAndServe in
--   client.go; Testing is testBroadCast of client_ui.go.
-- - Display: ui/performance.go, initUi of transport/client_ui.go, and in Units FormatBytes of
--   util/format.go.
--
-- The files beside these carry theorems. Packet/Wire, RoundTrip, Sealed, EndToEnd and Frames
-- follow a packet through both ends; Tunnel/Laws, Removal and Table are about the map of tunnels,
-- Hub/Owners about the virtual addresses through every run of the server, Hub/Joining, Returning
-- and Sweeping about a client through handshakes, disconnects and the time after, Hub/Relaying
-- and Punching about what is sent, Noise/Agreement, Collision and Repeat about the messages of
-- handshakes between two clients, Noise/Events, Spared and Keeping about the
-- life of a session.
-- Endpoint/Delivery and Device follow a packet from one client to another, Introducing, Greeting
-- and Resolving a question to the server and back; Shared, Ticking and Multicast are about single
-- handlers of the client, OnesComplement about the checksums, Fitting about the length of
-- datagrams, Reconnecting about the attempts to connect, Closing about the end of the
-- program, Setup/Made about a device that cannot be
-- made. Hub/Pumps/Writing is about what a client of the server is sent, Lifetime beside it
-- about a connection from its upgrade to its end, Hub/Owners/Serving puts the loops of the server
-- into its runs, and Display/History is about what the charts show.
-- Examples has concrete runs.
--
-- How the state corresponds. A Go struct is a record and a map an association list. A [4]byte
-- address is the record Vip, and a net.IP that may be nil an Option Vip. A netip.AddrPort has four
-- bytes for an IPv4 address and sixteen for one of IPv6, which the sockets of the server may store.
-- A client pointer is the
-- number of its connection, and Hub.clients the heap that it points into. A channel is a list
-- with a capacity; a send under select with a default case drops at a full channel, and one that
-- waits adds to the list. Each critical section, and each handler, is one step; Hub/Owners/Run
-- has the steps of the whole server in any order, with the panic of a handler as the absence of a
-- step. The map of names is read and written in one step with the handshake that does so.
--
-- Integers of Go are native naturals with their wrap-around written out: the length field modulo
-- 2 ^ 16, the retries modulo 2 ^ 32, the counter modulo 2 ^ 64. Bytes on the wire are naturals,
-- with a bound where a theorem needs it.
--
-- Fuel: the loop of UniqueHostName runs on one more than the size of the map, and itoa on one
-- more than its number; the loop that folds a checksum runs on two rounds, enough for a sum of 32
-- bits. The loop of FormatBytes runs on six rounds, one more than the units of 64 bits need. The
-- loop of UniqueHostName cannot fail to find a name in that many rounds, since the names that it
-- tries are distinct, so the model returns what the source returns.
--
-- Parameters: the AEAD of golang.org/x/crypto (Cipher.Aead), LZ4 (Packet.Compress.Lz4), the Noise
-- handshake (Noise.Library.NoiseLibrary), these three with their documented round trips as laws,
-- the DNS library (Hub.Records.DnsCodec), for the configuration the TOML library and the parser
-- of durations (Endpoint.Config.ConfigLibrary) and how the file .client_id is written, for the display the colours and boxes of pterm
-- and a quotient with two decimals (Display.Pterm), and for a device what the system says to each
-- action.
--
-- What the client writes to a socket or a device is a list that grows, and one packet, datagram,
-- message or tick is a step. A status of a peer refers to an address of its own or to the array
-- that a control message was read into, since the source keeps a slice of that array; in other
-- places a slice is a value.
--
-- Not modelled: dialling and opening sockets, the websocket's frames, timers, logging, the ICMP
-- ping and the entry points of the two programs, which are input and output; the drawing of the
-- terminal display, which is the library's; the pools, since a buffer that has one owner is
-- overwritten before it is read; the counters of packets and bytes, except where the display
-- reads them.
pub mod Base
pub mod Errors
pub mod Cipher
pub mod Packet
pub mod Tunnel
pub mod Hub
pub mod Noise
pub mod Display
pub mod Endpoint
pub mod Examples
