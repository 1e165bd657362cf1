-- ===== src/Endpoint/Attempts.antt =====
-- NewTransport and the loop of ListenAndServe in internal/transport/client.go: attempts to connect, one
-- after the other. A session that ends by an error leads to the next attempt. The Board of the
-- display follows.
use easytun.Base.{
  ℕ, ◌+◌, Bool, true, false, List, [], ◌∷◌, ◌++◌, Option, none, some, if◌then◌else◌, ◌==◌,
}
use easytun.Base.Bytes.{vip_eq, zero_vip}
use easytun.Base.Text.{codes}
use easytun.Packet.Compress.{GamePacket}
use easytun.Hub.P2p.{type_unknown, type_block, type_cone, type_symmetric}
use easytun.Hub.State.{AddrPort, ipv4, make_chan}
use easytun.Noise.Library.{NoiseLibrary}
use easytun.Noise.Manager.{new_noise_manager}
use easytun.Endpoint.Config.{Config}
use easytun.Endpoint.Transport.{ClientTransport}
use easytun.Endpoint.Control.{adopt, is_none}
use easytun.Endpoint.Backoff.{wait_sec}
use easytun.Display.{
  Board, Status, test_nat, connect, init_network, running, reconnecting, init_host_name,
  init_local_ip, Pterm, new_board, init_ui,
}

-- The statuses that are stored and the waits that are made, in seconds, are lists that grow.
pub record Loop : Type 0 where
  pub transport : ClientTransport
  pub retry_count : ℕ
  pub statuses : List Status
  pub waits : List ℕ
  pub board : Board

-- How an attempt goes: no websocket, no UDP socket, no answer to the handshake, or an answer and a
-- session that ends by an error.
pub data Outcome : Type 0 where
  unreachable : Outcome
  no_socket : Outcome
  refused : Outcome
  served : GamePacket → Outcome

-- The kinds of NAT of github.com/dplcz/go-test-nat.
pub data NatKind : Type 0 where
  blocked : NatKind
  full_cone : NatKind
  restrict_nat : NatKind
  restrict_port_nat : NatKind
  symmetric_nat : NatKind
  other_nat : NatKind

unfoldable pub nat_type_of : NatKind → Option ℕ
nat_type_of blocked = some type_block
nat_type_of full_cone = some type_cone
nat_type_of restrict_nat = some type_cone
nat_type_of restrict_port_nat = some type_cone
nat_type_of symmetric_nat = some type_symmetric
nat_type_of other_nat = none

-- stun.GetNatType, from what GetIpInfo says; `none` is an error of either.
unfoldable pub get_nat_type : Option NatKind → Option ℕ
unfolding nat_type_of
get_nat_type none = none
get_nat_type (some kind) = nat_type_of kind

-- With what GetIpInfo says.
pub record Attempt : Type 0 where
  pub nat : Option NatKind
  pub outcome : Outcome

unfoldable pub store_status : Status → Loop → Loop
store_status s l = record l { statuses = l.statuses ++ (s ∷ []) }

unfoldable pub backoff_wait : Loop → Loop
unfolding store_status
backoff_wait l =
    let l' = store_status reconnecting l in
    record l' {
      retry_count = l.retry_count + 1;
      waits = l.waits ++ (wait_sec (l.retry_count + 1) ∷ []);
    }

abbrev nat_or : ℕ → Option ℕ → ℕ
nat_or old none = old
nat_or old (some nat) = nat

unfoldable pub probe_nat : Bool → Option NatKind → Loop → Loop
unfolding store_status get_nat_type
probe_nat true nat l =
    let t = l.transport in
    store_status test_nat
      (record l { transport = record t { nat_type = nat_or t.nat_type (get_nat_type nat) } })
probe_nat false nat l =
    let t = l.transport in record l { transport = record t { nat_type = type_unknown } }

unfoldable pub show_client : GamePacket → Board → Board
unfolding init_host_name init_local_ip
show_client answer b = init_host_name (answer.payload ++ codes ".et") (init_local_ip answer.dst b)

-- The display follows where the client takes over the address.
unfoldable pub adopt_board : ClientTransport → GamePacket → Board → Board
unfolding show_client
adopt_board t answer b =
    if is_none t.tun_name
    then show_client answer b
    else if t.local_ip == answer.dst
    then b
    else show_client answer b

-- `resolve` is net.ResolveUDPAddr for a host and a port, which the code takes to succeed.
module _ (resolve : List ℕ → ℕ → AddrPort) (c : Config) where
  -- connectServer, once it has the websocket.
  unfoldable pub connect_server : Loop → Loop
  connect_server l =
      let t = l.transport in
      record l {
        transport = record t {
          server_addr = resolve c.server_ip c.server_port;
          check_addr = resolve c.server_ip c.check_port;
        };
      }

  unfoldable pub proceed : Outcome → Loop → Loop
  unfolding backoff_wait store_status adopt_board connect_server
  proceed unreachable l = backoff_wait (store_status connect l)
  proceed no_socket l = backoff_wait (connect_server (store_status connect l))
  proceed refused l =
      backoff_wait (store_status init_network (connect_server (store_status connect l)))
  proceed (served answer) l =
      let l1 = store_status init_network (connect_server (store_status connect l)) in
      store_status reconnecting (
        store_status running (record l1 {
          transport = adopt l1.transport answer;
          board = adopt_board l1.transport answer l1.board;
          retry_count = 0;
        }))

  unfoldable pub attempt : Loop → Attempt → Loop
  unfolding probe_nat proceed
  attempt l a = proceed a.outcome (probe_nat c.enable_p2p a.nat l)

  unfoldable pub listen_and_serve : Loop → List Attempt → Loop
  unfolding attempt
  listen_and_serve l [] = l
  listen_and_serve l (a ∷ rest) = listen_and_serve (attempt l a) rest

-- Before a server has been reached: addresses that are nil are zero.
abbrev pub no_addr : AddrPort
no_addr = ipv4 zero_vip 0

-- NewTransport, with the private key that is made for it.
unfoldable pub new_transport : NoiseLibrary → List ℕ → ClientTransport
unfolding new_noise_manager
new_transport lib private = record {
  nat_type = 0;
  local_ip = zero_vip;
  server_addr = no_addr;
  check_addr = no_addr;
  dns_ip = zero_vip;
  p2p_router = [];
  control_send_chan = make_chan 16;
  from_net = make_chan 64;
  noise_mgr = new_noise_manager lib private;
  data_conn = [];
  device = [];
  tun_name = none;
  check_conn = [];
  arrays = λ i. [];
  current = 0;
}

-- ListenAndServe up to its loop.
unfoldable pub start : NoiseLibrary → Pterm → Config → List ℕ → Loop
unfolding new_transport new_board init_ui
start lib p c private = record {
  transport = new_transport lib private;
  retry_count = 0;
  statuses = [];
  waits = [];
  board = init_ui p c new_board;
}
