-- ===== src/Hub/State.antt =====
-- The state of the server: the records of internal/transport/server.go, NewHub and newClient. The
-- mutexes make each critical section one step; channels are bounded lists, oldest first.
use easytun.Base.{
  ℕ, zero, suc, ◌+◌, Bool, List, [], ◌∷◌, ◌++◌, Option, none, some, length, ltb, if◌then◌else◌,
  nat_eq,
}
use easytun.Base.Assoc.{Assoc, lookup, insert}
use easytun.Base.Bytes.{Vip, zero_vip}
use easytun.Packet.Compress.{GamePacket}
use easytun.Packet.PType
use easytun.Tunnel.Manager.{TunnelManager, new_tunnel_manager}

-- netip.AddrPort. An IPv4 address, as such or within IPv6, is the four bytes `ip`; any other IPv6 address
-- is the bytes `ip6`, and its `ip` is 0.0.0.0. The zero value, which is not valid, is the `none` of an
-- option.
pub record AddrPort : Type 0 where
  pub ip : Vip
  pub port : ℕ
  pub ip6 : Option (List ℕ)

abbrev pub ipv4 : Vip → ℕ → AddrPort
ipv4 ip port = record { ip = ip; port = port; ip6 = none }

-- A Go channel with its capacity; `try_send` is a send under `select` with a default case.
pub record Chan {ℓ} (A : Type ℓ) : Type ℓ where
  pub items : List A
  pub cap : ℕ

module _ {ℓ} {A : Type ℓ} where
  abbrev pub make_chan : ℕ → Chan A
  make_chan n = record { items = []; cap = n }

  unfoldable pub has_room : Chan A → Bool
  has_room c = ltb (length c.items) c.cap

  unfoldable pub try_send : Chan A → A → Chan A
  unfolding has_room
  try_send c a = if has_room c then record c { items = c.items ++ (a ∷ []) } else c

-- A client is named by the number of its connection, which stands for the pointer.
pub record Client : Type 0 where
  pub nat_type : ℕ
  pub control_chan : Chan GamePacket
  pub data_addr : Option AddrPort
  pub virtual_ip : Option Vip
  pub hostname : List ℕ
  pub noise_public_key : List ℕ
  pub client_id : List ℕ

unfoldable pub new_client : Client
new_client = record {
  nat_type = 0;
  control_chan = make_chan 16;
  data_addr = none;
  virtual_ip = none;
  hostname = [];
  noise_public_key = [];
  client_id = [];
}

-- Of the fields of `packet`, the ones that are ever set.
pub record Outgoing : Type 0 where
  pub bytes : List ℕ
  pub broadcast : Bool
  pub dst_addr : Option AddrPort

pub record TransferPacket : Type 0 where
  pub gp : GamePacket
  pub src_addr : Option AddrPort

pub record P2pTask : Type 0 where
  pub dst_vip : Vip
  pub dst_addr : Option AddrPort
  pub src_vip : Vip
  pub src_addr : Option AddrPort

pub record RouterSnapshot : Type 0 where
  pub client_map : Assoc Vip ℕ
  pub client_slice : List ℕ

pub record OfflineClient : Type 0 where
  pub virtual_ip : Vip
  pub hostname : List ℕ
  pub expiry : ℕ

pub data WsHandler : Type 0 where
  on_handshake on_noise_handshake on_p2p_established on_p2p_closed : WsHandler

pub record Hub : Type 0 where
  pub clients : Assoc ℕ Client
  pub transfer_chan : Chan TransferPacket
  pub packet_chan : Chan Outgoing
  pub p2p_task_chan : Chan P2pTask
  pub router : RouterSnapshot
  pub tm : TunnelManager
  pub dns_map : Assoc (List ℕ) Vip
  pub free_ips : List ℕ
  pub retention_map : Assoc (List ℕ) OfflineClient
  pub ws_handlers : Assoc ℕ WsHandler

-- 10.0.6.1/24
abbrev pub subnet_ip : Vip
subnet_ip = record { b0 = 10; b1 = 0; b2 = 6; b3 = 1 }

unfoldable pub register_ws_handler : Hub → ℕ → WsHandler → Hub
register_ws_handler h ptype handler = record h { ws_handlers = insert ptype handler h.ws_handlers }

unfoldable pub register_default_ws_handlers : Hub → Hub
unfolding register_ws_handler
register_default_ws_handlers h0 =
    let h1 = register_ws_handler h0 PType.handshake on_handshake in
    let h2 = register_ws_handler h1 PType.noise_handshake on_noise_handshake in
    let h3 = register_ws_handler h2 PType.p2p_established on_p2p_established in
    register_ws_handler h3 PType.p2p_closed on_p2p_closed

-- n addresses from `first` on. The head of the list is the top of the stack, so the loop of
-- NewHub, which pushes 254 first and 2 last, leaves 2 at the head.
unfoldable pub count_up : ℕ → ℕ → List ℕ
count_up first zero = []
count_up first (suc n) = first ∷ count_up (first + 1) n

unfoldable pub new_hub : Hub
unfolding register_default_ws_handlers count_up
new_hub = register_default_ws_handlers (record {
  clients = [];
  transfer_chan = make_chan 128;
  packet_chan = make_chan 128;
  p2p_task_chan = make_chan 32;
  router = record { client_map = []; client_slice = [] };
  tm = new_tunnel_manager;
  dns_map = [];
  free_ips = count_up 2 253;
  retention_map = [];
  ws_handlers = [];
})

abbrev pub or_new : Option Client → Client
or_new none = new_client
or_new (some c) = c

-- What the pointer of a connection leads to, and a write through it.
unfoldable pub client_of : Hub → ℕ → Client
unfolding new_client
client_of h c = or_new (lookup c h.clients)

unfoldable pub set_client : Hub → ℕ → Client → Hub
set_client h c k = record h { clients = insert c k h.clients }

-- The send of a control packet that drops the packet if the client's queue is full.
unfoldable pub try_send_control : Hub → ℕ → GamePacket → Hub
unfolding client_of set_client
try_send_control h c gp =
    let k = client_of h c in set_client h c (record k { control_chan = try_send k.control_chan gp })

-- util.IpToKey: a nil address gives the zero key.
unfoldable pub ip_to_key : Option Vip → Vip
ip_to_key none = zero_vip
ip_to_key (some v) = v
