-- ===== src/Endpoint/Transport.antt =====
-- ClientTransport of internal/transport/client.go. FromTun is the queue that its NoiseManager
-- shares. What is written to a socket or a device is a list that grows.
use easytun.Base.{ℕ, List, [], ◌∷◌, ◌++◌, Bool, Option}
use easytun.Base.Assoc.{Assoc}
use easytun.Base.Bytes.{Vip, vip_at}
use easytun.Packet.Compress.{GamePacket}
use easytun.Hub.State.{AddrPort, ipv4, Chan}
use easytun.Hub.Udp.{Message}
use easytun.Noise.Manager.{NoiseManager}

-- A net.UDPAddr: the bytes of its IP are its own, or they are those at 21 in an array that a
-- control message was read into.
pub data UdpAddr : Type 0 where
  own : AddrPort → UdpAddr
  in_buffer : ℕ → ℕ → UdpAddr

-- stun.P2PStatus
pub record P2pStatus : Type 0 where
  pub dst_nat_type : ℕ
  pub dst_addr : UdpAddr
  pub last_seen : ℕ
  pub established : Bool

-- `dns_ip` is device.Dns(), and `tun_name` the name of the device, `none` while there is none and
-- localIp is nil. `device` is what was written to it, `data_conn` what went out over UDP, and
-- `check_conn` what checkP2P sent from sockets of its own. `arrays` are the arrays that readBuffer
-- of controlRecv had, and `current` the number of the one that it has.
pub record ClientTransport : Type 0 where
  pub nat_type : ℕ
  pub local_ip : Vip
  pub server_addr : AddrPort
  pub check_addr : AddrPort
  pub dns_ip : Vip
  pub p2p_router : Assoc Vip P2pStatus
  pub control_send_chan : Chan GamePacket
  pub from_net : Chan (List ℕ)
  pub noise_mgr : NoiseManager
  pub data_conn : List Message
  pub device : List (List ℕ)
  pub tun_name : Option (List ℕ)
  pub check_conn : List Message
  pub arrays : ℕ → List ℕ
  pub current : ℕ

unfoldable pub write_to_udp : ClientTransport → List ℕ → AddrPort → ClientTransport
write_to_udp t bytes addr = record t {
  data_conn = t.data_conn ++ (record { body = bytes; addr = addr } ∷ []);
}

-- A send that waits for room: the packet gets into the queue.
unfoldable pub send_control : ClientTransport → GamePacket → ClientTransport
send_control t gp =
    let queue = t.control_send_chan in
    record t { control_send_chan = record queue { items = queue.items ++ (gp ∷ []) } }

-- status.GetDstAddr() and the bytes that it leads to
unfoldable pub get_dst_addr : (ℕ → List ℕ) → P2pStatus → AddrPort
get_dst_addr arrays s = elim s.dst_addr [
  | own addr ↦ addr
  | in_buffer i port ↦ ipv4 (vip_at (arrays i) 21) port
]
