-- ===== src/Packet/PType.antt =====
-- The packet types of packet.go. TypeData is `data_type`.
use Prim.Native.Nat.{ℕ}

abbrev pub handshake : ℕ
handshake = 1

abbrev pub noise_handshake : ℕ
noise_handshake = 2

abbrev pub noise_response : ℕ
noise_response = 3

abbrev pub dns_request : ℕ
dns_request = 4

abbrev pub dns_response : ℕ
dns_response = 5

abbrev pub ping : ℕ
ping = 6

abbrev pub pong : ℕ
pong = 7

abbrev pub data_type : ℕ
data_type = 8

abbrev pub p2p_check : ℕ
p2p_check = 9

abbrev pub p2p_command : ℕ
p2p_command = 10

abbrev pub p2p_established : ℕ
p2p_established = 11

abbrev pub p2p_closed : ℕ
p2p_closed = 12
