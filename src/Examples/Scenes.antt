-- ===== src/Examples/Scenes.antt =====
-- Two clients with a session, a server that knows both, and what they send.
use easytun.Base.{
  ℕ, ◌≡◌, ap, sym, true, false, List, [], ◌∷◌, ◌++◌, Option, none, some, length, nat_eq, bytes_eq,
}
use easytun.Base.Bytes.{Vip, vip_eq, vip_bytes, be16}
use easytun.Cipher.{CipherState, init, new_chacha}
use easytun.Packet.Compress.{GamePacket, Buffer}
use easytun.Packet.Codec.{empty_packet}
use easytun.Hub.State.{Hub, Client, AddrPort, make_chan, new_hub}
use easytun.Hub.Records.{DnsCodec}
use easytun.Noise.Session.{NoiseSession, new_noise_session}
use easytun.Endpoint.Transport.{ClientTransport, P2pStatus, own}
use easytun.Endpoint.Config.{Config, Configuration, ConfigLibrary, Sources, seconds}
use easytun.Endpoint.Attempts.{Loop, Attempt, symmetric_nat, unreachable, refused, start}
use easytun.Display.{Board, Reading, connect}
use easytun.Examples.Toys.{bare, repeated, zero_aead, toy}

abbrev pub vip : ℕ → Vip
vip n = record { b0 = 10; b1 = 0; b2 = 6; b3 = n }

abbrev pub server : AddrPort
server = record { ip = record { b0 = 9; b1 = 9; b2 = 9; b3 = 9 }; port = 9000; ip6 = none }

abbrev pub home : AddrPort
home = record { ip = record { b0 = 1; b1 = 2; b2 = 3; b3 = 4 }; port = 4000; ip6 = none }

abbrev pub elsewhere : AddrPort
elsewhere = record { ip = record { b0 = 5; b1 = 6; b2 = 7; b3 = 8 }; port = 5000; ip6 = none }

abbrev pub probe_buffer : Buffer
probe_buffer = record { buf_len = 80; cap = 80 }

abbrev pub id : List ℕ
id = repeated 16 1

abbrev pub pc : List ℕ
pc = b'p' ∷ b'c' ∷ []

-- The cipher states of a session: the same key for both ways.
abbrev pub key : CipherState
key = record { aead = zero_aead; nonce = 0 }

abbrev pub session : ℕ → NoiseSession
session n = record (new_noise_session 100 (vip n) false none) {
  cipher = init new_chacha zero_aead zero_aead;
}

abbrev pub to_far : NoiseSession
to_far = session 3

abbrev pub to_near : NoiseSession
to_near = session 2

abbrev pub client : ℕ → List (Vip × NoiseSession) → ClientTransport
client n sessions = record {
  nat_type = 3;
  local_ip = vip n;
  server_addr = server;
  check_addr = server;
  dns_ip = vip 1;
  p2p_router = [];
  control_send_chan = make_chan 16;
  from_net = make_chan 64;
  noise_mgr = record {
    tun_chan = [];
    my_vip = vip n;
    static_priv = repeated 32 n;
    static_pub = repeated 32 n;
    sessions = sessions;
  };
  data_conn = [];
  device = [];
  tun_name = some pc;
  check_conn = [];
  arrays = λ i. [];
  current = 0;
}

abbrev pub near : ClientTransport
near = client 2 ((vip 3, to_far) ∷ [])

abbrev pub far : ClientTransport
far = client 3 ((vip 2, to_near) ∷ [])

-- No session yet.
abbrev pub lonely : ClientTransport
lonely = client 2 []

-- A UDP packet from port 5001 of 10.0.6.2 with two bytes.
abbrev pub ip_packet : Vip → ℕ → List ℕ
ip_packet dst port =
    69 ∷ 0 ∷ 0 ∷ 30 ∷ 0 ∷ 0 ∷ 0 ∷ 0 ∷ 64 ∷ 17 ∷ 0 ∷ 0 ∷ 10 ∷ 0 ∷ 6 ∷ 2 ∷ dst.b0 ∷ dst.b1 ∷ dst.b2
    ∷ dst.b3 ∷ 19 ∷ 137 ∷ 0 ∷ port ∷ 0 ∷ 10 ∷ 0 ∷ 0 ∷ 7 ∷ 8 ∷ []

abbrev pub packet : List ℕ
packet = ip_packet (vip 3) 80

-- What the toy library writes first where 5 is the first random byte.
abbrev pub first_message : List ℕ
first_message = 5 ∷ repeated 95 1

abbrev pub question : List ℕ
question = ip_packet (vip 1) 53

abbrev pub group_packet : List ℕ
group_packet = ip_packet (record { b0 = 224; b1 = 0; b2 = 0; b3 = 251 }) 80

abbrev pub member : ℕ → Client
member n = record {
  nat_type = 3;
  control_chan = make_chan 16;
  data_addr = some home;
  virtual_ip = some (vip n);
  hostname = pc;
  noise_public_key = repeated 32 n;
  client_id = id;
}

abbrev pub room : Hub
room = record new_hub {
  clients = (0, member 2) ∷ (1, member 3) ∷ [];
  router = record { client_map = (vip 2, 0) ∷ (vip 3, 1) ∷ []; client_slice = 0 ∷ 1 ∷ [] };
  dns_map = (pc, vip 3) ∷ [];
}

abbrev pub pc_et : List ℕ
pc_et = b'p' ∷ b'c' ∷ b'.' ∷ b'e' ∷ b't' ∷ b'.' ∷ []

abbrev pub answer_message : List ℕ
answer_message = 7 ∷ 8 ∷ 3 ∷ []

abbrev pub refusal : List ℕ
refusal = 7 ∷ 8 ∷ 0 ∷ []

-- A DNS library that finds the name pc.et. in every message.
abbrev pub names : DnsCodec
names = record {
  unpack = λ message. some (pc_et ∷ []);
  pack_name_error = λ message. some refusal;
  new_rr = λ name ip. some (1 ∷ []);
  pack_answer = λ message rr. some answer_message;
}

-- The bytes of a P2P command, header first.
abbrev pub command_of : Vip → AddrPort → ℕ → List ℕ
command_of peer addr nat =
    0xda
    ∷ 0xaa
    ∷ 10
    ∷ (vip_bytes (vip 2)
        ++ (0
            ∷ 23
            ∷ (vip_bytes peer
                ++ (repeated 8 0 ++ (vip_bytes addr.ip ++ (be16 addr.port ++ (nat ∷ [])))))))

abbrev pub status : ℕ → ℕ → P2pStatus
status nat last_seen = record {
  dst_nat_type = nat;
  dst_addr = own home;
  last_seen = last_seen;
  established = false;
}

abbrev pub conf : Configuration
conf = record {
  server_ip = [];
  server_port = 9000;
  check_port = 9001;
  retention_time = [];
  device_name = pc;
  read_timeout = [];
  ping_time = [];
  send_workers = 0;
  recv_workers = 2;
  enable_p2p = true;
  enable_ui = false;
  enable_compress = true;
}

-- A library that knows one configuration and no duration.
abbrev pub files : ConfigLibrary
files = record { unmarshal = λ bytes. some conf; parse_duration = λ text. none }

abbrev pub sources : Sources
sources = record { chosen = none; local_file = none; embedded = [] }

abbrev pub settings : Config
settings = record {
  server_ip = [];
  server_port = 9000;
  check_port = 9001;
  device_name = pc;
  client_id = id;
  read_timeout = seconds 10;
  retention_time = seconds 300;
  ping_time = seconds 1;
  send_workers = 1;
  recv_workers = 2;
  enable_p2p = true;
  enable_ui = false;
  enable_compress = true;
}

pub sixteen : (bytes : List ℕ) → some id ≡ some bytes → length bytes ≡ 16
sixteen bytes e = ap (λ (o : Option (List ℕ)). elim o [ none ↦ 16 | some l ↦ length l ]) (sym e)

abbrev pub starting : Loop
starting = start toy bare settings (repeated 32 1)

-- The server is not reached, and then does not answer.
abbrev pub failures : List Attempt
failures =
    record { nat = none; outcome = unreachable }
    ∷ record { nat = some symmetric_nat; outcome = refused }
    ∷ []

abbrev pub welcome : GamePacket
welcome = record empty_packet { dst = vip 9; payload = pc }

-- A short packet, and two that are sent.
abbrev pub waiting : ClientTransport
waiting =
    let m = near.noise_mgr in
    record near { noise_mgr = record m { tun_chan = (1 ∷ []) ∷ packet ∷ packet ∷ [] } }

abbrev pub resolved : List ℕ → ℕ → AddrPort
resolved host port = server

abbrev pub looks : List (ℕ × Board × Reading)
looks =
    (
      2,
      starting.board,
      record {
        status = connect;
        send_counter = 1;
        recv_counter = 1;
        send_bytes = 9;
        recv_bytes = 9;
      },
    )
    ∷ (
      7,
      starting.board,
      record {
        status = connect;
        send_counter = 4;
        recv_counter = 2;
        send_bytes = 40;
        recv_bytes = 20;
      },
    )
    ∷ []
