-- ===== src/Examples/Lifecycles.antt =====
-- The loops of a client of the scenes.
use easytun.Base.{
  ℕ, ◌-◌, ◌+◌, ◌≡◌, ◌≤◌, refl, true, List, [], ◌∷◌, ◌++◌, none, some, length, arith, nat_eq,
  bytes_eq, All,
}
use easytun.Base.Bytes.{vip_eq}
use easytun.Endpoint.Sending.{packet_send}
use easytun.Endpoint.Greeting.{IsSettled}
use easytun.Endpoint.Config.{
  lost, after_write, init_config, IsUsable, read_source, load, client_id_from, new_client_id,
  with_id, config_of, at_least_one, init_config-twice,
}
use easytun.Endpoint.Attempts.{Loop, full_cone, served, listen_and_serve, start, new_transport}
use easytun.Endpoint.Reconnecting.{listen_and_serve-served}
use easytun.Endpoint.Closing.{ticks_at, with_closing, performance_ui-goes_on}
use easytun.Display.{
  performance_ui, new_monitor, test_nat, connect, init_network, Status, running, reconnecting,
  new_board, init_ui,
}
use easytun.Endpoint.Batching.{send_round, send_singly, send_round-send_singly}
use easytun.Endpoint.Fitting.{packet_send-Sends}
use easytun.Hub.Udp.{Message}
use easytun.Endpoint.Checksum.{checksum}
use easytun.Endpoint.OnesComplement.{ones_sum, checksum-ones_sum}
use easytun.Examples.Toys.{bare, runs}
use easytun.Examples.Scenes.{
  probe_buffer, id, near, packet, answer_message, files, sources, settings, starting, failures,
  welcome, waiting, resolved, looks, sixteen,
}

init_config-twice_example :
    (init_config files sources (some id) none (lost none) ≡ some (settings, (some id)))
    × IsUsable settings
unfolding init_config read_source load client_id_from new_client_id after_write with_id config_of
    at_least_one
init_config-twice_example =
    init_config-twice files sources none (some id) none (some id) (lost none) settings sixteen refl

listen_and_serve-served_example :
    (l' : Loop) × (waits : List ℕ) × (before : List Status) × (listen_and_serve resolved settings
        starting
        (failures ++ (record { nat = (some full_cone); outcome = served welcome } ∷ []))
      ≡ l')
    × (l'.statuses ≡ before ++ (running ∷ reconnecting ∷ []))
    × (l'.transport.local_ip ≡ welcome.dst)
    × (l'.board.local_ip ≡ welcome.dst)
    × (l'.transport.server_addr ≡ resolved settings.server_ip settings.server_port)
    × IsSettled l'.transport
    × (l'.retry_count ≡ 0)
    × (l'.waits ≡ starting.waits ++ waits)
    × (length waits ≡ length failures)
    × All (λ seconds. (2 ≤ seconds) × (seconds ≤ 30)) waits
unfolding start new_transport new_board init_ui
listen_and_serve-served_example =
    listen_and_serve-served resolved settings failures starting (some full_cone) welcome
      (tt, (tt, tt)) (omega arith) (λ e. cc)

checksum-ones_sum_example : checksum answer_message ≡ 0xffff - ones_sum answer_message
checksum-ones_sum_example =
    checksum-ones_sum answer_message (omega arith) (omega arith, (omega arith, (omega arith, tt)))

send_round-send_singly_example :
    (k : ℕ) × (send_round runs probe_buffer true 105 waiting
      ≡ send_singly runs probe_buffer true 105 k waiting)
    × (1 ≤ length waiting.noise_mgr.tun_chan → 1 ≤ k)
send_round-send_singly_example = send_round-send_singly runs probe_buffer true 105 waiting

packet_send-Sends_example :
    (sent : List Message) × ((packet_send runs probe_buffer true near 105 packet).data_conn
      ≡ near.data_conn ++ sent)
    × (length sent ≤ 1)
    × All (λ m. length m.body ≤ length packet + 37) sent
    × (length packet ≤ 1280 → All (λ m. length m.body ≤ 2048) sent)
packet_send-Sends_example = packet_send-Sends runs probe_buffer true near 105 packet

performance_ui-goes_on_example :
    (performance_ui bare new_monitor (
      ticks_at
        (with_closing
          (test_nat ∷ connect ∷ [])
          (reconnecting ∷ (test_nat ∷ connect ∷ init_network ∷ reconnecting ∷ [])))
        looks)).running_flag
    ≡ true
unfolding listen_and_serve start new_transport new_board init_ui
performance_ui-goes_on_example =
    performance_ui-goes_on resolved settings bare failures starting (test_nat ∷ connect ∷ [])
      reconnecting (test_nat ∷ connect ∷ init_network ∷ reconnecting ∷ []) looks tt refl
      (omega arith, (omega arith, tt))
