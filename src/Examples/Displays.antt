-- ===== src/Examples/Displays.antt =====
-- A display over a few ticks, and a number of bytes as a text.
use easytun.Base.{
  ℕ, ◌+◌, ◌*◌, ◌^◌, ◌≡◌, ◌≤◌, ◌<◌, refl, false, List, [], ◌∷◌, ◌++◌, some, none, length, drop,
  arith,
}
use easytun.Base.Text.{codes}
use easytun.Base.Bytes.{zero_vip}
use easytun.Display.{
  Board, Reading, Screen, Status, running, connect, closing, new_monitor, performance_ui, draw,
  add_info, generate_info, generate_bar,
}
use easytun.Display.Units.{format_bytes, suffix, format_bytes-some}
use easytun.Display.History.{Ticks, counts, increases, performance_ui-ends}
use easytun.Examples.Toys.{bare}

abbrev reading : Status → ℕ → Reading
reading s n = record {
  status = s;
  send_counter = n;
  recv_counter = 2 * n;
  send_bytes = 5000000;
  recv_bytes = 512;
}

abbrev board : Board
board = record { hostname = codes "pc.et"; local_ip = zero_vip; info = [] }

abbrev ticks : Ticks
ticks = (board, reading connect 3) ∷ (board, reading running 10) ∷ []

format_bytes-some_example :
    (div : ℕ) × (exp : ℕ) × (unit : List ℕ) × (format_bytes bare.quotient 5000000
      ≡ some (bare.quotient 5000000 div ++ (codes " " ++ unit)))
    × (suffix exp ≡ some unit)
    × (div ≡ 1024 ^ (exp + 1))
    × (exp ≤ 5)
    × (div ≤ 5000000)
    × (5000000 < 1024 * div)
format_bytes-some_example = format_bytes-some bare.quotient 5000000 (omega arith) (omega arith)

mebibytes : format_bytes bare.quotient 5000000 ≡ some (codes "4 MB")
unfolding format_bytes
mebibytes = refl

labels :
    generate_bar (1 ∷ 2 ∷ 3 ∷ 4 ∷ 5 ∷ [])
    ≡ record { label = codes "  -4s  "; value = 1 }
      ∷ record { label = codes "  -3s  "; value = 2 }
      ∷ record { label = codes "  -2s  "; value = 3 }
      ∷ record { label = codes "  -1s  "; value = 4 }
      ∷ record { label = codes "NOW"; value = 5 }
      ∷ []
unfolding generate_bar
labels = refl

drawn_text :
    generate_info bare (add_info (codes "Sender Count") (codes "2") none board) (reading running 9)
    ≡ codes
        "System InfoVirtual Ip: [0 0 0 0]\nHost Name: pc.et\nSender Count: 2\nSend Bytes: 4 MB\nRecv Bytes: 512 B\n"
unfolding generate_info add_info format_bytes
drawn_text = refl

performance_ui-ends_example :
    let sent = counts (λ x. x.send_counter) (ticks ++ ((board, (reading closing 14)) ∷ [])) in
    let received = counts (λ x. x.recv_counter) (ticks ++ ((board, (reading closing 14)) ∷ [])) in
    let m = performance_ui bare new_monitor (ticks ++ ((board, (reading closing 14)) ∷ ticks)) in
    (before : List Screen) × (m.running_flag ≡ false)
    × (m.area ≡ before ++ (draw bare board (reading closing 14) m.send_history m.recv_history ∷ []))
    × (length before ≡ length ticks)
    × (m.send_history ≡ drop (length sent) ((0 ∷ 0 ∷ 0 ∷ 0 ∷ 0 ∷ []) ++ increases 0 sent))
    × (m.recv_history ≡ drop (length received) ((0 ∷ 0 ∷ 0 ∷ 0 ∷ 0 ∷ []) ++ increases 0 received))
performance_ui-ends_example =
    performance_ui-ends bare ticks board (reading closing 14) ticks (refl, (refl, tt)) refl
