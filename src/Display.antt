-- ===== src/Display.antt =====
-- The terminal display of a client: internal/ui/performance.go and initUi of
-- internal/transport/client_ui.go. A text is the list of its characters' codes, and what PerformanceUi
-- hands to pterm at a tick is a Screen; its children have the units of byte counts and the loop.
pub mod Units
pub mod History
use easytun.Base.{
  ℕ, zero, suc, ◌+◌, ◌-◌, ◌%◌, ◌^◌, Bool, List, [], ◌∷◌, ◌++◌, Option, none, some, eqb, get_or,
  if◌then◌else◌, true, false, ◌&&◌, drop,
}
use easytun.Base.Bytes.{Vip, zero_vip}
use easytun.Base.Text.{codes}
use easytun.Hub.Names.{itoa}
use easytun.Display.Units.{format_bytes}
use easytun.Endpoint.Config.{Config}

-- What the atomic `status` of a client holds.
pub data Status : Type 0 where
  initial : Status
  test_nat : Status
  connect : Status
  init_network : Status
  running : Status
  reconnecting : Status
  closing : Status

unfoldable pub stat : Status → List ℕ
stat initial = codes "Init"
stat test_nat = codes "Test Nat"
stat connect = codes "Connecting Server"
stat init_network = codes "Init Virtual Work"
stat running = codes "Running"
stat reconnecting = codes "Reconnecting"
stat closing = codes "Closing"

pub record Info : Type 0 where
  pub key : List ℕ
  pub val : List ℕ
  pub color_func : Option (List ℕ → List ℕ)

-- The counters and the status, which the board only points to, are in a Reading.
pub record Board : Type 0 where
  pub hostname : List ℕ
  pub local_ip : Vip
  pub info : List Info

-- What the atomics hold at a tick.
pub record Reading : Type 0 where
  pub status : Status
  pub send_counter : ℕ
  pub recv_counter : ℕ
  pub send_bytes : ℕ
  pub recv_bytes : ℕ

unfoldable pub new_board : Board
new_board = record { hostname = []; local_ip = zero_vip; info = [] }

unfoldable pub init_local_ip : Vip → Board → Board
init_local_ip ip b = record b { local_ip = ip }

unfoldable pub init_host_name : List ℕ → Board → Board
init_host_name name b = record b { hostname = name }

-- The loop that copies the old snapshot.
unfoldable pub copy_infos : List Info → List Info → List Info
copy_infos [] copied = copied
copy_infos (i ∷ infos) copied = copy_infos infos (copied ++ (i ∷ []))

unfoldable pub add_info : List ℕ → List ℕ → Option (List ℕ → List ℕ) → Board → Board
unfolding copy_infos
add_info key val color_func b = record b {
  info = copy_infos b.info [] ++ (record { key = key; val = val; color_func = color_func } ∷ []);
}

-- The colours and boxes of pterm, and `%.2f` of fmt at the quotient of two floats.
pub record Pterm : Type 0 where
  pub light_cyan : List ℕ → List ℕ
  pub light_green : List ℕ → List ℕ
  pub light_red : List ℕ → List ℕ
  pub light_yellow : List ℕ → List ℕ
  pub box : List ℕ → List ℕ → List ℕ
  pub quotient : ℕ → ℕ → List ℕ

pub record Bar : Type 0 where
  pub label : List ℕ
  pub value : ℕ

unfoldable pub bar_label : ℕ → List ℕ
unfolding itoa
bar_label i = if eqb i 4 then codes "NOW" else codes "  -" ++ (itoa (4 - i) ++ codes "s  ")

-- The bars from number `i` on, `n` of them.
unfoldable pub bars_from : ℕ → ℕ → List ℕ → List Bar
unfolding bar_label
bars_from zero i history = []
bars_from (suc n) i history =
    record { label = bar_label i; value = get_or history i 0 } ∷ bars_from n (i + 1) history

-- The bars of one of the two charts.
unfoldable pub generate_bar : List ℕ → List Bar
unfolding bars_from
generate_bar history = bars_from 5 0 history

abbrev pub colored : Option (List ℕ → List ℕ) → List ℕ → List ℕ
colored none s = s
colored (some color) s = color s

unfoldable pub info_lines : Pterm → List Info → List ℕ → List ℕ
info_lines p [] base = base
info_lines p (i ∷ infos) base =
    info_lines p infos
      (base ++ (p.light_cyan (i.key ++ codes ": ") ++ colored i.color_func (i.val ++ codes "\n")))

-- `%v` of four bytes
unfoldable pub show_ip : Vip → List ℕ
unfolding itoa
show_ip v =
    codes "["
    ++ (itoa v.b0
        ++ (codes " "
            ++ (itoa v.b1
                ++ (codes " " ++ (itoa v.b2 ++ (codes " " ++ (itoa v.b3 ++ codes "]")))))))

abbrev pub text_or_nil : Option (List ℕ) → List ℕ
text_or_nil none = []
text_or_nil (some s) = s

-- FormatBytes has a text for every uint64.
unfoldable pub byte_line : Pterm → List ℕ → ℕ → List ℕ
byte_line p title bytes =
    p.light_cyan (title ++ (text_or_nil (format_bytes p.quotient bytes) ++ codes "\n"))

unfoldable pub generate_info : Pterm → Board → Reading → List ℕ
unfolding info_lines byte_line show_ip
generate_info p b r =
    let base =
      (p.light_cyan (codes "Virtual Ip: ") ++ (show_ip b.local_ip ++ codes "\n"))
      ++ (p.light_cyan (codes "Host Name: ") ++ (b.hostname ++ codes "\n")) in
    p.box (codes "System Info") (
      info_lines p b.info base
      ++ (byte_line p (codes "Send Bytes: ") r.send_bytes
          ++ byte_line p (codes "Recv Bytes: ") r.recv_bytes))

-- What is drawn at a tick: the two boxes, and the bars of the charts for what is sent and received.
pub record Screen : Type 0 where
  pub version_info : List ℕ
  pub send_bars : List Bar
  pub recv_bars : List Bar
  pub status_box : List ℕ

-- The variables of PerformanceUi; `area` is what was drawn, which grows.
pub record Monitor : Type 0 where
  pub running_flag : Bool
  pub send_history : List ℕ
  pub recv_history : List ℕ
  pub last_send : ℕ
  pub last_recv : ℕ
  pub area : List Screen

unfoldable pub new_monitor : Monitor
new_monitor = record {
  running_flag = true;
  send_history = 0 ∷ 0 ∷ 0 ∷ 0 ∷ 0 ∷ [];
  recv_history = 0 ∷ 0 ∷ 0 ∷ 0 ∷ 0 ∷ [];
  last_send = 0;
  last_recv = 0;
  area = [];
}

-- `int(cur - last)` for two uint64; the 64 bits of the int.
abbrev pub increase : ℕ → ℕ → ℕ
increase last cur = (cur + 2 ^ 64 - last) % 2 ^ 64

abbrev pub shift_in : ℕ → List ℕ → List ℕ
shift_in n history = drop 1 history ++ (n ∷ [])

abbrev pub goes_on : Status → Bool
goes_on closing = false
goes_on other = true

-- What is drawn, from the two histories.
unfoldable pub draw : Pterm → Board → Reading → List ℕ → List ℕ → Screen
unfolding generate_info generate_bar stat
draw p b r send recv = record {
  version_info = generate_info p b r;
  send_bars = generate_bar send;
  recv_bars = generate_bar recv;
  status_box =
      p.box (codes "Status") (p.light_cyan (codes "Status: ") ++ p.light_yellow (stat r.status));
}

-- One tick of PerformanceUi.
unfoldable pub tick : Pterm → Board → Monitor → Reading → Monitor
unfolding draw
tick p b m r =
    let send = shift_in (increase m.last_send r.send_counter) m.send_history in
    let recv = shift_in (increase m.last_recv r.recv_counter) m.recv_history in
    record {
      running_flag = goes_on r.status && m.running_flag;
      send_history = send;
      recv_history = recv;
      last_send = r.send_counter;
      last_recv = r.recv_counter;
      area = m.area ++ (draw p b r send recv ∷ []);
    }

-- The loop over the ticks, with the board as it is at each of them.
unfoldable pub performance_ui : Pterm → Monitor → List (Board × Reading) → Monitor
unfolding tick
performance_ui p m [] = m
performance_ui p m ((b, r) ∷ ticks) =
    let rest = performance_ui p (tick p b m r) ticks in if m.running_flag then rest else m

abbrev pub switch_info : Pterm → List ℕ → Bool → Board → Board
switch_info p key true b = add_info key (codes "Enable") (some p.light_green) b
switch_info p key false b = add_info key (codes "Disable") (some p.light_red) b

unfoldable pub init_ui : Pterm → Config → Board → Board
unfolding add_info itoa
init_ui p c b =
    let b1 = add_info (codes "Receiver Count") (itoa c.recv_workers) (some p.light_cyan) b in
    let b2 = add_info (codes "Sender Count") (itoa c.send_workers) (some p.light_cyan) b1 in
    let b3 = switch_info p (codes "P2P status") c.enable_p2p b2 in
    switch_info p (codes "Compress") c.enable_compress b3
