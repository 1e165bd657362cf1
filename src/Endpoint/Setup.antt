-- ===== src/Endpoint/Setup.antt =====
-- The making and closing of TUN devices: NewTun and Close of internal/tun/device_linux.go and
-- device_windows.go, and InitWintunDLL of dll_loader.go. What the code asks of the system is a
-- sequence of actions, and the system says of each whether it succeeds.
pub mod Linux
pub mod Windows
pub mod Wintun
pub mod Made
use easytun.Base.{
  ℕ, Bool, true, false, not, ◌&&◌, List, [], ◌∷◌, ◌++◌, Option, none, some, drop, length, ltb, eqb,
  get_or, if◌then◌else◌,
}
use easytun.Base.Bytes.{Vip}
use easytun.Base.Text.{codes}
use easytun.Hub.Names.{itoa}
use easytun.Endpoint.Control.{first_of_subnet}

pub data Call : Type 0 where
  open_file : List ℕ → Call
  set_iff : List ℕ → Call
  init_wintun : Call
  create_adapter : List ℕ → Call
  start_session : ℕ → Call
  command : List ℕ → List (List ℕ) → Call

-- The failure of a `must` is a panic or ends the program; the result of a `may` is not looked at.
pub data Action : Type 0 where
  must : Call → Action
  may : Call → Action

-- The fields of Tun that both devices have; `subnet` is the address of the /24.
pub record Tun : Type 0 where
  pub device_name : List ℕ
  pub ip : Vip
  pub dns_ip : Vip
  pub subnet : Vip
  pub domain : List ℕ

-- What is carried out, and whether it ends without a panic.
unfoldable pub carry_out : (Call → Bool) → List Action → List Action × Bool
carry_out succeeds [] = ([], true)
carry_out succeeds (may c ∷ actions) =
    let (done, ok) = carry_out succeeds actions in (may c ∷ done, ok)
carry_out succeeds (must c ∷ actions) =
    let (done, ok) = carry_out succeeds actions in
    if succeeds c then (must c ∷ done, ok) else (must c ∷ [], false)

-- net.IP.String()
unfoldable pub dotted : Vip → List ℕ
unfolding itoa
dotted v =
    itoa v.b0
    ++ (codes "." ++ (itoa v.b1 ++ (codes "." ++ (itoa v.b2 ++ (codes "." ++ itoa v.b3)))))

-- ip.Mask(mask) for 24 bits
abbrev pub network : Vip → Vip
network ip = record ip { b3 = 0 }

abbrev pub tun_of : List ℕ → List ℕ → Vip → Tun
tun_of name domain ip = record {
  device_name = name;
  ip = ip;
  dns_ip = first_of_subnet ip;
  subnet = network ip;
  domain = domain;
}

unfoldable pub clean_domain : List ℕ → List ℕ
clean_domain domain =
    if ltb 0 (length domain) && eqb (get_or domain 0 0) b'.' then drop 1 domain else domain

-- What was carried out, and the device, or none where the code panics or ends the program.
unfoldable pub made : (Call → Bool) → List Action → Tun → List Action × Option Tun
unfolding carry_out
made succeeds plan t =
    let (done, ok) = carry_out succeeds plan in (done, if ok then some t else none)
