-- ===== src/Endpoint/Setup/Windows.antt =====
-- NewTun, setupDnsNrpt and Close of internal/tun/device_windows.go.
use easytun.Base.{List, [], ◌∷◌, ◌++◌, ℕ, Bool, Option}
use easytun.Base.Bytes.{Vip}
use easytun.Base.Text.{codes}
use easytun.Endpoint.Control.{first_of_subnet}
use easytun.Endpoint.Setup.{
  Call, Action, must, may, init_wintun, create_adapter, start_session, command, Tun, tun_of, dotted,
  made,
}

abbrev pub netmask : Vip
netmask = record { b0 = 255; b1 = 255; b2 = 255; b3 = 0 }

abbrev pub powershell : List ℕ → Call
powershell script = command (codes "powershell") (codes "-Command" ∷ script ∷ [])

unfoldable pub clear_cmd : List ℕ → List ℕ
clear_cmd domain =
    codes "Get-DnsClientNrptRule | Where-Object {$_.Namespace -eq '"
    ++ (domain ++ codes "'} | Remove-DnsClientNrptRule -ErrorAction SilentlyContinue -Force")

unfoldable pub setup_dns_nrpt : List ℕ → List ℕ → List Action
unfolding clear_cmd
setup_dns_nrpt domain dns_server =
    may (powershell (clear_cmd domain))
    ∷ must (
        powershell (
          codes "Add-DnsClientNrptRule -Namespace '"
          ++ (domain ++ (codes "' -NameServers '" ++ (dns_server ++ codes "'")))))
    ∷ []

unfoldable pub plan : List ℕ → List ℕ → Vip → List Action
unfolding setup_dns_nrpt dotted
plan name domain ip =
    must init_wintun
    ∷ must (create_adapter name)
    ∷ must (start_session 0x800000)
    ∷ must (
        command (codes "netsh") (
          codes "interface"
          ∷ codes "ip"
          ∷ codes "set"
          ∷ codes "address"
          ∷ name
          ∷ codes "static"
          ∷ dotted ip
          ∷ dotted netmask
          ∷ []))
    ∷ must (
        command (codes "netsh") (
          codes "interface"
          ∷ codes "ipv4"
          ∷ codes "set"
          ∷ codes "subinterface"
          ∷ name
          ∷ codes "mtu=1280"
          ∷ codes "store=persistent"
          ∷ []))
    ∷ must (
        powershell (
          codes
            "[Console]::OutputEncoding = [System.Text.Encoding]::UTF8; Set-NetConnectionProfile -InterfaceAlias '"
          ++ (name ++ codes "' -NetworkCategory Private")))
    ∷ setup_dns_nrpt domain (dotted (first_of_subnet ip))

unfoldable pub new_tun : (Call → Bool) → List ℕ → List ℕ → Vip → List Action × Option Tun
unfolding plan made
new_tun succeeds name domain ip = made succeeds (plan name domain ip) (tun_of name domain ip)

-- Close, before the session and the adapter are closed.
unfoldable pub close : Tun → List Action
unfolding clear_cmd
close t = may (powershell (clear_cmd t.domain)) ∷ []
