-- ===== src/Endpoint/Setup/Linux.antt =====
-- NewTun and Close of internal/tun/device_linux.go.
use easytun.Base.{List, [], ◌∷◌, ◌++◌, ℕ, Bool, Option, take}
use easytun.Base.Bytes.{Vip}
use easytun.Base.Text.{codes}
use easytun.Endpoint.Control.{first_of_subnet}
use easytun.Endpoint.Setup.{
  Call, Action, must, may, open_file, set_iff, command, Tun, tun_of, dotted, clean_domain, made,
}

-- ifr.name has 16 bytes.
unfoldable pub plan : List ℕ → List ℕ → Vip → List Action
unfolding clean_domain dotted
plan name domain ip =
    must (open_file (codes "/dev/net/tun"))
    ∷ must (set_iff (take 16 name))
    ∷ must (
        command (codes "ip")
          (codes "addr" ∷ codes "add" ∷ (dotted ip ++ codes "/24") ∷ codes "dev" ∷ name ∷ []))
    ∷ must (
        command (codes "ip") (
          codes "link"
          ∷ codes "set"
          ∷ codes "dev"
          ∷ name
          ∷ codes "mtu"
          ∷ codes "1280"
          ∷ codes "up"
          ∷ []))
    ∷ must (command (codes "resolvectl") (codes "dns" ∷ name ∷ dotted (first_of_subnet ip) ∷ []))
    ∷ must
        (command (codes "resolvectl") (codes "domain" ∷ name ∷ (b'~' ∷ clean_domain domain) ∷ []))
    ∷ may (command (codes "resolvectl") (codes "flush-caches" ∷ []))
    ∷ []

unfoldable pub new_tun : (Call → Bool) → List ℕ → List ℕ → Vip → List Action × Option Tun
unfolding plan made
new_tun succeeds name domain ip = made succeeds (plan name domain ip) (tun_of name domain ip)

-- Close, before the file is closed.
unfoldable pub close : Tun → List Action
close t = may (command (codes "resolvectl") (codes "revert" ∷ t.device_name ∷ [])) ∷ []
