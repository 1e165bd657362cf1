-- ===== src/Endpoint/Setup/Wintun.antt =====
-- InitWintunDLL of internal/tun/dll_loader.go, and SendDNS of the two devices.
use easytun.Base.{ℕ, Bool, true, false, List, [], ◌∷◌, ◌++◌, Option, none, some, not, if◌then◌else◌}
use easytun.Endpoint.Transport.{ClientTransport}

-- runtime.GOARCH
pub data Arch : Type 0 where
  amd64 : Arch
  i386 : Arch
  arm64 : Arch
  other_arch : Arch

-- What the file system says: whether os.Executable succeeds, whether wintun.dll stands beside the program,
-- and whether it can be written.
pub record Files : Type 0 where
  pub has_executable : Bool
  pub has_dll : Bool
  pub can_write : Bool

-- What is written to wintun.dll, and whether there is no error.
unfoldable pub write_dll : List ℕ → Files → Option (List ℕ) × Bool
write_dll dll f =
    if not f.has_executable
    then (none, false)
    else if f.has_dll
    then (none, true)
    else if f.can_write
    then (some dll, true)
    else (none, false)

-- Only the library for amd64 is in the program.
unfoldable pub init_wintun_dll : Arch → List ℕ → Files → Option (List ℕ) × Bool
unfolding write_dll
init_wintun_dll amd64 dll f = write_dll dll f
init_wintun_dll i386 dll f = (none, false)
init_wintun_dll arm64 dll f = (none, false)
init_wintun_dll other_arch dll f = (none, false)

-- SendDNS: AllocateSendPacket on Windows, and the write on Linux, may fail. The flag tells whether there is
-- no error.
unfoldable pub send_dns : Bool → ClientTransport → List ℕ → ClientTransport × Bool
send_dns true t resp = (record t { device = t.device ++ (resp ∷ []) }, true)
send_dns false t resp = (t, false)
