-- ===== src/Hub/Owners/Run.antt =====
-- Every run of the server: connections that come, speak and end, datagrams, relayed packets,
-- tasks and sweeps, in any order. Each handler is one step.
use easytun.Base.{
  ℕ, zero, suc, ◌+◌, ◌≤◌, ◌<◌, ◌≡◌, refl, ap, List, [], ◌∷◌, Option, some, arith, nat_eq, bytes_eq,
}
use easytun.Base.Assoc.{lookup-insert_self}
use easytun.Packet.Compress.{Lz4, Buffer}
use easytun.Hub.State.{
  Hub, Client, AddrPort, TransferPacket, P2pTask, new_hub, new_client, set_client, count_up, or_new,
}
use easytun.Hub.Records.{DnsCodec}
use easytun.Hub.Router.{clean_retention}
use easytun.Hub.Session.{read_frame, disconnect}
use easytun.Hub.P2p.{handle_p2p_task}
use easytun.Hub.Pumps.{answer_ping, take_control}
use easytun.Hub.Transfer.{transfer}
use easytun.Hub.Udp.{receive_datagram, receive_check, write_batch}
use easytun.Hub.Owners.{count, is_at, retained, held, owned, held-insert_other}
use easytun.Hub.Owners.Leaving.{without, owned-disconnect, owned-clean_retention}
use easytun.Hub.Owners.Relay.{owned-read_frame, owned-transfer}
use easytun.Hub.Owners.Moves.{owned-set_client_same}
use easytun.Hub.Owners.Datagrams.{
  owned-receive_datagram, owned-handle_p2p_task, owned-receive_check,
}

-- The server and the connections that are open.
pub record World : Type 0 where
  pub hub : Hub
  pub live : List ℕ

abbrev pub start : World
start = record { hub = new_hub; live = [] }

pub data Step (w : World) : World → Type 0 where
  connects :
      (c : ℕ)
      → count c w.live ≡ 0
      → Step w (record { hub = set_client w.hub c new_client; live = c ∷ w.live })
  reads :
      (c : ℕ) (bytes : List ℕ)
      → count c w.live ≡ 1
      → Step w (record w { hub = (read_frame w.hub c bytes).0 })
  pings : (c : ℕ) → count c w.live ≡ 1 → Step w (record w { hub = answer_ping w.hub c })
  answers : (c : ℕ) → count c w.live ≡ 1 → Step w (record w { hub = take_control w.hub c })
  ends :
      (c deadline : ℕ)
      → count c w.live ≡ 1
      → Step w (record { hub = disconnect w.hub c deadline; live = without c w.live })
  sweeps : (now : ℕ) → Step w (record w { hub = clean_retention now w.hub })
  relays : (tp : TransferPacket) → Step w (record w { hub = transfer w.hub tp })
  hears :
      (z : Lz4) (probe : Buffer) (d : DnsCodec) (bytes : List ℕ) (addr : AddrPort)
      → Step w (record w { hub = receive_datagram z probe d w.hub bytes addr })
  checks :
      (bytes : List ℕ) (addr : AddrPort) (h : Hub)
      → receive_check w.hub bytes addr ≡ some h
      → Step w (record w { hub = h })
  punches :
      (task : P2pTask) (h : Hub)
      → handle_p2p_task w.hub task ≡ some h
      → Step w (record w { hub = h })
  writes : Step w (record w { hub = (write_batch w.hub).1 })

pub data Reach (w : World) : World → Type 0 where
  here : Reach w w
  next : {v u : World} → Reach w v → Step v u → Reach w u

abbrev pub owners : ℕ → World → ℕ
owners a w = owned a w.live w.hub

module _ (a : ℕ) where
  owned-connects :
      (w : World) (c : ℕ)
      → count c w.live ≡ 0
      → owned a (c ∷ w.live) (set_client w.hub c new_client) ≡ owners a w
  unfolding owned set_client held new_client is_at
  owned-connects w c h = omega (
    arith,
    held-insert_other a w.live c new_client w.hub.clients h,
    ap (λ (o : Option Client). is_at a (or_new o).virtual_ip)
        (lookup-insert_self c new_client w.hub.clients),
  )

  owned-answer_ping : (w : World) (c : ℕ) → owned a w.live (answer_ping w.hub c) ≡ owners a w
  unfolding answer_ping
  owned-answer_ping w c = owned-set_client_same a w.live w.hub c _ refl

  owned-take_control : (w : World) (c : ℕ) → owned a w.live (take_control w.hub c) ≡ owners a w
  unfolding take_control
  owned-take_control w c = owned-set_client_same a w.live w.hub c _ refl

  -- No step gives an address another owner.
  pub Step-owners : {w v : World} → Step w v → owners a v ≤ owners a w
  Step-owners {w} (connects c h) = omega (arith, owned-connects w c h)
  Step-owners {w} (reads c bytes h) = owned-read_frame a w.live w.hub c bytes h
  Step-owners {w} (pings c h) = omega (arith, owned-answer_ping w c)
  Step-owners {w} (answers c h) = omega (arith, owned-take_control w c)
  Step-owners {w} (ends c deadline h) = owned-disconnect a w.live w.hub c deadline h
  Step-owners {w} (sweeps now) = omega (arith, owned-clean_retention a w.live now w.hub)
  Step-owners {w} (relays tp) = omega (arith, owned-transfer a w.live w.hub tp)
  Step-owners {w} (hears z probe d bytes addr) =
      omega (arith, owned-receive_datagram a w.live z probe d w.hub bytes addr)
  Step-owners {w} (checks bytes addr h e) =
      omega (arith, owned-receive_check a w.live w.hub h bytes addr e)
  Step-owners {w} (punches task h e) = omega (arith, owned-handle_p2p_task a w.live w.hub h task e)
  Step-owners {w} writes = unfold write_batch owned in omega arith

  pub Reach-owners : {w v : World} → Reach w v → owners a v ≤ owners a w
  Reach-owners here = omega arith
  Reach-owners (next r s) = omega (arith, Step-owners s, Reach-owners r)

  count-count_up :
      (n first : ℕ)
      → (count a (count_up first n) ≤ 1) × (a < first → count a (count_up first n) ≡ 0)
  unfolding count count_up
  count-count_up zero first = (omega arith, λ h. omega arith)
  count-count_up (suc n) first =
      let (one, none_below) = count-count_up n (first + 1) in ground (arith, one, none_below)

  owners-start : owners a start ≤ 1
  unfolding owned new_hub retained held
  owners-start = omega (arith, (count-count_up 253 2).0)

-- In every run of the server an address has at most one owner: it is free, or kept for one client
-- that is away, or held by one connection.
pub owners-le : (a : ℕ) {w : World} → Reach start w → owners a w ≤ 1
owners-le a r = omega (arith, Reach-owners a r, owners-start a)
