-- ===== src/Endpoint/Reconnecting.antt =====
-- The loop of ListenAndServe in internal/transport/client.go, from the first failure of a row to the
-- session that follows it.
use easytun.Base.{
  ◌==◌, ℕ, zero, suc, ◌+◌, ◌≡◌, ◌≤◌, refl, ap, ◌∙◌, sym, Bool, true, false, List, [], ◌∷◌, ◌++◌,
  Option, length, All, arith, ◌^◌, Bool-cases, inl, inr, ltb, Eq-cases,
}
use mathlib.Core.List.{append_assoc, append-nil}
use native.Mathlib.Nat.{pow-le-pow_right}
use easytun.Base.Bytes.{vip_eq}
use easytun.Packet.Compress.{GamePacket}
use easytun.Endpoint.Transport.{ClientTransport}
use easytun.Endpoint.Control.{is_none, adopt, renew}
use easytun.Endpoint.Greeting.{adopt-IsSettled, IsSettled}
use easytun.Display.{
  Board, Status, connect, init_network, running, reconnecting, init_host_name, init_local_ip,
}
use easytun.Hub.State.{AddrPort}
use easytun.Endpoint.Config.{Config}
use easytun.Endpoint.Attempts.{
  Loop, Outcome, unreachable, no_socket, NatKind, connect_server, refused, served, Attempt,
  store_status, backoff_wait, probe_nat, proceed, attempt, listen_and_serve, show_client,
  adopt_board,
}
use easytun.Endpoint.Backoff.{wait_sec, wait_sec-attempts}

-- No answer.
abbrev pub IsFailure : Outcome → Type 0
IsFailure unreachable = Unit {0}
IsFailure no_socket = Unit {0}
IsFailure refused = Unit {0}
IsFailure (served answer) = ⊥

-- The waits after `n` failures in a row, the count of attempts being `r` before them.
abbrev backoffs : ℕ → ℕ → List ℕ
backoffs r zero = []
backoffs r (suc n) = wait_sec (r + 1) ∷ backoffs (r + 1) n

abbrev InTime : ℕ → Type 0
InTime seconds = (2 ≤ seconds) × (seconds ≤ 30)

wait_sec-InTime : (n : ℕ) → 1 ≤ n → n ≤ 62 → InTime (wait_sec n)
wait_sec-InTime n pos small = elim (Bool-cases (ltb n 5)) [
  | inl e ↦
      let least : 2 ^ 1 ≤ 2 ^ n = pow-le-pow_right (omega arith) pos in
      let few : n ≤ 4 = ground arith in
      let most : 2 ^ n ≤ 2 ^ 4 = pow-le-pow_right (omega arith) few in
      ground (arith, wait_sec-attempts n, least, most)
  | inr e ↦ ground (arith, wait_sec-attempts n)
]

backoffs-InTime : (n r : ℕ) → r + n ≤ 62 → All InTime (backoffs r n) × (length (backoffs r n) ≡ n)
backoffs-InTime zero r h = (tt, refl)
backoffs-InTime (suc n) r h =
    let (each, len) = backoffs-InTime n (r + 1) (omega (arith, h)) in
    ((wait_sec-InTime (r + 1) (omega arith) (omega (arith, h)), each), omega (arith, len))

-- A client with a device is settled, and its address is on the display.
abbrev pub Held : Loop → Type 0
Held l =
    is_none l.transport.tun_name ≡ false
    → IsSettled l.transport × (l.board.local_ip ≡ l.transport.local_ip)

-- What one failure, and what a row of them, leaves.
abbrev Failed : Loop → Loop → ℕ → Type 0
Failed l l' n =
    (l'.retry_count ≡ l.retry_count + n)
    × (l'.waits ≡ l.waits ++ backoffs l.retry_count n)
    × Held l'

probe_nat-rest :
    (enable_p2p : Bool) (nat : Option NatKind) (l : Loop)
    → Held l
    → ((probe_nat enable_p2p nat l).retry_count ≡ l.retry_count)
      × ((probe_nat enable_p2p nat l).waits ≡ l.waits)
      × Held (probe_nat enable_p2p nat l)
unfolding probe_nat store_status
probe_nat-rest true nat l held = (refl, refl, held)
probe_nat-rest false nat l held = (refl, refl, held)

proceed-Failed :
    (resolve : List ℕ → ℕ → AddrPort) (c : Config) (o : Outcome) (l : Loop)
    → IsFailure o
    → Held l
    → Failed l (proceed resolve c o l) 1
unfolding proceed backoff_wait store_status connect_server
proceed-Failed resolve c unreachable l f held = (refl, refl, held)
proceed-Failed resolve c no_socket l f held = (refl, refl, held)
proceed-Failed resolve c refused l f held = (refl, refl, held)
proceed-Failed resolve c (served answer) l f held = absurd f

attempt-Failed :
    (resolve : List ℕ → ℕ → AddrPort) (c : Config) (a : Attempt) (l : Loop)
    → IsFailure a.outcome
    → Held l
    → Failed l (attempt resolve c l a) 1
unfolding attempt
attempt-Failed resolve c a l f held =
    let (r, w, held') = probe_nat-rest c.enable_p2p a.nat l held in
    let (r', w', held'') =
      proceed-Failed resolve c a.outcome (probe_nat c.enable_p2p a.nat l) f held' in
    (
      omega (arith, r, r'),
      w'
          ∙ ap (λ (n : ℕ). (probe_nat c.enable_p2p a.nat l).waits ++ (wait_sec (n + 1) ∷ [])) r
          ∙ ap (λ (ws : List ℕ). ws ++ (wait_sec (l.retry_count + 1) ∷ [])) w,
      held'',
    )

row-Failed :
    (resolve : List ℕ → ℕ → AddrPort) (c : Config) (failures : List Attempt) (l : Loop)
    → All (λ a. IsFailure a.outcome) failures
    → Held l
    → Failed l (listen_and_serve resolve c l failures) (length failures)
unfolding listen_and_serve
row-Failed resolve c [] l f held = (omega arith, sym (append-nil l.waits), held)
row-Failed resolve c (a ∷ failures) l f held =
    let (r, w, held') = attempt-Failed resolve c a l f.0 held in
    let (r', w', held'') = row-Failed resolve c failures (attempt resolve c l a) f.1 held' in
    let n = length failures in
    (
      omega (arith, r, r'),
      w'
          ∙ ap (λ (k : ℕ). (attempt resolve c l a).waits ++ backoffs k n) r
          ∙ ap (λ (ws : List ℕ). ws ++ backoffs (l.retry_count + 1) n) w
          ∙ append_assoc l.waits _ _,
      held'',
    )

listen_and_serve-append :
    (resolve : List ℕ → ℕ → AddrPort) (c : Config) (failures : List Attempt) (l : Loop)
    (a : Attempt)
    → listen_and_serve resolve c l (failures ++ (a ∷ []))
      ≡ attempt resolve c (listen_and_serve resolve c l failures) a
unfolding listen_and_serve
listen_and_serve-append resolve c [] l a = refl
listen_and_serve-append resolve c (x ∷ failures) l a =
    listen_and_serve-append resolve c failures (attempt resolve c l x) a

adopt_board-local_ip :
    (t : ClientTransport) (answer : GamePacket) (b : Board)
    → (is_none t.tun_name ≡ false → IsSettled t × (b.local_ip ≡ t.local_ip))
    → (adopt_board t answer b).local_ip ≡ answer.dst
unfolding adopt_board show_client init_host_name init_local_ip
adopt_board-local_ip t answer b held = elim (Bool-cases (is_none t.tun_name)) [
  | inl e ↦ rw e refl
  | inr e ↦ elim (Eq-cases t.local_ip answer.dst) [
    | inl (same, q) ↦ rw (e, q) ((held e).1 ∙ same)
    | inr q ↦ rw (e, q) refl
  ]
]

adopt-server_addr :
    (t : ClientTransport) (answer : GamePacket) → (adopt t answer).server_addr ≡ t.server_addr
unfolding adopt renew
adopt-server_addr t answer = elim (Bool-cases (is_none t.tun_name)) [
  | inl e ↦ rw e refl
  | inr e ↦ elim (Bool-cases (t.local_ip == answer.dst)) [
    | inl q ↦ rw (e, q) refl
    | inr q ↦ rw (e, q) refl
  ]
]

connect_server-Held :
    (resolve : List ℕ → ℕ → AddrPort) (c : Config) (l : Loop)
    → Held l
    → Held (connect_server resolve c l)
unfolding connect_server
connect_server-Held resolve c l held = held

-- The loop after any row of failures, with at most 62 attempts counted in all, and then an attempt
-- that the server answers: the client was running, with the address of the answer, which the
-- display shows, and with the server that the configuration names, settled; the count of attempts
-- is 0; and before that it waited once for each failure, 2 to 30 seconds.
pub listen_and_serve-served :
    (resolve : List ℕ → ℕ → AddrPort) (c : Config) (failures : List Attempt) (l : Loop)
    (nat : Option NatKind) (answer : GamePacket)
    → All (λ a. IsFailure a.outcome) failures
    → l.retry_count + length failures ≤ 62
    → Held l
    → (l' : Loop) × (waits : List ℕ) × (before : List Status) × (listen_and_serve resolve c l
          (failures ++ (record { nat = nat; outcome = served answer } ∷ []))
        ≡ l')
      × (l'.statuses ≡ before ++ (running ∷ reconnecting ∷ []))
      × (l'.transport.local_ip ≡ answer.dst)
      × (l'.board.local_ip ≡ answer.dst)
      × (l'.transport.server_addr ≡ resolve c.server_ip c.server_port)
      × IsSettled l'.transport
      × (l'.retry_count ≡ 0)
      × (l'.waits ≡ l.waits ++ waits)
      × (length waits ≡ length failures)
      × All (λ seconds. (2 ≤ seconds) × (seconds ≤ 30)) waits
listen_and_serve-served resolve c failures l nat answer f few held =
    let n = length failures in
    let tried : Loop = listen_and_serve resolve c l failures in
    let (r, w, held') = row-Failed resolve c failures l f held in
    let (r', w', held'') = probe_nat-rest c.enable_p2p nat tried held' in
    let probed : Loop = probe_nat c.enable_p2p nat tried in
    let there : Loop = connect_server resolve c probed in
    let held3 = connect_server-Held resolve c probed held'' in
    let (settled, mine, named) = adopt-IsSettled there.transport answer (λ e. (held3 e).0) in
    let shown = adopt_board-local_ip there.transport answer there.board held3 in
    let dialled = adopt-server_addr there.transport answer in
    let (each, len) = backoffs-InTime n l.retry_count few in
    (
      attempt resolve c tried (record { nat = nat; outcome = served answer }),
      backoffs l.retry_count n,
      (probed.statuses ++ (connect ∷ [])) ++ (init_network ∷ []),
      listen_and_serve-append resolve c failures l (record { nat = nat; outcome = served answer }),
      unfold attempt proceed store_status connect_server in
          append_assoc ((probed.statuses ++ (connect ∷ [])) ++ (init_network ∷ [])) (running ∷ [])
            (reconnecting ∷ []),
      unfold attempt proceed store_status connect_server in mine,
      unfold attempt proceed store_status connect_server in shown,
      unfold attempt proceed store_status connect_server in dialled,
      unfold attempt proceed store_status connect_server in settled,
      unfold attempt proceed store_status connect_server in refl,
      unfold attempt proceed store_status connect_server in (w' ∙ w),
      len,
      each,
    )
