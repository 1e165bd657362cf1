-- ===== src/Endpoint/Windows.antt =====
-- tunSend and tunRecv of internal/tun/device_windows.go: one batch and one packet, beside those of
-- device_linux.go. Every allocation of a packet succeeds.
use easytun.Base.{
  ℕ, zero, suc, ◌≡◌, refl, ap, ◌∙◌, sym, inl, inr, List, [], ◌∷◌, ◌++◌, length, drop, ltb,
  if◌then◌else◌, Bool-cases, Bool, true, false, not, ◌&&◌, ◌||◌, ◌/◌, eqb, get_or, ◌==◌,
}
use easytun.Packet.Header.{header_length}
use easytun.Endpoint.Transport.{ClientTransport}
use easytun.Endpoint.Device.{
  tun_send, tun_send_from, tun_write, tun_recv, tun_accepts, is_wanted, in_subnet_of, broadcast_ip,
}
use easytun.Base.Bytes.{Vip, vip_eq, vip_at}
use easytun.Hub.Transfer.{is_multicast, is_loopback}

abbrev with_queue : ClientTransport → List (List ℕ) → ClientTransport
with_queue t items =
    let queue = t.from_net in record t { from_net = record queue { items = items } }

-- DrainLoop: what it adds to the batch, with room for `n` more, and what it leaves in the queue. A
-- packet without a payload is taken and not counted.
unfoldable pub drain : ℕ → List (List ℕ) → List (List ℕ) × List (List ℕ)
drain zero items = ([], items)
drain (suc n) [] = ([], [])
drain (suc n) (p ∷ items) =
    let (batch, rest) = drain n items in
    let (batch', rest') = drain (suc n) items in
    if ltb header_length (length p) then (p ∷ batch, rest) else (batch', rest')

unfoldable pub send_batch : ClientTransport → List (List ℕ) → ClientTransport
send_batch t [] = t
send_batch t (p ∷ batch) =
    send_batch (record t { device = t.device ++ (drop header_length p ∷ []) }) batch

-- The packet that begins the batch, with room for `n` after it.
unfoldable pub batch_from : ℕ → ClientTransport → List (List ℕ) → ClientTransport
unfolding drain send_batch
batch_from n t [] = t
batch_from n t (p ∷ items) =
    let (batch, rest) = drain n items in
    if ltb header_length (length p)
    then send_batch (with_queue t rest) (p ∷ batch)
    else with_queue t items

-- 64 packets at most.
unfoldable pub tun_send_batch : ClientTransport → ClientTransport
unfolding batch_from
tun_send_batch t = batch_from 63 t t.from_net.items

-- The Linux loop, `k` packets on.
unfoldable pub iterate : ℕ → ClientTransport → ClientTransport
unfolding tun_send
iterate zero t = t
iterate (suc k) t = iterate k (tun_send t)

drain-iterate :
    (items : List (List ℕ)) (n : ℕ) (t : ClientTransport)
    → (k : ℕ) × (send_batch (with_queue t (drain n items).1) (drain n items).0
        ≡ iterate k (with_queue t items))
unfolding drain send_batch iterate tun_send tun_send_from
drain-iterate items zero t = (zero, refl)
drain-iterate [] (suc n) t = (zero, refl)
drain-iterate (p ∷ items) (suc n) t = elim (Bool-cases (ltb header_length (length p))) [
  | inl e ↦
      let (k, same) =
        drain-iterate items n (record t { device = t.device ++ (drop header_length p ∷ []) }) in
      (suc k, rw (e, tun_write) same)
  | inr e ↦ let (k, same) = drain-iterate items (suc n) t in (suc k, rw (e, tun_write) same)
]

batch_from-iterate :
    (n : ℕ) (t : ClientTransport) (items : List (List ℕ))
    → (k : ℕ) × (batch_from n (with_queue t items) items ≡ iterate k (with_queue t items))
unfolding batch_from iterate tun_send tun_send_from send_batch
batch_from-iterate n t [] = (zero, refl)
batch_from-iterate n t (p ∷ items) = elim (Bool-cases (ltb header_length (length p))) [
  | inl e ↦
      let written : ClientTransport = record t {
        device = t.device ++ (drop header_length p ∷ []);
      } in
      let one : tun_send (with_queue t (p ∷ items)) ≡ with_queue written items =
        rw (e, tun_write) refl in
      let (k, same) = drain-iterate items n written in
      (suc k, rw e (same ∙ ap (iterate k) (sym one)))
  | inr e ↦ (suc zero, rw e refl)
]

-- A batch of the Windows loop does what some number of packets of the Linux loop do, one after the
-- other: the same is written to the device, in the same order, and the same is left in the queue.
pub tun_send_batch-iterate : (t : ClientTransport) → (k : ℕ) × (tun_send_batch t ≡ iterate k t)
unfolding tun_send_batch
tun_send_batch-iterate t = batch_from-iterate 63 t t.from_net.items

-- The addresses that the closure of tunRecv takes packets for.
unfoldable pub takes : Vip → Vip → Bool
takes ip dst =
    dst == broadcast_ip
    || (eqb dst.b3 255 || (is_multicast dst || (in_subnet_of ip dst && not (is_loopback dst))))

unfoldable pub to_net : ClientTransport → List ℕ → ClientTransport
to_net t p =
    let m = t.noise_mgr in
    if ltb (length m.tun_chan) 256
    then record t { noise_mgr = record m { tun_chan = m.tun_chan ++ (p ∷ []) } }
    else t

-- The closure of tunRecv.
unfoldable pub take_packet : ClientTransport → List ℕ → ClientTransport
unfolding takes to_net
take_packet t p =
    if ltb (length p) 20 || not (eqb (get_or p 0 0 / 16) 4)
    then t
    else if takes t.local_ip (vip_at p 16)
    then to_net t p
    else t

-- What ReceivePacket gives, and the wait after it where there is nothing.
pub data Received : Type 0 where
  packet : List ℕ → Received
  no_more_items : Received
  wait_failed : Received
  severe : Received

-- One round of tunRecv; the flag tells whether it goes on.
unfoldable pub receive_from : ClientTransport → Received → ClientTransport × Bool
unfolding take_packet
receive_from t (packet p) = (take_packet t p, true)
receive_from t no_more_items = (t, true)
receive_from t wait_failed = (t, false)
receive_from t severe = (t, true)

-- The two systems take the same packets.
pub receive_from-tun_recv :
    (t : ClientTransport) (p : List ℕ) → receive_from t (packet p) ≡ (tun_recv t p, true)
unfolding receive_from take_packet takes to_net tun_recv tun_accepts is_wanted
receive_from-tun_recv t p =
    elim (Bool-cases (ltb (length p) 20 || not (eqb (get_or p 0 0 / 16) 4))) [
      | inl e ↦ rw e refl
      | inr e ↦ rw e (elim (Bool-cases (takes t.local_ip (vip_at p 16))) [
        | inl w ↦ rw w refl
        | inr w ↦ rw w refl
      ])
    ]
