-- ===== src/Endpoint/Batching.antt =====
-- The rounds of packetSend in internal/transport/client_udp.go: up to 32 packets of FromTun are gathered
-- and then sent. The table of peers that a round loads is the one of all its packets, since sending
-- leaves the table alone.
use easytun.Base.{
  ℕ, zero, suc, ◌≡◌, ◌≤◌, refl, ap, ◌∙◌, sym, inl, inr, Bool, true, List, [], ◌∷◌, length, ltb, eqb,
  get_or, if◌then◌else◌, Bool-cases, Option, none, some, arith,
}
use easytun.Base.Bytes.{vip_at}
use easytun.Cipher.{is_ready}
use easytun.Packet.Compress.{Lz4, Buffer}
use easytun.Noise.Session.{NoiseSession}
use easytun.Noise.Manager.{get_session, set_session}
use easytun.Endpoint.Transport.{ClientTransport, send_control}
use easytun.Endpoint.Peers.{packet_path}
use easytun.Endpoint.Sending.{packet_send, is_dns, send_plain, send_sealed, seal_with}

-- FromTun with these packets in it.
abbrev pub with_tun : ClientTransport → List (List ℕ) → ClientTransport
with_tun t items = let m = t.noise_mgr in record t { noise_mgr = record m { tun_chan = items } }

-- DrainLoop: what it adds to the batch, with room for `n` more, and what it leaves in FromTun. A packet
-- of fewer than 20 bytes is taken and not counted.
unfoldable pub gather : ℕ → List (List ℕ) → List (List ℕ) × List (List ℕ)
gather zero items = ([], items)
gather (suc n) [] = ([], [])
gather (suc n) (p ∷ items) =
    let (batch, rest) = gather n items in
    let (batch', rest') = gather (suc n) items in
    if ltb (length p) 20 then (batch', rest') else (p ∷ batch, rest)

module _ (z : Lz4) (probe : Buffer) (compressed : Bool) (now : ℕ) where
  unfoldable pub send_all : ClientTransport → List (List ℕ) → ClientTransport
  send_all t [] = t
  send_all t (p ∷ batch) = send_all (packet_send z probe compressed t now p) batch

  -- The packet that begins a round, with room for `n` after it.
  unfoldable pub round_from : ℕ → ClientTransport → List (List ℕ) → ClientTransport
  unfolding gather send_all
  round_from n t [] = t
  round_from n t (p ∷ items) =
      let (batch, rest) = gather n items in
      if ltb (length p) 20 then with_tun t items else send_all (with_tun t rest) (p ∷ batch)

  -- One round.
  unfoldable pub send_round : ClientTransport → ClientTransport
  unfolding round_from
  send_round t = round_from 31 t t.noise_mgr.tun_chan

  -- One packet at a time, whatever its length.
  unfoldable pub send_one : ClientTransport → List (List ℕ) → ClientTransport
  send_one t [] = t
  send_one t (p ∷ items) = packet_send z probe compressed (with_tun t items) now p

  unfoldable pub send_singly : ℕ → ClientTransport → ClientTransport
  unfolding send_one
  send_singly zero t = t
  send_singly (suc k) t = send_singly k (send_one t t.noise_mgr.tun_chan)

  send_sealed-with_tun :
      (t : ClientTransport) (items : List (List ℕ)) (p : List ℕ) (s : Option NoiseSession)
      → send_sealed z probe compressed (with_tun t items) now (vip_at p 16) p s
        ≡ with_tun (send_sealed z probe compressed t now (vip_at p 16) p s) items
  unfolding send_sealed seal_with send_control set_session packet_path
  send_sealed-with_tun t items p none = refl
  send_sealed-with_tun t items p (some s) = elim (Bool-cases (is_ready s.cipher)) [
    | inl e ↦ rw e refl
    | inr e ↦ rw e refl
  ]

  -- Sending leaves FromTun alone, and does not look at it.
  packet_send-with_tun :
      (t : ClientTransport) (items : List (List ℕ)) (p : List ℕ)
      → packet_send z probe compressed (with_tun t items) now p
        ≡ with_tun (packet_send z probe compressed t now p) items
  unfolding packet_send send_plain is_dns packet_path get_session
  packet_send-with_tun t items p = elim (Bool-cases (ltb (length p) 20)) [
    | inl e ↦ rw e refl
    | inr e ↦ rw e (elim (Bool-cases (is_dns t p)) [
      | inl d ↦ rw d refl
      | inr d ↦ rw d (elim (Bool-cases (eqb (get_or p 19 0) 255)) [
        | inl u ↦ rw u refl
        | inr u ↦ rw u (send_sealed-with_tun t items p (get_session t.noise_mgr (vip_at p 16)))
      ])
    ])
  ]

  send_all-with_tun :
      (batch : List (List ℕ)) (t : ClientTransport) (items : List (List ℕ))
      → send_all (with_tun t items) batch ≡ with_tun (send_all t batch) items
  unfolding send_all
  send_all-with_tun [] t items = refl
  send_all-with_tun (p ∷ batch) t items =
      ap (λ (u : ClientTransport). send_all u batch) (packet_send-with_tun t items p)
      ∙ send_all-with_tun batch (packet_send z probe compressed t now p) items

  send_one-short :
      (t : ClientTransport) (p : List ℕ) (items : List (List ℕ))
      → ltb (length p) 20 ≡ true
      → send_one t (p ∷ items) ≡ with_tun t items
  unfolding send_one packet_send
  send_one-short t p items e = rw e refl

  gather-send_singly :
      (items : List (List ℕ)) (n : ℕ) (t : ClientTransport)
      → (k : ℕ) × (send_all (with_tun t (gather n items).1) (gather n items).0
          ≡ send_singly k (with_tun t items))
  unfolding gather send_all send_singly
  gather-send_singly items zero t = (zero, refl)
  gather-send_singly [] (suc n) t = (zero, refl)
  gather-send_singly (p ∷ items) (suc n) t = elim (Bool-cases (ltb (length p) 20)) [
    | inl e ↦
        let (k, same) = gather-send_singly items (suc n) t in
        (suc k, rw (e, send_one-short (with_tun t (p ∷ items)) p items e) same)
    | inr e ↦
        let (k, same) = gather-send_singly items n (packet_send z probe compressed t now p) in
        (
          suc k,
          rw e (
              ap (λ (u : ClientTransport). send_all u (gather n items).0)
                (packet_send-with_tun t (gather n items).1 p)
              ∙ same
              ∙ ap (send_singly k) (sym (packet_send-with_tun t items p))),
        )
  ]

  round_from-send_singly :
      (items : List (List ℕ)) (n : ℕ) (t : ClientTransport)
      → (k : ℕ) × (round_from n (with_tun t items) items ≡ send_singly k (with_tun t items))
        × (1 ≤ length items → 1 ≤ k)
  unfolding round_from send_singly send_all
  round_from-send_singly [] n t = (zero, refl, λ h. absurd (omega arith))
  round_from-send_singly (p ∷ items) n t = elim (Bool-cases (ltb (length p) 20)) [
    | inl e ↦ (1, rw e (sym (send_one-short (with_tun t (p ∷ items)) p items e)), λ h. omega arith)
    | inr e ↦
        let (k, same) = gather-send_singly items n (packet_send z probe compressed t now p) in
        (
          suc k,
          rw e (
              ap (λ (u : ClientTransport). send_all u (gather n items).0)
                (packet_send-with_tun t (gather n items).1 p)
              ∙ same
              ∙ ap (send_singly k) (sym (packet_send-with_tun t items p))),
          λ h. omega arith,
        )
  ]

  -- A round of packetSend leaves the client as some number of single packets do, taken from FromTun
  -- one after the other and sent: the same goes out, in the same order, and the same is left in the
  -- queue. It takes at least one, if there is one.
  pub send_round-send_singly :
      (t : ClientTransport)
      → (k : ℕ) × (send_round t ≡ send_singly k t) × (1 ≤ length t.noise_mgr.tun_chan → 1 ≤ k)
  unfolding send_round
  send_round-send_singly t = round_from-send_singly t.noise_mgr.tun_chan 31 t
