-- ===== src/Noise/Spared.antt =====
-- Packets of one address and the sessions of the others, in NoiseManager.
use easytun.Base.{
  ℕ, ◌≡◌, refl, ◌∙◌, inl, inr, true, false, List, Option, none, some, ◌==◌, Bool-cases,
  Option-cases, ◌&&◌, leb, length,
}
use easytun.Base.Assoc.{lookup-insert}
use easytun.Base.Keys.{
  IsDistinct, insert-IsDistinct, delete_if-IsDistinct, lookup-delete_if, unless,
}
use easytun.Base.Bytes.{Vip, vip_eq}
use easytun.Cipher.{is_ready}
use easytun.Tunnel.Key.{vip_lt}
use easytun.Noise.Library.{NoiseLibrary, HandshakeState, Keys}
use easytun.Noise.Session.{NoiseSession, is_timeout, send_all_pending_data}
use easytun.Noise.Manager.{
  NoiseManager, handle_noise_packet, handle_pending, handle_responder_first, respond, complete,
  read_answer, store_and_flush, sweep_sessions, get_session, set_session,
}

-- Sweeping takes away the sessions that were last seen longer ago than the timeout, and leaves
-- every other as it is, in a map where an address stands once; it stays such a map.
pub sweep_sessions_lem :
    (m : NoiseManager) (now timeout : ℕ) (v : Vip)
    → IsDistinct m.sessions
    → (get_session (sweep_sessions now timeout m) v
        ≡ unless (is_timeout now timeout) (get_session m v))
      × IsDistinct (sweep_sessions now timeout m).sessions
unfolding sweep_sessions get_session
sweep_sessions_lem m now timeout v h = (
  lookup-delete_if (λ key s. is_timeout now timeout s) v m.sessions h,
  delete_if-IsDistinct (λ key s. is_timeout now timeout s) m.sessions h,
)

-- The session of `v` is what it was.
abbrev pub Spared : Vip → NoiseManager → NoiseManager → Type 0
Spared v m m' = (get_session m' v ≡ get_session m v) × IsDistinct m'.sessions

pub set_session-Spared :
    (m : NoiseManager) (w v : Vip) (s : NoiseSession)
    → IsDistinct m.sessions
    → w == v ≡ false
    → Spared v m (set_session m w s)
unfolding set_session get_session
set_session-Spared m w v s h apart =
    (lookup-insert w v s m.sessions ∙ rw apart, insert-IsDistinct w s m.sessions h)

module _ (lib : NoiseLibrary) (m : NoiseManager) (w v : Vip) (now : ℕ) (random bytes : List ℕ)
    (h : IsDistinct m.sessions) (apart : w == v ≡ false) where
  store_and_flush-Spared : (s : NoiseSession) → Spared v m (store_and_flush lib m w s)
  unfolding store_and_flush send_all_pending_data set_session get_session
  store_and_flush-Spared s =
      (lookup-insert w v _ m.sessions ∙ rw apart, insert-IsDistinct w _ m.sessions h)

  respond-Spared : (hs : HandshakeState) → Spared v m (respond lib m now random w hs).0
  unfolding respond
  respond-Spared hs = elim (Option-cases (lib.write_second hs random)) [
    | inl e ↦ rw (e, respond) (refl, h)
    | inr ((msg, keys), e) ↦ rw (e, respond) (store_and_flush-Spared _)
  ]

  first-Spared : Spared v m (handle_responder_first lib m now random w bytes).0
  unfolding handle_responder_first
  first-Spared = elim (Option-cases (lib.read_first (lib.new_responder m.static_priv) bytes)) [
    | inl e ↦ rw (e, handle_responder_first) (refl, h)
    | inr (hs, e) ↦ rw (e, handle_responder_first) (respond-Spared hs)
  ]

  complete-Spared :
      (s : NoiseSession) (hs : HandshakeState) (o : Option Keys)
      → Spared v m (complete lib m w s (hs, o)).0
  unfolding complete
  complete-Spared s hs none = set_session-Spared m w v _ h apart
  complete-Spared s hs (some keys) = store_and_flush-Spared _

  read_answer-Spared :
      (s : NoiseSession) (o : Option HandshakeState) → Spared v m (read_answer lib m w s bytes o).0
  unfolding read_answer
  read_answer-Spared s none = (refl, h)
  read_answer-Spared s (some hs) =
      let (hs', o) = lib.read_second hs bytes in complete-Spared s hs' o

  pending-Spared : (s : NoiseSession) → Spared v m (handle_pending lib m now random w bytes s).0
  unfolding handle_pending
  pending-Spared s = elim (Bool-cases (s.is_initiator && leb 64 (length bytes))) [
    | inl e ↦ elim (Bool-cases (vip_lt w m.my_vip)) [
      | inl f ↦ rw (e, f, handle_pending) first-Spared
      | inr f ↦ rw (e, f, handle_pending) (refl, h)
    ]
    | inr e ↦ elim (Bool-cases s.is_initiator) [
      | inl f ↦
          rw (e, f, handle_pending) (read_answer-Spared (record s { is_initiator = true }) s.hs)
      | inr f ↦ rw (e, f, handle_pending) (refl, h)
    ]
  ]

  pub handle_noise_packet-Spared : Spared v m (handle_noise_packet lib m now random w bytes).0
  unfolding handle_noise_packet
  handle_noise_packet-Spared = elim (Option-cases (get_session m w)) [
    | inl e ↦ rw (e, handle_noise_packet) first-Spared
    | inr (s, e) ↦ elim (Bool-cases (is_ready s.cipher)) [
      | inl f ↦ rw (e, handle_noise_packet, f) (refl, h)
      | inr f ↦ rw (e, handle_noise_packet, f) (pending-Spared s)
    ]
  ]
