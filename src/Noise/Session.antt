-- ===== src/Noise/Session.antt =====
-- NoiseSession of internal/protocol/noise.go. The clock is an argument.
use easytun.Base.{ℕ, ◌-◌, Bool, true, false, List, [], ◌++◌, Option, ltb, if◌then◌else◌}
use easytun.Base.Bytes.{Vip}
use easytun.Cipher.{Cipher, new_chacha}
use easytun.Hub.State.{Chan, make_chan, try_send}
use easytun.Noise.Library.{HandshakeState}

pub record NoiseSession : Type 0 where
  pub remote_vip : Vip
  pub cipher : Cipher
  pub hs : Option HandshakeState
  pub is_initiator : Bool
  pub last_seen : ℕ
  pub pending_chan : Chan (List ℕ)
  pub pending_closed : Bool

unfoldable pub new_noise_session : ℕ → Vip → Bool → Option HandshakeState → NoiseSession
new_noise_session now remote_vip is_initiator hs = record {
  remote_vip = remote_vip;
  cipher = new_chacha;
  hs = hs;
  is_initiator = is_initiator;
  last_seen = now;
  pending_chan = make_chan 24;
  pending_closed = false;
}

unfoldable pub update_last_seen : ℕ → NoiseSession → NoiseSession
update_last_seen now s = record s { last_seen = now }

-- A clock that went back gives a difference that is not above the timeout.
unfoldable pub is_timeout : ℕ → ℕ → NoiseSession → Bool
is_timeout now timeout s = ltb timeout (now - s.last_seen)

-- The loop takes everything out of the closed channel. Its sends wait for room, so all arrive, in
-- order, at the end of what `recv` holds.
unfoldable pub send_all_pending_data : NoiseSession → List (List ℕ) → NoiseSession × List (List ℕ)
send_all_pending_data s recv =
    let queue = s.pending_chan in
    (record s { pending_chan = record queue { items = [] } }, recv ++ s.pending_chan.items)

unfoldable pub close_pending : NoiseSession → NoiseSession
close_pending s = record s { pending_closed = true }

-- With the test and the send in one step: no other goroutine closes the channel in between.
unfoldable pub add_pending_data : List ℕ → NoiseSession → NoiseSession
add_pending_data bytes s =
    if s.pending_closed then s else record s { pending_chan = try_send s.pending_chan bytes }
