-- ===== src/Hub/Pumps/Writing.antt =====
-- What writePump of internal/transport/server_ws.go puts on the websocket for the packets of its
-- channel.
use easytun.Base.{
  ℕ, ◌≡◌, ◌≤◌, refl, ap, sym, ◌∙◌, Bool, true, false, List, [], ◌∷◌, ◌++◌, length, eqb, inl, inr,
  if◌then◌else◌, Bool-cases, none, All,
}
use mathlib.Core.List.{append_assoc, append-nil}
use easytun.Packet.Compress.{GamePacket, Lz4, Buffer}
use easytun.Packet.Codec.{parse_control, empty_packet}
use easytun.Packet.Header.{max_payload_size}
use easytun.Packet.Wire.{IsWireType}
use easytun.Packet.RoundTrip.{received}
use easytun.Packet.PType
use easytun.Endpoint.Introducing.{control-Carried}
use easytun.Hub.Pumps.{
  WsMessage, pong_frame, binary, Failure, no_writer, not_closed, Writer, writes, fails, Pump,
  message_for, bytes_for, write_binary, write_control, write_pong, write_from, write_pump,
}

abbrev pub IsSendable : GamePacket → Type 0
IsSendable gp = IsWireType gp.ptype × (length gp.payload ≤ max_payload_size)

-- What the other end makes of a message: a pong, or bytes that ParseControl reads as the packet.
abbrev pub Conveys : GamePacket → WsMessage → Type 0
Conveys gp pong_frame = eqb gp.ptype PType.pong ≡ true
Conveys gp (binary bytes) =
    (eqb gp.ptype PType.pong ≡ false)
    × (parse_control empty_packet bytes ≡ (received gp empty_packet, none))

-- One message for each packet, in their order.
abbrev pub ConveysAll : List GamePacket → List WsMessage → Type 0
ConveysAll [] [] = Unit {0}
ConveysAll [] (f ∷ frames) = ⊥
ConveysAll (gp ∷ gps) [] = ⊥
ConveysAll (gp ∷ gps) (f ∷ frames) = Conveys gp f × ConveysAll gps frames

abbrev pub successes : List GamePacket → List Writer → List Writer
successes [] ws = ws
successes (gp ∷ gps) ws = writes ∷ successes gps ws

-- writePump in its loop, with these packets in the channel.
abbrev pub pump_of : List GamePacket → ℕ → List WsMessage → Bool → Pump
pump_of items n frames cancelled = record {
  queue = record { items = items; cap = n };
  frames = frames;
  cancelled = cancelled;
  returned = false;
}

-- What writePump, stopping, leaves of the context: whether it is cancelled, after and before.
abbrev pub Stopped : Failure → Bool → Bool → Type 0
Stopped no_writer before after = after ≡ true
Stopped not_closed before after = after ≡ before

module _ (z : Lz4) (probe : Buffer) where
  -- The message for a packet that goes out.
  write_control-Conveys :
      (gp : GamePacket) (items : List GamePacket) (n : ℕ) (frames : List WsMessage) (b : Bool)
      → IsSendable gp
      → (f : WsMessage) × Conveys gp f
        × (write_control z probe writes gp (pump_of items n frames b)
            ≡ pump_of items n (frames ++ (f ∷ [])) b)
  unfolding write_control write_pong write_binary message_for bytes_for
  write_control-Conveys gp items n frames b (t, fits) =
      elim (Bool-cases (eqb gp.ptype PType.pong)) [
        | inl e ↦ (pong_frame, e, rw e refl)
        | inr e ↦
            let (bs, wrote, read) = control-Carried z probe gp empty_packet t fits in
            (binary bs, (e, read), rw (e, wrote) refl)
      ]

  failure-Stopped :
      (failure : Failure) (gp : GamePacket) (items : List GamePacket) (n : ℕ)
      (frames : List WsMessage) (b : Bool)
      → eqb gp.ptype PType.pong ≡ false
      → let p = write_control z probe (fails failure) gp (pump_of items n frames b) in
        (p.frames ≡ frames)
        × (p.queue.items ≡ items)
        × (p.returned ≡ true)
        × Stopped failure b p.cancelled
  unfolding write_control write_binary
  failure-Stopped no_writer gp items n frames b e = rw e (refl, refl, refl, refl)
  failure-Stopped not_closed gp items n frames b e = rw e (refl, refl, refl, refl)

  returned-write_pump :
      (ws : List Writer) (p : Pump) → p.returned ≡ true → write_pump z probe ws p ≡ p
  unfolding write_pump
  returned-write_pump [] p e = refl
  returned-write_pump (w ∷ ws) p e =
      ap
        (λ (r : Bool).
          if r then p else write_pump z probe ws (write_from z probe w p.queue.items p))
        e

  -- writePump with packets in its channel, of which each before the failing one has a type without
  -- the flag, or is of TypeData with it, and at most 65519 bytes of payload, and whose writes go well
  -- up to the one that fails, which is for a packet that is no pong. It has put one message on the
  -- websocket for each packet before, in their order, and nothing more: a pong for a pong, and else
  -- bytes that ParseControl reads back as the packet. It has returned: whatever writes could follow,
  -- the packets behind stay in the channel, and the packet whose write failed is lost. Where
  -- NextWriter fails, the context is cancelled; where the Close of the writer fails, it stays as it
  -- was.
  pub write_pump-Stopped :
      (gps : List GamePacket) (gp : GamePacket) (rest : List GamePacket) (n : ℕ)
      (frames : List WsMessage) (b : Bool) (failure : Failure) (more : List Writer)
      → All IsSendable gps
      → eqb gp.ptype PType.pong ≡ false
      → let p =
          write_pump z probe
            (successes gps (fails failure ∷ more))
            (pump_of (gps ++ (gp ∷ rest)) n frames b) in
        (sent : List WsMessage) × ConveysAll gps sent
        × (p.frames ≡ frames ++ sent)
        × Stopped failure b p.cancelled
        × (p.returned ≡ true)
        × (p.queue.items ≡ rest)
  unfolding write_pump write_from
  write_pump-Stopped [] gp rest n frames b failure more each e =
      let (out, left, returned, stopped) = failure-Stopped failure gp rest n frames b e in
      let stays =
        returned-write_pump more
          (write_control z probe (fails failure) gp (pump_of rest n frames b)) returned in
      rw stays ([], tt, out ∙ sym (append-nil frames), stopped, returned, left)
  write_pump-Stopped (x ∷ gps) gp rest n frames b failure more each e =
      let (f, conveys, one) = write_control-Conveys x (gps ++ (gp ∷ rest)) n frames b each.0 in
      let (sent, all, out, stopped, returned, left) =
        write_pump-Stopped gps gp rest n (frames ++ (f ∷ [])) b failure more each.1 e in
      rw one
        (f ∷ sent, (conveys, all), out ∙ append_assoc frames (f ∷ []) sent, stopped, returned, left)
