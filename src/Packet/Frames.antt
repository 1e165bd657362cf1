-- ===== src/Packet/Frames.antt =====
-- What the buffer of a received packet holds, which is what goes to the TUN device, and the whole
-- way of a packet of TypeData through EncodePacket, ParsePacket and DecryptParse.
use easytun.Base.{
  ℕ, ◌≤◌, ◌<◌, ◌^◌, ◌≡◌, ◌≢◌, refl, ap, sym, ◌∙◌, inl, inr, Bool, true, false, List, [], ◌++◌,
  Option, none, some, length, arith, drop, length-drop, subst,
}
use mathlib.Core.List.{append-nil}
use easytun.Cipher.{CipherState}
use easytun.Errors.{Error}
use easytun.Packet.Header.{max_payload_size}
use easytun.Packet.Compress.{GamePacket, Lz4, Buffer}
use easytun.Packet.Codec.{encode_packet, compress_flag, parse_packet, decrypt_parse}
use easytun.Packet.RoundTrip.{advanced, sized, sealed, encode-sealed}
use easytun.Packet.Sealed.{
  paired, sealed_wire, boxed, IsDataType, parse_packet-sealed_wire, length-sealed,
}
use easytun.Packet.EndToEnd.{
  Squeezed, squeezed, Squeezed-fits, compress_flag-Squeezed, encode_packet-flag, receive, Delivered,
  arrived, receive_opens, finish_plain, finish_compressed, sealed-Delivered,
}

-- Behind the header of 21 bytes, the buffer holds the payload, and at most 16 bytes more.
abbrev pub Framed : List ℕ → List ℕ → Type 0
Framed payload raw = (extra : List ℕ) × (drop 21 raw ≡ payload ++ extra) × (length extra ≤ 16)

sealed-Framed :
    (z : Lz4) (g g' h : GamePacket) (cs : CipherState) (n : ℕ)
    → g.ptype ≡ 8
    → 0 < length g.payload
    → length g.payload ≤ max_payload_size
    → Squeezed z g g'
    → Framed g.payload (receive z h cs n (sealed_wire g' cs)).0.raw_data
sealed-Framed z g g' h cs n t pos fits (inl e) =
    rw (e, receive_opens z g h cs n (inl t) pos fits, finish_plain z (arrived g h cs) t)
      (
        drop (length g.payload) (sealed g cs),
        refl,
        omega (arith, length-drop (length g.payload) (sealed g cs), length-sealed g cs),
      )
sealed-Framed z g g' h cs n t pos fits (inr (out, e, pos', fits', less, b)) =
    let filled : out ≢ [] = λ x. absurd (omega (arith, ap length x)) in
    let u : z.uncompress_block max_payload_size out ≡ some g.payload =
      z.uncompress-compress _ max_payload_size g.payload out b filled fits in
    rw
      (
        e,
        receive_opens z (squeezed g out) h cs n (inr refl) pos' fits',
        finish_compressed z (arrived (squeezed g out) h cs) g.payload refl u pos fits,
      )
      ([], sym (append-nil g.payload), omega arith)

-- The way of a packet under a cipher with the counter below 2 ^ 64.
pub record Carried (z : Lz4) (probe : Buffer) (compressed : Bool) (g h : GamePacket)
    (cs : CipherState) (n : ℕ) : Type 0 where
  pub sent : GamePacket
  pub is_data : IsDataType sent.ptype
  pub same_src : sent.src ≡ g.src
  pub encodes :
      encode_packet z probe g false compressed (some cs)
      ≡ (some (sealed_wire sent cs), sized sent, some (advanced cs))
  pub parses : parse_packet h (sealed_wire sent cs) true none ≡ (boxed sent h cs, none)
  pub arrives : Delivered g (decrypt_parse z (boxed sent h cs) (some (paired cs n)))
  pub framed : Framed g.payload (decrypt_parse z (boxed sent h cs) (some (paired cs n))).0.raw_data

Squeezed-src : (z : Lz4) (g g' : GamePacket) → Squeezed z g g' → g'.src ≡ g.src
Squeezed-src z g g' (inl e) = ap (λ (p : GamePacket). p.src) e
Squeezed-src z g g' (inr (out, e, p, q, r, b)) = ap (λ (p : GamePacket). p.src) e

pub encode_packet-Carried :
    (z : Lz4) (probe : Buffer) (compressed : Bool) (g h : GamePacket) (cs : CipherState) (n : ℕ)
    → g.ptype ≡ 8
    → 0 < length g.payload
    → length g.payload ≤ max_payload_size
    → cs.nonce < 2 ^ 64
    → Carried z probe compressed g h cs n
encode_packet-Carried z probe compressed g h cs n t pos fits fresh =
    let g' : GamePacket = compress_flag z probe compressed g in
    let s : Squeezed z g g' = compress_flag-Squeezed z probe compressed g t in
    let (t', pos', fits') = Squeezed-fits z g g' t pos fits s in
    let parsed = parse_packet-sealed_wire g' h cs n t' pos' fits' in
    let shut =
      ap (λ (p : GamePacket × Option Error). decrypt_parse z p.0 (some (paired cs n))) parsed in
    record {
      sent = g';
      is_data = t';
      same_src = Squeezed-src z g g' s;
      encodes =
          encode_packet-flag z probe g compressed cs fits ∙ encode-sealed g' cs pos' fits' fresh;
      parses = parsed;
      arrives = subst (Delivered g) shut (sealed-Delivered z g g' h cs n t pos fits s);
      framed =
          subst (λ (p : GamePacket × Option Error). Framed g.payload p.0.raw_data) shut
            (sealed-Framed z g g' h cs n t pos fits s);
    }
