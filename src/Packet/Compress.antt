-- ===== src/Packet/Compress.antt =====
-- internal/protocol/compress.go over the packet of packet.go. LZ4 is a parameter.
use easytun.Base.{
  ℕ, ◌≤◌, ◌≡◌, Bool, true, false, ◌||◌, List, [], ◌++◌, Option, none, some, length, take, ltb, leb,
  eqb, ◌≢◌, if◌then◌else◌,
}
use easytun.Base.Bytes.{Vip}
use easytun.Errors.{Error, decompress_failed, bad_decompressed_length}
use easytun.Packet.Header.{payload_length_field, max_payload_size, header_length}

-- `raw_data` is the buffer of a received packet, [] for nil.
pub record GamePacket : Type 0 where
  pub src : Vip
  pub dst : Vip
  pub ptype : ℕ
  pub payload : List ℕ
  pub raw_data : List ℕ
  pub len : ℕ

-- github.com/pierrec/lz4/v4: `compress_block n src` writes to a buffer of length n; `none` is an
-- error, and [] the count 0 by which the library says that the block is incompressible. The law is
-- its documented round trip, where the buffer is large enough for the original.
pub record Lz4 : Type 0 where
  pub compress_block_bound : ℕ → ℕ
  pub compress_block : ℕ → List ℕ → Option (List ℕ)
  pub uncompress_block : ℕ → List ℕ → Option (List ℕ)
  pub uncompress-compress :
      (n m : ℕ) (src out : List ℕ)
      → compress_block n src ≡ some out
      → out ≢ []
      → length src ≤ m
      → uncompress_block m out ≡ some src

-- What sync.Pool hands out: any length and capacity may come.
pub record Buffer : Type 0 where
  pub buf_len : ℕ
  pub cap : ℕ

abbrev pub length_or_zero : Option ℕ → ℕ
length_or_zero none = 0
length_or_zero (some n) = n

-- A new probe buffer has length `probeLen`; a pooled one keeps the length that it came with.
unfoldable pub probe_length : Lz4 → Buffer → ℕ
probe_length z b =
    if ltb b.cap (z.compress_block_bound 64) then z.compress_block_bound 64 else b.buf_len

unfoldable pub probe_ok : Option (List ℕ) → Bool
probe_ok none = false
probe_ok (some out) = leb (length out) 50

-- The second block: kept if it is shorter than the payload and fits a packet.
unfoldable pub take_block : GamePacket → Option (List ℕ) → Bool × GamePacket
take_block g none = (false, g)
take_block g (some out) =
    if leb (length g.payload) (length out)
      || (eqb (length out) 0 || ltb max_payload_size (length out))
    then (false, g)
    else (
      true,
      record g { payload = out; len = length_or_zero (payload_length_field (length out)) },
    )

-- The destination of the full block always has the length of its bound.
unfoldable pub compress : Lz4 → Buffer → GamePacket → Bool × GamePacket
unfolding probe_length probe_ok take_block
compress z probe g =
    if leb (length g.payload) 128
    then (false, g)
    else if probe_ok (z.compress_block (probe_length z probe) (take 64 g.payload))
    then take_block g (z.compress_block (z.compress_block_bound (length g.payload)) g.payload)
    else (false, g)

-- Where the result does not fit the old buffer, the source copies the header to a new one: the
-- bytes are the same.
unfoldable pub take_plain : GamePacket → Option (List ℕ) → GamePacket × Option Error
take_plain g none = (g, some decompress_failed)
take_plain g (some out) =
    if eqb (length out) 0 || ltb max_payload_size (length out)
    then (g, some bad_decompressed_length)
    else (record g { payload = out; raw_data = take header_length g.raw_data ++ out }, none)

unfoldable pub decompress : Lz4 → GamePacket → GamePacket × Option Error
unfolding take_plain
decompress z g = take_plain g (z.uncompress_block max_payload_size g.payload)
