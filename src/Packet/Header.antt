-- ===== src/Packet/Header.antt =====
-- The header of a packet: packet.go, its constants, payloadLengthField, parseHeader and
-- validPayloadLength.
use Prim.Native.Nat.{bit_and}
use easytun.Base.{
  ℕ, ◌+◌, ◌-◌, ◌%◌, ◌^◌, Bool, false, not, ◌&&◌, ◌||◌, List, Option, none, some, length, get_or,
  ltb, leb, eqb, if◌then◌else◌,
}
use easytun.Base.Bytes.{Vip, vip_at, u16_at}
use easytun.Packet.PType
use easytun.Errors.{Result, ok, err, packet_too_short, payload_mismatch, invalid_magic}

abbrev pub magic_number : ℕ
magic_number = 0xdaaa

abbrev pub nonce_length : ℕ
nonce_length = 12

abbrev pub header_length : ℕ
header_length = 9 + nonce_length

abbrev pub tag_length : ℕ
tag_length = 16

abbrev pub max_length_field : ℕ
max_length_field = 2 ^ 16 - 1

abbrev pub max_packet_size : ℕ
max_packet_size = header_length + max_length_field

abbrev pub max_payload_size : ℕ
max_payload_size = max_length_field - tag_length

-- payloadLengthMode
pub data Mode : Type 0 where
  plaintext ciphertext data_compat : Mode

-- `p & FlagCompress != 0` and `p &^ FlagCompress`
abbrev pub has_flag : ℕ → Bool
has_flag p = not (eqb (bit_and p 0x80) 0)

abbrev pub clear_flag : ℕ → ℕ
clear_flag p = bit_and p 0x7f

-- `none` is Go's (0, false). The length of a slice is not negative.
unfoldable pub payload_length_field : ℕ → Option ℕ
payload_length_field n =
    if ltb max_payload_size n
    then none
    else if eqb n 0
    then some 0
    else some ((n + tag_length) % 2 ^ 16)

unfoldable pub valid_payload_length : ℕ → ℕ → Mode → Bool
valid_payload_length actual len Mode.plaintext =
    if eqb len 0
    then eqb actual 0
    else if leb len tag_length
    then false
    else eqb actual (len - tag_length)
valid_payload_length actual len Mode.ciphertext = if eqb len 0 then eqb actual 0 else eqb actual len
valid_payload_length actual len Mode.data_compat =
    if eqb len 0
    then eqb actual 0
    else eqb actual len || (ltb tag_length len && eqb actual (len - tag_length))

-- The values that parseHeader returns beside the error.
pub record Header : Type 0 where
  pub ptype : ℕ
  pub dst : Vip
  pub src : Vip
  pub len : ℕ

abbrev pub header_at : List ℕ → Header
header_at bs = record {
  ptype = get_or bs 2 0;
  dst = vip_at bs 3;
  src = vip_at bs 9;
  len = u16_at bs 7;
}

unfoldable pub parse_header : List ℕ → Mode → Result Header
parse_header bs mode =
    if ltb (length bs) header_length
    then err packet_too_short
    else if ltb max_packet_size (length bs)
    then err payload_mismatch
    else if not (eqb (u16_at bs 0) magic_number)
    then err invalid_magic
    else if has_flag (get_or bs 2 0) && not (eqb (clear_flag (get_or bs 2 0)) PType.data_type)
    then err payload_mismatch
    else if not (valid_payload_length (length bs - header_length) (u16_at bs 7) mode)
    then err payload_mismatch
    else ok (header_at bs)
