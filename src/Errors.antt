-- ===== src/Errors.antt =====
-- internal/errorcode/errorcode.go, and the errors that the modelled functions make themselves.

-- The first five are the variables of errorcode.go. The rest stand for the errors that come from a
-- library (the AEAD, LZ4, Noise, the DNS codec) or from `errors.New` and `fmt.Errorf`.
pub data Error : Type 0 where
  invalid_magic payload_mismatch packet_too_short missing_public_key parse_dns_error : Error
  open_failed decompress_failed bad_decompressed_length : Error
  handshake_failed collision invalid_state : Error
  no_virtual_ip dns_codec_failed : Error

-- Go's (value, error) pair, where the value is used only if the error is nil.
pub data Result {ℓ} (A : Type ℓ) : Type ℓ where
  ok : A → Result A
  err : Error → Result A
