-- ===== src/Noise/Library.antt =====
-- What noise.go uses of github.com/flynn/noise, with the pattern IK over Curve25519,
-- ChaCha20-Poly1305 and SHA-256, and of chacha20poly1305.New.
use easytun.Base.{ℕ, ◌≡◌, List, Option, some, length}
use easytun.Cipher.{Aead}

-- The state of one handshake. Its content is the library's own.
pub record HandshakeState : Type 0 where
  pub bytes : List ℕ

-- The keys of the two CipherStates that the last message of a handshake gives, in the library's
-- order, which is the same at both ends.
pub record Keys : Type 0 where
  pub first : List ℕ
  pub second : List ℕ

-- A handshake of IK is two messages. A write takes the random bytes that it draws. `none` is an
-- error. The laws: the peer whose static key was named, `public` of a private key, reads the first
-- message; the answer to a message that was read can be written; whoever wrote the first message
-- reads the answer and has the same keys; and the lengths of the messages without payloads.
pub record NoiseLibrary : Type 0 where
  pub public : List ℕ → List ℕ
  pub new_initiator : List ℕ → List ℕ → HandshakeState
  pub new_responder : List ℕ → HandshakeState
  pub write_first : HandshakeState → List ℕ → HandshakeState × Option (List ℕ)
  pub read_first : HandshakeState → List ℕ → Option HandshakeState
  pub write_second : HandshakeState → List ℕ → Option (List ℕ × Keys)
  pub read_second : HandshakeState → List ℕ → HandshakeState × Option Keys
  pub aead : List ℕ → Aead
  pub read-write_first :
      (mine theirs random msg : List ℕ)
      → (write_first (new_initiator mine (public theirs)) random).1 ≡ some msg
      → (hs : HandshakeState) × (read_first (new_responder theirs) msg ≡ some hs)
  pub read-write_second :
      (mine theirs random msg random' answer : List ℕ) (hs : HandshakeState) (keys : Keys)
      → (write_first (new_initiator mine (public theirs)) random).1 ≡ some msg
      → read_first (new_responder theirs) msg ≡ some hs
      → write_second hs random' ≡ some (answer, keys)
      → (read_second (write_first (new_initiator mine (public theirs)) random).0 answer).1
        ≡ some keys
  pub write_second-total :
      (theirs msg random : List ℕ) (hs : HandshakeState)
      → read_first (new_responder theirs) msg ≡ some hs
      → (answer : List ℕ) × (keys : Keys) × (write_second hs random ≡ some (answer, keys))
  pub length-write_first :
      (hs : HandshakeState) (random msg : List ℕ)
      → (write_first hs random).1 ≡ some msg
      → length msg ≡ 96
  pub length-write_second :
      (hs : HandshakeState) (random answer : List ℕ) (keys : Keys)
      → write_second hs random ≡ some (answer, keys)
      → length answer ≡ 48
