-- ===== src/Cipher.antt =====
-- internal/protocol/cipher.go: the AEAD of a session and its counters.
use easytun.Base.{ℕ, ◌+◌, ◌-◌, ◌%◌, ◌^◌, ◌≡◌, Bool, List, ◌++◌, Option, none, some, length, eqb}

-- cipher.AEAD of crypto/cipher, with what its documentation promises: `Open` undoes `Seal` under
-- the same key, nonce and additional data, and `Seal` adds a tag of 16 bytes.
pub record Aead : Type 0 where
  pub seal : List ℕ → List ℕ → List ℕ → List ℕ
  pub open_box : List ℕ → List ℕ → List ℕ → Option (List ℕ)
  pub open-seal :
      (nonce plain header : List ℕ) → open_box nonce (seal nonce plain header) header ≡ some plain
  pub length-seal :
      (nonce plain header : List ℕ) → length (seal nonce plain header) ≡ length plain + 16

pub record CipherState : Type 0 where
  pub aead : Aead
  pub nonce : ℕ

-- CipherInit and CipherReady
abbrev pub cipher_init : ℕ
cipher_init = 1

abbrev pub cipher_ready : ℕ
cipher_ready = 2

pub record Cipher : Type 0 where
  pub recver : Option CipherState
  pub sender : Option CipherState
  pub status : ℕ

unfoldable pub new_chacha : Cipher
new_chacha = record { recver = none; sender = none; status = cipher_init }

ready : Cipher → Cipher
ready c = record c { status = cipher_ready }

-- chacha20poly1305.New fails only on a key that is not 32 bytes long, and both are [32]byte; so
-- the AEADs of the two keys are the arguments.
unfoldable pub init : Cipher → Aead → Aead → Cipher
unfolding ready
init c recv_aead send_aead = ready (record c {
  recver = some (record { aead = recv_aead; nonce = 0 });
  sender = some (record { aead = send_aead; nonce = 0 });
})

unfoldable pub is_ready : Cipher → Bool
is_ready c = eqb c.status cipher_ready

-- atomic.AddUint64(&cs.nonce, 1) - 1
unfoldable pub get_nonce : CipherState → ℕ × CipherState
get_nonce cs =
    let new = (cs.nonce + 1) % 2 ^ 64 in ((new + 2 ^ 64 - 1) % 2 ^ 64, record cs { nonce = new })

-- `Seal` appends to `dst`.
unfoldable pub encrypt : CipherState → List ℕ → List ℕ → List ℕ → List ℕ → List ℕ
encrypt cs dst nonce payload header = dst ++ cs.aead.seal nonce payload header

-- Every call passes a `dst` of length 0, so the result is the plaintext alone.
unfoldable pub decrypt : CipherState → List ℕ → List ℕ → List ℕ → Option (List ℕ)
decrypt cs nonce payload header = cs.aead.open_box nonce payload header
