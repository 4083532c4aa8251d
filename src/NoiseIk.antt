-- ===== src/NoiseIk.antt =====
-- The Noise IK responder: firmware/noise_ik.h and firmware/noise_ik.c. The cryptography is mbedTLS's
-- and a parameter. A step returns `none` where the code's return value is not 0.
pub mod Transport
pub mod Handshake
mod Tests
use picobridge.Prelude.{
  ℕ, Bool, false, Option, none, some, List, [], ◌∷◌, ◌++◌, length, take, drop, get_or, set,
  replicate, ltb, if◌then◌else◌, bit_and, bit_or,
}
use picobridge.Prelude.Text.{codes}
use picobridge.ControllerStore.Types.{slot_count, role_none}

abbrev pub key_len : ℕ
key_len = 32

abbrev pub tag_len : ℕ
tag_len = 16

abbrev pub init_message_len : ℕ
init_message_len = 80

abbrev pub response_len : ℕ
response_len = 53

abbrev pub max_plaintext : ℕ
max_plaintext = 1038

-- The protocol's name, without its closing zero.
abbrev pub protocol_name : List ℕ
protocol_name = codes "Noise_IK_25519_ChaChaPoly_SHA256"

-- The calls of mbedTLS: SHA-256, HKDF to 64 bytes with no salt but the chaining key, the X25519
-- product for a clamped key, and ChaCha20-Poly1305 with a key, a nonce and associated data. A call
-- that fails is `none`.
pub record Crypto : Type 0 where
  pub sha256 : List ℕ → Option (List ℕ)
  pub hkdf : List ℕ → List ℕ → Option (List ℕ)
  pub x25519 : List ℕ → List ℕ → Option (List ℕ)
  pub encrypt_and_tag : List ℕ → List ℕ → List ℕ → List ℕ → Option (List ℕ)
  pub auth_decrypt : List ℕ → List ℕ → List ℕ → List ℕ → List ℕ → Option (List ℕ)

-- `noise_ik_ctx_t`. The pointer to the controllers is an argument of the handshake instead: the
-- store that it points at when the handshake runs.
pub record Session : Type 0 where
  pub device_static_priv : List ℕ
  pub device_static_pub : List ℕ
  pub authenticated_slot : ℕ
  pub authenticated_role : ℕ
  pub key : List ℕ
  pub receive_key : List ℕ
  pub send_key : List ℕ
  pub ck : List ℕ
  pub h : List ℕ
  pub nonce_counter : ℕ
  pub receive_nonce : ℕ
  pub send_nonce : ℕ
  pub ready : Bool

-- A step that may fail; what it has written stays written.
abbrev pub Step : Type 0 → Type 0
Step A = Session → Option A × Session

module _ {A : Type 0} where
  abbrev pub pure : A → Step A
  pure a s = (some a, s)

  abbrev pub fail : Step A
  fail s = (none, s)

  -- A call of mbedTLS.
  abbrev pub call : Option A → Step A
  call o s = (o, s)

  abbrev pub gets : (Session → A) → Step A
  gets f s = (some (f s), s)

abbrev pub modify : (Session → Session) → Step (Unit {0})
modify f s = (some tt, f s)

infixl 5 ◌>>=◌ ◌>>◌
abbrev pub ◌>>=◌ : {A B : Type 0} → Step A → (A → Step B) → Step B
◌>>=◌ m f s = let (r, s') = m s in elim r [ none ↦ (none, s') | some a ↦ f a s' ]

abbrev pub ◌>>◌ : {A B : Type 0} → Step A → Step B → Step B
m >> k = m >>= λ _. k

abbrev pub fail_if : Bool → Step (Unit {0})
fail_if c s = (if c then none else some tt, s)

-- The clamping of RFC 7748 by which `x25519_dh` begins.
unfoldable pub clamp : List ℕ → List ℕ
clamp priv =
    let low = set priv 0 (bit_and (get_or priv 0 0) 0xf8) in
    set low 31 (bit_or (bit_and (get_or low 31 0) 0x7f) 0x40)

-- The fields that `reset_handshake_state` clears before it computes the first hash.
abbrev pub cleared : Session → Session
cleared s = record s {
  ready = false;
  authenticated_slot = slot_count;
  authenticated_role = role_none;
  nonce_counter = 0;
  receive_nonce = 0;
  send_nonce = 0;
  key = replicate key_len 0;
  receive_key = replicate key_len 0;
  send_key = replicate key_len 0;
}

-- A context of zeros, from which `noise_ik_init` starts.
abbrev pub blank_session : List ℕ → Session
blank_session priv = record {
  device_static_priv = priv;
  device_static_pub = replicate key_len 0;
  authenticated_slot = 0;
  authenticated_role = 0;
  key = replicate key_len 0;
  receive_key = replicate key_len 0;
  send_key = replicate key_len 0;
  ck = replicate key_len 0;
  h = replicate key_len 0;
  nonce_counter = 0;
  receive_nonce = 0;
  send_nonce = 0;
  ready = false;
}

module _ (crypto : Crypto) where
  unfoldable pub x25519_dh : List ℕ → List ℕ → Option (List ℕ)
  x25519_dh priv public = crypto.x25519 (clamp priv) public

  unfoldable pub mix_hash : List ℕ → Step (Unit {0})
  mix_hash input = do
    fail_if (ltb init_message_len (length input))
    h ← gets (λ s. s.h)
    digest ← call (crypto.sha256 (h ++ input))
    modify (λ s. record s { h = digest })

  unfoldable pub mix_key : List ℕ → Step (Unit {0})
  mix_key input = do
    ck ← gets (λ s. s.ck)
    derived ← call (crypto.hkdf ck input)
    modify (λ s. record s {
      ck = take key_len derived;
      key = take key_len (drop key_len derived);
      nonce_counter = 0;
    })

  unfoldable pub split_transport : Step (Unit {0})
  split_transport = do
    ck ← gets (λ s. s.ck)
    derived ← call (crypto.hkdf ck [])
    modify (λ s. record s {
      receive_key = take key_len derived;
      send_key = take key_len (drop key_len derived);
      receive_nonce = 0;
      send_nonce = 0;
      key = replicate key_len 0;
    })

  unfoldable pub reset_handshake_state : Step (Unit {0})
  reset_handshake_state = do
    modify cleared
    digest ← call (crypto.sha256 protocol_name)
    modify (λ s. record s { h = digest; ck = digest })
    public ← gets (λ s. s.device_static_pub)
    mix_hash public

  unfoldable pub noise_ik_init : List ℕ → Option (Unit {0}) × Session
  noise_ik_init device_key =
      (do
        public ← call (x25519_dh device_key (9 ∷ replicate 31 0))
        modify (λ s. record s { device_static_pub = public })
        reset_handshake_state)
        (blank_session device_key)
