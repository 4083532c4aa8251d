-- ===== src/NoiseIk/Handshake.antt =====
-- The handshake of firmware/noise_ik.c.
pub mod Lookup
pub mod Outcome
use picobridge.Prelude.{
  ℕ, ◌+◌, ◌-◌, true, not, ◌&&◌, ◌||◌, Option, none, some, List, [], ◌∷◌, ◌++◌, length, take, drop,
  ltb, ◌==◌, if◌then◌else◌,
}
use picobridge.Prelude.Text.{codes}
use picobridge.ControllerStore.Types.{Slot, Store, slot_count, role_none}
use picobridge.ControllerStore.Store.{ct_equal}
use picobridge.NoiseIk.{
  Crypto, Session, Step, key_len, tag_len, init_message_len, response_len, call, gets, modify,
  fail_if, pure, ◌>>=◌, ◌>>◌, x25519_dh, mix_hash, mix_key, split_transport, reset_handshake_state,
}
use picobridge.NoiseIk.Transport.{noise_nonce, uint64_max}

-- The loop over the slots from `i` on: the first slot in use that has the key, and its role.
unfoldable pub match_from : ℕ → List Slot → List ℕ → ℕ × ℕ → ℕ × ℕ
match_from i [] key matched = matched
match_from i (slot ∷ slots) key (matched_slot, matched_role) = match_from (i + 1) slots key (
    if not (slot.role == role_none) && ct_equal key slot.public_key && matched_slot == slot_count
    then (i, slot.role)
    else (matched_slot, matched_role))

-- The slot and role of a key that is in the store.
unfoldable pub match_slot : Option Store → List ℕ → Option (ℕ × ℕ)
match_slot none key = none
match_slot (some controllers) key =
    let matched = match_from 0 controllers.slots key (slot_count, role_none) in
    if matched.0 == slot_count then none else some matched

module _ (crypto : Crypto) where
  unfoldable pub cipher_encrypt_and_hash : List ℕ → Step (List ℕ)
  cipher_encrypt_and_hash plaintext = do
    counter ← gets (λ s. s.nonce_counter)
    fail_if (counter == uint64_max)
    key ← gets (λ s. s.key)
    h ← gets (λ s. s.h)
    sealed ← call (crypto.encrypt_and_tag key (noise_nonce counter) h plaintext)
    modify (λ s. record s { nonce_counter = s.nonce_counter + 1 })
    mix_hash crypto sealed
    pure sealed

  unfoldable pub cipher_decrypt_and_hash : List ℕ → Step (List ℕ)
  cipher_decrypt_and_hash encrypted = do
    counter ← gets (λ s. s.nonce_counter)
    fail_if (ltb (length encrypted) tag_len || counter == uint64_max)
    key ← gets (λ s. s.key)
    h ← gets (λ s. s.h)
    plaintext ← call (
        crypto.auth_decrypt key (noise_nonce counter) h
          (take (length encrypted - tag_len) encrypted)
          (drop (length encrypted - tag_len) encrypted))
    modify (λ s. record s { nonce_counter = s.nonce_counter + 1 })
    mix_hash crypto encrypted
    pure plaintext

  -- `x25519_dh` and `mix_key` of its result.
  unfoldable pub mix_dh : List ℕ → List ℕ → Step (Unit {0})
  mix_dh priv public = do shared ← call (x25519_dh crypto priv public); mix_key crypto shared

  -- The handshake from the first hash to the initiator's static key: e, es, s. The lengths that the
  -- code tests behind the cipher follow from those of its inputs, here and in the response.
  unfoldable pub read_initiator : List ℕ → Step (List ℕ)
  read_initiator message = do
    reset_handshake_state crypto
    mix_hash crypto (take key_len message)
    priv ← gets (λ s. s.device_static_priv)
    mix_dh priv (take key_len message)
    cipher_decrypt_and_hash (take (key_len + tag_len) (drop key_len message))

  -- Then ss, the responder's e, ee and se, and the acknowledgement. `keypair` is what
  -- `x25519_keypair` returns.
  unfoldable pub write_response : List ℕ → List ℕ → Option (List ℕ × List ℕ) → Step (List ℕ)
  write_response message initiator_static keypair = do
    priv ← gets (λ s. s.device_static_priv)
    mix_dh priv initiator_static
    (eph_priv, eph_pub) ← call keypair
    mix_hash crypto eph_pub
    mix_dh eph_priv (take key_len message)
    mix_dh eph_priv initiator_static
    ack ← cipher_encrypt_and_hash (codes "PBIK1")
    split_transport crypto
    pure (eph_pub ++ ack)

  -- The handshake from the initiator's static key on.
  unfoldable pub answer : Option Store → List ℕ → Option (List ℕ × List ℕ) → List ℕ → Step (List ℕ)
  answer controllers message keypair initiator_static = do
    (slot, role) ← call (match_slot controllers initiator_static)
    response ← write_response message initiator_static keypair
    modify (λ s. record s { authenticated_slot = slot; authenticated_role = role; ready = true })
    pure response

  unfoldable pub run_handshake : Option Store → List ℕ → Option (List ℕ × List ℕ) → Step (List ℕ)
  run_handshake controllers message keypair = do
    initiator_static ← read_initiator message
    answer controllers message keypair initiator_static

  -- A handshake that fails leaves a reset session.
  unfoldable pub finish : Option (List ℕ) × Session → Option (List ℕ) × Session
  finish (some response, s) = (some response, s)
  finish (none, s) = (none, (reset_handshake_state crypto s).1)

  unfoldable pub noise_ik_handshake_respond :
      Option Store → List ℕ → ℕ → Option (List ℕ × List ℕ) → Step (List ℕ)
  noise_ik_handshake_respond controllers message room keypair s =
      if not (length message == init_message_len) || ltb room response_len
      then (none, s)
      else finish (run_handshake controllers message keypair s)
