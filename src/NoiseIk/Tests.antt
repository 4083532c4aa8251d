-- ===== src/NoiseIk/Tests.antt =====
-- Runs of the responder with a transparent cipher, and its theorems at concrete inputs.
use picobridge.Prelude.{ℕ, ◌≡◌, refl, arith, true, none, some, List, [], ◌∷◌, ◌++◌, replicate}
use picobridge.ControllerStore.Types.{Store}
use picobridge.ControllerStore.Memory.{le_value}
use picobridge.ControllerStore.Store.{
  initialise, empty, key_is_zero, any_bit, ct_equal, any_difference,
}
use picobridge.ControllerStore.Admin.{find}
use picobridge.ControllerStore.Valid.{IsTrusted}
use picobridge.ControllerStore.Check.{IsKey}
use picobridge.ControllerStore.Trust.{initialise-IsTrusted}
use picobridge.NoiseIk.{
  Crypto, Session, blank_session, clamp, x25519_dh, mix_hash, mix_key, split_transport,
  reset_handshake_state,
}
use picobridge.NoiseIk.Transport.{
  noise_decrypt_packet, packet_refused, decrypt_body, noise_authenticated_slot,
}
use picobridge.NoiseIk.Transport.Nonces.{noise_nonce-injective}
use picobridge.NoiseIk.Transport.Replay.{
  DecryptOutcome, decrypt-DecryptOutcome, packet_once, arrive, answer, after,
}
use picobridge.NoiseIk.Handshake.{
  match_slot, match_from, noise_ik_handshake_respond, run_handshake, read_initiator, write_response,
  finish, mix_dh, cipher_decrypt_and_hash, cipher_encrypt_and_hash,
}
use picobridge.NoiseIk.Handshake
use picobridge.NoiseIk.Handshake.Lookup.{match_slot-find}
use picobridge.NoiseIk.Handshake.Outcome.{HandshakeOutcome, handshake-HandshakeOutcome}

-- A cipher that hides nothing: the tag is zeros, and a text is its own ciphertext.
abbrev transparent : Crypto
transparent = record {
  sha256 = λ input. some (replicate 32 1);
  hkdf = λ ck input. some (replicate 64 2);
  x25519 = λ priv public. some (replicate 32 3);
  encrypt_and_tag = λ key nonce ad text. some (text ++ replicate 16 0);
  auth_decrypt = λ key nonce ad text tag. some text;
}

noise_nonce-injective_example : ◌≡◌ {A = ℕ} 7 7
noise_nonce-injective_example = noise_nonce-injective 7 7 (omega arith) (omega arith) refl

abbrev open_session : Session
open_session = record (blank_session (replicate 32 4)) { ready = true; authenticated_slot = 1 }

-- The first packet of a session, with a command of two bytes.
abbrev first_packet : List ℕ
first_packet = replicate 8 0 ++ 1 ∷ 2 ∷ [] ++ replicate 16 0

first_opened :
    (noise_decrypt_packet transparent first_packet 100 open_session).0 ≡ some (1 ∷ 2 ∷ [])
unfolding noise_decrypt_packet packet_refused decrypt_body le_value replicate
first_opened = refl

packet_once_example :
    (noise_decrypt_packet transparent first_packet 50 (
      after transparent
        (noise_decrypt_packet transparent first_packet 100 open_session).1
        (answer 0 100 ∷ arrive first_packet 100 ∷ []))).0
    ≡ none
packet_once_example =
    packet_once transparent open_session first_packet (1 ∷ 2 ∷ []) 100
      (answer 0 100 ∷ arrive first_packet 100 ∷ []) 50 first_opened

decrypt-DecryptOutcome_example :
    DecryptOutcome transparent open_session first_packet 100
      (noise_decrypt_packet transparent first_packet 100 open_session)
decrypt-DecryptOutcome_example = decrypt-DecryptOutcome transparent open_session first_packet 100

abbrev owner_key : List ℕ
owner_key = 9 ∷ replicate 31 0

owner_key-IsKey : IsKey owner_key
unfolding replicate
owner_key-IsKey = record { size = refl; bytes = ground arith }

abbrev owned : Store
owned = (initialise empty owner_key).1

owned-IsTrusted : IsTrusted owned
unfolding initialise key_is_zero any_bit replicate
owned-IsTrusted = initialise-IsTrusted empty owner_key owner_key-IsKey refl

match_slot-find_example : match_slot (some owned) owner_key ≡ find owned owner_key
match_slot-find_example = match_slot-find owned owner_key owned-IsTrusted owner_key-IsKey

-- The owner's first message under that cipher.
abbrev hello : List ℕ
hello = replicate 32 5 ++ owner_key ++ replicate 16 0

abbrev answered : Session
answered =
    (noise_ik_handshake_respond transparent (some owned) hello 53
      (some (replicate 32 6, replicate 32 7)) (blank_session (replicate 32 4))).1

-- The owner is authenticated as slot 0.
owner_answered : noise_authenticated_slot answered ≡ 0
unfolding noise_authenticated_slot noise_ik_handshake_respond run_handshake read_initiator
    write_response finish mix_dh cipher_decrypt_and_hash cipher_encrypt_and_hash mix_hash mix_key
    split_transport reset_handshake_state x25519_dh clamp Handshake.answer match_slot match_from
    ct_equal any_difference initialise empty key_is_zero any_bit replicate
owner_answered = refl

handshake-HandshakeOutcome_example :
    HandshakeOutcome transparent (some owned) hello 53 (blank_session (replicate 32 4)) (
      noise_ik_handshake_respond transparent
        (some owned)
        hello
        53
        (some (replicate 32 6, replicate 32 7))
        (blank_session (replicate 32 4)))
handshake-HandshakeOutcome_example =
    handshake-HandshakeOutcome transparent (some owned) hello 53
      (some (replicate 32 6, replicate 32 7)) (blank_session (replicate 32 4))
