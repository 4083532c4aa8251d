-- ===== src/NoiseIk/Transport.antt =====
-- The transport of firmware/noise_ik.c: nonces, packets in and receipts out.
pub mod Nonces
pub mod Replay
use picobridge.Prelude.{
  ℕ, ◌+◌, ◌-◌, ◌^◌, Bool, not, ◌||◌, none, List, [], ◌∷◌, ◌++◌, length, take, drop, replicate, ltb,
  ◌==◌, if◌then◌else◌,
}
use picobridge.Prelude.Text.{codes}
use picobridge.ControllerStore.Memory.{le_bytes, le_value}
use picobridge.ControllerStore.Types.{slot_count, role_none}
use picobridge.NoiseIk.{
  Crypto, Session, Step, tag_len, max_plaintext, call, gets, modify, pure, ◌>>=◌, ◌>>◌,
}

abbrev pub uint64_max : ℕ
uint64_max = 2 ^ 64 - 1

abbrev pub nonce_len : ℕ
nonce_len = 8

abbrev pub transport_overhead : ℕ
transport_overhead = nonce_len + tag_len

abbrev pub transport_ack_len : ℕ
transport_ack_len = 6

abbrev pub transport_response_len : ℕ
transport_response_len = transport_overhead + transport_ack_len

-- The cipher's nonce of 12 bytes: four zeros and the counter, its lowest byte first.
unfoldable pub noise_nonce : ℕ → List ℕ
noise_nonce counter = replicate 4 0 ++ le_bytes 8 counter

unfoldable pub noise_authenticated_slot : Session → ℕ
noise_authenticated_slot s = if s.ready then s.authenticated_slot else slot_count

unfoldable pub noise_authenticated_role : Session → ℕ
noise_authenticated_role s = if s.ready then s.authenticated_role else role_none

-- The tests on a packet, in the source's order. The lengths do not go below 0 behind the first.
unfoldable pub packet_refused : Session → List ℕ → ℕ → Bool
packet_refused s packet room =
    not s.ready
    || ltb (length packet) transport_overhead
    || s.receive_nonce == uint64_max
    || ltb room (length packet - nonce_len - tag_len)
    || ltb max_plaintext (length packet - nonce_len - tag_len)
    || not (le_value (take nonce_len packet) == s.receive_nonce)

module _ (crypto : Crypto) where
  unfoldable pub decrypt_body : List ℕ → Step (List ℕ)
  decrypt_body body = do
    key ← gets (λ s. s.receive_key)
    counter ← gets (λ s. s.receive_nonce)
    plaintext ← call (
        crypto.auth_decrypt key (noise_nonce counter) [] (take (length body - tag_len) body)
          (drop (length body - tag_len) body))
    modify (λ s. record s { receive_nonce = s.receive_nonce + 1 })
    pure plaintext

  unfoldable pub noise_decrypt_packet : List ℕ → ℕ → Step (List ℕ)
  noise_decrypt_packet packet room s =
      if packet_refused s packet room then (none, s) else decrypt_body (drop nonce_len packet) s

  unfoldable pub encrypt_receipt : ℕ → Step (List ℕ)
  encrypt_receipt command_status = do
    key ← gets (λ s. s.send_key)
    counter ← gets (λ s. s.send_nonce)
    sealed ←
        call (
          crypto.encrypt_and_tag key (noise_nonce counter) []
            (codes "PBOK1" ++ command_status ∷ []))
    modify (λ s. record s { send_nonce = s.send_nonce + 1 })
    pure (le_bytes 8 counter ++ sealed)

  unfoldable pub noise_encrypt_transport_ack : ℕ → ℕ → Step (List ℕ)
  noise_encrypt_transport_ack command_status room s =
      if not s.ready || ltb room transport_response_len || s.send_nonce == uint64_max
      then (none, s)
      else encrypt_receipt command_status s
