-- ===== src/Bridge/Frames.antt =====
-- Frames, and the writes and reads of the BLE characteristic in firmware/bridge_main.c.
use picobridge.Prelude.{
  ℕ, ◌+◌, ◌-◌, ◌/◌, Bool, true, false, not, Option, none, some, List, [], ◌∷◌, ◌++◌, length, take,
  drop, ltb, ◌==◌, if◌then◌else◌, bit_and,
}
use picobridge.ControllerStore.Flash.{Board}
use picobridge.NoiseIk.{Crypto, Session, init_message_len, response_len, max_plaintext}
use picobridge.NoiseIk.Transport.{noise_decrypt_packet, noise_encrypt_transport_ack}
use picobridge.NoiseIk.Handshake.{noise_ik_handshake_respond}
use picobridge.Bridge.{Machine, World, ble_cmd_buf_max}
use picobridge.Bridge.Handlers.{handle_authenticated_command}

abbrev pub cmd_noise : ℕ
cmd_noise = 5

abbrev pub cmd_encrypted : ℕ
cmd_encrypted = 6

abbrev pub transport_response_max : ℕ
transport_response_max = 1 + response_len

abbrev pub with_session : Machine → Session → Machine
with_session m session = record m { session = session }

-- The response to a handshake; one of a wrong length is not sent.
unfoldable pub handshake_answer : Machine → Option (List ℕ) × Session → List ℕ × Machine
handshake_answer m (none, session) = ([], with_session m session)
handshake_answer m (some response, session) =
    ((if length response == response_len then cmd_noise ∷ response else []), with_session m session)

-- The receipt of a command.
unfoldable pub receipt_answer : Machine → Option (List ℕ) × Session → List ℕ × Machine
receipt_answer m (none, session) = ([], with_session m session)
receipt_answer m (some receipt, session) = (cmd_encrypted ∷ receipt, with_session m session)

module _ (crypto : Crypto) (board : Board) (w : World) where
  unfoldable pub acknowledge : ℕ → Bool × Machine → List ℕ × Machine
  acknowledge room (false, m) = ([], m)
  acknowledge room (true, m) =
      receipt_answer m (noise_encrypt_transport_ack crypto m.cmd_ack_status room m.session)

  -- A packet that has been decrypted, or not.
  unfoldable pub obey : Machine → ℕ → Option (List ℕ) × Session → List ℕ × Machine
  obey m room (none, session) = ([], with_session m session)
  obey m room (some plaintext, session) =
      acknowledge room (handle_authenticated_command board w (with_session m session) plaintext)

  -- A complete frame in, with room for so many bytes of response. No response is the empty list.
  unfoldable pub process_frame : Machine → List ℕ → ℕ → List ℕ × Machine
  process_frame m [] resp_cap = ([], m)
  process_frame m (command ∷ message) resp_cap =
      if command == cmd_noise
      then (if not (length message == init_message_len)
          then ([], m)
          else handshake_answer m (
              noise_ik_handshake_respond crypto (some m.controllers) message (resp_cap - 1)
                w.keypair m.session))
      else if command == cmd_encrypted
      then (if length message == 0
          then ([], m)
          else obey m (resp_cap - 1) (noise_decrypt_packet crypto message max_plaintext m.session))
      else ([], m)

  -- The response as it is put out for reading: a handshake's without its first byte.
  unfoldable pub publish : List ℕ × Machine → Machine
  publish ([], m) = m
  publish (kind ∷ response, m) =
      let out = if kind == cmd_noise then response else kind ∷ response in
      if ltb ble_cmd_buf_max (length out) then m else record m { cmd_char_read = some out }

  unfoldable pub handle_command : Machine → List ℕ → Machine
  handle_command m bytes =
      publish (process_frame (record m { cmd_char_read = none }) bytes transport_response_max)

  -- The reassembly is ended.
  abbrev pub drop_frame : Machine → Machine
  drop_frame m = record m { ble_cmd_active = false; ble_cmd_buf = [] }

  unfoldable pub accumulate : Machine → Bool → List ℕ → Machine
  accumulate m more bytes =
      if ltb ble_cmd_buf_max (length m.ble_cmd_buf + length bytes)
      then drop_frame m
      else (let filled = record m { ble_cmd_buf = m.ble_cmd_buf ++ bytes } in
          if more then filled else drop_frame (handle_command filled filled.ble_cmd_buf))

  -- A write of the characteristic: the fragment's header and its data.
  unfoldable pub write : Machine → List ℕ → Machine
  write m [] = m
  write m (frag_hdr ∷ bytes) =
      let more = not (bit_and frag_hdr 1 == 0) in
      if frag_hdr / 2 == 0
      then (if length bytes == 0
          then drop_frame m
          else accumulate (record m { ble_cmd_active = true; ble_cmd_buf = [] }) more bytes)
      else if not m.ble_cmd_active
      then m
      else accumulate m more bytes

-- What a read of an attribute returns, from an offset and at most so many bytes of it. The handle of
-- the command characteristic is the one that the start has set.
unfoldable pub read : ℕ → Machine → ℕ → ℕ → ℕ → List ℕ
read cmd_char_handle m attribute_handle offset buffer_size = elim m.cmd_char_read [
  | none ↦ []
  | some out ↦
      if attribute_handle == cmd_char_handle then take buffer_size (drop offset out) else []
]

-- The size that is asked for first.
unfoldable pub read_size : ℕ → Machine → ℕ → ℕ
read_size cmd_char_handle m attribute_handle = elim m.cmd_char_read [
  | none ↦ 0
  | some out ↦ if attribute_handle == cmd_char_handle then length out else 0
]
