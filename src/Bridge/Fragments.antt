-- ===== src/Bridge/Fragments.antt =====
-- Fragments of a command, as a host writes them to the characteristic of firmware/bridge_main.c.
use picobridge.Prelude.{
  ℕ, ◌+◌, ◌*◌, ◌/◌, ◌%◌, ◌≤◌, ◌<◌, ◌≡◌, refl, ap, ◌∙◌, arith, Bool, true, false, not, List, [], ◌∷◌,
  ◌++◌, length, length-append, ltb, ◌==◌, bit_and, if◌then◌else◌,
}
use mathlib.Core.List.{append_assoc}
use picobridge.Prelude.Bits.{byte_law, every}
use picobridge.ControllerStore.Flash.{Board}
use picobridge.NoiseIk.{Crypto}
use picobridge.Bridge.{Machine, World, ble_cmd_buf_max}
use picobridge.Bridge.Frames.{handle_command, drop_frame, accumulate, write}

-- The fragments of a command that is cut into pieces: a header with the piece's number and, before
-- the last piece, the bit MORE.
abbrev pub header : ℕ → Bool → ℕ
header i more = 2 * i + (if more then 1 else 0)

unfoldable pub fragments_from : ℕ → List ℕ → List (List ℕ) → List (List ℕ)
fragments_from i piece [] = (header i false ∷ piece) ∷ []
fragments_from i piece (next ∷ pieces) =
    (header i true ∷ piece) ∷ fragments_from (i + 1) next pieces

unfoldable pub join : List ℕ → List (List ℕ) → List ℕ
join piece [] = piece
join piece (next ∷ pieces) = piece ++ join next pieces

low_bit : (b : ℕ) → b < 256 → bit_and b 1 ≡ b % 2
unfolding every
low_bit = byte_law (λ b. bit_and b 1) (λ b. b % 2) refl

module _ (crypto : Crypto) (board : Board) (w : World) where
  unfoldable pub write_all : Machine → List (List ℕ) → Machine
  write_all m [] = m
  write_all m (fragment ∷ fragments) = write_all (write crypto board w m fragment) fragments

  -- What the last fragment of a command does.
  abbrev pub completed : Machine → List ℕ → Machine
  completed m command = drop_frame crypto board w (
      handle_command crypto board w (record m { ble_cmd_active = true; ble_cmd_buf = command })
        command)

  accumulate-fits :
      (m : Machine) (more : Bool) (piece : List ℕ)
      → length m.ble_cmd_buf + length piece ≤ ble_cmd_buf_max
      → accumulate crypto board w m more piece ≡ (
          if more
          then record m { ble_cmd_buf = m.ble_cmd_buf ++ piece }
          else drop_frame crypto board w (
              handle_command crypto board w
                (record m { ble_cmd_buf = m.ble_cmd_buf ++ piece })
                (m.ble_cmd_buf ++ piece)))
  unfolding accumulate
  accumulate-fits m more piece fits =
      let small : ltb ble_cmd_buf_max (length m.ble_cmd_buf + length piece) ≡ false =
        ground arith in
      rw small refl

  header_number : (i : ℕ) (more : Bool) → header i more / 2 ≡ i
  header_number i true = omega arith
  header_number i false = omega arith

  header_more : (i : ℕ) (more : Bool) → i < 128 → not (bit_and (header i more) 1 == 0) ≡ more
  header_more i true h = ground (arith, low_bit (2 * i + 1) (omega arith))
  header_more i false h = ground (arith, low_bit (2 * i + 0) (omega arith))

  -- A piece after the first.
  write_later :
      (m : Machine) (i : ℕ) (more : Bool) (piece : List ℕ)
      → 1 ≤ i
      → i < 128
      → m.ble_cmd_active ≡ true
      → write crypto board w m (header i more ∷ piece) ≡ accumulate crypto board w m more piece
  unfolding write
  write_later m i more piece later inside active =
      let number : (header i more / 2 == 0) ≡ false = ground (arith, header_number i more) in
      rw (number, active, header_more i more inside) refl

  all_later :
      (m : Machine) (i : ℕ) (piece : List ℕ) (pieces : List (List ℕ))
      → 1 ≤ i
      → i + length pieces < 128
      → m.ble_cmd_active ≡ true
      → length m.ble_cmd_buf + length (join piece pieces) ≤ ble_cmd_buf_max
      → write_all m (fragments_from i piece pieces)
        ≡ completed m (m.ble_cmd_buf ++ join piece pieces)
  unfolding write_all fragments_from join
  all_later m i piece [] later inside active fits =
      write_later m i false piece later (omega arith) active
      ∙ accumulate-fits m false piece fits
      ∙ ap
          (λ a. drop_frame crypto board w (
            handle_command crypto board w
              (record m { ble_cmd_active = a; ble_cmd_buf = m.ble_cmd_buf ++ piece })
              (m.ble_cmd_buf ++ piece)))
          active
  all_later m i piece (next ∷ pieces) later inside active fits =
      let filled : Machine = record m { ble_cmd_buf = m.ble_cmd_buf ++ piece } in
      let room : length (m.ble_cmd_buf ++ piece) + length (join next pieces) ≤ ble_cmd_buf_max =
        omega (
          arith,
          length-append m.ble_cmd_buf piece,
          length-append piece (join next pieces),
          fits,
        ) in
      ap (λ x. write_all x (fragments_from (i + 1) next pieces))
        (write_later m i true piece later (omega arith) active
          ∙ accumulate-fits m true piece
              (omega (arith, length-append piece (join next pieces), fits)))
      ∙ all_later filled (i + 1) next pieces (omega arith) (omega arith) active room
      ∙ ap (completed m) (append_assoc m.ble_cmd_buf piece (join next pieces))

  write_first :
      (m : Machine) (more : Bool) (piece : List ℕ)
      → 1 ≤ length piece
      → write crypto board w m (header 0 more ∷ piece)
        ≡ accumulate crypto board w
            (record m { ble_cmd_active = true; ble_cmd_buf = [] })
            more
            piece
  unfolding write
  write_first m more piece some_byte =
      let number : (header 0 more / 2 == 0) ≡ true = ground (arith, header_number 0 more) in
      let there : (length piece == 0) ≡ false = ground arith in
      rw (number, there, header_more 0 more (omega arith)) refl

  -- A command that fits the buffer of 1102 bytes, is cut into at most 128 pieces, the first not
  -- empty, and is written fragment by fragment is carried out once, whole, when the last is written, whatever was in the buffer
  -- before; and the buffer is then free.
  pub fragments_lem :
      (m : Machine) (piece : List ℕ) (pieces : List (List ℕ))
      → 1 ≤ length piece
      → length pieces < 128
      → length (join piece pieces) ≤ ble_cmd_buf_max
      → write_all m (fragments_from 0 piece pieces) ≡ completed m (join piece pieces)
  unfolding write_all fragments_from join
  fragments_lem m piece [] some_byte few fits =
      write_first m false piece some_byte
      ∙ accumulate-fits (record m { ble_cmd_active = true; ble_cmd_buf = [] }) false piece
          (omega (arith, fits))
  fragments_lem m piece (next ∷ pieces) some_byte few fits =
      ap (λ x. write_all x (fragments_from 1 next pieces))
        (write_first m true piece some_byte
          ∙ accumulate-fits (record m { ble_cmd_active = true; ble_cmd_buf = [] }) true piece
              (omega (arith, length-append piece (join next pieces), fits)))
      ∙ all_later (record m { ble_cmd_active = true; ble_cmd_buf = piece }) 1 next pieces
          (omega arith) (omega arith) refl
          (omega (arith, length-append piece (join next pieces), fits))
