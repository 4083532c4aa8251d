-- ===== src/RadioConfig/Tests.antt =====
-- A radio record built, read and provisioned.
use picobridge.Prelude.{ℕ, ◌≡◌, refl, arith, true, some, List, [], replicate}
use picobridge.Prelude.Text.{codes}
use picobridge.ControllerStore.Flash.{Board, performed}
use picobridge.ControllerStore.Flash.Program.{and_at}
use picobridge.ControllerStore.Flash.Sequence.{IsBoard}
use picobridge.RadioConfig.{Config, schema_2, image_of, inputs_ok, build2, parse2, all_printable}
use picobridge.RadioConfig.RoundTrip.{parse2-build2}
use picobridge.RadioConfig.Accepted.{IsConfig, parse-IsConfig}
use picobridge.RadioConfig.Flash.{write_and_verify, read}
use picobridge.RadioConfig.Flash.Provision.{provision_lem}

abbrev ssid : List ℕ
ssid = codes "bench"

abbrev psk : List ℕ
psk = codes "long enough"

abbrev config : Config
config = record { ssid = ssid; psk = psk; cert = []; key = [] }

built : build2 ssid psk ≡ some (image_of ssid psk)
unfolding build2 inputs_ok all_printable
built = refl

parse2-build2_example : parse2 (image_of ssid psk) ≡ some config
parse2-build2_example = parse2-build2 ssid psk (image_of ssid psk) built

parse-IsConfig_example : IsConfig schema_2 config
parse-IsConfig_example = parse-IsConfig schema_2 (image_of ssid psk) config parse2-build2_example

abbrev board : Board
board = record {
  page_size = 256;
  sector_size = 4096;
  erase = λ bytes. replicate 4096 255;
  program = and_at;
}

board-IsBoard : IsBoard board
board-IsBoard = record {
  holds_record = omega arith;
  holds_page = omega arith;
  erases = λ bytes. refl;
  programs = λ offset page bytes. refl;
}

provision_lem_example :
    ((write_and_verify board (replicate 4096 0) (image_of ssid psk) performed).0 ≡ true)
    × (read (write_and_verify board (replicate 4096 0) (image_of ssid psk) performed).1
        ≡ some config)
provision_lem_example =
    provision_lem board ssid psk (image_of ssid psk) (replicate 4096 0) board-IsBoard refl built
