-- ===== src/IdleMain.antt =====
-- The bring-up image: the HID callbacks and the report of the main loop in firmware/idle_main.c.
use picobridge.Prelude.{
  ℕ, ◌≡◌, arith, ◌*◌, Bool, true, false, not, ◌&&◌, ◌||◌, List, [], ◌∷◌, ltb, leb, ◌==◌,
  if◌then◌else◌, bit_and, replicate, sub32,
}
use picobridge.Bridge.Hid.{ReportType, input, output, feature}

-- The static variables.
pub record Idle : Type 0 where
  pub leds : ℕ
  pub idle_rate : ℕ
  pub report_sent : Bool
  pub last_report_ms : ℕ

unfoldable get_report : Idle → ℕ → ℕ → ReportType → ℕ → List ℕ
get_report idle number report_id input reqlen =
    if not (number == 0) || not (report_id == 0)
    then []
    else replicate (if ltb reqlen 8 then reqlen else 8) 0
get_report idle number report_id output reqlen =
    if not (number == 0) || not (report_id == 0) || reqlen == 0 then [] else idle.leds ∷ []
get_report idle number report_id feature reqlen = []

unfoldable set_report : Idle → ℕ → ℕ → ReportType → List ℕ → Idle
set_report idle number report_id output (leds ∷ []) =
    if number == 0 && report_id == 0 then record idle { leds = bit_and leds 0x1f } else idle
set_report idle number report_id _ _ = idle

unfoldable set_protocol : Idle → Idle
set_protocol idle = record idle { report_sent = false }

unfoldable set_idle : Idle → ℕ → ℕ → Bool × Idle
set_idle idle number rate =
    if not (number == 0)
    then (false, idle)
    else (true, record idle { idle_rate = rate; report_sent = false })

unfoldable mount : Idle → Idle
mount idle = record idle { report_sent = false }

unfoldable umount : Idle → Idle
umount idle = record idle { report_sent = false; leds = 0; idle_rate = 0 }

unfoldable suspend : Idle → Idle
suspend idle = record idle { report_sent = false }

unfoldable resume : Idle → Idle
resume idle = record idle { report_sent = false }

-- Whether an empty report is due.
unfoldable is_due : Idle → ℕ → Bool
is_due idle now =
    not idle.report_sent
    || (not (idle.idle_rate == 0) && leb (4 * idle.idle_rate) (sub32 now idle.last_report_ms))

-- The report in a round of the main loop: whether the endpoint is ready, and whether the report is
-- taken.
unfoldable report : Idle → Bool → Bool → ℕ → Bool × Idle
unfolding is_due
report idle is_ready takes now =
    if is_ready && is_due idle now && takes
    then (true, record idle { report_sent = true; last_report_ms = now })
    else (false, idle)

-- At an idle rate of 0 a report that was taken is the last until the bus changes: in the next round
-- none is sent.
report_once :
    (idle : Idle) (is_ready takes : Bool) (now later : ℕ)
    → idle.idle_rate ≡ 0
    → (report idle is_ready takes now).0 ≡ true
    → (report (report idle is_ready takes now).1 is_ready takes later).0 ≡ false
unfolding report is_due
report_once idle is_ready takes now later rate sent = ground arith
