-- ===== src/Bridge/Hid.antt =====
-- The USB keyboard of firmware/bridge_main.c: TinyUSB's callbacks and the drain of the core. What the
-- host and TinyUSB answer during a call is an argument.
pub mod Typed
use picobridge.Prelude.{
  ℕ, ◌+◌, Bool, true, false, not, ◌&&◌, ◌||◌, List, [], ◌∷◌, ◌++◌, ltb, leb, ◌==◌, if◌then◌else◌,
  bit_and, replicate, u32, sub32,
}
use picobridge.BridgeCore.Types.{Core, Status, ok}
use picobridge.BridgeCore.Control
use picobridge.BridgeCore.Control.{is_executing}

-- `core`, the keyboard's static variables, and the drain's own.
pub record Usb : Type 0 where
  pub core : Core
  pub hid_leds : ℕ
  pub hid_idle_dirty : Bool
  pub usb_now_ms : ℕ
  pub exec_since_ms : ℕ

-- `hid_report_type_t`
pub data ReportType : Type 0 where
  input output feature : ReportType

-- The bytes that a get-report request is answered with.
unfoldable pub get_report : Usb → ℕ → ℕ → ReportType → ℕ → List ℕ
get_report usb number report_id input reqlen =
    if not (number == 0) || not (report_id == 0)
    then []
    else replicate (if ltb reqlen 8 then reqlen else 8) 0
get_report usb number report_id output reqlen =
    if not (number == 0) || not (report_id == 0) || reqlen == 0 then [] else usb.hid_leds ∷ []
get_report usb number report_id feature reqlen = []

unfoldable pub set_report : Usb → ℕ → ℕ → ReportType → List ℕ → Usb
set_report usb number report_id output (leds ∷ []) =
    if number == 0 && report_id == 0
    then record usb { hid_leds = bit_and leds 0x1f; hid_idle_dirty = true }
    else usb
set_report usb number report_id _ _ = usb

unfoldable pub set_protocol : Usb → Usb
set_protocol usb = record usb { hid_idle_dirty = true }

unfoldable pub set_idle : Usb → Bool × Usb
set_idle usb = (true, record usb { hid_idle_dirty = true })

unfoldable pub mount : Usb → Usb
mount usb = record usb { hid_idle_dirty = true }

unfoldable pub umount : Usb → Usb
umount usb = record usb { hid_idle_dirty = true; hid_leds = 0; core = Control.abort usb.core }

unfoldable pub suspend : Usb → Usb
suspend usb = record usb { hid_idle_dirty = true; core = Control.abort usb.core }

unfoldable pub resume : Usb → Usb
resume usb = record usb { hid_idle_dirty = true }

-- A report that TinyUSB has taken.
pub data Report : Type 0 where
  press : ℕ → ℕ → Report
  release : Report

-- A callback that `tud_task` runs, with its arguments where they matter.
pub data Callback : Type 0 where
  on_mount on_umount on_suspend on_resume on_protocol on_idle : Callback
  on_report : ℕ → ℕ → ReportType → List ℕ → Callback

unfoldable pub run_callback : Usb → Callback → Usb
run_callback usb on_mount = mount usb
run_callback usb on_umount = umount usb
run_callback usb on_suspend = suspend usb
run_callback usb on_resume = resume usb
run_callback usb on_protocol = set_protocol usb
run_callback usb on_idle = (set_idle usb).1
run_callback usb (on_report number report_id type bytes) =
    set_report usb number report_id type bytes

-- `tud_task` runs any number of callbacks.
unfoldable pub run_callbacks : List Callback → Usb → Usb
run_callbacks [] usb = usb
run_callbacks (c ∷ callbacks) usb = run_callbacks callbacks (run_callback usb c)

-- One look of the wait for the endpoint: whether it is ready, and when it is not, the callbacks that
-- `tud_task` runs, and the time read behind it.
pub record Poll : Type 0 where
  pub is_ready : Bool
  pub callbacks : List Callback
  pub time : ℕ

-- What a round of the loop meets, when the endpoint is ready at its head: whether the press is
-- taken, the looks of the wait, whether the endpoint is ready then, and whether the release is
-- taken.
pub record Round : Type 0 where
  pub pressed : Bool
  pub polls : List Poll
  pub ready_again : Bool
  pub released : Bool

unfoldable pub after_poll : Poll → Usb → Usb
after_poll poll usb = record (run_callbacks poll.callbacks usb) { usb_now_ms = poll.time }

-- The wait until the endpoint is ready or the deadline has come.
unfoldable pub wait : ℕ → List Poll → Usb → Usb
wait deadline [] usb = usb
wait deadline (poll ∷ polls) usb =
    let rest = wait deadline polls (after_poll poll usb) in
    if poll.is_ready || leb deadline usb.usb_now_ms then usb else rest

abbrev pub is_ok : Status → Bool
is_ok ok = true
is_ok _ = false

-- What a drain leaves: the reports taken, in order, and the state.
abbrev pub Drained : Type 0
Drained = List Report × Usb

abbrev pub then_reports : List Report → Drained → Drained
then_reports reports (more, usb) = (reports ++ more, usb)

-- The loop of the drain. The rounds end where the endpoint is not ready at the head of the loop.
unfoldable pub drain_loop : List Round → Usb → Drained
drain_loop [] usb = ([], usb)
drain_loop (r ∷ rounds) usb =
    let asked = Control.next usb.core usb.usb_now_ms in
    let usb' = record usb { core = asked.core } in
    let waited = wait (u32 (usb.usb_now_ms + 100)) r.polls usb' in
    let skipped = drain_loop rounds usb' in
    let typed = drain_loop rounds waited in
    if not (is_ok asked.status)
    then ([], usb')
    else if asked.stroke.usage == 0
    then skipped
    else if not r.pressed
    then ([], usb')
    else if not r.ready_again || not r.released
    then (press asked.stroke.modifier asked.stroke.usage ∷ [], waited)
    else then_reports (press asked.stroke.modifier asked.stroke.usage ∷ release ∷ []) typed

-- The drain with its guard against a stall.
unfoldable pub usb_hid_drain : List Round → Usb → Drained
usb_hid_drain rounds usb =
    if not (is_executing usb.core.state)
    then drain_loop rounds (record usb { exec_since_ms = 0 })
    else if usb.exec_since_ms == 0
    then drain_loop rounds (record usb { exec_since_ms = usb.usb_now_ms })
    else if ltb 2000 (sub32 usb.usb_now_ms usb.exec_since_ms)
    then ([], record usb { core = Control.abort usb.core; exec_since_ms = 0 })
    else drain_loop rounds usb
