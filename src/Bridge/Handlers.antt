-- ===== src/Bridge/Handlers.antt =====
-- The authenticated commands of firmware/bridge_main.c. A plaintext with its length is a list.
use picobridge.Prelude.{
  ℕ, ◌+◌, Bool, true, false, not, ◌&&◌, ◌||◌, Option, none, some, List, [], ◌∷◌, length, get_or,
  take, drop, ltb, ◌==◌, if◌then◌else◌, u8, u16, ◌>>>◌,
}
use picobridge.BridgeCore.Types.{
  Status, ok, err_argument, err_state, err_limit, err_policy, err_owner, Core, layout_us, layout_de,
  mode_password, mode_text, max_ttl_ms,
}
use picobridge.BridgeCore.Stage
use picobridge.BridgeCore.Stage.{Request}
use picobridge.BridgeCore.Control
use picobridge.ControllerStore.Types
use picobridge.ControllerStore.Types.{Store, role_operator, role_admin}
use picobridge.ControllerStore.Memory.{le_value}
use picobridge.ControllerStore.Admin
use picobridge.ControllerStore.Admin.{is_admin}
use picobridge.ControllerStore.Flash
use picobridge.ControllerStore.Flash.{Board, Flash, is_ok}
use picobridge.NoiseIk.Transport.{noise_authenticated_slot}
use picobridge.RadioConfig.{build2}
use picobridge.RadioConfig.Flash.{write_and_verify, clear}
use picobridge.Bridge.{Machine, World, Diagnostics, status_byte}

-- The field of four bytes at an offset of a frame.
abbrev pub word_at : ℕ → List ℕ → ℕ
word_at i p = le_value (take 4 (drop i p))

abbrev pub with_core : Machine → Status × Core → Status × Machine
with_core m (status, core) = (status, record m { core = core })

-- The request in a frame. Its text has `ulen` bytes in the frame, unless that number is too large
-- for the core, which then refuses it unread.
unfoldable pub request_of : List ℕ → Request
request_of p = record {
  owner = word_at 1 p;
  id = word_at 5 p;
  options = record {
    layout = if get_or p 9 0 == 2 then layout_de else layout_us;
    mode = if get_or p 10 0 == 2 then mode_text else mode_password;
    flags = get_or p 11 0;
  };
  utf8 = some (drop 14 p);
  length = le_value (take 2 (drop 12 p));
  ttl_ms = max_ttl_ms;
}

unfoldable pub handle_stage : Machine → List ℕ → Status × Machine
handle_stage m p =
    if ltb (length p) 14
    then (err_argument, m)
    else if ltb (length p) (u16 (14 + le_value (take 2 (drop 12 p))))
    then (err_argument, m)
    else with_core m (Stage.stage m.core (request_of p) m.ble_now_ms)

unfoldable pub handle_confirm : Machine → List ℕ → Status × Machine
handle_confirm m p =
    if ltb (length p) 9
    then (err_argument, m)
    else with_core m (Control.confirm m.core (word_at 1 p) (word_at 5 p) m.ble_now_ms)

unfoldable pub handle_cancel : Machine → List ℕ → Status × Machine
handle_cancel m p =
    if ltb (length p) 9
    then (err_argument, m)
    else with_core m (Control.cancel m.core (word_at 1 p) (word_at 5 p))

unfoldable pub handle_tick : Machine → List ℕ → Status × Machine
handle_tick m p =
    if ltb (length p) 5 then (err_argument, m) else with_core m (Control.tick m.core (word_at 1 p))

abbrev pub caller_of : Machine → ℕ
caller_of m = noise_authenticated_slot m.session

-- The caller is an administrator.
abbrev pub by_admin : Machine → Bool
by_admin m = is_admin m.controllers (caller_of m)

-- The status for an addition that is refused.
abbrev pub add_refused : Types.Status → Status
add_refused Types.err_full = err_limit
add_refused _ = err_argument

abbrev pub revoke_refused : Types.Status → Status
revoke_refused Types.err_immutable = err_policy
revoke_refused _ = err_argument

-- The commands by their first byte.
pub data Command : Type 0 where
  stage confirm cancel tick controller_add controller_revoke set_radio clear_radio other : Command

unfoldable pub command_of : ℕ → Command
command_of b =
    if b == 1
    then stage
    else if b == 2
    then confirm
    else if b == 3
    then cancel
    else if b == 4
    then tick
    else if b == 7
    then controller_add
    else if b == 8
    then controller_revoke
    else if b == 9
    then set_radio
    else if b == 10
    then clear_radio
    else other

-- The answer of a query of the network, when the byte is one.
unfoldable pub net_query : Diagnostics → List ℕ → Option ℕ
net_query d frame =
    let command = get_or frame 0 0 in
    if command == 11
    then some d.state
    else if command == 12
    then some (u8 (40 + d.link))
    else if command == 13
    then some (u8 (d.raw >>> 8))
    else if command == 14
    then some d.dhcp
    else if command == 16
    then (if not (length frame == 2) then none else some (d.ip_octet (get_or frame 1 0)))
    else if command == 17
    then some (if d.scan_start then 0 else 1)
    else if command == 18
    then some d.scan_total
    else if command == 19
    then some d.scan_match
    else if command == 20
    then some d.scan_rssi
    else if command == 15
    then some d.probe
    else none

-- A receipt is armed with the status byte, or refused.
abbrev pub answered : Machine → Option ℕ → Bool × Machine
answered m none = (false, record m { cmd_ack_status = status_byte err_argument })
answered m (some status) = (true, record m { cmd_ack_status = status })

abbrev pub armed : Status × Machine → Bool × Machine
armed (status, m) = (true, record m { cmd_ack_status = status_byte status })

module _ (board : Board) (w : World) where
  -- Commit the candidate, and take it over when that has succeeded.
  unfoldable pub commit_candidate : Machine → Store → Status × Machine
  commit_candidate m candidate =
      let committed = Flash.commit board m.flash candidate w.granted in
      if is_ok committed.0
      then (ok, record m { flash = committed.1; controllers = candidate })
      else (err_state, record m { flash = committed.1 })

  unfoldable pub handle_controller_add : Machine → List ℕ → Status × Machine
  handle_controller_add m p =
      let role = get_or p 1 0 in
      let added = Admin.add m.controllers (caller_of m) (drop 2 p) role in
      if not (length p == 34) || not (by_admin m)
      then (err_owner, m)
      else if not (role == role_operator) && not (role == role_admin)
      then (err_argument, m)
      else if not (is_ok added.status)
      then (add_refused added.status, m)
      else commit_candidate m added.store

  unfoldable pub handle_controller_revoke : Machine → List ℕ → Status × Machine
  handle_controller_revoke m p =
      let target_slot = get_or p 1 0 in
      let revoked = Admin.revoke m.controllers (caller_of m) target_slot in
      if not (length p == 2) || not (by_admin m)
      then (err_owner, m)
      else if target_slot == caller_of m
      then (err_policy, m)
      else if not (is_ok revoked.0)
      then (revoke_refused revoked.0, m)
      else commit_candidate m revoked.1

  abbrev pub with_radio : Machine → Bool × List ℕ → Status × Machine
  with_radio m (done, sector) = (if done then ok else err_state, record m { radio = sector })

  -- An image that has been built is written.
  unfoldable pub write_image : Machine → Option (List ℕ) → Status × Machine
  write_image m none = (err_argument, m)
  write_image m (some image) = with_radio m (write_and_verify board m.radio image w.granted)

  unfoldable pub handle_set_radio : Machine → List ℕ → Status × Machine
  handle_set_radio m p =
      let ssid_len = get_or p 1 0 in
      let psk_len = get_or p 2 0 in
      if ltb (length p) 3
      then (err_argument, m)
      else if not (by_admin m)
      then (err_owner, m)
      else if w.mounted
      then (err_policy, m)
      else if not (length p == u16 (3 + ssid_len + psk_len))
      then (err_argument, m)
      else write_image m (build2 (take ssid_len (drop 3 p)) (take psk_len (drop (3 + ssid_len) p)))

  unfoldable pub handle_clear_radio : Machine → Status × Machine
  handle_clear_radio m =
      if not (by_admin m)
      then (err_owner, m)
      else if w.mounted
      then (err_policy, m)
      else with_radio m (clear board m.radio w.granted)

  unfoldable pub run_command : Command → Machine → List ℕ → Bool × Machine
  run_command stage m frame = armed (handle_stage m frame)
  run_command confirm m frame = armed (handle_confirm m frame)
  run_command cancel m frame = armed (handle_cancel m frame)
  run_command tick m frame = armed (handle_tick m frame)
  run_command controller_add m frame = armed (handle_controller_add m frame)
  run_command controller_revoke m frame = armed (handle_controller_revoke m frame)
  run_command set_radio m frame = armed (handle_set_radio m frame)
  run_command clear_radio m frame = armed (handle_clear_radio m)
  run_command other m frame = elim w.diagnostics [
    | none ↦ answered m none
    | some d ↦ answered m (net_query d frame)
  ]

  -- Whether a receipt is to be armed; the command's status is in `cmd_ack_status`.
  unfoldable pub handle_authenticated_command : Machine → List ℕ → Bool × Machine
  handle_authenticated_command m [] = answered m none
  handle_authenticated_command m (b ∷ frame) = run_command (command_of b) m (b ∷ frame)
