-- ===== src/NetEndpoint/Station.antt =====
-- The Wi-Fi state machine of firmware/net_endpoint.c. What the driver and lwIP answer during a poll is
-- an argument; what they are asked for comes out as a list.
pub mod Keeps
use picobridge.Prelude.{
  ℕ, ◌+◌, ◌*◌, Bool, true, false, not, ◌&&◌, Option, none, some, List, [], ◌∷◌, ltb, if◌then◌else◌,
  u32, is_before,
}
use picobridge.RadioConfig.{Config}
use picobridge.RadioConfig.Flash.{read}

abbrev pub net_connect_timeout_ms : ℕ
net_connect_timeout_ms = 20000

abbrev pub net_retry_max_ms : ℕ
net_retry_max_ms = 30000

abbrev pub net_retry_min_ms : ℕ
net_retry_min_ms = 3000

-- `net_state_t`
pub data NetState : Type 0 where
  no_record retry_wait connecting ready : NetState

-- `listening` says that `net_listener` is not NULL.
pub record Station : Type 0 where
  pub state : NetState
  pub retry_at_ms : ℕ
  pub retry_delay_ms : ℕ
  pub listener_ok : Bool
  pub listening : Bool

-- The state at the start of the program.
abbrev pub unstarted : Station
unstarted = record {
  state = no_record;
  retry_at_ms = 0;
  retry_delay_ms = net_retry_min_ms;
  listener_ok = false;
  listening = false;
}

-- What a poll meets: whether there is an address, whether the driver takes the request to connect,
-- whether a listener can be made, and whether the link is below CYW43_LINK_JOIN.
pub record Weather : Type 0 where
  pub have_ip : Bool
  pub connects : Bool
  pub can_listen : Bool
  pub unjoined : Bool

-- What a poll asks for.
pub data Action : Type 0 where
  enable_sta_mode disable_sta_mode close_session : Action
  connect : List ℕ → List ℕ → Action

unfoldable pub start : Station → List ℕ → Bool × Station
start s radio = elim (read radio) [
  | none ↦ (false, record s { state = no_record })
  | some cfg ↦
      (true, record s { state = retry_wait; retry_at_ms = 0; retry_delay_ms = net_retry_min_ms })
]

unfoldable pub start_listener : Station → Bool → Station
start_listener s can_listen =
    if s.listening
    then record s { listener_ok = true }
    else record s { listener_ok = can_listen; listening = can_listen }

-- The delay for the time after the next failure.
unfoldable pub longer : ℕ → ℕ
longer delay =
    if ltb delay net_retry_max_ms
    then (if ltb net_retry_max_ms (delay * 2) then net_retry_max_ms else delay * 2)
    else delay

abbrev pub backed_off : Station → ℕ → Station
backed_off s now_ms = record s {
  state = retry_wait;
  retry_at_ms = u32 (now_ms + s.retry_delay_ms);
  retry_delay_ms = longer s.retry_delay_ms;
}

abbrev pub waiting_link : Station → ℕ → Station
waiting_link s now_ms = record s {
  state = connecting;
  retry_at_ms = u32 (now_ms + net_connect_timeout_ms);
}

-- An attempt to associate, with the record that is read.
unfoldable pub associate : Station → ℕ → Weather → Option Config → Station × List Action
associate s now_ms w none = (record s { state = no_record }, [])
associate s now_ms w (some cfg) =
    let asked = enable_sta_mode ∷ connect cfg.ssid cfg.psk ∷ [] in
    if w.connects then (waiting_link s now_ms, asked) else (backed_off s now_ms, asked)

-- The deadline of a connection that does not come about.
unfoldable pub time_out : Station → ℕ → Weather → Station × List Action
time_out s now_ms w =
    if not (is_before now_ms s.retry_at_ms) && w.unjoined
    then (backed_off s now_ms, disable_sta_mode ∷ enable_sta_mode ∷ [])
    else (s, [])

-- With an address, the listener is made.
unfoldable pub arrive : Station → ℕ → Weather → Station × List Action
arrive s now_ms w =
    let listened = start_listener s w.can_listen in
    if listened.listener_ok
    then (record listened { retry_delay_ms = net_retry_min_ms; state = ready }, [])
    else time_out listened now_ms w

unfoldable pub poll_in : NetState → Station → List ℕ → ℕ → Weather → Station × List Action
poll_in no_record s radio now_ms w = (s, [])
poll_in retry_wait s radio now_ms w =
    if is_before now_ms s.retry_at_ms
    then (s, [])
    else if w.have_ip
    then (waiting_link s now_ms, [])
    else associate s now_ms w (read radio)
poll_in connecting s radio now_ms w = if w.have_ip then arrive s now_ms w else time_out s now_ms w
poll_in ready s radio now_ms w =
    if w.have_ip then (s, []) else (waiting_link s now_ms, close_session ∷ [])

unfoldable pub poll : Station → List ℕ → ℕ → Weather → Station × List Action
poll s radio now_ms w = poll_in s.state s radio now_ms w

abbrev pub is_ready : NetState → Bool
is_ready ready = true
is_ready _ = false

unfoldable pub wifi_up : Station → Bool
wifi_up s = is_ready s.state && s.listener_ok

-- `net_endpoint_state`
unfoldable pub state_byte : NetState → ℕ
state_byte no_record = 0
state_byte retry_wait = 1
state_byte connecting = 2
state_byte ready = 3
