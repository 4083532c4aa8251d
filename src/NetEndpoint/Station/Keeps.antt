-- ===== src/NetEndpoint/Station/Keeps.antt =====
-- What the Wi-Fi state machine of firmware/net_endpoint.c keeps.
use picobridge.Prelude.{
  ℕ, ◌≤◌, ◌≡◌, inl, inr, refl, arith, Bool, true, not, ◌&&◌, Option, none, some, List, is_before,
  Bool-cases, All,
}
use picobridge.RadioConfig.{Config}
use picobridge.RadioConfig.Flash.{read}
use picobridge.NetEndpoint.Station.{
  NetState, no_record, retry_wait, connecting, ready, Station, Weather, Action, enable_sta_mode,
  disable_sta_mode, close_session, connect, net_retry_min_ms, net_retry_max_ms, start_listener,
  longer, backed_off, waiting_link, associate, time_out, arrive, poll_in, poll,
}

-- The delays are between 3 and 30 seconds, and READY means that the listener is armed.
pub record IsStation (s : Station) : Type 0 where
  pub not_short : net_retry_min_ms ≤ s.retry_delay_ms
  pub not_long : s.retry_delay_ms ≤ net_retry_max_ms
  pub armed : s.state ≡ ready → (s.listener_ok ≡ true) × (s.listening ≡ true)

-- The driver is asked to connect with the ssid and the psk of the record in flash only.
pub data IsRecorded (radio : List ℕ) : Action → Type 0 where
  quiet_on : IsRecorded radio enable_sta_mode
  quiet_off : IsRecorded radio disable_sta_mode
  quiet_close : IsRecorded radio close_session
  recorded : (cfg : Config) → read radio ≡ some cfg → IsRecorded radio (connect cfg.ssid cfg.psk)

abbrev Kept : List ℕ → Station × List Action → Type 0
Kept radio r = IsStation r.0 × All (IsRecorded radio) r.1

longer-bounds :
    (delay : ℕ)
    → net_retry_min_ms ≤ delay
    → delay ≤ net_retry_max_ms
    → (net_retry_min_ms ≤ longer delay) × (longer delay ≤ net_retry_max_ms)
unfolding longer
longer-bounds delay lo hi = (ground arith, ground arith)

backed_off-IsStation : (s : Station) (now_ms : ℕ) → IsStation s → IsStation (backed_off s now_ms)
backed_off-IsStation s now_ms v =
    let bounds = longer-bounds s.retry_delay_ms v.not_short v.not_long in
    record { not_short = bounds.0; not_long = bounds.1; armed = λ e. absurd (ground arith) }

waiting_link-IsStation :
    (s : Station) (now_ms : ℕ) → IsStation s → IsStation (waiting_link s now_ms)
waiting_link-IsStation s now_ms v = record {
  not_short = v.not_short;
  not_long = v.not_long;
  armed = λ e. absurd (ground arith);
}

module _ (radio : List ℕ) (now_ms : ℕ) (w : Weather) where
  associate-Kept :
      (s : Station) (o : Option Config)
      → read radio ≡ o
      → IsStation s
      → Kept radio (associate s now_ms w o)
  unfolding associate
  associate-Kept s none e v = (
    record { not_short = v.not_short; not_long = v.not_long; armed = λ e. absurd (ground arith) },
    tt,
  )
  associate-Kept s (some cfg) e v = elim (Bool-cases w.connects) [
    | inl connects ↦
        rw connects (waiting_link-IsStation s now_ms v, (quiet_on, (recorded cfg e, tt)))
    | inr refused ↦ rw refused (backed_off-IsStation s now_ms v, (quiet_on, (recorded cfg e, tt)))
  ]

  time_out-Kept : (s : Station) → IsStation s → Kept radio (time_out s now_ms w)
  unfolding time_out
  time_out-Kept s v = elim (Bool-cases (not (is_before now_ms s.retry_at_ms) && w.unjoined)) [
    | inl over ↦ rw over (backed_off-IsStation s now_ms v, (quiet_off, (quiet_on, tt)))
    | inr on ↦ rw on (v, tt)
  ]

  start_listener-armed :
      (s : Station) (can : Bool)
      → (start_listener s can).listener_ok ≡ true
      → (start_listener s can).listening ≡ true
  unfolding start_listener
  start_listener-armed s can h = elim (Bool-cases s.listening) [
    | inl there ↦ ground arith
    | inr missing ↦ ground arith
  ]

  start_listener-IsStation :
      (s : Station) (can : Bool)
      → (s.state ≡ ready → ⊥)
      → IsStation s
      → IsStation (start_listener s can)
  unfolding start_listener
  start_listener-IsStation s can other v = elim (Bool-cases s.listening) [
    | inl there ↦
        rw there
          (record { not_short = v.not_short; not_long = v.not_long; armed = λ e. absurd (other e) })
    | inr missing ↦
        rw missing
          (record { not_short = v.not_short; not_long = v.not_long; armed = λ e. absurd (other e) })
  ]

  arrive-Kept : (s : Station) → (s.state ≡ ready → ⊥) → IsStation s → Kept radio (arrive s now_ms w)
  unfolding arrive start_listener
  arrive-Kept s other v =
      let listened : IsStation (start_listener s w.can_listen) =
        start_listener-IsStation s w.can_listen other v in
      elim (Bool-cases (start_listener s w.can_listen).listener_ok) [
        | inl armed ↦ rw armed (
          record {
            not_short = omega arith;
            not_long = omega arith;
            armed = λ e. (refl, start_listener-armed s w.can_listen armed);
          },
          tt,
        )
        | inr failed ↦ rw failed (time_out-Kept (start_listener s w.can_listen) listened)
      ]

  poll_in-Kept :
      (state : NetState) (s : Station)
      → s.state ≡ state
      → IsStation s
      → Kept radio (poll_in state s radio now_ms w)
  unfolding poll_in associate arrive time_out
  poll_in-Kept no_record s e v = (v, tt)
  poll_in-Kept retry_wait s e v = elim (Bool-cases (is_before now_ms s.retry_at_ms)) [
    | inl early ↦ rw early (v, tt)
    | inr due ↦ elim (Bool-cases w.have_ip) [
      | inl up ↦ rw (due, up) (waiting_link-IsStation s now_ms v, tt)
      | inr down ↦ rw (due, down) (associate-Kept s (read radio) refl v)
    ]
  ]
  poll_in-Kept connecting s e v = elim (Bool-cases w.have_ip) [
    | inl up ↦ rw up (arrive-Kept s (λ r. absurd (ground (arith, e, r))) v)
    | inr down ↦ rw down (time_out-Kept s v)
  ]
  poll_in-Kept ready s e v = elim (Bool-cases w.have_ip) [
    | inl up ↦ rw up (v, tt)
    | inr down ↦ rw down (waiting_link-IsStation s now_ms v, (quiet_close, tt))
  ]

-- Whatever a poll of a station in order meets, the retry delay stays between 3 and 30 seconds, READY means that the
-- listener is armed, and the driver is asked to connect only with the ssid and the psk of a valid
-- record in flash.
pub poll-IsStation :
    (s : Station) (radio : List ℕ) (now_ms : ℕ) (w : Weather)
    → IsStation s
    → IsStation (poll s radio now_ms w).0 × All (IsRecorded radio) (poll s radio now_ms w).1
unfolding poll
poll-IsStation s radio now_ms w v = poll_in-Kept radio now_ms w s.state s refl v
