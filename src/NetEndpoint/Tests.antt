-- ===== src/NetEndpoint/Tests.antt =====
-- A stream in segments, and a poll, at concrete inputs.
use picobridge.Prelude.{ℕ, ◌≡◌, refl, arith, true, false, some, List, [], ◌∷◌, ◌++◌, All}
use picobridge.NetEndpoint.{
  Endpoint, Socket, is_session, recv_cb, recv_chain, recv_bytes, process_frame, respond, sent_cb,
  frame_len, prefix_of,
}
use picobridge.NetEndpoint.Segments.{segments_lem}
use picobridge.NetEndpoint.Station.{Station, Weather, unstarted, poll, retry_wait}
use picobridge.NetEndpoint.Station.Keeps.{IsStation, IsRecorded, poll-IsStation}

-- A command core that keeps the frames it is given and answers each with one byte.
abbrev keep : List (List ℕ) → List ℕ → List ℕ × List (List ℕ)
keep frames frame = (6 ∷ [], frames ++ frame ∷ [])

abbrev wide : ℕ → Socket
wide sent = record { space = 100; takes = true }

abbrev connected : Endpoint (List (List ℕ))
connected = record { machine = []; session = some 1; rx = []; pending_tx = []; sent = [] }

-- A frame of two bytes, whole and cut behind its prefix.
two_bytes :
    (recv_cb keep wide 1 false (some ((0 ∷ 0 ∷ 0 ∷ 2 ∷ 7 ∷ 8 ∷ []) ∷ [])) connected).machine
    ≡ (7 ∷ 8 ∷ []) ∷ []
unfolding recv_cb recv_chain recv_bytes process_frame respond sent_cb is_session frame_len prefix_of
two_bytes = refl

segments_lem_example :
    recv_cb keep wide 1 false (some ((0 ∷ 0 ∷ 0 ∷ 2 ∷ 7 ∷ 8 ∷ []) ∷ [])) connected
    ≡ recv_cb keep wide 1 false
        (some ((2 ∷ 7 ∷ 8 ∷ []) ∷ []))
        (recv_cb keep wide 1 false (some ((0 ∷ 0 ∷ 0 ∷ []) ∷ [])) connected)
segments_lem_example =
    segments_lem keep wide 1 (0 ∷ 0 ∷ 0 ∷ []) (2 ∷ 7 ∷ 8 ∷ []) connected tt
      (omega arith, (omega arith, (omega arith, tt))) (omega arith) (unfold is_session in refl)

abbrev waiting : Station
waiting = record unstarted { state = retry_wait }

abbrev weather : Weather
weather = record { have_ip = false; connects = true; can_listen = true; unjoined = true }

waiting-IsStation : IsStation waiting
waiting-IsStation = record {
  not_short = omega arith;
  not_long = omega arith;
  armed = λ e. absurd (ground arith);
}

poll-IsStation_example :
    IsStation (poll waiting [] 5 weather).0 × All (IsRecorded []) (poll waiting [] 5 weather).1
poll-IsStation_example = poll-IsStation waiting [] 5 weather waiting-IsStation
