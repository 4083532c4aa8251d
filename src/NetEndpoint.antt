-- ===== src/NetEndpoint.antt =====
-- The network endpoint's framing: firmware/net_endpoint.h and the TCP callbacks of
-- firmware/net_endpoint.c. The command core that it declares, and lwIP's send buffer, are parameters;
-- a pcb is a number.
pub mod Bytes
pub mod Segments
pub mod Station
pub mod Queries
mod Tests
use picobridge.Prelude.{
  ℕ, ◌+◌, ◌-◌, ◌*◌, ◌/◌, ◌%◌, ◌^◌, Bool, true, false, not, ◌&&◌, ◌||◌, Option, none, some, List, [],
  ◌∷◌, ◌++◌, length, get_or, take, drop, ltb, ◌==◌, if◌then◌else◌, u32,
}

abbrev pub net_frame_max : ℕ
net_frame_max = 2048

-- The state of the callbacks, with the machine of the command core. `rx` is the first `net_rx_len`
-- bytes of `net_rx`, `pending_tx` likewise, `session` the pcb of the session, and `sent` what has
-- been written to it.
pub record Endpoint (M : Type 0) : Type 0 where
  pub machine : M
  pub session : Option ℕ
  pub rx : List ℕ
  pub pending_tx : List ℕ
  pub sent : List ℕ

-- What lwIP answers: the space in the send buffer, and whether a write is taken.
pub record Socket : Type 0 where
  pub space : ℕ
  pub takes : Bool

unfoldable pub is_session : Option ℕ → ℕ → Bool
is_session none pcb = false
is_session (some current) pcb = current == pcb

abbrev pub is_none : Option ℕ → Bool
is_none none = true
is_none (some pcb) = false

-- The length that the first four bytes are.
unfoldable pub frame_len : List ℕ → ℕ
frame_len rx =
    get_or rx 0 0 * 2 ^ 24 + get_or rx 1 0 * 2 ^ 16 + get_or rx 2 0 * 2 ^ 8 + get_or rx 3 0

-- The prefix of a response.
unfoldable pub prefix_of : ℕ → List ℕ
prefix_of n = n / 2 ^ 24 % 256 ∷ n / 2 ^ 16 % 256 ∷ n / 2 ^ 8 % 256 ∷ n % 256 ∷ []

module _ {M : Type 0} where
  abbrev pub reset_frame : Endpoint M → Endpoint M
  reset_frame e = record e { rx = []; pending_tx = [] }

  unfoldable pub session_close : Endpoint M → ℕ → Endpoint M
  session_close e pcb =
      reset_frame (record e { session = if is_session e.session pcb then none else e.session })

  abbrev pub write_some : Endpoint M → ℕ → Endpoint M
  write_some e n = record e {
    sent = e.sent ++ take n e.pending_tx;
    pending_tx = drop n e.pending_tx;
  }

  unfoldable pub sent_cb : Endpoint M → ℕ → Socket → Endpoint M
  sent_cb e pcb socket =
      if not (is_session e.session pcb) || length e.pending_tx == 0 || socket.space == 0
      then e
      else if not socket.takes
      then e
      else write_some e
          (if ltb (length e.pending_tx) socket.space then length e.pending_tx else socket.space)

  unfoldable pub err_cb : Endpoint M → Endpoint M
  err_cb e = reset_frame (record e { session = none })

  -- Whether the connection is taken, or aborted.
  unfoldable pub accept_cb : Endpoint M → Bool → Option ℕ → Bool × Endpoint M
  accept_cb e failed none = (false, e)
  accept_cb e failed (some newpcb) =
      if failed || not (is_none e.session) || not (length e.pending_tx == 0)
      then (false, e)
      else (true, reset_frame (record e { session = some newpcb }))

  -- The session is closed on an overflow.
  abbrev pub close_on : ℕ → Bool × Endpoint M → Endpoint M
  close_on pcb (true, e) = session_close e pcb
  close_on pcb (false, e) = e

  -- `command` is `command_process_frame` with room for 54 bytes; `socket` is what lwIP answers
  -- when so many bytes have been sent.
  module _ (command : M → List ℕ → List ℕ × M) (socket : ℕ → Socket) where
    -- The response to a frame, behind its processing.
    unfoldable pub respond : Endpoint M → ℕ → List ℕ → Endpoint M
    respond e pcb [] = e
    respond e pcb (r ∷ resp) =
        if not (length e.pending_tx == 0)
        then session_close e pcb
        else sent_cb (record e { pending_tx = prefix_of (length (r ∷ resp)) ++ r ∷ resp }) pcb
            (socket (length e.sent))

    unfoldable pub process_frame : Endpoint M → ℕ → Endpoint M
    process_frame e pcb =
        let answer = command e.machine (drop 4 e.rx) in
        respond (record e { machine = answer.1; rx = [] }) pcb answer.0

    -- The loop over the bytes of a pbuf, with the flag `overflow`. It is left when the session is
    -- closed.
    unfoldable pub recv_bytes : ℕ → Bool → List ℕ → Endpoint M → Bool × Endpoint M
    recv_bytes pcb overflow [] e = (overflow, e)
    recv_bytes pcb overflow (b ∷ bytes) e =
        let rx = e.rx ++ b ∷ [] in
        let grown = record e { rx = rx } in
        let bad = length rx == 4 && (frame_len rx == 0 || ltb (net_frame_max - 4) (frame_len rx)) in
        let framed =
          if length rx == u32 (4 + frame_len rx) then process_frame grown pcb else grown in
        let in_prefix = recv_bytes pcb (overflow || bad) bytes grown in
        let in_frame = recv_bytes pcb overflow bytes framed in
        if ltb (length e.rx) 4
        then in_prefix
        else if is_none framed.session
        then (true, framed)
        else in_frame

    -- The loop over the chain of pbufs.
    unfoldable pub recv_chain : ℕ → List (List ℕ) → Endpoint M → Bool × Endpoint M
    recv_chain pcb [] e = (false, e)
    recv_chain pcb (bytes ∷ chain) e =
        let one = recv_bytes pcb false bytes e in
        let rest = recv_chain pcb chain one.1 in if one.0 then one else rest

    -- A call with no pbuf says that the peer has closed.
    unfoldable pub recv_cb : ℕ → Bool → Option (List (List ℕ)) → Endpoint M → Endpoint M
    recv_cb pcb failed none e = if is_session e.session pcb then session_close e pcb else e
    recv_cb pcb failed (some chain) e =
        if not (is_session e.session pcb)
        then e
        else if failed
        then session_close e pcb
        else close_on pcb (recv_chain pcb chain e)
