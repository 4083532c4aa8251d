-- ===== src/NetEndpoint/Bytes.antt =====
-- What one byte of a stream does to the framing of firmware/net_endpoint.c.
use picobridge.Prelude.{
  ℕ, ◌+◌, ◌^◌, ◌≤◌, ◌<◌, ◌≡◌, ◌⊎◌, inl, inr, refl, sym, ap, ◌∙◌, arith, true, false, not, ◌||◌,
  Option, none, List, [], ◌∷◌, ◌++◌, length, length-append, drop, ltb, ◌==◌, if◌then◌else◌,
  Bool-cases, All, All-get_or, u32,
}
use mathlib.Core.Path.{subst}
use mathlib.Core.List.{append_assoc, append-nil}
use picobridge.BridgeCore.Utf8.Encode.{IsByte}
use picobridge.NetEndpoint.{
  net_frame_max, Endpoint, prefix_of, Socket, is_session, is_none, frame_len, session_close,
  sent_cb, respond, process_frame, recv_bytes,
}

pub frame_len-bound : (rx : List ℕ) → All IsByte rx → frame_len rx < 2 ^ 32
unfolding frame_len
frame_len-bound rx h = omega (
  arith,
  All-get_or IsByte rx 0 0 (omega arith) h,
  All-get_or IsByte rx 1 0 (omega arith) h,
  All-get_or IsByte rx 2 0 (omega arith) h,
  All-get_or IsByte rx 3 0 (omega arith) h,
)

pub frame_len-append : (rx ys : List ℕ) → 4 ≤ length rx → frame_len (rx ++ ys) ≡ frame_len rx
unfolding frame_len
frame_len-append [] ys h = absurd (omega arith)
frame_len-append (a ∷ []) ys h = absurd (omega arith)
frame_len-append (a ∷ b ∷ []) ys h = absurd (omega arith)
frame_len-append (a ∷ b ∷ c ∷ []) ys h = absurd (omega arith)
frame_len-append (a ∷ b ∷ c ∷ d ∷ rx) ys h = refl

-- A length that is refused, behind its four bytes.
pub record IsBad (rx : List ℕ) : Type 0 where
  pub whole : 4 ≤ length rx
  pub refused : (frame_len rx ≡ 0) ⊎ (2044 < frame_len rx)
  pub word : frame_len rx < 2 ^ 32

pub IsBad-append : (rx ys : List ℕ) → IsBad rx → IsBad (rx ++ ys)
IsBad-append rx ys bad =
    let same = frame_len-append rx ys bad.whole in
    record {
      whole = omega (arith, length-append rx ys, bad.whole);
      refused = ground (arith, same, bad.refused);
      word = omega (arith, same, bad.word);
    }

-- What one byte adds, and what it does when it completes a frame.
abbrev pub grown : {M : Type 0} → ℕ → Endpoint M → Endpoint M
grown b e = record e { rx = e.rx ++ b ∷ [] }

module _ {M : Type 0} (command : M → List ℕ → List ℕ × M) (socket : ℕ → Socket) (pcb : ℕ) where
  -- Bytes behind such a length are taken in and start nothing.
  pub recv_bad :
      (ys : List ℕ) (e : Endpoint M)
      → IsBad e.rx
      → length e.rx + length ys ≤ net_frame_max
      → is_none e.session ≡ false
      → recv_bytes command socket pcb true ys e ≡ (true, record e { rx = e.rx ++ ys })
  unfolding recv_bytes
  recv_bad [] e bad fits live = ap (λ l. (true, record e { rx = l })) (sym (append-nil e.rx))
  recv_bad (y ∷ ys) e bad fits live =
      let rx : List ℕ = e.rx ++ y ∷ [] in
      let worse = IsBad-append e.rx (y ∷ []) bad in
      let behind : ltb (length e.rx) 4 ≡ false = ground (arith, bad.whole) in
      let unframed : (length rx == u32 (4 + frame_len rx)) ≡ false =
        ground (arith, length-append e.rx (y ∷ []), worse.refused, worse.word, bad.whole) in
      rw (behind, unframed, live)
        (recv_bad ys (record e { rx = rx }) worse (omega (arith, length-append e.rx (y ∷ []), fits))
            live
          ∙ ap (λ l. (true, record e { rx = l })) (append_assoc e.rx (y ∷ []) ys))

  -- Sending changes neither the frame nor the session.
  pub sent_cb_keeps :
      (e : Endpoint M) (s : Socket)
      → ((sent_cb e pcb s).rx ≡ e.rx) × ((sent_cb e pcb s).session ≡ e.session)
  unfolding sent_cb
  sent_cb_keeps e s =
      elim (Bool-cases
        (not (is_session e.session pcb) || length e.pending_tx == 0 || s.space == 0)) [
          | inl idle ↦ rw idle (refl, refl)
          | inr busy ↦ elim (Bool-cases s.takes) [
            | inl takes ↦ rw (busy, takes) (refl, refl)
            | inr full ↦ rw (busy, full) (refl, refl)
          ]
        ]

  -- A frame leaves no byte of itself, and the session as it was or closed.
  pub respond_leaves :
      (e : Endpoint M) (resp : List ℕ)
      → e.rx ≡ []
      → is_session e.session pcb ≡ true
      → ((respond command socket e pcb resp).rx ≡ [])
        × (((respond command socket e pcb resp).session ≡ e.session)
            ⊎ ((respond command socket e pcb resp).session ≡ none))
  unfolding respond session_close
  respond_leaves e [] empty_rx ours = (empty_rx, inl refl)
  respond_leaves e (r ∷ resp) empty_rx ours = elim (Bool-cases (length e.pending_tx == 0)) [
    | inr pending ↦ rw (pending, ours) (refl, inr refl)
    | inl idle ↦
        let kept =
          sent_cb_keeps (record e { pending_tx = prefix_of (length (r ∷ resp)) ++ r ∷ resp })
            (socket (length e.sent)) in
        rw idle (kept.0 ∙ empty_rx, inl kept.1)
  ]

  abbrev pub framed : ℕ → Endpoint M → Endpoint M
  framed b e =
      if length (e.rx ++ b ∷ []) == u32 (4 + frame_len (e.rx ++ b ∷ []))
      then process_frame command socket (grown b e) pcb
      else grown b e

  pub framed_leaves :
      (b : ℕ) (e : Endpoint M)
      → All IsByte (e.rx ++ b ∷ [])
      → is_session e.session pcb ≡ true
      → All IsByte (framed b e).rx
        × (((framed b e).session ≡ e.session) ⊎ ((framed b e).session ≡ none))
  unfolding process_frame
  framed_leaves b e bytes ours =
      elim (Bool-cases (length (e.rx ++ b ∷ []) == u32 (4 + frame_len (e.rx ++ b ∷ [])))) [
        | inr part ↦ rw part (bytes, inl refl)
        | inl complete ↦
            let answer = command e.machine (drop 4 (e.rx ++ b ∷ [])) in
            let left =
              respond_leaves (record e { machine = answer.1; rx = [] }) answer.0 refl ours in
            rw complete (subst (All IsByte) (sym left.0) tt, left.1)
      ]

  -- A session that is not closed is still this one.
  pub still_ours :
      (s s' : Option ℕ)
      → (s' ≡ s) ⊎ (s' ≡ none)
      → is_none s' ≡ false
      → is_session s pcb ≡ true
      → is_session s' pcb ≡ true
  unfolding is_session
  still_ours s s' (inl same) live ours = ap (λ x. is_session x pcb) same ∙ ours
  still_ours s s' (inr closed) live ours = absurd (ground arith)
