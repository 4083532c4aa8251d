-- ===== src/NetEndpoint/Segments.antt =====
-- How a stream is cut into segments does not matter to the framing of firmware/net_endpoint.c.
use picobridge.Prelude.{
  ℕ, ◌+◌, ◌-◌, ◌≤◌, ◌≡◌, inl, inr, refl, sym, ap, ◌∙◌, arith, Bool, true, false, ◌&&◌, ◌||◌, Option,
  none, some, List, [], ◌∷◌, ◌++◌, length, length-append, ltb, ◌==◌, if◌then◌else◌, Bool-cases, All,
  All-append,
}
use picobridge.BridgeCore.Utf8.Encode.{IsByte}
use picobridge.NetEndpoint.{
  net_frame_max, Endpoint, Socket, is_session, is_none, frame_len, session_close, recv_bytes,
  recv_chain, close_on, recv_cb,
}
use picobridge.NetEndpoint.Bytes.{
  IsBad, frame_len-bound, recv_bad, grown, framed, framed_leaves, still_ours,
}

module _ {M : Type 0} (command : M → List ℕ → List ℕ × M) (socket : ℕ → Socket) (pcb : ℕ) where
  -- The rest of the stream, behind what a first part has left.
  abbrev later : List ℕ → Bool × Endpoint M → Endpoint M
  later ys (true, e) = session_close e pcb
  later ys (false, e) = close_on pcb (recv_bytes command socket pcb false ys e)

  abbrev is_bad : List ℕ → Bool
  is_bad rx = length rx == 4 && (frame_len rx == 0 || ltb (net_frame_max - 4) (frame_len rx))

  is_bad-IsBad : (rx : List ℕ) → All IsByte rx → is_bad rx ≡ true → IsBad rx
  is_bad-IsBad rx bytes h = record {
    whole = ground arith;
    refused = elim (Bool-cases (frame_len rx == 0)) [
      | inl nothing ↦ inl (ground arith)
      | inr something ↦ inr (ground arith)
    ];
    word = frame_len-bound rx bytes;
  }

  -- Behind a refused length it is the same whether the rest comes at once.
  bad_segments :
      (xs ys : List ℕ) (e : Endpoint M)
      → IsBad e.rx
      → length e.rx + (length xs + length ys) ≤ net_frame_max
      → is_none e.session ≡ false
      → close_on pcb (recv_bytes command socket pcb true (xs ++ ys) e)
        ≡ later ys (recv_bytes command socket pcb true xs e)
  unfolding session_close
  bad_segments xs ys e bad fits live =
      rw
        (
          recv_bad command socket pcb (xs ++ ys) e bad (omega (arith, length-append xs ys, fits))
              live,
          recv_bad command socket pcb xs e bad (omega (arith, fits)) live,
        )
        refl

  not_none : (s : Option ℕ) → is_session s pcb ≡ true → is_none s ≡ false
  unfolding is_session
  not_none none h = absurd (ground arith)
  not_none (some p) h = refl

  recv_bytes-append :
      (xs ys : List ℕ) (e : Endpoint M)
      → All IsByte e.rx
      → All IsByte xs
      → length xs + length ys ≤ 2044
      → is_session e.session pcb ≡ true
      → close_on pcb (recv_bytes command socket pcb false (xs ++ ys) e)
        ≡ later ys (recv_bytes command socket pcb false xs e)
  unfolding recv_bytes
  recv_bytes-append [] ys e rx_bytes bytes fits ours = refl
  recv_bytes-append (b ∷ xs) ys e rx_bytes bytes fits ours =
      let grown_bytes : All IsByte (e.rx ++ b ∷ []) =
        All-append IsByte e.rx (b ∷ []) rx_bytes (bytes.0, tt) in
      elim (Bool-cases (ltb (length e.rx) 4)) [
        | inl prefix ↦ elim (Bool-cases (is_bad (e.rx ++ b ∷ []))) [
          | inr good ↦
              rw (prefix, good)
                (recv_bytes-append xs ys (grown b e) grown_bytes bytes.1 (omega arith) ours)
          | inl bad ↦
              rw (prefix, bad)
                (bad_segments xs ys (grown b e) (is_bad-IsBad (e.rx ++ b ∷ []) grown_bytes bad)
                  (ground (arith, bad)) (not_none e.session ours))
        ]
        | inr body ↦
            let left = framed_leaves command socket pcb b e grown_bytes ours in
            elim (Bool-cases (is_none (framed command socket pcb b e).session)) [
              | inl closed ↦ rw (body, closed) refl
              | inr live ↦
                  rw (body, live)
                    (recv_bytes-append xs ys (framed command socket pcb b e) left.0 bytes.1
                      (omega arith)
                      (still_ours command socket pcb e.session
                        (framed command socket pcb b e).session left.1 live ours))
            ]
      ]

  -- While the loop runs on, the session stays this one.
  recv_ours :
      (xs : List ℕ) (overflow : Bool) (e : Endpoint M)
      → All IsByte e.rx
      → All IsByte xs
      → is_session e.session pcb ≡ true
      → (recv_bytes command socket pcb overflow xs e).0 ≡ false
      → is_session (recv_bytes command socket pcb overflow xs e).1.session pcb ≡ true
  unfolding recv_bytes
  recv_ours [] overflow e rx_bytes bytes ours = λ h. ours
  recv_ours (b ∷ xs) overflow e rx_bytes bytes ours =
      let grown_bytes : All IsByte (e.rx ++ b ∷ []) =
        All-append IsByte e.rx (b ∷ []) rx_bytes (bytes.0, tt) in
      elim (Bool-cases (ltb (length e.rx) 4)) [
        | inl prefix ↦ rw prefix (recv_ours xs _ (grown b e) grown_bytes bytes.1 ours)
        | inr body ↦
            let left = framed_leaves command socket pcb b e grown_bytes ours in
            elim (Bool-cases (is_none (framed command socket pcb b e).session)) [
              | inl closed ↦ rw (body, closed) (λ h. absurd (ground arith))
              | inr live ↦
                  rw (body, live)
                    (recv_ours xs overflow (framed command socket pcb b e) left.0 bytes.1 (
                      still_ours command socket pcb e.session
                        (framed command socket pcb b e).session left.1 live ours))
            ]
      ]

  closed_ignores : (s : Option ℕ) → is_session (if is_session s pcb then none else s) pcb ≡ false
  unfolding is_session
  closed_ignores s = elim (Bool-cases (is_session s pcb)) [
    | inl ours ↦ rw ours refl
    | inr other ↦ rw other other
  ]

  -- A segment of the session.
  recv_one :
      (xs : List ℕ) (e : Endpoint M)
      → is_session e.session pcb ≡ true
      → recv_cb command socket pcb false (some (xs ∷ [])) e
        ≡ close_on pcb (recv_bytes command socket pcb false xs e)
  unfolding recv_cb recv_chain
  recv_one xs e ours = elim (Bool-cases (recv_bytes command socket pcb false xs e).0) [
    | inl over ↦ rw (ours, over) refl
    | inr on ↦ rw (ours, on) refl
  ]

  recv_other :
      (ys : List ℕ) (e : Endpoint M)
      → is_session e.session pcb ≡ false
      → recv_cb command socket pcb false (some (ys ∷ [])) e ≡ e
  unfolding recv_cb
  recv_other ys e other = rw other refl

  recv_second :
      (ys : List ℕ) (p : Bool × Endpoint M)
      → (p.0 ≡ false → is_session p.1.session pcb ≡ true)
      → later ys p ≡ recv_cb command socket pcb false (some (ys ∷ [])) (close_on pcb p)
  recv_second ys (true, e) ours =
      sym (recv_other ys (session_close e pcb) (unfold session_close in closed_ignores e.session))
  recv_second ys (false, e) ours = sym (recv_one ys e (ours refl))

  -- A stream of up to 2044 bytes that comes to the session in one segment does the same as when it
  -- is cut in two anywhere: the same frames reach the command core, with the same responses sent,
  -- and the session and the buffers end the same, closed by a bad length or not.
  pub segments_lem :
      (xs ys : List ℕ) (e : Endpoint M)
      → All IsByte e.rx
      → All IsByte xs
      → length xs + length ys ≤ 2044
      → is_session e.session pcb ≡ true
      → recv_cb command socket pcb false (some ((xs ++ ys) ∷ [])) e
        ≡ recv_cb command socket pcb false
            (some (ys ∷ []))
            (recv_cb command socket pcb false (some (xs ∷ [])) e)
  segments_lem xs ys e rx_bytes bytes fits ours =
      recv_one (xs ++ ys) e ours
      ∙ recv_bytes-append xs ys e rx_bytes bytes fits ours
      ∙ recv_second ys (recv_bytes command socket pcb false xs e)
          (recv_ours xs false e rx_bytes bytes ours)
      ∙ ap (recv_cb command socket pcb false (some (ys ∷ []))) (sym (recv_one xs e ours))
