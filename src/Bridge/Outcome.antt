-- ===== src/Bridge/Outcome.antt =====
-- What a frame does to the machine of firmware/bridge_main.c, and that a controller without an
-- administrator's role changes no store.
use picobridge.Prelude.{
  ℕ, ◌-◌, ◌≡◌, inl, inr, refl, sym, ap, arith, Bool, true, false, Option, none, some, List, [], ◌∷◌,
  length, ◌==◌, ==_iff, Bool-cases,
}
use mathlib.Core.Path.{subst}
use picobridge.ControllerStore.Flash.{Board}
use picobridge.NoiseIk.{Crypto, Session, init_message_len, max_plaintext}
use picobridge.NoiseIk.Transport.{noise_decrypt_packet, noise_encrypt_transport_ack}
use picobridge.NoiseIk.Transport.Replay.{
  IsOpened, DecryptOutcome, opened, dropped, decrypt-DecryptOutcome,
}
use picobridge.NoiseIk.Handshake.{noise_ik_handshake_respond}
use picobridge.Bridge.{Machine, World}
use picobridge.Bridge.Handlers.{handle_authenticated_command}
use picobridge.Bridge.Frames.{
  cmd_noise, cmd_encrypted, with_session, handshake_answer, receipt_answer, acknowledge, obey,
  process_frame,
}

module _ (crypto : Crypto) (board : Board) (w : World) where
  -- A command that is carried out: the frame's packet opens in the session, and the machine is what
  -- the command leaves, but for the session, which a receipt may have advanced.
  pub record IsCommanded (m : Machine) (frame : List ℕ) (m' : Machine) : Type 0 where
    pub packet : List ℕ
    pub framed : frame ≡ cmd_encrypted ∷ packet
    pub plaintext : List ℕ
    pub session : Session
    pub opened : IsOpened crypto m.session packet max_plaintext plaintext session
    pub last : Session
    pub obeyed :
        m'
        ≡ with_session
            (handle_authenticated_command board w (with_session m session) plaintext).1
            last

  pub data FrameOutcome (m : Machine) (frame : List ℕ) (p : List ℕ × Machine) : Type 0 where
    ignored : p ≡ ([], m) → FrameOutcome m frame p
    shaken :
        (message : List ℕ)
        → frame ≡ cmd_noise ∷ message
        → length message ≡ init_message_len
        → (session : Session) → p.1 ≡ with_session m session
        → FrameOutcome m frame p
    commanded : IsCommanded m frame p.1 → FrameOutcome m frame p

  answer_session :
      (m : Machine) (r : Option (List ℕ) × Session) → (handshake_answer m r).1 ≡ with_session m r.1
  unfolding handshake_answer
  answer_session m (none, s) = refl
  answer_session m (some response, s) = refl

  receipt_session :
      (m : Machine) (r : Option (List ℕ) × Session) → (receipt_answer m r).1 ≡ with_session m r.1
  unfolding receipt_answer
  receipt_session m (none, s) = refl
  receipt_session m (some receipt, s) = refl

  acknowledge_session :
      (room : ℕ) (a : Bool × Machine)
      → (last : Session) × ((acknowledge crypto board w room a).1 ≡ with_session a.1 last)
  unfolding acknowledge
  acknowledge_session room (false, m) = (m.session, refl)
  acknowledge_session room (true, m) =
      let sent = noise_encrypt_transport_ack crypto m.cmd_ack_status room m.session in
      (sent.1, receipt_session m sent)

  obey-FrameOutcome :
      (m : Machine) (packet : List ℕ) (room : ℕ) (r : Option (List ℕ) × Session)
      → DecryptOutcome crypto m.session packet max_plaintext r
      → FrameOutcome m (cmd_encrypted ∷ packet) (obey crypto board w m room r)
  unfolding obey
  obey-FrameOutcome m packet room (none, s) (dropped e same) =
      ignored (ap (λ (x : Session). ([], with_session m x)) same)
  obey-FrameOutcome m packet room (some plaintext, s) (dropped e same) = absurd (ground arith)
  obey-FrameOutcome m packet room (none, s) (opened plaintext e o) = absurd (ground arith)
  obey-FrameOutcome m packet room (some plaintext, s) (opened text e o) =
      let done = handle_authenticated_command board w (with_session m s) plaintext in
      let sent = acknowledge_session room done in
      let same : text ≡ plaintext = ground arith in
      commanded (record {
        packet = packet;
        framed = refl;
        plaintext = plaintext;
        session = s;
        opened = subst (λ x. IsOpened crypto m.session packet max_plaintext x s) same o;
        last = sent.0;
        obeyed = sent.1;
      })

  pub frame-FrameOutcome :
      (m : Machine) (frame : List ℕ) (resp_cap : ℕ)
      → FrameOutcome m frame (process_frame crypto board w m frame resp_cap)
  unfolding process_frame
  frame-FrameOutcome m [] resp_cap = ignored refl
  frame-FrameOutcome m (b ∷ message) resp_cap = elim (Bool-cases (b == cmd_noise)) [
    | inl noise ↦ elim (Bool-cases (length message == init_message_len)) [
      | inl sized ↦
          let answer =
            noise_ik_handshake_respond crypto (some m.controllers) message (resp_cap - 1) w.keypair
              m.session in
          rw (noise, sized)
            (shaken message (ap (λ x. x ∷ message) ((==_iff b cmd_noise).0 noise))
              ((==_iff (length message) init_message_len).0 sized) answer.1
              (answer_session m answer))
      | inr wrong ↦ rw (noise, wrong) (ignored refl)
    ]
    | inr no_noise ↦ elim (Bool-cases (b == cmd_encrypted)) [
      | inl sealed ↦ elim (Bool-cases (length message == 0)) [
        | inl nothing ↦ rw (no_noise, sealed, nothing) (ignored refl)
        | inr something ↦
            let o =
              obey-FrameOutcome m message (resp_cap - 1)
                (noise_decrypt_packet crypto message max_plaintext m.session)
                (decrypt-DecryptOutcome crypto m.session message max_plaintext) in
            rw (no_noise, sealed, something)
              (subst
                (λ x. FrameOutcome m (x ∷ message) (
                  obey crypto board w m (resp_cap - 1)
                    (noise_decrypt_packet crypto message max_plaintext m.session)))
                (sym ((==_iff b cmd_encrypted).0 sealed)) o)
      ]
      | inr unknown ↦ rw (no_noise, unknown) (ignored refl)
    ]
  ]
