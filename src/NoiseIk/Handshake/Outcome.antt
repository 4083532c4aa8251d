-- ===== src/NoiseIk/Handshake/Outcome.antt =====
-- What a handshake of firmware/noise_ik.c leaves, on every branch.
use picobridge.Prelude.{
  ℕ, ◌≡◌, ◌≢◌, ◌<◌, ◌⊎◌, inl, inr, refl, ap, arith, true, false, not, ◌||◌, Option, none, some,
  List, [], length, ltb, ◌==◌, Bool-cases, Option-cases,
}
use picobridge.ControllerStore.Types.{Store, slot_count, role_none}
use picobridge.NoiseIk.{
  Crypto, Session, Step, init_message_len, response_len, ◌>>=◌, ◌>>◌, mix_hash, split_transport,
  reset_handshake_state,
}
use picobridge.NoiseIk.Transport.{noise_authenticated_slot, noise_authenticated_role}
use picobridge.NoiseIk.Handshake.{
  answer, match_slot, read_initiator, write_response, run_handshake, finish,
  noise_ik_handshake_respond,
}

-- A chain that succeeds has succeeded at its first step.
>>=-some :
    {A B : Type 0} (m : Step A) (f : A → Step B) (s : Session) (b : B) (s' : Session)
    → (m >>= f) s ≡ (some b, s')
    → (a : A) × (between : Session) × (m s ≡ (some a, between)) × (f a between ≡ (some b, s'))
>>=-some {A} {B} m f s b s' h = from (m s) refl h
  where
    no_step : none ≡ some b → ⊥
    no_step e = cc

    from :
        (p : Option A × Session)
        → m s ≡ p
        → elim p.0 as (λ x. Option B × Session) [ none ↦ (none, p.1) | some a ↦ f a p.1 ]
          ≡ (some b, s')
        → (a : A) × (between : Session) × (m s ≡ (some a, between)) × (f a between ≡ (some b, s'))
    from (none, between) e h = absurd (no_step (ap (λ (q : Option B × Session). q.0) h))
    from (some a, between) e h = (a, between, e, h)

-- `P` holds of every session that a step leaves when it succeeds.
abbrev Ends : {A : Type 0} → (Session → Type 0) → Step A → Type 0
Ends {A} P m = (s : Session) (a : A) (s' : Session) → m s ≡ (some a, s') → P s'

abbrev pub IsStarting : Session → Type 0
IsStarting s = (s.receive_nonce ≡ 0) × (s.send_nonce ≡ 0)

module _ (crypto : Crypto) where
  -- A reset session authenticates no one.
  pub reset_clears :
      (s : Session)
      → ((reset_handshake_state crypto s).1.ready ≡ false)
        × ((reset_handshake_state crypto s).1.authenticated_slot ≡ slot_count)
        × ((reset_handshake_state crypto s).1.authenticated_role ≡ role_none)
  unfolding reset_handshake_state mix_hash
  reset_clears s = (ground arith, ground arith, ground arith)

  split_starts :
      {A : Type 0} (a : A) → Ends IsStarting (split_transport crypto >> (λ s. (some a, s)))
  unfolding split_transport
  split_starts a s b s' h = elim (Option-cases (crypto.hkdf s.ck [])) [
    | inl failed ↦ absurd (ground arith)
    | inr (derived, e) ↦ (ground arith, ground arith)
  ]

  write_response_starts :
      (message key : List ℕ) (keypair : Option (List ℕ × List ℕ))
      → Ends IsStarting (write_response crypto message key keypair)
  unfolding write_response split_transport
  write_response_starts message key keypair s a s' h = (ground arith, ground arith)

  -- A handshake that is answered: the initiator's static key, decrypted from the message, is in
  -- the store, and the session is that controller's, with both directions' nonces at their start.
  pub record IsAnswered (controllers : Option Store) (message : List ℕ) (s s' : Session)
      : Type 0 where
    pub initiator_static : List ℕ
    pub between : Session
    pub decrypted : read_initiator crypto message s ≡ (some initiator_static, between)
    pub slot : ℕ
    pub role : ℕ
    pub matched : match_slot controllers initiator_static ≡ some (slot, role)
    pub in_session : s'.ready ≡ true
    pub for_slot : noise_authenticated_slot s' ≡ slot
    pub for_role : noise_authenticated_role s' ≡ role
    pub starting : IsStarting s'

  pub data HandshakeOutcome (controllers : Option Store) (message : List ℕ) (room : ℕ) (s : Session)
      (p : Option (List ℕ) × Session) : Type 0 where
    malformed :
        (length message ≢ init_message_len) ⊎ (room < response_len)
        → p ≡ (none, s)
        → HandshakeOutcome controllers message room s p
    answered :
        (response : List ℕ)
        → p.0 ≡ some response
        → IsAnswered controllers message s p.1
        → HandshakeOutcome controllers message room s p
    rejected :
        p.0 ≡ none
        → p.1.ready ≡ false
        → noise_authenticated_slot p.1 ≡ slot_count
        → noise_authenticated_role p.1 ≡ role_none
        → HandshakeOutcome controllers message room s p

  -- The part of it behind the initiator's static key.
  record IsMatched (controllers : Option Store) (key : List ℕ) (s' : Session) : Type 0 where
    slot : ℕ
    role : ℕ
    matched : match_slot controllers key ≡ some (slot, role)
    in_session : s'.ready ≡ true
    for_slot : noise_authenticated_slot s' ≡ slot
    for_role : noise_authenticated_role s' ≡ role
    starting : IsStarting s'

  answered_by :
      (controllers : Option Store) (message : List ℕ) (keypair : Option (List ℕ × List ℕ))
      (key : List ℕ) (s : Session) (response : List ℕ) (s' : Session)
      → answer crypto controllers message keypair key s ≡ (some response, s')
      → IsMatched controllers key s'
  unfolding answer noise_authenticated_slot noise_authenticated_role
  answered_by controllers message keypair key s response s' h =
      elim (Option-cases (match_slot controllers key)) [
        | inl missing ↦ absurd (ground arith)
        | inr ((slot, role), e) ↦
            elim (Option-cases (write_response crypto message key keypair s).0) [
              | inl failed ↦ absurd (ground arith)
              | inr (sent, w) ↦
                  let start : IsStarting (write_response crypto message key keypair s).1 =
                    write_response_starts message key keypair s sent
                      (write_response crypto message key keypair s).1
                      (λ i. (w i, (write_response crypto message key keypair s).1)) in
                  record {
                    slot = slot;
                    role = role;
                    matched = e;
                    in_session = ground arith;
                    for_slot = ground arith;
                    for_role = ground arith;
                    starting = (ground arith, ground arith);
                  }
            ]
      ]

  run-IsAnswered :
      (controllers : Option Store) (message : List ℕ) (keypair : Option (List ℕ × List ℕ))
      (s : Session) (response : List ℕ) (s' : Session)
      → run_handshake crypto controllers message keypair s ≡ (some response, s')
      → IsAnswered controllers message s s'
  unfolding run_handshake
  run-IsAnswered controllers message keypair s response s' h =
      let read =
        >>=-some (read_initiator crypto message) (answer crypto controllers message keypair) s
          response s' h in
      let a = answered_by controllers message keypair read.0 read.1 response s' read.3 in
      record {
        initiator_static = read.0;
        between = read.1;
        decrypted = read.2;
        slot = a.slot;
        role = a.role;
        matched = a.matched;
        in_session = a.in_session;
        for_slot = a.for_slot;
        for_role = a.for_role;
        starting = a.starting;
      }

  -- A handshake of the wrong size changes nothing. Any other either is answered, for a controller
  -- of the store, or leaves a session that authenticates no one.
  pub handshake-HandshakeOutcome :
      (controllers : Option Store) (message : List ℕ) (room : ℕ)
      (keypair : Option (List ℕ × List ℕ)) (s : Session)
      → HandshakeOutcome controllers message room s
          (noise_ik_handshake_respond crypto controllers message room keypair s)
  unfolding noise_ik_handshake_respond finish noise_authenticated_slot noise_authenticated_role
  handshake-HandshakeOutcome controllers message room keypair s =
      elim (Bool-cases (not (length message == init_message_len) || ltb room response_len)) [
        | inl bad ↦ rw bad (malformed (ground arith) refl)
        | inr good ↦ rw good (finished (run_handshake crypto controllers message keypair s) refl)
      ]
    where
      finished :
          (p : Option (List ℕ) × Session)
          → run_handshake crypto controllers message keypair s ≡ p
          → HandshakeOutcome controllers message room s (finish crypto p)
      finished (some response, s') e =
          answered response refl (run-IsAnswered controllers message keypair s response s' e)
      finished (none, s') e =
          let r = reset_clears s' in rejected refl r.0 (rw r.0 refl) (rw r.0 refl)
