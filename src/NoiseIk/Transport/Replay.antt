-- ===== src/NoiseIk/Transport/Replay.antt =====
-- Replay protection of the transport in firmware/noise_ik.c.
use picobridge.Prelude.{
  ℕ, ◌+◌, ◌-◌, ◌≤◌, ◌≡◌, ◌≢◌, inl, inr, refl, sym, ap, ◌∙◌, arith, true, false, Option, none, some,
  List, [], ◌∷◌, length, take, drop, Bool-cases, Option-cases,
}
use picobridge.ControllerStore.Memory.{le_value}
use picobridge.NoiseIk.{Crypto, Session, tag_len, ◌>>=◌}
use picobridge.NoiseIk.Transport.{
  nonce_len, uint64_max, transport_overhead, noise_nonce, packet_refused, decrypt_body,
  noise_decrypt_packet, encrypt_receipt, noise_encrypt_transport_ack,
}

module _ (crypto : Crypto) where
  -- The nonce that a packet carries, its ciphertext and its tag.
  abbrev pub nonce_of : List ℕ → ℕ
  nonce_of packet = le_value (take nonce_len packet)

  abbrev pub ciphertext_of : List ℕ → List ℕ
  ciphertext_of packet = let body = drop nonce_len packet in take (length body - tag_len) body

  abbrev pub tag_of : List ℕ → List ℕ
  tag_of packet = let body = drop nonce_len packet in drop (length body - tag_len) body

  -- A packet that is opened.
  pub record IsOpened (s : Session) (packet : List ℕ) (room : ℕ) (plaintext : List ℕ) (s' : Session)
      : Type 0 where
    pub in_session : s.ready ≡ true
    pub long : transport_overhead ≤ length packet
    pub fits : length packet - nonce_len - tag_len ≤ room
    pub in_order : nonce_of packet ≡ s.receive_nonce
    pub not_last : s.receive_nonce ≢ uint64_max
    pub genuine :
        crypto.auth_decrypt s.receive_key
          (noise_nonce s.receive_nonce)
          []
          (ciphertext_of packet)
          (tag_of packet)
        ≡ some plaintext
    pub counted : s' ≡ record s { receive_nonce = s.receive_nonce + 1 }

  pub data DecryptOutcome (s : Session) (packet : List ℕ) (room : ℕ) (p : Option (List ℕ) × Session)
      : Type 0 where
    opened :
        (plaintext : List ℕ)
        → p.0 ≡ some plaintext
        → IsOpened s packet room plaintext p.1
        → DecryptOutcome s packet room p
    dropped : p.0 ≡ none → p.1 ≡ s → DecryptOutcome s packet room p

  -- What the tests before the cipher leave.
  passed :
      (s : Session) (packet : List ℕ) (room : ℕ)
      → packet_refused s packet room ≡ false
      → (s.ready ≡ true)
        × (transport_overhead ≤ length packet)
        × (length packet - nonce_len - tag_len ≤ room)
        × (nonce_of packet ≡ s.receive_nonce)
        × (s.receive_nonce ≢ uint64_max)
  unfolding packet_refused
  passed s packet room h = (ground arith, ground arith, ground arith, ground arith, ground arith)

  opened_by :
      (s : Session) (packet : List ℕ) (room : ℕ)
      → (s.ready ≡ true)
        × (transport_overhead ≤ length packet)
        × (length packet - nonce_len - tag_len ≤ room)
        × (nonce_of packet ≡ s.receive_nonce)
        × (s.receive_nonce ≢ uint64_max)
      → (o : Option (List ℕ))
      → crypto.auth_decrypt s.receive_key
          (noise_nonce s.receive_nonce)
          []
          (ciphertext_of packet)
          (tag_of packet)
        ≡ o
      → DecryptOutcome s packet room (decrypt_body crypto (drop nonce_len packet) s)
  unfolding decrypt_body
  opened_by s packet room t none e = rw (e, ◌>>=◌) (dropped refl refl)
  opened_by s packet room t (some plaintext) e =
      rw (e, ◌>>=◌)
        (opened plaintext refl (record {
          in_session = t.0;
          long = t.1;
          fits = t.2;
          in_order = t.3;
          not_last = t.4;
          genuine = e;
          counted = refl;
        }))

  -- A packet is opened only in a session, with the next nonce, within its bounds and when the
  -- cipher accepts it under the session's key and that nonce; the nonce is then spent. Otherwise
  -- nothing changes.
  pub decrypt-DecryptOutcome :
      (s : Session) (packet : List ℕ) (room : ℕ)
      → DecryptOutcome s packet room (noise_decrypt_packet crypto packet room s)
  unfolding noise_decrypt_packet
  decrypt-DecryptOutcome s packet room = elim (Bool-cases (packet_refused s packet room)) [
    | inl bad ↦ rw bad (dropped refl refl)
    | inr good ↦
        let t = passed s packet room good in
        rw good (
          opened_by s packet room t
            (crypto.auth_decrypt s.receive_key (noise_nonce s.receive_nonce) []
              (ciphertext_of packet) (tag_of packet))
            refl)
  ]

  -- What goes over the transport of a session: packets in, to a buffer of a size, and receipts
  -- out.
  pub data Traffic : Type 0 where
    arrive : List ℕ → ℕ → Traffic
    answer : ℕ → ℕ → Traffic

  unfoldable pub after : Session → List Traffic → Session
  after s [] = s
  after s (arrive packet room ∷ traffic) =
      after (noise_decrypt_packet crypto packet room s).1 traffic
  after s (answer status room ∷ traffic) =
      after (noise_encrypt_transport_ack crypto status room s).1 traffic

  ack_keeps :
      (s : Session) (status room : ℕ)
      → (noise_encrypt_transport_ack crypto status room s).1.receive_nonce ≡ s.receive_nonce
  unfolding noise_encrypt_transport_ack encrypt_receipt
  ack_keeps s status room = ground arith

  packet_grows :
      (s : Session) (packet : List ℕ) (room : ℕ)
      → s.receive_nonce ≤ (noise_decrypt_packet crypto packet room s).1.receive_nonce
  packet_grows s packet room =
      from (noise_decrypt_packet crypto packet room s) (decrypt-DecryptOutcome s packet room)
    where
      from :
          (p : Option (List ℕ) × Session)
          → DecryptOutcome s packet room p
          → s.receive_nonce ≤ p.1.receive_nonce
      from p (opened plaintext e o) = omega (arith, ap (λ (x : Session). x.receive_nonce) o.counted)
      from p (dropped e same) = omega (arith, ap (λ (x : Session). x.receive_nonce) same)

  after_grows :
      (s : Session) (traffic : List Traffic) → s.receive_nonce ≤ (after s traffic).receive_nonce
  unfolding after
  after_grows s [] = omega arith
  after_grows s (arrive packet room ∷ traffic) = omega (
    arith,
    packet_grows s packet room,
    after_grows (noise_decrypt_packet crypto packet room s).1 traffic,
  )
  after_grows s (answer status room ∷ traffic) = omega (
    arith,
    ack_keeps s status room,
    after_grows (noise_encrypt_transport_ack crypto status room s).1 traffic,
  )

  opened_spends :
      (s : Session) (packet plaintext : List ℕ) (room : ℕ)
      → (noise_decrypt_packet crypto packet room s).0 ≡ some plaintext
      → (nonce_of packet ≡ s.receive_nonce)
        × ((noise_decrypt_packet crypto packet room s).1.receive_nonce ≡ s.receive_nonce + 1)
  opened_spends s packet plaintext room h =
      from (noise_decrypt_packet crypto packet room s) h (decrypt-DecryptOutcome s packet room)
    where
      no_plaintext : none ≡ some plaintext → ⊥
      no_plaintext e = cc

      from :
          (p : Option (List ℕ) × Session)
          → p.0 ≡ some plaintext
          → DecryptOutcome s packet room p
          → (nonce_of packet ≡ s.receive_nonce) × (p.1.receive_nonce ≡ s.receive_nonce + 1)
      from p h (opened t e o) = (o.in_order, ap (λ (x : Session). x.receive_nonce) o.counted)
      from p h (dropped e same) = absurd (no_plaintext (sym e ∙ h))

  -- A packet that has been opened is not opened again, whatever packets and receipts come between.
  pub packet_once :
      (s : Session) (packet plaintext : List ℕ) (room : ℕ) (traffic : List Traffic) (room' : ℕ)
      → (noise_decrypt_packet crypto packet room s).0 ≡ some plaintext
      → (noise_decrypt_packet crypto packet room'
          (after (noise_decrypt_packet crypto packet room s).1 traffic)).0
        ≡ none
  packet_once s packet plaintext room traffic room' h =
      elim (Option-cases (noise_decrypt_packet crypto packet room' later).0) [
        | inl refused ↦ refused
        | inr (again, e) ↦ absurd (
            omega (
              arith,
              opened_spends s packet plaintext room h,
              opened_spends later packet again room' e,
              after_grows (noise_decrypt_packet crypto packet room s).1 traffic,
            ))
      ]
    where
      later : Session
      later = after (noise_decrypt_packet crypto packet room s).1 traffic
