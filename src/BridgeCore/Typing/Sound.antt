-- ===== src/BridgeCore/Typing/Sound.antt =====
-- A staging loop that returns OK has read the UTF-8 encoding of a text.
use picobridge.Prelude.{
  ℕ, zero, suc, ◌≤◌, ◌≡◌, ◌≢◌, refl, ap, sym, ◌∙◌, arith, List, [], ◌∷◌, ◌++◌, length, true, false,
  All, get_or, ◌⊎◌, inl, inr, length-append, Bool-cases,
}
use picobridge.BridgeCore.Types.{Status, ok, Stroke, no_stroke, Core}
use picobridge.Prelude.{◌==◌, ◌&&◌}
use picobridge.BridgeCore.Stage.{
  Options, Turn, go, stop, stage_loop, reject, stage_decoded, stage_char, store_key, map_key,
  next_cell, starts_with_lf, tail_bytes, allows_lf,
}
use picobridge.BridgeCore.Utf8.{decode_utf8, Decoded}
use picobridge.BridgeCore.Utf8.Encode.{IsScalarValue, IsByte, encode, lead_byte, trail_bytes}
use picobridge.BridgeCore.Utf8.RoundTrip.{decode-IsEncoding, IsEncoding}

-- A turn that goes on does so behind the bytes it was given; one that stops has an error.
abbrev Goes : List ℕ → Turn → Type 0
Goes rest (go core rest') = rest' ≡ rest
Goes rest (stop ok) = ⊥
Goes rest (stop _) = Unit

store_key-Goes :
    (o : Options) (cp : ℕ) (core : Core) (i : ℕ) (rest : List ℕ) (mapped : Status × Stroke)
    → Goes rest (store_key o cp core i rest mapped)
unfolding store_key
store_key-Goes o cp core i rest (ok, s) = refl
store_key-Goes o cp core i rest (_, s) = tt

stage_char-Goes :
    (o : Options) (core : Core) (cp : ℕ) (rest : List ℕ) → Goes rest (stage_char o core cp rest)
unfolding stage_char
stage_char-Goes o core cp rest = ground (
  arith,
  store_key-Goes o cp (next_cell core) core.stroke_count rest
      (map_key o cp (get_or core.strokes core.stroke_count no_stroke)),
)

-- What a turn on `bytes` can do: stop with an error, or go on behind one character, or behind the
-- LF that follows a CR.
pub data Result (d : Decoded) : Turn → Type 0 where
  stopped : {status : Status} → status ≢ ok → Result d (stop status)
  on_rest : {core : Core} → d.status ≡ ok → Result d (go core d.rest)
  on_tail :
      {core : Core} {bytes : List ℕ}
      → d.status ≡ ok
      → d.rest ≡ 10 ∷ bytes
      → Result d (go core bytes)

turn-Result :
    (d : Decoded) (bytes : List ℕ) (t : Turn)
    → Goes bytes t
    → d.status ≡ ok
    → (d.rest ≡ bytes) ⊎ (d.rest ≡ 10 ∷ bytes)
    → Result d t
turn-Result d bytes (go core rest) g e (inl same) = rw (g, ← same) (on_rest e)
turn-Result d bytes (go core rest) g e (inr lf) = on_tail e (lf ∙ ap (λ l. 10 ∷ l) (sym g))
turn-Result d bytes (stop ok) g e h = absurd g
turn-Result d bytes (stop status) g e h = stopped (λ p. cc)

Status-cases : (s : Status) → (s ≡ ok) ⊎ (s ≢ ok)
Status-cases ok = inl refl
Status-cases _ = inr (λ p. cc)

lf_split : (bytes : List ℕ) → starts_with_lf bytes ≡ true → bytes ≡ 10 ∷ tail_bytes bytes
lf_split [] h = cc
lf_split (b ∷ bytes) h = ground arith

stage_decoded-err :
    (o : Options) (core : Core) (d : Decoded)
    → d.status ≢ ok
    → stage_decoded o core d ≡ stop d.status
unfolding stage_decoded
stage_decoded-err o core d ne = ground arith

module _ (o : Options) (core : Core) (d : Decoded) (good : d.status ≡ ok) where
  stage_decoded-crlf :
      (d.cp == 13 && allows_lf o && starts_with_lf d.rest) ≡ true
      → stage_decoded o core d ≡ stage_char o core 10 (tail_bytes d.rest)
  unfolding stage_decoded
  stage_decoded-crlf h = ground arith

  stage_decoded-alone :
      (d.cp == 13 && allows_lf o && starts_with_lf d.rest) ≡ false
      → stage_decoded o core d ≡ stage_char o core d.cp d.rest
  unfolding stage_decoded
  stage_decoded-alone h = ground arith

  stage_decoded-good : Result d (stage_decoded o core d)
  stage_decoded-good = elim (Bool-cases (d.cp == 13 && allows_lf o && starts_with_lf d.rest)) [
    | inl crlf ↦
        let bytes = tail_bytes d.rest in
        rw (stage_decoded-crlf crlf) (
          turn-Result d bytes (stage_char o core 10 bytes) (stage_char-Goes o core 10 bytes) good
            (inr (lf_split d.rest (ground arith))))
    | inr alone ↦ rw (stage_decoded-alone alone) (
        turn-Result d d.rest (stage_char o core d.cp d.rest) (stage_char-Goes o core d.cp d.rest)
          good (inl refl))
  ]

pub stage_decoded-Result :
    (o : Options) (core : Core) (d : Decoded) → Result d (stage_decoded o core d)
stage_decoded-Result o core d = elim (Status-cases d.status) [
  | inr ne ↦ rw (stage_decoded-err o core d ne) (stopped ne)
  | inl good ↦ stage_decoded-good o core d good
]

-- The bytes are the UTF-8 encoding of a text.
pub record IsText (bytes : List ℕ) : Type 0 where
  pub cps : List ℕ
  pub scalar : All IsScalarValue cps
  pub encoded : bytes ≡ encode cps

IsText-cons :
    {lead : ℕ} {bytes : List ℕ} (d : Decoded)
    → IsEncoding lead bytes d
    → IsText d.rest
    → IsText (lead ∷ bytes)
IsText-cons d e rest = record {
  cps = d.cp ∷ rest.cps;
  scalar = (e.scalar, rest.scalar);
  encoded = rw (e.first, e.others, rest.encoded);
}

IsText-lf : {bytes : List ℕ} → IsText bytes → IsText (10 ∷ bytes)
unfolding lead_byte trail_bytes
IsText-lf rest = record {
  cps = 10 ∷ rest.cps;
  scalar = (omega arith, rest.scalar);
  encoded = rw rest.encoded refl;
}

All-drop : (xs ys : List ℕ) → All IsByte (xs ++ ys) → All IsByte ys
All-drop [] ys h = h
All-drop (x ∷ xs) ys h = All-drop xs ys h.1

module _ (o : Options) (fuel lead : ℕ) (bytes : List ℕ) (core : Core)
    (hb : All IsByte (lead ∷ bytes)) (size : length bytes ≤ fuel)
    (ih : (rest : List ℕ) (core : Core)
      → All IsByte rest
      → length rest ≤ fuel
      → (stage_loop fuel o rest core).0 ≡ ok
      → IsText rest) where
  abbrev d : Decoded
  d = decode_utf8 lead bytes

  rest_IsByte : IsEncoding lead bytes d → All IsByte d.rest
  rest_IsByte enc = All-drop (trail_bytes d.cp) d.rest (rw enc.others at hb.1)

  length-rest : IsEncoding lead bytes d → length d.rest ≤ fuel
  length-rest enc = omega (arith, ap length enc.others, length-append (trail_bytes d.cp) d.rest)

  turn-IsText :
      (t : Turn)
      → Result d t
      → stage_decoded o core d ≡ t
      → (stage_loop (suc fuel) o (lead ∷ bytes) core).0 ≡ ok
      → IsText (lead ∷ bytes)
  unfolding stage_loop reject
  turn-IsText t (stopped ne) e h = absurd (ne (rw (e, stage_loop) at h))
  turn-IsText t (on_rest {core = core'} good) e h =
      let enc = decode-IsEncoding lead bytes hb.0 hb.1 good in
      IsText-cons d enc
        (ih d.rest core' (rest_IsByte enc) (length-rest enc) (rw (e, stage_loop) at h))
  turn-IsText t (on_tail {core = core'} {bytes = tail} good lf) e h =
      let enc = decode-IsEncoding lead bytes hb.0 hb.1 good in
      let all : All IsByte (10 ∷ tail) = rw lf at (rest_IsByte enc) in
      let text =
        ih tail core' all.1 (omega (arith, ap length lf, length-rest enc))
          (rw (e, stage_loop) at h) in
      IsText-cons d enc (rw lf (IsText-lf text))

-- A loop with fuel for its bytes that returns OK has read the encoding of a text.
pub loop-IsText :
    (o : Options) (fuel : ℕ) (bytes : List ℕ) (core : Core)
    → All IsByte bytes
    → length bytes ≤ fuel
    → (stage_loop fuel o bytes core).0 ≡ ok
    → IsText bytes
loop-IsText o fuel [] core hb size h = record { cps = []; scalar = tt; encoded = refl }
loop-IsText o zero (lead ∷ bytes) core hb size h = absurd (omega arith)
loop-IsText o (suc fuel) (lead ∷ bytes) core hb size h =
    turn-IsText o fuel lead bytes core hb (omega arith) (λ rest c. loop-IsText o fuel rest c)
      (stage_decoded o core (decode_utf8 lead bytes))
      (stage_decoded-Result o core (decode_utf8 lead bytes)) refl h
