-- ===== src/BridgeCore/Typing/Loop.antt =====
-- The staging loop types its text.
use picobridge.Prelude.{
  ℕ, zero, suc, ◌+◌, ◌*◌, ◌≤◌, ◌<◌, ◌≡◌, refl, ◌∙◌, arith, List, [], ◌∷◌, ◌++◌, length, true, false,
  length-append, Bool-cases, inl, inr, All, ◌==◌, ◌&&◌, if◌then◌else◌,
}
use mathlib.Core.List.{append_assoc, append-nil}
use picobridge.BridgeCore.Types.{
  Status, ok, max_strokes, rejected, terminate, Stroke, no_stroke, Core,
}
use picobridge.BridgeCore.Stage.{
  Options, Turn, go, stop, next_cell, is_dead, map_key, add_dead_space, store_key, stage_char,
  allows_lf, stage_decoded, stage_loop, reject, starts_with_lf,
}
use picobridge.BridgeCore.Typing.{
  Typed, typed, refused, space, type_key, type_char, after, then_type, type_chars, heads_lf,
  fold_crlf, type_text,
}
use picobridge.BridgeCore.Utf8.{decode_utf8}
use picobridge.BridgeCore.Utf8.Encode.{IsScalarValue, lead_byte, trail_bytes, encode}
use picobridge.BridgeCore.Utf8.RoundTrip.{decode-encode}
use picobridge.BridgeCore.Typing.Cells.{filled, get_or-cells, put_stroke-filled}

abbrev turn_of : Core → List Stroke → List ℕ → Typed → Turn
turn_of core out rest (typed ks) = go (filled core (out ++ ks)) rest
turn_of core out rest (refused status) = stop status

module _ (o : Options) (core : Core) (out : List Stroke) (cp : ℕ) (rest : List ℕ)
    (room : length out + 2 ≤ max_strokes) where
  add_dead_space-filled :
      (s : Stroke)
      → add_dead_space o cp (filled core (out ++ s ∷ []))
        ≡ filled core (out ++ (if is_dead o cp then s ∷ space ∷ [] else s ∷ []))
  unfolding add_dead_space
  add_dead_space-filled s = elim (Bool-cases (is_dead o cp)) [
    | inl dead ↦
        rw
          (
            dead,
            get_or-cells (out ++ s ∷ []) room',
            put_stroke-filled (out ++ s ∷ []) room' core space,
            append_assoc out (s ∷ []) (space ∷ []),
          )
          refl
    | inr plain ↦ rw plain refl
  ]
    where
      room' : length (out ++ s ∷ []) < max_strokes
      room' = omega (arith, length-append out (s ∷ []))

  store_key-type_key :
      (mapped : Status × Stroke)
      → store_key o cp (next_cell (filled core out)) (length out) rest mapped
        ≡ turn_of core out rest (type_key o cp mapped)
  unfolding store_key type_key
  store_key-type_key (ok, s) =
      rw (put_stroke-filled out (omega arith) core s, add_dead_space-filled s) refl
  store_key-type_key (_, s) = refl

  stage_char-type_char :
      stage_char o (filled core out) cp rest ≡ turn_of core out rest (type_char o cp)
  unfolding stage_char type_char
  stage_char-type_char =
      rw
        (
          get_or-cells out (omega arith),
          put_stroke-filled out (omega arith) core,
          store_key-type_key (map_key o cp no_stroke),
        )
        (ground arith)

-- What the loop returns when the rest of the text types `t`.
abbrev pub outcome : Core → List Stroke → Typed → Status × Core
outcome core out (typed ks) = (ok, filled core (out ++ ks))
outcome core out (refused status) = (status, terminate core rejected)

outcome-after :
    (core : Core) (out ks : List Stroke) (t : Typed)
    → outcome core (out ++ ks) t ≡ outcome core out (after ks t)
outcome-after core out ks (typed ls) = rw (append_assoc out ks ls)
outcome-after core out ks (refused status) = refl

-- A turn, and then the loop on the bytes that it leaves.
round :
    (o : Options) (core : Core) (out : List Stroke) (fuel lead : ℕ) (bytes rest : List ℕ)
    (t u : Typed)
    → stage_decoded o (filled core out) (decode_utf8 lead bytes) ≡ turn_of core out rest t
    → ((ks : List Stroke)
        → t ≡ typed ks
        → stage_loop fuel o rest (filled core (out ++ ks)) ≡ outcome core (out ++ ks) u)
    → stage_loop (suc fuel) o (lead ∷ bytes) (filled core out) ≡ outcome core out (then_type t u)
unfolding stage_loop reject terminate
round o core out fuel lead bytes rest (typed ks) u e ih =
    rw (e, stage_loop) (ih ks refl ∙ outcome-after core out ks u)
round o core out fuel lead bytes rest (refused status) u e ih = rw (e, stage_loop) refl

-- At most two strokes for a character.
length-type_key :
    (o : Options) (cp : ℕ) (mapped : Status × Stroke) (ks : List Stroke)
    → type_key o cp mapped ≡ typed ks
    → length ks ≤ 2
unfolding type_key
length-type_key o cp (ok, s) ks h = ground arith
length-type_key o cp (_, s) ks h = cc

pub length-type_char :
    (o : Options) (cp : ℕ) (ks : List Stroke) → type_char o cp ≡ typed ks → length ks ≤ 2
unfolding type_char
length-type_char o cp ks h = ground (arith, length-type_key o cp (map_key o cp no_stroke) ks)

lead_byte-lf : (cp : ℕ) → (lead_byte cp == 10) ≡ (cp == 10)
unfolding lead_byte
lead_byte-lf cp = ground arith

starts_with_lf-encode : (cps : List ℕ) → starts_with_lf (encode cps) ≡ heads_lf cps
starts_with_lf-encode [] = refl
starts_with_lf-encode (cp ∷ cps) = lead_byte-lf cp

type_text-cons :
    (o : Options) (cp : ℕ) (cps : List ℕ)
    → type_text o (cp ∷ cps) ≡ (
        if cp == 13 && allows_lf o && heads_lf cps
        then type_text o cps
        else then_type (type_char o cp) (type_text o cps))
unfolding type_text type_chars fold_crlf
type_text-cons o cp cps = elim (Bool-cases (allows_lf o)) [
  | inl lf ↦ rw lf (ground arith)
  | inr no_lf ↦ rw no_lf (ground arith)
]

type_char_lf :
    (o : Options) (cps : List ℕ)
    → type_text o (10 ∷ cps) ≡ then_type (type_char o 10) (type_text o cps)
type_char_lf o cps = type_text-cons o 10 cps

module _ (o : Options) (core : Core) where
  -- A character that is typed on its own.
  plain_round :
      (out : List Stroke) (fuel cp : ℕ) (bytes : List ℕ) (u : Typed)
      → IsScalarValue cp
      → length out + 2 ≤ max_strokes
      → (cp == 13 && allows_lf o && starts_with_lf bytes) ≡ false
      → ((ks : List Stroke)
          → length ks ≤ 2
          → stage_loop fuel o bytes (filled core (out ++ ks)) ≡ outcome core (out ++ ks) u)
      → stage_loop (suc fuel) o (lead_byte cp ∷ (trail_bytes cp ++ bytes)) (filled core out)
        ≡ outcome core out (then_type (type_char o cp) u)
  unfolding stage_decoded
  plain_round out fuel cp bytes u sc room alone ih =
      round o core out fuel (lead_byte cp) (trail_bytes cp ++ bytes) bytes (type_char o cp) u
        (rw (decode-encode cp bytes sc, alone) (stage_char-type_char o core out cp bytes room))
        (λ ks e. ih ks (length-type_char o cp ks e))

  -- CR LF.
  crlf_round :
      (out : List Stroke) (fuel : ℕ) (bytes : List ℕ) (u : Typed)
      → length out + 2 ≤ max_strokes
      → allows_lf o ≡ true
      → ((ks : List Stroke)
          → length ks ≤ 2
          → stage_loop fuel o bytes (filled core (out ++ ks)) ≡ outcome core (out ++ ks) u)
      → stage_loop (suc fuel) o (13 ∷ 10 ∷ bytes) (filled core out)
        ≡ outcome core out (then_type (type_char o 10) u)
  unfolding stage_decoded decode_utf8
  crlf_round out fuel bytes u room lf ih =
      round o core out fuel 13 (10 ∷ bytes) bytes (type_char o 10) u
        (rw lf (stage_char-type_char o core out 10 bytes room))
        (λ ks e. ih ks (length-type_char o 10 ks e))

  abbrev Types : List ℕ → Type 0
  Types cps =
      (out : List Stroke) (fuel : ℕ)
      → All IsScalarValue cps
      → length (encode cps) ≤ fuel
      → length out + 2 * length (encode cps) ≤ max_strokes
      → stage_loop fuel o (encode cps) (filled core out) ≡ outcome core out (type_text o cps)

  type_text-nil : type_text o [] ≡ typed []
  unfolding type_text type_chars fold_crlf
  type_text-nil = elim (Bool-cases (allows_lf o)) [
    | inl lf ↦ rw lf refl
    | inr no_lf ↦ rw no_lf refl
  ]

  loop_nil : Types []
  unfolding stage_loop
  loop_nil out zero sc enough room = rw (type_text-nil, append-nil) refl
  loop_nil out (suc fuel) sc enough room = rw (type_text-nil, append-nil) refl

  type_alone :
      (cp : ℕ) (cps : List ℕ)
      → (cp == 13 && allows_lf o && heads_lf cps) ≡ false
      → Types cps
      → Types (cp ∷ cps)
  type_alone cp cps alone ih out zero sc enough room = absurd (omega arith)
  type_alone cp cps alone ih out (suc fuel) sc enough room =
      let size = length-append (trail_bytes cp) (encode cps) in
      rw (type_text-cons o cp cps, alone)
        (plain_round out fuel cp (encode cps) (type_text o cps) sc.0 (omega arith)
          (rw (starts_with_lf-encode cps) alone)
          (λ ks two. ih (out ++ ks) fuel sc.1 (omega arith) (omega (arith, length-append out ks))))

  type_crlf : (cps : List ℕ) → allows_lf o ≡ true → Types cps → Types (13 ∷ 10 ∷ cps)
  unfolding lead_byte trail_bytes
  type_crlf cps lf ih out zero sc enough room = absurd (omega arith)
  type_crlf cps lf ih out (suc fuel) sc enough room =
      rw (type_text-cons o 13 (10 ∷ cps), lf, type_char_lf o cps)
        (crlf_round out fuel (encode cps) (type_text o cps) (omega arith) lf (λ ks two.
          ih (out ++ ks) fuel sc.1.1 (omega arith) (omega (arith, length-append out ks))))

  type_pair : (cp d : ℕ) (cps : List ℕ) → Types cps → Types (d ∷ cps) → Types (cp ∷ d ∷ cps)
  type_pair cp d cps ih ih' = elim (Bool-cases (cp == 13 && allows_lf o && d == 10)) [
    | inl crlf ↦
        let ecp : cp ≡ 13 = ground arith in
        let ed : d ≡ 10 = ground arith in rw (ecp, ed) (type_crlf cps (ground arith) ih)
    | inr alone ↦ type_alone cp (d ∷ cps) alone ih'
  ]

  -- On the encoding of a text, with fuel for its bytes and room for two strokes a byte, the loop
  -- writes what the text types, or rejects it with the status of the specification.
  pub loop-type_text : (cps : List ℕ) → Types cps
  loop-type_text [] = loop_nil
  loop-type_text (cp ∷ []) = type_alone cp [] (ground arith) (loop-type_text [])
  loop-type_text (cp ∷ d ∷ cps) = type_pair cp d cps (loop-type_text cps) (loop-type_text (d ∷ cps))
