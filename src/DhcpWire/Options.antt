-- ===== src/DhcpWire/Options.antt =====
-- DHCP options as RFC 2132 lays them out, without an offset or fuel, and that the loop of
-- firmware/radio/dhcp_wire.c reads exactly those.
use picobridge.Prelude.{
  ℕ, zero, suc, ◌≤◌, ◌≡◌, ◌≢◌, ◌↔◌, inl, inr, refl, sym, ap, ◌∙◌, arith, false, Option, none, some,
  List, [], ◌∷◌, ◌++◌, length, take, drop, ltb, ◌==◌, Bool-cases, ==_iff, length-take, take-append,
  drop-append, length-append,
}
use mathlib.Core.Path.{subst}
use picobridge.DhcpWire.{
  DhcpRequest, apply_option, read_payload, read_option, scan_options, Step, go_on, leave, step_of,
}

-- The options in `bytes` take the request `r` to `r'`.
pub data Reads (r' : DhcpRequest) : DhcpRequest → List ℕ → Type 0 where
  ends : (r : DhcpRequest) (rest : List ℕ) → r ≡ r' → Reads r' r (255 ∷ rest)
  pads : (r : DhcpRequest) (rest : List ℕ) → Reads r' r rest → Reads r' r (0 ∷ rest)
  holds :
      (r next : DhcpRequest) (opt len : ℕ) (payload rest : List ℕ)
      → opt ≢ 0
      → opt ≢ 255
      → length payload ≡ len
      → apply_option r opt payload ≡ some next
      → Reads r' next rest
      → Reads r' r (opt ∷ len ∷ payload ++ rest)

take-drop : (n : ℕ) (xs : List ℕ) → take n xs ++ drop n xs ≡ xs
take-drop zero xs = refl
take-drop (suc n) [] = refl
take-drop (suc n) (x ∷ xs) = ap (λ l. x ∷ l) (take-drop n xs)

scan_on :
    (r next : DhcpRequest) (opt : ℕ) (bytes rest : List ℕ) (fuel : ℕ)
    → read_option r opt bytes ≡ go_on next rest
    → scan_options (suc fuel) (opt ∷ bytes) r ≡ scan_options fuel rest next
unfolding scan_options
scan_on r next opt bytes rest fuel e = rw (e, scan_options) refl

scan_out :
    (r : DhcpRequest) (opt : ℕ) (bytes : List ℕ) (o : Option DhcpRequest) (fuel : ℕ)
    → read_option r opt bytes ≡ leave o
    → scan_options (suc fuel) (opt ∷ bytes) r ≡ o
unfolding scan_options
scan_out r opt bytes o fuel e = rw (e, scan_options) refl

read_held :
    (r next : DhcpRequest) (opt len : ℕ) (payload rest : List ℕ)
    → (opt == 0) ≡ false
    → (opt == 255) ≡ false
    → length payload ≡ len
    → apply_option r opt payload ≡ some next
    → read_option r opt (len ∷ payload ++ rest) ≡ go_on next rest
unfolding read_option read_payload
read_held r next opt len payload rest not_pad not_end size e =
    let room : ltb (length (payload ++ rest)) len ≡ false =
      ground (arith, length-append payload rest) in
    let front : take len (payload ++ rest) ≡ payload =
      subst (λ n. take n (payload ++ rest) ≡ payload) size (take-append payload rest) in
    let back : drop len (payload ++ rest) ≡ rest =
      subst (λ n. drop n (payload ++ rest) ≡ rest) size (drop-append payload rest) in
    rw (not_pad, not_end, room, front, back, e) refl

-- What a round has read, by how it ends.
record IsRound (r : DhcpRequest) (opt : ℕ) (bytes : List ℕ) (next : DhcpRequest) (rest : List ℕ)
    : Type 0 where
  later : (r' : DhcpRequest) → Reads r' next rest → Reads r' r (opt ∷ bytes)

Round : DhcpRequest → ℕ → List ℕ → Step → Type 0
Round r opt bytes (go_on next rest) = IsRound r opt bytes next rest
Round r opt bytes (leave none) = Unit
Round r opt bytes (leave (some r')) = Reads r' r (opt ∷ bytes)

read_payload-Round :
    (r : DhcpRequest) (opt len : ℕ) (rest : List ℕ) (o : Option DhcpRequest)
    → opt ≢ 0
    → opt ≢ 255
    → len ≤ length rest
    → apply_option r opt (take len rest) ≡ o
    → Round r opt (len ∷ rest) (step_of o (drop len rest))
unfolding Round
read_payload-Round r opt len rest none ne ne' le e = tt
read_payload-Round r opt len rest (some next) ne ne' le e = record {
  later = λ r' s.
      subst (λ l. Reads r' r (opt ∷ len ∷ l)) (take-drop len rest)
        (holds r next opt len (take len rest) (drop len rest) ne ne' (length-take len rest le) e s);
}

read_option-Round :
    (r : DhcpRequest) (opt : ℕ) (bytes : List ℕ) → Round r opt bytes (read_option r opt bytes)
unfolding Round read_option read_payload
read_option-Round r opt bytes = elim (Bool-cases (opt == 0)) [
  | inl pad ↦ rw pad (record {
    later = λ r' s. subst (λ o. Reads r' r (o ∷ bytes)) (sym ((==_iff _ _).0 pad)) (pads r bytes s);
  })
  | inr no_pad ↦ elim (Bool-cases (opt == 255)) [
    | inl end ↦
        rw (no_pad, end)
          (subst (λ o. Reads r r (o ∷ bytes)) (sym ((==_iff _ _).0 end)) (ends r bytes refl))
    | inr no_end ↦ rw (no_pad, no_end) (held bytes (ground arith) (ground arith))
  ]
]
  where
    held : (bytes : List ℕ) → opt ≢ 0 → opt ≢ 255 → Round r opt bytes (read_payload r opt bytes)
    held [] ne ne' = tt
    held (len ∷ rest) ne ne' = elim (Bool-cases (ltb (length rest) len)) [
      | inl short ↦ rw short tt
      | inr room ↦ rw room (
          read_payload-Round r opt len rest (apply_option r opt (take len rest)) ne ne'
            (ground arith) refl)
    ]

Reads-scan_options :
    (r' r : DhcpRequest) (bytes : List ℕ) (fuel : ℕ)
    → Reads r' r bytes
    → length bytes ≤ fuel
    → scan_options fuel bytes r ≡ some r'
unfolding scan_options read_option
Reads-scan_options r' _ _ zero (ends r rest e) h = absurd (omega arith)
Reads-scan_options r' _ _ zero (pads r rest s) h = absurd (omega arith)
Reads-scan_options r' _ _ zero (holds r next opt len payload rest ne ne' size e s) h =
    absurd (omega arith)
Reads-scan_options r' _ _ (suc fuel) (ends r rest e) h = ap some e
Reads-scan_options r' _ _ (suc fuel) (pads r rest s) h =
    Reads-scan_options r' r rest fuel s (omega arith)
Reads-scan_options r' _ _ (suc fuel) (holds r next opt len payload rest ne ne' size e s) h =
    scan_on r next opt (len ∷ payload ++ rest) rest fuel
      (read_held r next opt len payload rest (ground arith) (ground arith) size e)
    ∙ Reads-scan_options r' next rest fuel s (omega (arith, length-append payload rest))

ends_empty : {r : DhcpRequest} → none ≡ some r → ⊥
ends_empty h = cc

same_some : {r r' : DhcpRequest} → some r ≡ some r' → r ≡ r'
same_some h = cc

scan_options-Reads :
    (r' r : DhcpRequest) (bytes : List ℕ) (fuel : ℕ)
    → scan_options fuel bytes r ≡ some r'
    → Reads r' r bytes
unfolding scan_options Round
scan_options-Reads r' r bytes zero h = absurd (ground arith)
scan_options-Reads r' r [] (suc fuel) h = absurd (ground arith)
scan_options-Reads r' r (opt ∷ bytes) (suc fuel) h =
    from (read_option r opt bytes) refl (read_option-Round r opt bytes)
      (λ next rest. scan_options-Reads r' next rest fuel)
  where
    from :
        (step : Step)
        → read_option r opt bytes ≡ step
        → Round r opt bytes (read_option r opt bytes)
        → ((next : DhcpRequest) (rest : List ℕ)
            → scan_options fuel rest next ≡ some r'
            → Reads r' next rest)
        → Reads r' r (opt ∷ bytes)
    from (go_on next rest) e round more =
        (subst (Round r opt bytes) e round).later r'
          (more next rest (sym (scan_on r next opt bytes rest fuel e) ∙ h))
    from (leave none) e round more =
        absurd (ends_empty (sym (scan_out r opt bytes none fuel e) ∙ h))
    from (leave (some found)) e round more =
        let same : found ≡ r' = same_some (sym (scan_out r opt bytes (some found) fuel e) ∙ h) in
        subst (λ x. Reads x r (opt ∷ bytes)) same (subst (Round r opt bytes) e round)

-- The loop accepts options and returns a request exactly when they are laid out as options that
-- end with the mark, each in its place and with its length, and lead to that request.
pub scan_options-Reads_iff :
    (r' r : DhcpRequest) (bytes : List ℕ)
    → (scan_options (length bytes) bytes r ≡ some r') ↔ Reads r' r bytes
scan_options-Reads_iff r' r bytes = (
  scan_options-Reads r' r bytes (length bytes),
  λ s. Reads-scan_options r' r bytes (length bytes) s (omega arith),
)
