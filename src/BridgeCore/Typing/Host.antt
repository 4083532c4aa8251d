-- ===== src/BridgeCore/Typing/Host.antt =====
-- The host at the other end: what it shows when the strokes of a text are typed. This closes the
-- circle from the text to the keystrokes and back.
use picobridge.Prelude.{
  ℕ, ◌≡◌, refl, ap, sym, ◌∙◌, arith, true, false, List, [], ◌∷◌, ◌++◌, ◌==◌, ◌&&◌, if◌then◌else◌,
  Bool-cases, inl, inr, ◌⊎◌,
}
use mathlib.Core.Path.{subst}
use picobridge.BridgeCore.Types.{Status, ok, Stroke, no_stroke, layout_de}
use picobridge.BridgeCore.Keymap.Hosts.{host_us, host_de, dead_de}
use picobridge.BridgeCore.Keymap.Faithful.{map_ascii-shows, map_de-shows}
use picobridge.BridgeCore.Stage.{Options, is_dead, map_key, allows_lf}
use picobridge.BridgeCore.Typing.DeadKeys.{host_dead, host_dead-mapped}
use picobridge.BridgeCore.Typing.{
  Typed, typed, refused, enter, tab, space, type_key, type_char, type_chars, type_text, fold_crlf,
  then_type,
}

abbrev pub host_of : Options → Stroke → ℕ
host_of o s = if o.layout == layout_de then host_de s else host_us s

map_key-shows :
    (o : Options) (cp : ℕ) (s : Stroke) → map_key o cp no_stroke ≡ (ok, s) → host_of o s ≡ cp
unfolding map_key
map_key-shows o cp s h = elim (Bool-cases (o.layout == layout_de)) [
  | inl de ↦ rw de (map_de-shows cp s (rw de at h))
  | inr us ↦ rw us (map_ascii-shows cp s (rw us at h))
]

keys_of : (ks ls : List Stroke) → typed ks ≡ typed ls → ks ≡ ls
keys_of ks ls h = cc

host_enter : (o : Options) → host_of o enter ≡ 10
unfolding host_us host_de
host_enter o = elim (Bool-cases (o.layout == layout_de)) [
  | inl de ↦ rw de refl
  | inr us ↦ rw us refl
]

host_tab : (o : Options) → host_of o tab ≡ 9
unfolding host_us host_de
host_tab o = elim (Bool-cases (o.layout == layout_de)) [ inl de ↦ rw de refl | inr us ↦ rw us refl ]

-- A character of the specification is shown by its strokes.
type_char-cases :
    (o : Options) (cp : ℕ) (ks : List Stroke)
    → type_char o cp ≡ typed ks
    → ((cp ≡ 10) × (enter ∷ [] ≡ ks))
      ⊎ ((cp ≡ 9) × (tab ∷ [] ≡ ks))
      ⊎ (type_key o cp (map_key o cp no_stroke) ≡ typed ks)
unfolding type_char
type_char-cases o cp ks h = ground arith

enter_plain : (o : Options) → host_dead o enter ≡ false
unfolding dead_de
enter_plain o = ground arith

tab_plain : (o : Options) → host_dead o tab ≡ false
unfolding dead_de
tab_plain o = ground arith

-- Reading strokes back. A dead key waits for the next one: with a space it shows its character, and
-- with any other key what the host composes of the two.
module _ (compose : Stroke → Stroke → List ℕ) where
  abbrev after_dead : Options → Stroke → Stroke → List ℕ
  after_dead o s t = if t.usage == 44 && t.modifier == 0 then host_of o s ∷ [] else compose s t

  unfoldable pub read_back : Options → List Stroke → List ℕ
  read_back o [] = []
  read_back o (s ∷ []) = if host_dead o s then [] else host_of o s ∷ []
  read_back o (s ∷ t ∷ ks) = elim (host_dead o s) [
    | true ↦ after_dead o s t ++ read_back o ks
    | false ↦ host_of o s ∷ read_back o (t ∷ ks)
  ]

  -- The strokes show one character, whatever is typed after them.
  abbrev Shows : Options → ℕ → List Stroke → Type 0
  Shows o cp ks = (more : List Stroke) → read_back o (ks ++ more) ≡ cp ∷ read_back o more

  module _ (o : Options) (cp : ℕ) (s : Stroke) (e : host_of o s ≡ cp) where
    plain_key-Shows : host_dead o s ≡ false → Shows o cp (s ∷ [])
    unfolding read_back
    plain_key-Shows h [] = rw (h, e) refl
    plain_key-Shows h (t ∷ more) = rw (read_back, h) (ap (λ c. c ∷ read_back o (t ∷ more)) e)

    dead_key-Shows : host_dead o s ≡ true → Shows o cp (s ∷ space ∷ [])
    unfolding read_back
    dead_key-Shows h more = rw (read_back, h) (ap (λ c. c ∷ read_back o more) e)

  type_key-Shows :
      (o : Options) (cp : ℕ) (m : Status × Stroke) (ks : List Stroke)
      → ((s : Stroke) → m ≡ (ok, s) → host_of o s ≡ cp)
      → ((s : Stroke) → m ≡ (ok, s) → host_dead o s ≡ is_dead o cp)
      → type_key o cp m ≡ typed ks
      → Shows o cp ks
  unfolding type_key
  type_key-Shows o cp (ok, s) ks shows waits h = elim (Bool-cases (is_dead o cp)) [
    | inl dead ↦
        subst (Shows o cp) (keys_of (s ∷ space ∷ []) ks (rw dead at h))
          (dead_key-Shows o cp s (shows s refl) (waits s refl ∙ dead))
    | inr plain ↦
        subst (Shows o cp) (keys_of (s ∷ []) ks (rw plain at h))
          (plain_key-Shows o cp s (shows s refl) (waits s refl ∙ plain))
  ]
  type_key-Shows o cp (_, s) ks shows waits h = cc

  type_char-Shows :
      (o : Options) (cp : ℕ) (ks : List Stroke) → type_char o cp ≡ typed ks → Shows o cp ks
  type_char-Shows o cp ks h = elim (type_char-cases o cp ks h) [
    | inl (e, k) ↦
        subst (Shows o cp) k (plain_key-Shows o cp enter (host_enter o ∙ sym e) (enter_plain o))
    | inr (inl (e, k)) ↦
        subst (Shows o cp) k (plain_key-Shows o cp tab (host_tab o ∙ sym e) (tab_plain o))
    | inr (inr k) ↦
        type_key-Shows o cp (map_key o cp no_stroke) ks (map_key-shows o cp) (host_dead-mapped o cp)
          k
  ]

  read_back-then :
      (o : Options) (cp : ℕ) (cps : List ℕ) (t u : Typed) (ks : List Stroke)
      → ((ls : List Stroke) → t ≡ typed ls → Shows o cp ls)
      → ((ls : List Stroke) → u ≡ typed ls → read_back o ls ≡ cps)
      → then_type t u ≡ typed ks
      → read_back o ks ≡ cp ∷ cps
  read_back-then o cp cps (typed ls) (typed ms) ks ht hu h =
      ap (read_back o) (sym (keys_of (ls ++ ms) ks h))
      ∙ (ht ls refl ms ∙ ap (λ l. cp ∷ l) (hu ms refl))
  read_back-then o cp cps (typed ls) (refused status) ks ht hu h = cc
  read_back-then o cp cps (refused status) u ks ht hu h = cc

  read_back-type_chars :
      (o : Options) (cps : List ℕ) (ks : List Stroke)
      → type_chars o cps ≡ typed ks
      → read_back o ks ≡ cps
  unfolding type_chars
  read_back-type_chars o [] ks h = rw (sym (keys_of [] ks h)) nothing
    where
      nothing : read_back o [] ≡ []
      nothing = unfold read_back in refl
  read_back-type_chars o (cp ∷ cps) ks h =
      read_back-then o cp cps (type_char o cp) (type_chars o cps) ks (type_char-Shows o cp)
        (read_back-type_chars o cps) h

  -- Typed on a host of the layout that the request names, whose dead keys are those of that keyboard
  -- and show their character with a space, whatever they compose with other keys, the strokes of a
  -- text show the text, with CR LF read as LF where LF is allowed.
  pub read_back-type_text :
      (o : Options) (cps : List ℕ) (ks : List Stroke)
      → type_text o cps ≡ typed ks
      → read_back o ks ≡ (if allows_lf o then fold_crlf cps else cps)
  unfolding type_text
  read_back-type_text o cps ks h =
      read_back-type_chars o (if allows_lf o then fold_crlf cps else cps) ks h
