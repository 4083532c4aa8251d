-- ===== src/BridgeCore/Invariant/Cells.antt =====
-- The stroke array under the writes of the core, and how many strokes a text has.
use picobridge.Prelude.{
  ℕ, zero, suc, ◌+◌, ◌*◌, ◌≤◌, ◌<◌, ◌≡◌, refl, arith, List, [], ◌∷◌, length, take, drop, set,
  replicate, All, length-append,
}
use picobridge.BridgeCore.Types.{no_stroke, Stroke}
use picobridge.BridgeCore.Stage.{Options}
use picobridge.BridgeCore.Typing.{
  Typed, typed, refused, type_char, type_chars, then_type, fold_crlf, type_text,
}
use picobridge.BridgeCore.Typing.Loop.{length-type_char}
use picobridge.BridgeCore.Utf8.Encode.{encode, trail_bytes}
use picobridge.BridgeCore.Invariant.{IsWiped}

pub All-replicate : (n : ℕ) → All IsWiped (replicate n no_stroke)
unfolding replicate
All-replicate zero = tt
All-replicate (suc n) = (refl, All-replicate n)

pub All-take-replicate : (k n : ℕ) → All IsWiped (take k (replicate n no_stroke))
unfolding replicate
All-take-replicate zero n = tt
All-take-replicate (suc k) zero = tt
All-take-replicate (suc k) (suc n) = (refl, All-take-replicate k n)

-- Wiping the cell at the cursor and moving the cursor on.
pub All-take-set :
    (i : ℕ) (xs : List Stroke)
    → All IsWiped (take i xs)
    → All IsWiped (take (suc i) (set xs i no_stroke))
All-take-set zero [] h = tt
All-take-set zero (x ∷ xs) h = (refl, tt)
All-take-set (suc i) [] h = tt
All-take-set (suc i) (x ∷ xs) h = (h.0, All-take-set i xs h.1)

pub drop-set : (k i : ℕ) (xs : List Stroke) (v : Stroke) → i < k → drop k (set xs i v) ≡ drop k xs
drop-set zero i xs v h = absurd (omega arith)
drop-set (suc k) i [] v h = refl
drop-set (suc k) zero (x ∷ xs) v h = refl
drop-set (suc k) (suc i) (x ∷ xs) v h = drop-set k i xs v (omega arith)

length-then_type :
    (n m : ℕ) (t u : Typed) (ks : List Stroke)
    → ((ls : List Stroke) → t ≡ typed ls → length ls ≤ n)
    → ((ls : List Stroke) → u ≡ typed ls → length ls ≤ m)
    → then_type t u ≡ typed ks
    → length ks ≤ n + m
length-then_type n m (typed ls) (typed ms) ks ht hu h =
    ground (arith, length-append ls ms, ht ls refl, hu ms refl)
length-then_type n m (typed ls) (refused status) ks ht hu h = cc
length-then_type n m (refused status) u ks ht hu h = cc

length-type_chars :
    (o : Options) (cps : List ℕ) (ks : List Stroke)
    → type_chars o cps ≡ typed ks
    → length ks ≤ 2 * length cps
unfolding type_chars
length-type_chars o [] ks h = ground arith
length-type_chars o (cp ∷ cps) ks h = omega (
  arith,
  length-then_type 2 (2 * length cps) (type_char o cp) (type_chars o cps) ks (length-type_char o cp)
      (length-type_chars o cps) h,
)

length-fold_crlf : (cps : List ℕ) → length (fold_crlf cps) ≤ length cps
unfolding fold_crlf
length-fold_crlf [] = omega arith
length-fold_crlf (cp ∷ cps) = ground (arith, length-fold_crlf cps)

length-encode : (cps : List ℕ) → length cps ≤ length (encode cps)
length-encode [] = omega arith
length-encode (cp ∷ cps) =
    omega (arith, length-encode cps, length-append (trail_bytes cp) (encode cps))

-- A text has at most two strokes for each of its bytes.
pub length-type_text :
    (o : Options) (cps : List ℕ) (ks : List Stroke)
    → type_text o cps ≡ typed ks
    → length ks ≤ 2 * length (encode cps)
unfolding type_text
length-type_text o cps ks h = ground (
  arith,
  length-type_chars o cps ks,
  length-type_chars o (fold_crlf cps) ks,
  length-fold_crlf cps,
  length-encode cps,
)
