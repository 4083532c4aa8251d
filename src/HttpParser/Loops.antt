-- ===== src/HttpParser/Loops.antt =====
-- The fuel of the index loops in firmware/radio/http_parser.c is enough.
use picobridge.Prelude.{
  ℕ, zero, suc, ◌+◌, ◌≤◌, ◌≡◌, inl, inr, refl, arith, Bool, false, Bool-cases, List, length, Option,
  none, some, ltb, not, ◌&&◌, ◌==◌, ◌-◌,
}
use picobridge.HttpParser.{advance, at, header_line, go_on, headers}

-- A loop whose test fails from some index on stops where its test fails, behind indices at which it
-- holds.
pub advance_stops :
    (test : ℕ → Bool) (fuel i bound : ℕ)
    → ((j : ℕ) → bound ≤ j → test j ≡ false)
    → bound ≤ i + fuel
    → test (advance test fuel i) ≡ false
unfolding advance
advance_stops test zero i bound stops enough = stops i (omega arith)
advance_stops test (suc fuel) i bound stops enough = elim (Bool-cases (test i)) [
  | inl on ↦ rw on (advance_stops test fuel (i + 1) bound stops (omega arith))
  | inr off ↦ rw off off
]

advance_le : (test : ℕ → Bool) (fuel i : ℕ) → i ≤ advance test fuel i
unfolding advance
advance_le test zero i = omega arith
advance_le test (suc fuel) i = elim (Bool-cases (test i)) [
  | inl on ↦ rw on (omega (arith, advance_le test fuel (i + 1)))
  | inr off ↦ rw off (omega arith)
]

-- Where the line at `pos` stops.
abbrev stop_of : List ℕ → ℕ → ℕ
stop_of p pos = advance (λ i. ltb (i + 1) (length p) && not (at p i == 13)) (length p) pos

go_on_same :
    (p : List ℕ) (o : Option (Bool × Bool)) (f g : Bool × Bool → Option (Bool × Bool))
    → ((next : Bool × Bool) → f next ≡ g next)
    → go_on p o f ≡ go_on p o g
go_on_same p none f g same = refl
go_on_same p (some next) f g same = same next

-- Any fuel that covers the bytes from `pos` on gives the same result for the header.
pub headers-fuel :
    (p : List ℕ) (fuel more pos : ℕ) (flags : Bool × Bool)
    → length p ≤ pos + fuel
    → length p ≤ pos + more
    → headers p fuel pos flags ≡ headers p more pos flags
unfolding headers
headers-fuel p zero zero pos flags enough covers = refl
headers-fuel p zero (suc more) pos flags enough covers =
    let over : ltb pos (length p - 2) ≡ false = ground arith in rw over refl
headers-fuel p (suc fuel) zero pos flags enough covers =
    let over : ltb pos (length p - 2) ≡ false = ground arith in rw over refl
headers-fuel p (suc fuel) (suc more) pos flags enough covers =
    elim (Bool-cases (ltb pos (length p - 2))) [
      | inr over ↦ rw over refl
      | inl on ↦ rw on (
          go_on_same p (header_line p flags pos (stop_of p pos))
            (headers p fuel (stop_of p pos + 2)) (headers p more (stop_of p pos + 2))
            (λ next.
              headers-fuel p fuel more (stop_of p pos + 2) next
                (omega (
                  arith,
                  advance_le (λ i. ltb (i + 1) (length p) && not (at p i == 13)) (length p) pos,
                ))
                (omega (
                  arith,
                  advance_le (λ i. ltb (i + 1) (length p) && not (at p i == 13)) (length p) pos,
                ))))
    ]
