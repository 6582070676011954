-- ===== src/Common/FromChars.antt =====
-- `std::from_chars` of the language's library, for an unsigned type of `bits` bits.
use Prim.Native.Nat.{ℕ, ◌+◌, ◌-◌, ◌^◌, ◌≤◌, ◌<◌}
use mathlib.Core.Path.{◌≡◌, refl}
use mathlib.Core.Logic.{inl, inr}
use mathlib.Core.Bool.{◌&&◌}
use mathlib.Core.List.{List, [], ◌∷◌, ◌++◌, map}
use mathlib.Core.Option.{Option, none, some}
use native.Mathlib.Omega.{arith}
use ptx_frontend.Common.Tests.{ltb, leb, if◌then◌else◌, Option-cases}
use ptx_frontend.Common.Bytes.{Text}
use ptx_frontend.Common.Digits.{number, AreDigits}

-- `end` is the rest of the input; `ec` tells the three results apart.
pub data Parsed : Type 0 where
  ok : ℕ → Text → Parsed
  invalid_argument : Parsed
  result_out_of_range : Text → Parsed

pub digit_value : ℕ → Option ℕ
digit_value c =
    if leb b'0' c && leb c b'9'
    then some (c - 48)
    else if leb b'a' c && leb c b'z'
    then some (c - 87)
    else if leb b'A' c && leb c b'Z'
    then some (c - 55)
    else none

abbrev pub within : ℕ → Option ℕ → Option ℕ
within r none = none
within r (some d) = if ltb d r then some d else none

unfoldable pub digit_of : ℕ → ℕ → Option ℕ
unfolding digit_value
digit_of r c = within r (digit_value c)

abbrev pub cons_digit : Option ℕ → ℕ → Text → List ℕ × Text → List ℕ × Text
cons_digit none c t later = ([], c ∷ t)
cons_digit (some d) c t later = (d ∷ later.0, later.1)

-- The longest prefix of digits, by values, and the rest.
unfoldable pub split_digits : ℕ → Text → List ℕ × Text
unfolding digit_of
split_digits r [] = ([], [])
split_digits r (c ∷ t) = cons_digit (digit_of r c) c t (split_digits r t)

abbrev pub read : ℕ → ℕ → List ℕ × Text → Parsed
read bits r ([], rest) = invalid_argument
read bits r (d ∷ ds, rest) =
    if ltb (number r (d ∷ ds)) (2 ^ bits)
    then ok (number r (d ∷ ds)) rest
    else result_out_of_range rest

unfoldable pub from_chars : ℕ → ℕ → Text → Parsed
unfolding split_digits
from_chars bits r t = read bits r (split_digits r t)

-- `error != std::errc{} || end != text.data() + text.size()`
abbrev pub whole : Parsed → Option ℕ
whole (ok v []) = some v
whole (ok v (c ∷ rest)) = none
whole invalid_argument = none
whole (result_out_of_range rest) = none

-- The spelling of a digit that programs print.
unfoldable pub digit_char : ℕ → ℕ
digit_char d = if ltb d 10 then d + 48 else d + 87

abbrev pub spell : List ℕ → Text
spell ds = map digit_char ds

abbrev pub StopsDigits : ℕ → Text → Type 0
StopsDigits r [] = Unit {0}
StopsDigits r (c ∷ t) = digit_of r c ≡ none

pub digit_of-digit_char : (r d : ℕ) → r ≤ 36 → d < r → digit_of r (digit_char d) ≡ some d
unfolding digit_of digit_char
digit_of-digit_char r d h p = ground arith

pub split_digits-spell :
    (r : ℕ) (ds : List ℕ) (rest : Text)
    → r ≤ 36
    → AreDigits r ds
    → StopsDigits r rest
    → split_digits r (spell ds ++ rest) ≡ (ds, rest)
unfolding split_digits
split_digits-spell r [] [] h are stop = refl
split_digits-spell r [] (c ∷ t) h are stop = rw stop
split_digits-spell r (d ∷ ds) rest h are stop =
    rw (digit_of-digit_char r d h are.0, split_digits-spell r ds rest h are.1 stop)

-- A spelling with at least one digit is read back, unless it does not fit.
pub from_chars-spell :
    (bits r d : ℕ) (ds : List ℕ) (rest : Text)
    → r ≤ 36
    → AreDigits r (d ∷ ds)
    → StopsDigits r rest
    → from_chars bits r (spell (d ∷ ds) ++ rest) ≡ (
        if ltb (number r (d ∷ ds)) (2 ^ bits)
        then ok (number r (d ∷ ds)) rest
        else result_out_of_range rest)
unfolding from_chars
from_chars-spell bits r d ds rest h are stop = rw (split_digits-spell r (d ∷ ds) rest h are stop)

pub from_chars-ok-lt :
    (bits r : ℕ) (t : Text) {v : ℕ} {rest : Text} → from_chars bits r t ≡ ok v rest → v < 2 ^ bits
unfolding from_chars
from_chars-ok-lt bits r t h = read-lt (split_digits r t) h
  where
    read-lt : (s : List ℕ × Text) {v : ℕ} {rest : Text} → read bits r s ≡ ok v rest → v < 2 ^ bits
    read-lt ([], rest) e = ground arith
    read-lt (d ∷ ds, rest) e = ground arith

digit_of_sound : (r c d : ℕ) → r ≤ 10 → digit_of r c ≡ some d → (c ≡ digit_char d) × (d < r)
unfolding digit_of digit_char
digit_of_sound r c d h e = ground arith

-- In radix 10 and below a text is the spelling of its digits, and then the rest.
pub split_digits_sound :
    (r : ℕ) (t : Text)
    → r ≤ 10
    → (t ≡ spell (split_digits r t).0 ++ (split_digits r t).1) × AreDigits r (split_digits r t).0
unfolding split_digits
split_digits_sound r [] h = (refl, tt)
split_digits_sound r (c ∷ t) h = elim (Option-cases (digit_of r c)) [
  | inl e ↦ rw e (refl, tt)
  | inr (d, e) ↦
      let (first, small) = digit_of_sound r c d h e in
      let (text, are) = split_digits_sound r t h in rw e (cc (first, text), (small, are))
]

pub whole-eq-some : (p : Parsed) {v : ℕ} → whole p ≡ some v → p ≡ ok v []
whole-eq-some (ok w []) h = cc
whole-eq-some (ok w (c ∷ rest)) h = cc
whole-eq-some invalid_argument h = cc
whole-eq-some (result_out_of_range rest) h = cc
