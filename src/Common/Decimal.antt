-- ===== src/Common/Decimal.antt =====
-- Decimal numerals without leading zeros, `std::to_string`, and reading them by `from_chars`.
use ptx_frontend.Common.{
  ℕ, zero, suc, ◌^◌, ◌<◌, ◌≡◌, refl, ◌∙◌, Bool, true, false, inl, inr, none, some, List, [], ◌∷◌,
  ◌++◌, Text, arith, ltb, ◌==◌, if◌then◌else◌, Bool-cases,
}
use mathlib.Core.List.{append-nil}
use ptx_frontend.Common.Digits.{
  number_from, number, AreDigits, to_digits, to_digits_one, to_digits_cons, number-to_digits,
  to_digits-AreDigits, to_digits-number, to_digits_head,
}
use ptx_frontend.Common.FromChars.{
  from_chars-ok-lt, whole, whole-eq-some, ok, result_out_of_range, digit_of, split_digits, read,
  from_chars, digit_char, spell, StopsDigits, from_chars-spell, split_digits_sound,
  split_digits-spell,
}

unfoldable pub decimal : ℕ → Text
decimal n = spell (to_digits 10 n)

-- `text.front() == '0'`
abbrev pub starts_zero : Text → Bool
starts_zero [] = false
starts_zero (c ∷ t) = c == b'0'

-- `text.size() > 1 && text.front() == '0'`
abbrev pub leading_zero : Text → Bool
leading_zero [] = false
leading_zero (c ∷ []) = false
leading_zero (c ∷ d ∷ t) = c == b'0'

pub decimal_cons : (n : ℕ) → (c : ℕ) × (t : Text) × (decimal n ≡ c ∷ t)
unfolding decimal
decimal_cons n =
    let (d, ds, digits) = to_digits_cons 10 n (omega arith) in
    (digit_char d, spell ds, rw digits refl)

-- A numeral, and what follows it, is read back unless it does not fit.
pub from_chars-decimal :
    (bits n : ℕ) (rest : Text)
    → StopsDigits 10 rest
    → from_chars bits 10 (decimal n ++ rest)
      ≡ (if ltb n (2 ^ bits) then ok n rest else result_out_of_range rest)
unfolding decimal
from_chars-decimal bits n rest stop =
    let (d, ds, digits) = to_digits_cons 10 n (omega arith) in
    let value : number 10 (d ∷ ds) ≡ n = rw (← digits) (number-to_digits 10 n (omega arith)) in
    let are = rw digits at (to_digits-AreDigits 10 n (omega arith)) in
    rw digits (from_chars-spell bits 10 d ds rest (omega arith) are stop ∙ rw value)

pub decimal-starts_zero : (n : ℕ) (rest : Text) → 0 < n → starts_zero (decimal n ++ rest) ≡ false
unfolding decimal digit_char
decimal-starts_zero n rest h =
    let (d, ds, digits, first) = to_digits_head 10 n (omega arith) h in
    let are = rw digits at (to_digits-AreDigits 10 n (omega arith)) in
    let small : d < 10 = are.0 in rw digits (ground arith)

head_not_zero : (d : ℕ) (ds : List ℕ) → 0 < d → d < 10 → leading_zero (spell (d ∷ ds)) ≡ false
unfolding digit_char
head_not_zero d [] h small = refl
head_not_zero d (e ∷ ds) h small = ground arith

pub leading_zero-decimal : (n : ℕ) → leading_zero (decimal n) ≡ false
unfolding decimal
leading_zero-decimal zero = rw (to_digits_one 10 0 (omega arith) (omega arith))
leading_zero-decimal (suc n) =
    let (d, ds, digits, first) = to_digits_head 10 (suc n) (omega arith) (omega arith) in
    let are = rw digits at (to_digits-AreDigits 10 (suc n) (omega arith)) in
    rw digits (head_not_zero d ds first are.0)

first_digit : (d : ℕ) → (digit_char d == b'0') ≡ false → 0 < d
unfolding digit_char
first_digit d h = ground arith

digits_positive : (v d : ℕ) (ds : List ℕ) → to_digits 10 v ≡ d ∷ ds → 0 < d → 0 < v
digits_positive zero d ds e first =
    let zeros = to_digits_one 10 0 (omega arith) (omega arith) in
    let same : 0 ≡ d = cc (zeros, e) in absurd (omega arith)
digits_positive (suc v) d ds e first = omega arith

read_decimal :
    (bits d : ℕ) (ds : List ℕ) (r : Text) (v : ℕ) (rest : Text)
    → AreDigits 10 (d ∷ ds)
    → 0 < d
    → read bits 10 (d ∷ ds, r) ≡ ok v rest
    → (spell (d ∷ ds) ++ r ≡ decimal v ++ rest) × (0 < v)
unfolding decimal
read_decimal bits d ds r v rest are first h =
    let digits = to_digits-number 10 d ds (omega arith) first are in
    let same : (number 10 (d ∷ ds) ≡ v) × (r ≡ rest) = ground arith in
    let text : to_digits 10 v ≡ d ∷ ds = rw (← same.0) digits in
    (rw (text, same.1), digits_positive v d ds text first)

-- What was read was a numeral: the other direction.
pub decimal-from_chars :
    (bits : ℕ) (t : Text) (v : ℕ) (rest : Text)
    → from_chars bits 10 t ≡ ok v rest
    → starts_zero t ≡ false
    → (t ≡ decimal v ++ rest) × (0 < v)
unfolding from_chars
decimal-from_chars bits t v rest h front =
    let (text, are) = split_digits_sound 10 t (omega arith) in
    by_digits (split_digits 10 t).0 (split_digits 10 t).1 text are h
  where
    by_digits :
        (ds : List ℕ) (r : Text)
        → t ≡ spell ds ++ r
        → AreDigits 10 ds
        → read bits 10 (ds, r) ≡ ok v rest
        → (t ≡ decimal v ++ rest) × (0 < v)
    by_digits [] r text are e = cc
    by_digits (d ∷ ds) r text are e =
        let first = first_digit d (rw text at front) in
        rw text (read_decimal bits d ds r v rest are first e)

only_zero : (t : Text) → starts_zero t ≡ true → leading_zero t ≡ false → t ≡ b'0' ∷ []
only_zero [] h k = cc
only_zero (c ∷ []) h k = ground arith
only_zero (c ∷ d ∷ t) h k = cc (h, k)

zero_numeral :
    (bits v : ℕ) → whole (from_chars bits 10 (b'0' ∷ [])) ≡ some v → b'0' ∷ [] ≡ decimal v
unfolding from_chars split_digits digit_of decimal number_from to_digits digit_char
zero_numeral bits v h = ground arith

-- A whole text that is read, without a superfluous zero in front, is the numeral of its value.
pub decimal-whole :
    (bits : ℕ) (t : Text) (v : ℕ)
    → whole (from_chars bits 10 t) ≡ some v
    → leading_zero t ≡ false
    → t ≡ decimal v
decimal-whole bits t v h k = elim (Bool-cases (starts_zero t)) [
  | inl e ↦ let text = only_zero t e k in text ∙ zero_numeral bits v (rw text at h)
  | inr e ↦
      let read_all = whole-eq-some (from_chars bits 10 t) h in
      (decimal-from_chars bits t v [] read_all e).0 ∙ append-nil (decimal v)
]

pub whole-decimal :
    (bits n : ℕ)
    → whole (from_chars bits 10 (decimal n)) ≡ (if ltb n (2 ^ bits) then some n else none)
whole-decimal bits n =
    let read_all = rw append-nil at (from_chars-decimal bits n [] tt) in rw read_all (ground arith)

-- A value that was read fits.
pub whole-lt : (bits : ℕ) (t : Text) (v : ℕ) → whole (from_chars bits 10 t) ≡ some v → v < 2 ^ bits
whole-lt bits t v h = from_chars-ok-lt bits 10 t (whole-eq-some (from_chars bits 10 t) h)

decimal-split : (n : ℕ) → split_digits 10 (decimal n) ≡ (to_digits 10 n, [])
unfolding decimal
decimal-split n = rw append-nil at (
    split_digits-spell 10 (to_digits 10 n) [] (omega arith) (to_digits-AreDigits 10 n (omega arith))
      tt)
