-- ===== src/Common/Digits.antt =====
-- Positional notation: the number that a list of digits stands for, most significant first, and
-- the canonical digits of a number.
use Prim.Native.Nat.{ℕ, zero, suc, ◌+◌, ◌*◌, ◌/◌, ◌%◌, ◌≤◌, ◌<◌}
use mathlib.Core.Path.{◌≡◌, refl, sym, ◌∙◌}
use mathlib.Core.Logic.{inl, inr}
use mathlib.Core.Bool.{false}
use mathlib.Core.List.{List, [], ◌∷◌, ◌++◌, append_assoc, append-nil}
use native.Mathlib.Omega.{arith}
use ptx_frontend.Common.Tests.{ltb, if◌then◌else◌, Bool-cases}

-- The value of digits `ds` behind a prefix of value `a`.
unfoldable pub number_from : ℕ → ℕ → List ℕ → ℕ
number_from r a [] = a
number_from r a (d ∷ ds) = number_from r (a * r + d) ds

abbrev pub number : ℕ → List ℕ → ℕ
number r ds = number_from r 0 ds

-- Digits of `n` in radix `r`, with fuel.
unfoldable pub digits_fuel : ℕ → ℕ → ℕ → List ℕ
digits_fuel zero r n = []
digits_fuel (suc f) r n =
    let high = digits_fuel f r (n / r) in if ltb n r then n ∷ [] else high ++ (n % r) ∷ []

-- Without leading zeros; `n + 1` rounds are enough in every radix from 2 on.
unfoldable pub to_digits : ℕ → ℕ → List ℕ
unfolding digits_fuel
to_digits r n = digits_fuel (suc n) r n

abbrev pub AreDigits : ℕ → List ℕ → Type 0
AreDigits r [] = Unit {0}
AreDigits r (d ∷ ds) = (d < r) × AreDigits r ds

quotient-lt : (r n : ℕ) → 2 ≤ r → r ≤ n → n / r < n
quotient-lt r n h k = grind arith

digits_fuel_enough : (f g r n : ℕ) → 2 ≤ r → n < f → n < g → digits_fuel f r n ≡ digits_fuel g r n
unfolding digits_fuel
digits_fuel_enough zero g r n h p q = absurd (omega arith)
digits_fuel_enough (suc f) zero r n h p q = absurd (omega arith)
digits_fuel_enough (suc f) (suc g) r n h p q = elim (Bool-cases (ltb n r)) [
  | inl e ↦ rw e
  | inr e ↦
      let smaller : n / r < n = quotient-lt r n h (ground arith) in
      rw (e, digits_fuel_enough f g r (n / r) h (omega arith) (omega arith))
]

-- The recursion equation of `to_digits`.
pub to_digits_lem :
    (r n : ℕ)
    → 2 ≤ r
    → to_digits r n ≡ (if ltb n r then n ∷ [] else to_digits r (n / r) ++ (n % r) ∷ [])
unfolding to_digits
to_digits_lem r n h = elim (Bool-cases (ltb n r)) [
  | inl e ↦ rw e
  | inr e ↦
      let smaller : n / r < n = quotient-lt r n h (ground arith) in
      rw (e, digits_fuel_enough n (suc (n / r)) r (n / r) h smaller (omega arith))
]

pub number_from-append :
    (r a : ℕ) (ds es : List ℕ) → number_from r a (ds ++ es) ≡ number_from r (number_from r a ds) es
unfolding number_from
number_from-append r a [] es = refl
number_from-append r a (d ∷ ds) es = number_from-append r (a * r + d) ds es

pub number_from_mono : (r a b : ℕ) (ds : List ℕ) → a ≤ b → number_from r a ds ≤ number_from r b ds
unfolding number_from
number_from_mono r a b [] h = h
number_from_mono r a b (d ∷ ds) h = number_from_mono r (a * r + d) (b * r + d) ds (grind arith)

AreDigits-append :
    (r : ℕ) (ds es : List ℕ) → AreDigits r ds → AreDigits r es → AreDigits r (ds ++ es)
AreDigits-append r [] es h k = k
AreDigits-append r (d ∷ ds) es h k = (h.0, AreDigits-append r ds es h.1 k)

-- The digits of a number are digits, and stand for it.
number-digits_fuel :
    (f r n : ℕ)
    → 2 ≤ r
    → n < f
    → AreDigits r (digits_fuel f r n) × (number r (digits_fuel f r n) ≡ n)
unfolding digits_fuel number_from
number-digits_fuel zero r n h p = absurd (omega arith)
number-digits_fuel (suc f) r n h p = elim (Bool-cases (ltb n r)) [
  | inl e ↦ rw e (ground arith)
  | inr e ↦
      let smaller : n / r < n = quotient-lt r n h (ground arith) in
      let (are, value) = number-digits_fuel f r (n / r) h (omega arith) in
      let high = digits_fuel f r (n / r) in
      rw e (
        AreDigits-append r high (n % r ∷ []) are (grind arith, tt),
        number_from-append r 0 high (n % r ∷ []) ∙ rw value (grind arith),
      )
]

pub number-to_digits : (r n : ℕ) → 2 ≤ r → number r (to_digits r n) ≡ n
unfolding to_digits
number-to_digits r n h = (number-digits_fuel (suc n) r n h (omega arith)).1

pub to_digits-AreDigits : (r n : ℕ) → 2 ≤ r → AreDigits r (to_digits r n)
unfolding to_digits
to_digits-AreDigits r n h = (number-digits_fuel (suc n) r n h (omega arith)).0

pub to_digits_one : (r d : ℕ) → 2 ≤ r → d < r → to_digits r d ≡ d ∷ []
to_digits_one r d h k = to_digits_lem r d h ∙ ground arith

to_digits_step :
    (r a d : ℕ) → 2 ≤ r → 0 < a → d < r → to_digits r (a * r + d) ≡ to_digits r a ++ d ∷ []
to_digits_step r a d h p q =
    let high : (a * r + d) / r ≡ a = grind arith in
    let low : (a * r + d) % r ≡ d = grind arith in
    let big : ltb (a * r + d) r ≡ false = grind arith in
    to_digits_lem r (a * r + d) h ∙ rw (big, high, low)

to_digits-number_from :
    (r a : ℕ) (ds : List ℕ)
    → 2 ≤ r
    → 0 < a
    → AreDigits r ds
    → to_digits r (number_from r a ds) ≡ to_digits r a ++ ds
unfolding number_from
to_digits-number_from r a [] h p are = sym (append-nil _)
to_digits-number_from r a (d ∷ ds) h p are =
    to_digits-number_from r (a * r + d) ds h (grind arith) are.1
    ∙ rw (to_digits_step r a d h p are.0) (append_assoc (to_digits r a) (d ∷ []) ds)

-- Digits with no leading zero are the digits of their number.
pub to_digits-number :
    (r d : ℕ) (ds : List ℕ)
    → 2 ≤ r
    → 0 < d
    → AreDigits r (d ∷ ds)
    → to_digits r (number r (d ∷ ds)) ≡ d ∷ ds
unfolding number_from
to_digits-number r d ds h p are =
    let first : 0 * r + d ≡ d = omega arith in
    rw first (to_digits-number_from r d ds h p are.1 ∙ rw (to_digits_one r d h are.0))

-- The digits of a positive number begin with a digit other than zero.
to_digits_fuel_head :
    (f r n : ℕ)
    → 2 ≤ r
    → 0 < n
    → n < f
    → (d : ℕ) × (ds : List ℕ) × (digits_fuel f r n ≡ d ∷ ds) × (0 < d)
unfolding digits_fuel
to_digits_fuel_head zero r n h p q = absurd (omega arith)
to_digits_fuel_head (suc f) r n h p q = elim (Bool-cases (ltb n r)) [
  | inl e ↦ (n, [], rw e refl, p)
  | inr e ↦
      let smaller : n / r < n = quotient-lt r n h (ground arith) in
      let some_left : 0 < n / r = grind arith in
      let (d, ds, digits, first) = to_digits_fuel_head f r (n / r) h some_left (omega arith) in
      (d, ds ++ n % r ∷ [], rw (e, digits), first)
]

pub to_digits_head :
    (r n : ℕ) → 2 ≤ r → 0 < n → (d : ℕ) × (ds : List ℕ) × (to_digits r n ≡ d ∷ ds) × (0 < d)
unfolding to_digits
to_digits_head r n h p = to_digits_fuel_head (suc n) r n h p (omega arith)

pub to_digits_cons : (r n : ℕ) → 2 ≤ r → (d : ℕ) × (ds : List ℕ) × (to_digits r n ≡ d ∷ ds)
to_digits_cons r zero h = (0, [], to_digits_one r 0 h (omega arith))
to_digits_cons r (suc n) h =
    let (d, ds, digits, first) = to_digits_head r (suc n) h (omega arith) in (d, ds, digits)
