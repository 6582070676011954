-- ===== src/Binding/Names/Members.antt =====
-- The members of a parameterized declaration.
use native.Mathlib.Nat.{pow-suc}
use ptx_frontend.Common.{
  ℕ, zero, suc, ◌+◌, ◌-◌, ◌*◌, ◌/◌, ◌%◌, ◌^◌, ◌≤◌, ◌<◌, ◌≡◌, refl, sym, ap, ◌∙◌, ◌↔◌, inl, inr,
  true, false, not, subst, Option, none, some, List, [], ◌∷◌, ◌++◌, Text, starts_with,
  starts_with-append, starts_with_sound, length, length-append, drop, drop-append, all, arith, ltb,
  leb, lt→ltb, ltb→lt, if-none, if-none-false, Bool-cases,
}
use ptx_frontend.Common.FromChars.{digit_char, spell}
use ptx_frontend.Common.Digits.{to_digits, to_digits_lem, to_digits-AreDigits, AreDigits}
use ptx_frontend.Common.Decimal.{
  decimal, decimal_cons, leading_zero, leading_zero-decimal, whole-decimal, decimal-whole, whole-lt,
}
use ptx_frontend.Binding.Names.{
  is_digit, parse_parameterized_index, cannot_be_member, index_below, parameterized_name_contains,
}

length-spell : (ds : List ℕ) → length (spell ds) ≡ length ds
length-spell [] = refl
length-spell (d ∷ ds) = ap suc (length-spell ds)

few_digits : (k n : ℕ) → n < 10 ^ suc k → length (to_digits 10 n) ≤ suc k
few_digits zero n h = rw (to_digits_lem 10 n (omega arith)) (ground arith)
few_digits (suc k) n h = rw (to_digits_lem 10 n (omega arith)) (elim (Bool-cases (ltb n 10)) [
  | inl e ↦ rw e (omega arith)
  | inr e ↦
      let power : 10 ^ suc (suc k) ≡ 10 * 10 ^ suc k = rw pow-suc (omega arith) in
      let high = few_digits k (n / 10) (omega arith) in
      rw e (omega (arith, length-append (to_digits 10 (n / 10)) (n % 10 ∷ [])))
])

-- An index of 32 bits has at most ten digits.
pub short_decimal : (n : ℕ) → n < 2 ^ 32 → length (decimal n) ≤ 10
unfolding decimal
short_decimal n h = rw (length-spell (to_digits 10 n)) (few_digits 9 n (omega arith))

digit_is_digit : (d : ℕ) → d < 10 → is_digit (digit_char d) ≡ true
unfolding digit_char
digit_is_digit d h = ground arith

spell-AreDigits : (ds : List ℕ) → AreDigits 10 ds → all is_digit (spell ds) ≡ true
spell-AreDigits [] h = refl
spell-AreDigits (d ∷ ds) h = rw (digit_is_digit d h.0, spell-AreDigits ds h.1) refl

decimal_is_digits : (n : ℕ) → all is_digit (decimal n) ≡ true
unfolding decimal
decimal_is_digits n = spell-AreDigits (to_digits 10 n) (to_digits-AreDigits 10 n (omega arith))

module _ (base name : Text) (i : ℕ) where
  parse_sound :
      parse_parameterized_index base name ≡ some i → (name ≡ base ++ decimal i) × (i < 2 ^ 32)
  unfolding parse_parameterized_index
  parse_sound h =
      let suffix = drop (length base) name in
      let a = if-none-false (cannot_be_member base name) _ h in
      let rest = if-none (cannot_be_member base name) _ h in
      let plain = if-none-false (leading_zero suffix) _ rest in
      let read = if-none (not (all is_digit suffix)) _ (if-none (leading_zero suffix) _ rest) in
      let starts : starts_with base name ≡ true = ground arith in
      let (r, e) = starts_with_sound base name starts in
      let suffix_is : suffix ≡ r = ap (drop (length base)) e ∙ drop-append base r in
      let text : suffix ≡ decimal i = decimal-whole 32 suffix i read plain in
      (e ∙ ap (λ (u : Text). base ++ u) (sym suffix_is ∙ text), whole-lt 32 suffix i read)

  parse_complete : i < 2 ^ 32 → parse_parameterized_index base (base ++ decimal i) ≡ some i
  unfolding parse_parameterized_index
  parse_complete h =
      let d = decimal i in
      let size : length (base ++ d) ≡ length base + length d = length-append base d in
      let some_digits : 1 ≤ length d = let (c, t, e) = decimal_cons i in rw e (omega arith) in
      let short = short_decimal i h in
      let longer : leb (length (base ++ d)) (length base) ≡ false = ground arith in
      let brief : ltb 10 (length (base ++ d) - length base) ≡ false = ground arith in
      rw (
        longer,
        brief,
        starts_with-append base d,
        drop-append base d,
        leading_zero-decimal i,
        decimal_is_digits i,
        whole-decimal 32 i,
        lt→ltb i (2 ^ 32) h,
      )

-- An index is read from a name exactly if the name is the base with the numeral of the index, and the
-- index is a `uint32_t`.
pub parse_parameterized_index_iff :
    (base name : Text) (i : ℕ)
    → (parse_parameterized_index base name ≡ some i) ↔ ((name ≡ base ++ decimal i) × (i < 2 ^ 32))
parse_parameterized_index_iff base name i = (
  parse_sound base name i,
  λ h.
      subst (λ (t : Text). parse_parameterized_index base t ≡ some i) (sym h.0)
        (parse_complete base name i h.1),
)

abbrev pub IsMember : Text → ℕ → Text → Type 0
IsMember base count name = (i : ℕ) × (i < count) × (name ≡ base ++ decimal i)

below_sound :
    (count : ℕ) (o : Option ℕ) → index_below count o ≡ true → (i : ℕ) × (o ≡ some i) × (i < count)
below_sound count none h = cc h
below_sound count (some i) h = (i, refl, ltb→lt i count h)

-- A declaration with a count of 32 bits contains exactly its members.
pub parameterized_name_contains_iff :
    (base : Text) (count : ℕ) (name : Text)
    → count ≤ 2 ^ 32
    → (parameterized_name_contains base count name ≡ true) ↔ IsMember base count name
unfolding parameterized_name_contains
parameterized_name_contains_iff base count name h = (
  λ k.
      let (i, read, small) = below_sound count (parse_parameterized_index base name) k in
      (i, small, ((parse_parameterized_index_iff base name i).0 read).0),
  λ (i, small, e).
      let read = (parse_parameterized_index_iff base name i).1 (e, omega arith) in
      rw read (lt→ltb i count small),
)
