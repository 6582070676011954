-- ===== src/Base/SpecialRegister/Indexed.antt =====
-- The members of an indexed family of registers: a base, a number below the count, a suffix.
use native.Mathlib.Nat.{zero-add, suc-add}
use ptx_frontend.Common.{
  ℕ, ◌+◌, ◌-◌, ◌^◌, ◌≤◌, ◌<◌, ◌≡◌, sym, ap, ◌∙◌, ◌↔◌, Bool, true, false, not, ◌||◌, Option, none,
  some, [], ◌∷◌, ◌++◌, Text, starts_with, starts_with-append, starts_with_sound, same_text_sound,
  same_text_refl, length, length-append, drop, drop-append, take, take-append, take-append-drop,
  subst, &&-eq-true, leb-false-le, arith, ltb, leb, lt→ltb, if-none, if-none-false,
}
use ptx_frontend.Common.FromChars.{whole, from_chars}
use ptx_frontend.Common.Decimal.{
  decimal, decimal_cons, leading_zero, leading_zero-decimal, whole-decimal, decimal-whole,
}
use ptx_frontend.Base.SpecialRegister.{ends_with, below, parse_indexed}

drop-append_more : (p r : Text) (k : ℕ) → drop (length p + k) (p ++ r) ≡ drop k r
drop-append_more [] r k = rw zero-add
drop-append_more (a ∷ p) r k = rw suc-add (drop-append_more p r k)

below-eq-some : (c : ℕ) (o : Option ℕ) (n : ℕ) → below c o ≡ some n → (o ≡ some n) × (n < c)
unfolding below
below-eq-some c none n h = cc
below-eq-some c (some i) n h = ground arith

-- Cutting a text at a prefix and a suffix.
module _ (p x r : Text) where
  abbrev count_of : ℕ
  count_of = length (p ++ r) - (length p + length x)

  middle :
      ends_with x (p ++ r) ≡ true → length p + length x ≤ length (p ++ r) → r ≡ take count_of r ++ x
  middle h l =
      let cut : length (p ++ r) - length x ≡ length p + count_of = omega arith in
      let same = &&-eq-true (leb (length x) (length (p ++ r))) _ h in
      let tail = same_text_sound (drop (length (p ++ r) - length x) (p ++ r)) x same.1 in
      let tail' : drop count_of r ≡ x =
        sym (drop-append_more p r count_of) ∙ ap (λ k. drop k (p ++ r)) (sym cut) ∙ tail in
      sym (take-append-drop count_of r) ∙ ap (λ t. take count_of r ++ t) tail'

-- The three tests of the guard.
guard_false :
    (a b c : Bool) → (not a || (not b || c)) ≡ false → (a ≡ true) × (b ≡ true) × (c ≡ false)
guard_false a b c h = ground arith

module _ (p x : Text) (count n : ℕ) where
  indexed_sound :
      (r : Text) → parse_indexed (p ++ r) p count x ≡ some n → (n < count) × (r ≡ decimal n ++ x)
  unfolding parse_indexed
  indexed_sound r h =
      let s = p ++ r in
      let k = length s - (length p + length x) in
      let t = take k (drop (length p) s) in
      let (a, b, c) = guard_false (starts_with p s) (ends_with x s) _ (if-none-false _ _ h) in
      let rest = if-none _ _ h in
      let plain = if-none-false (leading_zero t) _ rest in
      let (value, small) =
        below-eq-some count (whole (from_chars 32 10 t)) n (if-none (leading_zero t) _ rest) in
      let text : t ≡ decimal n = decimal-whole 32 t n value plain in
      let rest_is : drop (length p) s ≡ r = drop-append p r in
      let fits : length p + length x ≤ length s = leb-false-le (length s) (length p + length x) c in
      let cut : r ≡ take k r ++ x = middle p x r b fits in
      (small, cut ∙ ap (λ u. u ++ x) (ap (take k) (sym rest_is) ∙ text))

  pub parse_indexed_sound :
      (s : Text) → parse_indexed s p count x ≡ some n → (n < count) × (s ≡ p ++ (decimal n ++ x))
  unfolding parse_indexed
  parse_indexed_sound s h =
      let (a, b, c) = guard_false (starts_with p s) (ends_with x s) _ (if-none-false _ _ h) in
      let (r, e) = starts_with_sound p s a in
      let (small, text) = indexed_sound r (subst (λ u. parse_indexed u p count x ≡ some n) e h) in
      (small, e ∙ ap (λ u. p ++ u) text)

  pub parse_indexed_complete :
      n < count → count ≤ 2 ^ 32 → parse_indexed (p ++ (decimal n ++ x)) p count x ≡ some n
  unfolding parse_indexed below
  parse_indexed_complete h k =
      let d = decimal n in
      let s = p ++ (d ++ x) in
      let size : length s ≡ length p + (length d + length x) =
        omega (arith, length-append p (d ++ x), length-append d x) in
      let some_digits : 1 ≤ length d = let (c, t, e) = decimal_cons n in rw e (omega arith) in
      let number_size : length s - (length p + length x) ≡ length d = omega arith in
      let suffix_at : length s - length x ≡ length p + length d = omega arith in
      let suffix : drop (length s - length x) s ≡ x =
        rw suffix_at (drop-append_more p (d ++ x) (length d) ∙ drop-append d x) in
      let long : leb (length x) (length s) ≡ true = ground arith in
      let longer : leb (length s) (length p + length x) ≡ false = ground arith in
      let small : ltb n (2 ^ 32) ≡ true = lt→ltb n (2 ^ 32) (omega arith) in
      let inside : leb count n ≡ false = ground arith in
      rw (
        starts_with-append p (d ++ x),
        suffix,
        long,
        same_text_refl x,
        longer,
        number_size,
        drop-append p (d ++ x),
        take-append d x,
        leading_zero-decimal n,
        whole-decimal 32 n,
        small,
        inside,
      )

-- For a count that fits in 32 bits: an index is read exactly if it is below the count and the spelling
-- is the prefix, its numeral and the suffix.
pub parse_indexed_iff :
    (s p x : Text) (count n : ℕ)
    → count ≤ 2 ^ 32
    → (parse_indexed s p count x ≡ some n) ↔ ((n < count) × (s ≡ p ++ (decimal n ++ x)))
parse_indexed_iff s p x count n k = (
  parse_indexed_sound p x count n s,
  λ h.
      subst (λ (u : Text). parse_indexed u p count x ≡ some n) (sym h.1)
        (parse_indexed_complete p x count n h.0 k),
)
