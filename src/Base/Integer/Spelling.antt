-- ===== src/Base/Integer/Spelling.antt =====
-- The spellings of an integer, and that the decoder reads each of them back.
use mathlib.Core.List.{append-nil}
use ptx_frontend.Common.{
  Bool-cases, inl, inr, ℕ, zero, suc, ◌^◌, ◌≤◌, ◌<◌, ◌≡◌, ◌≢◌, refl, ◌∙◌, ◌||◌, ◌==◌, false, Option,
  none, some, List, [], ◌∷◌, ◌++◌, Text, codes, arith, ltb, if◌then◌else◌, if-none, is_empty,
}
use ptx_frontend.Common.FromChars.{
  split_digits, digit_of, whole, invalid_argument, Parsed, ok, result_out_of_range, from_chars,
  digit_char, spell, from_chars-spell, from_chars-ok-lt,
}
use ptx_frontend.Common.Digits.{
  to_digits_cons, to_digits_head, number, number_from, AreDigits, to_digits, number-to_digits,
  to_digits-AreDigits,
}
use ptx_frontend.Base.Integer.{
  ends_unsigned, remove_last, strip_suffix, begins_zero, radix_of, body_of, parse_integer_magnitude,
}

pub data Style : Type 0 where
  decimal octal binary hexadecimal : Style

abbrev pub radix : Style → ℕ
radix decimal = 10
radix octal = 8
radix binary = 2
radix hexadecimal = 16

pub data Suffix : Type 0 where
  bare lower upper : Suffix

abbrev pub suffix_text : Suffix → Text
suffix_text bare = []
suffix_text lower = codes "u"
suffix_text upper = codes "U"

-- The spelling of zero in decimal is also its octal spelling without a further digit.
abbrev pub prefix : Style → Text
prefix decimal = []
prefix octal = codes "0"
prefix binary = codes "0b"
prefix hexadecimal = codes "0x"

unfoldable pub spelling : Style → ℕ → Text
spelling s n = prefix s ++ spell (to_digits (radix s) n)

abbrev Plain : Text → Type 0
Plain [] = Unit {0}
Plain (c ∷ t) = (c ≢ b'u') × (c ≢ b'U') × Plain t

Plain-spell : (ds : List ℕ) → AreDigits 16 ds → Plain (spell ds)
unfolding digit_char
Plain-spell [] are = tt
Plain-spell (d ∷ ds) are = let rest = Plain-spell ds are.1 in (ground arith, ground arith, rest)

ends_unsigned-Plain : (t : Text) → Plain t → ends_unsigned t ≡ false
unfolding ends_unsigned
ends_unsigned-Plain [] h = refl
ends_unsigned-Plain (c ∷ []) h = ground arith
ends_unsigned-Plain (c ∷ d ∷ t) h = ends_unsigned-Plain (d ∷ t) h.2

ends_unsigned-append : (t : Text) (c : ℕ) → ends_unsigned (t ++ c ∷ []) ≡ (c == b'u') || (c == b'U')
unfolding ends_unsigned
ends_unsigned-append [] c = refl
ends_unsigned-append (a ∷ []) c = refl
ends_unsigned-append (a ∷ b ∷ t) c = ends_unsigned-append (b ∷ t) c

remove_last-append : (t : Text) (c : ℕ) → remove_last (t ++ c ∷ []) ≡ t
unfolding remove_last
remove_last-append [] c = refl
remove_last-append (a ∷ []) c = refl
remove_last-append (a ∷ b ∷ t) c = rw (remove_last-append (b ∷ t) c)

strip_suffix-append : (t : Text) (s : Suffix) → Plain t → strip_suffix (t ++ suffix_text s) ≡ t
unfolding strip_suffix
strip_suffix-append t bare h = rw (append-nil, ends_unsigned-Plain t h)
strip_suffix-append t lower h = rw (ends_unsigned-append, remove_last-append t b'u')
strip_suffix-append t upper h = rw (ends_unsigned-append, remove_last-append t b'U')

AreDigits-16 : (r : ℕ) (ds : List ℕ) → r ≤ 16 → AreDigits r ds → AreDigits 16 ds
AreDigits-16 r [] h are = tt
AreDigits-16 r (d ∷ ds) h are = (omega arith, AreDigits-16 r ds h are.1)

abbrev fits : ℕ → Option ℕ
fits n = if ltb n (2 ^ 64) then some n else none

-- The text without its suffix.
decode : Text → Option ℕ
decode t =
    if is_empty t
    then none
    else if is_empty (body_of t)
    then none
    else whole (from_chars 64 (radix_of t) (body_of t))

whole-spell :
    (r d : ℕ) (ds : List ℕ)
    → r ≤ 36
    → AreDigits r (d ∷ ds)
    → whole (from_chars 64 r (spell (d ∷ ds))) ≡ fits (number r (d ∷ ds))
whole-spell r d ds h are =
    let read = rw append-nil at (from_chars-spell 64 r d ds [] h are tt) in rw read (ground arith)

-- A text whose radix and body are known.
decode_body :
    (r c d : ℕ) (t : Text) (ds : List ℕ)
    → r ≤ 36
    → AreDigits r (d ∷ ds)
    → radix_of (c ∷ t) ≡ r
    → body_of (c ∷ t) ≡ spell (d ∷ ds)
    → decode (c ∷ t) ≡ fits (number r (d ∷ ds))
unfolding decode
decode_body r c d t ds h are radix_is body_is = rw (radix_is, body_is) (whole-spell r d ds h are)

decode-hexadecimal :
    (d : ℕ) (ds : List ℕ)
    → AreDigits 16 (d ∷ ds)
    → decode (codes "0x" ++ spell (d ∷ ds)) ≡ fits (number 16 (d ∷ ds))
unfolding radix_of body_of
decode-hexadecimal d ds are =
    decode_body 16 b'0' d (b'x' ∷ spell (d ∷ ds)) ds (omega arith) are refl refl

decode-binary :
    (d : ℕ) (ds : List ℕ)
    → AreDigits 2 (d ∷ ds)
    → decode (codes "0b" ++ spell (d ∷ ds)) ≡ fits (number 2 (d ∷ ds))
unfolding radix_of body_of
decode-binary d ds are = decode_body 2 b'0' d (b'b' ∷ spell (d ∷ ds)) ds (omega arith) are refl refl

decode-octal :
    (d : ℕ) (ds : List ℕ)
    → AreDigits 8 (d ∷ ds)
    → decode (codes "0" ++ spell (d ∷ ds)) ≡ fits (number 8 (d ∷ ds))
unfolding radix_of body_of begins_zero digit_char number_from
decode-octal d ds are =
    let radix_is : radix_of (b'0' ∷ spell (d ∷ ds)) ≡ 8 = ground arith in
    decode_body 8 b'0' 0 (spell (d ∷ ds)) (d ∷ ds) (omega arith) (omega arith, are) radix_is
      (rw (body_of, radix_is))

decode-decimal :
    (d : ℕ) (ds : List ℕ)
    → AreDigits 10 (d ∷ ds)
    → 0 < d
    → decode (spell (d ∷ ds)) ≡ fits (number 10 (d ∷ ds))
unfolding radix_of body_of begins_zero digit_char
decode-decimal d ds are first =
    let radix_is : radix_of (spell (d ∷ ds)) ≡ 10 = ground arith in
    decode_body 10 (digit_char d) d (spell ds) ds (omega arith) are radix_is
      (rw (body_of, radix_is))

Plain-spelling : (s : Style) (n : ℕ) → Plain (spelling s n)
unfolding spelling
Plain-spelling decimal n =
    Plain-spell (to_digits 10 n)
      (AreDigits-16 10 (to_digits 10 n) (omega arith) (to_digits-AreDigits 10 n (omega arith)))
Plain-spelling octal n = (
  ground arith,
  ground arith,
  Plain-spell (to_digits 8 n)
      (AreDigits-16 8 (to_digits 8 n) (omega arith) (to_digits-AreDigits 8 n (omega arith))),
)
Plain-spelling binary n = (
  ground arith,
  ground arith,
  (
    ground arith,
    ground arith,
    Plain-spell (to_digits 2 n)
        (AreDigits-16 2 (to_digits 2 n) (omega arith) (to_digits-AreDigits 2 n (omega arith))),
  ),
)
Plain-spelling hexadecimal n = (
  ground arith,
  ground arith,
  (
    ground arith,
    ground arith,
    Plain-spell (to_digits 16 n) (to_digits-AreDigits 16 n (omega arith)),
  ),
)

-- A lemma on digit lists, at the digits of a number.
at_digits :
    {r : ℕ} (t : List ℕ → Text) (n : ℕ)
    → 2 ≤ r
    → ((d : ℕ) (ds : List ℕ)
        → AreDigits r (d ∷ ds)
        → decode (t (d ∷ ds)) ≡ fits (number r (d ∷ ds)))
    → decode (t (to_digits r n)) ≡ fits n
at_digits {r} t n h reads =
    let (d, ds, digits) = to_digits_cons r n h in
    let value : number r (d ∷ ds) ≡ n = rw (← digits) (number-to_digits r n h) in
    rw digits (reads d ds (rw digits at (to_digits-AreDigits r n h)) ∙ rw value)

decode_zero : decode (spell (to_digits 10 0)) ≡ some 0
unfolding decode radix_of body_of begins_zero to_digits digit_char from_chars number_from
decode_zero = refl

decode-spelling : (s : Style) (n : ℕ) → decode (spelling s n) ≡ fits n
unfolding spelling
decode-spelling octal n = at_digits (λ ds. codes "0" ++ spell ds) n (omega arith) decode-octal
decode-spelling binary n = at_digits (λ ds. codes "0b" ++ spell ds) n (omega arith) decode-binary
decode-spelling hexadecimal n =
    at_digits (λ ds. codes "0x" ++ spell ds) n (omega arith) decode-hexadecimal
decode-spelling decimal zero = decode_zero
decode-spelling decimal (suc n) =
    let (d, ds, digits, first) = to_digits_head 10 (suc n) (omega arith) (omega arith) in
    let value : number 10 (d ∷ ds) ≡ suc n =
      rw (← digits) (number-to_digits 10 (suc n) (omega arith)) in
    let are = rw digits at (to_digits-AreDigits 10 (suc n) (omega arith)) in
    rw digits (decode-decimal d ds are first ∙ rw value)

parse-decode :
    (t : Text) (x : Suffix) → Plain t → parse_integer_magnitude (t ++ suffix_text x) ≡ decode t
unfolding parse_integer_magnitude decode
parse-decode t x h = rw (strip_suffix-append t x h)

-- In each of the four radices and with each suffix, a spelling of a number is read back as that
-- number if it is below 2 ^ 64, and refused if it is not.
pub parse_integer_magnitude-spelling :
    (s : Style) (x : Suffix) (n : ℕ)
    → parse_integer_magnitude (spelling s n ++ suffix_text x)
      ≡ (if ltb n (2 ^ 64) then some n else none)
parse_integer_magnitude-spelling s x n =
    parse-decode (spelling s n) x (Plain-spelling s n) ∙ decode-spelling s n

whole_result-lt :
    (p : Parsed) (v : ℕ)
    → ((w : ℕ) (rest : Text) → p ≡ ok w rest → w < 2 ^ 64)
    → whole p ≡ some v
    → v < 2 ^ 64
whole_result-lt (ok w []) v small h = let same : w ≡ v = cc in rw (← same) (small w [] refl)
whole_result-lt (ok w (c ∷ rest)) v small h = cc
whole_result-lt invalid_argument v small h = cc
whole_result-lt (result_out_of_range rest) v small h = cc

-- Whatever the text, a value that is decoded fits in 64 bits.
pub parse_integer_magnitude-lt :
    (t : Text) (v : ℕ) → parse_integer_magnitude t ≡ some v → v < 2 ^ 64
unfolding parse_integer_magnitude
parse_integer_magnitude-lt t v h =
    let u = strip_suffix t in
    whole_result-lt (from_chars 64 (radix_of u) (body_of u)) v
      (λ w rest e. from_chars-ok-lt 64 (radix_of u) (body_of u) e)
      (if-none (is_empty (body_of u)) _ (if-none (is_empty u) _ h))

quoted_digits : (t : Text) → whole (from_chars 64 10 (b'"' ∷ t)) ≡ none
unfolding from_chars split_digits digit_of
quoted_digits t = refl

-- A text in quotes is no integer.
pub parse_integer_magnitude-quoted : (t : Text) → parse_integer_magnitude (b'"' ∷ t) ≡ none
unfolding parse_integer_magnitude
parse_integer_magnitude-quoted [] = quoted_digits []
parse_integer_magnitude-quoted (d ∷ t) = elim (Bool-cases (ends_unsigned (d ∷ t))) [
  | inl e ↦ rw e (quoted_digits (remove_last (d ∷ t)))
  | inr e ↦ rw e (quoted_digits (d ∷ t))
]
