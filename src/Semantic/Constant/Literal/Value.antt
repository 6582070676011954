-- ===== src/Semantic/Constant/Literal/Value.antt =====
-- What an integer literal stands for.
use mathlib.Core.Option.{some-injective}
use ptx_frontend.Common.{
  ℕ, ◌-◌, ◌^◌, ◌≡◌, refl, sym, ap, ◌∙◌, inl, inr, Bool, true, false, ◌||◌, Option, none, some, Text,
  arith, ltb, if◌then◌else◌, Bool-cases,
}
use ptx_frontend.Common.Int.{pos}
use ptx_frontend.Base.Integer.{parse_integer_magnitude, explicitly_unsigned}
use ptx_frontend.Semantic.Integer.{IntegerType, signed, unsigned, IntegerValue, integer}
use ptx_frontend.Semantic.Integer.Order.{value}
use ptx_frontend.Semantic.Integer.Shift.{signed_small}
use ptx_frontend.Semantic.Constant.{typed_literal, parse_integer_literal}

typed_value :
    (e : Bool) (b : ℕ) → value (if e || ltb (2 ^ 63 - 1) b then unsigned else signed) b ≡ pos b
typed_value true b = refl
typed_value false b = elim (Bool-cases (ltb (2 ^ 63 - 1) b)) [
  | inl h ↦ rw h refl
  | inr h ↦ rw h (signed_small b (ground arith))
]

typed_literal-value :
    (e : Bool) (m : Option ℕ) (v : IntegerValue)
    → typed_literal e m ≡ some v
    → (m ≡ some v.bits) × (value v.type v.bits ≡ pos v.bits) × (e ≡ true → v.type ≡ unsigned)
typed_literal-value e none v h = cc h
typed_literal-value e (some b) v h =
    let t : IntegerType = if e || ltb (2 ^ 63 - 1) b then unsigned else signed in
    let same : integer b t ≡ v = some-injective (integer b t) v h in
    let bits : b ≡ v.bits = ap (λ (u : IntegerValue). u.bits) same in
    (
      ap some bits,
      ap (λ (u : IntegerValue). value u.type u.bits) (sym same) ∙ typed_value e b ∙ ap pos bits,
      λ k. ap (λ (u : IntegerValue). u.type) (sym same) ∙ rw k refl,
    )

-- The bits of an integer literal are its magnitude, and whatever type it has it stands for that
-- magnitude: no literal is negative. A literal with the suffix is unsigned.
pub parse_integer_literal-value :
    (t : Text) (v : IntegerValue)
    → parse_integer_literal t ≡ some v
    → (parse_integer_magnitude t ≡ some v.bits)
      × (value v.type v.bits ≡ pos v.bits)
      × (explicitly_unsigned t ≡ true → v.type ≡ unsigned)
unfolding parse_integer_literal
parse_integer_literal-value t v h =
    typed_literal-value (explicitly_unsigned t) (parse_integer_magnitude t) v h
