-- ===== src/Base/Scalar/Compatible.antt =====
-- Which registers an instruction accepts, against a description by widths and kinds.
use ptx_frontend.Common.{
  ⊎-map, Bool, ℕ, ◌≤◌, ◌≡◌, ◌↔◌, ◌⊎◌, true, false, ◌&&◌, ◌||◌, arith, if◌then◌else◌,
}
use ptx_frontend.Base.Scalar.{
  ScalarType, bit, ScalarTypeSizePolicy, exact, same_width, equal_or_wider, word_or_doubleword,
  same_type, is_bit, is_fundamental_integer, rejected_width, scalar_kind, scalar_size_of,
  scalar_types_compatible,
}
use ptx_frontend.Base.Scalar.Table.{same_type_iff}

-- The widths that a policy admits, the register's first.
abbrev pub Fits : ScalarTypeSizePolicy → ℕ → ℕ → Type 0
Fits exact actual instruction = ⊥
Fits same_width actual instruction = actual ≡ instruction
Fits equal_or_wider actual instruction = instruction ≤ actual
Fits word_or_doubleword actual instruction = (instruction ≡ 8) × ((actual ≡ 4) ⊎ (actual ≡ 8))

-- Two types mix if either is untyped bits, or both are integers.
abbrev pub Mixes : ScalarType → ScalarType → Type 0
Mixes a b =
    (scalar_kind a ≡ bit)
    ⊎ ((scalar_kind b ≡ bit)
        ⊎ ((is_fundamental_integer a ≡ true) × (is_fundamental_integer b ≡ true)))

rejected_width-false :
    (p : ScalarTypeSizePolicy) (a b : ℕ) → (rejected_width p a b ≡ false) ↔ Fits p a b
unfolding rejected_width
rejected_width-false exact a b = ground arith
rejected_width-false same_width a b = ground arith
rejected_width-false equal_or_wider a b = ground arith
rejected_width-false word_or_doubleword a b = ground arith

mixes_iff :
    (a b : ScalarType)
    → ((if is_bit (scalar_kind a) || is_bit (scalar_kind b)
          then true
          else is_fundamental_integer a && is_fundamental_integer b)
        ≡ true)
      ↔ Mixes a b
mixes_iff a b = ground arith

tests_iff :
    (same width kinds : Bool)
    → ((if same then true else if width then false else kinds) ≡ true)
      ↔ ((same ≡ true) ⊎ ((width ≡ false) × (kinds ≡ true)))
tests_iff same width kinds = ground arith

-- A register's type is compatible with an instruction's exactly when they are the same type, or the
-- policy admits their widths and their kinds mix.
pub scalar_types_compatible_iff :
    (actual instruction : ScalarType) (p : ScalarTypeSizePolicy)
    → (scalar_types_compatible actual instruction p ≡ true) ↔ (
        (actual ≡ instruction)
        ⊎ (Fits p (scalar_size_of actual) (scalar_size_of instruction) × Mixes actual instruction))
unfolding scalar_types_compatible
scalar_types_compatible_iff a b p =
    let same = same_type_iff a b in
    let fits = rejected_width-false p (scalar_size_of a) (scalar_size_of b) in
    let mixes = mixes_iff a b in
    let split = tests_iff (same_type a b) (rejected_width p (scalar_size_of a) (scalar_size_of b)) (
      if is_bit (scalar_kind a) || is_bit (scalar_kind b)
      then true
      else is_fundamental_integer a && is_fundamental_integer b) in
    (
      λ h. ⊎-map same.0 (λ k. (fits.0 k.0, mixes.0 k.1)) (split.0 h),
      λ h. split.1 (⊎-map same.1 (λ k. (fits.1 k.0, mixes.1 k.1)) h),
    )
