-- ===== src/Binding/Builder/Ranges.antt =====
-- Lemmas on the comparison of source ranges, and on the orders without one range.
use ptx_frontend.Common.{
  ℕ, ◌≡◌, refl, sym, ◌∙◌, inl, inr, true, false, none, List, [], ◌∷◌, arith, false≢true, Bool-cases,
  if◌then◌else◌, ==_refl, &&-eq-true,
}
use ptx_frontend.Common.Int.{ℤ, pos, negsuc}
use ptx_frontend.Syntax.{SourceRange}
use ptx_frontend.Binding.Symbols.{same_int, same_pos, same_range}
use ptx_frontend.Binding.Builder.{find_order, erase_order}

same_int_sound : (a b : ℤ) → same_int a b ≡ true → a ≡ b
same_int_sound (pos m) (pos n) h = ground arith
same_int_sound (pos m) (negsuc n) h = absurd (false≢true h)
same_int_sound (negsuc m) (pos n) h = absurd (false≢true h)
same_int_sound (negsuc m) (negsuc n) h = ground arith

same_int_refl : (a : ℤ) → same_int a a ≡ true
same_int_refl (pos m) = ==_refl m
same_int_refl (negsuc m) = ==_refl m

pub same_range_sound : (a b : SourceRange) → same_range a b ≡ true → a ≡ b
same_range_sound a b h =
    let (s, e) = &&-eq-true (same_pos a.start b.start) (same_pos a.end b.end) h in
    let (l, c) =
      &&-eq-true (same_int a.start.line b.start.line) (same_int a.start.column b.start.column) s in
    let (l', c') =
      &&-eq-true (same_int a.end.line b.end.line) (same_int a.end.column b.end.column) e in
    let e1 = same_int_sound a.start.line b.start.line l in
    let e2 = same_int_sound a.start.column b.start.column c in
    let e3 = same_int_sound a.end.line b.end.line l' in
    let e4 = same_int_sound a.end.column b.end.column c' in cc (e1, e2, e3, e4)

pub same_range_refl : (a : SourceRange) → same_range a a ≡ true
same_range_refl a = rw (
  same_int_refl a.start.line,
  same_int_refl a.start.column,
  same_int_refl a.end.line,
  same_int_refl a.end.column,
)

pub find_order-erase_order :
    (r x : SourceRange) (orders : List (SourceRange × ℕ))
    → find_order r (erase_order x orders) ≡ (if same_range r x then none else find_order r orders)
find_order-erase_order r x [] = elim (Bool-cases (same_range r x)) [ inl e ↦ rw e | inr e ↦ rw e ]
find_order-erase_order r x ((y, o) ∷ orders) =
    let rest = find_order-erase_order r x orders in
    elim (Bool-cases (same_range x y)) [
      | inl e ↦
          let same = same_range_sound x y e in
          elim (Bool-cases (same_range r x)) [
            | inl f ↦ rw (e, f) (rest ∙ rw f refl)
            | inr f ↦
                let other : same_range r y ≡ false = rw (← same) f in
                rw (e, f, other) (rest ∙ rw f refl)
          ]
      | inr e ↦ elim (Bool-cases (same_range r y)) [
        | inl f ↦
            let same = same_range_sound r y f in
            let other : same_range r x ≡ false = not_same r x y same e in rw (e, f, other) refl
        | inr f ↦ rw (e, f) rest
      ]
    ]
  where
    not_same : (r x y : SourceRange) → r ≡ y → same_range x y ≡ false → same_range r x ≡ false
    not_same r x y same e = elim (Bool-cases (same_range r x)) [
      | inl g ↦
          let at = same_range_sound r x g in
          let both : x ≡ y = sym at ∙ same in
          let yes_same : same_range x y ≡ true = rw both (same_range_refl y) in
          absurd (false≢true (sym e ∙ yes_same))
      | inr g ↦ g
    ]
