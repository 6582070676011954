-- ===== src/Semantic/Integer/Order.antt =====
-- The comparisons, against the order of the integers that the operands stand for.
use ptx_frontend.Common.{ℕ, ◌+◌, ◌<◌, ◌≡◌, ◌↔◌, refl, true, not, ◌||◌, arith}
use ptx_frontend.Common.Int.{ℤ, pos, pos_part, neg_part}
use ptx_frontend.Semantic.Integer.{
  IntegerType, signed, unsigned, less, less_equal, greater, greater_equal, equal, not_equal,
  signed_of, compare_integers,
}
use ptx_frontend.Semantic.Integer.Range.{IsWord}

-- The integer that bits of a type stand for.
abbrev pub value : IntegerType → ℕ → ℤ
value unsigned b = pos b
value signed b = signed_of b

infix 50 ◌<ℤ◌
abbrev pub ◌<ℤ◌ : ℤ → ℤ → Type 0
a <ℤ b = pos_part a + neg_part b < pos_part b + neg_part a

-- Bits and the integers that they stand for determine one another.
pub value-injective :
    (t : IntegerType) (l r : ℕ) → IsWord l → IsWord r → value t l ≡ value t r → l ≡ r
value-injective unsigned l r h k e = ground arith
value-injective signed l r h k e = ground arith

-- What the six operators answer on operands of the type `t`.
pub record Compares (t : IntegerType) (l r : ℕ) : Type 0 where
  pub less_iff : (compare_integers less t l r ≡ true) ↔ (value t l <ℤ value t r)
  pub equal_iff : (compare_integers equal t l r ≡ true) ↔ (value t l ≡ value t r)
  pub less_equal_is :
      compare_integers less_equal t l r
      ≡ (compare_integers less t l r || compare_integers equal t l r)
  pub greater_is : compare_integers greater t l r ≡ compare_integers less t r l
  pub greater_equal_is : compare_integers greater_equal t l r ≡ not (compare_integers less t l r)
  pub not_equal_is : compare_integers not_equal t l r ≡ not (compare_integers equal t l r)

-- On words the comparisons are those of the integers that the words stand for in the converted type,
-- and the six operators agree with one another.
pub compare_integers-Compares : (t : IntegerType) (l r : ℕ) → IsWord l → IsWord r → Compares t l r
unfolding compare_integers
compare_integers-Compares unsigned l r h k = record {
  less_iff = ground arith;
  equal_iff = ground arith;
  less_equal_is = ground arith;
  greater_is = refl;
  greater_equal_is = ground arith;
  not_equal_is = refl;
}
compare_integers-Compares signed l r h k = record {
  less_iff = ground arith;
  equal_iff = (λ e. ground arith, λ e. ground (arith, value-injective signed l r h k e));
  less_equal_is = ground arith;
  greater_is = refl;
  greater_equal_is = refl;
  not_equal_is = refl;
}
