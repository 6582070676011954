-- ===== src/Semantic/Integer/Exact.antt =====
-- Sums, differences and products are exact whenever the exact result has a representation.
use ptx_frontend.Common.{ℕ, ◌+◌, ◌-◌, ◌*◌, ◌%◌, ◌^◌, ◌<◌, ◌≡◌, ◌⊎◌, inl, inr, ap, arith}
use ptx_frontend.Common.Int.{pos_part, neg_part, sub_ℕ, ◌+ℤ◌, ◌-ℤ◌, ◌*ℤ◌, +ℤ_parts, -ℤ_parts}
use ptx_frontend.Semantic.Integer.{IntegerType, signed, unsigned}
use ptx_frontend.Semantic.Integer.Range.{IsWord}
use ptx_frontend.Semantic.Integer.Order.{value}

-- The bits are the integer, modulo 2 ^ 64.
value_parts :
    (t : IntegerType) (b : ℕ)
    → IsWord b
    → (b + neg_part (value t b) ≡ pos_part (value t b))
      ⊎ (b + neg_part (value t b) ≡ pos_part (value t b) + 2 ^ 64)
value_parts unsigned b h = omega arith
value_parts signed b h = ground arith

value_range :
    (t : IntegerType) (b : ℕ)
    → IsWord b
    → (pos_part (value t b) < 2 ^ 64) × (neg_part (value t b) < 2 ^ 64)
value_range unsigned b h = omega arith
value_range signed b h = (ground arith, ground arith)

pub add_exact :
    (t : IntegerType) (l r b : ℕ)
    → IsWord l
    → IsWord r
    → IsWord b
    → value t b ≡ value t l +ℤ value t r
    → (l + r) % 2 ^ 64 ≡ b
add_exact t l r b hl hr hb e =
    let parts = +ℤ_parts (value t l) (value t r) in
    let p = ap pos_part e in
    let n = ap neg_part e in
    omega (arith, value_parts t l hl, value_parts t r hr, value_parts t b hb, value_range t b hb)

pub subtract_exact :
    (t : IntegerType) (l r b : ℕ)
    → IsWord l
    → IsWord r
    → IsWord b
    → value t b ≡ value t l -ℤ value t r
    → (l + 2 ^ 64 - r) % 2 ^ 64 ≡ b
subtract_exact t l r b hl hr hb e =
    let parts = -ℤ_parts (value t l) (value t r) in
    let p = ap pos_part e in
    let n = ap neg_part e in
    omega (arith, value_parts t l hl, value_parts t r hr, value_parts t b hb, value_range t b hb)

-- The wrap-around as a factor.
value_wrap :
    (t : IntegerType) (b : ℕ)
    → IsWord b
    → (i : ℕ) × (b + neg_part (value t b) ≡ pos_part (value t b) + 2 ^ 64 * i)
value_wrap t b h = elim (value_parts t b h) [ inl e ↦ (0, omega arith) | inr e ↦ (1, omega arith) ]

sub_ℕ_parts : (a b : ℕ) → pos_part (sub_ℕ a b) + b ≡ neg_part (sub_ℕ a b) + a
sub_ℕ_parts a b = ground arith

pub multiply_exact :
    (t : IntegerType) (l r b : ℕ)
    → IsWord l
    → IsWord r
    → IsWord b
    → value t b ≡ value t l *ℤ value t r
    → l * r % 2 ^ 64 ≡ b
unfolding ◌*ℤ◌
multiply_exact t l r b hl hr hb e =
    let pl = pos_part (value t l) in
    let nl = neg_part (value t l) in
    let pr = pos_part (value t r) in
    let nr = neg_part (value t r) in
    let (i, el) = value_wrap t l hl in
    let (j, er) = value_wrap t r hr in
    let (k, eb) = value_wrap t b hb in
    let e₁ = ap (λ (x : ℕ). x * r) el in
    let e₂ = ap (λ (x : ℕ). x * nl) er in
    let e₃ = ap (λ (x : ℕ). x * pl) er in
    let parts = sub_ℕ_parts (pl * pr + nl * nr) (pl * nr + nl * pr) in
    let p = ap pos_part e in let n = ap neg_part e in omega arith
