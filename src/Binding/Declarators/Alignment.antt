-- ===== src/Binding/Declarators/Alignment.antt =====
-- An alignment is a power of two.
use Prim.Native.Nat.{min, bit_and, digits, bit_and-bitwise}
use ptx_frontend.Common.{
  ℕ, zero, suc, ◌+◌, ◌-◌, ◌*◌, ◌/◌, ◌%◌, ◌^◌, ◌≡◌, ◌≢◌, ◌<◌, ◌≤◌, refl, sym, ap, ◌∙◌, ◌↔◌, inl, inr,
  Bool, true, false, Option, none, some, subst, arith, Bool-cases, ltb, ◌==◌, Text, codes,
  same_text, none≢some, if◌then◌else◌,
}
use ptx_frontend.Common.Bits.{double, pow_pos}
use ptx_frontend.Base.Integer.{parse_integer_magnitude}
use ptx_frontend.Syntax.{AstSyntax}
use ptx_frontend.Binding.Declarators.{
  has_two_bits, single_bit, scalar_alignment, bytes_of, vector_alignment, parse_alignment,
  declaration_alignment,
}

abbrev pub IsPower : ℕ → Type 0
IsPower v = (k : ℕ) × (v ≡ 2 ^ k)

-- The digits that two numbers share, with enough rounds.
shared : ℕ → ℕ → ℕ → ℕ
shared = digits (λ b. zero) min

min_self : (a : ℕ) → min a a ≡ a
min_self a = omega arith

shared_self : (n a : ℕ) → a ≤ n → shared n a a ≡ a
unfolding shared
shared_self zero a h = omega arith
shared_self (suc n) zero h = refl
shared_self (suc n) (suc a) h =
    rw (shared_self n (suc a / 2) (omega arith), min_self (suc a % 2)) (omega arith)

even_power : (w : ℕ) → IsPower w → IsPower (2 * w)
even_power w (k, e) = (suc k, ap (λ x. 2 * x) e ∙ sym (double k))

half_power : (w : ℕ) → IsPower (2 * w) → IsPower w
half_power w (zero, e) = absurd (omega arith)
half_power w (suc k, e) = (k, omega (arith, double k))

odd_power : (w : ℕ) → IsPower (2 * w + 1) → w ≡ 0
odd_power w (zero, e) = omega arith
odd_power w (suc k, e) = absurd (omega (arith, double k))

odd_shared : (n b : ℕ) → b % 2 ≡ 0 → b / 2 ≤ n → shared (suc n) (suc b) b ≡ b / 2 * 2
unfolding shared
odd_shared n b low h =
    let half : suc b / 2 ≡ b / 2 = omega arith in
    let digit : suc b % 2 ≡ 1 = omega arith in
    rw (half, digit, low, shared_self n (b / 2) h) (omega arith)

even_shared : (n b : ℕ) → b % 2 ≡ 1 → shared (suc n) (suc b) b ≡ shared n (suc (b / 2)) (b / 2) * 2
unfolding shared
even_shared n b low =
    let half : suc b / 2 ≡ suc (b / 2) = omega arith in
    let digit : suc b % 2 ≡ 0 = omega arith in rw (half, digit, low) (omega arith)

-- A number shares no digit with its predecessor exactly if it is a power of two.
shared_predecessor :
    (n b : ℕ)
    → b < n
    → (shared n (suc b) b ≡ 0 → IsPower (suc b)) × (IsPower (suc b) → shared n (suc b) b ≡ 0)
unfolding shared
shared_predecessor zero b h = absurd (omega arith)
shared_predecessor (suc n) b h = elim (Bool-cases (b % 2 == 0)) [
  | inl e ↦
      let w = b / 2 in
      let odd : suc b ≡ 2 * w + 1 = ground arith in
      let low : b % 2 ≡ 0 = ground arith in
      let value : shared (suc n) (suc b) b ≡ w * 2 = odd_shared n b low (omega arith) in
      (
        λ z. let none_left : w ≡ 0 = omega (arith, value) in (0, odd ∙ omega arith),
        λ p. let none_left = odd_power w (subst IsPower odd p) in value ∙ ap (λ x. x * 2) none_left,
      )
  | inr e ↦
      let c = b / 2 in
      let even : suc b ≡ 2 * suc c = ground arith in
      let low : b % 2 ≡ 1 = ground arith in
      let value : shared (suc n) (suc b) b ≡ shared n (suc c) c * 2 = even_shared n b low in
      let (to, from) = shared_predecessor n c (omega arith) in
      (
        λ z. subst IsPower (sym even) (even_power (suc c) (to (omega (arith, value)))),
        λ p.
            let zero_left = from (half_power (suc c) (subst IsPower even p)) in
            value ∙ ap (λ x. x * 2) zero_left,
      )
]

two_bits_shared : (b : ℕ) → bit_and (suc b) (suc b - 1) ≡ shared (suc b) (suc b) b
unfolding shared
two_bits_shared b =
    let less : suc b - 1 ≡ b = omega arith in
    bit_and-bitwise (suc b) (suc b - 1) ∙ ap (λ x. digits (λ b'. zero) min (suc b) (suc b) x) less

not_power_zero : IsPower 0 → ⊥
not_power_zero (k, e) = let h = pow_pos k in omega arith

-- The test of bits keeps a value exactly if it is a power of two.
single_bit_iff : (o : Option ℕ) (v : ℕ) → (single_bit o ≡ some v) ↔ ((o ≡ some v) × IsPower v)
single_bit_iff none v = (λ e. absurd (none≢some e), λ h. absurd (none≢some h.0))
single_bit_iff (some zero) v = (
  λ e. absurd (none≢some e),
  λ h. let same : zero ≡ v = cc h.0 in absurd (not_power_zero (subst IsPower (sym same) h.1)),
)
single_bit_iff (some (suc b)) v =
    let shares = two_bits_shared b in
    let some_value : (suc b == 0) ≡ false = ground arith in
    let (to, from) = shared_predecessor (suc b) b (omega arith) in
    elim (Bool-cases (has_two_bits (suc b))) [
      | inl e ↦ (
        λ h. absurd (none≢some (rw (some_value, e) at h)),
        λ h.
            let same : suc b ≡ v = cc h.0 in
            let none_shared = from (subst IsPower (sym same) h.1) in
            absurd (omega_pos (bit_and (suc b) (suc b - 1)) e (shares ∙ none_shared)),
      )
      | inr e ↦
          let none_shared : shared (suc b) (suc b) b ≡ 0 =
            sym shares ∙ omega_zero (bit_and (suc b) (suc b - 1)) e in
          (
            λ h.
                let kept : some (suc b) ≡ some v = rw (some_value, e) at h in
                let same : suc b ≡ v = cc kept in (kept, subst IsPower same (to none_shared)),
            λ h. rw (some_value, e) h.0,
          )
    ]
  where
    omega_pos : (x : ℕ) → ltb 0 x ≡ true → x ≢ 0
    omega_pos x h e = ground arith

    omega_zero : (x : ℕ) → ltb 0 x ≡ false → x ≡ 0
    omega_zero x h = ground arith

-- A row of the table of scalar types.
row :
    (test : Bool) (value : ℕ) (others : Option ℕ) (n : ℕ)
    → IsPower value × (value ≤ 16)
    → (others ≡ some n → IsPower n × (n ≤ 16))
    → (if test then some value else others) ≡ some n
    → IsPower n × (n ≤ 16)
row true value others n h rest e =
    let same : value ≡ n = cc e in subst (λ x. IsPower x × (x ≤ 16)) same h
row false value others n h rest e = rest e

bytes_of_row : (a b c d f : Bool) (n : ℕ) → bytes_of a b c d f ≡ some n → IsPower n × (n ≤ 16)
bytes_of_row a b c d f n e =
    row a 1
      (if b
        then some 2
        else if c
        then some 4
        else if d
        then some 8
        else if f
        then some 16
        else none)
      n ((0, refl), omega arith)
      (λ e1.
        row b 2 (if c then some 4 else if d then some 8 else if f then some 16 else none) n
          ((1, refl), omega arith)
          (λ e2.
            row c 4 (if d then some 8 else if f then some 16 else none) n ((2, refl), omega arith)
              (λ e3.
                row d 8 (if f then some 16 else none) n ((3, refl), omega arith)
                  (λ e4. row f 16 none n ((4, refl), omega arith) (λ e5. absurd (none≢some e5)) e4)
                  e3)
              e2)
          e1)
      e

scalar_alignment_row : (type : Text) (n : ℕ) → scalar_alignment type ≡ some n → IsPower n × (n ≤ 16)
unfolding scalar_alignment
scalar_alignment_row type n e = bytes_of_row _ _ _ _ _ n e

vector_alignment-IsPower :
    (scalar : Option ℕ) (vector_type : Option AstSyntax) (n : ℕ)
    → ((s : ℕ) → scalar ≡ some s → IsPower s × (s ≤ 16))
    → vector_alignment scalar vector_type ≡ some n
    → IsPower n
vector_alignment-IsPower none vector_type n h e = absurd (none≢some e)
vector_alignment-IsPower (some s) none n h e =
    let same : s ≡ n = cc e in subst IsPower same (h s refl).0
vector_alignment-IsPower (some s) (some vector_type) n h e =
    let ((k, power), small) = h s refl in
    elim (Bool-cases (same_text vector_type.text (codes ".v2"))) [
      | inl t ↦
          let value : some (s * 2 % 2 ^ 64) ≡ some n = rw t at e in
          let same : s * 2 % 2 ^ 64 ≡ n = cc value in (suc k, omega (arith, double k))
      | inr t ↦
          let value : some (s * 4 % 2 ^ 64) ≡ some n = rw t at e in
          let same : s * 4 % 2 ^ 64 ≡ n = cc value in
          (suc (suc k), omega (arith, double k, double (suc k)))
    ]

-- The alignment of a declaration is a power of two, in each of its three forms; and a written alignment
-- is kept if its integer is a power of two.
pub declaration_alignment-IsPower :
    (alignment vector_type : Option AstSyntax) (type : Text) (n : ℕ)
    → (declaration_alignment alignment vector_type type ≡ some n → IsPower n)
      × ((a : AstSyntax)
          → alignment ≡ some a
          → parse_integer_magnitude a.text ≡ some n
          → IsPower n
          → declaration_alignment alignment vector_type type ≡ some n)
unfolding declaration_alignment parse_alignment
declaration_alignment-IsPower (some a) vector_type type n = (
  λ e. ((single_bit_iff (parse_integer_magnitude a.text) n).0 e).1,
  λ b is read power.
      let same : a ≡ b = cc is in
      (single_bit_iff (parse_integer_magnitude a.text) n).1
        (ap (λ (x : AstSyntax). parse_integer_magnitude x.text) same ∙ read, power),
)
declaration_alignment-IsPower none vector_type type n = (
  vector_alignment-IsPower (scalar_alignment type) vector_type n (scalar_alignment_row type),
  λ a is read power. absurd (none≢some is),
)
