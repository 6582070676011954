-- ===== src/Binding/Names/Overlap.antt =====
-- Two declarations overlap exactly if they have a name in common.
use mathlib.Core.List.{append_assoc}
use ptx_frontend.Common.{
  ℕ, zero, suc, ◌+◌, ◌*◌, ◌^◌, ◌≤◌, ◌<◌, ◌≡◌, refl, sym, ap, ◌∙◌, ◌↔◌, ◌⊎◌, inl, inr, Bool, true,
  false, ◌||◌, subst, Option, none, some, List, [], ◌∷◌, ◌++◌, Text, codes, same_text,
  same_text_sound, same_text_refl, arith, ◌==◌, if◌then◌else◌, ◌≢◌,
}
use ptx_frontend.Common.FromChars.{digit_char, spell}
use ptx_frontend.Common.Digits.{
  to_digits, to_digits-AreDigits, AreDigits, number, number_from, number_from-append,
  to_digits-number, number-to_digits, to_digits_head, to_digits_one,
}
use ptx_frontend.Common.Decimal.{decimal, decimal_cons}
use ptx_frontend.Binding.Names.{parameterized_name_contains, symbol_name_sets_overlap}
use ptx_frontend.Binding.Names.Members.{IsMember, parameterized_name_contains_iff}

-- Two ways to cut a text: one cut is not behind the other.
cuts :
    (a x b y : Text)
    → a ++ x ≡ b ++ y
    → ((p : Text) × (b ≡ a ++ p) × (x ≡ p ++ y)) ⊎ ((p : Text) × (a ≡ b ++ p) × (y ≡ p ++ x))
cuts [] x b y h = inl (b, refl, h)
cuts (c ∷ a) x [] y h = inr (c ∷ a, refl, sym h)
cuts (c ∷ a) x (d ∷ b) y h =
    let first : c ≡ d = cc h in
    let rest : a ++ x ≡ b ++ y = cc h in extend (cuts a x b y rest) first
  where
    extend :
        ((p : Text) × (b ≡ a ++ p) × (x ≡ p ++ y)) ⊎ ((p : Text) × (a ≡ b ++ p) × (y ≡ p ++ x))
        → c ≡ d
        → ((p : Text) × (d ∷ b ≡ c ∷ a ++ p) × (x ≡ p ++ y))
          ⊎ ((p : Text) × (c ∷ a ≡ d ∷ b ++ p) × (y ≡ p ++ x))
    extend (inl (p, e, f)) same = inl (p, cc (e, same), f)
    extend (inr (p, e, f)) same = inr (p, cc (e, same), f)

-- A spelling is cut where its digits are.
cut_spelling :
    (ds : List ℕ) (p q : Text)
    → spell ds ≡ p ++ q
    → (es : List ℕ) × (fs : List ℕ) × (ds ≡ es ++ fs) × (p ≡ spell es) × (q ≡ spell fs)
cut_spelling ds [] q h = ([], ds, refl, refl, sym h)
cut_spelling [] (c ∷ p) q h = cc h
cut_spelling (d ∷ ds) (c ∷ p) q h =
    let rest : spell ds ≡ p ++ q = cc h in
    let first : digit_char d ≡ c = cc h in
    let (es, fs, a, b, e) = cut_spelling ds p q rest in
    (d ∷ es, fs, ap (λ (l : List ℕ). d ∷ l) a, cc (first, b), e)

AreDigits-prefix : (r : ℕ) (es fs : List ℕ) → AreDigits r (es ++ fs) → AreDigits r es
AreDigits-prefix r [] fs h = tt
AreDigits-prefix r (d ∷ es) fs h = (h.0, AreDigits-prefix r es fs h.1)

number_from_le : (a : ℕ) (ds : List ℕ) → a ≤ number_from 10 a ds
unfolding number_from
number_from_le a [] = omega arith
number_from_le a (d ∷ ds) = omega (arith, number_from_le (a * 10 + d) ds)

-- A digit more makes a number at least as large as a zero more does.
number_grows :
    (es : List ℕ) (f : ℕ) (fs : List ℕ) → number 10 (es ++ 0 ∷ []) ≤ number 10 (es ++ f ∷ fs)
unfolding number_from
number_grows es f fs =
    rw (number_from-append 10 0 es (0 ∷ []), number_from-append 10 0 es (f ∷ fs))
      (omega (arith, number_from_le (number_from 10 0 es * 10 + f) fs))

AreDigits-snoc : (es : List ℕ) → AreDigits 10 es → AreDigits 10 (es ++ 0 ∷ [])
AreDigits-snoc [] h = (omega arith, tt)
AreDigits-snoc (d ∷ es) h = (h.0, AreDigits-snoc es h.1)

spell_snoc : (es : List ℕ) → spell (es ++ 0 ∷ []) ≡ spell es ++ codes "0"
unfolding digit_char
spell_snoc [] = refl
spell_snoc (d ∷ es) = ap (λ (t : Text). digit_char d ∷ t) (spell_snoc es)

decimal_zero : decimal 0 ≡ codes "0"
unfolding decimal digit_char
decimal_zero = rw (to_digits_one 10 0 (omega arith) (omega arith)) refl

first_positive : (i d f : ℕ) (es fs : List ℕ) → to_digits 10 i ≡ d ∷ (es ++ f ∷ fs) → 0 < d
first_positive zero d f es fs h =
    let alone = to_digits_one 10 0 (omega arith) (omega arith) in
    let empty : es ++ f ∷ fs ≡ [] = cc (h, alone) in absurd (not_empty es empty)
  where
    not_empty : (es : List ℕ) → es ++ f ∷ fs ≢ []
    not_empty [] e = cc e
    not_empty (x ∷ es) e = cc e
first_positive (suc i) d f es fs h =
    let (c, cs, digits, first) = to_digits_head 10 (suc i) (omega arith) (omega arith) in
    let same : c ≡ d = cc (h, digits) in subst (λ (x : ℕ). 0 < x) same first

tens_nonzero :
    (i d f : ℕ) (es fs : List ℕ)
    → to_digits 10 i ≡ (d ∷ es) ++ f ∷ fs
    → (k : ℕ) × (k ≤ i) × (spell (d ∷ es) ++ codes "0" ≡ decimal k)
unfolding decimal
tens_nonzero i d f es fs h =
    let all = subst (AreDigits 10) h (to_digits-AreDigits 10 i (omega arith)) in
    let are = AreDigits-snoc (d ∷ es) (AreDigits-prefix 10 (d ∷ es) (f ∷ fs) all) in
    let k = number 10 (d ∷ (es ++ 0 ∷ [])) in
    let digits =
      to_digits-number 10 d (es ++ 0 ∷ []) (omega arith) (first_positive i d f es fs h) are in
    let value : number 10 ((d ∷ es) ++ f ∷ fs) ≡ i =
      ap (number 10) (sym h) ∙ number-to_digits 10 i (omega arith) in
    (
      k,
      omega (arith, number_grows (d ∷ es) f fs),
      sym (spell_snoc (d ∷ es)) ∙ ap spell (sym digits),
    )

tens_of :
    (i : ℕ) (es fs : List ℕ)
    → to_digits 10 i ≡ es ++ fs
    → fs ≢ []
    → (k : ℕ) × (k ≤ i) × (spell es ++ codes "0" ≡ decimal k)
tens_of i es [] h more = absurd (more refl)
tens_of i [] (f ∷ fs) h more = (0, omega arith, sym decimal_zero)
tens_of i (d ∷ es) (f ∷ fs) h more = tens_nonzero i d f es fs h

-- A proper prefix of a numeral, with a zero behind it, is the numeral of a number that is not larger.
tens :
    (i : ℕ) (p q : Text)
    → decimal i ≡ p ++ q
    → q ≢ []
    → (k : ℕ) × (k ≤ i) × (p ++ codes "0" ≡ decimal k)
unfolding decimal
tens i p q h more =
    let (es, fs, a, b, e) = cut_spelling (to_digits 10 i) p q h in
    let (k, small, text) = tens_of i es fs a (λ n. more (e ∙ ap spell n)) in
    (k, small, ap (λ (t : Text). t ++ codes "0") b ∙ text)

decimal_not_empty : (n : ℕ) → decimal n ≢ []
decimal_not_empty n e = let (c, t, d) = decimal_cons n in cc (d, e)

-- Two groups with a common member, the base of the second at least as long as that of the first: the
-- first member of the second is one of the first.
first-IsMember_inside :
    (base p : Text) (count i j : ℕ)
    → i < count
    → decimal i ≡ p ++ decimal j
    → IsMember base count ((base ++ p) ++ codes "0")
first-IsMember_inside base p count i j small h =
    let (k, less, text) = tens i p (decimal j) h (decimal_not_empty j) in
    (k, omega arith, append_assoc base p (codes "0") ∙ ap (λ (t : Text). base ++ t) text)

-- The names that a declaration stands for.
abbrev pub IsName : Text → Option ℕ → Text → Type 0
IsName name none t = t ≡ name
IsName name (some count) t = IsMember name count t

abbrev pub Fits : Option ℕ → Type 0
Fits none = Unit {0}
Fits (some count) = count < 2 ^ 32

CommonName : Text → Option ℕ → Text → Option ℕ → Type 0
CommonName a m b n = (t : Text) × IsName a m t × IsName b n t

or_true : (b : Bool) → (b || true) ≡ true
or_true true = refl
or_true false = refl

guarded :
    (z x y : Bool) → (if z then false else x || y) ≡ true → (z ≡ false) × ((x ≡ true) ⊎ (y ≡ true))
guarded true x y h = cc h
guarded false true y h = (refl, inl refl)
guarded false false y h = (refl, inr h)

module _ (a b : Text) (m n : ℕ) (hm : m < 2 ^ 32) (hn : n < 2 ^ 32) where
  zero-IsMember : (base : Text) (count : ℕ) → 0 < count → IsMember base count (base ++ codes "0")
  zero-IsMember base count h = (0, h, ap (λ (t : Text). base ++ t) (sym decimal_zero))

  groups_sound :
      symbol_name_sets_overlap a (some m) b (some n) ≡ true → CommonName a (some m) b (some n)
  unfolding symbol_name_sets_overlap CommonName
  groups_sound h =
      let x = parameterized_name_contains a m (b ++ codes "0") in
      let y = parameterized_name_contains b n (a ++ codes "0") in
      let (some_members, found) = guarded ((m == 0) || (n == 0)) x y h in
      let m_pos : 0 < m = ground arith in
      let n_pos : 0 < n = ground arith in
      elim found [
        | inl e ↦ (
          b ++ codes "0",
          (parameterized_name_contains_iff a m (b ++ codes "0") (omega arith)).0 e,
          zero-IsMember b n n_pos,
        )
        | inr e ↦ (
          a ++ codes "0",
          zero-IsMember a m m_pos,
          (parameterized_name_contains_iff b n (a ++ codes "0") (omega arith)).0 e,
        )
      ]

  groups_complete :
      CommonName a (some m) b (some n) → symbol_name_sets_overlap a (some m) b (some n) ≡ true
  unfolding symbol_name_sets_overlap CommonName
  groups_complete (t, (i, hi, ei), (j, hj, ej)) =
      let some_members : ((m == 0) || (n == 0)) ≡ false = ground arith in
      rw some_members (elim (cuts a (decimal i) b (decimal j) (sym ei ∙ ej)) [
        | inl (p, longer, digits) ↦
            let inside =
              subst (λ (u : Text). IsMember a m (u ++ codes "0")) (sym longer)
                (first-IsMember_inside a p m i j hi digits) in
            rw ((parameterized_name_contains_iff a m (b ++ codes "0") (omega arith)).1 inside) refl
        | inr (p, longer, digits) ↦
            let inside =
              subst (λ (u : Text). IsMember b n (u ++ codes "0")) (sym longer)
                (first-IsMember_inside b p n j i hj digits) in
            rw ((parameterized_name_contains_iff b n (a ++ codes "0") (omega arith)).1 inside)
              (or_true (parameterized_name_contains a m (b ++ codes "0")))
      ])

-- Two declarations whose counts are of 32 bits overlap exactly if they stand for a common name.
pub symbol_name_sets_overlap_iff :
    (a : Text) (m : Option ℕ) (b : Text) (n : Option ℕ)
    → Fits m
    → Fits n
    → (symbol_name_sets_overlap a m b n ≡ true) ↔ ((t : Text) × IsName a m t × IsName b n t)
unfolding symbol_name_sets_overlap CommonName
symbol_name_sets_overlap_iff a none b none hm hn = (
  λ h. (a, refl, same_text_sound a b h),
  λ (t, e, d). subst (λ (u : Text). same_text a u ≡ true) (sym e ∙ d) (same_text_refl a),
)
symbol_name_sets_overlap_iff a none b (some n) hm hn =
    let contains = parameterized_name_contains_iff b n a (omega arith) in
    (λ h. (a, refl, contains.0 h), λ (t, e, d). contains.1 (subst (IsMember b n) e d))
symbol_name_sets_overlap_iff a (some m) b none hm hn =
    let contains = parameterized_name_contains_iff a m b (omega arith) in
    (λ h. (b, contains.0 h, refl), λ (t, e, d). contains.1 (subst (IsMember a m) d e))
symbol_name_sets_overlap_iff a (some m) b (some n) hm hn =
    (groups_sound a b m n hm hn, groups_complete a b m n hm hn)
