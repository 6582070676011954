-- ===== src/Binding/Builder/Follows.antt =====
-- What the orders of source ranges say of the source, and that one more range keeps it.
use ptx_frontend.Common.{
  ℕ, suc, ◌≡◌, ◌<◌, ◌≤◌, refl, sym, ap, ◌∙◌, subst, inl, inr, ◌⊎◌, false, some, List, [], ◌∷◌,
  arith, ltb, Bool-cases, ◌==◌, if◌then◌else◌, length, any, is_some,
}
use ptx_frontend.Syntax.{SourceRange}
use ptx_frontend.Binding.Symbols.{same_range}
use ptx_frontend.Binding.Builder.{SourceOrders, find_order}
use ptx_frontend.Binding.Builder.Ranges.{same_range_sound, same_range_refl}

abbrev pub count : SourceRange → List SourceRange → ℕ
count r [] = 0
count r (x ∷ rs) = let n = count r rs in if same_range r x then suc n else n

-- In a list with the newest range first, `a` occurs before `b`.
pub data IsEarlier (a b : SourceRange) : List SourceRange → Type 0 where
  now : (rs : List SourceRange) → 0 < count a rs → IsEarlier a b (b ∷ rs)
  later : (r : SourceRange) (rs : List SourceRange) → IsEarlier a b rs → IsEarlier a b (r ∷ rs)

pub record FollowsSource (s : SourceOrders) (rs : List SourceRange) : Type 0 where
  pub small : s.next ≤ length rs
  pub twice : (r : SourceRange) → any (same_range r) s.ambiguous ≡ ltb 1 (count r rs)
  pub once : (r : SourceRange) → is_some (find_order r s.orders) ≡ (count r rs == 1)
  pub below : (r : SourceRange) (i : ℕ) → find_order r s.orders ≡ some i → i < s.next
  pub sorted :
      (a b : SourceRange) (i j : ℕ)
      → IsEarlier a b rs
      → find_order a s.orders ≡ some i
      → find_order b s.orders ≡ some j
      → i < j

count_grows : (a x : SourceRange) (rs : List SourceRange) → count a rs ≤ count a (x ∷ rs)
count_grows a x rs = elim (Bool-cases (same_range a x)) [
  | inl e ↦ rw e (omega arith)
  | inr e ↦ rw e (omega arith)
]

IsEarlier-count :
    (a b : SourceRange) (rs : List SourceRange)
    → IsEarlier a b rs
    → (0 < count a rs) × (0 < count b rs)
IsEarlier-count a b [] e = elim e [ ]
IsEarlier-count a b (r ∷ rs) (now _ h) =
    (omega (arith, count_grows a b rs), rw (same_range_refl b) (omega arith))
IsEarlier-count a b (r ∷ rs) (later _ _ e) =
    let (h, k) = IsEarlier-count a b rs e in
    (omega (arith, count_grows a r rs), omega (arith, count_grows b r rs))

-- The last two ranges of the relation, with the newest range given by an equation.
IsEarlier-cases :
    (a b x : SourceRange) (rs : List SourceRange)
    → IsEarlier a b (x ∷ rs)
    → ((b ≡ x) × (0 < count a rs)) ⊎ IsEarlier a b rs
IsEarlier-cases a b x rs (now _ h) = inl (refl, h)
IsEarlier-cases a b x rs (later _ _ e) = inr e

module _ (s s' : SourceOrders) (rs : List SourceRange) (x : SourceRange) (h : FollowsSource s rs)
    (next_le : s.next ≤ s'.next) (next_small : s'.next ≤ suc (length rs))
    (twice_x : any (same_range x) s'.ambiguous ≡ ltb 1 (suc (count x rs)))
    (once_x : is_some (find_order x s'.orders) ≡ (suc (count x rs) == 1))
    (others : (r : SourceRange)
      → same_range r x ≡ false
      → (any (same_range r) s'.ambiguous ≡ any (same_range r) s.ambiguous)
        × (find_order r s'.orders ≡ find_order r s.orders))
    (new : (i : ℕ)
      → find_order x s'.orders ≡ some i
      → (i ≡ s.next) × (count x rs ≡ 0) × (s.next < s'.next)) where
  old_or_new :
      (r : SourceRange) (i : ℕ)
      → find_order r s'.orders ≡ some i
      → ((r ≡ x) × (i ≡ s.next) × (count x rs ≡ 0) × (s.next < s'.next))
        ⊎ (find_order r s.orders ≡ some i)
  old_or_new r i e = elim (Bool-cases (same_range r x)) [
    | inl f ↦
        let same = same_range_sound r x f in
        let at : find_order x s'.orders ≡ some i =
          subst (λ q. find_order q s'.orders ≡ some i) same e in
        let (next, none_before, up) = new i at in inl (same, next, none_before, up)
    | inr f ↦ inr (sym (others r f).1 ∙ e)
  ]

  sorted_after :
      (a b : SourceRange) (i j : ℕ)
      → IsEarlier a b (x ∷ rs)
      → find_order a s'.orders ≡ some i
      → find_order b s'.orders ≡ some j
      → i < j
  sorted_after a b i j earlier p q = elim (old_or_new a i p) [
    | inl (same, at, none_before, up) ↦
        let seen = seen_before a earlier in
        let here : count a rs ≡ 0 = ap (λ r. count r rs) same ∙ none_before in absurd (omega arith)
    | inr old ↦
        let low = h.below a i old in
        elim (old_or_new b j q) [
          | inl (same, at, none_before, up) ↦ omega arith
          | inr old' ↦ elim (IsEarlier-cases a b x rs earlier) [
            | inl (same, k) ↦
                let at : find_order x s'.orders ≡ some j =
                  subst (λ r. find_order r s'.orders ≡ some j) same q in
                let (next, none_before, up) = new j at in omega arith
            | inr e ↦ h.sorted a b i j e old old'
          ]
        ]
  ]
    where
      seen_before : (a : SourceRange) → IsEarlier a b (x ∷ rs) → 0 < count a rs
      seen_before a e = elim (IsEarlier-cases a b x rs e) [
        | inl (same, k) ↦ k
        | inr e' ↦ (IsEarlier-count a b rs e').0
      ]

  pub FollowsSource-step : FollowsSource s' (x ∷ rs)
  FollowsSource-step = record {
    small = next_small;
    twice = λ r. elim (Bool-cases (same_range r x)) [
      | inl f ↦
          subst (λ q. any (same_range q) s'.ambiguous ≡ ltb 1 (count q (x ∷ rs)))
            (sym (same_range_sound r x f)) (rw (same_range_refl x) twice_x)
      | inr f ↦ rw f ((others r f).0 ∙ h.twice r)
    ];
    once = λ r. elim (Bool-cases (same_range r x)) [
      | inl f ↦
          subst (λ q. is_some (find_order q s'.orders) ≡ (count q (x ∷ rs) == 1))
            (sym (same_range_sound r x f)) (rw (same_range_refl x) once_x)
      | inr f ↦ rw f (ap is_some (others r f).1 ∙ h.once r)
    ];
    below = λ r i e. elim (old_or_new r i e) [
      | inl (same, at, none_before, up) ↦ omega arith
      | inr old ↦ omega (arith, h.below r i old)
    ];
    sorted = sorted_after;
  }
