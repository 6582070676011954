-- ===== src/Binding/Index/Entries.antt =====
-- What an index holds: the paths of the entries, with their symbols, and the entries under a label.
use ptx_frontend.Common.{
  Bool-cases, Option-cases, Bool, true, if◌then◌else◌, none≢some, ℕ, ◌≡◌, refl, ◌≢◌, inl, inr,
  Option, none, some, List, [], ◌∷◌, ◌++◌,
}

abbrev pub Entries : Type 0 → Type 0
Entries B = List (List B × ℕ)

cons_ne {ℓ} : {A : Type ℓ} {x : A} {xs : List A} → x ∷ xs ≢ []
cons_ne e = cc e

pub snoc_inj {ℓ} :
    {A : Type ℓ} (l m : List A) {b c : A} → l ++ b ∷ [] ≡ m ++ c ∷ [] → (l ≡ m) × (b ≡ c)
snoc_inj [] [] h = (refl, cc h)
snoc_inj [] (y ∷ []) h = absurd (cc h)
snoc_inj [] (y ∷ z ∷ m) h = absurd (cc h)
snoc_inj (x ∷ []) [] h = absurd (cc h)
snoc_inj (x ∷ w ∷ l) [] h = absurd (cc h)
snoc_inj {A} (x ∷ l) (y ∷ m) {b} {c} h =
    let first : x ≡ y = cc h in
    let rest : l ++ b ∷ [] ≡ m ++ c ∷ [] = cc h in
    let (e, f) = snoc_inj l m rest in (cc (first, e), f)

module _ {B : Type 0} (same : B → B → Bool) where
  -- The entries whose path starts with `b`, without that step.
  abbrev pub strip : B → Entries B → Entries B
  strip b [] = []
  strip b (([], s) ∷ es) = strip b es
  strip b ((c ∷ p, s) ∷ es) =
      let others = strip b es in if same c b then (p, s) ∷ others else others

  abbrev pub under : List B → Entries B → Entries B
  under [] es = es
  under (b ∷ l) es = under l (strip b es)

  -- A path without a prefix.
  abbrev pub rest : List B → List B → Option (List B)
  rest [] p = some p
  rest (b ∷ l) [] = none
  rest (b ∷ l) (c ∷ p) = let further = rest l p in if same c b then further else none

  abbrev pub add : Option (List B) → ℕ → Entries B → Entries B
  add none s es = es
  add (some p) s es = (p, s) ∷ es

  pub under-snoc :
      (l : List B) (b : B) (es : Entries B) → under (l ++ b ∷ []) es ≡ strip b (under l es)
  under-snoc [] b es = refl
  under-snoc (c ∷ l) b es = under-snoc l b (strip c es)

  pub under-nil : (l : List B) → under l [] ≡ []
  under-nil [] = refl
  under-nil (b ∷ l) = under-nil l

  pub under-cons :
      (l p : List B) (s : ℕ) (es : Entries B)
      → under l ((p, s) ∷ es) ≡ add (rest l p) s (under l es)
  under-cons [] p s es = refl
  under-cons (b ∷ l) [] s es = refl
  under-cons (b ∷ l) (c ∷ p) s es = elim (Bool-cases (same c b)) [
    | inl e ↦ rw e (under-cons l p s (strip b es))
    | inr e ↦ rw e
  ]

module _ {B : Type 0} (same : B → B → Bool) (same_sound : (b c : B) → same b c ≡ true → b ≡ c)
    (same_refl : (b : B) → same b b ≡ true) where
  pub rest_self : (p : List B) → rest same p p ≡ some []
  rest_self [] = refl
  rest_self (b ∷ p) = rw (same_refl b) (rest_self p)

  pub rest-snoc :
      (l p : List B) (b : B) {r : List B}
      → rest same l p ≡ some r
      → rest same l (p ++ b ∷ []) ≡ some (r ++ b ∷ [])
  rest-snoc [] p b {r} h = let same_path : p ≡ r = cc h in rw same_path
  rest-snoc (c ∷ l) [] b h = absurd (cc h)
  rest-snoc (c ∷ l) (d ∷ p) b {r} h = elim (Bool-cases (same d c)) [
    | inl e ↦ rw e (rest-snoc l p b (rw e at h))
    | inr e ↦ absurd (none≢some (rw e at h))
  ]

  pub rest-snoc_none :
      (l p : List B) (b : B)
      → l ≢ p ++ b ∷ []
      → rest same l p ≡ none
      → rest same l (p ++ b ∷ []) ≡ none
  rest-snoc_none [] p b ne h = absurd (cc h)
  rest-snoc_none (c ∷ []) [] b ne h = elim (Bool-cases (same b c)) [
    | inl e ↦ absurd (ne (rw (same_sound b c e)))
    | inr e ↦ rw e
  ]
  rest-snoc_none (c ∷ c' ∷ l) [] b ne h = elim (Bool-cases (same b c)) [
    | inl e ↦ rw e
    | inr e ↦ rw e
  ]
  rest-snoc_none (c ∷ l) (d ∷ p) b ne h = elim (Bool-cases (same d c)) [
    | inl e ↦
        let first = same_sound d c e in
        rw e (rest-snoc_none l p b (λ f. ne (cc (first, f))) (rw e at h))
    | inr e ↦ rw e
  ]

  add_ne : (o : Option (List B)) (s : ℕ) (es : Entries B) → es ≢ [] → add same o s es ≢ []
  add_ne none s es h = h
  add_ne (some p) s es h = cons_ne

  -- A longer path adds an entry under its own label, and under no other that had none.
  pub under-longer_mono :
      (l p : List B) (b : B) (s : ℕ) (es : Entries B)
      → under same l ((p, s) ∷ es) ≢ []
      → under same l ((p ++ b ∷ [], s) ∷ es) ≢ []
  under-longer_mono l p b s es h = elim (Option-cases (rest same l p)) [
    | inl e ↦
        let others : under same l es ≢ [] = rw (under-cons same l p s es, e) at h in
        rw (under-cons same l (p ++ b ∷ []) s es)
          (add_ne (rest same l (p ++ b ∷ [])) s (under same l es) others)
    | inr (r, e) ↦ rw (under-cons same l (p ++ b ∷ []) s es, rest-snoc l p b e) cons_ne
  ]

  pub under-longer :
      (l p : List B) (b : B) (s : ℕ) (es : Entries B)
      → l ≢ p ++ b ∷ []
      → under same l ((p, s) ∷ es) ≡ []
      → under same l ((p ++ b ∷ [], s) ∷ es) ≡ []
  under-longer l p b s es ne h = elim (Option-cases (rest same l p)) [
    | inl e ↦
        let none_more = rest-snoc_none l p b ne e in
        rw (under-cons same l (p ++ b ∷ []) s es, none_more) (rw (under-cons same l p s es, e) at h)
    | inr (r, e) ↦ absurd (cons_ne (rw (under-cons same l p s es, e) at h))
  ]

  pub under_self : (p : List B) (s : ℕ) (es : Entries B) → under same p ((p, s) ∷ es) ≢ []
  under_self p s es = rw (under-cons same p p s es, rest_self p) cons_ne
