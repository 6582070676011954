-- ===== src/Binding/Index/Earliest.antt =====
-- The earliest symbol of some entries.
use ptx_frontend.Common.{
  ℕ, ◌≡◌, ◌≢◌, refl, inl, inr, Bool, true, Option, none, List, [], ◌∷◌, ◌++◌, Option-cases,
}
use ptx_frontend.Binding.Index.{keep_earliest}
use ptx_frontend.Binding.Index.Entries.{
  Entries, under, under-cons, rest, rest_self, rest-snoc, rest-snoc_none,
}

module _ {B : Type 0} where
  abbrev pub earliest : Entries B → Option ℕ
  earliest [] = none
  earliest ((p, s) ∷ es) = keep_earliest (earliest es) s

module _ {B : Type 0} (same : B → B → Bool) (same_sound : (b c : B) → same b c ≡ true → b ≡ c)
    (same_refl : (b : B) → same b b ≡ true) where
  pub rest_shorter : (p : List B) (b : B) → rest same (p ++ b ∷ []) p ≡ none
  rest_shorter [] b = refl
  rest_shorter (c ∷ p) b = rw (same_refl c) (rest_shorter p b)

  -- A path that grows by a step counts at its new label, and elsewhere as before.
  pub earliest-longer :
      (l p : List B) (b : B) (s : ℕ) (es : Entries B)
      → l ≢ p ++ b ∷ []
      → earliest (under same l ((p ++ b ∷ [], s) ∷ es)) ≡ earliest (under same l ((p, s) ∷ es))
  earliest-longer l p b s es ne =
      rw (under-cons same l (p ++ b ∷ []) s es, under-cons same l p s es)
        (elim (Option-cases (rest same l p)) [
          | inl e ↦ rw (e, rest-snoc_none same same_sound same_refl l p b ne e)
          | inr (r, e) ↦ rw (e, rest-snoc same same_sound same_refl l p b e)
        ])

  pub earliest-longer_self :
      (p : List B) (b : B) (s : ℕ) (es : Entries B)
      → earliest (under same (p ++ b ∷ []) ((p ++ b ∷ [], s) ∷ es))
        ≡ keep_earliest (earliest (under same (p ++ b ∷ []) ((p, s) ∷ es))) s
  earliest-longer_self p b s es = rw (
    under-cons same (p ++ b ∷ []) (p ++ b ∷ []) s es,
    under-cons same (p ++ b ∷ []) p s es,
    rest_self same same_sound same_refl (p ++ b ∷ []),
    rest_shorter p b,
  )
