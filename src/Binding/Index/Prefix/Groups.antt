-- ===== src/Binding/Index/Prefix/Groups.antt =====
-- If no two groups have the same base, the walk meets the earliest group that has the spelling as a
-- member.
use ptx_frontend.Common.{
  ℕ, ◌≡◌, refl, sym, ap, ◌∙◌, subst, inl, inr, true, false, Option, none, some, List, [], ◌∷◌, Text,
  arith, none≢some, Bool-cases, ◌==◌, if◌then◌else◌,
}
use ptx_frontend.Binding.Symbols.{Symbol}
use ptx_frontend.Binding.Index.{keep_earliest}
use ptx_frontend.Binding.Index.Entries.{Entries, strip, rest}
use ptx_frontend.Binding.Index.Numeric.Query.{join, join_comm, join-none}
use ptx_frontend.Binding.Index.Numeric.Below.{keep_join_right}
use ptx_frontend.Binding.Index.Prefix.Insert.{ends, same_character, ends_at}
use ptx_frontend.Binding.Index.Prefix.Query.{hit, only_hit, met}

abbrev pub AreDistinct : Entries ℕ → Type 0
AreDistinct [] = Unit
AreDistinct ((p, s) ∷ es) = (ends_at es p ≡ none) × AreDistinct es

AreDistinct-strip :
    (c : ℕ) (es : Entries ℕ) → AreDistinct es → AreDistinct (strip same_character c es)
AreDistinct-strip c [] h = tt
AreDistinct-strip c (([], s) ∷ es) (k, h) = AreDistinct-strip c es h
AreDistinct-strip c ((d ∷ p, s) ∷ es) (k, h) = elim (Bool-cases (d == c)) [
  | inl e ↦
      let same : d ≡ c = ground arith in
      rw e (subst (λ b. ends_at es (b ∷ p) ≡ none) same k, AreDistinct-strip c es h)
  | inr e ↦ rw e (AreDistinct-strip c es h)
]

module _ (symbols : List Symbol) (spelling : Text) where
  abbrev pub hits : Entries ℕ → Option ℕ
  hits [] = none
  hits ((p, s) ∷ es) =
      let others = hits es in if hit symbols spelling s then keep_earliest others s else others

  -- The hits of the entries with a path that is not empty.
  abbrev pub longer_hits : Entries ℕ → Option ℕ
  longer_hits [] = none
  longer_hits (([], s) ∷ es) = longer_hits es
  longer_hits ((c ∷ p, s) ∷ es) =
      let others = longer_hits es in
      if hit symbols spelling s then keep_earliest others s else others

  -- The paths of the hits are prefixes of what is left of the spelling.
  abbrev pub ArePrefixes : Text → Entries ℕ → Type 0
  ArePrefixes left [] = Unit
  ArePrefixes left ((p, s) ∷ es) =
      (hit symbols spelling s ≡ true → (r : Text) × (rest same_character p left ≡ some r))
      × ArePrefixes left es

  no_hit : (s : ℕ) → (hit symbols spelling s ≡ true → ⊥) → hit symbols spelling s ≡ false
  no_hit s h = elim (Bool-cases (hit symbols spelling s)) [ inl e ↦ absurd (h e) | inr e ↦ e ]

  ArePrefixes-strip :
      (c : ℕ) (left : Text) (es : Entries ℕ)
      → ArePrefixes (c ∷ left) es
      → ArePrefixes left (strip same_character c es)
  ArePrefixes-strip c left [] h = tt
  ArePrefixes-strip c left (([], s) ∷ es) (k, h) = ArePrefixes-strip c left es h
  ArePrefixes-strip c left ((d ∷ p, s) ∷ es) (k, h) = elim (Bool-cases (d == c)) [
    | inl e ↦
        let e' : (c == d) ≡ true = ground arith in
        let k' : hit symbols spelling s ≡ true
            → (r : Text) × (rest same_character p left ≡ some r) =
          rw e' at k in
        rw e (k', ArePrefixes-strip c left es h)
    | inr e ↦ rw e (ArePrefixes-strip c left es h)
  ]

  longer_hits-strip :
      (c : ℕ) (left : Text) (es : Entries ℕ)
      → ArePrefixes (c ∷ left) es
      → longer_hits es ≡ hits (strip same_character c es)
  longer_hits-strip c left [] h = refl
  longer_hits-strip c left (([], s) ∷ es) (k, h) = longer_hits-strip c left es h
  longer_hits-strip c left ((d ∷ p, s) ∷ es) (k, h) = elim (Bool-cases (d == c)) [
    | inl e ↦ rw (e, longer_hits-strip c left es h) refl
    | inr e ↦
        let e' : (c == d) ≡ false = ground arith in
        let missed = no_hit s (λ t. let (r, f) = k t in none≢some (rw e' at f)) in
        rw (e, missed, longer_hits-strip c left es h) refl
  ]

  longer_hits-end : (es : Entries ℕ) → ArePrefixes [] es → longer_hits es ≡ none
  longer_hits-end [] h = refl
  longer_hits-end (([], s) ∷ es) (k, h) = longer_hits-end es h
  longer_hits-end ((c ∷ p, s) ∷ es) (k, h) =
      let missed = no_hit s (λ t. none≢some (k t).1) in rw missed (longer_hits-end es h)

  hits-split :
      (es : Entries ℕ)
      → AreDistinct es
      → hits es ≡ join (only_hit symbols spelling (ends es)) (longer_hits es)
  hits-split [] h = refl
  hits-split (([], s) ∷ es) (k, h) =
      let no_other : ends es ≡ none = k in
      let rest : hits es ≡ longer_hits es =
        hits-split es h
        ∙ ap (λ o. join (only_hit symbols spelling o) (longer_hits es)) no_other
        ∙ join-none (longer_hits es) in
      elim (Bool-cases (hit symbols spelling s)) [
        | inl e ↦ rw (no_other, rest, e) (sym (join_comm (some s) (longer_hits es)))
        | inr e ↦ rw (no_other, rest, e) (sym (join-none (longer_hits es)))
      ]
  hits-split ((c ∷ p, s) ∷ es) (k, h) =
      let rest = hits-split es h in
      let ended = only_hit symbols spelling (ends es) in
      elim (Bool-cases (hit symbols spelling s)) [
        | inl e ↦ rw (e, rest) (sym (keep_join_right ended (longer_hits es) s))
        | inr e ↦ rw (e, rest) refl
      ]

  pub met-longer_hits :
      (left : Text) (es : Entries ℕ)
      → ArePrefixes left es
      → AreDistinct es
      → met symbols spelling es left ≡ longer_hits es
  met-longer_hits [] es h d = sym (longer_hits-end es h)
  met-longer_hits (c ∷ left) es h d =
      let es' = strip same_character c es in
      let further =
        met-longer_hits left es' (ArePrefixes-strip c left es h) (AreDistinct-strip c es d) in
      ap (join (only_hit symbols spelling (ends es'))) further
      ∙ sym (hits-split es' (AreDistinct-strip c es d))
      ∙ sym (longer_hits-strip c left es h)
