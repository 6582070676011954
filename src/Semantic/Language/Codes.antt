-- ===== src/Semantic/Language/Codes.antt =====
-- What `.language` operands have a code.
use ptx_frontend.Common.{
  ℕ, suc, ◌-◌, ◌≤◌, ◌≡◌, ◌↔◌, ◌⊎◌, inl, inr, refl, ap, subst, ◌∙◌, true, false, Option, none, some,
  [], ◌∷◌, ◌++◌, Text, same_text, same_text_sound, length, length-append, drop, take, take-append,
  get_elem?, find_if, find_if_sound, find_if-get_elem?, All, All-get_elem?, arith, leb, Bool-cases,
}
use ptx_frontend.Base.Integer.{parse_integer_magnitude}
use ptx_frontend.Base.Integer.Spelling.{parse_integer_magnitude-quoted}
use ptx_frontend.Semantic.Language.{
  lower, back_is, is_quoted, LanguageName, names, code_of, at_most_ten, language_code,
}

abbrev pub quoted : Text → Text
quoted body = b'"' ∷ (body ++ b'"' ∷ [])

abbrev pub row : Text → ℕ → LanguageName
row n c = record { name = n; code = c }

back_split :
    (q c : ℕ) (t : Text) → back_is q (c ∷ t) ≡ true → c ∷ t ≡ take (length t) (c ∷ t) ++ q ∷ []
back_split q c [] h = ground arith
back_split q c (d ∷ t) h = ap (λ (u : Text). c ∷ u) (back_split q d t h)

back_append : (q : ℕ) (t : Text) → back_is q (t ++ q ∷ []) ≡ true
back_append q [] = ground arith
back_append q (c ∷ []) = ground arith
back_append q (c ∷ d ∷ t) = back_append q (d ∷ t)

body_of_quoted : (s : Text) → is_quoted s ≡ true → s ≡ quoted (take (length s - 2) (drop 1 s))
body_of_quoted [] h = cc h
body_of_quoted (c ∷ []) h = cc h
body_of_quoted (c ∷ d ∷ t) h =
    let front : c ≡ b'"' = ground arith in
    let back : back_is b'"' (d ∷ t) ≡ true = ground arith in
    let size : suc (suc (length t)) - 2 ≡ length t = omega arith in
    rw (size, front) (ap (λ (u : Text). b'"' ∷ u) (back_split b'"' d t back))

quoted-is_quoted : (body : Text) → is_quoted (quoted body) ≡ true
quoted-is_quoted [] = refl
quoted-is_quoted (c ∷ body) =
    let long : leb 2 (length (quoted (c ∷ body))) ≡ true = ground arith in
    rw (long, back_append b'"' (c ∷ body)) refl

quoted_body : (body : Text) → take (length (quoted body) - 2) (drop 1 (quoted body)) ≡ body
quoted_body body =
    let size : length (quoted body) - 2 ≡ length body =
      omega (arith, length-append body (b'"' ∷ [])) in
    rw size (take-append body (b'"' ∷ []))

rows_found : All (λ (l : LanguageName). find_if (λ m. same_text m.name l.name) names ≡ some l) names
unfolding names
rows_found = ground arith

same_row : (l : LanguageName) (n : Text) (c : ℕ) → l.name ≡ n → l.code ≡ c → l ≡ row n c
same_row l n c h k = ap (λ (t : Text). row t l.code) h ∙ ap (row n) k

-- A row of the table, found by its name.
names_iff :
    (n : Text) (c : ℕ)
    → (code_of (find_if (λ l. same_text l.name n) names) ≡ some c)
      ↔ ((k : ℕ) × (get_elem? names k ≡ some (row n c)))
names_iff n c = (
  λ h. found (find_if (λ l. same_text l.name n) names) refl h,
  λ (k, e). ap code_of (
      All-get_elem? (λ (l : LanguageName). find_if (λ m. same_text m.name l.name) names ≡ some l)
        names k rows_found e),
)
  where
    found :
        (o : Option LanguageName)
        → find_if (λ l. same_text l.name n) names ≡ o
        → code_of o ≡ some c
        → (k : ℕ) × (get_elem? names k ≡ some (row n c))
    found none e h = cc h
    found (some l) e h =
        let (k, at) = find_if-get_elem? (λ l. same_text l.name n) names e in
        let text : l.name ≡ n =
          same_text_sound l.name n (find_if_sound (λ l. same_text l.name n) names e) in
        let code : l.code ≡ c = cc h in (k, at ∙ ap some (same_row l n c text code))

not_quoted : (s : Text) (c : ℕ) → parse_integer_magnitude s ≡ some c → is_quoted s ≡ false
not_quoted s c h = elim (Bool-cases (is_quoted s)) [
  | inl e ↦
      let none_read =
        parse_integer_magnitude-quoted (take (length s - 2) (drop 1 s) ++ b'"' ∷ []) in
      let read = subst (λ (u : Text). parse_integer_magnitude u ≡ some c) (body_of_quoted s e) h in
      cc (none_read, read)
  | inr e ↦ e
]

at_most_ten_iff : (o : Option ℕ) (c : ℕ) → (at_most_ten o ≡ some c) ↔ ((o ≡ some c) × (c ≤ 10))
at_most_ten_iff none c = (λ h. cc h, λ h. cc (h.0))
at_most_ten_iff (some v) c = ground arith

-- An operand has the code `c` exactly when it is one of the nine names in quotes, whatever the case of
-- its letters, and `c` is the code of the name, or an integer spelling of `c`, and `c` is at most 10.
pub language_code_iff :
    (s : Text) (c : ℕ)
    → (language_code s ≡ some c) ↔ (
        ((body : Text) × (s ≡ quoted body)
          × (k : ℕ) × (get_elem? names k ≡ some (row (lower body) c)))
        ⊎ ((parse_integer_magnitude s ≡ some c) × (c ≤ 10)))
unfolding language_code
language_code_iff s c = (
  λ h. elim (Bool-cases (is_quoted s)) [
    | inl e ↦
        let body = take (length s - 2) (drop 1 s) in
        let (k, at) = (names_iff (lower body) c).0 (rw e at h) in
        inl (body, body_of_quoted s e, k, at)
    | inr e ↦ inr ((at_most_ten_iff (parse_integer_magnitude s) c).0 (rw e at h))
  ],
  λ h. elim h [
    | inl (body, e, k, at) ↦
        rw (e, quoted-is_quoted body, quoted_body body) ((names_iff (lower body) c).1 (k, at))
    | inr (e, small) ↦
        rw (not_quoted s c e) ((at_most_ten_iff (parse_integer_magnitude s) c).1 (e, small))
  ],
)
