-- ===== src/Base/SpecialRegister/Lookup.antt =====
-- Lookup by spelling and by identity agree.
use ptx_frontend.Common.{
  ℕ, ◌≡◌, refl, sym, ap, ◌∙◌, ◌⊎◌, inl, inr, Bool, true, false, ◌&&◌, Option, none, some, List, [],
  ◌∷◌, ◌++◌, Text, codes, All, All-find_if, All-get_elem?, get_elem?, any, any_find, any_intro,
  &&-eq-true, find_if, same_text, starts_with, starts_with_sound, starts_with-append, subst, length,
  drop, drop-append, arith, Bool-cases, false≢true,
}
use ptx_frontend.Base.SpecialRegister.{
  Info, Entry, exact_entries, vector_entries, first_some, info_at, info_of, is_component,
  lookup_vector, performance_monitor_64_info, performance_monitor_info, environment_info,
  reserved_smem_offset_info, lookup_exact, lookup, same_id, metadata,
}

abbrev pub IsAxis : ℕ → Type 0
IsAxis c = (c ≡ b'x') ⊎ ((c ≡ b'y') ⊎ (c ≡ b'z'))

-- The spelling of one component of a vector.
abbrev pub IsComponent : Text → Type 0
IsComponent s =
    (k : ℕ) × (e : Entry) × (c : ℕ) × (get_elem? vector_entries k ≡ some e)
    × IsAxis c
    × (s ≡ e.spelling ++ b'.' ∷ c ∷ [])

-- The metadata of an identity is that of the register, with the width of the whole vector for a component.
abbrev pub Agrees : Text → Info → Type 0
Agrees s i =
    (IsComponent s × (i.vector_width ≡ 1) × (metadata i.id ≡ record i { vector_width = 4 }))
    ⊎ (¬ IsComponent s × (metadata i.id ≡ i))

-- The test of the loop over the vectors.
abbrev part : Text → Entry → Bool
part s e = starts_with e.spelling s && is_component (drop (length e.spelling) s)

is_component_sound : (r : Text) → is_component r ≡ true → (c : ℕ) × IsAxis c × (r ≡ b'.' ∷ c ∷ [])
unfolding is_component
is_component_sound [] h = absurd (false≢true h)
is_component_sound (d ∷ []) h = absurd (false≢true h)
is_component_sound (d ∷ c ∷ []) h =
    let dot : d ≡ b'.' = ground arith in (c, ground arith, ap (λ q. q ∷ c ∷ []) dot)
is_component_sound (d ∷ c ∷ x ∷ r) h = absurd (false≢true h)

is_component_intro : (c : ℕ) → IsAxis c → is_component (b'.' ∷ c ∷ []) ≡ true
unfolding is_component
is_component_intro c (inl e) = rw e refl
is_component_intro c (inr (inl e)) = rw e refl
is_component_intro c (inr (inr e)) = rw e refl

part-IsComponent : (s : Text) → any (part s) vector_entries ≡ true → IsComponent s
part-IsComponent s h =
    let (k, e, at, test) = any_find (part s) vector_entries h in
    let (begins, ends) =
      &&-eq-true (starts_with e.spelling s) (is_component (drop (length e.spelling) s)) test in
    let (r, is) = starts_with_sound e.spelling s begins in
    let behind : drop (length e.spelling) s ≡ r =
      ap (drop (length e.spelling)) is ∙ drop-append e.spelling r in
    let ends' : is_component r ≡ true = ap is_component (sym behind) ∙ ends in
    let (c, axis, same) = is_component_sound r ends' in
    (k, e, c, at, axis, is ∙ ap (λ q. e.spelling ++ q) same)

IsComponent-part : (s : Text) → IsComponent s → any (part s) vector_entries ≡ true
IsComponent-part s (k, e, c, at, axis, is) = any_intro (part s) vector_entries k at (
    rw (is, starts_with-append e.spelling (b'.' ∷ c ∷ []), drop-append e.spelling (b'.' ∷ c ∷ []))
      (is_component_intro c axis))

component_rows :
    All
      (λ e.
        (lookup (e.spelling ++ codes ".x") ≡ some e.info)
        × (lookup (e.spelling ++ codes ".y") ≡ some e.info)
        × (lookup (e.spelling ++ codes ".z") ≡ some e.info))
      vector_entries
unfolding lookup lookup_exact lookup_vector exact_entries vector_entries is_component
component_rows = ground arith

vector_rows :
    All
      (λ e. (metadata e.info.id ≡ record e.info { vector_width = 4 }) × (e.info.vector_width ≡ 1))
      vector_entries
unfolding exact_entries vector_entries metadata same_id
vector_rows = ground arith

component-lookup :
    (e : Entry) (c : ℕ)
    → (lookup (e.spelling ++ codes ".x") ≡ some e.info)
      × (lookup (e.spelling ++ codes ".y") ≡ some e.info)
      × (lookup (e.spelling ++ codes ".z") ≡ some e.info)
    → IsAxis c
    → lookup (e.spelling ++ b'.' ∷ c ∷ []) ≡ some e.info
component-lookup e c (x, y, z) (inl is) = rw is x
component-lookup e c (x, y, z) (inr (inl is)) = rw is y
component-lookup e c (x, y, z) (inr (inr is)) = rw is z

component-Agrees : (s : Text) (i : Info) → lookup s ≡ some i → IsComponent s → Agrees s i
component-Agrees s i h component =
    let (k, e, c, at, axis, is) = component in
    let rows = All-get_elem? _ vector_entries k component_rows at in
    let (whole, one) = All-get_elem? _ vector_entries k vector_rows at in
    let found : some e.info ≡ some i =
      sym (component-lookup e c rows axis) ∙ ap lookup (sym is) ∙ h in
    let same : e.info ≡ i = cc found in
    inl (
      component,
      subst (λ (q : Info). q.vector_width ≡ 1) same one,
      subst (λ (q : Info). metadata q.id ≡ record q { vector_width = 4 }) same whole,
    )

-- What is shown of the spellings that are not those of a component.
abbrev Confirmed : Info → Type 0
Confirmed i = metadata i.id ≡ i

exact_rows : All (λ e. Confirmed e.info) exact_entries
unfolding exact_entries vector_entries metadata same_id
exact_rows = ground arith

by_entry :
    (o : Option Entry) (i : Info)
    → ((e : Entry) → o ≡ some e → Confirmed e.info)
    → info_of o ≡ some i
    → Confirmed i
by_entry none i h k = cc k
by_entry (some e) i h k = let same : e.info ≡ i = cc k in subst Confirmed same (h e refl)

lookup_exact-Confirmed : (s : Text) (i : Info) → lookup_exact s ≡ some i → Confirmed i
unfolding lookup_exact
lookup_exact-Confirmed s i =
    by_entry (find_if (λ e. same_text e.spelling s) exact_entries) i (λ e h.
      All-find_if (λ e. Confirmed e.info) (λ e. same_text e.spelling s) exact_entries exact_rows h)

lookup_vector-Confirmed :
    (es : List Entry) (s : Text) (i : Info)
    → All
        (λ e. (metadata e.info.id ≡ record e.info { vector_width = 4 }) × (e.info.vector_width ≡ 1))
        es
    → any (part s) es ≡ false
    → lookup_vector es s ≡ some i
    → Confirmed i
unfolding lookup_vector
lookup_vector-Confirmed [] s i rows other h = cc h
lookup_vector-Confirmed (e ∷ es) s i rows other h = elim (Bool-cases (same_text s e.spelling)) [
  | inl whole ↦
      let same : record e.info { vector_width = 4 } ≡ i = cc (rw whole at h) in
      subst Confirmed same rows.0.0
  | inr not_whole ↦ elim (Bool-cases (part s e)) [
    | inl yes_part ↦
        let contrary : true ≡ false = rw yes_part at other in absurd (false≢true (sym contrary))
    | inr neither ↦
        lookup_vector-Confirmed es s i rows.1 (rw neither at other) (rw (not_whole, neither) at h)
  ]
]

info_at-Confirmed :
    (f : ℕ → Info) (o : Option ℕ) (i : Info)
    → ((n : ℕ) → Confirmed (f n))
    → info_at f o ≡ some i
    → Confirmed i
info_at-Confirmed f none i h k = cc k
info_at-Confirmed f (some n) i h k = let same : f n ≡ i = cc k in subst Confirmed same (h n)

first_some-Confirmed :
    (a b : Option Info) (i : Info)
    → (a ≡ some i → Confirmed i)
    → (b ≡ some i → Confirmed i)
    → first_some a b ≡ some i
    → Confirmed i
first_some-Confirmed none b i ha hb h = hb h
first_some-Confirmed (some j) b i ha hb h = ha h

performance_monitor_64-Confirmed : (n : ℕ) → Confirmed (performance_monitor_64_info n)
unfolding metadata exact_entries vector_entries same_id
performance_monitor_64-Confirmed n = refl

performance_monitor-Confirmed : (n : ℕ) → Confirmed (performance_monitor_info n)
unfolding metadata exact_entries vector_entries same_id
performance_monitor-Confirmed n = ground arith

environment-Confirmed : (n : ℕ) → Confirmed (environment_info n)
unfolding metadata exact_entries vector_entries same_id
environment-Confirmed n = refl

reserved_smem_offset-Confirmed : (n : ℕ) → Confirmed (reserved_smem_offset_info n)
unfolding metadata exact_entries vector_entries same_id
reserved_smem_offset-Confirmed n = refl

-- A register that is found has one of two spellings. For that of one component of a vector its width is 1,
-- and looking it up by its identity gives the same metadata with the width 4 of the whole vector. For any
-- other the identity gives the same metadata.
pub lookup-metadata : (s : Text) (i : Info) → lookup s ≡ some i → Agrees s i
unfolding lookup
lookup-metadata s i h = elim (Bool-cases (any (part s) vector_entries)) [
  | inl yes_part ↦ component-Agrees s i h (part-IsComponent s yes_part)
  | inr other ↦ inr (
    λ c. false≢true (sym other ∙ IsComponent-part s c),
    first_some-Confirmed _ _ i (lookup_exact-Confirmed s i)
        (first_some-Confirmed _ _ i (lookup_vector-Confirmed vector_entries s i vector_rows other) (
          first_some-Confirmed _ _ i
            (info_at-Confirmed performance_monitor_64_info _ i performance_monitor_64-Confirmed)
            (first_some-Confirmed _ _ i
              (info_at-Confirmed performance_monitor_info _ i performance_monitor-Confirmed)
              (first_some-Confirmed _ _ i
                (info_at-Confirmed environment_info _ i environment-Confirmed)
                (info_at-Confirmed reserved_smem_offset_info _ i reserved_smem_offset-Confirmed)))))
        h,
  )
]
