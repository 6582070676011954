-- ===== src/Base/Scalar/Table.antt =====
-- The table of scalar types is indexed by the enumerators, and its spellings tell the rows apart.
use ptx_frontend.Common.{
  ℕ, zero, suc, ◌-◌, ◌≡◌, refl, sym, ap, subst, ◌∙◌, ◌↔◌, inl, inr, true, ◌||◌, Option, none, some,
  Text, get_elem?, length, All, All-find_if, All-get_elem?, same_text, same_text_sound,
  find_if_sound, if-none, arith, ltb, ◌==◌, ==_iff, ==_refl, Bool-cases,
}
use ptx_frontend.Base.Scalar.{
  invalid, ScalarType, ScalarTypeMetadata, index, scalar_type_metadata, same_type, checked_row,
  find_by_type, find_by_spelling,
}

-- What both lookups say of one row.
pub record Agrees (m : ScalarTypeMetadata) : Type 0 where
  pub by_type : find_by_type m.type ≡ some m
  pub by_spelling : find_by_spelling m.source_spelling ≡ some m

rows_agree : All Agrees scalar_type_metadata
unfolding scalar_type_metadata find_by_type find_by_spelling same_type
rows_agree = ground arith

checked_row-eq-some :
    (t : ScalarType) (o : Option ScalarTypeMetadata) (m : ScalarTypeMetadata)
    → checked_row t o ≡ some m
    → o ≡ some m
unfolding checked_row
checked_row-eq-some t none m h = h
checked_row-eq-some t (some n) m h = elim (Bool-cases (same_type n.type t)) [
  | inl e ↦ rw e at h
  | inr e ↦ let impossible : none ≡ some m = rw e at h in cc impossible
]

find_by_type-Agrees : (t : ScalarType) (m : ScalarTypeMetadata) → find_by_type t ≡ some m → Agrees m
unfolding find_by_type
find_by_type-Agrees t m h =
    let found = if-none ((index t == 0) || ltb (length scalar_type_metadata) (index t)) _ h in
    All-get_elem? Agrees scalar_type_metadata (index t - 1) rows_agree
      (checked_row-eq-some t (get_elem? scalar_type_metadata (index t - 1)) m found)

find_by_spelling-Agrees :
    (s : Text) (m : ScalarTypeMetadata)
    → find_by_spelling s ≡ some m
    → Agrees m × (m.source_spelling ≡ s)
unfolding find_by_spelling
find_by_spelling-Agrees s m h = (
  All-find_if Agrees (λ n. same_text n.source_spelling s) scalar_type_metadata rows_agree h,
  same_text_sound m.source_spelling s
      (find_if_sound (λ n. same_text n.source_spelling s) scalar_type_metadata h),
)

-- A spelling finds a row exactly when the row is the one of its type and carries that spelling: the
-- two lookups of the table are inverse to one another.
pub find_by_spelling-iff-find_by_type :
    (s : Text) (m : ScalarTypeMetadata)
    → (find_by_spelling s ≡ some m) ↔ ((find_by_type m.type ≡ some m) × (m.source_spelling ≡ s))
find_by_spelling-iff-find_by_type s m = (
  λ h. let (agrees, text) = find_by_spelling-Agrees s m h in (agrees.by_type, text),
  λ h.
      let agrees = find_by_type-Agrees m.type m h.0 in
      subst (λ u. find_by_spelling u ≡ some m) h.1 agrees.by_spelling,
)

type_or_invalid : Option ScalarTypeMetadata → ScalarType
type_or_invalid none = invalid
type_or_invalid (some m) = m.type

of_index : ℕ → ScalarType
of_index zero = invalid
of_index (suc i) = type_or_invalid (get_elem? scalar_type_metadata i)

of_index-index : (t : ScalarType) → of_index (index t) ≡ t
unfolding of_index type_or_invalid scalar_type_metadata
of_index-index invalid = refl
of_index-index _ = refl

-- The enumerators' numbers tell them apart.
pub same_type_iff : (a b : ScalarType) → (same_type a b ≡ true) ↔ (a ≡ b)
unfolding same_type
same_type_iff a b = (
  λ h.
      let same : index a ≡ index b = (==_iff (index a) (index b)).0 h in
      sym (of_index-index a) ∙ ap of_index same ∙ of_index-index b,
  λ h. rw h (==_refl (index b)),
)
