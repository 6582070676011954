-- ===== src/Binding/Builder/Prior.antt =====
-- hasPriorDeclaration against the order of the source.
use ptx_frontend.Common.{
  ℕ, suc, ◌^◌, ◌≡◌, ◌≢◌, ◌<◌, refl, sym, ap, ◌∙◌, subst, inl, inr, ◌⊎◌, Bool, true, false, ◌||◌,
  Option, none, some, List, [], ◌∷◌, arith, false≢true, ltb, ltb→lt, lt→ltb, Bool-cases,
  Option-cases, ◌==◌, if◌then◌else◌, length, is_some, get_elem?,
}
use ptx_frontend.Syntax.{SourceRange}
use ptx_frontend.Binding.Symbols.{SymbolDeclarationOccurrence, same_range}
use ptx_frontend.Binding.Table.{SymbolTable}
use ptx_frontend.Binding.Builder.{find_order}
use ptx_frontend.Binding.Builder.Queries.{prior_from, has_prior_declaration}
use ptx_frontend.Binding.Builder.Orders.{index_source_ranges, no_orders, index_source_ranges-order}
use ptx_frontend.Binding.Builder.Follows.{IsEarlier, now, later, count}
use ptx_frontend.Binding.Builder.Ranges.{same_range_sound, same_range_refl}
use ptx_frontend.Binding.Builder.Recorded.{AllOrdered, HasOrders}

one_first :
    (a b : SourceRange) (rs : List SourceRange)
    → same_range a b ≡ false
    → 0 < count a rs
    → 0 < count b rs
    → IsEarlier a b rs ⊎ IsEarlier b a rs
one_first a b [] other h k = absurd (omega arith)
one_first a b (x ∷ rs) other h k = elim (Bool-cases (same_range a x)) [
  | inl e ↦ elim (Bool-cases (same_range b x)) [
    | inl f ↦
        let both : a ≡ b = same_range_sound a x e ∙ sym (same_range_sound b x f) in
        let same : same_range a b ≡ true = rw both (same_range_refl b) in
        absurd (false≢true (sym other ∙ same))
    | inr f ↦
        let seen : 0 < count b rs = unseen b f k in
        inr (subst (λ q. IsEarlier b a (q ∷ rs)) (same_range_sound a x e) (now rs seen))
  ]
  | inr e ↦
      let seen : 0 < count a rs = unseen a e h in
      elim (Bool-cases (same_range b x)) [
        | inl f ↦ inl (subst (λ q. IsEarlier a b (q ∷ rs)) (same_range_sound b x f) (now rs seen))
        | inr f ↦ elim (one_first a b rs other seen (unseen b f k)) [
          | inl i ↦ inl (later x rs i)
          | inr i ↦ inr (later x rs i)
        ]
      ]
]
  where
    unseen : (r : SourceRange) → same_range r x ≡ false → 0 < count r (x ∷ rs) → 0 < count r rs
    unseen r e h = subst (λ (q : Bool). 0 < (if q then suc (count r rs) else count r rs)) e h

or_true : (u : Bool) → u || true ≡ true
or_true true = refl
or_true false = refl

or_false : (u : Bool) → u || false ≡ u
or_false true = refl
or_false false = refl

module _ (rs : List SourceRange) (room : length rs < 2 ^ 32) where
  sole :
      (r : SourceRange) (i : ℕ)
      → find_order r (index_source_ranges no_orders rs).orders ≡ some i
      → count r rs ≡ 1
  sole r i e =
      let counted = (index_source_ranges-order rs room).0 r in
      let one : (count r rs == 1) ≡ true = sym counted ∙ ap is_some e in ground arith

  not_sole :
      (r : SourceRange)
      → find_order r (index_source_ranges no_orders rs).orders ≡ none
      → count r rs ≢ 1
  not_sole r e one =
      let counted = (index_source_ranges-order rs room).0 r in
      let other : (count r rs == 1) ≡ false = sym counted ∙ ap is_some e in ground arith

module _ (rs : List SourceRange) (use_range : SourceRange) where
  -- An occurrence that the source has once, before the use.
  abbrev pub HasEarlier : List SymbolDeclarationOccurrence → Type 0
  HasEarlier [] = ⊥
  HasEarlier (o ∷ os) = ((count o.range rs ≡ 1) × IsEarlier o.range use_range rs) ⊎ HasEarlier os

  abbrev pub NoneEarlier : List SymbolDeclarationOccurrence → Type 0
  NoneEarlier [] = Unit
  NoneEarlier (o ∷ os) = (count o.range rs ≡ 1) × ¬ IsEarlier o.range use_range rs × NoneEarlier os

  abbrev pub HasUnordered : List SymbolDeclarationOccurrence → Type 0
  HasUnordered [] = ⊥
  HasUnordered (o ∷ os) = (count o.range rs ≢ 1) ⊎ HasUnordered os

  -- What a result says of the occurrences.
  abbrev pub Answers : List SymbolDeclarationOccurrence → Bool → Option Bool → Type 0
  Answers os unknown (some true) = HasEarlier os
  Answers os unknown (some false) = (unknown ≡ false) × NoneEarlier os
  Answers os unknown none = ((unknown ≡ true) ⊎ HasUnordered os) × ¬ HasEarlier os

  unordered_first :
      (o : SymbolDeclarationOccurrence) (os : List SymbolDeclarationOccurrence) (unknown : Bool)
      → count o.range rs ≢ 1
      → (r : Option Bool) → Answers os true r
      → Answers (o ∷ os) unknown r
  unordered_first o os unknown n (some true) a = inr a
  unordered_first o os unknown n (some false) a = absurd (false≢true (sym a.0))
  unordered_first o os unknown n none a =
      (inr (inl n), λ h. elim h [ inl both ↦ n both.0 | inr h' ↦ a.1 h' ])

  later_first :
      (o : SymbolDeclarationOccurrence) (os : List SymbolDeclarationOccurrence) (unknown : Bool)
      → count o.range rs ≡ 1
      → ¬ IsEarlier o.range use_range rs
      → (r : Option Bool) → Answers os unknown r
      → Answers (o ∷ os) unknown r
  later_first o os unknown sole not_before (some true) a = inr a
  later_first o os unknown sole not_before (some false) a = (a.0, (sole, not_before, a.1))
  later_first o os unknown sole not_before none a = (
    elim a.0 [ inl u ↦ inl u | inr h ↦ inr (inr h) ],
    λ h. elim h [ inl both ↦ not_before both.1 | inr h' ↦ a.1 h' ],
  )

  module _ (room : length rs < 2 ^ 32) (order : ℕ)
      (used : find_order use_range (index_source_ranges no_orders rs).orders ≡ some order) where
    before :
        (r : SourceRange) (i : ℕ)
        → find_order r (index_source_ranges no_orders rs).orders ≡ some i
        → i < order
        → IsEarlier r use_range rs
    before r i e low = elim (Bool-cases (same_range r use_range)) [
      | inl f ↦
          let same = same_range_sound r use_range f in
          let at : some i ≡ some order = cc (same, e, used) in
          let at' : i ≡ order = cc at in absurd (omega arith)
      | inr f ↦
          let one = sole rs room r i e in
          let one' = sole rs room use_range order used in
          elim (one_first r use_range rs f (omega arith) (omega arith)) [
            | inl earlier ↦ earlier
            | inr wrong ↦
                let high = (index_source_ranges-order rs room).1 use_range r order i wrong used e in
                absurd (omega arith)
          ]
    ]

    not_before :
        (r : SourceRange) (i : ℕ)
        → find_order r (index_source_ranges no_orders rs).orders ≡ some i
        → ltb i order ≡ false
        → ¬ IsEarlier r use_range rs
    not_before r i e high earlier =
        let low = (index_source_ranges-order rs room).1 r use_range i order earlier e used in
        absurd (false≢true (sym high ∙ lt→ltb i order low))

    prior_from-Answers :
        (os : List SymbolDeclarationOccurrence) (unknown : Bool)
        → AllOrdered (index_source_ranges no_orders rs).orders os
        → Answers os unknown (prior_from os order unknown)
    unfolding prior_from
    prior_from-Answers [] true ordered = (inl refl, λ h. h)
    prior_from-Answers [] false ordered = (refl, tt)
    prior_from-Answers (o ∷ os) unknown ordered = elim (Option-cases o.lexical_order) [
      | inl e ↦
          let unordered : find_order o.range (index_source_ranges no_orders rs).orders ≡ none =
            sym ordered.0 ∙ e in
          rw (e, or_true unknown)
            (unordered_first o os unknown (not_sole rs room o.range unordered)
              (prior_from os order true) (prior_from-Answers os true ordered.1))
      | inr (i, e) ↦
          let at : find_order o.range (index_source_ranges no_orders rs).orders ≡ some i =
            sym ordered.0 ∙ e in
          elim (Bool-cases (ltb i order)) [
            | inl low ↦
                rw (e, low)
                  (inl (sole rs room o.range i at, before o.range i at (ltb→lt i order low)))
            | inr high ↦
                rw (e, high, or_false unknown)
                  (later_first o os unknown (sole rs room o.range i at)
                    (not_before o.range i at high) (prior_from os order unknown)
                    (prior_from-Answers os unknown ordered.1))
          ]
    ]

-- With the orders of fewer than 2^32 source ranges, and a table whose occurrences have the orders of
-- their ranges: for a use that the source has once, `hasPriorDeclaration` answers true when an occurrence
-- of the symbol that the source has once stands before the use, false when each is there once and none stands
-- before the use, and has no answer otherwise. For another use it has no answer.
pub has_prior_declaration-Answers :
    (rs : List SourceRange) (t : SymbolTable) (symbol : ℕ) (use_range : SourceRange)
    (os : List SymbolDeclarationOccurrence)
    → length rs < 2 ^ 32
    → get_elem? t.declaration_occurrences symbol ≡ some os
    → HasOrders (index_source_ranges no_orders rs).orders t
    → ((count use_range rs ≡ 1)
        × Answers rs use_range os false
            (has_prior_declaration (index_source_ranges no_orders rs).orders t symbol use_range))
      ⊎ ((count use_range rs ≢ 1)
          × (has_prior_declaration (index_source_ranges no_orders rs).orders t symbol use_range
              ≡ none))
unfolding has_prior_declaration
has_prior_declaration-Answers rs t symbol use_range os room held has =
    elim (Option-cases (find_order use_range (index_source_ranges no_orders rs).orders)) [
      | inl e ↦ inr (not_sole rs room use_range e, rw (has_prior_declaration, e) refl)
      | inr (order, e) ↦
          let answer : has_prior_declaration (index_source_ranges no_orders rs).orders t symbol
                use_range
              ≡ prior_from os order false =
            rw (has_prior_declaration, e, held) refl in
          inl (
            sole rs room use_range order e,
            subst (Answers rs use_range os false) (sym answer)
                (prior_from-Answers rs use_range room order e os false (has symbol os held)),
          )
    ]
