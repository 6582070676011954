-- ===== src/Binding/Scopes/Held.antt =====
-- What the indexes of a scope hold: its declarations, the newest first.
use ptx_frontend.Common.{
  ℕ, suc, ◌+◌, ◌≡◌, ◌≢◌, ◌≤◌, refl, sym, ap, ◌∙◌, inl, inr, Option, none, some, List, [], ◌∷◌, ◌++◌,
  Text, codes, arith, none≢some, Bool-cases, ◌==◌, if◌then◌else◌, false≢true, length, same_text,
  same_text_refl,
}
use ptx_frontend.Binding.Index.Prefix.Insert.{
  ends, same_character, IsPrefixIndex, ends_at, ends_at-cons_other, new_prefixes-IsPrefixIndex,
}
use ptx_frontend.Binding.Index.Entries.{under-nil}
use ptx_frontend.Binding.Index.Prefix.Groups.{AreDistinct}
use ptx_frontend.Binding.Index.Numeric.Below.{Members}
use ptx_frontend.Binding.Scopes.{ScopeNameIndex, TextMap, new_scope, find}
use ptx_frontend.Binding.Scopes.Members.{HoldMembers, add_member}
use ptx_frontend.Binding.Scopes.Spellings.{with_spelling}

-- A declaration: the members of a symbol that the indexes are about.
pub record Declared : Type 0 where
  pub id : ℕ
  pub name : Text
  pub count : Option ℕ

abbrev pub add_ordinary : Option ℕ → Text → ℕ → TextMap ℕ → TextMap ℕ
add_ordinary none name id names = (name, id) ∷ names
add_ordinary (some count) name id names = names

abbrev pub ordinary_names : List Declared → TextMap ℕ
ordinary_names [] = []
ordinary_names (d ∷ ds) = add_ordinary d.count d.name d.id (ordinary_names ds)

abbrev pub add_group : Option ℕ → Text → ℕ → TextMap ℕ → TextMap ℕ
add_group none name id names = names
add_group (some count) name id names = (name, id) ∷ names

abbrev pub group_names : List Declared → TextMap ℕ
group_names [] = []
group_names (d ∷ ds) = add_group d.count d.name d.id (group_names ds)

-- The spelling under which a declaration is indexed: its name, or the first member of a group.
abbrev pub enter : Option ℕ → Text → ℕ → (Text → Members) → Text → Members
enter none name id content = with_spelling content name id
enter (some count) name id content =
    if count == 0 then content else with_spelling content (name ++ codes "0") id

abbrev pub members_of : List Declared → Text → Members
members_of [] b = []
members_of (d ∷ ds) b = enter d.count d.name d.id (λ b'. members_of ds b') b

abbrev pub name_size : List Declared → ℕ
name_size [] = 0
name_size (d ∷ ds) = length d.name + name_size ds

pub record Holds (index : ScopeNameIndex) (ds : List Declared) : Type 0 where
  pub ordinary : index.ordinary_exact ≡ ordinary_names ds
  pub groups : index.parameterized_exact ≡ group_names ds
  pub prefixes : IsPrefixIndex index.parameterized_prefixes (group_names ds)
  pub prefixes_size : length index.parameterized_prefixes ≤ suc (name_size ds)
  pub members : HoldMembers index.member_prefixes (λ b. members_of ds b)
  pub distinct : AreDistinct (group_names ds)

pub new_scope-Holds : Holds new_scope []
new_scope-Holds = record {
  ordinary = refl;
  groups = refl;
  prefixes = new_prefixes-IsPrefixIndex;
  prefixes_size = omega arith;
  members = record { absent = λ b e. refl; present = λ b index e. absurd (none≢some e) };
  distinct = tt;
}

length-with_spelling :
    (content : Text → Members) (spelling : Text) (id : ℕ) (b : Text)
    → length (with_spelling content spelling id b) ≤ suc (length (content b))
length-with_spelling content spelling id [] = omega arith
length-with_spelling content spelling id (c ∷ b) = grown _ id (content (c ∷ b))
  where
    grown : (o : Option ℕ) (id : ℕ) (ms : Members) → length (add_member o id ms) ≤ suc (length ms)
    grown none id ms = omega arith
    grown (some m) id ms = omega arith

length-enter :
    (count : Option ℕ) (name : Text) (id : ℕ) (content : Text → Members) (b : Text)
    → length (enter count name id content b) ≤ suc (length (content b))
length-enter none name id content b = length-with_spelling content name id b
length-enter (some count) name id content b = elim (Bool-cases (count == 0)) [
  | inl e ↦ rw e (omega arith)
  | inr e ↦ rw e (length-with_spelling content (name ++ codes "0") id b)
]

pub length-members_of : (ds : List Declared) (b : Text) → length (members_of ds b) ≤ length ds
length-members_of [] b = omega arith
length-members_of (d ∷ ds) b =
    omega
      (arith, length-enter d.count d.name d.id (λ b'. members_of ds b') b, length-members_of ds b)

-- A base that was not found has no entry in the trie.
pub find-ends_at : (name : Text) (es : TextMap ℕ) → find name es ≡ none → ends_at es name ≡ none
find-ends_at name [] e = ap ends (under-nil same_character name)
find-ends_at name ((p, s) ∷ es) e = elim (Bool-cases (same_text name p)) [
  | inl t ↦ let found : some s ≡ none = rw t at e in absurd (cc found)
  | inr t ↦
      let other : name ≢ p = λ f. false≢true (sym t ∙ rw (← f) (same_text_refl name)) in
      ends_at-cons_other name p s es other ∙ find-ends_at name es (rw t at e)
]
