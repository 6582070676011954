-- ===== src/Base/Target/Spelling.antt =====
-- The spellings of targets: what `parse_target_identity` accepts, and what it reads.
use ptx_frontend.Common.{
  ℕ, ◌^◌, ◌<◌, ◌≡◌, refl, sym, ap, subst, ◌∙◌, ◌↔◌, inl, inr, Bool, true, false, ◌||◌, Option, none,
  some, [], ◌++◌, Text, codes, starts_with, starts_with_sound, same_text, same_text_sound, is_empty,
  is_empty_sound, if-none-false, arith, is_some, lt→ltb, if-none, if◌then◌else◌, Bool-cases,
}
use ptx_frontend.Common.FromChars.{
  Parsed, ok, invalid_argument, result_out_of_range, digit_of, from_chars, StopsDigits,
  from_chars-ok-lt,
}
use ptx_frontend.Common.Decimal.{
  decimal, starts_zero, decimal_cons, from_chars-decimal, decimal-starts_zero, decimal-from_chars,
}
use ptx_frontend.Base.Target.{
  TargetFlavor, generic, architecture_specific, family_specific, TargetIdentity, arch, prefix_size,
  flavor_of, identity_of, read_identity, parse_target_identity, texture_mode, debug, map_f64_to_f32,
  invalid, architecture, classify_target_directive_item,
}

pub data Prefix : Type 0 where
  sm compute : Prefix

abbrev pub prefix_text : Prefix → Text
prefix_text sm = codes "sm_"
prefix_text compute = codes "compute_"

abbrev pub flavor_text : TargetFlavor → Text
flavor_text generic = []
flavor_text architecture_specific = codes "a"
flavor_text family_specific = codes "f"

unfoldable pub spelling : Prefix → ℕ → TargetFlavor → Text
spelling p n f = prefix_text p ++ (decimal n ++ flavor_text f)

flavor_of-flavor_text : (f : TargetFlavor) → flavor_of (flavor_text f) ≡ some f
unfolding flavor_of
flavor_of-flavor_text generic = refl
flavor_of-flavor_text architecture_specific = refl
flavor_of-flavor_text family_specific = refl

flavor_of_sound : (t : Text) (f : TargetFlavor) → flavor_of t ≡ some f → t ≡ flavor_text f
unfolding flavor_of
flavor_of_sound t f h = elim (Bool-cases (same_text t (codes "a"))) [
  | inl a ↦
      let flavor : architecture_specific ≡ f = cc (rw a at h) in
      rw (← flavor) (same_text_sound t (codes "a") a)
  | inr not_a ↦ elim (Bool-cases (same_text t (codes "f"))) [
    | inl b ↦
        let flavor : family_specific ≡ f = cc (rw (not_a, b) at h) in
        rw (← flavor) (same_text_sound t (codes "f") b)
    | inr not_f ↦ elim (Bool-cases (is_empty t)) [
      | inl e ↦
          let flavor : generic ≡ f = cc (rw (not_a, not_f, e) at h) in
          rw (← flavor) (is_empty_sound t e)
      | inr e ↦ cc (rw (not_a, not_f, e) at h)
    ]
  ]
]

StopsDigits-flavor_text : (f : TargetFlavor) → StopsDigits 10 (flavor_text f)
unfolding digit_of
StopsDigits-flavor_text generic = tt
StopsDigits-flavor_text architecture_specific = refl
StopsDigits-flavor_text family_specific = refl

abbrev pub identity : Text → ℕ → TargetFlavor → TargetIdentity
identity s n f = record { architecture = arch n; flavor = f; source_spelling = s }

-- The text behind a prefix.
read_number : Text → Text → Option TargetIdentity
read_number s t = if is_empty t || starts_zero t then none else read_identity s (from_chars 32 10 t)

parse-read_number :
    (p : Prefix) (t : Text)
    → parse_target_identity (prefix_text p ++ t) ≡ read_number (prefix_text p ++ t) t
unfolding parse_target_identity read_number
parse-read_number sm t = refl
parse-read_number compute t = refl

is_empty-decimal : (n : ℕ) (t : Text) → is_empty (decimal n ++ t) ≡ false
is_empty-decimal n t = let (c, s, e) = decimal_cons n in rw e refl

read_number-decimal :
    (s : Text) (n : ℕ) (f : TargetFlavor)
    → 0 < n
    → n < 2 ^ 32
    → read_number s (decimal n ++ flavor_text f) ≡ some (identity s n f)
unfolding read_number read_identity identity_of
read_number-decimal s n f pos fits = rw (
  is_empty-decimal n (flavor_text f),
  decimal-starts_zero n (flavor_text f) pos,
  from_chars-decimal 32 n (flavor_text f) (StopsDigits-flavor_text f),
  lt→ltb n (2 ^ 32) fits,
  flavor_of-flavor_text f,
)

-- `i` is what the text `s` says, in the grammar of target names.
pub record Spells (s : Text) (i : TargetIdentity) : Type 0 where
  pub prefix : Prefix
  pub positive : 0 < i.architecture.number
  pub fits : i.architecture.number < 2 ^ 32
  pub text : s ≡ spelling prefix i.architecture.number i.flavor
  pub retained : i.source_spelling ≡ s

-- The part of it behind the prefix.
record Reads (s t : Text) (i : TargetIdentity) : Type 0 where
  positive : 0 < i.architecture.number
  fits : i.architecture.number < 2 ^ 32
  text : t ≡ decimal i.architecture.number ++ flavor_text i.flavor
  retained : i.source_spelling ≡ s

identity_of-eq-some :
    (s : Text) (n : ℕ) (o : Option TargetFlavor) (i : TargetIdentity)
    → identity_of s n o ≡ some i
    → (o ≡ some i.flavor) × (n ≡ i.architecture.number) × (i.source_spelling ≡ s)
unfolding identity_of
identity_of-eq-some s n none i h = cc
identity_of-eq-some s n (some f) i h = ground arith

module _ (s t : Text) (i : TargetIdentity) where
  read_identity_sound :
      (p : Parsed)
      → from_chars 32 10 t ≡ p
      → starts_zero t ≡ false
      → read_identity s p ≡ some i
      → Reads s t i
  unfolding read_identity
  read_identity_sound (ok n suffix) e front h =
      let (flavor, number, kept) = identity_of-eq-some s n (flavor_of suffix) i h in
      let (text, pos) = decimal-from_chars 32 t n suffix e front in
      record {
        positive = rw (← number) pos;
        fits = rw (← number) (from_chars-ok-lt 32 10 t e);
        text = rw (← number, ← flavor_of_sound suffix i.flavor flavor) text;
        retained = kept;
      }
  read_identity_sound invalid_argument e front h = cc h
  read_identity_sound (result_out_of_range rest) e front h = cc h

  read_number_sound : read_number s t ≡ some i → Reads s t i
  unfolding read_number
  read_number_sound h =
      let skip = is_empty t || starts_zero t in
      let front = if-none-false skip _ h in
      read_identity_sound (from_chars 32 10 t) refl (ground arith) (if-none skip _ h)

with_prefix :
    (p : Prefix) (s t : Text) (i : TargetIdentity)
    → s ≡ prefix_text p ++ t
    → parse_target_identity s ≡ some i
    → Spells s i
unfolding spelling
with_prefix p s t i e h =
    let whole = sym (parse-read_number p t) ∙ subst (λ u. parse_target_identity u ≡ some i) e h in
    let reads = read_number_sound s t i (subst (λ u. read_number u t ≡ some i) (sym e) whole) in
    record {
      prefix = p;
      positive = reads.positive;
      fits = reads.fits;
      text = e ∙ rw reads.text;
      retained = reads.retained;
    }

parse_target_identity_sound :
    (s : Text) (i : TargetIdentity) → parse_target_identity s ≡ some i → Spells s i
unfolding parse_target_identity
parse_target_identity_sound s i h = elim (Bool-cases (starts_with (codes "sm_") s)) [
  | inl e ↦ let (t, text) = starts_with_sound (codes "sm_") s e in with_prefix sm s t i text h
  | inr no_sm ↦ elim (Bool-cases (starts_with (codes "compute_") s)) [
    | inl e ↦
        let (t, text) = starts_with_sound (codes "compute_") s e in with_prefix compute s t i text h
    | inr no_compute ↦ cc (rw (prefix_size, no_sm, no_compute) at h)
  ]
]

parse_target_identity-spelling :
    (p : Prefix) (n : ℕ) (f : TargetFlavor)
    → 0 < n
    → n < 2 ^ 32
    → parse_target_identity (spelling p n f) ≡ some (identity (spelling p n f) n f)
unfolding spelling
parse_target_identity-spelling p n f pos fits =
    parse-read_number p (decimal n ++ flavor_text f)
    ∙ read_number-decimal (prefix_text p ++ (decimal n ++ flavor_text f)) n f pos fits

-- A text is read as an identity exactly when it is one of the two prefixes, a positive number below
-- 2 ^ 32 in decimal without a leading zero, and the flavor's letter; the identity holds that number
-- and flavor and the text itself.
pub parse_target_identity-iff-Spells :
    (s : Text) (i : TargetIdentity) → (parse_target_identity s ≡ some i) ↔ Spells s i
parse_target_identity-iff-Spells s i = (
  parse_target_identity_sound s i,
  λ h.
      let n = i.architecture.number in
      let kept : identity (spelling h.prefix n i.flavor) n i.flavor ≡ i =
        ap (λ u. identity u n i.flavor) (sym h.text ∙ sym h.retained) in
      subst (λ u. parse_target_identity u ≡ some i) (sym h.text)
        (parse_target_identity-spelling h.prefix n i.flavor h.positive h.fits ∙ ap some kept),
)

not_identity :
    (k s : Text)
    → parse_target_identity k ≡ none
    → same_text s k ≡ true
    → is_some (parse_target_identity s) ≡ false
not_identity k s fails h =
    subst (λ u. is_some (parse_target_identity u) ≡ false) (sym (same_text_sound s k h)) (rw fails)

last_test :
    (a b c d e : Bool)
    → (a ≡ true → e ≡ false)
    → (b ≡ true → e ≡ false)
    → (c ≡ true → e ≡ false)
    → (d ≡ true → e ≡ false)
    → ((if a || b
          then texture_mode
          else if c
          then debug
          else if d
          then map_f64_to_f32
          else if e
          then architecture
          else invalid)
        ≡ architecture)
      ↔ (e ≡ true)
last_test a b c d true ha hb hc hd = ground arith
last_test a b c d false ha hb hc hd = ground arith

-- An item is classified as an architecture exactly when it parses as an identity: no keyword does.
pub classify_target_directive_item_iff :
    (s : Text)
    → (classify_target_directive_item s ≡ architecture) ↔ (is_some (parse_target_identity s) ≡ true)
unfolding classify_target_directive_item parse_target_identity
classify_target_directive_item_iff s =
    last_test _ _ _ _ (is_some (parse_target_identity s))
      (not_identity (codes "texmode_unified") s refl)
      (not_identity (codes "texmode_independent") s refl) (not_identity (codes "debug") s refl)
      (not_identity (codes "map_f64_to_f32") s refl)
