-- ===== src/Base/Target/Renamed.antt =====
-- The architecture as which the features of a target are validated.
use ptx_frontend.Common.{
  ◌≡◌, inl, inr, ◌==◌, if◌then◌else◌, Bool-cases, Option-cases, none≢some, refl, sym, ap, ◌∙◌, true,
  Option, none, some, List, [], Text, find_if, All, All-find_if, arith,
}
use ptx_frontend.Base.Target.{
  TargetFlavor, generic, architecture_specific, family_specific, TargetArchitecture, TargetIdentity,
  CatalogEntry, target_profiles, same_flavor, same_target_identity, has_key,
  target_feature_architecture,
}
use ptx_frontend.Base.Target.Catalog.{key_of, key_found, respell, same_target_identity_iff}

-- Spellings of one target share the architecture whose features are validated.
pub target_feature_architecture-same :
    (i j : TargetIdentity)
    → same_target_identity i j ≡ true
    → target_feature_architecture i ≡ target_feature_architecture j
unfolding target_feature_architecture
target_feature_architecture-same i j h =
    let same = (same_target_identity_iff i j).0 h in rw (respell i j same.0 same.1, same.0)

abbrev pub features_of : Option CatalogEntry → Option (List Text × List Text)
features_of none = none
features_of (some e) = some (e.enabled_family_features, e.capabilities)

-- The identity that stands for `i` in the checks of features.
abbrev pub feature_identity : TargetIdentity → TargetIdentity
feature_identity i = record i { architecture = target_feature_architecture i }

-- The only renamed targets are those of number 101.
abbrev pub validated_as : TargetArchitecture → TargetArchitecture
validated_as a = if a.number == 101 then record { number = 110 } else a

renamed_rows :
    All
      (λ e.
        let r = feature_identity (key_of e) in
        (target_feature_architecture (key_of e) ≡ validated_as e.architecture)
        × (target_feature_architecture r ≡ target_feature_architecture (key_of e))
        × (features_of (find_if (has_key r) target_profiles) ≡ features_of (some e)))
      target_profiles
unfolding target_profiles target_feature_architecture same_flavor
renamed_rows = ground arith

-- The targets of number 101 are in the catalog with each flavor.
row_101 :
    (i : TargetIdentity)
    → i.architecture ≡ record { number = 101 }
    → (e : CatalogEntry) × (find_if (has_key i) target_profiles ≡ some e)
unfolding target_profiles same_flavor
row_101 i same =
    let (e, found) = row i.flavor in
    (
      e,
      ap (λ q. find_if q target_profiles)
            (respell i
              (record {
                architecture = record { number = 101 };
                flavor = i.flavor;
                source_spelling = [];
              })
              same refl)
          ∙ found,
    )
  where
    row :
        (f : TargetFlavor)
        → (e : CatalogEntry) × (find_if
              (has_key (record {
                architecture = record { number = 101 };
                flavor = f;
                source_spelling = [];
              }))
              target_profiles
            ≡ some e)
    row generic = (_, refl)
    row architecture_specific = (_, refl)
    row family_specific = (_, refl)

unlisted-target_feature_architecture :
    (i : TargetIdentity)
    → find_if (has_key i) target_profiles ≡ none
    → (target_feature_architecture i ≡ i.architecture)
      × (i.architecture ≡ validated_as i.architecture)
unfolding target_feature_architecture
unlisted-target_feature_architecture i h = (
  rw h refl,
  elim (Bool-cases (i.architecture.number == 101)) [
    | inl e ↦
        let number : i.architecture.number ≡ 101 = ground arith in
        let same : i.architecture ≡ record { number = 101 } = cc number in
        let (row, found) = row_101 i same in absurd (none≢some (sym h ∙ found))
    | inr e ↦ rw e refl
  ],
)

-- The architecture whose features are validated is that of number 110 for every target of number 101, and
-- the target's own for all others. It is not renamed again, and the catalog has the same family features
-- and capabilities for it as for the target, or neither.
pub target_feature_architecture-cataloged :
    (i : TargetIdentity)
    → (target_feature_architecture i ≡ validated_as i.architecture)
      × (target_feature_architecture (feature_identity i) ≡ target_feature_architecture i)
      × (features_of (find_if (has_key (feature_identity i)) target_profiles)
          ≡ features_of (find_if (has_key i) target_profiles))
target_feature_architecture-cataloged i =
    elim (Option-cases (find_if (has_key i) target_profiles)) [
      | inl h ↦
          let (own, value) = unlisted-target_feature_architecture i h in
          let again : has_key (feature_identity i) ≡ has_key i =
            respell (feature_identity i) i own refl in
          let same =
            target_feature_architecture-same (feature_identity i) i
              ((same_target_identity_iff (feature_identity i) i).1 (own, refl)) in
          (own ∙ value, same, ap (λ q. features_of (find_if q target_profiles)) again)
      | inr (e, h) ↦
          let (row, a, f) = key_found i e h in
          let same =
            target_feature_architecture-same i (key_of e)
              ((same_target_identity_iff i (key_of e)).1 (sym a, sym f)) in
          let stable = All-find_if _ (has_key i) target_profiles renamed_rows h in
          let key = respell (feature_identity i) (feature_identity (key_of e)) same (sym f) in
          let again =
            target_feature_architecture-same (feature_identity i) (feature_identity (key_of e)) (
              (same_target_identity_iff (feature_identity i) (feature_identity (key_of e))).1
                (same, sym f)) in
          (
            same ∙ stable.0 ∙ ap validated_as a,
            again ∙ stable.1 ∙ sym same,
            ap (λ q. features_of (find_if q target_profiles)) key
                ∙ stable.2
                ∙ ap features_of (sym h),
          )
    ]
