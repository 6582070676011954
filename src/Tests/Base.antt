-- ===== src/Tests/Base.antt =====
-- Runs of submod/base, and instances of its theorems.
use ptx_frontend.Common.{
  ℕ, ◌^◌, ◌<◌, ◌≡◌, ap, ◌≤◌, ◌↔◌, ◌⊎◌, refl, Bool, true, false, inl, inr, Option, none, some, List,
  [], ◌∷◌, ◌++◌, Text, codes, arith, ltb, if◌then◌else◌, is_some, get_elem?, find_if,
}
use ptx_frontend.Common.Decimal.{decimal}
use ptx_frontend.Base.Integer.{parse_integer_magnitude}
use ptx_frontend.Base.Integer.Spelling.{
  parse_integer_magnitude-spelling, hexadecimal, lower, spelling, suffix_text,
}
use ptx_frontend.Base.Identifier.{is_identifier, Identifier, is_identifier-iff-Identifier}
use ptx_frontend.Base.Scalar.{
  ScalarType, u32, s32, b32, ScalarTypeMetadata, find_by_type, find_by_spelling,
  scalar_types_compatible, same_width,
}
use ptx_frontend.Base.Scalar.Table.{find_by_spelling-iff-find_by_type}
use ptx_frontend.Base.Scalar.Compatible.{scalar_types_compatible_iff}
use ptx_frontend.Base.Target.{
  TargetIdentity, TargetProfile, CatalogEntry, generic, architecture_specific, family_specific,
  parse_target_identity, find_target_profile, arch, target_profiles, has_key,
  classify_target_directive_item, architecture, target_has_capability, target_feature_architecture,
  same_target_identity,
}
use ptx_frontend.Base.Target.Spelling.{
  parse_target_identity-iff-Spells, Spells, classify_target_directive_item_iff,
}
use ptx_frontend.Base.Target.Catalog.{find_target_profile_iff, catalog_unique}
use ptx_frontend.Base.Target.Renamed.{
  feature_identity, features_of, target_feature_architecture-cataloged,
}
use ptx_frontend.Base.SpecialRegister.{
  lookup, parse_indexed, Info, metadata, environment_info, scalar, tid,
}
use ptx_frontend.Base.SpecialRegister.Indexed.{parse_indexed_iff}
use ptx_frontend.Base.SpecialRegister.Lookup.{lookup-metadata, Agrees}

abbrev octal_text : Text
octal_text = codes "052U"

octal_value : parse_integer_magnitude octal_text ≡ some 42
unfolding parse_integer_magnitude ptx_frontend.Common.FromChars.from_chars
    ptx_frontend.Common.Digits.number_from
octal_value = refl

too_large : parse_integer_magnitude (codes "18446744073709551616") ≡ none
unfolding parse_integer_magnitude ptx_frontend.Common.FromChars.from_chars
    ptx_frontend.Common.Digits.number_from
too_large = refl

bare_prefix : parse_integer_magnitude (codes "0x") ≡ none
unfolding parse_integer_magnitude ptx_frontend.Common.FromChars.from_chars
bare_prefix = refl

parse_integer_magnitude-spelling_example :
    parse_integer_magnitude (spelling hexadecimal 255 ++ suffix_text lower) ≡ some 255
parse_integer_magnitude-spelling_example = parse_integer_magnitude-spelling hexadecimal lower 255

percent_name : is_identifier (codes "%r1") ≡ true
unfolding is_identifier ptx_frontend.Base.Identifier.letter ptx_frontend.Base.Identifier.follows
percent_name = refl

is_identifier-iff-Identifier_example : Identifier (codes "%r1")
is_identifier-iff-Identifier_example = (is_identifier-iff-Identifier (codes "%r1")).0 percent_name

u32_row :
    (m : ScalarTypeMetadata) × (find_by_type m.type ≡ some m) × (m.source_spelling ≡ codes ".u32")
unfolding find_by_type ptx_frontend.Base.Scalar.same_type
    ptx_frontend.Base.Scalar.scalar_type_metadata
u32_row = (_, refl {a = find_by_type u32}, refl)

find_by_spelling-iff-find_by_type_example : find_by_spelling (codes ".u32") ≡ some u32_row.0
find_by_spelling-iff-find_by_type_example =
    (find_by_spelling-iff-find_by_type (codes ".u32") u32_row.0).1 (u32_row.1, u32_row.2)

scalar_types_compatible_iff_example : scalar_types_compatible s32 u32 same_width ≡ true
unfolding ptx_frontend.Base.Scalar.scalar_size_of find_by_type ptx_frontend.Base.Scalar.same_type
    ptx_frontend.Base.Scalar.scalar_type_metadata ptx_frontend.Base.Scalar.is_fundamental_integer
scalar_types_compatible_iff_example =
    (scalar_types_compatible_iff s32 u32 same_width).1 (inr (refl, inr (inr (refl, refl))))

abbrev sm_13 : TargetIdentity
sm_13 = record { architecture = arch 13; flavor = generic; source_spelling = codes "sm_13" }

sm_13_parsed : parse_target_identity (codes "sm_13") ≡ some sm_13
unfolding parse_target_identity ptx_frontend.Common.FromChars.from_chars
    ptx_frontend.Common.Digits.number_from
sm_13_parsed = refl

no_leading_zero : parse_target_identity (codes "sm_09") ≡ none
unfolding parse_target_identity ptx_frontend.Common.FromChars.from_chars
    ptx_frontend.Common.Digits.number_from
no_leading_zero = refl

parse_target_identity-iff-Spells_example : Spells (codes "sm_13") sm_13
parse_target_identity-iff-Spells_example =
    (parse_target_identity-iff-Spells (codes "sm_13") sm_13).0 sm_13_parsed

classify_target_directive_item_iff_example :
    classify_target_directive_item (codes "sm_13") ≡ architecture
classify_target_directive_item_iff_example =
    (classify_target_directive_item_iff (codes "sm_13")).1 (ap is_some sm_13_parsed)

abbrev sm_13_entry : CatalogEntry
sm_13_entry = record {
  architecture = arch 13;
  flavor = generic;
  enabled_family_features = [];
  capabilities = [];
  minimum_ptx_version = record { major = 1; minor = 2 };
  supports_map_f64_to_f32 = false;
  feature_architecture = none;
}

abbrev sm_13_profile : TargetProfile
sm_13_profile = record {
  identity = sm_13;
  enabled_family_features = [];
  capabilities = [];
  minimum_ptx_version = record { major = 1; minor = 2 };
  supports_map_f64_to_f32 = false;
}

sm_13_row : get_elem? target_profiles 3 ≡ some sm_13_entry
unfolding target_profiles
sm_13_row = refl

sm_13_found : find_if (has_key sm_13) target_profiles ≡ some sm_13_entry
unfolding target_profiles ptx_frontend.Base.Target.same_flavor
sm_13_found = refl

catalog_unique_example : find_if (has_key sm_13) target_profiles ≡ some sm_13_entry
catalog_unique_example = (catalog_unique 3 sm_13_entry sm_13 sm_13_row).1 (refl, refl)

find_target_profile_iff_example : find_target_profile (codes "sm_13") ≡ some sm_13_profile
find_target_profile_iff_example = (find_target_profile_iff (codes "sm_13") sm_13_profile).1 (
  sm_13_parsed,
  3,
  sm_13_entry,
  sm_13_row,
  record {
    architecture = refl;
    flavor = refl;
    families = refl;
    capabilities = refl;
    version = refl;
    mapping = refl;
  },
)

abbrev sm_101f : TargetIdentity
sm_101f = record {
  architecture = record { number = 101 };
  flavor = family_specific;
  source_spelling = codes "sm_101f";
}

target_feature_architecture-cataloged_example :
    (target_feature_architecture sm_101f ≡ record { number = 110 })
    × (target_feature_architecture (feature_identity sm_101f) ≡ target_feature_architecture sm_101f)
    × (features_of (find_if (has_key (feature_identity sm_101f)) target_profiles)
        ≡ features_of (find_if (has_key sm_101f) target_profiles))
target_feature_architecture-cataloged_example = target_feature_architecture-cataloged sm_101f

envreg_found : lookup (codes "%envreg7") ≡ some (environment_info 7)
unfolding lookup ptx_frontend.Base.SpecialRegister.exact_entries
    ptx_frontend.Base.SpecialRegister.lookup_vector ptx_frontend.Base.SpecialRegister.vector_entries
    parse_indexed ptx_frontend.Common.FromChars.from_chars ptx_frontend.Common.Digits.number_from
envreg_found = refl

abbrev tid_info : Info
tid_info = scalar tid u32 2 0 0 0 []

tid_x : lookup (codes "%tid.x") ≡ some tid_info
unfolding lookup ptx_frontend.Base.SpecialRegister.exact_entries
    ptx_frontend.Base.SpecialRegister.lookup_exact ptx_frontend.Base.SpecialRegister.vector_entries
    ptx_frontend.Base.SpecialRegister.lookup_vector
tid_x = refl

lookup-metadata_example : Agrees (codes "%tid.x") tid_info
lookup-metadata_example = lookup-metadata (codes "%tid.x") tid_info tid_x

parse_indexed_iff_example :
    (parse_indexed (codes "%pm3_64") (codes "%pm") 8 (codes "_64") ≡ some 3)
    ↔ ((3 < 8) × (codes "%pm3_64" ≡ codes "%pm" ++ (decimal 3 ++ codes "_64")))
parse_indexed_iff_example =
    parse_indexed_iff (codes "%pm3_64") (codes "%pm") (codes "_64") 8 3 (omega arith)
