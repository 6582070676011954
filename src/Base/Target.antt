-- ===== src/Base/Target.antt =====
-- submod/base/include/ptx_target.hpp and submod/base/src/ptx_target.cpp: target spellings and the
-- catalog of the targets that are validated.
pub mod Spelling
pub mod Catalog
pub mod Renamed
use ptx_frontend.Common.{
  ℕ, ◌≡◌, Bool, true, false, ◌&&◌, ◌||◌, Option, none, some, List, [], ◌∷◌, ◌++◌, Text, codes,
  starts_with, same_text, is_empty, drop, any, find_if, is_some, ◌==◌, if◌then◌else◌,
}
use ptx_frontend.Common.FromChars.{Parsed, ok, invalid_argument, result_out_of_range, from_chars}
use ptx_frontend.Common.Decimal.{starts_zero}

pub record TargetArchitecture : Type 0 where
  pub number : ℕ

pub data TargetFlavor : Type 0 where
  generic architecture_specific family_specific : TargetFlavor

pub record TargetIdentity : Type 0 where
  pub architecture : TargetArchitecture
  pub flavor : TargetFlavor
  pub source_spelling : Text

pub record PtxIsaVersion : Type 0 where
  pub major : ℕ
  pub minor : ℕ

pub record TargetProfile : Type 0 where
  pub identity : TargetIdentity
  pub enabled_family_features : List Text
  pub capabilities : List Text
  pub minimum_ptx_version : PtxIsaVersion
  pub supports_map_f64_to_f32 : Bool

pub data TargetDirectiveItemKind : Type 0 where
  invalid architecture texture_mode debug map_f64_to_f32 : TargetDirectiveItemKind

pub record CatalogEntry : Type 0 where
  pub architecture : TargetArchitecture
  pub flavor : TargetFlavor
  pub enabled_family_features : List Text
  pub capabilities : List Text
  pub minimum_ptx_version : PtxIsaVersion
  pub supports_map_f64_to_f32 : Bool
  pub feature_architecture : Option TargetArchitecture

abbrev no_capabilities : List Text
no_capabilities = []

abbrev no_enabled_family_features : List Text
no_enabled_family_features = []

abbrev sm_100f_enabled_family_features : List Text
sm_100f_enabled_family_features = codes "sm_100f" ∷ []

abbrev sm_103f_enabled_family_features : List Text
sm_103f_enabled_family_features = codes "sm_100f" ∷ codes "sm_103f" ∷ []

abbrev sm_120f_enabled_family_features : List Text
sm_120f_enabled_family_features = codes "sm_120f" ∷ []

abbrev sm_121f_enabled_family_features : List Text
sm_121f_enabled_family_features = codes "sm_120f" ∷ codes "sm_121f" ∷ []

abbrev sm_110f_enabled_family_features : List Text
sm_110f_enabled_family_features = codes "sm_110f" ∷ []

abbrev graph_exec_capabilities : List Text
graph_exec_capabilities = codes "graph_exec" ∷ []

abbrev sm_80_capabilities : List Text
sm_80_capabilities = codes "reserved_smem" ∷ codes "graph_exec" ∷ []

abbrev sm_90_and_later_capabilities : List Text
sm_90_and_later_capabilities =
    codes "cluster" ∷ codes "aggregate_smem" ∷ codes "reserved_smem" ∷ codes "graph_exec" ∷ []

abbrev pub arch : ℕ → TargetArchitecture
arch n = record { number = n }

-- An entry with every member written, and one with the two defaults of the struct.
abbrev entry_with :
    ℕ
    → TargetFlavor
    → List Text
    → List Text
    → ℕ
    → ℕ
    → Bool
    → Option TargetArchitecture
    → CatalogEntry
entry_with n f features caps major minor mapping renamed = record {
  architecture = arch n;
  flavor = f;
  enabled_family_features = features;
  capabilities = caps;
  minimum_ptx_version = record { major = major; minor = minor };
  supports_map_f64_to_f32 = mapping;
  feature_architecture = renamed;
}

abbrev entry : ℕ → TargetFlavor → List Text → List Text → ℕ → ℕ → CatalogEntry
entry n f features caps major minor = entry_with n f features caps major minor false none

-- The entries of `kTargetProfiles` below `sm_90`.
abbrev profiles_below_90 : List CatalogEntry
profiles_below_90 =
    entry_with 10 generic no_enabled_family_features no_capabilities 1 0 true none
    ∷ entry_with 11 generic no_enabled_family_features no_capabilities 1 0 true none
    ∷ entry_with 12 generic no_enabled_family_features no_capabilities 1 2 true none
    ∷ entry 13 generic no_enabled_family_features no_capabilities 1 2
    ∷ entry 20 generic no_enabled_family_features no_capabilities 2 0
    ∷ entry 30 generic no_enabled_family_features no_capabilities 3 0
    ∷ entry 32 generic no_enabled_family_features no_capabilities 4 0
    ∷ entry 35 generic no_enabled_family_features no_capabilities 3 1
    ∷ entry 37 generic no_enabled_family_features no_capabilities 4 1
    ∷ entry 50 generic no_enabled_family_features graph_exec_capabilities 4 0
    ∷ entry 52 generic no_enabled_family_features graph_exec_capabilities 4 1
    ∷ entry 53 generic no_enabled_family_features graph_exec_capabilities 4 2
    ∷ entry 60 generic no_enabled_family_features graph_exec_capabilities 5 0
    ∷ entry 61 generic no_enabled_family_features graph_exec_capabilities 5 0
    ∷ entry 62 generic no_enabled_family_features graph_exec_capabilities 5 0
    ∷ entry 70 generic no_enabled_family_features graph_exec_capabilities 6 0
    ∷ entry 72 generic no_enabled_family_features graph_exec_capabilities 6 1
    ∷ entry 75 generic no_enabled_family_features graph_exec_capabilities 6 3
    ∷ entry 80 generic no_enabled_family_features sm_80_capabilities 7 0
    ∷ entry 86 generic no_enabled_family_features sm_80_capabilities 7 1
    ∷ entry 87 generic no_enabled_family_features sm_80_capabilities 7 4
    ∷ entry 88 generic no_enabled_family_features sm_80_capabilities 9 0
    ∷ entry 89 generic no_enabled_family_features sm_80_capabilities 7 8
    ∷ []

-- The entries from `sm_90` on.
abbrev profiles_from_90 : List CatalogEntry
profiles_from_90 =
    entry 90 generic no_enabled_family_features sm_90_and_later_capabilities 7 8
    ∷ entry 90 architecture_specific no_enabled_family_features sm_90_and_later_capabilities 8 0
    ∷ entry 100 generic no_enabled_family_features sm_90_and_later_capabilities 8 6
    ∷ entry 100 architecture_specific sm_100f_enabled_family_features sm_90_and_later_capabilities 8
        6
    ∷ entry 100 family_specific sm_100f_enabled_family_features sm_90_and_later_capabilities 8 8
    ∷ entry 103 generic no_enabled_family_features sm_90_and_later_capabilities 8 8
    ∷ entry 103 architecture_specific sm_103f_enabled_family_features sm_90_and_later_capabilities 8
        8
    ∷ entry 103 family_specific sm_103f_enabled_family_features sm_90_and_later_capabilities 8 8
    ∷ entry_with 101 generic no_enabled_family_features sm_90_and_later_capabilities 8 6 false
        (some (arch 110))
    ∷ entry_with 101 architecture_specific sm_110f_enabled_family_features
        sm_90_and_later_capabilities 8 6 false (some (arch 110))
    ∷ entry_with 101 family_specific sm_110f_enabled_family_features sm_90_and_later_capabilities 8
        8 false (some (arch 110))
    ∷ entry 110 generic no_enabled_family_features sm_90_and_later_capabilities 9 0
    ∷ entry 110 architecture_specific sm_110f_enabled_family_features sm_90_and_later_capabilities 9
        0
    ∷ entry 110 family_specific sm_110f_enabled_family_features sm_90_and_later_capabilities 9 0
    ∷ entry 120 generic no_enabled_family_features sm_90_and_later_capabilities 8 7
    ∷ entry 120 architecture_specific sm_120f_enabled_family_features sm_90_and_later_capabilities 8
        7
    ∷ entry 120 family_specific sm_120f_enabled_family_features sm_90_and_later_capabilities 8 8
    ∷ entry 121 generic no_enabled_family_features sm_90_and_later_capabilities 8 8
    ∷ entry 121 architecture_specific sm_121f_enabled_family_features sm_90_and_later_capabilities 8
        8
    ∷ entry 121 family_specific sm_121f_enabled_family_features sm_90_and_later_capabilities 8 8
    ∷ []

-- `kTargetProfiles`
unfoldable pub target_profiles : List CatalogEntry
target_profiles = profiles_below_90 ++ profiles_from_90

-- `sm_` or `compute_`, with the size of the prefix; 0 for any other text
prefix_size : Text → ℕ
prefix_size spelling =
    if starts_with (codes "sm_") spelling
    then 3
    else if starts_with (codes "compute_") spelling
    then 8
    else 0

unfoldable pub flavor_of : Text → Option TargetFlavor
flavor_of suffix =
    if same_text suffix (codes "a")
    then some architecture_specific
    else if same_text suffix (codes "f")
    then some family_specific
    else if is_empty suffix
    then some generic
    else none

identity_of : Text → ℕ → Option TargetFlavor → Option TargetIdentity
identity_of spelling n none = none
identity_of spelling n (some f) =
    some (record { architecture = arch n; flavor = f; source_spelling = spelling })

-- After a result of `from_chars`, `end == number_text.data()` says no more than its error.
read_identity : Text → Parsed → Option TargetIdentity
read_identity spelling (ok n suffix) = identity_of spelling n (flavor_of suffix)
read_identity spelling invalid_argument = none
read_identity spelling (result_out_of_range rest) = none

unfoldable pub parse_target_identity : Text → Option TargetIdentity
unfolding prefix_size flavor_of identity_of read_identity
parse_target_identity spelling =
    let size = prefix_size spelling in
    let number_text = drop size spelling in
    if size == 0
    then none
    else if is_empty number_text || starts_zero number_text
    then none
    else read_identity spelling (from_chars 32 10 number_text)

unfoldable pub same_flavor : TargetFlavor → TargetFlavor → Bool
same_flavor generic generic = true
same_flavor architecture_specific architecture_specific = true
same_flavor family_specific family_specific = true
same_flavor _ _ = false

unfoldable pub same_target_identity : TargetIdentity → TargetIdentity → Bool
same_target_identity left right =
    (left.architecture.number == right.architecture.number) && same_flavor left.flavor right.flavor

-- The test of both loops over the catalog.
abbrev pub has_key : TargetIdentity → CatalogEntry → Bool
has_key i e = (e.architecture.number == i.architecture.number) && same_flavor e.flavor i.flavor

abbrev value_or : Option TargetArchitecture → TargetArchitecture → TargetArchitecture
value_or none a = a
value_or (some b) a = b

renamed : TargetArchitecture → Option CatalogEntry → TargetArchitecture
renamed a none = a
renamed a (some e) = value_or e.feature_architecture a

unfoldable pub target_feature_architecture : TargetIdentity → TargetArchitecture
unfolding renamed
target_feature_architecture i = renamed i.architecture (find_if (has_key i) target_profiles)

profile_of : TargetIdentity → Option CatalogEntry → Option TargetProfile
profile_of i none = none
profile_of i (some e) = some (record {
  identity = i;
  enabled_family_features = e.enabled_family_features;
  capabilities = e.capabilities;
  minimum_ptx_version = e.minimum_ptx_version;
  supports_map_f64_to_f32 = e.supports_map_f64_to_f32;
})

cataloged : Option TargetIdentity → Option TargetProfile
cataloged none = none
cataloged (some i) = profile_of i (find_if (has_key i) target_profiles)

unfoldable pub find_target_profile : Text → Option TargetProfile
unfolding profile_of cataloged
find_target_profile spelling = cataloged (parse_target_identity spelling)

unfoldable pub classify_target_directive_item : Text → TargetDirectiveItemKind
classify_target_directive_item spelling =
    if same_text spelling (codes "texmode_unified")
      || same_text spelling (codes "texmode_independent")
    then texture_mode
    else if same_text spelling (codes "debug")
    then debug
    else if same_text spelling (codes "map_f64_to_f32")
    then map_f64_to_f32
    else if is_some (parse_target_identity spelling)
    then architecture
    else invalid

unfoldable pub target_has_capability : TargetProfile → Text → Bool
target_has_capability profile capability = any (λ c. same_text c capability) profile.capabilities
