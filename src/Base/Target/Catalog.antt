-- ===== src/Base/Target/Catalog.antt =====
-- The catalog: its keys are distinct, so that the first entry that a loop meets is the only one.
use ptx_frontend.Common.{
  ℕ, ◌≡◌, refl, sym, ap, ◌↔◌, true, Option, none, some, [], Text, find_if, find_if_sound,
  find_if-get_elem?, All, All-find_if, arith, get_elem?, All-get_elem?,
}
use ptx_frontend.Base.Target.{
  TargetFlavor, TargetIdentity, TargetProfile, CatalogEntry, target_profiles, parse_target_identity,
  same_flavor, same_target_identity, has_key, profile_of, cataloged, find_target_profile,
}

-- The key of an entry as an identity.
abbrev pub key_of : CatalogEntry → TargetIdentity
key_of e = record { architecture = e.architecture; flavor = e.flavor; source_spelling = [] }

rows_found : All (λ e. find_if (has_key (key_of e)) target_profiles ≡ some e) target_profiles
unfolding target_profiles same_flavor
rows_found = ground arith

same_flavor_iff : (f g : TargetFlavor) → (same_flavor f g ≡ true) ↔ (f ≡ g)
unfolding same_flavor
same_flavor_iff f g = ground arith

-- What two identities share that are the same up to spelling.
pub same_target_identity_iff :
    (i j : TargetIdentity)
    → (same_target_identity i j ≡ true)
      ↔ ((i.architecture ≡ j.architecture) × (i.flavor ≡ j.flavor))
unfolding same_target_identity
same_target_identity_iff i j = ground (arith, same_flavor_iff i.flavor j.flavor)

has_key_iff :
    (i : TargetIdentity) (e : CatalogEntry)
    → (has_key i e ≡ true) ↔ ((e.architecture ≡ i.architecture) × (e.flavor ≡ i.flavor))
has_key_iff i e = ground (arith, same_flavor_iff e.flavor i.flavor)

pub respell :
    (i j : TargetIdentity)
    → i.architecture ≡ j.architecture
    → i.flavor ≡ j.flavor
    → has_key i ≡ has_key j
respell i j a f = rw (a, f)

pub key_found :
    (i : TargetIdentity) (e : CatalogEntry)
    → find_if (has_key i) target_profiles ≡ some e
    → (find_if (has_key (key_of e)) target_profiles ≡ some e)
      × (e.architecture ≡ i.architecture)
      × (e.flavor ≡ i.flavor)
key_found i e h =
    let key = (has_key_iff i e).0 (find_if_sound (has_key i) target_profiles h) in
    (
      All-find_if (λ e. find_if (has_key (key_of e)) target_profiles ≡ some e) (has_key i)
          target_profiles rows_found h,
      key.0,
      key.1,
    )

-- An entry of the catalog is found under its own key: no two entries share one, and each entry is
-- reachable.
pub catalog_unique :
    (k : ℕ) (e : CatalogEntry) (i : TargetIdentity)
    → get_elem? target_profiles k ≡ some e
    → (find_if (has_key i) target_profiles ≡ some e)
      ↔ ((i.architecture ≡ e.architecture) × (i.flavor ≡ e.flavor))
catalog_unique k e i h = (
  λ found. let (row, a, f) = key_found i e found in (sym a, sym f),
  λ same.
      let own =
        All-get_elem? (λ e. find_if (has_key (key_of e)) target_profiles ≡ some e) target_profiles k
          rows_found h in
      rw (respell i (key_of e) same.0 same.1) own,
)

-- The members of a profile that come from its entry.
pub record Describes (e : CatalogEntry) (p : TargetProfile) : Type 0 where
  pub architecture : e.architecture ≡ p.identity.architecture
  pub flavor : e.flavor ≡ p.identity.flavor
  pub families : e.enabled_family_features ≡ p.enabled_family_features
  pub capabilities : e.capabilities ≡ p.capabilities
  pub version : e.minimum_ptx_version ≡ p.minimum_ptx_version
  pub mapping : e.supports_map_f64_to_f32 ≡ p.supports_map_f64_to_f32

profile_of-eq-some :
    (i : TargetIdentity) (o : Option CatalogEntry) (p : TargetProfile)
    → profile_of i o ≡ some p
    → (i ≡ p.identity)
      × (e : CatalogEntry) × (o ≡ some e)
      × (e.enabled_family_features ≡ p.enabled_family_features)
      × (e.capabilities ≡ p.capabilities)
      × (e.minimum_ptx_version ≡ p.minimum_ptx_version)
      × (e.supports_map_f64_to_f32 ≡ p.supports_map_f64_to_f32)
unfolding profile_of
profile_of-eq-some i none p h = cc h
profile_of-eq-some i (some e) p h =
    (ground arith, e, refl, ground arith, ground arith, ground arith, ground arith)

cataloged-eq-some :
    (o : Option TargetIdentity) (p : TargetProfile)
    → cataloged o ≡ some p
    → (o ≡ some p.identity)
      × (profile_of p.identity (find_if (has_key p.identity) target_profiles) ≡ some p)
unfolding cataloged
cataloged-eq-some none p h = cc h
cataloged-eq-some (some i) p h =
    let same = (profile_of-eq-some i (find_if (has_key i) target_profiles) p h).0 in
    (ap some same, rw same at h)

-- A spelling has a profile exactly when it parses to the profile's identity and an entry of the
-- catalog with that number and flavor describes the profile. The prefix of the spelling has no part
-- in it.
pub find_target_profile_iff :
    (s : Text) (p : TargetProfile)
    → (find_target_profile s ≡ some p) ↔ (
        (parse_target_identity s ≡ some p.identity)
        × (k : ℕ) × (e : CatalogEntry) × (get_elem? target_profiles k ≡ some e)
        × Describes e p)
unfolding find_target_profile
find_target_profile_iff s p = (
  λ h.
      let (parsed, profile) = cataloged-eq-some (parse_target_identity s) p h in
      let (same, e, found, f, c, v, m) = profile_of-eq-some p.identity _ p profile in
      let (k, at) = find_if-get_elem? (has_key p.identity) target_profiles found in
      let key =
        (has_key_iff p.identity e).0 (find_if_sound (has_key p.identity) target_profiles found) in
      (
        parsed,
        k,
        e,
        at,
        record {
          architecture = key.0;
          flavor = key.1;
          families = f;
          capabilities = c;
          version = v;
          mapping = m;
        },
      ),
  λ h.
      let d = h.4 in
      let found = (catalog_unique h.1 h.2 p.identity h.3).1 (sym d.architecture, sym d.flavor) in
      rw (h.0, cataloged, found, profile_of) (ground arith),
)
