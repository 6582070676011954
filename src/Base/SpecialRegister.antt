-- ===== src/Base/SpecialRegister.antt =====
-- submod/base/include/ptx_special_register.hpp and submod/base/src/ptx_special_register.cpp: the
-- predefined registers by spelling and by identity.
pub mod Indexed
pub mod Lookup
use ptx_frontend.Common.{
  ℕ, zero, suc, ◌+◌, ◌-◌, Bool, true, false, not, ◌&&◌, ◌||◌, Option, none, some, List, [], ◌∷◌,
  Text, String, codes, starts_with, same_text, length, drop, take, find_if, ltb, leb, ◌==◌,
  if◌then◌else◌,
}
use ptx_frontend.Common.FromChars.{whole, from_chars}
use ptx_frontend.Common.Decimal.{leading_zero}
use ptx_frontend.Base.Scalar.{ScalarType, u32, u64, b32, pred}
use ptx_frontend.Base.Scalar

pub data SpecialRegisterKind : Type 0 where
  invalid lane_id warp_id n_warp_id sm_id : SpecialRegisterKind
  n_sm_id grid_id is_explicit_cluster cluster_cta_rank cluster_n_cta_rank : SpecialRegisterKind
  lane_mask_eq lane_mask_le lane_mask_lt lane_mask_ge lane_mask_gt : SpecialRegisterKind
  clock clock_hi clock64 global_timer global_timer_lo : SpecialRegisterKind
  global_timer_hi reserved_smem_offset_begin reserved_smem_offset_end reserved_smem_offset_cap
        total_smem_size :
      SpecialRegisterKind
  aggr_smem_size dynamic_smem_size current_graph_exec tid n_tid : SpecialRegisterKind
  cta_id n_cta_id cluster_id n_cluster_id cluster_cta_id : SpecialRegisterKind
  cluster_n_cta_id performance_monitor performance_monitor64 environment reserved_smem_offset :
      SpecialRegisterKind

-- The enumerator's number.
abbrev pub kind_index : SpecialRegisterKind → ℕ
kind_index invalid = 0
kind_index lane_id = 1
kind_index warp_id = 2
kind_index n_warp_id = 3
kind_index sm_id = 4
kind_index n_sm_id = 5
kind_index grid_id = 6
kind_index is_explicit_cluster = 7
kind_index cluster_cta_rank = 8
kind_index cluster_n_cta_rank = 9
kind_index lane_mask_eq = 10
kind_index lane_mask_le = 11
kind_index lane_mask_lt = 12
kind_index lane_mask_ge = 13
kind_index lane_mask_gt = 14
kind_index clock = 15
kind_index clock_hi = 16
kind_index clock64 = 17
kind_index global_timer = 18
kind_index global_timer_lo = 19
kind_index global_timer_hi = 20
kind_index reserved_smem_offset_begin = 21
kind_index reserved_smem_offset_end = 22
kind_index reserved_smem_offset_cap = 23
kind_index total_smem_size = 24
kind_index aggr_smem_size = 25
kind_index dynamic_smem_size = 26
kind_index current_graph_exec = 27
kind_index tid = 28
kind_index n_tid = 29
kind_index cta_id = 30
kind_index n_cta_id = 31
kind_index cluster_id = 32
kind_index n_cluster_id = 33
kind_index cluster_cta_id = 34
kind_index cluster_n_cta_id = 35
kind_index performance_monitor = 36
kind_index performance_monitor64 = 37
kind_index environment = 38
kind_index reserved_smem_offset = 39

pub record SpecialRegisterId : Type 0 where
  pub kind : SpecialRegisterKind
  pub index : ℕ

pub record Info : Type 0 where
  pub id : SpecialRegisterId
  pub element_type : ScalarType
  pub vector_width : ℕ
  pub minimum_ptx_major : ℕ
  pub minimum_ptx_minor : ℕ
  pub minimum_sm : ℕ
  pub required_capability : Text

pub record Entry : Type 0 where
  pub spelling : Text
  pub info : Info

abbrev pub scalar : SpecialRegisterKind → ScalarType → ℕ → ℕ → ℕ → ℕ → Text → Info
scalar k t major minor sm i capability = record {
  id = record { kind = k; index = i };
  element_type = t;
  vector_width = 1;
  minimum_ptx_major = major;
  minimum_ptx_minor = minor;
  minimum_sm = sm;
  required_capability = capability;
}

abbrev entry : String → Info → Entry
entry s i = record { spelling = codes s; info = i }

unfoldable pub exact_entries : List Entry
exact_entries =
    entry "%laneid" (scalar lane_id u32 1 3 0 0 [])
    ∷ entry "%warpid" (scalar warp_id u32 1 3 0 0 [])
    ∷ entry "%nwarpid" (scalar n_warp_id u32 2 0 20 0 [])
    ∷ entry "%smid" (scalar sm_id u32 1 3 0 0 [])
    ∷ entry "%nsmid" (scalar n_sm_id u32 2 0 20 0 [])
    ∷ entry "%gridid" (scalar grid_id u64 3 0 0 0 [])
    ∷ entry "%is_explicit_cluster" (scalar is_explicit_cluster pred 7 8 90 0 (codes "cluster"))
    ∷ entry "%cluster_ctarank" (scalar cluster_cta_rank u32 7 8 90 0 (codes "cluster"))
    ∷ entry "%cluster_nctarank" (scalar cluster_n_cta_rank u32 7 8 90 0 (codes "cluster"))
    ∷ entry "%lanemask_eq" (scalar lane_mask_eq u32 2 0 20 0 [])
    ∷ entry "%lanemask_le" (scalar lane_mask_le u32 2 0 20 0 [])
    ∷ entry "%lanemask_lt" (scalar lane_mask_lt u32 2 0 20 0 [])
    ∷ entry "%lanemask_ge" (scalar lane_mask_ge u32 2 0 20 0 [])
    ∷ entry "%lanemask_gt" (scalar lane_mask_gt u32 2 0 20 0 [])
    ∷ entry "%clock" (scalar clock u32 1 0 0 0 [])
    ∷ entry "%clock_hi" (scalar clock_hi u32 5 0 20 0 [])
    ∷ entry "%clock64" (scalar clock64 u64 2 0 20 0 [])
    ∷ entry "%globaltimer" (scalar global_timer u64 3 1 30 0 [])
    ∷ entry "%globaltimer_lo" (scalar global_timer_lo u32 3 1 30 0 [])
    ∷ entry "%globaltimer_hi" (scalar global_timer_hi u32 3 1 30 0 [])
    ∷ entry "%reserved_smem_offset_begin"
        (scalar reserved_smem_offset_begin b32 7 6 80 0 (codes "reserved_smem"))
    ∷ entry "%reserved_smem_offset_end"
        (scalar reserved_smem_offset_end b32 7 6 80 0 (codes "reserved_smem"))
    ∷ entry "%reserved_smem_offset_cap"
        (scalar reserved_smem_offset_cap b32 7 6 80 0 (codes "reserved_smem"))
    ∷ entry "%total_smem_size" (scalar total_smem_size u32 4 1 20 0 [])
    ∷ entry "%aggr_smem_size" (scalar aggr_smem_size u32 8 1 90 0 (codes "aggregate_smem"))
    ∷ entry "%dynamic_smem_size" (scalar dynamic_smem_size u32 4 1 20 0 [])
    ∷ entry "%current_graph_exec" (scalar current_graph_exec u64 8 0 50 0 (codes "graph_exec"))
    ∷ []

unfoldable pub vector_entries : List Entry
vector_entries =
    entry "%tid" (scalar tid u32 2 0 0 0 [])
    ∷ entry "%ntid" (scalar n_tid u32 2 0 0 0 [])
    ∷ entry "%ctaid" (scalar cta_id u32 2 0 0 0 [])
    ∷ entry "%nctaid" (scalar n_cta_id u32 2 0 0 0 [])
    ∷ entry "%clusterid" (scalar cluster_id u32 7 8 90 0 (codes "cluster"))
    ∷ entry "%nclusterid" (scalar n_cluster_id u32 7 8 90 0 (codes "cluster"))
    ∷ entry "%cluster_ctaid" (scalar cluster_cta_id u32 7 8 90 0 (codes "cluster"))
    ∷ entry "%cluster_nctaid" (scalar cluster_n_cta_id u32 7 8 90 0 (codes "cluster"))
    ∷ []

-- `spelling.ends_with(suffix)`, suffix first
abbrev pub ends_with : Text → Text → Bool
ends_with suffix s =
    leb (length suffix) (length s) && same_text (drop (length s - length suffix) s) suffix

below : ℕ → Option ℕ → Option ℕ
below count none = none
below count (some i) = if leb count i then none else some i

unfoldable pub parse_indexed : Text → Text → ℕ → Text → Option ℕ
unfolding below
parse_indexed spelling prefix count suffix =
    let fixed = length prefix + length suffix in
    let index_text = take (length spelling - fixed) (drop (length prefix) spelling) in
    if not (starts_with prefix spelling)
      || (not (ends_with suffix spelling) || leb (length spelling) fixed)
    then none
    else if leading_zero index_text
    then none
    else below count (whole (from_chars 32 10 index_text))

-- What stands behind the base of a vector component.
is_component : Text → Bool
is_component (dot ∷ c ∷ []) = (dot == b'.') && ((c == b'x') || ((c == b'y') || (c == b'z')))
is_component _ = false

-- The loop over `vector_entries`.
unfoldable pub lookup_vector : List Entry → Text → Option Info
unfolding is_component
lookup_vector [] s = none
lookup_vector (e ∷ es) s =
    if same_text s e.spelling
    then some (record e.info { vector_width = 4 })
    else if starts_with e.spelling s && is_component (drop (length e.spelling) s)
    then some e.info
    else lookup_vector es s

abbrev pub performance_monitor_64_info : ℕ → Info
performance_monitor_64_info i = scalar performance_monitor64 u64 4 0 50 i []

abbrev pub performance_monitor_info : ℕ → Info
performance_monitor_info i =
    if ltb i 4
    then scalar performance_monitor u32 1 3 0 i []
    else scalar performance_monitor u32 3 0 20 i []

abbrev pub environment_info : ℕ → Info
environment_info i = scalar environment b32 2 1 0 i []

abbrev pub reserved_smem_offset_info : ℕ → Info
reserved_smem_offset_info i = scalar reserved_smem_offset b32 7 6 80 i (codes "reserved_smem")

abbrev pub first_some : Option Info → Option Info → Option Info
first_some (some i) o = some i
first_some none o = o

abbrev pub info_at : (ℕ → Info) → Option ℕ → Option Info
info_at f none = none
info_at f (some i) = some (f i)

abbrev pub info_of : Option Entry → Option Info
info_of none = none
info_of (some e) = some e.info

unfoldable pub lookup_exact : Text → Option Info
lookup_exact s = info_of (find_if (λ e. same_text e.spelling s) exact_entries)

-- The indexed families, in the order in which they are tried.
unfoldable pub lookup_indexed : Text → Option Info
lookup_indexed s =
    first_some (info_at performance_monitor_64_info (parse_indexed s (codes "%pm") 8 (codes "_64")))
      (first_some (info_at performance_monitor_info (parse_indexed s (codes "%pm") 8 [])) (
        first_some (info_at environment_info (parse_indexed s (codes "%envreg") 32 [])) (
          info_at reserved_smem_offset_info
            (parse_indexed s (codes "%reserved_smem_offset_") 2 []))))

unfoldable pub lookup : Text → Option Info
unfolding lookup_exact lookup_indexed
lookup s =
    first_some (lookup_exact s) (first_some (lookup_vector vector_entries s) (lookup_indexed s))

unfoldable pub same_id : SpecialRegisterId → SpecialRegisterId → Bool
same_id a b = (kind_index a.kind == kind_index b.kind) && (a.index == b.index)

-- A value-initialised `Info`.
abbrev pub no_info : Info
no_info = record {
  id = record { kind = invalid; index = 0 };
  element_type = Scalar.invalid;
  vector_width = 1;
  minimum_ptx_major = 0;
  minimum_ptx_minor = 0;
  minimum_sm = 0;
  required_capability = [];
}

unfoldable pub metadata_indexed : SpecialRegisterKind → ℕ → Info
metadata_indexed performance_monitor64 i = performance_monitor_64_info i
metadata_indexed performance_monitor i = performance_monitor_info i
metadata_indexed environment i = environment_info i
metadata_indexed reserved_smem_offset i = reserved_smem_offset_info i
metadata_indexed _ i = no_info

abbrev widened : Option Entry → Info → Info
widened none other = other
widened (some e) other = record e.info { vector_width = 4 }

abbrev exact_or : Option Entry → Info → Info
exact_or none other = other
exact_or (some e) other = e.info

unfoldable pub metadata : SpecialRegisterId → Info
unfolding metadata_indexed
metadata id = exact_or (find_if (λ e. same_id e.info.id id) exact_entries) (
    widened (find_if (λ e. same_id e.info.id id) vector_entries)
      (metadata_indexed id.kind id.index))
