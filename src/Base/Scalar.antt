-- ===== src/Base/Scalar.antt =====
-- submod/base/include/base.hpp and submod/base/src/base.cpp: the scalar types of PTX, the table of
-- their properties, and the compatibility of a register's type with an instruction's.
pub mod Table
pub mod Compatible
use ptx_frontend.Common.{
  ℕ, zero, suc, ◌-◌, Bool, true, false, not, ◌&&◌, ◌||◌, Option, none, some, List, [], ◌∷◌, Text,
  codes, same_text, length, get_elem?, find_if, ltb, ◌==◌, if◌then◌else◌,
}

pub data ScalarType : Type 0 where
  invalid u8 u8x4 u16 u16x2 u32 u64 s8 s8x4 s16 s16x2 s32 s64 b8 b16 b32 b64 b128 f16 f16x2 f32 :
      ScalarType
  f32x2 f64 bf16 bf16x2 e4m3x2 e5m2x2 pred tf32 e4m3 e5m2 u2 s2 u4 s4 e2m1x2 e2m3x2 e3m2x2 :
      ScalarType
  e4m3x4 e5m2x4 e2m1x4 e2m3x4 e3m2x4 ue8m0x2 s2f6x2 b1 e3m2 e2m3 e2m1 ue8m0 ue4m3 : ScalarType

pub data ScalarKind : Type 0 where
  invalid_kind bit unsigned signed float predicate : ScalarKind

pub data ScalarDeclarationUsage : Type 0 where
  fundamental instruction_only : ScalarDeclarationUsage

-- The enumerator's number, `static_cast<size_t>(type)`.
abbrev pub index : ScalarType → ℕ
index invalid = 0
index u8 = 1
index u8x4 = 2
index u16 = 3
index u16x2 = 4
index u32 = 5
index u64 = 6
index s8 = 7
index s8x4 = 8
index s16 = 9
index s16x2 = 10
index s32 = 11
index s64 = 12
index b8 = 13
index b16 = 14
index b32 = 15
index b64 = 16
index b128 = 17
index f16 = 18
index f16x2 = 19
index f32 = 20
index f32x2 = 21
index f64 = 22
index bf16 = 23
index bf16x2 = 24
index e4m3x2 = 25
index e5m2x2 = 26
index pred = 27
index tf32 = 28
index e4m3 = 29
index e5m2 = 30
index u2 = 31
index s2 = 32
index u4 = 33
index s4 = 34
index e2m1x2 = 35
index e2m3x2 = 36
index e3m2x2 = 37
index e4m3x4 = 38
index e5m2x4 = 39
index e2m1x4 = 40
index e2m3x4 = 41
index e3m2x4 = 42
index ue8m0x2 = 43
index s2f6x2 = 44
index b1 = 45
index e3m2 = 46
index e2m3 = 47
index e2m1 = 48
index ue8m0 = 49
index ue4m3 = 50

pub record ScalarTypeMetadata : Type 0 where
  pub type : ScalarType
  pub source_spelling : Text
  pub kind : ScalarKind
  pub size_bytes : ℕ
  pub register_declaration_usage : ScalarDeclarationUsage

abbrev row : ScalarType → Text → ScalarKind → ℕ → ScalarDeclarationUsage → ScalarTypeMetadata
row t s k n u = record {
  type = t;
  source_spelling = s;
  kind = k;
  size_bytes = n;
  register_declaration_usage = u;
}

unfoldable pub scalar_type_metadata : List ScalarTypeMetadata
scalar_type_metadata =
    row u8 (codes ".u8") unsigned 1 fundamental
    ∷ row u8x4 (codes ".u8x4") unsigned 4 instruction_only
    ∷ row u16 (codes ".u16") unsigned 2 fundamental
    ∷ row u16x2 (codes ".u16x2") unsigned 4 instruction_only
    ∷ row u32 (codes ".u32") unsigned 4 fundamental
    ∷ row u64 (codes ".u64") unsigned 8 fundamental
    ∷ row s8 (codes ".s8") signed 1 fundamental
    ∷ row s8x4 (codes ".s8x4") signed 4 instruction_only
    ∷ row s16 (codes ".s16") signed 2 fundamental
    ∷ row s16x2 (codes ".s16x2") signed 4 instruction_only
    ∷ row s32 (codes ".s32") signed 4 fundamental
    ∷ row s64 (codes ".s64") signed 8 fundamental
    ∷ row b8 (codes ".b8") bit 1 fundamental
    ∷ row b16 (codes ".b16") bit 2 fundamental
    ∷ row b32 (codes ".b32") bit 4 fundamental
    ∷ row b64 (codes ".b64") bit 8 fundamental
    ∷ row b128 (codes ".b128") bit 16 fundamental
    ∷ row f16 (codes ".f16") float 2 fundamental
    ∷ row f16x2 (codes ".f16x2") float 4 fundamental
    ∷ row f32 (codes ".f32") float 4 fundamental
    ∷ row f32x2 (codes ".f32x2") float 8 instruction_only
    ∷ row f64 (codes ".f64") float 8 fundamental
    ∷ row bf16 (codes ".bf16") float 2 instruction_only
    ∷ row bf16x2 (codes ".bf16x2") float 4 instruction_only
    ∷ row e4m3x2 (codes ".e4m3x2") float 2 instruction_only
    ∷ row e5m2x2 (codes ".e5m2x2") float 2 instruction_only
    ∷ row pred (codes ".pred") predicate 1 fundamental
    ∷ row tf32 (codes ".tf32") float 4 instruction_only
    ∷ row e4m3 (codes ".e4m3") float 1 instruction_only
    ∷ row e5m2 (codes ".e5m2") float 1 instruction_only
    ∷ row u2 (codes ".u2") unsigned 1 instruction_only
    ∷ row s2 (codes ".s2") signed 1 instruction_only
    ∷ row u4 (codes ".u4") unsigned 1 instruction_only
    ∷ row s4 (codes ".s4") signed 1 instruction_only
    ∷ row e2m1x2 (codes ".e2m1x2") float 1 instruction_only
    ∷ row e2m3x2 (codes ".e2m3x2") float 2 instruction_only
    ∷ row e3m2x2 (codes ".e3m2x2") float 2 instruction_only
    ∷ row e4m3x4 (codes ".e4m3x4") float 4 instruction_only
    ∷ row e5m2x4 (codes ".e5m2x4") float 4 instruction_only
    ∷ row e2m1x4 (codes ".e2m1x4") float 2 instruction_only
    ∷ row e2m3x4 (codes ".e2m3x4") float 4 instruction_only
    ∷ row e3m2x4 (codes ".e3m2x4") float 4 instruction_only
    ∷ row ue8m0x2 (codes ".ue8m0x2") float 2 instruction_only
    ∷ row s2f6x2 (codes ".s2f6x2") float 2 instruction_only
    ∷ row b1 (codes ".b1") bit 1 instruction_only
    ∷ row e3m2 (codes ".e3m2") float 1 instruction_only
    ∷ row e2m3 (codes ".e2m3") float 1 instruction_only
    ∷ row e2m1 (codes ".e2m1") float 1 instruction_only
    ∷ row ue8m0 (codes ".ue8m0") float 1 instruction_only
    ∷ row ue4m3 (codes ".ue4m3") float 1 instruction_only
    ∷ []

unfoldable pub same_type : ScalarType → ScalarType → Bool
same_type a b = index a == index b

checked_row : ScalarType → Option ScalarTypeMetadata → Option ScalarTypeMetadata
checked_row t none = none
checked_row t (some m) = if same_type m.type t then some m else none

-- The overload of `find_scalar_type_metadata` by identity.
unfoldable pub find_by_type : ScalarType → Option ScalarTypeMetadata
unfolding checked_row
find_by_type t =
    let i = index t in
    if (i == 0) || ltb (length scalar_type_metadata) i
    then none
    else checked_row t (get_elem? scalar_type_metadata (i - 1))

-- The overload of `find_scalar_type_metadata` by spelling.
unfoldable pub find_by_spelling : Text → Option ScalarTypeMetadata
find_by_spelling s = find_if (λ m. same_text m.source_spelling s) scalar_type_metadata

abbrev kind_or_invalid : Option ScalarTypeMetadata → ScalarKind
kind_or_invalid none = invalid_kind
kind_or_invalid (some m) = m.kind

abbrev size_or_zero : Option ScalarTypeMetadata → ℕ
size_or_zero none = 0
size_or_zero (some m) = m.size_bytes

unfoldable pub scalar_kind : ScalarType → ScalarKind
scalar_kind t = kind_or_invalid (find_by_type t)

unfoldable pub scalar_size_of : ScalarType → ℕ
scalar_size_of t = size_or_zero (find_by_type t)

pub data ScalarTypeSizePolicy : Type 0 where
  exact same_width equal_or_wider word_or_doubleword : ScalarTypeSizePolicy

abbrev pub is_bit : ScalarKind → Bool
is_bit bit = true
is_bit _ = false

unfoldable pub is_fundamental_integer : ScalarType → Bool
is_fundamental_integer u8 = true
is_fundamental_integer u16 = true
is_fundamental_integer u32 = true
is_fundamental_integer u64 = true
is_fundamental_integer s8 = true
is_fundamental_integer s16 = true
is_fundamental_integer s32 = true
is_fundamental_integer s64 = true
is_fundamental_integer _ = false

-- The tests on the two sizes; `exact` has returned before them.
unfoldable pub rejected_width : ScalarTypeSizePolicy → ℕ → ℕ → Bool
rejected_width word_or_doubleword actual instruction =
    not (instruction == 8) || (not (actual == 4) && not (actual == 8))
rejected_width equal_or_wider actual instruction =
    not (actual == instruction) && ltb actual instruction
rejected_width same_width actual instruction = not (actual == instruction)
rejected_width exact actual instruction = true

unfoldable pub scalar_types_compatible : ScalarType → ScalarType → ScalarTypeSizePolicy → Bool
unfolding same_type rejected_width
scalar_types_compatible actual instruction policy =
    if same_type actual instruction
    then true
    else if rejected_width policy (scalar_size_of actual) (scalar_size_of instruction)
    then false
    else if is_bit (scalar_kind actual) || is_bit (scalar_kind instruction)
    then true
    else is_fundamental_integer actual && is_fundamental_integer instruction
