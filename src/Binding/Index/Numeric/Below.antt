-- ===== src/Binding/Index/Numeric/Below.antt =====
-- The order of members, bit by bit, and the trie as an implementation of a list of members.
use native.Mathlib.Nat.{div-div-eq-div-mul, div-add-mod, mod-lt}
use ptx_frontend.Common.{
  ℕ, zero, suc, ◌+◌, ◌*◌, ◌/◌, ◌%◌, ◌^◌, ◌≡◌, ◌<◌, refl, sym, ap, ◌∙◌, inl, inr, Bool, true, false,
  Option, none, List, [], ◌∷◌, arith, Bool-cases, ltb, if◌then◌else◌,
}
use ptx_frontend.Common.Bits.{double, pow_pos}
use ptx_frontend.Binding.Index.{keep_earliest}
use ptx_frontend.Binding.Index.Entries.{Entries, strip}
use ptx_frontend.Binding.Index.Earliest.{earliest}
use ptx_frontend.Binding.Index.Numeric.{same_branch, branch_at}
use ptx_frontend.Binding.Index.Numeric.Insert.{branches}
use ptx_frontend.Binding.Index.Numeric.Query.{join, earliest_before}

-- The members that an index holds, each with its symbol.
abbrev pub Members : Type 0
Members = List (ℕ × ℕ)

-- The earliest symbol of the members that pass a test.
abbrev pub earliest_where : (ℕ → Bool) → Members → Option ℕ
earliest_where test [] = none
earliest_where test ((member, symbol) ∷ ms) =
    let others = earliest_where test ms in
    if test member then keep_earliest others symbol else others

abbrev pub paths : ℕ → Members → Entries Bool
paths k [] = []
paths k ((member, symbol) ∷ ms) = (branches k member, symbol) ∷ paths k ms

abbrev select : ℕ → Bool → Members → Members
select k b [] = []
select k b ((member, symbol) ∷ ms) =
    let others = select k b ms in
    if same_branch (branch_at member k) b then (member, symbol) ∷ others else others

strip-paths :
    (k : ℕ) (b : Bool) (ms : Members)
    → strip same_branch b (paths (suc k) ms) ≡ paths k (select k b ms)
strip-paths k b [] = refl
strip-paths k b ((m, s) ∷ ms) = elim (Bool-cases (same_branch (branch_at m k) b)) [
  | inl e ↦ rw (e, strip-paths k b ms)
  | inr e ↦ rw (e, strip-paths k b ms)
]

earliest-paths : (k : ℕ) (ms : Members) → earliest (paths k ms) ≡ earliest_where (λ m. true) ms
earliest-paths k [] = refl
earliest-paths k ((m, s) ∷ ms) = rw (earliest-paths k ms)

add_cancel : (a b c : ℕ) → a + b ≡ a + c → b ≡ c
add_cancel a b c h = omega arith

distribute : (p h d r : ℕ) → p * (2 * h + d) + r ≡ p * 2 * h + (p * d + r)
distribute p h d r = omega arith

mod_double : (p x : ℕ) → 0 < p → x % (p * 2) ≡ p * (x / p % 2) + x % p
mod_double p x h =
    let half = x / p / 2 in
    let digit = x / p % 2 in
    let whole : p * 2 * half + x % (p * 2) ≡ x =
      ap (λ q. p * 2 * q + x % (p * 2)) (div-div-eq-div-mul x p 2) ∙ div-add-mod x (p * 2) in
    let parts : p * (2 * half + digit) + x % p ≡ x =
      ap (λ q. p * q + x % p) (div-add-mod (x / p) 2) ∙ div-add-mod x p in
    add_cancel (p * 2 * half) (x % (p * 2)) (p * digit + x % p)
      (whole ∙ sym parts ∙ distribute p half digit (x % p))

pub keep_join_left :
    (a b : Option ℕ) (s : ℕ) → join (keep_earliest a s) b ≡ keep_earliest (join a b) s
keep_join_left a b s = ground arith

pub keep_join_right :
    (a b : Option ℕ) (s : ℕ) → join a (keep_earliest b s) ≡ keep_earliest (join a b) s
keep_join_right a b s = ground arith

module _ (k limit : ℕ) where
  abbrev pub less : ℕ → Bool
  less member = ltb (member % 2 ^ k) (limit % 2 ^ k)

  abbrev less' : ℕ → Bool
  less' member = ltb (member % 2 ^ suc k) (limit % 2 ^ suc k)

  bit_split : (x : ℕ) → x % 2 ^ suc k ≡ (if branch_at x k then 2 ^ k else 0) + x % 2 ^ k
  bit_split x =
      let split = mod_double (2 ^ k) x (pow_pos k) in
      let twice : 2 ^ suc k ≡ 2 ^ k * 2 = omega (arith, double k) in
      let split' : x % 2 ^ suc k ≡ 2 ^ k * (x / 2 ^ k % 2) + x % 2 ^ k =
        ap (λ y. x % y) twice ∙ split in
      elim (Bool-cases (branch_at x k)) [
        | inl e ↦
            let one : x / 2 ^ k % 2 ≡ 1 = ground arith in
            let at : 2 ^ k * (x / 2 ^ k % 2) ≡ 2 ^ k = ap (λ d. 2 ^ k * d) one ∙ omega arith in
            rw e (omega arith)
        | inr e ↦
            let none_set : x / 2 ^ k % 2 ≡ 0 = ground arith in
            let at : 2 ^ k * (x / 2 ^ k % 2) ≡ 0 = ap (λ d. 2 ^ k * d) none_set ∙ omega arith in
            rw e (omega arith)
      ]

  less_bit :
      (member : ℕ)
      → less' member ≡ (
          if branch_at limit k
          then if branch_at member k then less member else true
          else if branch_at member k
          then false
          else less member)
  less_bit member =
      let l = bit_split limit in
      let m = bit_split member in
      let bound : member % 2 ^ k < 2 ^ k = mod-lt member (pow_pos k) in
      let bound' : limit % 2 ^ k < 2 ^ k = mod-lt limit (pow_pos k) in
      elim (Bool-cases (branch_at limit k)) [
        | inl e ↦ elim (Bool-cases (branch_at member k)) [
          | inl f ↦ rw (l, m, e, f) (ground arith)
          | inr f ↦ rw (l, m, e, f) (ground arith)
        ]
        | inr e ↦ elim (Bool-cases (branch_at member k)) [
          | inl f ↦ rw (l, m, e, f) (ground arith)
          | inr f ↦ rw (l, m, e, f) (ground arith)
        ]
      ]

  where_set :
      branch_at limit k ≡ true
      → (ms : Members)
      → join
          (earliest_where (λ m. true) (select k false ms))
          (earliest_where less (select k true ms))
        ≡ earliest_where less' ms
  where_set e [] = refl
  where_set e ((m, s) ∷ ms) =
      let rest = where_set e ms in
      let low = earliest_where (λ m. true) (select k false ms) in
      let high = earliest_where less (select k true ms) in
      elim (Bool-cases (branch_at m k)) [
        | inl f ↦ elim (Bool-cases (less m)) [
          | inl t ↦ rw (less_bit m, e, f, t, keep_join_right low high s, rest) refl
          | inr t ↦ rw (less_bit m, e, f, t) rest
        ]
        | inr f ↦ rw (less_bit m, e, f, keep_join_left low high s, rest) refl
      ]

  where_clear :
      branch_at limit k ≡ false
      → (ms : Members) → earliest_where less (select k false ms) ≡ earliest_where less' ms
  where_clear e [] = refl
  where_clear e ((m, s) ∷ ms) = elim (Bool-cases (branch_at m k)) [
    | inl f ↦ rw (less_bit m, e, f) (where_clear e ms)
    | inr f ↦ rw (less_bit m, e, f, where_clear e ms) refl
  ]

where_false : (ms : Members) (limit : ℕ) → earliest_where (less 0 limit) ms ≡ none
where_false [] limit = refl
where_false ((m, s) ∷ ms) limit =
    let never : less 0 limit m ≡ false = ground arith in rw never (where_false ms limit)

pub before-paths :
    (k limit : ℕ) (ms : Members)
    → earliest_before (branches k limit) (paths k ms) ≡ earliest_where (less k limit) ms
before-paths zero limit ms = sym (where_false ms limit)
before-paths (suc k) limit ms = elim (Bool-cases (branch_at limit k)) [
  | inl e ↦
      rw
        (
          e,
          strip-paths k false ms,
          strip-paths k true ms,
          earliest-paths k (select k false ms),
          before-paths k limit (select k true ms),
        )
        (where_set k limit e ms)
  | inr e ↦
      rw (e, strip-paths k false ms, before-paths k limit (select k false ms))
        (where_clear k limit e ms)
]
