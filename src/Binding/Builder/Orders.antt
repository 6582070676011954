-- ===== src/Binding/Builder/Orders.antt =====
-- indexSourceRange: the orders follow the source, and only the ranges that occur once have one.
use ptx_frontend.Common.{
  ℕ, suc, ◌+◌, ◌%◌, ◌^◌, ◌≡◌, ◌<◌, refl, sym, ap, ◌∙◌, inl, inr, true, false, none, some, List, [],
  ◌∷◌, arith, none≢some, false≢true, ltb, ltb→lt, Bool-cases, ◌==◌, length, any, is_some,
}
use ptx_frontend.Syntax.{SourceRange}
use ptx_frontend.Binding.Symbols.{same_range}
use ptx_frontend.Binding.Builder.{SourceOrders, find_order, erase_order, index_source_range}
use ptx_frontend.Binding.Builder.Ranges.{same_range_refl, find_order-erase_order}
use ptx_frontend.Binding.Builder.Follows.{count, IsEarlier, FollowsSource, FollowsSource-step}

-- The ranges of a source, of which the list has the newest first.
unfoldable pub index_source_ranges : SourceOrders → List SourceRange → SourceOrders
index_source_ranges s [] = s
index_source_ranges s (range ∷ rs) = index_source_range (index_source_ranges s rs) range

module _ (s : SourceOrders) (rs : List SourceRange) (x : SourceRange) (h : FollowsSource s rs)
    (room : suc (length rs) < 2 ^ 32) where
  no_wrap : (s.next + 1) % 2 ^ 32 ≡ suc s.next
  no_wrap = omega arith

  FollowsSource-known :
      any (same_range x) s.ambiguous ≡ true → FollowsSource (index_source_range s x) (x ∷ rs)
  unfolding index_source_range
  FollowsSource-known e =
      let many : ltb 1 (count x rs) ≡ true = sym (h.twice x) ∙ e in
      let low : 1 < count x rs = ltb→lt 1 (count x rs) many in
      let more : ltb 1 (suc (count x rs)) ≡ true = ground arith in
      let single : (count x rs == 1) ≡ false = ground arith in
      let single' : (suc (count x rs) == 1) ≡ false = ground arith in
      let without : is_some (find_order x s.orders) ≡ false = h.once x ∙ single in
      let next_small = h.small in
      rw e (
        FollowsSource-step s s rs x h (omega arith) (omega arith) (e ∙ sym more)
          (without ∙ sym single') (λ r f. (refl, refl))
          (λ i g. absurd (false≢true (sym without ∙ ap is_some g))))

  FollowsSource-again :
      any (same_range x) s.ambiguous ≡ false
      → is_some (find_order x s.orders) ≡ true
      → FollowsSource (index_source_range s x) (x ∷ rs)
  unfolding index_source_range
  FollowsSource-again e f =
      let seen : (count x rs == 1) ≡ true = sym (h.once x) ∙ f in
      let one : count x rs ≡ 1 = ground arith in
      let next_small = h.small in
      let erased : find_order x (erase_order x s.orders) ≡ none =
        find_order-erase_order x x s.orders ∙ rw (same_range_refl x) refl in
      rw (e, f)
        (FollowsSource-step s
          (record {
            orders = erase_order x s.orders;
            ambiguous = x ∷ s.ambiguous;
            next = (s.next + 1) % 2 ^ 32;
          })
          rs x h (omega (arith, no_wrap)) (omega (arith, no_wrap))
          (rw (same_range_refl x, one) refl) (rw (erased, one) refl)
          (λ r g. (rw g refl, find_order-erase_order r x s.orders ∙ rw g refl))
          (λ i g. absurd (none≢some (sym erased ∙ g))))

  FollowsSource-fresh :
      any (same_range x) s.ambiguous ≡ false
      → is_some (find_order x s.orders) ≡ false
      → FollowsSource (index_source_range s x) (x ∷ rs)
  unfolding index_source_range
  FollowsSource-fresh e f =
      let many : ltb 1 (count x rs) ≡ false = sym (h.twice x) ∙ e in
      let seen : (count x rs == 1) ≡ false = sym (h.once x) ∙ f in
      let fresh : count x rs ≡ 0 = ground arith in
      let next_small = h.small in
      rw (e, f)
        (FollowsSource-step s
          (record {
            orders = (x, s.next) ∷ s.orders;
            ambiguous = s.ambiguous;
            next = (s.next + 1) % 2 ^ 32;
          })
          rs x h (omega (arith, no_wrap)) (omega (arith, no_wrap)) (rw fresh e)
          (rw (same_range_refl x, fresh) refl) (λ r g. (refl, rw g refl))
          (λ i g.
            let found : some s.next ≡ some i = newest i g in
            let same : s.next ≡ i = cc found in (sym same, fresh, omega (arith, no_wrap))))
    where
      newest : (i : ℕ) → find_order x ((x, s.next) ∷ s.orders) ≡ some i → some s.next ≡ some i
      newest i g =
          let here : find_order x ((x, s.next) ∷ s.orders) ≡ some s.next =
            rw (same_range_refl x) refl in
          sym here ∙ g

  FollowsSource-index_source_range : FollowsSource (index_source_range s x) (x ∷ rs)
  FollowsSource-index_source_range = elim (Bool-cases (any (same_range x) s.ambiguous)) [
    | inl e ↦ FollowsSource-known e
    | inr e ↦ elim (Bool-cases (is_some (find_order x s.orders))) [
      | inl f ↦ FollowsSource-again e f
      | inr f ↦ FollowsSource-fresh e f
    ]
  ]

unfoldable pub no_orders : SourceOrders
no_orders = record { orders = []; ambiguous = []; next = 0 }

no_orders-FollowsSource : FollowsSource no_orders []
unfolding no_orders
no_orders-FollowsSource = record {
  small = omega arith;
  twice = λ r. refl;
  once = λ r. refl;
  below = λ r i e. absurd (none≢some e);
  sorted = λ a b i j e p q. absurd (none≢some p);
}

FollowsSource-index_source_ranges :
    (rs : List SourceRange)
    → length rs < 2 ^ 32
    → FollowsSource (index_source_ranges no_orders rs) rs
unfolding index_source_ranges
FollowsSource-index_source_ranges [] room = no_orders-FollowsSource
FollowsSource-index_source_ranges (x ∷ rs) room =
    FollowsSource-index_source_range (index_source_ranges no_orders rs) rs x
      (FollowsSource-index_source_ranges rs (omega arith)) room

-- For fewer than 2^32 source ranges, the newest first: the indexer orders exactly the ranges that occur
-- once, and where an ordered range occurs before an ordered one its order is lower.
pub index_source_ranges-order :
    (rs : List SourceRange)
    → length rs < 2 ^ 32
    → ((r : SourceRange)
        → is_some (find_order r (index_source_ranges no_orders rs).orders) ≡ (count r rs == 1))
      × ((a b : SourceRange) (i j : ℕ)
          → IsEarlier a b rs
          → find_order a (index_source_ranges no_orders rs).orders ≡ some i
          → find_order b (index_source_ranges no_orders rs).orders ≡ some j
          → i < j)
index_source_ranges-order rs room =
    let follows = FollowsSource-index_source_ranges rs room in (follows.once, follows.sorted)
