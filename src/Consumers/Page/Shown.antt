-- ===== src/Consumers/Page/Shown.antt =====
-- Which groups the page shows, and the scale of their bars.
use kafka_manager.Base.{
  ℕ, suc, ◌+◌, ◌≡◌, refl, Bool, false, ◌&&◌, List, [], ◌∷◌, arith, Text, length, filter, All,
}
use kafka_manager.Base.Int.{ℤ, pos, ◌≤ℤ◌, is_negative, is_positive-sub}
use kafka_manager.Base.Sort.{sort, insert}
use kafka_manager.Consumers.{ConsumerGroup, compare_groups, sort_consumer_groups}
use kafka_manager.Consumers.Page.{
  ConsumersState, HealthFilter, all, lagging, healthy, matches_health, matches_name, shown, max_lag,
  larger,
}

All-le :
    (a b : ℤ) (gs : List ConsumerGroup)
    → a ≤ℤ b
    → All (λ g. g.total_lag ≤ℤ a) gs
    → All (λ g. g.total_lag ≤ℤ b) gs
All-le a b [] h hs = tt
All-le a b (g ∷ gs) h hs = (omega (arith, hs.0), All-le a b gs h hs.1)

larger-left : (a b : ℤ) → a ≤ℤ larger a b
larger-left a b = ground (arith, is_positive-sub a b)

larger-right : (a b : ℤ) → b ≤ℤ larger a b
larger-right a b = ground (arith, is_positive-sub a b)

-- Every bar fits its scale, which is at least one.
pub max_lag-bounds :
    (gs : List ConsumerGroup) → (pos 1 ≤ℤ max_lag gs) × All (λ g. g.total_lag ≤ℤ max_lag gs) gs
unfolding max_lag
max_lag-bounds [] = (omega arith, tt)
max_lag-bounds (g ∷ gs) =
    let rest = max_lag-bounds gs in
    let right = larger-right g.total_lag (max_lag gs) in
    (
      omega (arith, rest.0, right),
      (larger-left g.total_lag (max_lag gs), All-le _ _ gs right rest.1),
    )

length-insert :
    (cmp : ConsumerGroup → ConsumerGroup → ℤ) (g : ConsumerGroup) (gs : List ConsumerGroup)
    → length (insert cmp g gs) ≡ suc (length gs)
unfolding insert
length-insert cmp g [] = refl
length-insert cmp g (h ∷ gs) = ground (arith, length-insert cmp g gs)

length-sort :
    (cmp : ConsumerGroup → ConsumerGroup → ℤ) (gs : List ConsumerGroup)
    → length (sort cmp gs) ≡ length gs
unfolding sort
length-sort cmp [] = refl
length-sort cmp (g ∷ gs) = omega (arith, length-insert cmp g (sort cmp gs), length-sort cmp gs)

health-split :
    (p : ConsumerGroup → Bool) (gs : List ConsumerGroup)
    → All (λ g. is_negative g.total_lag ≡ false) gs
    → length (filter (λ g. p g && matches_health lagging g) gs)
        + length (filter (λ g. p g && matches_health healthy g) gs)
      ≡ length (filter (λ g. p g && matches_health all g) gs)
unfolding matches_health
health-split p [] h = refl
health-split p (g ∷ gs) h = ground (arith, health-split p gs h.1, h.0)

module _ (locale_compare : Text → Text → ℤ) (to_lower_case : Text → Text) where
  length-shown :
      (s : ConsumersState)
      → length (shown locale_compare to_lower_case s)
        ≡ length (
            filter
              (λ g.
                matches_name locale_compare to_lower_case s.query g && matches_health s.health g)
              s.items)
  unfolding shown sort_consumer_groups
  length-shown s = length-sort (compare_groups locale_compare s.sort) _

  abbrev pub count_shown : ConsumersState → HealthFilter → ℕ
  count_shown s health = length (shown locale_compare to_lower_case (record s { health = health }))

  -- The two choices "lagging" and "healthy" split the groups that the choice "all" shows, if no
  -- group has a negative lag.
  pub shown-split :
      (s : ConsumersState)
      → All (λ g. is_negative g.total_lag ≡ false) s.items
      → count_shown s lagging + count_shown s healthy ≡ count_shown s all
  shown-split s h = omega (
    arith,
    length-shown (record s { health = lagging }),
    length-shown (record s { health = healthy }),
    length-shown (record s { health = all }),
    health-split (matches_name locale_compare to_lower_case s.query) s.items h,
  )
