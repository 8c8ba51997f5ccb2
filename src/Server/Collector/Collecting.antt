-- ===== src/Server/Collector/Collecting.antt =====
-- How the collector goes through the records that it is sent.
use kafka_manager.Base.{◌≡◌, refl, true, false, List, [], ◌∷◌}
use kafka_manager.Server.{Record, Query}
use kafka_manager.Server.Matching.{JsonLibrary}
use kafka_manager.Server.Collector.{Collector, done, add, collect}

module _ {F : Type 0} (library : JsonLibrary F) (q : Query) where
  pub collect-nil : (c : Collector) → collect library q [] c ≡ c
  unfolding collect
  collect-nil c = refl

  -- Once it is done, nothing changes.
  pub collect-done :
      (rs : List Record) (c : Collector) → done library q c ≡ true → collect library q rs c ≡ c
  unfolding collect
  collect-done [] c h = refl
  collect-done (r ∷ rs) c h = rw h (collect-done rs c h)

  pub collect-cons :
      (r : Record) (rs : List Record) (c : Collector)
      → done library q c ≡ false
      → collect library q (r ∷ rs) c ≡ collect library q rs (add library q r c).0
  unfolding collect
  collect-cons r rs c h = rw h
