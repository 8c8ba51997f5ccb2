-- ===== src/Server/Collector/First.antt =====
-- A query from a position on is answered by the first messages that match.
use kafka_manager.Base.{
  ℕ, suc, zero, ◌+◌, ◌-◌, ◌<◌, ◌≡◌, refl, sym, ap, ◌∙◌, inl, inr, Bool, true, false, ◌||◌, List, [],
  ◌∷◌, ◌++◌, arith, if◌then◌else◌, leb, text_eq, codes, length, length-append, append-nil,
  append_assoc, take, filter, Bool-cases,
}
use kafka_manager.Base.Int.{pos}
use kafka_manager.Server.{Record, Query}
use kafka_manager.Server.Matching.{JsonLibrary, match_record}
use kafka_manager.Server.Collector.{
  Collector, done, keep, add, collect, result, new_record_collector, fetch,
}
use kafka_manager.Server.Collector.Collecting.{collect-nil, collect-done, collect-cons}

take_nil : {A : Type 0} (n : ℕ) → take {A = A} n [] ≡ []
take_nil zero = refl
take_nil (suc n) = refl

module _ {F : Type 0} (library : JsonLibrary F) (q : Query) (k s : ℕ) (limit : q.limit ≡ pos k)
    (scan_limit : q.scan_limit ≡ pos s) (not_latest : text_eq q.mode (codes "latest") ≡ false) where
  abbrev asks : Record → Bool
  asks r = (match_record library r q).0

  -- What the items of `c` become after the records `rs`, of which `n` may be scanned.
  abbrev Continues : ℕ → List Record → Collector → Collector → Type 0
  Continues n rs c d = d.items ≡ c.items ++ take (k - length c.items) (filter asks (take n rs))

  done_by : (c : Collector) → done library q c ≡ (leb s c.scanned || leb k (length c.items))
  unfolding done
  done_by c = rw (not_latest, scan_limit, limit)

  add-items :
      (r : Record) (c : Collector)
      → done library q c ≡ false
      → let next = (add library q r c).0 in
        (next.items ≡ (if asks r then c.items ++ r ∷ [] else c.items))
        × (next.scanned ≡ c.scanned + 1)
  unfolding add keep
  add-items r c h = rw (h, not_latest) (refl, refl)

  nothing_more : (n : ℕ) (c : Collector) → c.items ≡ c.items ++ take n []
  nothing_more n c = rw (take_nil {A = Record} n) (sym (append-nil c.items))

  done_with :
      (c : Collector) → leb s c.scanned || leb k (length c.items) ≡ true → done library q c ≡ true
  done_with c h = rw (done_by c) h

  -- The next record matches, and there is room for it.
  room-Continues :
      (r : Record) (rs : List Record) (n : ℕ) (c d e : Collector)
      → length c.items < k
      → asks r ≡ true
      → d.items ≡ c.items ++ r ∷ []
      → Continues n rs d e
      → Continues (suc n) (r ∷ rs) c e
  room-Continues r rs n c d e room asked_for same h =
      let one : k - length c.items ≡ suc (k - length d.items) =
        omega (arith, ap length same, length-append c.items (r ∷ []), room) in
      let rest : List Record = take (k - length d.items) (filter asks (take n rs)) in
      rw (asked_for, one) (h ∙ ap (λ xs. xs ++ rest) same ∙ append_assoc c.items (r ∷ []) rest)

  collect-items :
      (rs : List Record) (n : ℕ) (c : Collector)
      → c.scanned + n ≡ s
      → Continues n rs c (collect library q rs c)
  collect-items rs zero c e =
      rw (collect-done library q rs c (done_with c (ground (arith, e))))
        (nothing_more (k - length c.items) c)
  collect-items [] (suc n) c e = rw (collect-nil library q c) (nothing_more (k - length c.items) c)
  collect-items (r ∷ rs) (suc n) c e = elim (Bool-cases (leb k (length c.items))) [
    | inl filled ↦
        let no_room : k - length c.items ≡ 0 = ground (arith, filled) in
        rw (collect-done library q (r ∷ rs) c (done_with c (ground (arith, filled))), no_room)
          (sym (append-nil c.items))
    | inr room ↦
        let some_room : length c.items < k = ground (arith, room) in
        let not_yet : done library q c ≡ false = done_by c ∙ ground (arith, e, room) in
        let (same, scanned) = add-items r c not_yet in
        let next : Collector = (add library q r c).0 in
        let rest : Continues n rs next (collect library q rs next) =
          collect-items rs n next (omega (arith, e, scanned)) in
        rw (collect-cons library q r rs c not_yet) (elim (Bool-cases (asks r)) [
          | inl asked_for ↦
              room-Continues r rs n c next (collect library q rs next) some_room asked_for
                (rw asked_for at same) rest
          | inr other ↦ rw other (rw (rw other at same) at rest)
        ])
  ]

  -- In any mode but "latest" the answer consists of the messages that match among the first that are
  -- scanned, up to the scan limit: the first of them, as many as the limit allows, in the order in
  -- which they were read.
  pub fetch-items :
      (rs : List Record) → (fetch library q rs).items ≡ take k (filter asks (take s rs))
  unfolding fetch result new_record_collector
  fetch-items rs =
      let all_of_it : k - 0 ≡ k = omega arith in
      rw not_latest (rw all_of_it at (collect-items rs s new_record_collector (omega arith)))
