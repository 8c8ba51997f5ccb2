-- ===== src/Server/Collector/Newest.antt =====
-- A query for the latest messages with certain contents is answered by the newest of them.
use mathlib.Core.List.{Perm, perm_middle}
use mathlib.Core.List.Perm
use kafka_manager.Base.{
  ℕ, suc, zero, ◌+◌, ◌≤◌, ◌<◌, min, ◌≡◌, refl, sym, ap, ◌∙◌, ◌⊎◌, inl, inr, Bool, true, false, List,
  [], ◌∷◌, ◌++◌, arith, if◌then◌else◌, ltb, leb, text_eq, codes, length, length-append, append-nil,
  take, filter, All, Bool-cases,
}
use kafka_manager.Base.Int.{ℤ, pos, is_positive}
use kafka_manager.Base.Sort.{
  sort, sort-perm, sort-IsSorted, sort-All, sort-length, OrderedBy, OrderedBy-map, All-map,
}
use kafka_manager.Server.{Record, Query, QueryResult}
use kafka_manager.Server.Matching.{JsonLibrary, match_record}
use kafka_manager.Server.Collector.{
  Collector, record_newer, by_order, is_selective, replace_oldest, done, keep, add, collect, result,
  new_record_collector, fetch,
}
use kafka_manager.Server.Collector.Collecting.{collect-nil, collect-done, collect-cons}
use kafka_manager.Server.Collector.Newer.{by_newer-IsConsistent, by_newer-after}
use kafka_manager.Server.Collector.Oldest.{IsNoNewer, replace_oldest-gives_up}

-- Of the records `asked` for, at most `k` are kept, the others are no newer than these, and none is
-- given up before `k` are kept.
pub record IsNewest (k : ℕ) (items asked : List Record) : Type 0 where
  pub dropped : List Record
  pub all : Perm (dropped ++ items) asked
  pub total : length dropped + length items ≡ length asked
  pub bounded : length items ≤ k
  pub full : (dropped ≡ []) ⊎ (length items ≡ k)
  pub newest : All (λ d. IsNoNewer d items) dropped

IsNewest-snoc :
    {k : ℕ} (r : Record) (items asked : List Record)
    → length items < k
    → IsNewest k items asked
    → IsNewest k (items ++ r ∷ []) (r ∷ asked)
IsNewest-snoc r items asked room h = elim h.full [
  | inr filled ↦ absurd (omega (arith, filled, room))
  | inl nothing ↦
      let here : Perm items asked = rw nothing at h.all in
      let count : length items ≡ length asked = omega (arith, rw nothing at h.total) in
      record {
        dropped = [];
        all = Perm.trans (perm_middle items []) (Perm.cons r (rw (append-nil items) here));
        total = omega (arith, length-append items (r ∷ []), count);
        bounded = omega (arith, length-append items (r ∷ []), room);
        full = inl refl;
        newest = tt;
      }
]

IsNewest-replace :
    {k : ℕ} (r x : Record) (xs asked : List Record)
    → length (x ∷ xs) ≡ k
    → IsNewest k (x ∷ xs) asked
    → IsNewest k (replace_oldest r (x ∷ xs)) (r ∷ asked)
IsNewest-replace r x xs asked filled h =
    let (out, perm, same, no_newer, keeps) = replace_oldest-gives_up r x xs in
    let kept : List Record = replace_oldest r (x ∷ xs) in
    record {
      dropped = out ∷ h.dropped;
      all = Perm.trans (Perm.symm (perm_middle h.dropped kept)) (
          Perm.trans (Perm.append_left h.dropped perm)
            (Perm.trans (perm_middle h.dropped (x ∷ xs)) (Perm.cons r h.all)));
      total = omega (arith, same, h.total);
      bounded = omega (arith, same, filled);
      full = inr (same ∙ filled);
      newest = (no_newer, All-map _ _ keeps h.dropped h.newest);
    }

nothing-IsNewest : (k : ℕ) → IsNewest k [] []
nothing-IsNewest k = record {
  dropped = [];
  all = Perm.refl [];
  total = refl;
  bounded = omega arith;
  full = inl refl;
  newest = tt;
}

IsNewest-length :
    {k : ℕ} (items asked : List Record)
    → IsNewest k items asked
    → length items ≡ min k (length asked)
IsNewest-length items asked h = elim h.full [
  | inl nothing ↦
      let count : length items ≡ length asked = omega (arith, rw nothing at h.total) in
      omega (arith, count, h.bounded)
  | inr filled ↦ omega (arith, filled, h.total)
]

-- The newest of the records `asked` for, the newest first.
pub record IsAnswer (k : ℕ) (asked : List Record) (r : QueryResult) : Type 0 where
  pub dropped : List Record
  pub all : Perm (dropped ++ r.items) asked
  pub count : length r.items ≡ min k (length asked)
  pub sorted : OrderedBy (λ x y. record_newer y x ≡ false) r.items
  pub newest : All (λ d. IsNoNewer d r.items) dropped
  pub matched : r.matched ≡ length asked
  pub limited : r.result_limited ≡ ltb k (length asked)

-- `xs` in front of `ys`, in the other order.
abbrev onto : List Record → List Record → List Record
onto [] ys = ys
onto (x ∷ xs) ys = onto xs (x ∷ ys)

onto-perm : (xs ys : List Record) → Perm (onto xs ys) (xs ++ ys)
onto-perm [] ys = Perm.refl ys
onto-perm (x ∷ xs) ys = Perm.trans (onto-perm xs (x ∷ ys)) (perm_middle xs ys)

onto-length : (xs ys : List Record) → length (onto xs ys) ≡ length xs + length ys
onto-length [] ys = omega arith
onto-length (x ∷ xs) ys = omega (arith, onto-length xs (x ∷ ys))

module _ {F : Type 0} (library : JsonLibrary F) (q : Query) (k s : ℕ) (limit : q.limit ≡ pos k)
    (scan_limit : q.scan_limit ≡ pos s) (positive : 1 ≤ k) (selective : is_selective q ≡ true) where
  abbrev asks : Record → Bool
  asks r = (match_record library r q).0

  -- What the collector holds once it has seen the records `asked` for.
  abbrev Holds : Collector → List Record → Type 0
  Holds c asked = IsNewest k c.items asked × (c.matched ≡ length asked)

  done-scanned : (c : Collector) → done library q c ≡ leb s c.scanned
  unfolding done
  done-scanned c = rw (selective, scan_limit) (ground arith)

  keep-IsNewest :
      (r : Record) (items asked : List Record)
      → IsNewest k items asked
      → IsNewest k (keep library q r items) (r ∷ asked)
  unfolding keep
  keep-IsNewest r [] asked h =
      let room : leb k 0 ≡ false = ground (arith, positive) in
      rw (selective, limit, room) (IsNewest-snoc r [] asked positive h)
  keep-IsNewest r (x ∷ xs) asked h = elim (Bool-cases (leb k (length (x ∷ xs)))) [
    | inl filled ↦
        rw (selective, limit, filled) (IsNewest-replace r x xs asked (ground (arith, h.bounded)) h)
    | inr room ↦ rw (selective, limit, room) (IsNewest-snoc r (x ∷ xs) asked (ground arith) h)
  ]

  add-Holds :
      (r : Record) (c : Collector) (asked : List Record)
      → done library q c ≡ false
      → Holds c asked
      → let next = (add library q r c).0 in
        Holds next (if asks r then r ∷ asked else asked) × (next.scanned ≡ c.scanned + 1)
  unfolding add
  add-Holds r c asked open' h = elim (Bool-cases (asks r)) [
    | inl asked_for ↦
        rw (open', asked_for) ((keep-IsNewest r c.items asked h.0, omega (arith, h.1)), refl)
    | inr other ↦ rw (open', other) ((h.0, omega (arith, h.1)), refl)
  ]

  filter-onto :
      (r : Record) (rs asked : List Record)
      → onto (filter asks rs) (if asks r then r ∷ asked else asked)
        ≡ onto (filter asks (r ∷ rs)) asked
  filter-onto r rs asked = elim (Bool-cases (asks r)) [
    | inl asked_for ↦ rw asked_for
    | inr other ↦ rw other
  ]

  -- `n` more records are scanned.
  collect-Holds :
      (rs : List Record) (n : ℕ) (c : Collector) (asked : List Record)
      → c.scanned + n ≡ s
      → Holds c asked
      → Holds (collect library q rs c) (onto (filter asks (take n rs)) asked)
  collect-Holds rs zero c asked e h =
      let all_scanned : done library q c ≡ true =
        done-scanned c ∙ (let le : s ≤ c.scanned = omega (arith, e) in ground arith) in
      rw (collect-done library q rs c all_scanned) h
  collect-Holds [] (suc n) c asked e h = rw (collect-nil library q c) h
  collect-Holds (r ∷ rs) (suc n) c asked e h =
      let not_yet : done library q c ≡ false =
        done-scanned c ∙ (let lt : c.scanned < s = omega (arith, e) in ground arith) in
      let (holds, next) = add-Holds r c asked not_yet h in
      rw (collect-cons library q r rs c not_yet, sym (filter-onto r (take n rs) asked))
        (collect-Holds rs n (add library q r c).0 (if asks r then r ∷ asked else asked)
          (omega (arith, e, next)) holds)

  result-IsAnswer :
      (c : Collector) (asked : List Record)
      → Holds c (onto asked [])
      → IsAnswer k asked (result library q c)
  unfolding result
  result-IsAnswer c asked (h, matched) =
      let latest : text_eq q.mode (codes "latest") ≡ true = ground (arith, selective) in
      let order : Record → Record → ℤ = by_order record_newer in
      let count : length asked ≡ length (onto asked []) = omega (arith, onto-length asked []) in
      let kept : length c.items ≡ min k (length asked) =
        IsNewest-length c.items (onto asked []) h ∙ ap (min k) (sym count) in
      rw (selective, latest)
        (record {
          dropped = h.dropped;
          all =
              Perm.trans (Perm.append_left h.dropped (sort-perm order c.items))
                (Perm.trans h.all (rw (append-nil asked) at (onto-perm asked [])));
          count = sort-length order c.items ∙ kept;
          sorted =
              OrderedBy-map (λ x y. is_positive (order x y) ≡ false)
                (λ x y. record_newer y x ≡ false) by_newer-after (sort order c.items)
                (sort-IsSorted order by_newer-IsConsistent c.items);
          newest =
              All-map (λ d. IsNoNewer d c.items) (λ d. IsNoNewer d (sort order c.items))
                (λ d i. sort-All order (λ x. record_newer d x ≡ false) c.items i) h.dropped
                h.newest;
          matched = matched ∙ sym count;
          limited = ground (arith, kept, matched, count);
        })

  -- In the mode "latest", with conditions on the contents and a limit of at least 1, the answer
  -- consists of the newest of the messages that match among the first that are scanned, up to the
  -- scan limit: as many as the limit allows, the newest first, with none left out that is newer than
  -- one of them. The number of matches is that of all of them, and the answer is called limited
  -- exactly if one was left out.
  pub fetch-IsAnswer :
      (rs : List Record) → IsAnswer k (filter asks (take s rs)) (fetch library q rs)
  unfolding fetch new_record_collector
  fetch-IsAnswer rs =
      result-IsAnswer (collect library q rs new_record_collector) (filter asks (take s rs))
        (collect-Holds rs s new_record_collector [] (omega arith) (nothing-IsNewest k, refl))
