-- ===== src/Server/Collector/Oldest.antt =====
-- The item that a full collector gives up for a new one is no newer than any that it keeps.
use mathlib.Core.List.{Perm}
use mathlib.Core.List.Perm
use kafka_manager.Base.{
  ℕ, suc, zero, ◌≡◌, refl, sym, ap, inl, inr, true, false, some, List, [], ◌∷◌, ◌++◌, arith, length,
  get_elem?, All, All-append, length-append, append_assoc, append-nil, Bool-cases, some_inj,
}
use kafka_manager.Base.Sort.{All-map}
use kafka_manager.Server.{Record}
use kafka_manager.Server.Collector.{record_newer, oldest_from, oldest, replace_at, replace_oldest}
use kafka_manager.Server.Collector.Newer.{record_newer_asym, record_newer_trans}

-- The record is no newer than any of the items.
abbrev pub IsNoNewer : Record → List Record → Type 0
IsNoNewer r = All (λ x. record_newer r x ≡ false)

module _ {ℓ} {A : Type ℓ} where
  get-append :
      (xs ys : List A) (i : ℕ) {a : A} → get_elem? xs i ≡ some a → get_elem? (xs ++ ys) i ≡ some a
  get-append [] ys i e = cc
  get-append (x ∷ xs) ys zero e = e
  get-append (x ∷ xs) ys (suc i) e = get-append xs ys i e

  get_last : (xs : List A) (a : A) → get_elem? (xs ++ a ∷ []) (length xs) ≡ some a
  get_last [] a = refl
  get_last (x ∷ xs) a = get_last xs a

  All-get {κ} :
      (P : A → Type κ) (xs : List A) (i : ℕ) {a : A} → get_elem? xs i ≡ some a → All P xs → P a
  All-get P [] i e h = cc
  All-get P (x ∷ xs) zero e h = rw (sym (some_inj e)) h.0
  All-get P (x ∷ xs) (suc i) e h = All-get P xs i e h.1

newer-IsNoNewer :
    (item r : Record) (xs : List Record)
    → record_newer item r ≡ true
    → IsNoNewer item xs
    → IsNoNewer r xs
newer-IsNoNewer item r xs newer h =
    All-map (λ x. record_newer item x ≡ false) (λ x. record_newer r x ≡ false)
      (λ x k. record_newer_trans x item r k (record_newer_asym item r newer)) xs h

-- No record is newer than itself.
record_newer_self : (r : Record) → record_newer r r ≡ false
record_newer_self r = ground (arith, record_newer_asym r r)

oldest_from-IsNoNewer :
    (before : List Record) (best : ℕ) (item : Record) (after : List Record)
    → get_elem? before best ≡ some item
    → IsNoNewer item before
    → let i = oldest_from best item (length before) after in
      (r : Record) × (get_elem? (before ++ after) i ≡ some r) × IsNoNewer r (before ++ after)
unfolding oldest_from
oldest_from-IsNoNewer before best item [] e h = rw (append-nil before) (item, e, h)
oldest_from-IsNoNewer before best item (r ∷ rs) e h =
    let more : List Record = before ++ r ∷ [] in
    let next : suc (length before) ≡ length more = omega (arith, length-append before (r ∷ [])) in
    let whole : before ++ r ∷ rs ≡ more ++ rs = sym (append_assoc before (r ∷ []) rs) in
    rw (next, whole)
      (elim (Bool-cases (record_newer item r)) [
        | inl newer ↦ rw newer (
            oldest_from-IsNoNewer more (length before) r rs (get_last before r) (
              All-append (λ x. record_newer r x ≡ false) before (r ∷ [])
                (newer-IsNoNewer item r before newer h) (record_newer_self r, tt)))
        | inr other ↦ rw other (
            oldest_from-IsNoNewer more best item rs (get-append before (r ∷ []) best e)
              (All-append (λ x. record_newer item x ≡ false) before (r ∷ []) h (other, tt)))
      ])

oldest-IsNoNewer :
    (x : Record) (xs : List Record)
    → (r : Record) × (get_elem? (x ∷ xs) (oldest (x ∷ xs)) ≡ some r) × IsNoNewer r (x ∷ xs)
unfolding oldest
oldest-IsNoNewer x xs = oldest_from-IsNoNewer (x ∷ []) 0 x xs refl (record_newer_self x, tt)

module _ (r : Record) where
  replace_at-perm :
      (i : ℕ) (xs : List Record) {o : Record}
      → get_elem? xs i ≡ some o
      → Perm (o ∷ replace_at i r xs) (r ∷ xs)
  replace_at-perm i [] e = cc
  replace_at-perm zero (x ∷ xs) e = rw (sym (some_inj e)) (Perm.swap r x xs)
  replace_at-perm (suc i) (x ∷ xs) {o} e =
      Perm.trans (Perm.swap x o (replace_at i r xs))
        (Perm.trans (Perm.cons x (replace_at-perm i xs e)) (Perm.swap r x xs))

  replace_at-length : (i : ℕ) (xs : List Record) → length (replace_at i r xs) ≡ length xs
  replace_at-length i [] = refl
  replace_at-length zero (x ∷ xs) = refl
  replace_at-length (suc i) (x ∷ xs) = ap suc (replace_at-length i xs)

  replace_at-All :
      (P : Record → Type 0) (i : ℕ) (xs : List Record) → P r → All P xs → All P (replace_at i r xs)
  replace_at-All P i [] p h = tt
  replace_at-All P zero (x ∷ xs) p h = (p, h.1)
  replace_at-All P (suc i) (x ∷ xs) p h = (h.0, replace_at-All P i xs p h.1)

replace_oldest-newer :
    (r : Record) (items : List Record) {o : Record}
    → get_elem? items (oldest items) ≡ some o
    → record_newer r o ≡ true
    → replace_oldest r items ≡ replace_at (oldest items) r items
unfolding replace_oldest
replace_oldest-newer r items e newer = ground arith

replace_oldest-other :
    (r : Record) (items : List Record) {o : Record}
    → get_elem? items (oldest items) ≡ some o
    → record_newer r o ≡ false
    → replace_oldest r items ≡ items
unfolding replace_oldest
replace_oldest-other r items e other = ground arith

-- What a full collector does with another record: of the items and the record, it gives up one that
-- is no newer than any that it keeps, and it keeps the others.
pub replace_oldest-gives_up :
    (r x : Record) (xs : List Record)
    → let kept = replace_oldest r (x ∷ xs) in
      (out : Record) × Perm (out ∷ kept) (r ∷ x ∷ xs)
      × (length kept ≡ length (x ∷ xs))
      × IsNoNewer out kept
      × ((d : Record) → IsNoNewer d (x ∷ xs) → IsNoNewer d kept)
replace_oldest-gives_up r x xs =
    let (o, e, h) = oldest-IsNoNewer x xs in
    let i : ℕ = oldest (x ∷ xs) in
    elim (Bool-cases (record_newer r o)) [
      | inl newer ↦
          let older : record_newer o r ≡ false = record_newer_asym r o newer in
          rw (replace_oldest-newer r (x ∷ xs) e newer) (
            o,
            replace_at-perm r i (x ∷ xs) e,
            replace_at-length r i (x ∷ xs),
            replace_at-All r (λ y. record_newer o y ≡ false) i (x ∷ xs) older h,
            λ d k.
                replace_at-All r (λ y. record_newer d y ≡ false) i (x ∷ xs)
                  (record_newer_trans r o d older
                    (All-get (λ y. record_newer d y ≡ false) (x ∷ xs) i e k))
                  k,
          )
      | inr other ↦ rw (replace_oldest-other r (x ∷ xs) e other) (
        r,
        Perm.refl (r ∷ x ∷ xs),
        refl,
        All-map (λ y. record_newer o y ≡ false) (λ y. record_newer r y ≡ false)
            (λ y k. record_newer_trans y o r k other) (x ∷ xs) h,
        λ d k. k,
      )
    ]
