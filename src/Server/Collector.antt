-- ===== src/Server/Collector.antt =====
-- `recordCollector` of internal/kafka/message/filter.go, and the loop of `Fetch` in
-- kafka_backend.go that feeds it with the records of the batches, one after the other.
pub mod Newer
pub mod Oldest
pub mod Collecting
pub mod Newest
pub mod First
use kafka_manager.Base.{
  ℕ, suc, zero, ◌+◌, ◌-◌, Bool, true, false, not, ◌&&◌, ◌||◌, Option, none, some, List, [], ◌∷◌,
  ◌++◌, ltb, leb, if◌then◌else◌, Text, codes, text_eq, length, get_elem?,
}
use kafka_manager.Base.Int.{ℤ, pos, negsuc, ◌-ℤ◌, is_positive, is_zero}
use kafka_manager.Base.Sort.{sort}
use kafka_manager.Server.{Record, Query, QueryResult, has_content_filters, at_least}
use kafka_manager.Server.Matching.{JsonLibrary, match_record}

abbrev equal : ℤ → ℤ → Bool
equal a b = is_zero (a -ℤ b)

abbrev greater : ℤ → ℤ → Bool
greater a b = is_positive (a -ℤ b)

unfoldable pub record_newer : Record → Record → Bool
record_newer left right =
    if not (equal left.timestamp right.timestamp)
    then greater left.timestamp right.timestamp
    else if not (equal left.partition right.partition)
    then greater left.partition right.partition
    else greater left.offset right.offset

-- `sort.SliceStable` with the order `less`, as a comparator.
abbrev pub by_order {ℓ} : {A : Type ℓ} → (A → A → Bool) → A → A → ℤ
by_order less a b = if less a b then negsuc 0 else if less b a then pos 1 else pos 0

pub record Collector : Type 0 where
  pub items : List Record
  pub scanned : ℕ
  pub matched : ℕ
  pub skipped_invalid_json : ℕ

unfoldable pub new_record_collector : Collector
new_record_collector = record { items = []; scanned = 0; matched = 0; skipped_invalid_json = 0 }

-- The search for the oldest item: the best index so far with its item, the next index, the rest.
unfoldable pub oldest_from : ℕ → Record → ℕ → List Record → ℕ
oldest_from best item index [] = best
oldest_from best item index (r ∷ rs) =
    let newer = record_newer item r in
    oldest_from (if newer then index else best) (if newer then r else item) (suc index) rs

unfoldable pub oldest : List Record → ℕ
oldest [] = 0
oldest (r ∷ rs) = oldest_from 0 r 1 rs

abbrev pub replace_at : ℕ → Record → List Record → List Record
replace_at i r [] = []
replace_at zero r (x ∷ xs) = r ∷ xs
replace_at (suc i) r (x ∷ xs) = x ∷ replace_at i r xs

-- The item at `oldest`; it is there, since a limit is at least 1.
unfoldable pub replace_oldest : Record → List Record → List Record
replace_oldest r items = elim (get_elem? items (oldest items)) [
  | none ↦ items
  | some item ↦ if record_newer r item then replace_at (oldest items) r items else items
]

-- Only the newest messages with certain contents are asked for: all are scanned.
abbrev pub is_selective : Query → Bool
is_selective q = text_eq q.mode (codes "latest") && has_content_filters q

module _ {F : Type 0} (library : JsonLibrary F) (q : Query) where
  unfoldable pub done : Collector → Bool
  done c =
      at_least c.scanned q.scan_limit || (not (is_selective q) && at_least (length c.items) q.limit)

  -- Subtraction on natural numbers stops at 0, as the code does.
  pub remaining_scan : Collector → ℕ
  remaining_scan c = elim q.scan_limit [ pos n ↦ n - c.scanned | negsuc n ↦ 0 ]

  unfoldable pub keep : Record → List Record → List Record
  keep r items =
      if is_selective q && at_least (length items) q.limit
      then replace_oldest r items
      else items ++ r ∷ []

  unfoldable pub add : Record → Collector → Collector × Bool
  add r c =
      if done c
      then (c, false)
      else let (matched, invalid_json) = match_record library r q in
        let next : Collector = record {
          items = if matched then keep r c.items else c.items;
          scanned = c.scanned + 1;
          matched = c.matched + (if matched then 1 else 0);
          skipped_invalid_json = c.skipped_invalid_json + (if invalid_json then 1 else 0);
        } in
        (next, not (done next))

  unfoldable pub result : Collector → QueryResult
  result c = record {
    items =
        if text_eq q.mode (codes "latest") then sort (by_order record_newer) c.items else c.items;
    scanned = c.scanned;
    matched = c.matched;
    skipped_invalid_json = c.skipped_invalid_json;
    result_limited =
        if is_selective q then ltb (length c.items) c.matched else at_least c.matched q.limit;
    scan_limited = at_least c.scanned q.scan_limit;
  }

  -- The records that the server is sent, until the collector is done.
  unfoldable pub collect : List Record → Collector → Collector
  collect [] c = c
  collect (r ∷ rs) c = let next = if done c then c else (add r c).0 in collect rs next

  unfoldable pub fetch : List Record → QueryResult
  fetch rs = result (collect rs new_record_collector)
