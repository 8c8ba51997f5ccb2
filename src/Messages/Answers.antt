-- ===== src/Messages/Answers.antt =====
-- The answers to the queries of the page of messages, which come in any order, and the conditions
-- of its panel of filters.
use kafka_manager.Base.Search.{trim}
use kafka_manager.Types.{MessageRecord}
use kafka_manager.Base.{
  ℕ, zero, suc, ap, ◌∙◌, true, any, take, ◌==◌, is_empty, ◌≤◌, ◌≡◌, refl, false, not, some, List,
  [], ◌∷◌, arith, Text, length, map, text_eq, length-filter-le, length-append, if◌then◌else◌,
}
use kafka_manager.Filters.JsonValue.{Json}
use kafka_manager.Filters.{Number, MessageFilters, JsonFilterCondition, JsonOperator}
use kafka_manager.Messages.{
  MessageQueryResult, MessagesState, stop, received, query_answered, query_messages, meta_of,
  follow, on_message, add_json, remove_json, update_json,
}

-- Messages that a stream delivers, one after another.
pub deliver : ℕ → List MessageRecord → MessagesState → MessagesState
deliver source [] s = s
deliver source (m ∷ ms) s = deliver source ms (on_message source (some m) s)

-- The messages, the latest first, before those that were there.
abbrev pub latest_first : List MessageRecord → List MessageRecord → List MessageRecord
latest_first [] shown = shown
latest_first (m ∷ ms) shown = latest_first ms (m ∷ shown)

take-take : (j k : ℕ) (xs : List MessageRecord) → j ≤ k → take j (take k xs) ≡ take j xs
take-take zero k xs h = refl
take-take (suc j) zero xs h = absurd (omega (arith, h))
take-take (suc j) (suc k) [] h = refl
take-take (suc j) (suc k) (x ∷ xs) h = ap (◌∷◌ x) (take-take j k xs (omega (arith, h)))

-- A page that follows the source, and shows the last 500 of the messages.
abbrev Follows : ℕ → List MessageRecord → MessagesState → Type 0
Follows source delivered s =
    (s.live ≡ true) × (any (λ n. n == source) s.opened ≡ true) × (s.items ≡ take 500 delivered)

on_message-Follows :
    (source : ℕ) (m : MessageRecord) (xs : List MessageRecord) (s : MessagesState)
    → Follows source xs s
    → Follows source (m ∷ xs) (on_message source (some m) s)
unfolding on_message
on_message-Follows source m xs s (live, subscribed, items) = rw subscribed (
  live,
  subscribed,
  ap (λ ys. take 500 (m ∷ ys)) items ∙ ap (◌∷◌ m) (take-take 499 500 xs (omega arith)),
)

deliver-Follows :
    (source : ℕ) (ms xs : List MessageRecord) (s : MessagesState)
    → Follows source xs s
    → Follows source (latest_first ms xs) (deliver source ms s)
unfolding deliver
deliver-Follows source [] xs s h = h
deliver-Follows source (m ∷ ms) xs s h =
    deliver-Follows source ms (m ∷ xs) (on_message source (some m) s)
      (on_message-Follows source m xs s h)

module _ (stringify : Json → Text) (show_number : Number → Text) (epoch : Text → Text) where
  started-Follows :
      (s : MessagesState)
      → is_empty (trim s.topic) ≡ false
      → Follows s.next_source [] (follow (query_messages stringify show_number epoch s.topic s).0)
  unfolding query_messages follow stop
  started-Follows s h = rw h (refl, ground arith, refl)

  -- If the reader follows a topic while a query is still on its way, the page shows the last 500
  -- messages of the stream, the latest first, however many come, until the query is answered: then all
  -- of them are replaced by the answer, and the page goes on as if it followed.
  pub late_query_replaces_stream :
      (s : MessagesState) (ms : List MessageRecord) (a : MessageQueryResult)
      → is_empty (trim s.topic) ≡ false
      → let (asked, request) = query_messages stringify show_number epoch s.topic s in
        let t = deliver s.next_source ms (follow asked) in
        let u = query_answered request (received a) t in
        (t.items ≡ take 500 (latest_first ms []))
        × (t.live ≡ true)
        × (u.items ≡ a.items)
        × (u.query_meta ≡ some (meta_of a request.filters))
        × (u.live ≡ true)
        × (any (λ n. n == s.next_source) u.opened ≡ true)
  unfolding query_answered
  late_query_replaces_stream s ms a h =
      let (live, subscribed, items) = deliver-Follows s.next_source ms [] _ (started-Follows s h) in
      (items, live, refl, refl, live, subscribed)

-- What the panel does to the conditions.
pub data PanelEvent : Type 0 where
  add : Text → PanelEvent
  remove : Text → PanelEvent
  update : Text → (JsonFilterCondition → JsonFilterCondition) → PanelEvent

unfoldable pub panel_step : MessageFilters → PanelEvent → MessageFilters
panel_step f (add id) = add_json id f
panel_step f (remove id) = remove_json id f
panel_step f (update id patch) = update_json id patch f

pub panel_run : MessageFilters → List PanelEvent → MessageFilters
panel_run f [] = f
panel_run f (e ∷ es) = panel_run (panel_step f e) es

length-map :
    (g : JsonFilterCondition → JsonFilterCondition) (xs : List JsonFilterCondition)
    → length (map g xs) ≡ length xs
length-map g [] = refl
length-map g (x ∷ xs) = omega (arith, length-map g xs)

pub panel_step_bounded :
    (f : MessageFilters) (e : PanelEvent)
    → length f.json_filters ≤ 5
    → length (panel_step f e).json_filters ≤ 5
unfolding panel_step add_json remove_json update_json
panel_step_bounded f (add id) h = ground (
  arith,
  length-append {0} f.json_filters
      ((record { id = id; path = []; operator = JsonOperator.eq; value = [] }) ∷ []),
)
panel_step_bounded f (remove id) h =
    omega (arith, length-filter-le {0} (λ c. not (text_eq c.id id)) f.json_filters)
panel_step_bounded f (update id patch) h =
    omega (arith, length-map (λ c. if text_eq c.id id then patch c else c) f.json_filters)

-- However often conditions are added, removed and changed, a panel that starts with at most five
-- conditions has at most five.
pub panel_run_bounded :
    (f : MessageFilters) (es : List PanelEvent)
    → length f.json_filters ≤ 5
    → length (panel_run f es).json_filters ≤ 5
unfolding panel_run
panel_run_bounded f [] h = h
panel_run_bounded f (e ∷ es) h = panel_run_bounded (panel_step f e) es (panel_step_bounded f e h)
