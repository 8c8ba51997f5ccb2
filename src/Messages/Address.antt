-- ===== src/Messages/Address.antt =====
-- The effect of web/src/pages/MessagesPage.tsx that keeps the filters in the address, and the state
-- that the page starts with when the address is opened. The text of `URLSearchParams` is a
-- parameter: the constructor as `parse_params`, and `toString`.
use kafka_manager.Base.{◌≡◌, refl, ap, ◌∙◌, [], ◌∷◌, ◌++◌, Option, Text, is_empty, if◌then◌else◌}
use kafka_manager.SearchParams.{Params}
use kafka_manager.Filters.JsonValue.{Json}
use kafka_manager.Filters.{
  Number, MessageFilters, parse_message_filters, replace_message_filter_params,
}
use kafka_manager.Filters.Sharing.{IsFaithful, shared, parse-replace}

-- `window.location`, as far as it is read here.
pub record Location : Type 0 where
  pub pathname : Text
  pub search : Text
  pub hash : Text

abbrev pub query_of : Text → Text
query_of query = if is_empty query then [] else b'?' ∷ query

module _ (parse_params : Text → Params) (to_string : Params → Text) where
  -- The state `filters` when the page is mounted.
  pub initial_filters : (Text → Option Json) → (Text → Number) → Location → MessageFilters
  initial_filters parse read_number here =
      parse_message_filters parse read_number (parse_params here.search)

  module _ (stringify : Json → Text) (show_number : Number → Text) where
    abbrev pub next_params : MessageFilters → Location → Params
    next_params filters here =
        replace_message_filter_params stringify show_number (parse_params here.search) filters

    -- The URL that replaces the one of the page, and the location after that.
    pub replaced_url : MessageFilters → Location → Text
    replaced_url filters here =
        here.pathname ++ (query_of (to_string (next_params filters here)) ++ here.hash)

    pub filters_effect : MessageFilters → Location → Location
    filters_effect filters here = record here {
      search = query_of (to_string (next_params filters here));
    }

-- What is relied on of `URLSearchParams`: a query is read back from its text, with a question mark
-- before it, and a question mark alone is an empty query.
pub record IsReadBack (parse_params : Text → Params) (to_string : Params → Text) (ps : Params)
    : Type 0 where
  pub text : parse_params (b'?' ∷ to_string ps) ≡ ps
  pub bare : parse_params [] ≡ parse_params (b'?' ∷ [])

module _ (parse_params : Text → Params) (to_string : Params → Text) (stringify : Json → Text)
    (parse : Text → Option Json) (show_number : Number → Text) (read_number : Text → Number) where
  query_of-IsReadBack :
      (ps : Params)
      → IsReadBack parse_params to_string ps
      → parse_params (query_of (to_string ps)) ≡ ps
  query_of-IsReadBack ps h = go (to_string ps) h.text
    where
      go : (t : Text) → parse_params (b'?' ∷ t) ≡ ps → parse_params (query_of t) ≡ ps
      go [] e = h.bare ∙ e
      go (c ∷ t) e = e

  -- The filters that a page shows are those of its address: once the effect has run, opening the
  -- page at its address starts it with these filters, as an address carries them (trimmed, without
  -- the operators of absent filters, with a clamped scan limit and at most five conditions). The URL
  -- that the history is given is that address. It is taken that `JSON.parse` and `Number` invert
  -- `JSON.stringify` and `String` at the values written, and that the query is read back.
  pub filters_effect-initial_filters :
      (filters : MessageFilters) (here : Location)
      → IsFaithful stringify parse show_number read_number filters
      → IsReadBack parse_params to_string
          (next_params parse_params to_string stringify show_number filters here)
      → let there = filters_effect parse_params to_string stringify show_number filters here in
        (initial_filters parse_params to_string parse read_number there ≡ shared filters)
        × (replaced_url parse_params to_string stringify show_number filters here
            ≡ there.pathname ++ (there.search ++ there.hash))
  unfolding initial_filters filters_effect replaced_url
  filters_effect-initial_filters filters here faithful back = (
    ap (parse_message_filters parse read_number) (query_of-IsReadBack _ back)
        ∙ parse-replace stringify parse show_number read_number (parse_params here.search) filters
            faithful,
    refl,
  )
