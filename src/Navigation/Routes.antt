-- ===== src/Navigation/Routes.antt =====
-- web/src/navigation/routes.ts: the address of each page.
-- A `Set` of page names is the list of constructors that `page_of` goes through; `undefined` is
-- `none`. An exception of `encodeURIComponent` (`URIError`) is the result `none`.
pub mod Split
pub mod RoundTrip
pub mod Dots
mod Tests
use mathlib.Core.Option
use kafka_manager.Base.{
  ℕ, Bool, not, ◌||◌, Option, none, some, List, [], ◌∷◌, ◌++◌, ◌==◌, if◌then◌else◌, Text, codes,
  is_empty, text_eq, filter, get_elem?,
}
use kafka_manager.Uri.{encode_uri_component, decode_uri_component}

pub data Page : Type 0 where
  dashboard topics messages consumers settings audit : Page

-- `TopicTab.messages` shares its name with `Page.messages`.
pub data TopicTab : Type 0 where
  overview messages partitions config : TopicTab

pub record AppRoute : Type 0 where
  pub page : Page
  pub cluster_id : Option Text
  pub topic_name : Option Text
  pub topic_tab : Option TopicTab

abbrev pub page_name : Page → Text
page_name dashboard = codes "dashboard"
page_name topics = codes "topics"
page_name Page.messages = codes "messages"
page_name consumers = codes "consumers"
page_name settings = codes "settings"
page_name audit = codes "audit"

abbrev pub tab_name : TopicTab → Text
tab_name overview = codes "overview"
tab_name TopicTab.messages = codes "messages"
tab_name partitions = codes "partitions"
tab_name config = codes "config"

-- The member of `pages` with the given name.
pub page_of : Text → Option Page
page_of s =
    if text_eq s (page_name dashboard)
    then some dashboard
    else if text_eq s (page_name topics)
    then some topics
    else if text_eq s (page_name Page.messages)
    then some Page.messages
    else if text_eq s (page_name consumers)
    then some consumers
    else if text_eq s (page_name settings)
    then some settings
    else if text_eq s (page_name audit)
    then some audit
    else none

pub tab_of : Text → Option TopicTab
tab_of s =
    if text_eq s (tab_name overview)
    then some overview
    else if text_eq s (tab_name TopicTab.messages)
    then some TopicTab.messages
    else if text_eq s (tab_name partitions)
    then some partitions
    else if text_eq s (tab_name config)
    then some config
    else none

abbrev pub push_first : ℕ → List Text → List Text
push_first c [] = (c ∷ []) ∷ []
push_first c (s ∷ ss) = (c ∷ s) ∷ ss

-- `s.split(c)` at a single character.
unfoldable pub split : ℕ → Text → List Text
split c [] = [] ∷ []
split c (x ∷ s) = let rest = split c s in if x == c then [] ∷ rest else push_first x rest

pub safe_decode : Text → Text
safe_decode s = elim (decode_uri_component s) [ some t ↦ t | none ↦ s ]

pub segments : Text → List Text
segments pathname = filter (λ s. not (is_empty s)) (split b'/' pathname)

abbrev or_else {ℓ} : {A : Type ℓ} → Option A → A → A
or_else none d = d
or_else (some a) d = a

-- The route below `/clusters/:id`, from the segments that follow.
pub parse_below : Text → List Text → AppRoute
parse_below cluster rest =
    let page = or_else (Option.bind (get_elem? rest 0) page_of) dashboard in
    let plain : AppRoute = record {
      page = page;
      cluster_id = some cluster;
      topic_name = none;
      topic_tab = none;
    } in
    elim page [
      | topics ↦ elim (get_elem? rest 1) [
        | none ↦ plain
        | some name ↦ record plain {
          topic_name = some (safe_decode name);
          topic_tab = some (or_else (Option.bind (get_elem? rest 2) tab_of) overview);
        }
      ]
      | _ ↦ plain
    ]

abbrev dashboard_only : AppRoute
dashboard_only = record { page = dashboard; cluster_id = none; topic_name = none; topic_tab = none }

pub parse_segments : List Text → AppRoute
parse_segments (first ∷ id ∷ rest) =
    if text_eq first (codes "clusters") then parse_below (safe_decode id) rest else dashboard_only
parse_segments _ = dashboard_only

pub parse_route_path : Text → AppRoute
parse_route_path pathname = parse_segments (segments pathname)

-- `!value` for an optional string: absent or empty.
abbrev pub present : Option Text → Option Text
present none = none
present (some []) = none
present (some (c ∷ s)) = some (c ∷ s)

-- What follows the cluster and the page in an address.
unfoldable pub build_below : Text → Page → Option Text → Option TopicTab → Option Text
build_below base topics (some name) tab = Option.bind (encode_uri_component name) λ encoded.
    some (base ++ (codes "/" ++ (encoded ++ (codes "/" ++ tab_name (or_else tab overview)))))
build_below base _ _ tab = some base

unfoldable pub build_route_path : AppRoute → Option Text
build_route_path r = elim (present r.cluster_id) [
  | none ↦ some (codes "/")
  | some id ↦ Option.bind (encode_uri_component id) λ encoded.
      build_below (codes "/clusters/" ++ (encoded ++ (codes "/" ++ page_name r.page))) r.page
        (present r.topic_name) r.topic_tab
]
