-- ===== src/Navigation/Routes/RoundTrip.antt =====
-- The address of a route leads back to the route.
use mathlib.Core.Option
use kafka_manager.Base.{
  ◌≡◌, refl, ◌≢◌, inl, inr, Option, none, some, [], ◌∷◌, ◌++◌, arith, Text, codes, bind-eq-some,
  some_inj, Option-cases, append_assoc,
}
use kafka_manager.Uri.{encode_uri_component}
use kafka_manager.Uri.RoundTrip.{decode-encode}
use kafka_manager.Uri.CodePoints.{AreUnits}
use kafka_manager.Uri.Safety.{encode-NoSlash, encode-ne-nil}
use kafka_manager.Navigation.Routes.{
  Page, dashboard, topics, TopicTab, overview, AppRoute, page_name, tab_name, page_of, tab_of,
  safe_decode, segments, split, or_else, parse_below, dashboard_only, parse_segments,
  parse_route_path, present, build_below, build_route_path,
}
use kafka_manager.Navigation.Routes.Split.{
  IsComponent, segments_root, segments_last, segments-append,
}

pub page_of-page_name : (p : Page) → page_of (page_name p) ≡ some p
unfolding page_of
page_of-page_name dashboard = refl
page_of-page_name _ = refl

pub tab_of-tab_name : (t : TopicTab) → tab_of (tab_name t) ≡ some t
unfolding tab_of
tab_of-tab_name overview = refl
tab_of-tab_name _ = refl

page_name-IsComponent : (p : Page) → IsComponent (page_name p)
page_name-IsComponent dashboard = (omega arith, λ e. cc)
page_name-IsComponent _ = (omega arith, λ e. cc)

tab_name-IsComponent : (t : TopicTab) → IsComponent (tab_name t)
tab_name-IsComponent overview = (omega arith, λ e. cc)
tab_name-IsComponent _ = (omega arith, λ e. cc)

-- The segments of the two long forms of an address.
module _ (enc : Text) (is_id : IsComponent enc) (p : Page) where
  abbrev base : Text
  base = codes "/clusters/" ++ (enc ++ (codes "/" ++ page_name p))

  clusters-IsComponent : IsComponent (codes "clusters")
  clusters-IsComponent = (omega arith, λ e. cc)

  segments_page : segments base ≡ codes "clusters" ∷ enc ∷ page_name p ∷ []
  segments_page = rw (
    segments_root,
    segments-append (codes "clusters") (enc ++ b'/' ∷ page_name p) clusters-IsComponent,
    segments-append enc (page_name p) is_id,
    segments_last (page_name p) (page_name-IsComponent p),
  )

  segments_topic :
      (name : Text) (t : TopicTab)
      → IsComponent name
      → segments (base ++ (codes "/" ++ (name ++ (codes "/" ++ tab_name t))))
        ≡ codes "clusters" ∷ enc ∷ page_name p ∷ name ∷ tab_name t ∷ []
  segments_topic name t h = rw (
    append_assoc,
    append_assoc,
    segments_root,
    segments-append (codes "clusters") _ clusters-IsComponent,
    segments-append enc _ is_id,
    segments-append (page_name p) _ (page_name-IsComponent p),
    segments-append name _ h,
    segments_last (tab_name t) (tab_name-IsComponent t),
  )

-- What an address can say of a route: the cluster, its page, and, on the topics page, the topic
-- with a tab. An independent description of `parse_route_path` after `build_route_path`.
abbrev topic_route : Text → Option Text → Option TopicTab → AppRoute
topic_route id none tab = record {
  page = topics;
  cluster_id = some id;
  topic_name = none;
  topic_tab = none;
}
topic_route id (some name) tab = record {
  page = topics;
  cluster_id = some id;
  topic_name = some name;
  topic_tab = some (or_else tab overview);
}

abbrev page_route : Text → Page → Option Text → Option TopicTab → AppRoute
page_route id topics name tab = topic_route id name tab
page_route id p name tab = record {
  page = p;
  cluster_id = some id;
  topic_name = none;
  topic_tab = none;
}

abbrev cluster_route : Option Text → Page → Option Text → Option TopicTab → AppRoute
cluster_route none p name tab = dashboard_only
cluster_route (some id) p name tab = page_route id p name tab

abbrev pub canonical : AppRoute → AppRoute
canonical r = cluster_route (present r.cluster_id) r.page (present r.topic_name) r.topic_tab

pub safe_decode-encode :
    (s : Text) {t : Text} → AreUnits s → encode_uri_component s ≡ some t → safe_decode t ≡ s
unfolding safe_decode
safe_decode-encode s u e = rw (decode-encode s u e, safe_decode)

encode-IsComponent :
    (s : Text) {t : Text} → AreUnits s → s ≢ [] → encode_uri_component s ≡ some t → IsComponent t
encode-IsComponent s u h e = (encode-NoSlash s u e, encode-ne-nil s u h e)

module _ (id enc : Text) (is_id : IsComponent enc) (decoded : safe_decode enc ≡ id) where
  parse_page : (p : Page) → parse_route_path (base enc is_id p) ≡ page_route id p none none
  unfolding parse_route_path parse_segments parse_below page_of Option.bind
  parse_page dashboard = rw (segments_page enc is_id dashboard, decoded)
  parse_page p = rw (segments_page enc is_id p, decoded)

  parse_topic :
      (name encoded : Text) (t : TopicTab)
      → IsComponent encoded
      → safe_decode encoded ≡ name
      → parse_route_path
          (base enc is_id topics ++ (codes "/" ++ (encoded ++ (codes "/" ++ tab_name t))))
        ≡ topic_route id (some name) (some t)
  unfolding parse_route_path parse_segments parse_below page_of Option.bind
  parse_topic name encoded t h e =
      rw (segments_topic enc is_id topics encoded t h, decoded, e, tab_of-tab_name t)

abbrev pub OptionUnits : Option Text → Type 0
OptionUnits none = Unit
OptionUnits (some s) = AreUnits s

present_inversion :
    (o : Option Text) {s : Text} → OptionUnits o → present o ≡ some s → AreUnits s × (s ≢ [])
present_inversion none u e = cc
present_inversion (some []) u e = cc
present_inversion (some (c ∷ s)) {s = t} u e = let same : t ≡ c ∷ s = cc in rw same (u, λ empty. cc)

abbrev IsName : Option Text → Type 0
IsName none = Unit
IsName (some name) = AreUnits name × (name ≢ [])

present-IsName : (o : Option Text) → OptionUnits o → IsName (present o)
present-IsName none u = tt
present-IsName (some []) u = tt
present-IsName (some (c ∷ s)) u = (u, λ e. cc)

parse_root : parse_route_path (codes "/") ≡ dashboard_only
unfolding parse_route_path parse_segments segments split
parse_root = refl

-- The route of an address, for each page and each form of the optional parts.
module _ (id : Text) (u : AreUnits id) (h : id ≢ []) {enc : Text}
    (e : encode_uri_component id ≡ some enc) (tab : Option TopicTab) where
  enc-IsComponent : IsComponent enc
  enc-IsComponent = encode-IsComponent id u h e

  parse_plain :
      (p : Page) → parse_route_path (base enc enc-IsComponent p) ≡ page_route id p none tab
  parse_plain topics = parse_page id enc enc-IsComponent (safe_decode-encode id u e) topics
  parse_plain dashboard = parse_page id enc enc-IsComponent (safe_decode-encode id u e) dashboard
  parse_plain p = parse_page id enc enc-IsComponent (safe_decode-encode id u e) p

  parse-build_below :
      (p : Page) (name : Option Text) {path : Text}
      → IsName name
      → build_below (base enc enc-IsComponent p) p name tab ≡ some path
      → parse_route_path path ≡ page_route id p name tab
  unfolding build_below
  parse-build_below topics (some name) v b =
      let (encoded, f, g) = bind-eq-some (encode_uri_component name) _ b in
      let found =
        parse_topic id enc enc-IsComponent (safe_decode-encode id u e) name encoded
          (or_else tab overview) (encode-IsComponent name v.0 v.1 f)
          (safe_decode-encode name v.0 f) in
      rw (← some_inj g) found
  parse-build_below p name v b = rw (← some_inj b) (parse_plain p)

-- The address of a route whose names are strings of 16-bit code units, if they can be encoded, is
-- read back as the same route, except for what an address does not hold: everything if no cluster
-- is given, the topic and the tab outside the topics page, and the tab without a topic. A topic
-- without a tab is opened on its overview.
pub parse-build :
    (r : AppRoute) {path : Text}
    → OptionUnits r.cluster_id
    → OptionUnits r.topic_name
    → build_route_path r ≡ some path
    → parse_route_path path ≡ canonical r
unfolding build_route_path
parse-build r {path} u v e = elim (Option-cases (present r.cluster_id)) [
  | inl absent ↦
      let root : codes "/" ≡ path = some_inj (rw (absent, build_route_path) at e) in
      rw absent (rw (← root) parse_root)
  | inr (id, given) ↦
      let (units, filled) = present_inversion r.cluster_id u given in
      let (encoded, f, g) =
        bind-eq-some (encode_uri_component id) _ (rw (given, build_route_path) at e) in
      rw given (
        parse-build_below id units filled f r.topic_tab r.page (present r.topic_name)
          (present-IsName r.topic_name v) g)
]
