-- ===== src/Navigation/Routes/Tests.antt =====
-- Runs of routes.ts, and its theorems at concrete routes.
use kafka_manager.Base.{◌≡◌, refl, some, none, [], ◌∷◌, arith, codes, Text}
use kafka_manager.Uri.{encode_uri_component, decode_uri_component, uri_functions}
use kafka_manager.Navigation.Routes.{
  dashboard, topics, consumers, AppRoute, TopicTab, overview, build_below, build_route_path,
  parse_route_path, parse_segments, parse_below, page_of, tab_of, segments, split, safe_decode,
  dashboard_only,
}
use kafka_manager.Navigation.Routes.RoundTrip.{canonical, parse-build}
use mathlib.Core.Option

routes : Unit {0}
unfolding uri_functions build_route_path build_below parse_route_path parse_segments parse_below
    page_of tab_of segments split safe_decode Option.bind
routes = tt

abbrev reserved : AppRoute
reserved = record {
  page = topics;
  cluster_id = some (codes "测试 / 内网");
  topic_name = some (codes "orders/中国.v1");
  topic_tab = some TopicTab.messages;
}

abbrev reserved_path : Text
reserved_path =
    codes
      "/clusters/%E6%B5%8B%E8%AF%95%20%2F%20%E5%86%85%E7%BD%91/topics/orders%2F%E4%B8%AD%E5%9B%BD.v1/messages"

reserved_builds : build_route_path reserved ≡ some reserved_path
unfolding routes
reserved_builds = refl

unknown_paths :
    (parse_route_path (codes "/something/unknown") ≡ dashboard_only)
    × (parse_route_path (codes "/clusters/dev/topics/orders/not-a-tab") ≡ record {
      page = topics;
      cluster_id = some (codes "dev");
      topic_name = some (codes "orders");
      topic_tab = some overview;
    })
unfolding routes
unknown_paths = (refl, refl)

-- A smiling face takes two code units and four bytes.
surrogates :
    (encode_uri_component (0xD83D ∷ 0xDE00 ∷ []) ≡ some (codes "%F0%9F%98%80"))
    × (decode_uri_component (codes "%F0%9F%98%80") ≡ some (0xD83D ∷ 0xDE00 ∷ []))
    × (encode_uri_component (0xD83D ∷ []) ≡ none)
    × (decode_uri_component (codes "%C0%80") ≡ none)
    × (decode_uri_component (codes "100%") ≡ none)
    × (parse_route_path (codes "/clusters/100%/audit") ≡ record {
      page = kafka_manager.Navigation.Routes.Page.audit;
      cluster_id = some (codes "100%");
      topic_name = none;
      topic_tab = none;
    })
unfolding routes
surrogates = (refl, refl, refl, refl, refl, refl)

parse-build_example : parse_route_path reserved_path ≡ canonical reserved
parse-build_example = parse-build reserved (omega arith) (omega arith) reserved_builds
