-- ===== src/App/Loading.antt =====
-- A topic that is found: that it is shown, and asked for once.
use kafka_manager.Base.{
  ◌+◌, ◌≡◌, refl, true, false, none, some, List, [], arith, ◌==◌, ==_iff, Text, is_empty,
  text_eq_refl, ap, ◌∙◌, if◌then◌else◌,
}
use kafka_manager.Types.{Topic}
use kafka_manager.App.{AppState, cluster_id}
use kafka_manager.App.Content.{or_overview, content_at, content, workspace}
use kafka_manager.App.Selection.{
  select_exact_topic, listed, found, load_topic, take_result, is_topic, is_selected, TopicRequest,
  load_effect, topic_effect, topic_answered,
}
use kafka_manager.App.Topics.{
  IsAtTopic, select_exact_topic_sound, with_run, effect_of_topic, effect_selected,
}

abbrev asking : AppState → AppState
asking s = record (with_run s) { topic_loading = true; topic_error = [] }

abbrev asked : AppState → Text → Text → TopicRequest
asked s id name = record { generation = s.generation + 1; id = id; name = name }

abbrev shows : AppState → Text → Topic → AppState
shows s id t = record (asking s) {
  selected_topic = some (record { cluster_id = id; item = t });
  topic_loading = false;
}

effect_asks :
    (s : AppState) (id name : Text)
    → IsAtTopic s id name
    → is_selected id name s.selected_topic ≡ false
    → topic_effect s ≡ (asking s, some (asked s id name))
unfolding load_effect
effect_asks s id name h e = effect_of_topic s id name h ∙ rw (e, load_effect)

answer_shows :
    (s : AppState) (id name : Text) (items : List Topic) {t : Topic}
    → select_exact_topic items name ≡ some t
    → topic_answered (asked s id name) (listed items) (asking s) ≡ shows s id t
unfolding topic_answered load_topic
answer_shows s id name items {t} e =
    let loaded : load_topic name (listed items) ≡ found t = rw (e, load_topic) in
    let same : (s.generation + 1 == s.generation + 1) ≡ true = (==_iff _ _).1 refl in
    λ i. if same i then take_result (asked s id name) (loaded i) (asking s) else asking s

is_topic-found :
    (id name : Text) (items : List Topic) {t : Topic}
    → select_exact_topic items name ≡ some t
    → is_topic id name (record { cluster_id = id; item = t }) ≡ true
is_topic-found id name items {t} e =
    ground (arith, text_eq_refl id, text_eq_refl name, (select_exact_topic_sound items name e).same)

content_shown :
    (s : AppState) (id name : Text) (t : Topic)
    → is_empty name ≡ false
    → is_topic id name (record { cluster_id = id; item = t }) ≡ true
    → content_at id name (shows s id t) ≡ workspace t (or_overview s.route.topic_tab)
unfolding content_at
content_shown s id name t h e = ground (arith, h, e)

shows-IsAtTopic :
    (s : AppState) (id name : Text) (t : Topic)
    → IsAtTopic s id name
    → IsAtTopic (shows s id t) id name
unfolding cluster_id
shows-IsAtTopic s id name t h = record {
  ready = h.ready;
  cluster = h.cluster;
  has_cluster = h.has_cluster;
  topic = h.topic;
  has_topic = h.has_topic;
}

-- A logged-in reader, with the clusters loaded, at the address of a topic that is not the selected
-- one: the effect asks for that topic, and when the answer lists it, the page shows its workspace on
-- the tab of the address, and the next run of the effect asks for nothing.
pub load_shows :
    (s : AppState) (id name : Text)
    → IsAtTopic s id name
    → is_selected id name s.selected_topic ≡ false
    → (items : List Topic) {t : Topic} → select_exact_topic items name ≡ some t
    → (r : TopicRequest) × ((topic_effect s).1 ≡ some r)
      × (content (topic_answered r (listed items) (topic_effect s).0)
          ≡ workspace t (or_overview s.route.topic_tab))
      × ((topic_effect (topic_answered r (listed items) (topic_effect s).0)).1 ≡ none)
unfolding content
load_shows s id name h e items {t} f =
    let r : TopicRequest = asked s id name in
    let effect : topic_effect s ≡ (asking s, some r) = effect_asks s id name h e in
    let at : IsAtTopic (shows s id t) id name = shows-IsAtTopic s id name t h in
    let is : is_topic id name (record { cluster_id = id; item = t }) ≡ true =
      is_topic-found id name items f in
    let after : topic_answered r (listed items) (topic_effect s).0 ≡ shows s id t =
      ap (λ p. topic_answered r (listed items) p.0) effect ∙ answer_shows s id name items f in
    (
      r,
      ap (λ p. p.1) effect,
      ap content after
          ∙ (λ i. content_at (at.cluster i) (at.topic i) (shows s id t))
          ∙ content_shown s id name t h.has_topic is,
      ap (λ u. (topic_effect u).1) after
          ∙ ap (λ p. p.1) (effect_selected (shows s id t) id name at is),
    )
