-- ===== src/App/Topics.antt =====
-- The topic of the address: how it is found, and when it is shown.
use kafka_manager.Base.{
  ◌+◌, ◌≤◌, ◌≡◌, ◌≢◌, true, false, none, some, List, [], ◌∷◌, ◌++◌, arith, Text, is_empty, text_eq,
  text_eq_iff, text_eq_refl, All, ap, sym, ◌∙◌, some_inj, Bool-cases, inl, inr,
}
use kafka_manager.Types.{Topic}
use kafka_manager.App.{AppState, cluster_id, or_empty, or_empty}
use kafka_manager.App.Content.{content_at, content_at, View, content}
use kafka_manager.App.Selection.{
  select_exact_topic, TopicAnswer, is_selected, is_ready, run_effect, is_ready, run_effect,
  TopicRequest, load_effect, topic_effect, topic_answered,
}

-- The first topic of a list with exactly the name, where it stands.
pub record IsFirst (items : List Topic) (name : Text) (t : Topic) : Type 0 where
  pub before : List Topic
  pub after : List Topic
  pub place : items ≡ before ++ t ∷ after
  pub same : t.name ≡ name
  pub others : All (λ i. i.name ≢ name) before

IsFirst-cons :
    (i : Topic) {items : List Topic} {name : Text} {t : Topic}
    → i.name ≢ name
    → IsFirst items name t
    → IsFirst (i ∷ items) name t
IsFirst-cons i h f = record {
  before = i ∷ f.before;
  after = f.after;
  place = ap (◌∷◌ i) f.place;
  same = f.same;
  others = (h, f.others);
}

differs : (s t : Text) → text_eq s t ≡ false → s ≢ t
differs s t h e = cc (rw e at h, text_eq_refl t)

-- A topic is selected only if it is the first one with exactly the name; a topic whose name merely
-- contains it is not.
pub select_exact_topic_sound :
    (items : List Topic) (name : Text) {t : Topic}
    → select_exact_topic items name ≡ some t
    → IsFirst items name t
unfolding select_exact_topic
select_exact_topic_sound [] name e = cc
select_exact_topic_sound (i ∷ items) name {t} e = elim (Bool-cases (text_eq i.name name)) [
  | inl same ↦
      let it : t ≡ i = sym (some_inj (rw (same, select_exact_topic) at e)) in
      record {
        before = [];
        after = items;
        place = rw it;
        same = rw it ((text_eq_iff i.name name).0 same);
        others = tt;
      }
  | inr other ↦
      IsFirst-cons i (differs i.name name other)
        (select_exact_topic_sound items name (rw (other, select_exact_topic) at e))
]

-- No topic is selected only if none has the name.
pub select_exact_topic-none :
    (items : List Topic) (name : Text)
    → select_exact_topic items name ≡ none
    → All (λ i. i.name ≢ name) items
unfolding select_exact_topic
select_exact_topic-none [] name e = tt
select_exact_topic-none (i ∷ items) name e = elim (Bool-cases (text_eq i.name name)) [
  | inl same ↦ cc (rw (same, select_exact_topic) at e)
  | inr other ↦ (
    differs i.name name other,
    select_exact_topic-none items name (rw (other, select_exact_topic) at e),
  )
]

-- A logged-in reader at the address of the topic `name`, with the clusters loaded.
pub record IsAtTopic (s : AppState) (id name : Text) : Type 0 where
  pub ready : is_ready s ≡ true
  pub cluster : cluster_id s ≡ id
  pub has_cluster : is_empty id ≡ false
  pub topic : or_empty s.route.topic_name ≡ name
  pub has_topic : is_empty name ≡ false

abbrev pub with_run : AppState → AppState
with_run s = record s { generation = s.generation + 1 }

run_effect_ready :
    (id name : Text) (s : AppState)
    → is_empty id ≡ false
    → is_empty name ≡ false
    → run_effect true id name s ≡ load_effect id name s
unfolding run_effect
run_effect_ready id name s p q = rw (p, q)

module _ (s : AppState) (id name : Text) (h : IsAtTopic s id name) where
  pub effect_of_topic : topic_effect s ≡ load_effect id name (with_run s)
  unfolding topic_effect
  effect_of_topic =
      (λ i. run_effect (h.ready i) (h.cluster i) (h.topic i) (with_run s))
      ∙ run_effect_ready id name (with_run s) h.has_cluster h.has_topic

  pub effect_selected :
      is_selected id name s.selected_topic ≡ true → topic_effect s ≡ (with_run s, none)
  unfolding load_effect
  effect_selected e = effect_of_topic ∙ rw (e, load_effect)

stale_answer :
    (s : AppState) (r : TopicRequest) (answer : TopicAnswer)
    → r.generation ≤ s.generation
    → topic_answered r answer (with_run s) ≡ with_run s
unfolding topic_answered
stale_answer s r answer g = ground arith

content_loading :
    (id name : Text) (s : AppState)
    → is_empty name ≡ false
    → s.topic_loading ≡ true
    → content_at id name s ≡ View.loading
unfolding content_at
content_loading id name s h l = ground arith

loading_with_run :
    (s : AppState) (id name : Text)
    → IsAtTopic s id name
    → s.topic_loading ≡ true
    → content (with_run s) ≡ View.loading
unfolding content cluster_id
loading_with_run s id name h l =
    (λ i. content_at (h.cluster i) (h.topic i) (with_run s))
    ∙ content_loading id name (with_run s) h.has_topic l

-- A logged-in reader, with the clusters loaded, who is at the address of the selected topic while
-- the loading of another one has not ended: the effect sends no request, and after any answer to a
-- request of that run or an earlier one the page still shows that it is loading.
pub return_stuck :
    (s : AppState) (id name : Text)
    → IsAtTopic s id name
    → is_selected id name s.selected_topic ≡ true
    → s.topic_loading ≡ true
    → (r : TopicRequest) (answer : TopicAnswer) → r.generation ≤ s.generation
    → let (t, request) = topic_effect s in
      (request ≡ none) × (content (topic_answered r answer t) ≡ View.loading)
return_stuck s id name h e l r answer g =
    let step : topic_effect s ≡ (with_run s, none) = effect_selected s id name h e in
    (
      ap (λ p. p.1) step,
      ap (λ p. content (topic_answered r answer p.0)) step
          ∙ ap content (stale_answer s r answer g)
          ∙ loading_with_run s id name h l,
    )
