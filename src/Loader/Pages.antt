-- ===== src/Loader/Pages.antt =====
-- The pages that load a list: consumer groups, topics and the audit log.
use kafka_manager.Base.{◌≡◌, refl, true, false, List, Text, is_empty, arith}
use kafka_manager.Loader.{Loader, LoadEvent, load_run, ends_started, is_loading-load_run}
use kafka_manager.Consumers.Page
use kafka_manager.Consumers.Page.{ConsumersState, GroupsAnswer}
use kafka_manager.Topics
use kafka_manager.Topics.{TopicsState, TopicsAnswer}
use kafka_manager.Audit
use kafka_manager.Audit.{AuditState, AuditAnswer}

module _ (id : Text) (known : is_empty id ≡ false) where
  groups_started : (s : ConsumersState) → (Page.load id s).0.loading ≡ true
  unfolding Page.load
  groups_started s = ground (arith, known)

  groups_answered :
      (a : GroupsAnswer) (s : ConsumersState) → (Page.load_answered a s).loading ≡ false
  unfolding Page.load_answered
  groups_answered (GroupsAnswer.failed m) s = refl
  groups_answered (GroupsAnswer.listed gs) s = refl

  pub groups_loader : Loader ConsumersState GroupsAnswer
  groups_loader = record {
    start_load = λ s. (Page.load id s).0;
    finish_load = Page.load_answered;
    is_loading = λ s. s.loading;
    start_law = groups_started;
    finish_law = groups_answered;
  }

  topics_started :
      (deferred : Text) (s : TopicsState) → (Topics.load id deferred s).0.loading ≡ true
  unfolding Topics.load
  topics_started deferred s = ground (arith, known)

  topics_answered :
      (a : TopicsAnswer) (s : TopicsState) → (Topics.load_answered a s).loading ≡ false
  unfolding Topics.load_answered
  topics_answered (TopicsAnswer.failed m) s = refl
  topics_answered (TopicsAnswer.listed ts) s = refl

  pub topics_loader : Text → Loader TopicsState TopicsAnswer
  topics_loader deferred = record {
    start_load = λ s. (Topics.load id deferred s).0;
    finish_load = Topics.load_answered;
    is_loading = λ s. s.loading;
    start_law = topics_started deferred;
    finish_law = topics_answered;
  }

audit_started : (s : AuditState) → (Audit.load s).loading ≡ true
unfolding Audit.load
audit_started s = refl

audit_answered : (a : AuditAnswer) (s : AuditState) → (Audit.load_answered a s).loading ≡ false
unfolding Audit.load_answered
audit_answered (AuditAnswer.failed m) s = refl
audit_answered (AuditAnswer.listed es) s = refl

pub audit_loader : Loader AuditState AuditAnswer
audit_loader = record {
  start_load = Audit.load;
  finish_load = Audit.load_answered;
  is_loading = λ s. s.loading;
  start_law = audit_started;
  finish_law = audit_answered;
}

-- On the pages for consumer groups and topics, once a cluster is known, and on the page of the audit
-- log, whatever requests are started and answered, in whatever order: a page shows that it is loading
-- exactly if its last event started a request. So an answer to an earlier request ends the
-- indication, although a later one is still awaited.
pub pages_loading :
    (id deferred : Text) (known : is_empty id ≡ false) (g : ConsumersState) (t : TopicsState)
    (a : AuditState) (gs : List (LoadEvent GroupsAnswer)) (ts : List (LoadEvent TopicsAnswer))
    (as' : List (LoadEvent AuditAnswer))
    → ((load_run (groups_loader id known) g gs).loading ≡ ends_started g.loading gs)
      × ((load_run (topics_loader id known deferred) t ts).loading ≡ ends_started t.loading ts)
      × ((load_run audit_loader a as').loading ≡ ends_started a.loading as')
unfolding groups_loader topics_loader audit_loader
pages_loading id deferred known g t a gs ts as' = (
  is_loading-load_run (groups_loader id known) g gs,
  is_loading-load_run (topics_loader id known deferred) t ts,
  is_loading-load_run audit_loader a as',
)
