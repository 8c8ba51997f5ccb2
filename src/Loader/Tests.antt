-- ===== src/Loader/Tests.antt =====
-- The theorem on the pages that load a list, with a late answer.
use kafka_manager.Base.{◌≡◌, refl, List, [], ◌∷◌, codes}
use kafka_manager.Loader.{LoadEvent, started, answered, load_run, ends_started}
use kafka_manager.Loader.Pages.{groups_loader, topics_loader, audit_loader, pages_loading}
use kafka_manager.Consumers.Page
use kafka_manager.Consumers.Page.{ConsumersState, GroupsAnswer}
use kafka_manager.Topics
use kafka_manager.Topics.{TopicsState, TopicsAnswer}
use kafka_manager.Audit
use kafka_manager.Audit.{AuditState, AuditAnswer}

abbrev groups_page : ConsumersState
groups_page = Page.start

abbrev topics_page : TopicsState
topics_page = Topics.start (record { items = []; serial = 0 })

abbrev audit_page : AuditState
audit_page = Audit.start

abbrev one_start : List (LoadEvent GroupsAnswer)
one_start = started ∷ []

abbrev none_yet : List (LoadEvent AuditAnswer)
none_yet = []

abbrev two_searches : List (LoadEvent TopicsAnswer)
two_searches = started ∷ started ∷ answered (TopicsAnswer.listed []) ∷ []

pages_loading_example :
    ((load_run (groups_loader (codes "k") refl) groups_page one_start).loading
      ≡ ends_started groups_page.loading one_start)
    × ((load_run (topics_loader (codes "k") refl (codes "a")) topics_page two_searches).loading
        ≡ ends_started topics_page.loading two_searches)
    × ((load_run audit_loader audit_page none_yet).loading
        ≡ ends_started audit_page.loading none_yet)
pages_loading_example =
    pages_loading (codes "k") (codes "a") refl groups_page topics_page audit_page one_start
      two_searches none_yet
