-- ===== src/Topics/Tests.antt =====
-- The request for topics at a concrete search.
use kafka_manager.Base.{◌≡◌, refl, some, codes}
use kafka_manager.Uri.{uri_functions}
use kafka_manager.Topics.{topics_path}

and_path :
    topics_path (codes "k") (codes "a&b")
    ≡ some (codes "/api/v1/clusters/k/topics?search=a%26b&pageSize=200")
unfolding topics_path uri_functions
and_path = refl
