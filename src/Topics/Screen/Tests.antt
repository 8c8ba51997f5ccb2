-- ===== src/Topics/Screen/Tests.antt =====
-- The page before the first answer, on a read-only cluster.
use kafka_manager.Base.{refl, inl, inr, true, false, codes, []}
use kafka_manager.Markup.{Offered}
use kafka_manager.Markup.Dialog.{page_header}
use kafka_manager.Topics.{start, NewTopic, CreateState}
use kafka_manager.Topics.Screen.{type_query, page_items}

abbrev new_topic : NewTopic
new_topic = record { name = []; partitions = codes "3"; replication_factor = codes "1" }

abbrev idle : CreateState
idle = record { error = []; submitting = false }

query-Offered :
    Offered
      (type_query (codes "a"))
      (page_items true new_topic idle (start (record { items = []; serial = 0 })))
unfolding page_items page_header start
query-Offered = inr (inr (inr (inr (inl (codes "a", refl)))))
