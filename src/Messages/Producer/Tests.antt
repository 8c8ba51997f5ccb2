-- ===== src/Messages/Producer/Tests.antt =====
-- The theorem on the producer at concrete events.
use kafka_manager.Base.{Option, none, some, List, [], ◌∷◌, Text, codes, text_eq, if◌then◌else◌}
use kafka_manager.Messages.Producer.{text, json, stored, failed, Fields}
use kafka_manager.Messages.Producer.Sending.{
  ProducerEvent, choose, typed, submitted, answered, IsOrderly, producer_run, first_run,
  producer_run-first_run-IsOrderly,
}

-- The one text that does not parse.
abbrev broken_only : Text → Option Text
broken_only value = if text_eq value (codes "{") then some (codes "unexpected end") else none

abbrev to_orders : Fields
to_orders = record { topic = codes "orders"; partition = codes "-1"; key = [] }

abbrev attempts : List ProducerEvent
attempts =
    typed (codes "{")
    ∷ submitted to_orders
    ∷ choose text
    ∷ submitted to_orders
    ∷ submitted to_orders
    ∷ answered (failed (codes "refused"))
    ∷ choose json
    ∷ typed (codes "{}")
    ∷ submitted to_orders
    ∷ answered (stored 0 7)
    ∷ answered (stored 0 8)
    ∷ []

producer_run-first_run-IsOrderly_example :
    IsOrderly broken_only none (producer_run broken_only none (first_run broken_only none) attempts)
producer_run-first_run-IsOrderly_example =
    producer_run-first_run-IsOrderly broken_only none attempts
