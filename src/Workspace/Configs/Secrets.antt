-- ===== src/Workspace/Configs/Secrets.antt =====
-- What the list of a topic's configuration gives away.
use kafka_manager.Base.{◌≡◌, true, Option, arith, Text}
use kafka_manager.Workspace.Configs.{TopicConfig, shown_value}

-- Nothing of the value of a sensitive entry is shown: two entries that differ in it look the same.
shown_value-sensitive :
    (c : TopicConfig) (other : Option Text)
    → c.is_sensitive ≡ true
    → shown_value (record c { value = other }) ≡ shown_value c
unfolding shown_value
shown_value-sensitive c other h = ground (arith, h)
