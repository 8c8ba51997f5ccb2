-- ===== src/Types.antt =====
-- web/src/lib/types.ts: the data that the server sends and that several pages share. The data of
-- consumer groups stands in Consumers. `any?` fields are options; counts are natural numbers.
use kafka_manager.Base.{ℕ, Bool, Option, List, Text}
use kafka_manager.Base.Int.{ℤ}

pub data Status : Type 0 where
  loading online offline : Status

pub record Cluster : Type 0 where
  pub id : Text
  pub name : Text
  pub status : Option Status
  pub is_online : Bool
  pub error : Option Text
  pub sampled_at : Option ℕ
  pub latency_ms : ℕ
  pub brokers : ℕ
  pub topics : ℕ
  pub partitions : ℕ
  pub consumer_groups : ℕ
  pub under_replicated : ℕ
  pub total_lag : ℤ
  pub lag_available : Option Bool
  pub lag_error : Option Text
  pub read_only : Bool

pub record TopicPartition : Type 0 where
  pub id : ℕ
  pub leader : ℤ
  pub replicas : List ℕ
  pub isr : List ℕ
  pub offline_replicas : List ℕ

pub record Topic : Type 0 where
  pub name : Text
  pub is_internal : Bool
  pub partition_count : ℕ
  pub replication_factor : ℕ
  pub under_replicated : ℕ
  pub partitions : List TopicPartition

pub record DashboardPoint : Type 0 where
  pub timestamp : ℕ
  pub total_lag : ℤ
  pub partitions : ℕ
  pub topics : ℕ

pub record Header : Type 0 where
  pub key : Text
  pub value : Text

pub record MessageRecord : Type 0 where
  pub topic : Text
  pub partition : ℕ
  pub offset : ℕ
  pub timestamp : ℤ
  pub key : Text
  pub value : Text
  pub headers : List Header
