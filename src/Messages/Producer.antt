-- ===== src/Messages/Producer.antt =====
-- `Producer` of web/src/pages/MessagesPage.tsx: the form that sends a message. `JSON.parse` is a
-- parameter, as the message of the exception that it throws for a text, if it throws one; number
-- inputs are kept as `String` prints them.
pub mod Sending
mod Tests
use kafka_manager.Base.{
  ℕ, Bool, true, false, Option, none, some, List, [], ◌∷◌, ◌++◌, if◌then◌else◌, Text, codes,
  is_empty,
}
use kafka_manager.Base.Decimal.{decimal}

pub data Kind : Type 0 where
  json text : Kind

pub record ProducerState : Type 0 where
  pub error : Text
  pub success : Text
  pub sending : Bool
  pub kind : Kind
  pub value : Text

pub start : ProducerState
start = record {
  error = [];
  success = [];
  sending = false;
  kind = json;
  value = codes "{" ++ 10 ∷ codes "  " ++ 10 ∷ codes "}";
}

-- The fields of the form that have no state of their own.
pub record Fields : Type 0 where
  pub topic : Text
  pub partition : Text
  pub key : Text

-- What is sent; `headers` is always empty.
pub record Message : Type 0 where
  pub topic : Text
  pub partition : Text
  pub key : Text
  pub value : Text

-- The server's answer: where the message was stored, or the message of the exception.
pub data SendAnswer : Type 0 where
  stored : (partition offset : ℕ) → SendAnswer
  failed : Text → SendAnswer

abbrev or_text : Option Text → Text → Text
or_text none d = d
or_text (some t) d = if is_empty t then d else t

module _ (parse_error : Text → Option Text) where
  abbrev invalid : Kind → Text → Option Text
  invalid json value = parse_error value
  invalid text value = none

  -- `submit` up to its `await`.
  pub submit : Option Text → Fields → ProducerState → ProducerState × Option Message
  submit fixed_topic f s = if s.sending then (s, none) else elim (invalid s.kind s.value) [
    | some message ↦ (record s { error = codes "JSON 格式错误：" ++ message }, none)
    | none ↦ (
      record s { sending = true; error = []; success = [] },
      some (record {
        topic = or_text fixed_topic f.topic;
        partition = f.partition;
        key = f.key;
        value = s.value;
      }),
    )
  ]

-- `submit` after its `await`.
pub send_answered : SendAnswer → ProducerState → ProducerState
send_answered (stored partition offset) s = record s {
  success =
      codes "消息已发送到 Partition " ++ (decimal partition ++ (codes "，Offset " ++ decimal offset));
  sending = false;
}
send_answered (failed message) s = record s { error = message; sending = false }
