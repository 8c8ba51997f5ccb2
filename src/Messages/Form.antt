-- ===== src/Messages/Form.antt =====
-- The fields of the query form of web/src/pages/MessagesPage.tsx, and the choice of a message in
-- the list. The field of the topic is not there if the topic is fixed.
use kafka_manager.Base.{some, Text}
use kafka_manager.Types.{MessageRecord}
use kafka_manager.Messages.{MessagesState}

pub set_topic : Text → MessagesState → MessagesState
set_topic value s = record s { topic = value }

pub set_partition : Text → MessagesState → MessagesState
set_partition value s = record s { partition = value }

pub set_mode : Text → MessagesState → MessagesState
set_mode value s = record s { mode = value }

pub set_offset : Text → MessagesState → MessagesState
set_offset value s = record s { offset = value }

pub set_timestamp : Text → MessagesState → MessagesState
set_timestamp value s = record s { timestamp = value }

pub set_limit : Text → MessagesState → MessagesState
set_limit value s = record s { limit = value }

pub select : MessageRecord → MessagesState → MessagesState
select message s = record s { selected = some message }
