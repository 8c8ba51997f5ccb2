-- ===== src/Audit.antt =====
-- web/src/pages/AuditPage.tsx: the entries of the audit log and the search in them. A template
-- writes "undefined" for a field that is absent. `toLowerCase` is a parameter.
pub mod Search
pub mod Screen
use kafka_manager.Base.{
  ℕ, Bool, true, false, ◌&&◌, ◌||◌, Option, none, some, List, [], ◌++◌, if◌then◌else◌, Text, codes,
  text_eq, filter,
}
use kafka_manager.Base.Search.{trim, includes}

pub record AuditEntry : Type 0 where
  pub timestamp : Text
  pub username : Text
  pub client_ip : Option Text
  pub cluster_id : Option Text
  pub action : Text
  pub resource : Option Text
  pub result : Text
  pub duration_ms : Option ℕ
  pub error : Option Text

pub record AuditState : Type 0 where
  pub items : List AuditEntry
  pub loading : Bool
  pub error : Text
  pub query : Text
  pub result : Text

pub start : AuditState
start = record { items = []; loading = true; error = []; query = []; result = codes "all" }

-- The answer to the request for entries; `failed` is the message of the exception.
pub data AuditAnswer : Type 0 where
  failed : Text → AuditAnswer
  listed : List AuditEntry → AuditAnswer

-- `load` up to its request, and its callbacks.
unfoldable pub load : AuditState → AuditState
load s = record s { loading = true }

unfoldable pub load_answered : AuditAnswer → AuditState → AuditState
load_answered (failed message) s = record s { error = message; loading = false }
load_answered (listed entries) s = record s { items = entries; error = []; loading = false }

abbrev printed : Option Text → Text
printed none = codes "undefined"
printed (some t) = t

abbrev or_empty : Option Text → Text
or_empty none = []
or_empty (some t) = t

-- The text that a search looks through, before it is made lower case.
pub haystack : AuditEntry → Text
haystack e =
    e.action
    ++ (codes " "
        ++ (printed e.cluster_id
            ++ (codes " " ++ (printed e.resource ++ (codes " " ++ or_empty e.error)))))

pub matches_result : Text → AuditEntry → Bool
matches_result result e = text_eq result (codes "all") || text_eq e.result result

module _ (to_lower_case : Text → Text) where
  pub matches_query : Text → AuditEntry → Bool
  matches_query query e = includes (to_lower_case (haystack e)) (to_lower_case (trim query))

  pub shown : AuditState → List AuditEntry
  shown s = filter (λ e. matches_result s.result e && matches_query s.query e) s.items

pub set_query : Text → AuditState → AuditState
set_query value s = record s { query = value }

pub set_result : Text → AuditState → AuditState
set_result value s = record s { result = value }
