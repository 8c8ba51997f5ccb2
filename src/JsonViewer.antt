-- ===== src/JsonViewer.antt =====
-- web/src/components/JsonViewer.tsx, with `parseMessageValue` from Messages/Preview. The members of
-- an object are those that `Object.entries` lists, in its order, so no name is twice among them.
-- `JSON.parse`, `JSON.stringify` and `String` of a number are parameters; so is `formatJson`'s
-- `JSON.stringify` with two spaces. Classes and labels are markup.
mod Tests
use kafka_manager.Base.{
  ℕ, suc, Bool, true, false, not, Option, none, some, List, [], ◌∷◌, ◌++◌, Text, codes, length, min,
  ◌*◌,
}
use kafka_manager.Base.Decimal.{decimal}
use kafka_manager.Filters.JsonValue.{
  Json, null, boolean, number, string, array, object, Members, end, member, elements,
}
use kafka_manager.Messages.Preview.{ParsedValue, json, text, parse_message_value}

pub data View : Type 0 where
  pretty : View
  raw_text : View

pub record ViewerState : Type 0 where
  pub view : View
  pub is_collapsed : Bool

pub first_view : ViewerState
first_view = record { view = pretty; is_collapsed = false }

abbrev other_view : View → View
other_view pretty = raw_text
other_view raw_text = pretty

-- The two buttons, which are there for JSON only.
pub toggle_collapsed : ParsedValue → ViewerState → ViewerState
toggle_collapsed (json v) s = record s { is_collapsed = not s.is_collapsed }
toggle_collapsed (text t) s = s

pub toggle_view : ParsedValue → ViewerState → ViewerState
toggle_view (json v) s = record s { view = other_view s.view }
toggle_view (text t) s = s

abbrev members : Members → List (Text × Json)
members end = []
members (member name v ms) = (name, v) ∷ members ms

abbrev indexed : ℕ → List Json → List (Text × Json)
indexed i [] = []
indexed i (v ∷ vs) = (decimal i, v) ∷ indexed (suc i) vs

-- What a node of the tree draws: a leaf, or an array or an object, with a line for each entry, or,
-- folded, with their number.
pub data Node : Type 0 where
  leaf : Text → Node
  lines : Text → List (Text × Json) → Text → Node
  count : Text → ℕ → Text → Node

abbrev node : Bool → Text → List (Text × Json) → Text → Node
node true start entries stop = count start (length entries) stop
node false start entries stop = lines start entries stop

-- What is between the buttons and the end of the viewer.
pub data Content : Type 0 where
  folded : Text → Content
  tree : Json → Content
  plain : Text → Content

-- How far a line of a node at a depth is indented, in pixels.
pub indent : ℕ → ℕ
indent depth = min (suc depth) 8 * 16

module _ (parse : Text → Option Json) (stringify format : Json → Text)
    (number_text : Text → Text) where
  pub summary : Json → Text
  summary (array vs) = codes "Array(" ++ (decimal (length (elements vs)) ++ codes ")")
  summary (object ms) = codes "Object(" ++ (decimal (length (members ms)) ++ codes ")")
  summary null = codes "null"
  summary (boolean true) = codes "true"
  summary (boolean false) = codes "false"
  summary (number n) = number_text n
  summary (string s) = s

  abbrev quoted : List (Text × Json) → List (Text × Json)
  quoted [] = []
  quoted ((name, v) ∷ ms) = (stringify (string name), v) ∷ quoted ms

  pub json_node : Bool → Json → Node
  json_node is_folded null = leaf (codes "null")
  json_node is_folded (boolean true) = leaf (codes "true")
  json_node is_folded (boolean false) = leaf (codes "false")
  json_node is_folded (string s) = leaf (stringify (string s))
  json_node is_folded (number n) = leaf (number_text n)
  json_node is_folded (array vs) = node is_folded (codes "[") (indexed 0 (elements vs)) (codes "]")
  json_node is_folded (object ms) = node is_folded (codes "{") (quoted (members ms)) (codes "}")

  abbrev content_of : ParsedValue → Text → ViewerState → Content
  content_of (text t) raw s = plain raw
  content_of (json v) raw s = elim (s.view) [
    | raw_text ↦ plain raw
    | pretty ↦ elim (s.is_collapsed) [ true ↦ folded (summary v) | false ↦ tree v ]
  ]

  pub content : Text → ViewerState → Content
  content raw s = content_of (parse_message_value parse stringify raw) raw s

  abbrev copied_of : ParsedValue → Text → Text
  copied_of (json v) raw = format v
  copied_of (text t) raw = raw

  -- What the button copies, whatever is shown.
  pub copied : Text → Text
  copied raw = copied_of (parse_message_value parse stringify raw) raw
