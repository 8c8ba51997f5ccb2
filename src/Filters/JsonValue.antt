-- ===== src/Filters/JsonValue.antt =====
-- Values of JSON. A number is kept as its literal.
use kafka_manager.Base.{Bool, Option, none, some, List, [], ◌∷◌, Text, text_eq, if◌then◌else◌}

mutual
  pub data Json : Type 0 where
    null : Json
    boolean : Bool → Json
    number : Text → Json
    string : Text → Json
    array : Elements → Json
    object : Members → Json

  pub data Elements : Type 0 where
    nil : Elements
    cons : Json → Elements → Elements

  pub data Members : Type 0 where
    end : Members
    member : Text → Json → Members → Members

abbrev pub elements : Elements → List Json
elements nil = []
elements (cons v vs) = v ∷ elements vs

abbrev pub elements_of : List Json → Elements
elements_of [] = nil
elements_of (v ∷ vs) = cons v (elements_of vs)

-- A property of an object; `undefined` is `none`.
abbrev pub property : Text → Members → Option Json
property name end = none
property name (member k v ms) = if text_eq k name then some v else property name ms
