-- ===== src/SearchParams.antt =====
-- `URLSearchParams` as the ordered list of its names and values.
pub mod Laws
use kafka_manager.Base.{
  Bool, not, Option, none, some, List, [], ◌∷◌, ◌++◌, if◌then◌else◌, Text, filter, text_eq,
}

abbrev pub Params : Type 0
Params = List (Text × Text)

unfoldable pub get : Text → Params → Option Text
get name [] = none
get name ((k, v) ∷ ps) = if text_eq k name then some v else get name ps

unfoldable pub delete : Text → Params → Params
delete name [] = []
delete name ((k, v) ∷ ps) =
    let rest = delete name ps in if text_eq k name then rest else (k, v) ∷ rest

-- The first entry of the name takes the value, the others go.
unfoldable pub set : Text → Text → Params → Params
unfolding delete
set name v [] = (name, v) ∷ []
set name v ((k, w) ∷ ps) =
    if text_eq k name then (name, v) ∷ delete name ps else (k, w) ∷ set name v ps

pub delete_all : List Text → Params → Params
delete_all [] ps = ps
delete_all (name ∷ names) ps = delete_all names (delete name ps)

pub set_all : List (Text × Text) → Params → Params
set_all [] ps = ps
set_all ((k, v) ∷ entries) ps = set_all entries (set k v ps)
