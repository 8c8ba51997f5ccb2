-- ===== src/Http/Calls.antt =====
-- web/src/lib/api.ts: what `request` passes to the browser's `fetch`, and the four calls of `api`. A
-- body is given as the text that `JSON.stringify` makes of it.
use kafka_manager.Base.{
  ◌≡◌, refl, Option, none, some, List, [], ◌∷◌, if◌then◌else◌, Text, codes, is_empty, text_eq,
}

-- The options of a call, as the caller gives them. No name is twice in the headers.
pub record RequestOptions : Type 0 where
  pub method : Option Text
  pub body : Option Text
  pub headers : List (Text × Text)

abbrev content_type : Text
content_type = codes "Content-Type"

abbrev json_type : Text
json_type = codes "application/json"

-- `options.body ? {'Content-Type': 'application/json'} : {}`
pub default_headers : Option Text → List (Text × Text)
default_headers none = []
default_headers (some b) = if is_empty b then [] else ((content_type, json_type) ∷ [])

header_in : Text → List (Text × Text) → Option Text
header_in name [] = none
header_in name ((n, v) ∷ hs) = if text_eq n name then some v else header_in name hs

-- The header of a name in `{...default, ...options.headers}`: the later object wins.
pub header : RequestOptions → Text → Option Text
header o name = elim (header_in name o.headers) [
  | some v ↦ some v
  | none ↦ header_in name (default_headers o.body)
]

pub get : RequestOptions
get = record { method = none; body = none; headers = [] }

pub post : Text → RequestOptions
post body = record { method = some (codes "POST"); body = some body; headers = [] }

pub put : Text → RequestOptions
put body = record { method = some (codes "PUT"); body = some body; headers = [] }

pub delete : RequestOptions
delete = record { method = some (codes "DELETE"); body = none; headers = [] }

header-post : header (post (codes "{}")) content_type ≡ some json_type
unfolding header header_in default_headers post
header-post = refl

header-delete : header delete content_type ≡ none
unfolding header header_in default_headers delete
header-delete = refl
