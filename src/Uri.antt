-- ===== src/Uri.antt =====
-- `encodeURIComponent` and `decodeURIComponent` of ECMAScript, which navigation/routes.ts calls.
-- A string is a list of UTF-16 code units; `none` is a thrown `URIError`.
pub mod Bytes
pub mod CodePoints
pub mod RoundTrip
pub mod Safety
use kafka_manager.Base.{
  ℕ, ◌+◌, ◌-◌, ◌*◌, ◌/◌, ◌%◌, Bool, not, ◌&&◌, ◌||◌, Option, none, some, List, [], ◌∷◌, ◌++◌, ltb,
  leb, ◌==◌, if◌then◌else◌, Text,
}
use mathlib.Core.Option

abbrev pub between : ℕ → ℕ → ℕ → Bool
between lo hi c = leb lo c && leb c hi

abbrev pub is_high : ℕ → Bool
is_high c = between 0xD800 0xDBFF c

abbrev pub is_low : ℕ → Bool
is_low c = between 0xDC00 0xDFFF c

-- The characters that stay as they are: letters, digits and - _ . ! ~ * ' ( ).
unfoldable pub is_unreserved : ℕ → Bool
is_unreserved c =
    between b'a' b'z' c
    || between b'A' b'Z' c
    || between b'0' b'9' c
    || c == b'-'
    || c == b'_'
    || c == b'.'
    || c == b'!'
    || c == b'~'
    || c == b'*'
    || c == 0x27
    || c == b'('
    || c == b')'

pub hex_digit : ℕ → ℕ
hex_digit n = if ltb n 10 then n + b'0' else n + 55

pub hex_value : ℕ → Option ℕ
hex_value c =
    if between b'0' b'9' c
    then some (c - b'0')
    else if between b'A' b'F' c
    then some (c - 55)
    else if between b'a' b'f' c
    then some (c - 87)
    else none

-- A code unit of the input that waits for its low surrogate.
pub data Pending : Type 0 where
  clear : Pending
  high : ℕ → Pending

-- The code points of a well-formed string; `none` at an unpaired surrogate.
pub code_points : Pending → Text → Option (List ℕ)
code_points clear [] = some []
code_points (high h) [] = none
code_points clear (c ∷ s) =
    if is_low c
    then none
    else if is_high c
    then code_points (high c) s
    else Option.map (◌∷◌ c) (code_points clear s)
code_points (high h) (c ∷ s) =
    if is_low c
    then Option.map (◌∷◌ ((h - 0xD800) * 0x400 + (c - 0xDC00) + 0x10000)) (code_points clear s)
    else none

pub utf8 : ℕ → List ℕ
utf8 p =
    if ltb p 0x80
    then p ∷ []
    else if ltb p 0x800
    then (0xC0 + p / 0x40) ∷ (0x80 + p % 0x40) ∷ []
    else if ltb p 0x10000
    then (0xE0 + p / 0x1000) ∷ (0x80 + p / 0x40 % 0x40) ∷ (0x80 + p % 0x40) ∷ []
    else (0xF0 + p / 0x40000)
      ∷ (0x80 + p / 0x1000 % 0x40)
      ∷ (0x80 + p / 0x40 % 0x40)
      ∷ (0x80 + p % 0x40)
      ∷ []

pub utf16 : ℕ → Text
utf16 p =
    if ltb p 0x10000
    then p ∷ []
    else (0xD800 + (p - 0x10000) / 0x400) ∷ (0xDC00 + (p - 0x10000) % 0x400) ∷ []

abbrev percent : ℕ → Text
percent b = b'%' ∷ hex_digit (b / 16) ∷ hex_digit (b % 16) ∷ []

pub percents : List ℕ → Text
percents [] = []
percents (b ∷ bs) = percent b ++ percents bs

pub escape : ℕ → Text
escape p = if is_unreserved p then p ∷ [] else percents (utf8 p)

pub escapes : List ℕ → Text
escapes [] = []
escapes (p ∷ ps) = escape p ++ escapes ps

pub encode_uri_component : Text → Option Text
encode_uri_component s = Option.map escapes (code_points clear s)

-- The scanner of an escape: outside, after `%`, and after `%` and one digit.
pub data Scan : Type 0 where
  plain percent_sign : Scan
  one_digit : ℕ → Scan

pub data Piece : Type 0 where
  raw byte : ℕ → Piece

-- The input as plain code units and escaped bytes.
pub unescape : Scan → Text → Option (List Piece)
unescape plain [] = some []
unescape percent_sign [] = none
unescape (one_digit v) [] = none
unescape plain (c ∷ s) =
    if c == b'%' then unescape percent_sign s else Option.map (◌∷◌ (raw c)) (unescape plain s)
unescape percent_sign (c ∷ s) = elim (hex_value c) [
  | none ↦ none
  | some v ↦ unescape (one_digit v) s
]
unescape (one_digit v) (c ∷ s) = elim (hex_value c) [
  | none ↦ none
  | some w ↦ Option.map (◌∷◌ (byte (v * 16 + w))) (unescape plain s)
]

-- Inside a character of several bytes: how many are missing, the bits so far, and the least code
-- point that needs so many bytes.
pub data Partial : Type 0 where
  start : Partial
  missing : ℕ → ℕ → ℕ → Partial

-- What a byte does: it completes some text, it opens or continues a character, or it is an error.
pub data Effect : Type 0 where
  emit : Text → Effect
  next : Partial → Effect
  invalid : Effect

-- A scalar value that is not written with more bytes than it needs.
pub is_valid : ℕ → ℕ → Bool
is_valid least p = leb least p && leb p 0x10FFFF && not (between 0xD800 0xDFFF p)

pub effect : Partial → ℕ → Effect
effect start b =
    if ltb b 0x80
    then emit (b ∷ [])
    else if ltb b 0xC0
    then invalid
    else if ltb b 0xE0
    then next (missing 1 (b - 0xC0) 0x80)
    else if ltb b 0xF0
    then next (missing 2 (b - 0xE0) 0x800)
    else if ltb b 0xF8
    then next (missing 3 (b - 0xF0) 0x10000)
    else invalid
effect (missing n acc least) b =
    let p = acc * 0x40 + (b - 0x80) in
    if between 0x80 0xBF b
    then (if n == 1
        then (if is_valid least p then emit (utf16 p) else invalid)
        else next (missing (n - 1) p least))
    else invalid

pub assemble : Partial → List Piece → Option Text
assemble start [] = some []
assemble (missing n acc least) [] = none
assemble start (raw c ∷ s) = Option.map (◌∷◌ c) (assemble start s)
assemble (missing n acc least) (raw c ∷ s) = none
assemble state (byte b ∷ s) = elim (effect state b) [
  | emit t ↦ Option.map (◌++◌ t) (assemble start s)
  | next later ↦ assemble later s
  | invalid ↦ none
]

pub decode_uri_component : Text → Option Text
decode_uri_component s = Option.bind (unescape plain s) (assemble start)

-- To name on the `unfolding` line of a run.
unfoldable pub uri_functions : Unit {0}
unfolding encode_uri_component decode_uri_component code_points escapes escape utf8 utf16 percents
    is_unreserved hex_digit hex_value unescape assemble effect is_valid Option.bind
uri_functions = tt
