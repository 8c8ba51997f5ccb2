-- ===== src/Navigation/Routes/Dots.antt =====
-- What `history.pushState` makes of a path, as the URL standard has it: the segments `.` and `..` are
-- taken out of it. An address that is built for a route stays as it is if no name is one of the two.
mod Tests
use mathlib.Core.List.{append-nil}
use kafka_manager.Base.{
  ℕ, ◌≡◌, ◌≢◌, refl, sym, ap, ◌∙◌, inl, inr, Bool, true, false, ◌||◌, Option, none, some, List, [],
  ◌∷◌, ◌++◌, arith, Text, codes, text_eq, text_eq_iff, if◌then◌else◌, All, bind-eq-some, some_inj,
  Option-cases, append_assoc,
}
use kafka_manager.Uri.{encode_uri_component}
use kafka_manager.Uri.CodePoints.{AreUnits}
use kafka_manager.Uri.Safety.{NoSlash, decode_dot, decode_two_dots, encode-NoSlash}
use kafka_manager.Navigation.Routes.{
  Page, dashboard, topics, TopicTab, overview, AppRoute, page_name, tab_name, split, or_else,
  present, build_below, build_route_path, safe_decode,
}
use kafka_manager.Navigation.Routes.RoundTrip.{safe_decode-encode, OptionUnits}
use kafka_manager.Navigation.Routes.Split.{join, join-split, split_last, split-append}

abbrev drop_last : List Text → List Text
drop_last [] = []
drop_last (s ∷ []) = []
drop_last (s ∷ t ∷ ss) = s ∷ drop_last (t ∷ ss)

abbrev one_dot : Text
one_dot = codes "."

abbrev two_dots : Text
two_dots = codes ".."

-- The segments, after those that are read already. A last `.` or `..` leaves an empty segment.
pub resolve : List Text → List Text → List Text
resolve read [] = read
resolve read (s ∷ []) =
    if text_eq s two_dots
    then drop_last read ++ [] ∷ []
    else if text_eq s one_dot
    then read ++ [] ∷ []
    else read ++ s ∷ []
resolve read (s ∷ t ∷ ss) =
    if text_eq s two_dots
    then resolve (drop_last read) (t ∷ ss)
    else if text_eq s one_dot
    then resolve read (t ∷ ss)
    else resolve (read ++ s ∷ []) (t ∷ ss)

-- The path that is pushed, which begins with a slash.
pub resolve_path : Text → Text
resolve_path [] = []
resolve_path (c ∷ path) = c ∷ join b'/' (resolve [] (split b'/' path))

abbrev IsPlain : Text → Type 0
IsPlain s = (s ≢ one_dot) × (s ≢ two_dots)

resolve-plain : (read ss : List Text) → All IsPlain ss → resolve read ss ≡ read ++ ss
unfolding resolve
resolve-plain read [] h = sym (append-nil read)
resolve-plain read (s ∷ []) ((one, two), h) =
    ground (arith, text_eq_iff s one_dot, text_eq_iff s two_dots, one, two)
resolve-plain read (s ∷ t ∷ ss) ((one, two), h) =
    let no_two : text_eq s two_dots ≡ false = ground (arith, text_eq_iff s two_dots, two) in
    let no_one : text_eq s one_dot ≡ false = ground (arith, text_eq_iff s one_dot, one) in
    rw (no_two, no_one)
      (resolve-plain (read ++ s ∷ []) (t ∷ ss) h ∙ append_assoc read (s ∷ []) (t ∷ ss))

resolve_path-plain :
    (path : Text) → All IsPlain (split b'/' path) → resolve_path (b'/' ∷ path) ≡ b'/' ∷ path
unfolding resolve_path
resolve_path-plain path h =
    ap (λ ss. b'/' ∷ join b'/' ss) (resolve-plain [] (split b'/' path) h)
    ∙ ap (◌∷◌ b'/') (join-split b'/' path)

page_name-IsPlain : (p : Page) → NoSlash (page_name p) × IsPlain (page_name p)
page_name-IsPlain dashboard = (omega arith, ((λ e. cc), λ e. cc))
page_name-IsPlain _ = (omega arith, ((λ e. cc), λ e. cc))

tab_name-IsPlain : (t : TopicTab) → NoSlash (tab_name t) × IsPlain (tab_name t)
tab_name-IsPlain overview = (omega arith, ((λ e. cc), λ e. cc))
tab_name-IsPlain _ = (omega arith, ((λ e. cc), λ e. cc))

decode_dots : (safe_decode one_dot ≡ one_dot) × (safe_decode two_dots ≡ two_dots)
unfolding safe_decode
decode_dots = (rw (decode_dot, safe_decode), rw (decode_two_dots, safe_decode))

-- The encoding of a name is a dot segment only if the name is.
encode-IsPlain :
    (s : Text) {t : Text}
    → AreUnits s
    → IsPlain s
    → encode_uri_component s ≡ some t
    → NoSlash t × IsPlain t
encode-IsPlain s {t} u (one, two) e = (
  encode-NoSlash s u e,
  (
    (λ dot. one (sym (safe_decode-encode s u e) ∙ ap safe_decode dot ∙ decode_dots.0)),
    (λ dots. two (sym (safe_decode-encode s u e) ∙ ap safe_decode dots ∙ decode_dots.1)),
  ),
)

module _ (enc : Text) (plain : NoSlash enc × IsPlain enc) (p : Page) where
  abbrev below : Text
  below = codes "clusters/" ++ (enc ++ (codes "/" ++ page_name p))

  split_page : split b'/' below ≡ codes "clusters" ∷ enc ∷ page_name p ∷ []
  split_page = rw (
    split-append b'/' (codes "clusters") (enc ++ b'/' ∷ page_name p) (omega arith),
    split-append b'/' enc (page_name p) plain.0,
    split_last b'/' (page_name p) (page_name-IsPlain p).0,
  )

  page-IsPlain : All IsPlain (split b'/' below)
  page-IsPlain = rw split_page (((λ e. cc), λ e. cc), (plain.1, ((page_name-IsPlain p).1, tt)))

  split_topic :
      (name : Text) (t : TopicTab)
      → NoSlash name
      → split b'/' (below ++ (codes "/" ++ (name ++ (codes "/" ++ tab_name t))))
        ≡ codes "clusters" ∷ enc ∷ page_name p ∷ name ∷ tab_name t ∷ []
  split_topic name t h = rw (
    append_assoc,
    append_assoc,
    split-append b'/' (codes "clusters") _ (omega arith),
    split-append b'/' enc _ plain.0,
    split-append b'/' (page_name p) _ (page_name-IsPlain p).0,
    split-append b'/' name _ h,
    split_last b'/' (tab_name t) (tab_name-IsPlain t).0,
  )

  topic-IsPlain :
      (name : Text) (t : TopicTab)
      → NoSlash name × IsPlain name
      → All IsPlain (split b'/' (below ++ (codes "/" ++ (name ++ (codes "/" ++ tab_name t)))))
  topic-IsPlain name t h = rw (split_topic name t h.0) (
    ((λ e. cc), λ e. cc),
    (plain.1, ((page_name-IsPlain p).1, (h.1, ((tab_name-IsPlain t).1, tt)))),
  )

abbrev pub OptionPlain : Option Text → Type 0
OptionPlain none = Unit
OptionPlain (some s) = AreUnits s × IsPlain s

pub OptionPlain-units : (o : Option Text) → OptionPlain o → OptionUnits o
OptionPlain-units none h = tt
OptionPlain-units (some s) h = h.0

present-OptionPlain : (o : Option Text) → OptionPlain o → OptionPlain (present o)
present-OptionPlain none h = tt
present-OptionPlain (some []) h = tt
present-OptionPlain (some (c ∷ s)) h = h

resolve_path-build_below :
    (enc : Text) (plain : NoSlash enc × IsPlain enc) (p : Page) (name : Option Text)
    (tab : Option TopicTab) {path : Text}
    → OptionPlain name
    → build_below (b'/' ∷ below enc plain p) p name tab ≡ some path
    → resolve_path path ≡ path
unfolding build_below
resolve_path-build_below enc plain topics (some name) tab h e =
    let (encoded, f, g) = bind-eq-some (encode_uri_component name) _ e in
    rw (← some_inj g) (
      resolve_path-plain _ (
        topic-IsPlain enc plain topics encoded (or_else tab overview)
          (encode-IsPlain name h.0 h.1 f)))
resolve_path-build_below enc plain p name tab h e =
    rw (← some_inj e) (resolve_path-plain (below enc plain p) (page-IsPlain enc plain p))

resolve_root : resolve_path (codes "/") ≡ codes "/"
unfolding resolve_path resolve split
resolve_root = refl

-- An address that is built for names other than `.` and `..` is pushed as it is.
pub resolve_path-build :
    (r : AppRoute) {path : Text}
    → OptionPlain r.cluster_id
    → OptionPlain r.topic_name
    → build_route_path r ≡ some path
    → resolve_path path ≡ path
unfolding build_route_path
resolve_path-build r {path} u v e = elim (Option-cases (present r.cluster_id)) [
  | inl absent ↦
      let root : codes "/" ≡ path = some_inj (rw (absent, build_route_path) at e) in
      rw (← root) resolve_root
  | inr (id, given) ↦
      let h : OptionPlain (some id) = rw given at (present-OptionPlain r.cluster_id u) in
      let (encoded, f, g) =
        bind-eq-some (encode_uri_component id) _ (rw (given, build_route_path) at e) in
      resolve_path-build_below encoded (encode-IsPlain id h.0 h.1 f) r.page (present r.topic_name)
        r.topic_tab (present-OptionPlain r.topic_name v) g
]
