-- ===== src/Messages/Panel.antt =====
-- `MessageFilterPanel` of web/src/pages/MessagesPage.tsx: its fields, over which the panel changes
-- the filters, and what holds of the filters of a page at any time. A number input gives a finite
-- number, 0 if it is empty.
use kafka_manager.Base.{
  ℕ, ◌≤◌, ◌<◌, ◌≡◌, refl, ◌⊎◌, inl, inr, Bool, false, Option, List, [], ◌∷◌, arith, Text, leb, ltb,
  length, if◌then◌else◌, Bool-cases,
}
use kafka_manager.Base.Int.{ℤ, pos, negsuc}
use kafka_manager.SearchParams.{Params}
use kafka_manager.Filters.JsonValue.{Json}
use kafka_manager.Filters.{
  KeyOperator, ValueOperator, Number, nan, infinity, minus_infinity, finite, integer,
  MessageFilters, default_filters, parse_message_filters,
}
use kafka_manager.Filters.Bounds.{parse_message_filters_bounds}
use kafka_manager.Messages.{add_json, remove_json, update_json}
use kafka_manager.Messages.Answers.{PanelEvent, panel_step, panel_step_bounded}

pub clear : MessageFilters → MessageFilters
clear f = default_filters

pub set_key : KeyOperator → Text → MessageFilters → MessageFilters
set_key operator value f = record f { key_operator = operator; key_filter = value }

pub set_value : ValueOperator → Text → MessageFilters → MessageFilters
set_value operator value f = record f { value_operator = operator; value_filter = value }

-- `Math.min(50000, Math.max(1, n))`
pub between_limits : Number → Number
between_limits nan = nan
between_limits infinity = integer 50000
between_limits minus_infinity = integer 1
between_limits (finite (negsuc n) fraction) = integer 1
between_limits (finite (pos n) fraction) =
    if ltb n 1 then integer 1 else if leb 50000 n then integer 50000 else finite (pos n) fraction

pub set_scan_limit : Number → MessageFilters → MessageFilters
set_scan_limit n f = record f { scan_limit = between_limits n }

-- What a reader does in the panel.
pub data FilterEdit : Type 0 where
  condition : PanelEvent → FilterEdit
  cleared : FilterEdit
  key : KeyOperator → Text → FilterEdit
  value : ValueOperator → Text → FilterEdit
  scan_limit : ℤ → Bool → FilterEdit

pub edit : MessageFilters → FilterEdit → MessageFilters
edit f (condition e) = panel_step f e
edit f cleared = clear f
edit f (key operator text) = set_key operator text f
edit f (value operator text) = set_value operator text f
edit f (scan_limit n fraction) = set_scan_limit (finite n fraction) f

pub edits : MessageFilters → List FilterEdit → MessageFilters
edits f [] = f
edits f (e ∷ es) = edits (edit f e) es

-- A number from 1 to 50000, which may have a fraction.
abbrev pub IsInLimits : Number → Type 0
IsInLimits n =
    (k : ℕ) × (fraction : Bool) × (n ≡ finite (pos k) fraction)
    × (1 ≤ k)
    × ((k < 50000) ⊎ ((k ≡ 50000) × (fraction ≡ false)))

abbrev pub IsBounded : MessageFilters → Type 0
IsBounded f = (length f.json_filters ≤ 5) × IsInLimits f.scan_limit

between_limits-IsInLimits :
    (z : ℤ) (fraction : Bool) → IsInLimits (between_limits (finite z fraction))
unfolding between_limits
between_limits-IsInLimits (negsuc n) fraction = (1, false, refl, omega arith, inl (omega arith))
between_limits-IsInLimits (pos n) fraction = elim (Bool-cases (ltb n 1)) [
  | inl low ↦ rw low (1, false, refl, omega arith, inl (omega arith))
  | inr h ↦ elim (Bool-cases (leb 50000 n)) [
    | inl high ↦ rw (h, high) (50000, false, refl, omega arith, inr (refl, refl))
    | inr g ↦ rw (h, g) (n, fraction, refl, ground arith, inl (ground arith))
  ]
]

panel_step-scan_limit :
    (f : MessageFilters) (e : PanelEvent) → (panel_step f e).scan_limit ≡ f.scan_limit
unfolding panel_step add_json remove_json update_json
panel_step-scan_limit f (PanelEvent.add id) = ground arith
panel_step-scan_limit f (PanelEvent.remove id) = refl
panel_step-scan_limit f (PanelEvent.update id patch) = refl

edit-IsBounded : (f : MessageFilters) (e : FilterEdit) → IsBounded f → IsBounded (edit f e)
unfolding edit clear set_key set_value set_scan_limit default_filters
edit-IsBounded f (condition e) (few, within) =
    (panel_step_bounded f e few, rw (panel_step-scan_limit f e) within)
edit-IsBounded f cleared h = (omega arith, (5000, false, refl, omega arith, inl (omega arith)))
edit-IsBounded f (key operator text) h = h
edit-IsBounded f (value operator text) h = h
edit-IsBounded f (scan_limit n fraction) (few, _) = (few, between_limits-IsInLimits n fraction)

edits-IsBounded : (f : MessageFilters) (es : List FilterEdit) → IsBounded f → IsBounded (edits f es)
unfolding edits
edits-IsBounded f [] h = h
edits-IsBounded f (e ∷ es) h = edits-IsBounded (edit f e) es (edit-IsBounded f e h)

-- Whatever the address says with which the page is opened, and whatever a reader does in the panel:
-- there are at most five conditions, and the scan limit is a number from 1 to 50000.
pub edits-parse-IsBounded :
    (parse : Text → Option Json) (read_number : Text → Number) (params : Params)
    (es : List FilterEdit)
    → IsBounded (edits (parse_message_filters parse read_number params) es)
edits-parse-IsBounded parse read_number params es =
    let ((n, e, low, high), few) = parse_message_filters_bounds parse read_number params in
    edits-IsBounded (parse_message_filters parse read_number params) es
      (few, (n, false, e, low, ground (arith, high)))
