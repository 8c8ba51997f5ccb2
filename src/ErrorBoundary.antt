-- ===== src/ErrorBoundary.antt =====
-- web/src/components/AppErrorBoundary.tsx: the state of the page after an error while it is drawn.
use kafka_manager.Base.{
  ◌≡◌, refl, Bool, true, false, Option, none, some, [], Text, codes, is_empty, if◌then◌else◌,
  Bool-cases, inl, inr,
}

pub record ErrorBoundaryState : Type 0 where
  pub failed : Bool
  pub message : Text

abbrev unknown : Text
unknown = codes "页面渲染遇到未知异常"

-- The state for what was thrown: the message of an `Error`, or `none` for any other value.
pub error_boundary_state : Option Text → ErrorBoundaryState
error_boundary_state none = record { failed = true; message = unknown }
error_boundary_state (some message) = record {
  failed = true;
  message = if is_empty message then unknown else message;
}

pub start : ErrorBoundaryState
start = record { failed = false; message = [] }

-- What is drawn: the page as long as nothing was thrown, and the message of the state from then on.
pub render : {A : Type 0} → A → ErrorBoundaryState → Option Text × Option A
render children s = if s.failed then (some s.message, none) else (none, some children)

-- Whatever is thrown, the page is replaced by a message that is not empty; until then it is drawn.
pub render-error_boundary_state :
    {A : Type 0} (children : A) (thrown : Option Text)
    → ((message : Text) × (render children (error_boundary_state thrown) ≡ (some message, none))
        × (is_empty message ≡ false))
      × (render children start ≡ (none, some children))
unfolding render error_boundary_state start
render-error_boundary_state children none = ((unknown, refl, refl), refl)
render-error_boundary_state children (some m) = elim (Bool-cases (is_empty m)) [
  | inl blank ↦ ((unknown, rw blank, refl), refl)
  | inr told ↦ ((m, rw told, told), refl)
]
