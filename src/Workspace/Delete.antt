-- ===== src/Workspace/Delete.antt =====
-- When a topic's page sends the request that deletes the topic.
pub mod Refine
use kafka_manager.Base.{
  ℕ, ◌+◌, ◌-◌, ◌≡◌, ◌↔◌, refl, ◌⊎◌, inl, Bool, true, false, Option, none, some, List, [], ◌∷◌,
  arith, Text, text_eq_iff, if◌then◌else◌, ltb,
}
use kafka_manager.Confirm.{enabled, confirmation_matches}
use kafka_manager.Feedback.{Provider}
use kafka_manager.Workspace.{
  WorkspaceState, start, open_delete, type_confirmation, close_delete, submit_delete,
  remove_answered, start_refresh, refresh_answered,
}

-- The request is sent exactly if the dialog is open, the reader typed the topic's name to the
-- letter, and no such request is pending.
submit_delete-sends_iff :
    (name : Text) (s : WorkspaceState)
    → ((submit_delete name s).1 ≡ true)
      ↔ ((s.confirming_delete ≡ true) × (s.typed ≡ name) × (s.deleting ≡ false))
unfolding submit_delete enabled confirmation_matches
submit_delete-sends_iff name s = ground (arith, text_eq_iff s.typed name)

-- What happens on the page; an answer comes at a time, for a request that is pending. The button that
-- opens the dialog is disabled for a read-only cluster, so that `opened` does nothing there.
pub data DeleteEvent : Type 0 where
  opened closed submitted : DeleteEvent
  typed : Text → DeleteEvent
  removed : ℕ → Option Text → DeleteEvent
  refresh : DeleteEvent
  refreshed : ℕ → Option Text → DeleteEvent

-- The page with the requests to delete that were sent and that are not yet answered.
pub record DeleteRun : Type 0 where
  pub page : WorkspaceState
  pub sent : ℕ
  pub pending : ℕ

abbrev pub count : Bool → ℕ
count true = 1
count false = 0

module _ (name : Text) (read_only : Bool) where
  pub delete_step : DeleteRun → DeleteEvent → DeleteRun
  delete_step r opened = if read_only then r else record r { page = open_delete r.page }
  delete_step r closed = record r { page = close_delete r.page }
  delete_step r (typed value) = record r { page = type_confirmation value r.page }
  delete_step r submitted =
      let (page, sends) = submit_delete name r.page in
      record { page = page; sent = r.sent + count sends; pending = r.pending + count sends }
  delete_step r (removed now answer) =
      if ltb 0 r.pending
      then record r { page = (remove_answered now name answer r.page).0; pending = r.pending - 1 }
      else r
  delete_step r refresh = record r { page = (start_refresh r.page).0 }
  delete_step r (refreshed now answer) = record r { page = refresh_answered now answer r.page }

  pub delete_run : DeleteRun → List DeleteEvent → DeleteRun
  delete_run r [] = r
  delete_run r (e ∷ es) = delete_run (delete_step r e) es

abbrev pub first_run : Provider → DeleteRun
first_run feedback = record { page = start feedback; sent = 0; pending = 0 }

-- The page knows of the pending request, and there is at most one.
abbrev pub IsTracked : DeleteRun → Type 0
IsTracked r =
    ((r.page.deleting ≡ false) × (r.pending ≡ 0)) ⊎ ((r.page.deleting ≡ true) × (r.pending ≡ 1))

pub delete_step-IsTracked :
    (name : Text) (read_only : Bool) (r : DeleteRun) (e : DeleteEvent)
    → IsTracked r
    → IsTracked (delete_step name read_only r e)
unfolding delete_step open_delete close_delete type_confirmation submit_delete remove_answered
    start_refresh refresh_answered enabled
delete_step-IsTracked name read_only r opened h = ground arith
delete_step-IsTracked name read_only r closed h = ground arith
delete_step-IsTracked name read_only r submitted h = ground arith
delete_step-IsTracked name read_only r (typed value) h = ground arith
delete_step-IsTracked name read_only r (removed now none) h = ground arith
delete_step-IsTracked name read_only r (removed now (some m)) h = ground arith
delete_step-IsTracked name read_only r refresh h = ground arith
delete_step-IsTracked name read_only r (refreshed now none) h = h
delete_step-IsTracked name read_only r (refreshed now (some m)) h = h

delete_run-IsTracked :
    (name : Text) (read_only : Bool) (r : DeleteRun) (es : List DeleteEvent)
    → IsTracked r
    → IsTracked (delete_run name read_only r es)
unfolding delete_run
delete_run-IsTracked name read_only r [] h = h
delete_run-IsTracked name read_only r (e ∷ es) h =
    delete_run-IsTracked name read_only (delete_step name read_only r e) es
      (delete_step-IsTracked name read_only r e h)

-- Whatever a reader does, and whatever is answered when, at most one request to delete is pending,
-- and the page shows that it is.
pub delete_run-first_run-IsTracked :
    (name : Text) (read_only : Bool) (feedback : Provider) (es : List DeleteEvent)
    → IsTracked (delete_run name read_only (first_run feedback) es)
unfolding start
delete_run-first_run-IsTracked name read_only feedback es =
    delete_run-IsTracked name read_only (first_run feedback) es (inl (refl, refl))

abbrev IsUntouched : DeleteRun → Type 0
IsUntouched r = (r.page.confirming_delete ≡ false) × (r.sent ≡ 0)

delete_step-IsUntouched :
    (name : Text) (r : DeleteRun) (e : DeleteEvent)
    → IsUntouched r
    → IsUntouched (delete_step name true r e)
unfolding delete_step open_delete close_delete type_confirmation submit_delete remove_answered
    start_refresh refresh_answered enabled
delete_step-IsUntouched name r opened h = ground arith
delete_step-IsUntouched name r closed h = ground arith
delete_step-IsUntouched name r submitted h = ground arith
delete_step-IsUntouched name r (typed value) h = ground arith
delete_step-IsUntouched name r (removed now none) h = ground arith
delete_step-IsUntouched name r (removed now (some m)) h = ground arith
delete_step-IsUntouched name r refresh h = ground arith
delete_step-IsUntouched name r (refreshed now none) h = h
delete_step-IsUntouched name r (refreshed now (some m)) h = h

delete_run-IsUntouched :
    (name : Text) (r : DeleteRun) (es : List DeleteEvent)
    → IsUntouched r
    → IsUntouched (delete_run name true r es)
unfolding delete_run
delete_run-IsUntouched name r [] h = h
delete_run-IsUntouched name r (e ∷ es) h =
    delete_run-IsUntouched name (delete_step name true r e) es (delete_step-IsUntouched name r e h)

-- On a read-only cluster no request to delete is ever sent.
delete_read_only :
    (name : Text) (feedback : Provider) (es : List DeleteEvent)
    → (delete_run name true (first_run feedback) es).sent ≡ 0
unfolding start
delete_read_only name feedback es =
    (delete_run-IsUntouched name (first_run feedback) es (refl, refl)).1
