-- ===== src/Feedback.antt =====
-- web/src/components/feedback-model.ts and Feedback.tsx: the stack of notifications.
-- The provider's ids are `${Date.now()}-${serial}`; the time of a call is an argument.
pub mod Screen
pub mod Serials
pub mod Stack
mod Tests
use mathlib.Core.List.{reverse}
use kafka_manager.Base.{
  ℕ, suc, ◌+◌, ◌-◌, ◌≤◌, ◌<◌, ◌≡◌, ◌≢◌, refl, true, false, not, Bool, Option, none, some, List, [],
  ◌∷◌, ◌++◌, arith, if◌then◌else◌, Text, codes, text_eq, filter, length, drop, length-append,
  length-drop, length-filter-le, All, text_eq_iff, text_eq_refl,
}
use kafka_manager.Base.Decimal.{decimal}

pub data FeedbackTone : Type 0 where
  success error info : FeedbackTone

pub record FeedbackItem : Type 0 where
  pub id : Text
  pub tone : FeedbackTone
  pub title : Text
  pub message : Text
  pub duration : ℕ

-- `[...items, item].slice(-4)`
pub add_feedback : List FeedbackItem → FeedbackItem → List FeedbackItem
add_feedback items item = let all = items ++ item ∷ [] in drop (length all - 4) all

pub dismiss_feedback : List FeedbackItem → Text → List FeedbackItem
dismiss_feedback items id = filter (λ item. not (text_eq item.id id)) items

-- The provider: the items shown and the next serial number.
pub record Provider : Type 0 where
  pub items : List FeedbackItem
  pub serial : ℕ

pub empty : Provider
empty = record { items = []; serial = 0 }

pub notify : ℕ → FeedbackTone → Text → Text → ℕ → Provider → Provider
notify now tone title message duration p =
    let item : FeedbackItem = record {
      id = decimal now ++ (codes "-" ++ decimal p.serial);
      tone = tone;
      title = title;
      message = message;
      duration = duration;
    } in
    record { items = add_feedback p.items item; serial = p.serial + 1 }

pub notify_success : ℕ → Text → Text → Provider → Provider
notify_success now title message = notify now success title message 4500

pub notify_error : ℕ → Text → Text → Provider → Provider
notify_error now title message = notify now error title message 6500

pub notify_info : ℕ → Text → Text → Provider → Provider
notify_info now title message = notify now info title message 4500

pub dismiss : Text → Provider → Provider
dismiss id p = record p { items = dismiss_feedback p.items id }

-- A notification that is raised, or one that its timer or the reader dismisses.
pub data FeedbackEvent : Type 0 where
  raise : ℕ → FeedbackTone → Text → Text → ℕ → FeedbackEvent
  close : Text → FeedbackEvent

pub feedback_step : Provider → FeedbackEvent → Provider
feedback_step p (raise now tone title message duration) = notify now tone title message duration p
feedback_step p (close id) = dismiss id p

pub feedback_run : Provider → List FeedbackEvent → Provider
feedback_run p [] = p
feedback_run p (e ∷ es) = feedback_run (feedback_step p e) es

length-add_feedback :
    (items : List FeedbackItem) (item : FeedbackItem) → length (add_feedback items item) ≤ 4
unfolding add_feedback
length-add_feedback items item =
    omega (arith, length-drop {0} (length (items ++ item ∷ []) - 4) (items ++ item ∷ []))

feedback_step_bounded :
    (p : Provider) (e : FeedbackEvent) → length p.items ≤ 4 → length (feedback_step p e).items ≤ 4
unfolding feedback_step notify dismiss dismiss_feedback
feedback_step_bounded p (raise now tone title message duration) h = length-add_feedback p.items _
feedback_step_bounded p (close id) h =
    omega (arith, length-filter-le {0} (λ item. not (text_eq item.id id)) p.items)

feedback_run-length :
    (p : Provider) (es : List FeedbackEvent)
    → length p.items ≤ 4
    → length (feedback_run p es).items ≤ 4
unfolding feedback_run
feedback_run-length p [] h = h
feedback_run-length p (e ∷ es) h =
    feedback_run-length (feedback_step p e) es (feedback_step_bounded p e h)

-- Whatever is raised and dismissed, at most four notifications are shown.
pub feedback_run_bounded : (es : List FeedbackEvent) → length (feedback_run empty es).items ≤ 4
unfolding empty
feedback_run_bounded es = feedback_run-length _ es (omega arith)
