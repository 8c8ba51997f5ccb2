-- ===== src/Feedback/Screen.antt =====
-- What `FeedbackProvider` and `FeedbackToast` of web/src/components/Feedback.tsx draw, the timer of a
-- notification, and `useFeedback`.
use kafka_manager.Base.{
  ℕ, ◌+◌, Option, none, some, List, [], ◌∷◌, ◌++◌, flat_map, ◌⊎◌, inl, inr, Text, codes,
}
use kafka_manager.Feedback.{FeedbackTone, success, error, info, FeedbackItem, Provider}
use kafka_manager.Markup.{Item, Tone, good, bad, neutral, status, text, link}

pub data Action : Type 0 where
  dismiss_item : Text → Action

abbrev tone : FeedbackTone → Tone
tone success = good
tone error = bad
tone info = neutral

abbrev when_filled : Text → List (Item Action)
when_filled [] = []
when_filled (c ∷ message) = text (c ∷ message) ∷ []

pub toast_items : FeedbackItem → List (Item Action)
toast_items item =
    status (tone item.tone) item.title
    ∷ (when_filled item.message ++ link (codes "关闭通知") (dismiss_item item.id) ∷ [])

pub stack_items : Provider → List (Item Action)
stack_items p = flat_map toast_items p.items

-- The timer that the effect of a notification starts when it is mounted: what it dismisses, and when.
pub record Timer : Type 0 where
  pub id : Text
  pub due : ℕ

pub mount : ℕ → FeedbackItem → Timer
mount now item = record { id = item.id; due = now + item.duration }

-- `useFeedback`: the value of the context, or the message of the exception.
pub use_feedback {ℓ} : {A : Type ℓ} → Option A → Text ⊎ A
use_feedback none = inl (codes "useFeedback 必须在 FeedbackProvider 内使用")
use_feedback (some value) = inr value
