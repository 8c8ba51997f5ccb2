-- ===== src/Feedback/Tests.antt =====
-- Notifications at concrete events.
use kafka_manager.Base.{ℕ, suc, ◌≤◌, ◌≡◌, refl, some, List, [], ◌∷◌, codes, length, get_elem?}
use kafka_manager.Base.Decimal.{decimal}
use kafka_manager.Feedback.{
  FeedbackItem, FeedbackEvent, raise, close, error, success, feedback_run, empty, feedback_step,
  notify, dismiss, add_feedback, dismiss_feedback,
}
use kafka_manager.Feedback.Stack.{AreDistinct, feedback_run-AreDistinct}

abbrev noise : List FeedbackEvent
noise =
    raise 1 error (codes "a") [] 6500
    ∷ raise 2 success (codes "b") [] 4500
    ∷ raise 3 error (codes "c") [] 6500
    ∷ close (codes "1-0")
    ∷ raise 4 error (codes "d") [] 6500
    ∷ raise 5 error (codes "e") [] 6500
    ∷ raise 6 error (codes "f") [] 6500
    ∷ []

four_left : length (feedback_run empty noise).items ≡ 4
unfolding feedback_run feedback_step notify dismiss add_feedback dismiss_feedback empty decimal
four_left = refl

feedback_run-AreDistinct_example :
    let items = (feedback_run empty noise).items in
    (length items ≤ 4)
    × AreDistinct items
    × ((i : ℕ) (item : FeedbackItem)
        → get_elem? items i ≡ some item
        → suc (length (dismiss_feedback items item.id)) ≡ length items)
feedback_run-AreDistinct_example = feedback_run-AreDistinct noise
