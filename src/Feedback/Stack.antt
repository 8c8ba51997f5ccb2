-- ===== src/Feedback/Stack.antt =====
-- What holds of the stack of notifications at any time: no two of them have the same id.
use mathlib.Core.Path.{subst}
use kafka_manager.Base.{
  ℕ, zero, suc, ◌+◌, ◌-◌, ◌≤◌, ◌<◌, ◌≡◌, ◌≢◌, refl, ap, ◌∙◌, Bool, not, List, [], ◌∷◌, ◌++◌, arith,
  some, some_inj, Text, codes, text_eq, text_eq_iff, length, drop, filter, get_elem?, All,
  All-append,
}
use kafka_manager.Base.Sort.{OrderedBy, OrderedBy-map, All-map}
use kafka_manager.Base.Decimal.{decimal}
use kafka_manager.Feedback.{
  FeedbackItem, FeedbackTone, Provider, FeedbackEvent, raise, close, add_feedback, dismiss_feedback,
  notify, dismiss, feedback_step, feedback_run, feedback_run_bounded, empty,
}
use kafka_manager.Feedback.Serials.{serial_of, serial_of-id}

module _ {A : Type 0} where
  All-drop : (P : A → Type 0) (n : ℕ) (xs : List A) → All P xs → All P (drop n xs)
  All-drop P zero xs h = h
  All-drop P (suc n) [] h = tt
  All-drop P (suc n) (x ∷ xs) h = All-drop P n xs h.1

  All-filter : (P : A → Type 0) (p : A → Bool) (xs : List A) → All P xs → All P (filter p xs)
  All-filter P p [] h = tt
  All-filter P p (x ∷ xs) h = ground (arith, All-filter P p xs h.1, h.0)

  module _ (R : A → A → Type 0) where
    OrderedBy-drop : (n : ℕ) (xs : List A) → OrderedBy R xs → OrderedBy R (drop n xs)
    OrderedBy-drop zero xs h = h
    OrderedBy-drop (suc n) [] h = tt
    OrderedBy-drop (suc n) (x ∷ xs) h = OrderedBy-drop n xs h.1

    OrderedBy-filter : (p : A → Bool) (xs : List A) → OrderedBy R xs → OrderedBy R (filter p xs)
    OrderedBy-filter p [] h = tt
    OrderedBy-filter p (x ∷ xs) h =
        ground (arith, OrderedBy-filter p xs h.1, All-filter (R x) p xs h.0)

    OrderedBy-last :
        (xs : List A) (y : A) → OrderedBy R xs → All (λ x. R x y) xs → OrderedBy R (xs ++ y ∷ [])
    OrderedBy-last [] y h k = (tt, tt)
    OrderedBy-last (x ∷ xs) y h k =
        (All-append (R x) xs (y ∷ []) h.0 (k.0, tt), OrderedBy-last xs y h.1 k.1)

abbrev Precedes : FeedbackItem → FeedbackItem → Type 0
Precedes a b = serial_of a.id < serial_of b.id

-- The serial numbers of the ids rise, and are below the next one.
abbrev IsNumbered : Provider → Type 0
IsNumbered p = All (λ i. serial_of i.id < p.serial) p.items × OrderedBy Precedes p.items

abbrev raised : ℕ → FeedbackTone → Text → Text → ℕ → Provider → FeedbackItem
raised now tone title message duration p = record {
  id = decimal now ++ (codes "-" ++ decimal p.serial);
  tone = tone;
  title = title;
  message = message;
  duration = duration;
}

notify-IsNumbered :
    (now : ℕ) (tone : FeedbackTone) (title message : Text) (duration : ℕ) (p : Provider)
    → IsNumbered p
    → IsNumbered (notify now tone title message duration p)
unfolding notify add_feedback
notify-IsNumbered now tone title message duration p (below, rising) =
    let item = raised now tone title message duration p in
    let own : serial_of item.id ≡ p.serial = serial_of-id now p.serial in
    let excess = length (p.items ++ item ∷ []) - 4 in
    (
      All-drop (λ i. serial_of i.id < p.serial + 1) excess (p.items ++ item ∷ [])
          (All-append (λ i. serial_of i.id < p.serial + 1) p.items (item ∷ [])
            (All-map _ _ (λ i h. omega (arith, h)) p.items below) (omega (arith, own), tt)),
      OrderedBy-drop Precedes excess (p.items ++ item ∷ []) (
          OrderedBy-last Precedes p.items item rising
            (All-map _ _ (λ i h. omega (arith, h, own)) p.items below)),
    )

feedback_run-IsNumbered :
    (es : List FeedbackEvent) (p : Provider) → IsNumbered p → IsNumbered (feedback_run p es)
unfolding feedback_run feedback_step dismiss dismiss_feedback
feedback_run-IsNumbered [] p h = h
feedback_run-IsNumbered (raise now tone title message duration ∷ es) p h =
    feedback_run-IsNumbered es _ (notify-IsNumbered now tone title message duration p h)
feedback_run-IsNumbered (close id ∷ es) p h = feedback_run-IsNumbered es _ (
  All-filter (λ i. serial_of i.id < p.serial) (λ i. not (text_eq i.id id)) p.items h.0,
  OrderedBy-filter Precedes (λ i. not (text_eq i.id id)) p.items h.1,
)

-- No two notifications have the same id.
abbrev pub AreDistinct : List FeedbackItem → Type 0
AreDistinct items = OrderedBy (λ a b. a.id ≢ b.id) items

dismiss-none :
    (id : Text) (items : List FeedbackItem)
    → All (λ b. id ≢ b.id) items
    → dismiss_feedback items id ≡ items
unfolding dismiss_feedback
dismiss-none id [] h = refl
dismiss-none id (b ∷ bs) h = ground (arith, h.0, text_eq_iff b.id id, dismiss-none id bs h.1)

All-at :
    (P : FeedbackItem → Type 0) (items : List FeedbackItem) (i : ℕ) (item : FeedbackItem)
    → All P items
    → get_elem? items i ≡ some item
    → P item
All-at P [] i item h e = absurd (ground (arith, e))
All-at P (b ∷ bs) zero item h e = subst P (some_inj e) h.0
All-at P (b ∷ bs) (suc i) item h e = All-at P bs i item h.1 e

length-dismiss :
    (items : List FeedbackItem) (i : ℕ) (item : FeedbackItem)
    → AreDistinct items
    → get_elem? items i ≡ some item
    → suc (length (dismiss_feedback items item.id)) ≡ length items
unfolding dismiss_feedback
length-dismiss [] i item h e = absurd (ground (arith, e))
length-dismiss (b ∷ bs) zero item h e =
    let same : b.id ≡ item.id = ap (λ c. c.id) (some_inj e) in
    ground (
      arith,
      text_eq_iff b.id item.id,
      same,
      dismiss-none item.id bs (All-map _ _ (λ c differ equal. differ (same ∙ equal)) bs h.0),
    )
length-dismiss (b ∷ bs) (suc i) item h e =
    let differ : b.id ≢ item.id = All-at (λ c. b.id ≢ c.id) bs i item h.0 e in
    ground (arith, text_eq_iff b.id item.id, differ, length-dismiss bs i item h.1 e)

-- Whatever is raised and dismissed: at most four notifications are shown, no two of them have the
-- same id, and to dismiss one that is shown takes away exactly one.
pub feedback_run-AreDistinct :
    (es : List FeedbackEvent)
    → let items = (feedback_run empty es).items in
      (length items ≤ 4)
      × AreDistinct items
      × ((i : ℕ) (item : FeedbackItem)
          → get_elem? items i ≡ some item
          → suc (length (dismiss_feedback items item.id)) ≡ length items)
unfolding empty
feedback_run-AreDistinct es =
    let (_, rising) = feedback_run-IsNumbered es empty (tt, tt) in
    let distinct : AreDistinct (feedback_run empty es).items =
      OrderedBy-map Precedes (λ a b. a.id ≢ b.id)
        (λ a b less same. absurd (omega (arith, less, ap serial_of same))) _ rising in
    (
      feedback_run_bounded es,
      distinct,
      λ i item e. length-dismiss (feedback_run empty es).items i item distinct e,
    )
