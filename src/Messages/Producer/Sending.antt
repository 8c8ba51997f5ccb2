-- ===== src/Messages/Producer/Sending.antt =====
-- What the producer sends over any sequence of events.
use kafka_manager.Base.{
  ℕ, ◌+◌, ◌-◌, ◌≡◌, refl, ◌⊎◌, inl, inr, true, false, Option, none, some, List, [], ◌∷◌, arith,
  Text, All, ltb, if◌then◌else◌, Option-cases,
}
use kafka_manager.Messages.Producer.{
  Kind, json, text, ProducerState, start, Fields, Message, SendAnswer, stored, failed, submit,
  invalid, or_text, send_answered,
}

pub data ProducerEvent : Type 0 where
  choose : Kind → ProducerEvent
  typed : Text → ProducerEvent
  submitted : Fields → ProducerEvent
  answered : SendAnswer → ProducerEvent

-- The form, the messages sent, each with the kind that was chosen, and how many are not answered.
pub record ProducerRun : Type 0 where
  pub form : ProducerState
  pub sent : List (Kind × Message)
  pub pending : ℕ

abbrev log : Kind → Option Message → List (Kind × Message) → List (Kind × Message)
log kind none sent = sent
log kind (some m) sent = (kind, m) ∷ sent

abbrev count {ℓ} : {A : Type ℓ} → Option A → ℕ
count none = 0
count (some m) = 1

module _ (parse_error : Text → Option Text) (fixed_topic : Option Text) where
  pub producer_step : ProducerRun → ProducerEvent → ProducerRun
  producer_step r (choose kind) = record r { form = record (r.form) { kind = kind } }
  producer_step r (typed value) = record r { form = record (r.form) { value = value } }
  producer_step r (submitted fields) =
      let (form, sent) = submit parse_error fixed_topic fields r.form in
      record { form = form; sent = log r.form.kind sent r.sent; pending = r.pending + count sent }
  producer_step r (answered answer) =
      if ltb 0 r.pending
      then record r { form = send_answered answer r.form; pending = r.pending - 1 }
      else r

  pub producer_run : ProducerRun → List ProducerEvent → ProducerRun
  producer_run r [] = r
  producer_run r (e ∷ es) = producer_run (producer_step r e) es

  -- A message that was sent as JSON is JSON.
  abbrev pub IsAsChosen : Kind × Message → Type 0
  IsAsChosen (json, m) = parse_error m.value ≡ none
  IsAsChosen (text, m) = Unit

  -- The form knows whether a message is on its way, and there is at most one.
  abbrev pub IsOrderly : ProducerRun → Type 0
  IsOrderly r =
      (((r.form.sending ≡ false) × (r.pending ≡ 0)) ⊎ ((r.form.sending ≡ true) × (r.pending ≡ 1)))
      × All IsAsChosen r.sent

  as_chosen :
      (kind : Kind) (m : Message) → invalid parse_error kind m.value ≡ none → IsAsChosen (kind, m)
  as_chosen json m e = e
  as_chosen text m e = tt

  -- What a submission does, by what refuses it.
  module _ (f : Fields) (s : ProducerState) where
    abbrev result : ProducerState × Option Message
    result = submit parse_error fixed_topic f s

    submit-busy : s.sending ≡ true → (result.0.sending ≡ true) × (result.1 ≡ none)
    unfolding submit
    submit-busy h = ground (arith, h)

    submit-invalid :
        {message : Text}
        → s.sending ≡ false
        → invalid parse_error s.kind s.value ≡ some message
        → (result.0.sending ≡ false) × (result.1 ≡ none)
    unfolding submit
    submit-invalid h e = ground (arith, h, e)

    submit-valid :
        s.sending ≡ false
        → invalid parse_error s.kind s.value ≡ none
        → (result.0.sending ≡ true) × ((m : Message) × (result.1 ≡ some m) × (m.value ≡ s.value))
    unfolding submit
    submit-valid h e =
        let m : Message = record {
          topic = or_text fixed_topic f.topic;
          partition = f.partition;
          key = f.key;
          value = s.value;
        } in
        (ground (arith, h, e), (m, ground (arith, h, e), refl))

  submitted-IsOrderly :
      (r : ProducerRun) (fields : Fields)
      → IsOrderly r
      → IsOrderly (producer_step r (submitted fields))
  unfolding producer_step
  submitted-IsOrderly r fields (inr (busy, one), sent) =
      let (sending, nothing) = submit-busy fields r.form busy in
      rw (sending, nothing) (inr (refl, omega (arith, one)), sent)
  submitted-IsOrderly r fields (inl (idle, zero), sent) =
      elim (Option-cases (invalid parse_error r.form.kind r.form.value)) [
        | inr (message, bad) ↦
            let (sending, nothing) = submit-invalid fields r.form idle bad in
            rw (sending, nothing) (inl (refl, omega (arith, zero)), sent)
        | inl good ↦
            let (sending, (m, it, same)) = submit-valid fields r.form idle good in
            rw (sending, it)
              (inr (refl, omega (arith, zero)), (as_chosen r.form.kind m (rw same good), sent))
      ]

  producer_step-IsOrderly :
      (r : ProducerRun) (e : ProducerEvent) → IsOrderly r → IsOrderly (producer_step r e)
  unfolding producer_step send_answered
  producer_step-IsOrderly r (choose kind) h = h
  producer_step-IsOrderly r (typed value) h = h
  producer_step-IsOrderly r (submitted fields) h = submitted-IsOrderly r fields h
  producer_step-IsOrderly r (answered (stored p o)) h = ground arith
  producer_step-IsOrderly r (answered (failed m)) h = ground arith

  producer_run-IsOrderly :
      (r : ProducerRun) (es : List ProducerEvent) → IsOrderly r → IsOrderly (producer_run r es)
  unfolding producer_run
  producer_run-IsOrderly r [] h = h
  producer_run-IsOrderly r (e ∷ es) h =
      producer_run-IsOrderly (producer_step r e) es (producer_step-IsOrderly r e h)

  abbrev pub first_run : ProducerRun
  first_run = record { form = start; sent = []; pending = 0 }

  -- Whatever is typed, chosen, submitted and answered: at most one message is on its way, the form
  -- knows whether there is one, and every message that was sent as JSON is JSON.
  pub producer_run-first_run-IsOrderly :
      (es : List ProducerEvent) → IsOrderly (producer_run first_run es)
  unfolding start
  producer_run-first_run-IsOrderly es = producer_run-IsOrderly first_run es (inl (refl, refl), tt)
