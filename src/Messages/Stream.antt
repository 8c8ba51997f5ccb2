-- ===== src/Messages/Stream.antt =====
-- The stream that the page of messages follows, over any sequence of events.
use kafka_manager.Base.{
  ℕ, ◌≤◌, ◌≡◌, refl, ◌⊎◌, inl, inr, Bool, true, false, Option, none, some, List, [], ◌∷◌, arith,
  Text, is_empty, length, length-take, any, ◌==◌, All, Bool-cases, if◌then◌else◌, ap,
}
use kafka_manager.Base.Search.{trim}
use kafka_manager.Types.{MessageRecord}
use kafka_manager.Filters.JsonValue.{Json}
use kafka_manager.Filters.{Number, MessageFilters}
use kafka_manager.Messages.{
  MessagesState, start, stop, unmount, close, QueryRequest, QueryAnswer, failed, received,
  query_answered, on_message, on_error, follow, or_empty, query_messages, fixed_topic_effect,
}

pub data MessagesEvent : Type 0 where
  submit : MessagesEvent
  toggle_follow : MessagesEvent
  answered : QueryRequest → QueryAnswer → MessagesEvent
  message : ℕ → Option MessageRecord → MessagesEvent
  broken : ℕ → MessagesEvent
  bind_topic : Option Text → MessagesEvent
  type_topic : Text → MessagesEvent
  set_filters : MessageFilters → MessagesEvent

-- The server returns at most 500 messages.
abbrev pub IsSmall : MessagesEvent → Type 0
IsSmall (answered request (received result)) = length result.items ≤ 500
IsSmall _ = Unit

-- The page follows one source, which is the only one open, or it follows none and none is open.
abbrev pub IsExclusive : Bool → Option ℕ → List ℕ → Type 0
IsExclusive live stream opened =
    ((live ≡ false) × (stream ≡ none) × (opened ≡ []))
    ⊎ ((n : ℕ) × (live ≡ true) × (stream ≡ some n) × (opened ≡ n ∷ []))

abbrev pub IsWell : MessagesState → Type 0
IsWell s = IsExclusive s.live s.stream s.opened × (length s.items ≤ 500)

close-IsExclusive :
    (live : Bool) (stream : Option ℕ) (opened : List ℕ)
    → IsExclusive live stream opened
    → close stream opened ≡ []
close-IsExclusive live stream opened (inl (a, b, c)) = rw (b, c)
close-IsExclusive live stream opened (inr (n, a, b, c)) = rw (b, c) (ground arith)

stop-IsWell : (s : MessagesState) → IsWell s → IsWell (stop s)
unfolding stop
stop-IsWell s (e, n) = (inl (refl, refl, close-IsExclusive s.live s.stream s.opened e), n)

idle :
    {live : Bool} {stream : Option ℕ} {opened : List ℕ}
    → live ≡ false
    → IsExclusive live stream opened
    → opened ≡ []
idle e (inl (a, b, c)) = c
idle e (inr (n, a, b, c)) = cc

-- A property of both branches, each under its test.
if-IsWell :
    (b : Bool) (s t : MessagesState)
    → (b ≡ true → IsWell s)
    → (b ≡ false → IsWell t)
    → IsWell (if b then s else t)
if-IsWell true s t p q = p refl
if-IsWell false s t p q = q refl

follow-IsWell : (s : MessagesState) → IsWell s → IsWell (follow s)
unfolding follow
follow-IsWell s (e, n) =
    if-IsWell s.live (stop s) _ (λ on. stop-IsWell s (e, n))
      λ off.
        if-IsWell (is_empty (trim s.topic)) _ _ (λ blank. (e, n))
          (λ given.
            (inr (s.next_source, refl, refl, ap (◌∷◌ s.next_source) (idle off e)), omega arith))

on_message-IsWell :
    (source : ℕ) (m : Option MessageRecord) (s : MessagesState)
    → IsWell s
    → IsWell (on_message source m s)
unfolding on_message
on_message-IsWell source none s h = h
on_message-IsWell source (some m) s (e, n) =
    if-IsWell (any (λ k. k == source) s.opened) _ _
      (λ here. (e, omega (arith, length-take {0} 500 (m ∷ s.items)))) (λ gone. (e, n))

on_error-IsWell : (source : ℕ) (s : MessagesState) → IsWell s → IsWell (on_error source s)
unfolding on_error
on_error-IsWell source s h =
    if-IsWell (any (λ k. k == source) s.opened) _ _ (λ here. stop-IsWell _ h) (λ gone. h)

module _ (stringify : Json → Text) (show_number : Number → Text) (epoch : Text → Text) where
  pub messages_step : MessagesState → MessagesEvent → MessagesState
  messages_step s submit = (query_messages stringify show_number epoch s.topic s).0
  messages_step s toggle_follow = follow s
  messages_step s (answered request answer) = query_answered request answer s
  messages_step s (message source m) = on_message source m s
  messages_step s (broken source) = on_error source s
  messages_step s (bind_topic t) = (fixed_topic_effect stringify show_number epoch t s).0
  messages_step s (type_topic t) = record s { topic = t }
  messages_step s (set_filters f) = record s { filters = f }

  pub messages_run : MessagesState → List MessagesEvent → MessagesState
  messages_run s [] = s
  messages_run s (e ∷ es) = messages_run (messages_step s e) es

  fixed_topic_effect-IsWell :
      (t : Option Text) (s : MessagesState)
      → IsWell s
      → IsWell (fixed_topic_effect stringify show_number epoch t s).0
  unfolding fixed_topic_effect query_messages stop
  fixed_topic_effect-IsWell t s h = elim (Bool-cases (is_empty (or_empty t))) [
    | inl absent ↦ rw (absent, fixed_topic_effect) (stop-IsWell (stop s) (stop-IsWell s h))
    | inr present ↦ rw (present, fixed_topic_effect) (stop-IsWell (stop s) (stop-IsWell s h))
  ]

  messages_step-IsWell :
      (s : MessagesState) (e : MessagesEvent) → IsSmall e → IsWell s → IsWell (messages_step s e)
  unfolding messages_step query_messages query_answered
  messages_step-IsWell s submit small h = stop-IsWell s h
  messages_step-IsWell s toggle_follow small h = follow-IsWell s h
  messages_step-IsWell s (answered request (failed m)) small h = h
  messages_step-IsWell s (answered request (received r)) small h = (h.0, small)
  messages_step-IsWell s (message source m) small h = on_message-IsWell source m s h
  messages_step-IsWell s (broken source) small h = on_error-IsWell source s h
  messages_step-IsWell s (bind_topic t) small h = fixed_topic_effect-IsWell t s h
  messages_step-IsWell s (type_topic t) small h = h
  messages_step-IsWell s (set_filters f) small h = h

  messages_run-IsWell :
      (s : MessagesState) (es : List MessagesEvent)
      → All IsSmall es
      → IsWell s
      → IsWell (messages_run s es)
  unfolding messages_run
  messages_run-IsWell s [] small h = h
  messages_run-IsWell s (e ∷ es) small h =
      messages_run-IsWell (messages_step s e) es small.1 (messages_step-IsWell s e small.0 h)

  -- Whatever happens on a page, if the server returns at most 500 messages a query: at most 500
  -- messages are kept; the page says that it follows exactly if one source is open, and it holds
  -- that source; and leaving the page leaves no source open.
  pub messages_run-start-IsWell :
      (fixed_topic : Option Text) (filters : MessageFilters) (es : List MessagesEvent)
      → All IsSmall es
      → let s = messages_run (start fixed_topic filters) es in IsWell s × ((unmount s).opened ≡ [])
  unfolding unmount start
  messages_run-start-IsWell fixed_topic filters es small =
      let s : MessagesState = messages_run (start fixed_topic filters) es in
      let h : IsWell s =
        messages_run-IsWell (start fixed_topic filters) es small
          (inl (refl, refl, refl), omega arith) in
      (h, close-IsExclusive s.live s.stream s.opened h.0)
