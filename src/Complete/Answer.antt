-- ===== src/Complete/Answer.antt =====
-- What `Complete` answers, for any events and for those of the OpenAI client.
use mathlib.Core.List.{append_assoc, append-nil}
use azoth.Base.{
  All, ◌≡◌, ◌≢◌, refl, sym, ap, ◌∙◌, true, Option, none, some, List, [], ◌∷◌, ◌++◌, ◌⊎◌, inl, inr,
}
use azoth.Base.Text.{Text}
use azoth.Chat.{
  Chunk, Event, text_delta, reasoning_delta, tool_call_complete, usage_event, done_event,
  error_event, StreamSettings, Arrival, chat_stream,
}
use azoth.Chat.Events.{is_done, is_turn, IsDelta}
use azoth.Chat.Turn.{Stops, chat_stream-grammar, chat_stream-broken}
use azoth.Complete.{
  range_events, stream, CompleteError, stream_failed, index_panic, no_usage, call_error, collect,
  result_of, complete,
}
use azoth.Message.Usage.{MessageUsage}

none-ne-some : {A : Type 0} {a : A} → none ≡ some a → ⊥
none-ne-some h = cc

module _ {E : Type 0} where
  -- The visible text of a turn.
  abbrev pub all_text : List (Event E) → Text
  all_text [] = []
  all_text (text_delta t ∷ es) = t ++ all_text es
  all_text (reasoning_delta t ∷ es) = all_text es
  all_text (tool_call_complete cs ∷ es) = all_text es
  all_text (usage_event u ∷ es) = all_text es
  all_text (done_event r ∷ es) = all_text es
  all_text (error_event e ∷ es) = all_text es

  abbrev pub final_usage : MessageUsage → List (Event E) → MessageUsage
  final_usage u [] = u
  final_usage u (usage_event v ∷ es) = final_usage v es
  final_usage u (text_delta t ∷ es) = final_usage u es
  final_usage u (reasoning_delta t ∷ es) = final_usage u es
  final_usage u (tool_call_complete cs ∷ es) = final_usage u es
  final_usage u (done_event r ∷ es) = final_usage u es
  final_usage u (error_event e ∷ es) = final_usage u es

  -- The first event that is an error or tool calls.
  abbrev pub first_stop : List (Event E) → Option (CompleteError E)
  first_stop [] = none
  first_stop (error_event e ∷ es) = some (stream_failed e)
  first_stop (tool_call_complete cs ∷ es) = some (call_error cs)
  first_stop (text_delta t ∷ es) = first_stop es
  first_stop (reasoning_delta t ∷ es) = first_stop es
  first_stop (usage_event u ∷ es) = first_stop es
  first_stop (done_event r ∷ es) = first_stop es

  abbrev pub answer_of :
      Option (CompleteError E) → Text → MessageUsage → CompleteError E ⊎ (Text × MessageUsage)
  answer_of (some e) t u = inl e
  answer_of none t u = inr (t, u)

  abbrev pub answer : List (Event E) → CompleteError E ⊎ (Text × MessageUsage)
  answer es = answer_of (first_stop es) (all_text es) (final_usage no_usage es)

  answer_of-inl :
      (o : Option (CompleteError E)) (t : Text) (u : MessageUsage) (e : CompleteError E)
      → answer_of o t u ≡ inl e
      → o ≡ some e
  answer_of-inl (some x) t u e h = cc
  answer_of-inl none t u e h = absurd cc

  answer_of-inr :
      (o : Option (CompleteError E)) (t t' : Text) (u u' : MessageUsage)
      → answer_of o t u ≡ inr (t', u')
      → (o ≡ none) × (t' ≡ t)
  answer_of-inr (some x) t t' u u' h = absurd cc
  answer_of-inr none t t' u u' h = (refl, cc)

  range_events-answer :
      (es : List (Event E)) (t : Text) (u : MessageUsage)
      → result_of (range_events collect es (record { text = t; usage = u; returned = none })).state
        ≡ answer_of (first_stop es) (t ++ all_text es) (final_usage u es)
  unfolding range_events
  range_events-answer [] t u = simp append-nil
  range_events-answer (text_delta x ∷ es) t u =
      range_events-answer es (t ++ x) u
      ∙ ap (λ s. answer_of (first_stop es) s (final_usage u es)) (append_assoc t x (all_text es))
  range_events-answer (reasoning_delta x ∷ es) t u = range_events-answer es t u
  range_events-answer (tool_call_complete cs ∷ es) t u = refl
  range_events-answer (usage_event v ∷ es) t u = range_events-answer es t v
  range_events-answer (done_event r ∷ es) t u = range_events-answer es t u
  range_events-answer (error_event e ∷ es) t u = refl

  -- The answer is all visible text and the last usage if no event is an error or a tool call, and
  -- otherwise the first of these as an error; a `Chat` that failed is that error.
  pub complete_lem :
      (es : List (Event E)) (e : E)
      → (complete (inr es) ≡ answer es) × (complete {E = E} (inl e) ≡ inl (stream_failed e))
  unfolding complete stream
  complete_lem es e = (range_events-answer es [] no_usage, refl)

  done_shape : (es : List (Event E)) → is_done es ≡ true → (r : Text) × (es ≡ done_event r ∷ [])
  done_shape [] h = absurd cc
  done_shape (done_event r ∷ []) h = (r, refl)
  done_shape (done_event r ∷ e ∷ es) h = absurd cc
  done_shape (text_delta t ∷ es) h = absurd cc
  done_shape (reasoning_delta t ∷ es) h = absurd cc
  done_shape (tool_call_complete cs ∷ es) h = absurd cc
  done_shape (usage_event u ∷ es) h = absurd cc
  done_shape (error_event e ∷ es) h = absurd cc

  -- A turn that ends with an error has a stop in it.
  failed-stop :
      (ds : List (Event E)) (e : E) → All IsDelta ds → first_stop (ds ++ error_event e ∷ []) ≢ none
  failed-stop [] e h g = cc
  failed-stop (text_delta t ∷ ds) e h g = failed-stop ds e h.1 g
  failed-stop (reasoning_delta t ∷ ds) e h g = failed-stop ds e h.1 g
  failed-stop (tool_call_complete cs ∷ ds) e h g = absurd (cc (h.0))
  failed-stop (usage_event u ∷ ds) e h g = absurd (cc (h.0))
  failed-stop (done_event r ∷ ds) e h g = absurd (cc (h.0))
  failed-stop (error_event x ∷ ds) e h g = absurd (cc (h.0))

  turn_never_panics : (es : List (Event E)) → is_turn es ≡ true → first_stop es ≢ some index_panic
  turn_never_panics [] h g = cc
  turn_never_panics (text_delta [] ∷ es) h g = cc
  turn_never_panics (text_delta (x ∷ t) ∷ es) h g = turn_never_panics es h g
  turn_never_panics (reasoning_delta [] ∷ es) h g = cc
  turn_never_panics (reasoning_delta (x ∷ t) ∷ es) h g = turn_never_panics es h g
  turn_never_panics (tool_call_complete [] ∷ es) h g = cc
  turn_never_panics (tool_call_complete (c ∷ cs) ∷ es) h g = cc
  turn_never_panics (usage_event u ∷ es) h g =
      let (r, shape) = done_shape es h in absurd (none-ne-some (sym (ap first_stop shape) ∙ g))
  turn_never_panics (done_event r ∷ []) h g = cc
  turn_never_panics (done_event r ∷ e ∷ es) h g = cc
  turn_never_panics (error_event e ∷ es) h g = cc

module _ (X J : Type 0) (marshal : J → Option Text) (decode : Text → X ⊎ Chunk J) where
  -- `Complete` over the OpenAI client never indexes an empty list of tool calls.
  pub complete_never_panics :
      (c : StreamSettings) (arrivals : List Arrival) (err : Option X)
      → complete (inr (chat_stream J marshal decode c arrivals err)) ≢ inl index_panic
  unfolding complete stream
  complete_never_panics c arrivals err h =
      let es = chat_stream J marshal decode c arrivals err in
      turn_never_panics es (chat_stream-grammar J marshal decode c arrivals err)
        (answer_of-inl _ _ _ _ (sym (range_events-answer es [] no_usage) ∙ h))

  -- If `Complete` over the OpenAI client gives an answer for a response that broke off, then the
  -- client had stopped the loop before that, for a reason of its own whose setting is on and which
  -- `EventDone` named, and the answer is all the text that was sent until then.
  pub complete-broken :
      (c : StreamSettings) (arrivals : List Arrival) (e : X) (t : Text) (u : MessageUsage)
      → complete (inr (chat_stream J marshal decode c arrivals (some e))) ≡ inr (t, u)
      → Stops J marshal decode c arrivals (chat_stream J marshal decode c arrivals (some e))
        × (t ≡ all_text (chat_stream J marshal decode c arrivals (some e)))
  unfolding complete stream
  complete-broken c arrivals e t u h =
      let es = chat_stream J marshal decode c arrivals (some e) in
      let (unstopped, text) =
        answer_of-inr _ _ _ _ _ (sym (range_events-answer es [] no_usage) ∙ h) in
      elim (chat_stream-broken J marshal decode c arrivals e).1 [
        | inl (ds, x, d, q) ↦ absurd (failed-stop ds x d (ap first_stop (sym q) ∙ unstopped))
        | inr stopped ↦ (stopped, text)
      ]
