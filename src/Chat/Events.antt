-- ===== src/Chat/Events.antt =====
-- The shape of the events of a turn.
use azoth.Base.{
  ◌≡◌, refl, ◌∙◌, Bool, true, false, not, ◌&&◌, Option, none, some, List, [], ◌∷◌, ◌++◌, ◌⊎◌,
  if◌then◌else◌, is_empty, All, if_true,
}
use azoth.Base.Text.{Text}
use azoth.Chat.{
  Event, text_delta, reasoning_delta, tool_call_complete, usage_event, done_event, error_event,
  finish_repetition, finish_stall, finish_reasoning_budget,
}

abbrev pub is_delta : {E : Type 0} → Event E → Bool
is_delta (text_delta t) = not (is_empty t)
is_delta (reasoning_delta t) = not (is_empty t)
is_delta (tool_call_complete cs) = false
is_delta (usage_event u) = false
is_delta (done_event r) = false
is_delta (error_event e) = false

-- `EventDone` and nothing more.
abbrev pub is_done : {E : Type 0} → List (Event E) → Bool
is_done (done_event r ∷ []) = true
is_done _ = false

abbrev pub is_usage_done : {E : Type 0} → List (Event E) → Bool
is_usage_done (usage_event u ∷ es) = is_done es
is_usage_done es = is_done es

-- One error, or the calls if there are any, the usage if there is one, and `EventDone`.
abbrev pub is_ending : {E : Type 0} → List (Event E) → Bool
is_ending (error_event e ∷ []) = true
is_ending (tool_call_complete cs ∷ es) = not (is_empty cs) && is_usage_done es
is_ending es = is_usage_done es

-- The grammar of a turn: text that is not empty, and an ending.
abbrev pub is_turn : {E : Type 0} → List (Event E) → Bool
is_turn [] = false
is_turn (e ∷ es) = if is_delta e then is_turn es else is_ending (e ∷ es)

abbrev pub IsDelta : {E : Type 0} → Event E → Type 0
IsDelta e = is_delta e ≡ true

-- The reason of the first `EventDone`, and whether tool calls are handed out.
abbrev pub done_reason : {E : Type 0} → List (Event E) → Option Text
done_reason [] = none
done_reason (done_event r ∷ es) = some r
done_reason (text_delta t ∷ es) = done_reason es
done_reason (reasoning_delta t ∷ es) = done_reason es
done_reason (tool_call_complete cs ∷ es) = done_reason es
done_reason (usage_event u ∷ es) = done_reason es
done_reason (error_event e ∷ es) = done_reason es

abbrev pub has_calls : {E : Type 0} → List (Event E) → Bool
has_calls [] = false
has_calls (tool_call_complete cs ∷ es) = true
has_calls (done_event r ∷ es) = has_calls es
has_calls (text_delta t ∷ es) = has_calls es
has_calls (reasoning_delta t ∷ es) = has_calls es
has_calls (usage_event u ∷ es) = has_calls es
has_calls (error_event e ∷ es) = has_calls es

-- The reasons that the client itself gives when it stops reading.
abbrev pub IsAbortReason : Text → Type 0
IsAbortReason r = (r ≡ finish_repetition) ⊎ (r ≡ finish_stall) ⊎ (r ≡ finish_reasoning_budget)

module _ {E : Type 0} where
  pub is_turn-append :
      (ds es : List (Event E)) → All IsDelta ds → is_turn es ≡ true → is_turn (ds ++ es) ≡ true
  is_turn-append [] es h t = t
  is_turn-append (d ∷ ds) es h t = if_true _ _ h.0 ∙ is_turn-append ds es h.1 t

  pub done_reason-append :
      (ds es : List (Event E)) → All IsDelta ds → done_reason (ds ++ es) ≡ done_reason es
  done_reason-append [] es h = refl
  done_reason-append (text_delta t ∷ ds) es h = done_reason-append ds es h.1
  done_reason-append (reasoning_delta t ∷ ds) es h = done_reason-append ds es h.1
  done_reason-append (tool_call_complete cs ∷ ds) es h = cc (h.0)
  done_reason-append (usage_event u ∷ ds) es h = cc (h.0)
  done_reason-append (done_event r ∷ ds) es h = cc (h.0)
  done_reason-append (error_event e ∷ ds) es h = cc (h.0)

  pub has_calls-append :
      (ds es : List (Event E)) → All IsDelta ds → has_calls (ds ++ es) ≡ has_calls es
  has_calls-append [] es h = refl
  has_calls-append (text_delta t ∷ ds) es h = has_calls-append ds es h.1
  has_calls-append (reasoning_delta t ∷ ds) es h = has_calls-append ds es h.1
  has_calls-append (tool_call_complete cs ∷ ds) es h = cc (h.0)
  has_calls-append (usage_event u ∷ ds) es h = cc (h.0)
  has_calls-append (done_event r ∷ ds) es h = cc (h.0)
  has_calls-append (error_event e ∷ ds) es h = cc (h.0)
