-- ===== src/Complete.antt =====
-- llm/stream.go and llm/complete.go: the events of a turn as pairs that a loop consumes, and the one
-- completion that is collected from them. A client's `Chat` is its error or the events it sends.
pub mod Answer
mod Tests
use azoth.Base.{
  Bool, true, false, Option, none, some, List, [], ◌∷◌, ◌++◌, ◌⊎◌, inl, inr, if◌then◌else◌,
}
use azoth.Base.Int.{pos}
use azoth.Base.Text.{Text}
use azoth.Chat.{
  Event, text_delta, reasoning_delta, tool_call_complete, usage_event, done_event, error_event,
}
use azoth.Message.Usage.{MessageUsage}
use azoth.ToolCall.{ToolCall}

-- The state of the loop's body behind it, and the events that are drained.
pub record Consumed (S E : Type 0) : Type 0 where
  pub state : S
  pub drained : List (Event E)

-- The pair that is yielded for an event: the event, or the error of an `EventError`.
abbrev pub pair_of : {E : Type 0} → Event E → Event E ⊎ E
pair_of (error_event e) = inr e
pair_of (text_delta t) = inl (text_delta t)
pair_of (reasoning_delta t) = inl (reasoning_delta t)
pair_of (tool_call_complete cs) = inl (tool_call_complete cs)
pair_of (usage_event u) = inl (usage_event u)
pair_of (done_event r) = inl (done_event r)

-- `yield` is the body of the loop; false when the body leaves it.
module _ {S E : Type 0} (yield : S → Event E ⊎ E → S × Bool) where
  unfoldable pub range_events : List (Event E) → S → Consumed S E
  range_events [] s = record { state = s; drained = [] }
  range_events (ev ∷ es) s =
      let (s', more) = yield s (pair_of ev) in
      let rest = range_events es s' in if more then rest else record { state = s'; drained = es }

  unfoldable pub stream : E ⊎ List (Event E) → S → Consumed S E
  unfolding range_events
  stream (inl e) s = record { state = (yield s (inr e)).0; drained = [] }
  stream (inr es) s = range_events es s

pub data CompleteError (E : Type 0) : Type 0 where
  stream_failed : E → CompleteError E
  got_tool_call : Text → CompleteError E
  -- `ev.ToolCalls[0]` of an empty list
  index_panic : CompleteError E

-- The variables of `Complete`, and the error it returned with.
pub record Collected (E : Type 0) : Type 0 where
  pub text : Text
  pub usage : MessageUsage
  pub returned : Option (CompleteError E)

abbrev pub no_usage : MessageUsage
no_usage = record {
  input_tokens = pos 0;
  output_tokens = pos 0;
  cache_read_tokens = pos 0;
  cache_write_tokens = pos 0;
  reasoning_tokens = pos 0;
  total_tokens = pos 0;
}

module _ {E : Type 0} where
  abbrev pub call_error : List ToolCall → CompleteError E
  call_error [] = index_panic
  call_error (c ∷ cs) = got_tool_call c.function.name

  -- The body of the loop in `Complete`.
  abbrev pub collect : Collected E → Event E ⊎ E → Collected E × Bool
  collect s (inr e) = (record s { returned = some (stream_failed e) }, false)
  collect s (inl (text_delta t)) = (record s { text = s.text ++ t }, true)
  collect s (inl (tool_call_complete cs)) = (record s { returned = some (call_error cs) }, false)
  collect s (inl (usage_event u)) = (record s { usage = u }, true)
  collect s (inl (reasoning_delta t)) = (s, true)
  collect s (inl (done_event r)) = (s, true)
  collect s (inl (error_event e)) = (s, true)

  abbrev pub result_of : Collected E → CompleteError E ⊎ (Text × MessageUsage)
  result_of s = elim s.returned [ some e ↦ inl e | none ↦ inr (s.text, s.usage) ]

  unfoldable pub complete : E ⊎ List (Event E) → CompleteError E ⊎ (Text × MessageUsage)
  unfolding stream
  complete chat =
      result_of
        (stream collect chat (record { text = []; usage = no_usage; returned = none })).state
