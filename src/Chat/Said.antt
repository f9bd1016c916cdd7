-- ===== src/Chat/Said.antt =====
-- What the end of a turn says of calls, usage and reason.
use azoth.Base.{
  ◌≡◌, refl, ap, ◌∙◌, ◌++◌, not, ◌&&◌, Option, none, some, List, [], ◌∷◌, if◌then◌else◌, is_empty,
}
use azoth.Base.Int.{ℤ, pos}
use azoth.Base.Text.{Text, codes}
use azoth.ToolCall.{ToolCall}
use azoth.Chat.{
  ChunkUsage, Event, tool_call_complete, usage_event, done_event, call_events, usage_events,
  reason_with,
}

-- All calls in one event, if there are any.
abbrev pub calls_said : {E : Type 0} → List ToolCall → List (Event E)
calls_said cs = if is_empty cs then [] else tool_call_complete cs ∷ []

abbrev pub or_zero : Option ℤ → ℤ
or_zero none = pos 0
or_zero (some n) = n

-- The usage, if there is any; the provider tells no tokens of cache writes and of reasoning.
abbrev pub usage_said : {E : Type 0} → Option ChunkUsage → List (Event E)
usage_said none = []
usage_said (some u) =
    usage_event (record {
      input_tokens = u.prompt_tokens;
      output_tokens = u.completion_tokens;
      cache_read_tokens = or_zero u.cached_tokens;
      cache_write_tokens = pos 0;
      reasoning_tokens = pos 0;
      total_tokens = u.total_tokens;
    })
    ∷ []

-- The provider's reason, or "tool_calls" where it gave none and there are calls.
abbrev pub reason_said : List ToolCall → Text → Text
reason_said cs r = if is_empty r && not (is_empty cs) then codes "tool_calls" else r

pub usage_events-said : (X : Type 0) (u : Option ChunkUsage) → usage_events {X = X} u ≡ usage_said u
usage_events-said X none = refl
usage_events-said X (some u) = elim u.cached_tokens [ some n ↦ refl | none ↦ refl ]

call_events-said : (X : Type 0) (cs : List ToolCall) → call_events {X = X} cs ≡ calls_said cs
call_events-said X [] = refl
call_events-said X (c ∷ cs) = refl

reason_with-said : (cs : List ToolCall) (r : Text) → reason_with cs r ≡ reason_said cs r
reason_with-said [] [] = refl
reason_with-said [] (x ∷ r) = refl
reason_with-said (c ∷ cs) [] = refl
reason_with-said (c ∷ cs) (x ∷ r) = refl

pub closing-said :
    (X : Type 0) (cs : List ToolCall) (u : Option ChunkUsage) (r : Text)
    → call_events {X = X} cs ++ (usage_events u ++ done_event (reason_with cs r) ∷ [])
      ≡ calls_said cs ++ (usage_said u ++ done_event (reason_said cs r) ∷ [])
closing-said X cs u r =
    ap (λ e. call_events cs ++ e)
      (ap (λ e. e ++ done_event (reason_with cs r) ∷ []) (usage_events-said X u))
    ∙ ap (λ t. call_events cs ++ (usage_said u ++ done_event t ∷ [])) (reason_with-said cs r)
    ∙ ap (λ e. e ++ (usage_said u ++ done_event (reason_said cs r) ∷ [])) (call_events-said X cs)
