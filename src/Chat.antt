-- ===== src/Chat.antt =====
-- The stream loop of `Chat` in llm/openai.go, over the reader of llm/sse.go, the loop guard and the
-- tool-call accumulator. A chunk is what `encoding/json` decodes, which is a parameter.
pub mod Said
pub mod Events
pub mod Steps
pub mod Loop
pub mod Turn
pub mod Plain
mod Tests
use azoth.Base.{
  ℕ, zero, suc, ◌+◌, Bool, true, false, not, ◌&&◌, ◌||◌, Option, none, some, List, [], ◌∷◌, ◌++◌,
  ◌⊎◌, inl, inr, if◌then◌else◌, is_empty, length,
}
use azoth.Base.Int.{ℤ, pos, ltb_ℤ}
use azoth.Base.Text.{Text, codes}
use azoth.Base.Utf8.{runes}
use azoth.LoopGuard.{Detector, new_detector, add, add_reasoning}
use azoth.Message.Usage.{MessageUsage}
use azoth.Sse.{parse_sse}
use azoth.ToolCall.{ToolCall, DtCall, merge, finalize}
use azoth.ToolCall.IntMap.{Table}

-- `ChatResponseDelta`, but for the role, which the loop does not read.
pub record Delta (J : Type 0) : Type 0 where
  pub content : Text
  pub reasoning_content : Text
  pub tool_calls : List (DtCall J)

pub record Choice (J : Type 0) : Type 0 where
  pub delta : Delta J
  pub finish_reason : Text

pub record ChunkUsage : Type 0 where
  pub prompt_tokens : ℤ
  pub completion_tokens : ℤ
  pub total_tokens : ℤ
  -- `prompt_tokens_details.cached_tokens`
  pub cached_tokens : Option ℤ

pub record Chunk (J : Type 0) : Type 0 where
  pub choices : List (Choice J)
  pub usage : Option ChunkUsage

pub data StreamError (X : Type 0) : Type 0 where
  unmarshal_chunk : X → StreamError X
  merge_tool_call : StreamError X
  sse_stream : X → StreamError X

pub data Event (E : Type 0) : Type 0 where
  text_delta : Text → Event E
  reasoning_delta : Text → Event E
  tool_call_complete : List ToolCall → Event E
  usage_event : MessageUsage → Event E
  done_event : Text → Event E
  error_event : E → Event E

-- The fields of `OpenAIClient` that the loop reads.
pub record StreamSettings : Type 0 where
  pub stall_timeout : ℤ
  pub loop_guard : Bool
  pub reasoning_budget : ℤ

pub record StreamState : Type 0 where
  pub acc : Table ToolCall
  pub detector : Option Detector
  pub last_usage : Option ChunkUsage
  pub finish_reason : Text
  pub started : Bool
  pub reasoning_runes : ℕ
  pub acting : Bool

-- The loop goes on, was aborted, or returned with an error.
pub data Flow (X : Type 0) : Type 0 where
  going : StreamState → Flow X
  aborted : StreamState → Flow X
  failed : StreamError X → Flow X

-- What a part of the loop sends, and how it ends.
pub record Stretch (X : Type 0) : Type 0 where
  pub events : List (Event (StreamError X))
  pub flow : Flow X

-- What the loop meets in its wait for a chunk: a payload, or a silence of `StallTimeout`.
pub data Arrival : Type 0 where
  payload : Text → Arrival
  silence : Arrival

abbrev pub finish_repetition : Text
finish_repetition = codes "repetition"

abbrev pub finish_stall : Text
finish_stall = codes "stall"

abbrev pub finish_reasoning_budget : Text
finish_reasoning_budget = codes "reasoning_budget"

abbrev pub guard_text : Option Detector → Text → Option Detector × Bool
guard_text none t = (none, false)
guard_text (some d) t = let (d', tripped) = add d (runes t) in (some d', tripped)

abbrev pub guard_reasoning : Option Detector → Text → Option Detector × Bool
guard_reasoning none t = (none, false)
guard_reasoning (some d) t = let (d', tripped) = add_reasoning d (runes t) in (some d', tripped)

abbrev pub message_usage : ChunkUsage → MessageUsage
message_usage u = record {
  input_tokens = u.prompt_tokens;
  output_tokens = u.completion_tokens;
  cache_read_tokens = elim u.cached_tokens [ some n ↦ n | none ↦ pos 0 ];
  cache_write_tokens = pos 0;
  reasoning_tokens = pos 0;
  total_tokens = u.total_tokens;
}

-- The reason that is reported when the provider gave none.
abbrev pub reason_with : List ToolCall → Text → Text
reason_with [] r = r
reason_with (c ∷ cs) r = if is_empty r then codes "tool_calls" else r

module _ {X : Type 0} where
  abbrev pub abort : StreamState → Text → Flow X
  abort s reason = aborted (record s { finish_reason = reason })

  abbrev pub go_on : StreamState → Stretch X
  go_on s = record { events = []; flow = going s }

  abbrev pub continue_from :
      List (Event (StreamError X)) → Flow X → (StreamState → Stretch X) → Stretch X
  continue_from es (going s) k = record { events = es ++ (k s).events; flow = (k s).flow }
  continue_from es (aborted s) k = record { events = es; flow = aborted s }
  continue_from es (failed e) k = record { events = es; flow = failed e }

  abbrev pub and_then : Stretch X → (StreamState → Stretch X) → Stretch X
  and_then r k = continue_from r.events r.flow k

  -- The budget on the runes of reasoning in front of the first action.
  unfoldable pub check_budget : StreamSettings → StreamState → Text → Flow X
  check_budget c s t =
      if ltb_ℤ (pos 0) c.reasoning_budget && not s.acting
      then (let n = s.reasoning_runes + length (runes t) in
          let s' = record s { reasoning_runes = n } in
          if ltb_ℤ c.reasoning_budget (pos n) then abort s' finish_reasoning_budget else going s')
      else going s

  unfoldable pub reasoning_step : StreamSettings → Text → StreamState → Stretch X
  unfolding check_budget
  reasoning_step c t s =
      if is_empty t
      then go_on s
      else (let (d, tripped) = guard_reasoning s.detector t in
          let s' = record s { detector = d } in
          record {
            events = reasoning_delta t ∷ [];
            flow = if tripped then abort s' finish_repetition else check_budget c s' t;
          })

  unfoldable pub content_step : Text → StreamState → Stretch X
  content_step t s =
      if is_empty t
      then go_on s
      else (let (d, tripped) = guard_text s.detector t in
          let s' = record s { acting = true; detector = d } in
          record {
            events = text_delta t ∷ [];
            flow = if tripped then abort s' finish_repetition else going s';
          })

  abbrev pub usage_events : Option ChunkUsage → List (Event (StreamError X))
  usage_events none = []
  usage_events (some u) = usage_event (message_usage u) ∷ []

  abbrev pub call_events : List ToolCall → List (Event (StreamError X))
  call_events [] = []
  call_events (c ∷ cs) = tool_call_complete (c ∷ cs) ∷ []

  abbrev pub closing : StreamState → List (Event (StreamError X))
  closing s =
      let calls = (finalize s.acc).1 in
      call_events calls
      ++ (usage_events s.last_usage ++ done_event (reason_with calls s.finish_reason) ∷ [])

  -- What is sent when the channel of payloads is closed with the reader's error.
  abbrev pub ended : StreamState → Option X → List (Event (StreamError X))
  ended s (some e) = error_event (sse_stream e) ∷ []
  ended s none = closing s

  unfoldable pub finish : Flow X → Option X → List (Event (StreamError X))
  finish (going s) err = ended s err
  finish (aborted s) err = usage_events s.last_usage ++ done_event s.finish_reason ∷ []
  finish (failed e) err = error_event e ∷ []

  module _ (J : Type 0) (marshal : J → Option Text) (decode : Text → X ⊎ Chunk J) where
    abbrev pub merged : StreamState → Table ToolCall × Bool → Flow X
    merged s (acc, true) = going (record s { acc = acc; acting = true })
    merged s (acc, false) = failed merge_tool_call

    unfoldable pub tools_step : List (DtCall J) → StreamState → Stretch X
    tools_step ds s =
        if is_empty ds
        then go_on s
        else record { events = []; flow = merged s (merge J marshal s.acc ds) }

    unfoldable pub choice_step : StreamSettings → Choice J → StreamState → Stretch X
    unfolding reasoning_step content_step tools_step
    choice_step c ch s =
        let s' = record s {
          finish_reason = if is_empty ch.finish_reason then s.finish_reason else ch.finish_reason;
        } in
        and_then (reasoning_step c ch.delta.reasoning_content s') (λ s1.
          and_then (content_step ch.delta.content s1) (λ s2. tools_step ch.delta.tool_calls s2))

    unfoldable pub choices_step : StreamSettings → List (Choice J) → StreamState → Stretch X
    unfolding choice_step
    choices_step c [] s = go_on s
    choices_step c (ch ∷ chs) s = and_then (choice_step c ch s) (λ s'. choices_step c chs s')

    abbrev pub keep_usage : Option ChunkUsage → StreamState → StreamState
    keep_usage none s = s
    keep_usage (some u) s = record s { last_usage = some u }

    unfoldable pub chunk_step : StreamSettings → X ⊎ Chunk J → StreamState → Stretch X
    unfolding choices_step
    chunk_step c (inl e) s = record { events = []; flow = failed (unmarshal_chunk e) }
    chunk_step c (inr chunk) s =
        and_then (choices_step c chunk.choices s) (λ s'. go_on (keep_usage chunk.usage s'))

    -- The loop; the list ends where the channel is closed.
    unfoldable pub stream_loop : StreamSettings → List Arrival → StreamState → Stretch X
    unfolding chunk_step
    stream_loop c [] s = go_on s
    stream_loop c (payload raw ∷ arr) s =
        and_then (chunk_step c (decode raw) (record s { started = true }))
          (λ s'. stream_loop c arr s')
    stream_loop c (silence ∷ arr) s =
        let rest = stream_loop c arr s in
        if ltb_ℤ (pos 0) c.stall_timeout && s.started
        then record { events = []; flow = abort s finish_stall }
        else rest

    abbrev pub start : StreamSettings → StreamState
    start c = record {
      acc = [];
      detector = if c.loop_guard then some new_detector else none;
      last_usage = none;
      finish_reason = [];
      started = false;
      reasoning_runes = 0;
      acting = false;
    }

    -- All that the goroutine sends.
    unfoldable pub chat_stream :
        StreamSettings → List Arrival → Option X → List (Event (StreamError X))
    unfolding stream_loop finish
    chat_stream c arr err = let r = stream_loop c arr (start c) in r.events ++ finish r.flow err

    abbrev pub payloads : List Text → List Arrival
    payloads [] = []
    payloads (p ∷ ps) = payload p ∷ payloads ps

    -- The stream of a response body that never stalls.
    unfoldable pub chat_body : StreamSettings → List Text → Option X → List (Event (StreamError X))
    unfolding chat_stream parse_sse
    chat_body c lines err =
        let p = parse_sse lines err in chat_stream c (payloads p.payloads) p.error
