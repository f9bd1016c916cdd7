-- ===== src/Vertex/Stream.antt =====
-- `Client.Chat`: the callback of the stream, and the end of the turn. The encoder of a call's arguments
-- is a parameter.
pub mod Endings
use azoth.Base.{
  ℕ, suc, ◌+◌, Bool, true, false, not, ◌&&◌, ◌||◌, Option, none, some, List, [], ◌∷◌, ◌++◌, ◌⊎◌,
  inl, inr, if◌then◌else◌, is_empty,
}
use azoth.Base.Int.{ℤ, pos, ltb_ℤ}
use azoth.Base.Text.{Text, codes, decimal}
use azoth.Chat.{
  Event, text_delta, reasoning_delta, tool_call_complete, usage_event, done_event, error_event,
}
use azoth.Message.Usage.{MessageUsage}
use azoth.ToolCall.{ToolCall}
use azoth.Transport.Errors.{GoError, classify_transport_error}
use azoth.Transport.Tracker.{connected, disconnected, state_eq, ConnTracker, set_state, claim_probe}

-- `genai.FinishReason`, by the constants that the adapter names.
pub data FinishReason : Type 0 where
  no_reason max_tokens safety recitation blocklist prohibited_content spii : FinishReason
  image_safety malformed_function_call : FinishReason
  other_reason : Text → FinishReason

-- `genai.BlockedReason`.
pub data BlockReason : Type 0 where
  no_block unspecified_block : BlockReason
  block : Text → BlockReason

-- `A` is the map of a call's arguments.
pub record FunctionCall (A : Type 0) : Type 0 where
  pub id : Text
  pub name : Text
  pub args : A

pub record Part (A : Type 0) : Type 0 where
  pub function_call : Option (FunctionCall A)
  pub text : Text
  pub thought : Bool

-- A pointer that can be nil is an Option.
pub record Candidate (A : Type 0) : Type 0 where
  pub finish_reason : FinishReason
  pub content : Option (List (Option (Part A)))

pub record UsageMetadata : Type 0 where
  pub prompt_token_count : ℤ
  pub candidates_token_count : ℤ
  pub cached_content_token_count : ℤ
  pub total_token_count : ℤ

pub record Response (A : Type 0) : Type 0 where
  pub prompt_feedback : Option BlockReason
  pub usage_metadata : Option UsageMetadata
  pub candidates : List (Option (Candidate A))

pub data VertexError : Type 0 where
  marshal_args : VertexError
  stream_failed : GoError → VertexError
  blocked : Text → VertexError

-- The variables of the goroutine; the usage is none until `sawUsage`.
pub record StreamState : Type 0 where
  pub stream_err : Option GoError
  pub last_usage : Option MessageUsage
  pub tool_call_idx : ℕ
  pub finish_reason : FinishReason
  pub block_reason : BlockReason

-- What a part of the callback sends, and whether it goes on.
pub record Walk : Type 0 where
  pub state : StreamState
  pub events : List (Event VertexError)
  pub more : Bool

unfoldable pub vertex_usage_from : ℤ → ℤ → ℤ → ℤ → MessageUsage
vertex_usage_from prompt candidates cached total = record {
  input_tokens = prompt;
  output_tokens = candidates;
  cache_read_tokens = cached;
  cache_write_tokens = pos 0;
  reasoning_tokens = pos 0;
  total_tokens = total;
}

unfoldable pub synth_tool_call_id : Text → Text → ℕ → Text
unfolding decimal
synth_tool_call_id provided name idx =
    if not (is_empty provided)
    then provided
    else codes "call_" ++ (name ++ (codes "_" ++ decimal idx))

abbrev pub finish_message : FinishReason → Text
finish_message safety = codes "response blocked by safety filters"
finish_message recitation = codes "response blocked for recitation (cited/copyrighted content)"
finish_message blocklist = codes "response blocked by a terminology blocklist"
finish_message prohibited_content = codes "response blocked: prohibited content"
finish_message spii = codes "response blocked: sensitive personally identifiable information"
finish_message image_safety = codes "response blocked: image safety"
finish_message malformed_function_call = codes "model emitted a malformed function call"
finish_message no_reason = []
finish_message max_tokens = []
finish_message (other_reason t) = []

unfoldable pub block_message : FinishReason → BlockReason → Text
block_message fr no_block = finish_message fr
block_message fr unspecified_block = finish_message fr
block_message fr (block t) = codes "prompt blocked (" ++ (t ++ codes ")")

abbrev pub finish_length : Text
finish_length = codes "length"

unfoldable pub map_finish_reason : FinishReason → Text
map_finish_reason max_tokens = finish_length
map_finish_reason no_reason = []
map_finish_reason safety = []
map_finish_reason recitation = []
map_finish_reason blocklist = []
map_finish_reason prohibited_content = []
map_finish_reason spii = []
map_finish_reason image_safety = []
map_finish_reason malformed_function_call = []
map_finish_reason (other_reason t) = []

abbrev pub silent : StreamState → Walk
silent s = record { state = s; events = []; more = true }

abbrev pub and_walk : Walk → (StreamState → Walk) → Walk
and_walk w k =
    let next = k w.state in
    if w.more
    then record { state = next.state; events = w.events ++ next.events; more = next.more }
    else w

abbrev pub with_reason : FinishReason → StreamState → StreamState
with_reason no_reason s = s
with_reason r s = record s { finish_reason = r }

abbrev pub block_of : Option BlockReason → StreamState → StreamState
block_of none s = s
block_of (some no_block) s = s
block_of (some b) s = record s { block_reason = b }

-- A report counts with tokens in the prompt or in the cache.
abbrev pub usage_of : Option UsageMetadata → StreamState → StreamState
usage_of none s = s
usage_of (some u) s =
    if ltb_ℤ (pos 0) u.prompt_token_count || ltb_ℤ (pos 0) u.cached_content_token_count
    then record s {
      last_usage = some (
          vertex_usage_from u.prompt_token_count u.candidates_token_count
            u.cached_content_token_count u.total_token_count);
    }
    else s

module _ {A : Type 0} (marshal : A → Option Text) where
  abbrev pub sent_call : FunctionCall A → Option Text → StreamState → Walk
  sent_call fc none s = record { state = s; events = error_event marshal_args ∷ []; more = false }
  sent_call fc (some args) s = record {
    state = record s { tool_call_idx = suc s.tool_call_idx };
    events =
        tool_call_complete (
          record {
            id = synth_tool_call_id fc.id fc.name s.tool_call_idx;
            kind = codes "function";
            function = record { name = fc.name; arguments = args };
          }
          ∷ [])
        ∷ [];
    more = true;
  }

  abbrev pub sent_part : Option (FunctionCall A) → Part A → StreamState → Walk
  sent_part (some fc) part s = sent_call fc (marshal fc.args) s
  sent_part none part s = if is_empty part.text then silent s else record {
    state = s;
    events = (if part.thought then reasoning_delta part.text else text_delta part.text) ∷ [];
    more = true;
  }

  abbrev pub part_walk : Option (Part A) → StreamState → Walk
  part_walk none s = silent s
  part_walk (some part) s = sent_part part.function_call part s

  unfoldable pub parts_walk : List (Option (Part A)) → StreamState → Walk
  unfolding synth_tool_call_id
  parts_walk [] s = silent s
  parts_walk (p ∷ ps) s = and_walk (part_walk p s) (λ s'. parts_walk ps s')

  abbrev pub content_walk : Option (List (Option (Part A))) → StreamState → Walk
  content_walk none s = silent s
  content_walk (some parts) s = parts_walk parts s

  abbrev pub candidate_walk : Option (Candidate A) → StreamState → Walk
  candidate_walk none s = silent s
  candidate_walk (some cand) s = content_walk cand.content (with_reason cand.finish_reason s)

  unfoldable pub candidates_walk : List (Option (Candidate A)) → StreamState → Walk
  unfolding parts_walk
  candidates_walk [] s = silent s
  candidates_walk (c ∷ cs) s = and_walk (candidate_walk c s) (λ s'. candidates_walk cs s')

  -- The callback.
  unfoldable pub response_walk : GoError ⊎ Response A → StreamState → Walk
  unfolding candidates_walk vertex_usage_from
  response_walk (inl err) s = record {
    state = record s { stream_err = some err };
    events = [];
    more = false;
  }
  response_walk (inr resp) s =
      candidates_walk resp.candidates
        (usage_of resp.usage_metadata (block_of resp.prompt_feedback s))

  unfoldable pub stream_walk : List (GoError ⊎ Response A) → StreamState → Walk
  unfolding response_walk
  stream_walk [] s = silent s
  stream_walk (r ∷ rs) s = and_walk (response_walk r s) (λ s'. stream_walk rs s')

  abbrev pub usage_sent : Option MessageUsage → List (Event VertexError)
  usage_sent none = []
  usage_sent (some u) = usage_event u ∷ []

  abbrev pub last_event : FinishReason → Text → Event VertexError
  last_event fr msg =
      if is_empty msg then done_event (map_finish_reason fr) else error_event (blocked msg)

  -- What is sent behind the stream.
  unfoldable pub closing_events : Option GoError → StreamState → List (Event VertexError)
  unfolding block_message map_finish_reason
  closing_events (some err) s = error_event (stream_failed err) ∷ []
  closing_events none s =
      usage_sent s.last_usage
      ++ (last_event s.finish_reason (block_message s.finish_reason s.block_reason) ∷ [])

  abbrev pub new_state : StreamState
  new_state = record {
    stream_err = none;
    last_usage = none;
    tool_call_idx = 0;
    finish_reason = no_reason;
    block_reason = no_block;
  }

  -- All that the goroutine sends.
  unfoldable pub vertex_events : List (GoError ⊎ Response A) → List (Event VertexError)
  unfolding stream_walk closing_events
  vertex_events rs =
      let w = stream_walk rs new_state in w.events ++ closing_events w.state.stream_err w.state
