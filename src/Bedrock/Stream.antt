-- ===== src/Bedrock/Stream.antt =====
-- `Client.Chat`: the loop over the Converse stream, and the connection state around it.
pub mod Meaning
use azoth.Base.{
  ℕ, Bool, true, false, not, ◌&&◌, Option, none, some, List, [], ◌∷◌, ◌++◌, ◌⊎◌, inl, inr,
  if◌then◌else◌, is_empty,
}
use azoth.Base.Int.{ℤ, pos, ◌+ℤ◌, wrap64}
use azoth.Base.Text.{Text, codes}
use azoth.Blocks.{ToolAcc, open_call, add_input}
use azoth.Chat.{
  Event, text_delta, reasoning_delta, tool_call_complete, usage_event, done_event, error_event,
}
use azoth.Message.Usage.{MessageUsage}
use azoth.ToolCall.{ToolCall}
use azoth.ToolCall.IntMap.{Table, lookup, put, remove}
use azoth.Transport.Errors.{GoError, classify_transport_error}
use azoth.Transport.Tracker.{connected, disconnected, state_eq, ConnTracker, set_state, claim_probe}

pub data BlockStart : Type 0 where
  tool_use_start : Option Text → Option Text → BlockStart
  other_start : BlockStart

pub data ReasoningDelta : Type 0 where
  reasoning_text : Text → ReasoningDelta
  other_reasoning : ReasoningDelta

pub data BlockDelta : Type 0 where
  text_member : Text → BlockDelta
  reasoning_member : ReasoningDelta → BlockDelta
  tool_use_member : Option Text → BlockDelta
  other_member : BlockDelta

pub record TokenUsage : Type 0 where
  pub input_tokens : Option ℤ
  pub output_tokens : Option ℤ
  pub cache_read_input_tokens : Option ℤ
  pub cache_write_input_tokens : Option ℤ

pub data ConverseEvent : Type 0 where
  block_start : Option ℤ → BlockStart → ConverseEvent
  block_delta : Option ℤ → BlockDelta → ConverseEvent
  block_stop : Option ℤ → ConverseEvent
  metadata : Option TokenUsage → ConverseEvent
  other_event : ConverseEvent

abbrev pub deref_string : Option Text → Text
deref_string none = []
deref_string (some t) = t

abbrev pub deref_int32 : Option ℤ → ℤ
deref_int32 none = pos 0
deref_int32 (some n) = n

unfoldable pub bedrock_usage_from : ℤ → ℤ → ℤ → ℤ → MessageUsage
unfolding ◌+ℤ◌
bedrock_usage_from input output cache_read cache_write = record {
  input_tokens = input;
  output_tokens = output;
  cache_read_tokens = cache_read;
  cache_write_tokens = cache_write;
  reasoning_tokens = pos 0;
  total_tokens = wrap64 (wrap64 (wrap64 (input +ℤ output) +ℤ cache_read) +ℤ cache_write);
}

abbrev pub start_tool : ℤ → BlockStart → Table ToolAcc → Table ToolAcc
start_tool i (tool_use_start id name) tools =
    put i (open_call (deref_string id) (deref_string name)) tools
start_tool i other_start tools = tools

-- A delta counts if the block is open and the delta carries input.
abbrev pub write_tool : ℤ → Option Text → Option ToolAcc → Table ToolAcc → Table ToolAcc
write_tool i none acc tools = tools
write_tool i (some t) none tools = tools
write_tool i (some t) (some acc) tools = put i (add_input t acc) tools

unfoldable pub stopped_call : ToolAcc → ToolCall
stopped_call acc = record {
  id = acc.id;
  kind = codes "function";
  function = record {
    name = acc.name;
    arguments = if is_empty acc.input then codes "{}" else acc.input;
  };
}

module _ {E : Type 0} where
  abbrev pub reasoning_sent : ReasoningDelta → List (Event E)
  reasoning_sent (reasoning_text t) = if is_empty t then [] else reasoning_delta t ∷ []
  reasoning_sent other_reasoning = []

  unfoldable pub converse_delta : ℤ → BlockDelta → Table ToolAcc → Table ToolAcc × List (Event E)
  converse_delta i (text_member t) tools = (tools, if is_empty t then [] else text_delta t ∷ [])
  converse_delta i (reasoning_member r) tools = (tools, reasoning_sent r)
  converse_delta i (tool_use_member input) tools = (write_tool i input (lookup i tools) tools, [])
  converse_delta i other_member tools = (tools, [])

  unfoldable pub stop_tool : ℤ → Option ToolAcc → Table ToolAcc → Table ToolAcc × List (Event E)
  unfolding stopped_call
  stop_tool i none tools = (tools, [])
  stop_tool i (some acc) tools = (remove i tools, tool_call_complete (stopped_call acc ∷ []) ∷ [])

  abbrev pub metadata_sent : Option TokenUsage → List (Event E)
  metadata_sent none = []
  metadata_sent (some u) =
      usage_event (
        bedrock_usage_from (deref_int32 u.input_tokens) (deref_int32 u.output_tokens)
          (deref_int32 u.cache_read_input_tokens) (deref_int32 u.cache_write_input_tokens))
      ∷ []

  unfoldable pub converse_step : ConverseEvent → Table ToolAcc → Table ToolAcc × List (Event E)
  unfolding converse_delta stop_tool bedrock_usage_from
  converse_step (block_start i b) tools = (start_tool (deref_int32 i) b tools, [])
  converse_step (block_delta i d) tools = converse_delta (deref_int32 i) d tools
  converse_step (block_stop i) tools =
      stop_tool (deref_int32 i) (lookup (deref_int32 i) tools) tools
  converse_step (metadata u) tools = (tools, metadata_sent u)
  converse_step other_event tools = (tools, [])

  unfoldable pub converse_loop : List ConverseEvent → Table ToolAcc → List (Event E)
  unfolding converse_step
  converse_loop [] tools = []
  converse_loop (ev ∷ evs) tools =
      let (tools', sent) = converse_step ev tools in sent ++ converse_loop evs tools'

  -- What the goroutine sends, given `stream.Err()`.
  unfoldable pub converse_events : List ConverseEvent → Option E → List (Event E)
  unfolding converse_loop
  converse_events evs none = converse_loop evs [] ++ (done_event [] ∷ [])
  converse_events evs (some e) = converse_loop evs [] ++ (error_event e ∷ [])

-- What `Chat` does behind the translation of the request: the error or the events, the tracker, and
-- whether a probe goroutine was started.
pub record ConverseTurn : Type 0 where
  pub result : GoError ⊎ List (Event GoError)
  pub conn : ConnTracker
  pub probe : Bool

-- The stream that was opened, with its error, or the error of `ConverseStream`.
unfoldable pub converse :
    GoError ⊎ (List ConverseEvent × Option GoError) → ConnTracker → ℕ → ConverseTurn
unfolding set_state claim_probe classify_transport_error converse_events
converse (inr (evs, err)) conn now = record {
  result = inr (converse_events evs err);
  conn = (set_state conn connected now).0;
  probe = false;
}
converse (inl e) conn now =
    let (down, prev) = set_state conn disconnected now in
    let (claimed, fresh) = claim_probe down in
    let transport = not (is_empty (classify_transport_error e)) in
    let edge = not (state_eq prev disconnected) in
    record {
      result = inl e;
      conn = if transport then (if edge then claimed else down) else conn;
      probe = transport && edge && fresh;
    }
