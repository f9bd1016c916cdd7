-- ===== src/Anthropic/Stream.antt =====
-- `streamAnthropic`: the loop over the SDK's events, and the connection state at its end.
pub mod Meaning
pub mod Connection
pub mod Calls
pub mod Usage
use azoth.Base.{
  ℕ, ◌≡◌, refl, sym, ap, ◌∙◌, Bool, true, false, not, ◌&&◌, Option, none, some, List, [], ◌∷◌, ◌++◌,
  if◌then◌else◌, is_empty, map,
}
use azoth.Base.Int.{ℤ, pos, ◌+ℤ◌, wrap64}
use azoth.Base.Text.{Text, codes}
use azoth.Blocks.{ToolAcc, open_call, add_input}
use azoth.Chat.{
  Event, text_delta, reasoning_delta, tool_call_complete, usage_event, done_event, error_event,
}
use azoth.Message.Usage.{MessageUsage}
use azoth.ToolCall.{ToolCall}
use azoth.ToolCall.IntMap.{Table, lookup, put, remove}
use azoth.Transport.Errors.{GoError, Friendly, classify_transport_error, friendly_http_error}
use azoth.Transport.Tracker.{ConnState, connected, disconnected, state_eq, ConnTracker, set_state}

pub data StartedBlock : Type 0 where
  tool_use : Text → Text → StartedBlock
  other_block : StartedBlock

pub data BlockDelta : Type 0 where
  text_piece : Text → BlockDelta
  thinking_piece : Text → BlockDelta
  input_json_piece : Text → BlockDelta
  other_piece : BlockDelta

pub record SdkUsage : Type 0 where
  pub input_tokens : ℤ
  pub output_tokens : ℤ
  pub cache_read_input_tokens : ℤ
  pub cache_creation_input_tokens : ℤ

-- `stream.Current()`, by its type.
pub data SdkEvent : Type 0 where
  content_block_start : ℤ → StartedBlock → SdkEvent
  content_block_delta : ℤ → BlockDelta → SdkEvent
  content_block_stop : ℤ → SdkEvent
  message_start : SdkUsage → SdkEvent
  message_delta : SdkUsage → SdkEvent
  message_stop : SdkEvent
  other_event : SdkEvent

unfoldable pub anthropic_usage_from : ℤ → ℤ → ℤ → ℤ → MessageUsage
unfolding ◌+ℤ◌
anthropic_usage_from input output cache_read cache_write = record {
  input_tokens = input;
  output_tokens = output;
  cache_read_tokens = cache_read;
  cache_write_tokens = cache_write;
  reasoning_tokens = pos 0;
  total_tokens = wrap64 (wrap64 (wrap64 (input +ℤ output) +ℤ cache_read) +ℤ cache_write);
}

abbrev pub start_block : ℤ → StartedBlock → Table ToolAcc → Table ToolAcc
start_block i (tool_use id name) inflight = put i (open_call id name) inflight
start_block i other_block inflight = inflight

abbrev pub write_input : ℤ → Text → Option ToolAcc → Table ToolAcc → Table ToolAcc
write_input i t none inflight = inflight
write_input i t (some acc) inflight = put i (add_input t acc) inflight

-- The call of a block that stops.
unfoldable pub finished_call : ToolAcc → ToolCall
finished_call acc = record {
  id = acc.id;
  kind = codes "function";
  function = record {
    name = acc.name;
    arguments = if is_empty acc.input then codes "{}" else acc.input;
  };
}

module _ {E : Type 0} where
  unfoldable pub delta_step : ℤ → BlockDelta → Table ToolAcc → Table ToolAcc × List (Event E)
  delta_step i (text_piece t) inflight = (inflight, if is_empty t then [] else text_delta t ∷ [])
  delta_step i (thinking_piece t) inflight =
      (inflight, if is_empty t then [] else reasoning_delta t ∷ [])
  delta_step i (input_json_piece t) inflight = (write_input i t (lookup i inflight) inflight, [])
  delta_step i other_piece inflight = (inflight, [])

  unfoldable pub stop_block : ℤ → Option ToolAcc → Table ToolAcc → Table ToolAcc × List (Event E)
  unfolding finished_call
  stop_block i none inflight = (inflight, [])
  stop_block i (some acc) inflight =
      (remove i inflight, tool_call_complete (finished_call acc ∷ []) ∷ [])

  -- One round of the loop: the map of open tool calls behind it, and what is sent.
  unfoldable pub sdk_step : SdkEvent → Table ToolAcc → Table ToolAcc × List (Event E)
  unfolding delta_step stop_block anthropic_usage_from
  sdk_step (content_block_start i b) inflight = (start_block i b inflight, [])
  sdk_step (content_block_delta i d) inflight = delta_step i d inflight
  sdk_step (content_block_stop i) inflight = stop_block i (lookup i inflight) inflight
  sdk_step (message_start u) inflight = (inflight, [])
  sdk_step (message_delta u) inflight = (
    inflight,
    usage_event (
          anthropic_usage_from u.input_tokens u.output_tokens u.cache_read_input_tokens
            u.cache_creation_input_tokens)
        ∷ [],
  )
  sdk_step message_stop inflight = (inflight, [])
  sdk_step other_event inflight = (inflight, [])

  unfoldable pub sdk_loop : List SdkEvent → Table ToolAcc → List (Event E)
  unfolding sdk_step
  sdk_loop [] inflight = []
  sdk_loop (ev ∷ evs) inflight =
      let (inflight', sent) = sdk_step ev inflight in sent ++ sdk_loop evs inflight'

-- What the goroutine sends, the tracker it leaves, and whether it called `startProbe`.
pub record SdkTurn : Type 0 where
  pub events : List (Event Friendly)
  pub conn : ConnTracker
  pub started_probe : Bool

-- What is behind the loop, at time `now`, given `stream.Err()`.
unfoldable pub end_turn : Text → Bool → Option GoError → ConnTracker → ℕ → SdkTurn
unfolding set_state classify_transport_error friendly_http_error
end_turn label has_probe none conn now = record {
  events = done_event [] ∷ [];
  conn = (set_state conn connected now).0;
  started_probe = false;
}
end_turn label has_probe (some err) conn now =
    let (conn', prev) = set_state conn disconnected now in
    let transport = not (is_empty (classify_transport_error err)) in
    record {
      events = error_event (friendly_http_error label [] err) ∷ [];
      conn = if transport then conn' else conn;
      started_probe = transport && not (state_eq prev disconnected) && has_probe;
    }

-- `label` and `startProbe != nil` are those of the caller.
unfoldable pub stream_anthropic :
    Text → Bool → List SdkEvent → Option GoError → ConnTracker → ℕ → SdkTurn
unfolding sdk_loop end_turn
stream_anthropic label has_probe evs err conn now =
    let fin = end_turn label has_probe err conn now in
    record fin { events = sdk_loop evs [] ++ fin.events }
