-- ===== src/Anthropic/Tests.antt =====
-- A stream with a tool call between two texts, a lost stream, a history and its request.
use azoth.Base.{
  ℕ, ◌+◌, ◌≤◌, ◌≡◌, refl, arith, true, false, not, ◌&&◌, none, some, List, [], ◌∷◌, ◌++◌, ◌⊎◌, inl,
  inr, map, ltb, is_empty, if◌then◌else◌,
}
use azoth.Base.Int.{pos, ltb_ℤ, leb_ℤ}
use azoth.Base.Results.{is_ok, every}
use azoth.Base.Text.{Text, codes, text_eq}
use azoth.Chat.{text_delta, tool_call_complete}
use azoth.Message.{MessagePart, image_part, Message, bytes_part, uri_part}
use azoth.Transport.Errors.{GoError, conn_reset, classify_transport_error}
use azoth.Transport.Tracker.{ConnTracker, connected, disconnected, state_eq}
use azoth.ToolCall.{ToolCall}
use azoth.ToolCall.IntMap.{lookup, put, remove}
use azoth.Anthropic.Stream.{
  SdkEvent, tool_use, other_block, text_piece, input_json_piece, content_block_start,
  content_block_delta, content_block_stop, sdk_loop, stream_anthropic,
}
use azoth.Anthropic.Stream.Connection.{IsTransportError, stream_anthropic-edge}
use azoth.Anthropic.Messages.{text_block, user_role, split_system}
use azoth.Anthropic.Messages.Sendable.{sendable, split_system-sendable}
use azoth.Anthropic.Schema.{ToolDef, str, other_item, items, nil_value, new_schema}
use azoth.Anthropic.Params.{Params, Turn, fresh, thinking_budget, apply_prompt_caching}
use azoth.Anthropic.Params.Budget.{thinking_budget_range}
use azoth.Anthropic.Params.Markers.{
  values, turn_value, ends_marked, all_marks, apply_prompt_caching_bounded,
}

abbrev inside : List SdkEvent
inside =
    content_block_delta (pos 1) (input_json_piece (codes "{"))
    ∷ content_block_delta (pos 0) (text_piece (codes "hi"))
    ∷ content_block_delta (pos 1) (input_json_piece (codes "}"))
    ∷ []

abbrev stream : List SdkEvent
stream =
    (content_block_start (pos 0) other_block ∷ [])
    ++ (content_block_start (pos 1) (tool_use (codes "a") (codes "ls")) ∷ inside)

abbrev call : ToolCall
call = record {
  id = codes "a";
  kind = codes "function";
  function = record { name = codes "ls"; arguments = codes "{}" };
}

runs :
    sdk_loop {E = Text}
      (stream ++ (content_block_stop (pos 1) ∷ content_block_stop (pos 1) ∷ []))
      []
    ≡ text_delta (codes "hi") ∷ tool_call_complete (call ∷ []) ∷ []
unfolding sdk_loop lookup put remove
runs = refl

abbrev reset : GoError
reset = record {
  message = codes "connection reset by peer";
  canceled = false;
  deadline_exceeded = false;
  dns = none;
  tls = false;
  errno = some conn_reset;
  eof = false;
  unexpected_eof = false;
  net_timeout = none;
  url_timeout = none;
}

abbrev healthy : ConnTracker
healthy = record { state = connected; since = 3; probing = false }

reset-IsTransportError : IsTransportError reset
unfolding classify_transport_error
reset-IsTransportError = refl

stream_anthropic-edge_example :
    ((stream_anthropic (codes "anthropic") true stream (some reset) healthy 7).conn.state
      ≡ disconnected)
    × ((stream_anthropic (codes "anthropic") true stream (some reset) healthy 7).started_probe
        ≡ (not (state_eq healthy.state disconnected) && true))
    × ((stream_anthropic
          (codes "anthropic")
          true
          []
          (some reset)
          (stream_anthropic (codes "anthropic") true stream (some reset) healthy 7).conn
          9).started_probe
        ≡ false)
    × ((stream_anthropic
          (codes "anthropic")
          true
          []
          (some reset)
          (stream_anthropic (codes "anthropic") true stream (some reset) healthy 7).conn
          9).conn
        ≡ (stream_anthropic (codes "anthropic") true stream (some reset) healthy 7).conn)
stream_anthropic-edge_example =
    stream_anthropic-edge (codes "anthropic") true stream [] reset reset healthy 7 9
      reset-IsTransportError reset-IsTransportError

abbrev message : Text → Text → List MessagePart → Message
message role content parts = record {
  role = role;
  content = content;
  parts = parts;
  tool_calls = [];
  tool_call_id = codes "a";
  name = [];
  synthetic = false;
  ignored = false;
  reasoning = [];
}

-- The last message is a tool result with an image that has no bytes.
abbrev history : List Message
history =
    message (codes "system") (codes "be kind") []
    ∷ message (codes "user") (codes "see") (bytes_part image_part (codes "image/png") (1 ∷ []) ∷ [])
    ∷ message (codes "tool") [] (uri_part image_part (codes "http://x") ∷ [])
    ∷ []

-- A stand-in for the JSON decoder, which takes an object alone.
abbrev parse : Text → Text ⊎ ℕ
parse t = if text_eq t (codes "{}") then inr 0 else inl (codes "not JSON")

abbrev base64 : List ℕ → Text
base64 bytes = bytes

split_system-sendable_example :
    is_ok (split_system {X = Text} {J = ℕ} base64 parse 0 history)
    ≡ every (sendable base64 parse 0) history
split_system-sendable_example = split_system-sendable base64 parse 0 history

abbrev tool : ToolDef ℕ
tool = record {
  name = codes "ls";
  description = [];
  parameters = some (
      (codes "type", nil_value)
      ∷ (codes "required", items (str (codes "path") ∷ other_item 3 ∷ []))
      ∷ []);
}

thinking_budget_range_example :
    (ltb_ℤ (thinking_budget (pos 2000) (pos 800)) (pos 800) ≡ true)
    × (leb_ℤ (pos 1024) (thinking_budget (pos 2000) (pos 800)) ≡ ltb 1024 800)
thinking_budget_range_example = thinking_budget_range (pos 2000) 800 (omega arith) (omega arith)

abbrev turn : Text → Turn ℕ
turn t = record { role = user_role; content = fresh (text_block t) ∷ [] }

abbrev params : Params ℕ ℕ ℕ
params = record {
  model = codes "claude";
  max_tokens = pos 8192;
  system = fresh (codes "be kind") ∷ [];
  messages = turn (codes "a") ∷ turn (codes "b") ∷ turn (codes "c") ∷ [];
  tools = fresh (record { name = codes "ls"; description = none; input_schema = new_schema }) ∷ [];
  temperature = none;
  top_p = none;
  top_k = none;
  thinking = none;
}

four_markers : all_marks (apply_prompt_caching (λ b. true) params) ≡ 4
unfolding apply_prompt_caching
four_markers = refl

apply_prompt_caching_bounded_example :
    (all_marks (apply_prompt_caching (λ b. true) params) ≤ all_marks params + 4)
    × (values (apply_prompt_caching (λ b. true) params).system ≡ values params.system)
    × (values (apply_prompt_caching (λ b. true) params).tools ≡ values params.tools)
    × (map turn_value (apply_prompt_caching (λ b. true) params).messages
        ≡ map turn_value params.messages)
    × (ends_marked (apply_prompt_caching (λ b. true) params).system ≡ not (is_empty params.system))
    × (ends_marked (apply_prompt_caching (λ b. true) params).tools ≡ not (is_empty params.tools))
apply_prompt_caching_bounded_example = apply_prompt_caching_bounded (λ b. true) params
