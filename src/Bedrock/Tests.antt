-- ===== src/Bedrock/Tests.antt =====
-- A Converse stream, a history with two tool results in a row, and the request's cache points.
use azoth.Base.{
  ℕ, ◌≡◌, refl, false, none, some, List, [], ◌∷◌, ◌++◌, ◌⊎◌, inl, inr, map, if◌then◌else◌,
}
use azoth.Base.Int.{pos}
use azoth.Base.Results.{◌>>=◌}
use azoth.Base.Text.{Text, codes, text_eq}
use azoth.Blocks.{meaning}
use azoth.Chat.{text_delta, tool_call_complete, done_event}
use azoth.Message.{Message}
use azoth.ToolCall.{ToolCall}
use azoth.ToolCall.IntMap.{lookup, put, remove}
use azoth.Bedrock.Stream.{
  ConverseEvent, tool_use_start, text_member, tool_use_member, block_start, block_delta, block_stop,
  converse_loop, converse_events,
}
use azoth.Bedrock.Stream.Meaning.{heard, converse_loop-meaning}
use azoth.Bedrock.Request.{
  text_block, tool_result, result_text, user_role, assistant_role, png, image_format, nothing_built,
  build_messages,
}
use azoth.Bedrock.Request.Grouping.{held, sent, all_blocks, build_messages-held}

-- A block without an index is block 0.
abbrev stream : List ConverseEvent
stream =
    block_start none (tool_use_start (some (codes "a")) (some (codes "ls")))
    ∷ block_delta (some (pos 1)) (text_member (codes "hi"))
    ∷ block_delta (some (pos 0)) (tool_use_member none)
    ∷ block_stop none
    ∷ []

abbrev call : ToolCall
call = record {
  id = codes "a";
  kind = codes "function";
  function = record { name = codes "ls"; arguments = codes "{}" };
}

runs :
    converse_events {E = Text} stream none
    ≡ text_delta (codes "hi") ∷ tool_call_complete (call ∷ []) ∷ done_event [] ∷ []
unfolding converse_events lookup put remove
runs = refl

converse_loop-meaning_example : converse_loop {E = Text} stream [] ≡ meaning [] (map heard stream)
converse_loop-meaning_example = converse_loop-meaning Text stream

formats : image_format {X = Text} (codes " Image/PNG ") ≡ inr png
unfolding image_format
formats = refl

abbrev message : Text → Text → Text → Message
message role id content = record {
  role = role;
  content = content;
  parts = [];
  tool_calls = [];
  tool_call_id = id;
  name = [];
  synthetic = false;
  ignored = false;
  reasoning = [];
}

abbrev history : List Message
history =
    message (codes "assistant") [] (codes "on it")
    ∷ message (codes "tool") (codes "a") (codes "x")
    ∷ message (codes "system") [] (codes "be kind")
    ∷ message (codes "tool") (codes "b") (codes "y")
    ∷ []

-- A stand-in for the JSON decoder, which takes an object alone.
abbrev parse : Text → Text ⊎ ℕ
parse t = if text_eq t (codes "{}") then inr 0 else inl (codes "not JSON")

grouped :
    build_messages {X = Text} {J = ℕ} parse 0 history nothing_built
    ≡ inr (record {
      system = codes "be kind" ∷ [];
      messages =
          record { role = assistant_role; content = text_block (codes "on it") ∷ [] }
          ∷ record {
            role = user_role;
            content =
                tool_result (codes "a") (result_text (codes "x") ∷ [])
                ∷ tool_result (codes "b") (result_text (codes "y") ∷ [])
                ∷ [];
          }
          ∷ [];
      pending = [];
    })
unfolding build_messages
grouped = refl

build_messages-held_example :
    sent parse 0 (build_messages {X = Text} {J = ℕ} parse 0 history nothing_built)
    ≡ (all_blocks parse 0 history >>= λ bs. inr (held {J = ℕ} nothing_built ++ bs))
build_messages-held_example = build_messages-held parse 0 history nothing_built
