-- ===== src/Bedrock/Stream/Meaning.antt =====
-- The map of open blocks in the Converse loop gives every event its meaning behind the events before.
use azoth.Base.{◌≡◌, refl, ap, ◌∙◌, Option, none, some, List, [], ◌∷◌, ◌++◌, map}
use azoth.Base.Int.{ℤ}
use azoth.Base.Text.{Text}
use azoth.Blocks
use azoth.Blocks.{
  ToolAcc, Heard, opened, input_piece, closed, counted, ignored, call_of, call_events_of, sent_for,
  meaning,
}
use azoth.Blocks.Holds.{Holds, put-opened, put-input, no_input, remove-closed, not_open}
use azoth.ToolCall.IntMap.{Table, lookup}
use azoth.Bedrock.Stream.{
  tool_use_start, other_start, reasoning_text, other_reasoning, text_member, reasoning_member,
  tool_use_member, other_member, ConverseEvent, block_start, block_delta, block_stop, metadata,
  other_event, deref_string, deref_int32, bedrock_usage_from, write_tool, stopped_call,
  converse_delta, stop_tool, converse_step, converse_loop,
}

abbrev pub heard : ConverseEvent → Heard
heard (block_start i (tool_use_start id name)) =
    opened (deref_int32 i) (deref_string id) (deref_string name)
heard (block_start i other_start) = ignored
heard (block_delta i (text_member t)) = Blocks.text_piece t
heard (block_delta i (reasoning_member (reasoning_text t))) = Blocks.reasoning_piece t
heard (block_delta i (reasoning_member other_reasoning)) = ignored
heard (block_delta i (tool_use_member (some t))) = input_piece (deref_int32 i) t
heard (block_delta i (tool_use_member none)) = ignored
heard (block_delta i other_member) = ignored
heard (block_stop i) = closed (deref_int32 i)
heard (metadata (some u)) = counted (
    bedrock_usage_from (deref_int32 u.input_tokens) (deref_int32 u.output_tokens)
      (deref_int32 u.cache_read_input_tokens) (deref_int32 u.cache_write_input_tokens))
heard (metadata none) = ignored
heard other_event = ignored

write_tool-Holds :
    (i : ℤ) (t : Text) (o : Option ToolAcc) (tools : Table ToolAcc) (past : List Heard)
    → Holds tools past
    → lookup i tools ≡ o
    → Holds (write_tool i (some t) o tools) (input_piece i t ∷ past)
write_tool-Holds i t none tools past h e = no_input i tools past h t e
write_tool-Holds i t (some acc) tools past h e = put-input i tools past h t acc e

module _ (E : Type 0) where
  stop_tool-Holds :
      (i : ℤ) (o : Option ToolAcc) (tools : Table ToolAcc) (past : List Heard)
      → Holds tools past
      → lookup i tools ≡ o
      → Holds (stop_tool {E = E} i o tools).0 (closed i ∷ past)
  unfolding stop_tool
  stop_tool-Holds i none tools past h e = not_open i tools past h e
  stop_tool-Holds i (some acc) tools past h e = remove-closed i tools past h

  stop_tool-sent :
      (i : ℤ) (o : Option ToolAcc) (tools : Table ToolAcc)
      → (stop_tool {E = E} i o tools).1 ≡ call_events_of o
  unfolding stop_tool stopped_call
  stop_tool-sent i none tools = refl
  stop_tool-sent i (some acc) tools = refl

  converse_step-Holds :
      (ev : ConverseEvent) (tools : Table ToolAcc) (past : List Heard)
      → Holds tools past
      → Holds (converse_step {E = E} ev tools).0 (heard ev ∷ past)
  unfolding converse_step converse_delta
  converse_step-Holds (block_start i (tool_use_start id name)) tools past h j =
      put-opened (deref_int32 i) tools past h (deref_string id) (deref_string name) j
  converse_step-Holds (block_start i other_start) tools past h j = h j
  converse_step-Holds (block_delta i (text_member t)) tools past h j = h j
  converse_step-Holds (block_delta i (reasoning_member (reasoning_text t))) tools past h j = h j
  converse_step-Holds (block_delta i (reasoning_member other_reasoning)) tools past h j = h j
  converse_step-Holds (block_delta i (tool_use_member (some t))) tools past h j =
      write_tool-Holds (deref_int32 i) t (lookup (deref_int32 i) tools) tools past h refl j
  converse_step-Holds (block_delta i (tool_use_member none)) tools past h j = h j
  converse_step-Holds (block_delta i other_member) tools past h j = h j
  converse_step-Holds (block_stop i) tools past h j =
      stop_tool-Holds (deref_int32 i) (lookup (deref_int32 i) tools) tools past h refl j
  converse_step-Holds (metadata (some u)) tools past h j = h j
  converse_step-Holds (metadata none) tools past h j = h j
  converse_step-Holds other_event tools past h j = h j

  converse_step-sent :
      (ev : ConverseEvent) (tools : Table ToolAcc) (past : List Heard)
      → Holds tools past
      → (converse_step {E = E} ev tools).1 ≡ sent_for past (heard ev)
  unfolding converse_step converse_delta
  converse_step-sent (block_start i (tool_use_start id name)) tools past h = refl
  converse_step-sent (block_start i other_start) tools past h = refl
  converse_step-sent (block_delta i (text_member t)) tools past h = refl
  converse_step-sent (block_delta i (reasoning_member (reasoning_text t))) tools past h = refl
  converse_step-sent (block_delta i (reasoning_member other_reasoning)) tools past h = refl
  converse_step-sent (block_delta i (tool_use_member (some t))) tools past h = refl
  converse_step-sent (block_delta i (tool_use_member none)) tools past h = refl
  converse_step-sent (block_delta i other_member) tools past h = refl
  converse_step-sent (block_stop i) tools past h =
      stop_tool-sent (deref_int32 i) (lookup (deref_int32 i) tools) tools
      ∙ ap call_events_of (h (deref_int32 i))
  converse_step-sent (metadata (some u)) tools past h = refl
  converse_step-sent (metadata none) tools past h = refl
  converse_step-sent other_event tools past h = refl

  converse_loop-behind :
      (evs : List ConverseEvent) (tools : Table ToolAcc) (past : List Heard)
      → Holds tools past
      → converse_loop {E = E} evs tools ≡ meaning past (map heard evs)
  unfolding converse_loop
  converse_loop-behind [] tools past h = refl
  converse_loop-behind (ev ∷ evs) tools past h =
      ap (λ es. es ++ converse_loop evs (converse_step {E = E} ev tools).0)
        (converse_step-sent ev tools past h)
      ∙ ap (λ es. sent_for past (heard ev) ++ es)
          (converse_loop-behind evs (converse_step {E = E} ev tools).0 (heard ev ∷ past)
            (converse_step-Holds ev tools past h))

  -- The Converse loop sends what its events mean, by the same meaning as the loop of the Messages API:
  -- pieces of text and reasoning that are not empty, the usage of a metadata event that has one, and
  -- at each stop of a tool block the one call of its latest start, with all input written to its
  -- index since. A missing index is index 0, a missing id or name is empty.
  pub converse_loop-meaning :
      (evs : List ConverseEvent) → converse_loop {E = E} evs [] ≡ meaning [] (map heard evs)
  unfolding lookup
  converse_loop-meaning evs = converse_loop-behind evs [] [] (λ i. refl)
