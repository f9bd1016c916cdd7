-- ===== src/Anthropic/Stream/Meaning.antt =====
-- The map of open blocks gives every event the meaning that it has behind the events before it.
use azoth.Base.{◌≡◌, refl, ap, ◌∙◌, Option, none, some, List, [], ◌∷◌, ◌++◌, map}
use azoth.Base.Int.{ℤ}
use azoth.Base.Text.{Text}
use azoth.Blocks
use azoth.Blocks.{
  ToolAcc, Heard, opened, input_piece, closed, counted, ignored, open_call, add_input, add_to,
  open_at, call_of, call_events_of, sent_for, meaning,
}
use azoth.Blocks.Holds.{Holds, put-opened, put-input, no_input, remove-closed, not_open}
use azoth.ToolCall.IntMap.{Table, lookup}
use azoth.Anthropic.Stream.{
  tool_use, other_block, text_piece, thinking_piece, input_json_piece, other_piece, SdkEvent,
  content_block_start, content_block_delta, content_block_stop, message_start, message_delta,
  message_stop, other_event, anthropic_usage_from, write_input, finished_call, delta_step,
  stop_block, sdk_step, sdk_loop,
}

abbrev pub heard : SdkEvent → Heard
heard (content_block_start i (tool_use id name)) = opened i id name
heard (content_block_start i other_block) = ignored
heard (content_block_delta i (text_piece t)) = Blocks.text_piece t
heard (content_block_delta i (thinking_piece t)) = Blocks.reasoning_piece t
heard (content_block_delta i (input_json_piece t)) = input_piece i t
heard (content_block_delta i other_piece) = ignored
heard (content_block_stop i) = closed i
heard (message_start u) = ignored
heard (message_delta u) = counted (
    anthropic_usage_from u.input_tokens u.output_tokens u.cache_read_input_tokens
      u.cache_creation_input_tokens)
heard message_stop = ignored
heard other_event = ignored

write_input-Holds :
    (i : ℤ) (t : Text) (o : Option ToolAcc) (inflight : Table ToolAcc) (past : List Heard)
    → Holds inflight past
    → lookup i inflight ≡ o
    → Holds (write_input i t o inflight) (input_piece i t ∷ past)
write_input-Holds i t none inflight past h e = no_input i inflight past h t e
write_input-Holds i t (some acc) inflight past h e = put-input i inflight past h t acc e

stop_block-Holds :
    (E : Type 0) (i : ℤ) (o : Option ToolAcc) (inflight : Table ToolAcc) (past : List Heard)
    → Holds inflight past
    → lookup i inflight ≡ o
    → Holds (stop_block {E = E} i o inflight).0 (closed i ∷ past)
unfolding stop_block
stop_block-Holds E i none inflight past h e = not_open i inflight past h e
stop_block-Holds E i (some acc) inflight past h e = remove-closed i inflight past h

stop_block-sent :
    (E : Type 0) (i : ℤ) (o : Option ToolAcc) (inflight : Table ToolAcc)
    → (stop_block {E = E} i o inflight).1 ≡ call_events_of o
unfolding stop_block finished_call
stop_block-sent E i none inflight = refl
stop_block-sent E i (some acc) inflight = refl

sdk_step-Holds :
    (E : Type 0) (ev : SdkEvent) (inflight : Table ToolAcc) (past : List Heard)
    → Holds inflight past
    → Holds (sdk_step {E = E} ev inflight).0 (heard ev ∷ past)
unfolding sdk_step delta_step stop_block
sdk_step-Holds E (content_block_start i (tool_use id name)) inflight past h j =
    put-opened i inflight past h id name j
sdk_step-Holds E (content_block_start i other_block) inflight past h j = h j
sdk_step-Holds E (content_block_delta i (text_piece t)) inflight past h j = h j
sdk_step-Holds E (content_block_delta i (thinking_piece t)) inflight past h j = h j
sdk_step-Holds E (content_block_delta i (input_json_piece t)) inflight past h j =
    write_input-Holds i t (lookup i inflight) inflight past h refl j
sdk_step-Holds E (content_block_delta i other_piece) inflight past h j = h j
sdk_step-Holds E (content_block_stop i) inflight past h j =
    stop_block-Holds E i (lookup i inflight) inflight past h refl j
sdk_step-Holds E (message_start u) inflight past h j = h j
sdk_step-Holds E (message_delta u) inflight past h j = h j
sdk_step-Holds E message_stop inflight past h j = h j
sdk_step-Holds E other_event inflight past h j = h j

sdk_step-sent :
    {E : Type 0} (ev : SdkEvent) (inflight : Table ToolAcc) (past : List Heard)
    → Holds inflight past
    → (sdk_step {E = E} ev inflight).1 ≡ sent_for past (heard ev)
unfolding sdk_step delta_step stop_block
sdk_step-sent (content_block_start i (tool_use id name)) inflight past h = refl
sdk_step-sent (content_block_start i other_block) inflight past h = refl
sdk_step-sent (content_block_delta i (text_piece t)) inflight past h = refl
sdk_step-sent (content_block_delta i (thinking_piece t)) inflight past h = refl
sdk_step-sent (content_block_delta i (input_json_piece t)) inflight past h = refl
sdk_step-sent (content_block_delta i other_piece) inflight past h = refl
sdk_step-sent {E = E} (content_block_stop i) inflight past h =
    stop_block-sent E i (lookup i inflight) inflight ∙ ap call_events_of (h i)
sdk_step-sent (message_start u) inflight past h = refl
sdk_step-sent (message_delta u) inflight past h = refl
sdk_step-sent message_stop inflight past h = refl
sdk_step-sent other_event inflight past h = refl

sdk_loop-behind :
    {E : Type 0} (evs : List SdkEvent) (inflight : Table ToolAcc) (past : List Heard)
    → Holds inflight past
    → sdk_loop {E = E} evs inflight ≡ meaning past (map heard evs)
unfolding sdk_loop
sdk_loop-behind [] inflight past h = refl
sdk_loop-behind {E = E} (ev ∷ evs) inflight past h =
    ap (λ es. es ++ sdk_loop evs (sdk_step {E = E} ev inflight).0)
      (sdk_step-sent ev inflight past h)
    ∙ ap (λ es. sent_for past (heard ev) ++ es)
        (sdk_loop-behind evs (sdk_step {E = E} ev inflight).0 (heard ev ∷ past)
          (sdk_step-Holds E ev inflight past h))

pub sdk_loop-meaning :
    {E : Type 0} (evs : List SdkEvent) → sdk_loop {E = E} evs [] ≡ meaning [] (map heard evs)
unfolding lookup
sdk_loop-meaning evs = sdk_loop-behind evs [] [] (λ i. refl)
