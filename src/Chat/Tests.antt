-- ===== src/Chat/Tests.antt =====
-- A turn with reasoning, text and a call in two deltas, over a decoder for its four payloads.
use azoth.Base.{
  ℕ, ◌≡◌, refl, true, false, Option, none, some, List, [], ◌∷◌, ◌++◌, ◌⊎◌, inl, inr, if◌then◌else◌,
}
use azoth.Base.Int.{pos}
use azoth.Base.Text.{Text, codes, text_eq, decimal}
use azoth.Sse.{event_prefix, done_marker}
use azoth.Sse.Events.{events}
use azoth.ToolCall.{ToolCall, text, DtCall, merge, finalize}
use azoth.ToolCall.IntMap.{lookup, put, keys}
use azoth.Chat.{
  Choice, ChunkUsage, Chunk, text_delta, reasoning_delta, tool_call_complete, usage_event,
  done_event, error_event, sse_stream, StreamState, StreamSettings, Arrival, payload, silence,
  finish_stall, chat_stream, chat_body, start, finish, message_usage,
}
use azoth.Chat.Said.{calls_said, usage_said, reason_said}
use azoth.Chat.Plain.{
  choice_texts, choice_calls, choice_reason, all_choices, chunks_usage, chat_body-plain,
}

abbrev settings : StreamSettings
settings = record { stall_timeout = pos 30; loop_guard = false; reasoning_budget = pos 0 }

abbrev delta : Text → Text → List (DtCall ℕ) → Text → Choice ℕ
delta content reasoning calls reason = record {
  delta = record { content = content; reasoning_content = reasoning; tool_calls = calls };
  finish_reason = reason;
}

abbrev tokens : ChunkUsage
tokens = record {
  prompt_tokens = pos 9;
  completion_tokens = pos 4;
  total_tokens = pos 13;
  cached_tokens = some (pos 2);
}

abbrev chunk_of : List (Choice ℕ) → Option ChunkUsage → Chunk ℕ
chunk_of cs u = record { choices = cs; usage = u }

abbrev thought : Chunk ℕ
thought = chunk_of (delta [] (codes "hm") [] [] ∷ []) none

abbrev said : Chunk ℕ
said = chunk_of (delta (codes "hi") [] [] [] ∷ []) none

abbrev called : Chunk ℕ
called =
    chunk_of
      (delta [] []
          (record { index = pos 0; id = codes "a"; name = codes "ls"; arguments = text (codes "{") }
            ∷ [])
          []
        ∷ delta [] []
            (record { index = pos 0; id = []; name = []; arguments = text (codes "}") } ∷ []) []
        ∷ [])
      none

abbrev counted : Chunk ℕ
counted = chunk_of [] (some tokens)

abbrev encode : ℕ → Option Text
encode n = some (decimal n)

abbrev decode : Text → Text ⊎ Chunk ℕ
decode t =
    if text_eq t (codes "1")
    then inr thought
    else if text_eq t (codes "2")
    then inr said
    else if text_eq t (codes "3")
    then inr called
    else if text_eq t (codes "4")
    then inr counted
    else inl (codes "bad json")

abbrev texts : List Text
texts = codes "1" ∷ codes "2" ∷ codes "3" ∷ codes "4" ∷ []

abbrev call : ToolCall
call = record {
  id = codes "a";
  kind = codes "function";
  function = record { name = codes "ls"; arguments = codes "{}" };
}

abbrev lines : List Text
lines = events texts ++ ((event_prefix ++ done_marker) ∷ codes "junk" ∷ [])

whole_turn :
    chat_body ℕ encode decode settings lines (some (codes "reset"))
    ≡ reasoning_delta (codes "hm")
      ∷ text_delta (codes "hi")
      ∷ tool_call_complete (call ∷ [])
      ∷ usage_event (message_usage tokens)
      ∷ done_event (codes "tool_calls")
      ∷ []
unfolding chat_body chat_stream finish merge finalize lookup put keys
whole_turn = refl

broken_turn :
    chat_stream ℕ encode decode settings (payload (codes "2") ∷ []) (some (codes "reset"))
    ≡ text_delta (codes "hi") ∷ error_event (sse_stream (codes "reset")) ∷ []
unfolding chat_stream finish text_eq
broken_turn = refl

-- A silence in front of the first payload is not a stall.
abbrev stalling : List Arrival
stalling = silence ∷ payload (codes "3") ∷ silence ∷ payload (codes "2") ∷ []

stalled_turn : chat_stream ℕ encode decode settings stalling none ≡ done_event finish_stall ∷ []
unfolding chat_stream finish merge lookup put text_eq
stalled_turn = refl

abbrev no_error : Option Text
no_error = none

-- The state in which the silence finds the loop.
abbrev halted : StreamState
halted = record (start ℕ encode decode settings) {
  acc = (merge ℕ encode [] (choice_calls called.choices)).0;
  finish_reason = finish_stall;
  started = true;
  acting = true;
}

chat_body-plain_example : chat_body ℕ encode decode settings lines (some (codes "reset")) ≡ (
    let calls =
      (finalize
        (merge ℕ encode []
          (choice_calls (all_choices (thought ∷ said ∷ called ∷ counted ∷ [])))).0).1 in
    choice_texts (all_choices (thought ∷ said ∷ called ∷ counted ∷ []))
    ++ (calls_said calls
        ++ (usage_said (chunks_usage none (thought ∷ said ∷ called ∷ counted ∷ []))
            ++ done_event (
                reason_said calls
                  (choice_reason [] (all_choices (thought ∷ said ∷ called ∷ counted ∷ []))))
              ∷ [])))
unfolding text_eq merge lookup put
chat_body-plain_example =
    chat_body-plain ℕ encode decode settings refl refl texts (codes "junk" ∷ [])
      (thought ∷ said ∷ called ∷ counted ∷ []) (some (codes "reset")) refl
      (refl, (refl, (refl, (refl, tt)))) refl
