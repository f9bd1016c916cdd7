-- ===== src/Vertex/Tests.antt =====
-- A stream with a text and two calls of one tool, one with a call that cannot be encoded, and a history
-- with a call and its result.
use azoth.Base.{
  ℕ, ◌≡◌, refl, false, Option, none, some, List, [], ◌∷◌, ◌⊎◌, inl, inr, if◌then◌else◌, ◌==◌,
}
use azoth.Base.Results.{is_ok, every}
use azoth.Message.{Message}
use azoth.Vertex.Parts.{object, text_content, from_text, from_function_call, from_function_response}
use azoth.Vertex.Request.{
  role_user, role_model, nothing_collected, id_to_name, response_name, or_own_name,
  collect_messages,
}
use azoth.Vertex.Request.Names.{latest_name, response_name-latest}
use azoth.Vertex.Request.Sendable.{translatable, collect_messages-translatable}
use azoth.Base.Text.{Text, codes, decimal, text_eq}
use azoth.Chat.{text_delta, tool_call_complete, done_event, error_event}
use azoth.ToolCall.{ToolCall}
use azoth.Transport.Errors.{GoError}
use azoth.Vertex.Stream.{max_tokens, Part, Response, marshal_args, vertex_events}
use azoth.Vertex.Stream.Endings.{endings, broken, vertex_events-endings}

-- A stand-in for the encoder, which fails on 0.
abbrev encode : ℕ → Option Text
encode n = if n == 0 then none else some (codes "{}")

abbrev call_part : Text → ℕ → Option (Part ℕ)
call_part name args = some (record {
  function_call = some (record { id = []; name = name; args = args });
  text = [];
  thought = false;
})

abbrev text : Text → Option (Part ℕ)
text t = some (record { function_call = none; text = t; thought = false })

abbrev response : List (Option (Part ℕ)) → GoError ⊎ Response ℕ
response parts = inr (record {
  prompt_feedback = none;
  usage_metadata = none;
  candidates = some (record { finish_reason = max_tokens; content = some parts }) ∷ none ∷ [];
})

abbrev call : Text → ToolCall
call id = record {
  id = id;
  kind = codes "function";
  function = record { name = codes "ls"; arguments = codes "{}" };
}

two_calls :
    vertex_events encode (
      response (text (codes "hi") ∷ call_part (codes "ls") 1 ∷ none ∷ call_part (codes "ls") 2 ∷ [])
      ∷ [])
    ≡ text_delta (codes "hi")
      ∷ tool_call_complete (call (codes "call_ls_0") ∷ [])
      ∷ tool_call_complete (call (codes "call_ls_1") ∷ [])
      ∷ done_event (codes "length")
      ∷ []
unfolding vertex_events decimal
two_calls = refl

two_endings :
    vertex_events encode (response (call_part (codes "ls") 0 ∷ []) ∷ [])
    ≡ error_event marshal_args ∷ done_event (codes "length") ∷ []
unfolding vertex_events
two_endings = refl

vertex_events-endings_example :
    endings (vertex_events encode (response (call_part (codes "ls") 0 ∷ []) ∷ []))
    ≡ (if broken encode (response (call_part (codes "ls") 0 ∷ []) ∷ []) then 2 else 1)
vertex_events-endings_example =
    vertex_events-endings encode (response (call_part (codes "ls") 0 ∷ []) ∷ [])

-- A stand-in for the JSON decoder, which takes an object alone.
abbrev decode : Text → Text ⊎ ℕ
decode t = if text_eq t (codes "{}") then inr 0 else inl (codes "not JSON")

abbrev parse : Text → Option (ℕ ⊎ Text)
parse t = if text_eq t (codes "{}") then some (inl 0) else none

abbrev message : Text → List ToolCall → Text → Text → Message
message role calls id t = record {
  role = role;
  content = t;
  parts = [];
  tool_calls = calls;
  tool_call_id = id;
  name = codes "own";
  synthetic = false;
  ignored = false;
  reasoning = [];
}

abbrev result : Text → Message
result t = message (codes "tool") [] (codes "a") t

abbrev history : List Message
history =
    message (codes "assistant") (call (codes "a") ∷ []) [] (codes "on it")
    ∷ result (codes "x")
    ∷ message (codes "system") [] [] (codes "be kind")
    ∷ result (codes "{}")
    ∷ []

grouped :
    collect_messages decode 0 parse (id_to_name history []) history nothing_collected
    ≡ inr (record {
      sys_parts = from_text (codes "be kind") ∷ [];
      contents =
          record {
            role = role_model;
            parts = from_text (codes "on it") ∷ from_function_call (codes "ls") 0 ∷ [];
          }
          ∷ record {
            role = role_user;
            parts =
                from_function_response (codes "ls") (text_content (codes "x")) []
                ∷ from_function_response (codes "ls") (object 0) []
                ∷ [];
          }
          ∷ [];
      pending = [];
    })
unfolding collect_messages id_to_name
grouped = refl

response_name-latest_example :
    response_name (id_to_name history []) (result (codes "x"))
    ≡ or_own_name (codes "own") (latest_name (codes "a") history)
response_name-latest_example = response_name-latest history (result (codes "x"))

collect_messages-translatable_example :
    is_ok (collect_messages decode 0 parse (id_to_name history []) history nothing_collected)
    ≡ every (translatable decode 0 parse) history
collect_messages-translatable_example =
    collect_messages-translatable decode 0 parse (id_to_name history []) history nothing_collected
