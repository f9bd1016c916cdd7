-- ===== src/Vertex/Request/Names.antt =====
-- Which function a tool's result is sent for.
use azoth.Base.{
  ◌≡◌, refl, ap, ◌∙◌, Bool, true, false, not, ◌&&◌, Option, none, some, List, [], ◌∷◌,
  if◌then◌else◌, is_empty,
}
use azoth.Base.Text.{Text, codes, text_eq}
use azoth.Message.{Message}
use azoth.Registry.TextMap.{Table, lookup, put, lookup-put}
use azoth.ToolCall.{ToolCall}
use azoth.Vertex.Request.{note_call, note_calls, id_to_name, response_name, or_own_name}

-- The later of two answers.
abbrev pub later : Option Text → Option Text → Option Text
later none y = y
later (some x) y = some x

abbrev pub named_in : Text → List ToolCall → Option Text
named_in id [] = none
named_in id (tc ∷ tcs) = later (named_in id tcs) (
    if (not (is_empty tc.id) && not (is_empty tc.function.name)) && text_eq tc.id id
    then some tc.function.name
    else none)

-- The name of the latest call of an assistant with an id, among those with an id and a name.
abbrev pub latest_name : Text → List Message → Option Text
latest_name id [] = none
latest_name id (m ∷ ms) =
    later (latest_name id ms)
      (if text_eq m.role (codes "assistant") then named_in id m.tool_calls else none)

later_assoc : (x y z : Option Text) → later x (later y z) ≡ later (later x y) z
later_assoc none y z = refl
later_assoc (some x) y z = refl

noted :
    (b : Bool) (k id v : Text) (names : Table Text)
    → lookup id (if b then put k v names else names)
      ≡ later (if b && text_eq k id then some v else none) (lookup id names)
noted false k id v names = refl
noted true k id v names = lookup-put k id v names ∙ pick (text_eq k id)
  where
    pick :
        (t : Bool)
        → (if t then some v else lookup id names)
          ≡ later (if t then some v else none) (lookup id names)
    pick true = refl
    pick false = refl

note_calls-lookup :
    (id : Text) (tcs : List ToolCall) (names : Table Text)
    → lookup id (note_calls tcs names) ≡ later (named_in id tcs) (lookup id names)
note_calls-lookup id [] names = refl
note_calls-lookup id (tc ∷ tcs) names =
    note_calls-lookup id tcs (note_call tc names)
    ∙ ap (later (named_in id tcs)) (noted _ tc.id id tc.function.name names)
    ∙ later_assoc (named_in id tcs) _ (lookup id names)

message-lookup :
    (id : Text) (b : Bool) (tcs : List ToolCall) (names : Table Text)
    → lookup id (if b then note_calls tcs names else names)
      ≡ later (if b then named_in id tcs else none) (lookup id names)
message-lookup id true tcs names = note_calls-lookup id tcs names
message-lookup id false tcs names = refl

id_to_name-lookup :
    (id : Text) (ms : List Message) (names : Table Text)
    → lookup id (id_to_name ms names) ≡ later (latest_name id ms) (lookup id names)
unfolding id_to_name
id_to_name-lookup id [] names = refl
id_to_name-lookup id (m ∷ ms) names =
    id_to_name-lookup id ms _
    ∙ ap (later (latest_name id ms))
        (message-lookup id (text_eq m.role (codes "assistant")) m.tool_calls names)
    ∙ later_assoc (latest_name id ms) _ (lookup id names)

later-none : (x : Option Text) → later x none ≡ x
later-none none = refl
later-none (some x) = refl

-- A tool's result is sent under the function name of the latest call of an assistant that has the
-- result's id, among the calls of the whole request with an id and a name, also if that call stands
-- behind the result and an earlier one in front of it; under the message's own name if there is no
-- such call.
pub response_name-latest :
    (ms : List Message) (m : Message)
    → response_name (id_to_name ms []) m ≡ or_own_name m.name (latest_name m.tool_call_id ms)
unfolding response_name lookup
response_name-latest ms m =
    ap (or_own_name m.name)
      (id_to_name-lookup m.tool_call_id ms [] ∙ later-none (latest_name m.tool_call_id ms))
