-- ===== src/Vertex/Request.antt =====
-- The request of a turn: `buildVertexRequest`, and `applyVertexThinking`. The JSON decoder and
-- the conversions to `float32` are parameters.
pub mod Names
pub mod Sendable
use azoth.Base.{
  ℕ, Bool, true, false, not, ◌&&◌, ◌||◌, Option, none, some, List, [], ◌∷◌, ◌++◌, ◌⊎◌, inl, inr,
  if◌then◌else◌, is_empty, map,
}
use azoth.Base.Int.{ℤ, pos, ltb_ℤ, eqb_ℤ, wrap32}
use azoth.Base.Results.{◌>>=◌, traverse}
use azoth.Base.Text.{Text, codes, text_eq}
use azoth.Message.{
  PartType, text_part, image_part, document_part, other_part, MessagePart, Message,
  filter_for_request,
}
use azoth.Registry.TextMap.{Table, lookup, put}
use azoth.ToolCall.{ToolCall}
use azoth.Vertex.Parts.{
  Payload, text_content, empty_payload, wrapped, Blob, GenPart, from_text, from_function_call,
  from_function_response, VertexRequestError, call_arguments, leading_part, vertex_part, user_parts,
  response_media,
}

pub data ContentRole : Type 0 where
  role_user role_model : ContentRole

pub record Content (O J : Type 0) : Type 0 where
  pub role : ContentRole
  pub parts : List (GenPart O J)

-- The variables of the loop.
pub record Collected (O J : Type 0) : Type 0 where
  pub sys_parts : List (GenPart O J)
  pub contents : List (Content O J)
  pub pending : List (GenPart O J)

abbrev pub nothing_collected : {O J : Type 0} → Collected O J
nothing_collected = record { sys_parts = []; contents = []; pending = [] }

-- The first pass, from tool-call ids to function names.
abbrev pub note_call : ToolCall → Table Text → Table Text
note_call tc names =
    if not (is_empty tc.id) && not (is_empty tc.function.name)
    then put tc.id tc.function.name names
    else names

abbrev pub note_calls : List ToolCall → Table Text → Table Text
note_calls [] names = names
note_calls (tc ∷ tcs) names = note_calls tcs (note_call tc names)

unfoldable pub id_to_name : List Message → Table Text → Table Text
unfolding put text_eq
id_to_name [] names = names
id_to_name (m ∷ ms) names =
    id_to_name ms
      (if text_eq m.role (codes "assistant") then note_calls m.tool_calls names else names)

abbrev pub or_own_name : Text → Option Text → Text
or_own_name own none = own
or_own_name own (some name) = if is_empty name then own else name

unfoldable pub response_name : Table Text → Message → Text
unfolding lookup
response_name names m = or_own_name m.name (lookup m.tool_call_id names)

module _ {O J : Type 0} where
  abbrev pub flush_responses : Collected O J → Collected O J
  flush_responses c = if is_empty c.pending then c else record c {
    contents = c.contents ++ (record { role = role_user; parts = c.pending } ∷ []);
    pending = [];
  }

  -- A message without parts is skipped.
  abbrev pub add_content : ContentRole → List (GenPart O J) → Collected O J → Collected O J
  add_content r ps c =
      if is_empty ps
      then c
      else record c { contents = c.contents ++ (record { role = r; parts = ps } ∷ []) }

-- `unmarshal` decodes an object, `parse` any value.
module _ {X O J : Type 0} (unmarshal : Text → X ⊎ O) (no_args : O)
    (parse : Text → Option (O ⊎ J)) where
  abbrev pub args_of : Text → X ⊎ O → VertexRequestError X ⊎ O
  args_of name (inl e) = inl (call_arguments name e)
  args_of name (inr o) = inr o

  abbrev pub function_call_part : ToolCall → VertexRequestError X ⊎ GenPart O J
  function_call_part tc = do
    args ←
        (if is_empty tc.function.arguments
          then inr no_args
          else args_of tc.function.name (unmarshal tc.function.arguments))
    inr (from_function_call tc.function.name args)

  unfoldable pub model_parts : Message → VertexRequestError X ⊎ List (GenPart O J)
  unfolding vertex_part
  model_parts m = do
    ps ← traverse vertex_part m.parts
    cs ← traverse function_call_part m.tool_calls
    inr (leading_part m.content ++ (ps ++ cs))

  unfoldable pub payload_of : Text → Payload O J
  payload_of t = if is_empty t then empty_payload else wrapped t (parse t)

  unfoldable pub response_part : Table Text → Message → VertexRequestError X ⊎ GenPart O J
  unfolding payload_of response_name response_media
  response_part names m = do
    media ← response_media m.parts
    inr (from_function_response (response_name names m) (payload_of m.content) media)

  -- One round of the loop; a message of another role is passed over.
  unfoldable pub collect_message :
      Table Text → Message → Collected O J → VertexRequestError X ⊎ Collected O J
  unfolding user_parts model_parts response_part text_eq
  collect_message names m c =
      if text_eq m.role (codes "system")
      then inr (record c { sys_parts = c.sys_parts ++ leading_part m.content })
      else if text_eq m.role (codes "user")
      then (do ps ← user_parts m; inr (add_content role_user ps (flush_responses c)))
      else if text_eq m.role (codes "assistant")
      then (do ps ← model_parts m; inr (add_content role_model ps (flush_responses c)))
      else if text_eq m.role (codes "tool")
      then (do p ← response_part names m; inr (record c { pending = c.pending ++ (p ∷ []) }))
      else inr c

  unfoldable pub collect_messages :
      Table Text → List Message → Collected O J → VertexRequestError X ⊎ Collected O J
  unfolding collect_message
  collect_messages names [] c = inr (flush_responses c)
  collect_messages names (m ∷ ms) c = collect_message names m c >>= collect_messages names ms

-- A tool definition of a request; `S` is a JSON schema.
pub record ToolDef (S : Type 0) : Type 0 where
  pub name : Text
  pub description : Text
  pub parameters : S

-- `genai.FunctionDeclaration`
pub record FunctionDeclaration (S : Type 0) : Type 0 where
  pub name : Text
  pub description : Text
  pub parameters_json_schema : S

abbrev pub declaration_of : {S : Type 0} → ToolDef S → FunctionDeclaration S
declaration_of t = record {
  name = t.name;
  description = t.description;
  parameters_json_schema = t.parameters;
}

pub record ThinkingConfig : Type 0 where
  pub include_thoughts : Bool
  pub thinking_budget : Option ℤ

-- `genai.GenerateContentConfig`; no declarations are a nil `Tools`.
pub record GenerateConfig (G S O J : Type 0) : Type 0 where
  pub system_instruction : List (GenPart O J)
  pub max_output_tokens : ℤ
  pub temperature : Option G
  pub top_p : Option G
  pub top_k : Option G
  pub declarations : List (FunctionDeclaration S)
  pub thinking_config : Option ThinkingConfig

-- The fields of `ChatRequest` that the adapter reads.
pub record VertexChatRequest (F S : Type 0) : Type 0 where
  pub messages : List Message
  pub tools : List (ToolDef S)
  pub temperature : F
  pub top_p : F
  pub top_k : ℤ

abbrev pub default_vertex_max_tokens : ℤ
default_vertex_max_tokens = pos 8192

module _ {F G S X O J : Type 0} (is_zero : F → Bool) (float32 : F → G) (float32_of_int : ℤ → G)
    (unmarshal : Text → X ⊎ O) (no_args : O) (parse : Text → Option (O ⊎ J)) where
  unfoldable pub build_vertex_request :
      VertexChatRequest F S
      → ℤ
      → VertexRequestError X ⊎ (List (Content O J) × GenerateConfig G S O J)
  unfolding filter_for_request id_to_name collect_messages wrap32
  build_vertex_request req max_tokens = do
    let msgs = filter_for_request req.messages
    c ← collect_messages unmarshal no_args parse (id_to_name msgs []) msgs nothing_collected
    inr (
      c.contents,
      record {
        system_instruction = c.sys_parts;
        max_output_tokens =
            wrap32 (if eqb_ℤ max_tokens (pos 0) then default_vertex_max_tokens else max_tokens);
        temperature = if is_zero req.temperature then none else some (float32 req.temperature);
        top_p = if is_zero req.top_p then none else some (float32 req.top_p);
        top_k = if eqb_ℤ req.top_k (pos 0) then none else some (float32_of_int req.top_k);
        declarations = map declaration_of req.tools;
        thinking_config = none;
      },
    )

abbrev pub with_thoughts : Option ThinkingConfig → ThinkingConfig
with_thoughts none = record { include_thoughts = true; thinking_budget = none }
with_thoughts (some t) = record t { include_thoughts = true }

module _ {G S O J : Type 0} where
  unfoldable pub apply_vertex_thinking : GenerateConfig G S O J → ℤ → GenerateConfig G S O J
  unfolding wrap32
  apply_vertex_thinking cfg budget =
      let t = with_thoughts cfg.thinking_config in
      record cfg {
        thinking_config = some (
            if ltb_ℤ (pos 0) budget
            then record t { thinking_budget = some (wrap32 budget) }
            else t);
      }
