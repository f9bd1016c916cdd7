-- ===== src/Bedrock/Input.antt =====
-- The whole Converse request: `buildConverseInput`, `applyExtendedThinking` and `applyBedrockCachePoints`.
-- The sampling numbers are a parameter.
pub mod Thinking
pub mod Points
use azoth.Base.{
  ℕ, ◌+◌, ◌-◌, Bool, true, false, Option, none, some, List, [], ◌∷◌, ◌++◌, ◌⊎◌, inl, inr, min,
  if◌then◌else◌, is_empty, map,
}
use azoth.Base.Int.{ℤ, pos, ltb_ℤ, leb_ℤ, eqb_ℤ, wrap64, wrap32, ◌-ℤ◌}
use azoth.Base.Results.{◌>>=◌}
use azoth.Base.Text.{Text}
use azoth.Base.Trailing.{one_if, update_trailing}
use azoth.Message.{Message, filter_for_request}
use azoth.Bedrock.Request.{
  ContentBlock, cache_point, ConverseMessage, RequestError, model_required, Building, nothing_built,
  build_messages,
}

-- A tool definition, with its parameters as they are wrapped in a document.
pub record ToolDef (J : Type 0) : Type 0 where
  pub name : Text
  pub description : Text
  pub parameters : J

-- `types.Tool`
pub data Tool (J : Type 0) : Type 0 where
  -- the name, the description and the schema
  tool_spec : Text → Option Text → J → Tool J
  tool_cache_point : Tool J

-- `types.SystemContentBlock`
pub data SystemBlock : Type 0 where
  system_text : Text → SystemBlock
  system_cache_point : SystemBlock

pub record InferenceConfig (G : Type 0) : Type 0 where
  pub max_tokens : ℤ
  pub temperature : Option G
  pub top_p : Option G

-- `ConverseStreamInput`; no tools are a nil `ToolConfig`.
pub record ConverseInput (G J : Type 0) : Type 0 where
  pub model_id : Text
  pub messages : List (ConverseMessage J)
  pub system : List SystemBlock
  pub tools : List (Tool J)
  pub inference : InferenceConfig G
  pub thinking_budget : Option ℤ

-- The fields of `ChatRequest` that the adapter reads.
pub record ChatRequest (F J : Type 0) : Type 0 where
  pub messages : List Message
  pub tools : List (ToolDef J)
  pub temperature : F
  pub top_p : F

abbrev pub default_max_tokens : ℤ
default_max_tokens = pos 4096

abbrev pub min_thinking_budget : ℤ
min_thinking_budget = pos 1024

abbrev pub default_thinking_budget : ℤ
default_thinking_budget = pos 4096

abbrev pub tool_of : {J : Type 0} → ToolDef J → Tool J
tool_of t =
    tool_spec t.name (if is_empty t.description then none else some t.description) t.parameters

-- `float32(x)` is a parameter.
module _ {F G X J : Type 0} (is_zero : F → Bool) (float32 : F → G) (unmarshal : Text → X ⊎ J)
    (empty_object : J) where
  unfoldable pub build_converse_input :
      ChatRequest F J → Text → ℤ → RequestError X ⊎ ConverseInput G J
  unfolding build_messages filter_for_request wrap32
  build_converse_input req model max_tokens = if is_empty model then inl model_required else (do
    b ← build_messages unmarshal empty_object (filter_for_request req.messages) nothing_built
    inr (record {
      model_id = model;
      messages = b.messages;
      system = map system_text b.system;
      tools = map tool_of req.tools;
      inference = record {
        max_tokens = wrap32 (if eqb_ℤ max_tokens (pos 0) then default_max_tokens else max_tokens);
        temperature = if is_zero req.temperature then none else some (float32 req.temperature);
        top_p = if is_zero req.top_p then none else some (float32 req.top_p);
      };
      thinking_budget = none;
    }))

-- The budget that goes with a `max_tokens`; the configuration of an input is never nil.
unfoldable pub clamped_budget : ℤ → ℤ → ℤ
unfolding ◌-ℤ◌
clamped_budget budget max_tokens =
    let budget = if eqb_ℤ budget (pos 0) then default_thinking_budget else budget in
    let budget = if ltb_ℤ budget min_thinking_budget then min_thinking_budget else budget in
    if leb_ℤ max_tokens budget then wrap64 (max_tokens -ℤ pos 1) else budget

-- A slice that is not empty, with a marker behind its last element.
abbrev pub end_point : {A : Type 0} → A → List A → List A
end_point p [] = []
end_point p (x ∷ xs) = (x ∷ xs) ++ (p ∷ [])

abbrev pub add_point : {J : Type 0} → ConverseMessage J → ConverseMessage J
add_point m = record m { content = m.content ++ (cache_point ∷ []) }

module _ {G J : Type 0} where
  -- `one` is `float32(1.0)`.
  unfoldable pub apply_extended_thinking : G → ConverseInput G J → ℤ → ConverseInput G J
  unfolding clamped_budget
  apply_extended_thinking one input budget = record input {
    inference = record {
      max_tokens = input.inference.max_tokens;
      temperature = some one;
      top_p = none;
    };
    thinking_budget = some (clamped_budget budget input.inference.max_tokens);
  }

  unfoldable pub apply_cache_points : ConverseInput G J → ConverseInput G J
  unfolding update_trailing
  apply_cache_points input =
      let used = one_if input.system + one_if input.tools in
      record input {
        system = end_point system_cache_point input.system;
        tools = end_point tool_cache_point input.tools;
        messages = update_trailing add_point (min (4 - used) 2) 0 input.messages;
      }
