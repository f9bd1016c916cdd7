-- ===== src/Anthropic/Params.antt =====
-- `buildAnthropicParams`: the request of the Messages API, its cache markers and its thinking budget.
-- The numbers of the sampling settings are a parameter, with the test for 0 and the number 1.
pub mod Markers
pub mod Budget
use azoth.Base.{
  ℕ, zero, suc, ◌+◌, ◌-◌, Bool, true, false, not, ◌&&◌, Option, none, some, List, [], ◌∷◌, ◌++◌,
  ◌⊎◌, inl, inr, leb, min, if◌then◌else◌, is_empty, map, length, get_elem?, set,
}
use azoth.Base.Int.{ℤ, pos, ltb_ℤ, leb_ℤ, eqb_ℤ, wrap64, ◌-ℤ◌}
use azoth.Base.Results.{◌>>=◌}
use azoth.Base.Text.{Text}
use azoth.Base.Trailing.{one_if, update_trailing}
use azoth.Message.{Message, filter_for_request}
use azoth.Anthropic.Messages.{BlockParam, ParamRole, MessageParam, ParamError, Split, split_system}
use azoth.Anthropic.Schema.{ToolDef, ToolParam, ToolError, to_tools}

-- A value with its `cache_control`.
pub record Marked (A : Type 0) : Type 0 where
  pub value : A
  pub cached : Bool

abbrev pub fresh : {A : Type 0} → A → Marked A
fresh a = record { value = a; cached = false }

pub record Turn (J : Type 0) : Type 0 where
  pub role : ParamRole
  pub content : List (Marked (BlockParam J))

-- The fields of `ChatRequest` that the adapter reads.
pub record ChatRequest (F V : Type 0) : Type 0 where
  pub messages : List Message
  pub tools : List (ToolDef V)
  pub temperature : F
  pub top_p : F
  pub top_k : ℤ

-- `MessageNewParams`; a tool is always a function tool.
pub record Params (F V J : Type 0) : Type 0 where
  pub model : Text
  pub max_tokens : ℤ
  pub system : List (Marked Text)
  pub messages : List (Turn J)
  pub tools : List (Marked (ToolParam V))
  pub temperature : Option F
  pub top_p : Option F
  pub top_k : Option ℤ
  pub thinking : Option ℤ

pub data BuildError (X : Type 0) : Type 0 where
  bad_message : ParamError X → BuildError X
  bad_tool : ToolError → BuildError X

-- The last value gets the marker, if it can have one.
abbrev pub mark_last : {A : Type 0} → (A → Bool) → List (Marked A) → List (Marked A)
mark_last can [] = []
mark_last can (x ∷ []) = (if can x.value then record x { cached = true } else x) ∷ []
mark_last can (x ∷ y ∷ ys) = x ∷ mark_last can (y ∷ ys)

-- `GetCacheControl() != nil`
module _ {J : Type 0} (can_cache : BlockParam J → Bool) where
  abbrev pub mark_turn : Turn J → Turn J
  mark_turn t = record t { content = mark_last can_cache t.content }

  -- `n` rounds of the loop over the trailing messages.
  unfoldable pub mark_trailing : ℕ → List (Turn J) → List (Turn J)
  unfolding update_trailing
  mark_trailing n ts = update_trailing mark_turn n 0 ts

  unfoldable pub apply_prompt_caching : {F V : Type 0} → Params F V J → Params F V J
  unfolding mark_trailing
  apply_prompt_caching p =
      let used = one_if p.system + one_if p.tools in
      record p {
        system = mark_last (λ t. true) p.system;
        tools = mark_last (λ t. true) p.tools;
        messages = mark_trailing (min (4 - used) 2) p.messages;
      }

-- The budget that is asked for, in the limits that the API sets.
unfoldable pub thinking_budget : ℤ → ℤ → ℤ
unfolding ◌-ℤ◌
thinking_budget configured max_tokens =
    let budget = if eqb_ℤ configured (pos 0) then pos 4096 else configured in
    let budget = if ltb_ℤ budget (pos 1024) then pos 1024 else budget in
    if leb_ℤ max_tokens budget then wrap64 (max_tokens -ℤ pos 1) else budget

-- An option that is set unless it is 0.
abbrev pub unless_zero : {F : Type 0} → (F → Bool) → F → Option F
unless_zero is_zero x = if is_zero x then none else some x

abbrev pub message_error : {X A : Type 0} → ParamError X ⊎ A → BuildError X ⊎ A
message_error (inl e) = inl (bad_message e)
message_error (inr s) = inr s

abbrev pub tool_error : {X A : Type 0} → ToolError ⊎ A → BuildError X ⊎ A
tool_error (inl e) = inl (bad_tool e)
tool_error (inr ts) = inr ts

abbrev pub turn_param : {J : Type 0} → MessageParam J → Turn J
turn_param m = record { role = m.role; content = map fresh m.content }

module _ {F V X J : Type 0} (is_zero : F → Bool) (one : F) (encode_string : List ℕ → Text)
    (unmarshal : Text → X ⊎ J) (empty_object : J) (can_cache : BlockParam J → Bool) where
  unfoldable pub to_params : ChatRequest F V → Text → ℤ → BuildError X ⊎ Params F V J
  unfolding split_system to_tools filter_for_request
  to_params req model max_tokens = do
    s ←
        message_error
          (split_system encode_string unmarshal empty_object (filter_for_request req.messages))
    tools ← tool_error (to_tools req.tools)
    inr (record {
      model = model;
      max_tokens = max_tokens;
      system = map fresh s.system;
      messages = map turn_param s.messages;
      tools = map fresh tools;
      temperature = unless_zero is_zero req.temperature;
      top_p = unless_zero is_zero req.top_p;
      top_k = unless_zero (λ k. eqb_ℤ k (pos 0)) req.top_k;
      thinking = none;
    })

  abbrev pub with_caching : Bool → Params F V J → Params F V J
  with_caching caching p = if caching then apply_prompt_caching can_cache p else p

  -- Thinking goes with temperature 1 alone.
  abbrev pub with_thinking : Bool → ℤ → Params F V J → Params F V J
  with_thinking thinking configured p =
      if thinking
      then record p {
        thinking = some (thinking_budget configured p.max_tokens);
        temperature = some one;
        top_p = none;
        top_k = none;
      }
      else p

  unfoldable pub build_params :
      ChatRequest F V → Text → ℤ → Bool → ℤ → Bool → BuildError X ⊎ Params F V J
  unfolding to_params apply_prompt_caching thinking_budget
  build_params req model max_tokens thinking configured caching = do
    p ← to_params req model max_tokens
    inr (with_thinking thinking configured (with_caching caching p))
