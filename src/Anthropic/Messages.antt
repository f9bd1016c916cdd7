-- ===== src/Anthropic/Messages.antt =====
-- The messages of a request as those of the Messages API: `splitSystem` and the blocks it is made of.
-- Each constructor function of the SDK is a constructor; base64 and the JSON decoder are parameters.
pub mod Sendable
use azoth.Base.{
  ℕ, Bool, true, false, not, ◌&&◌, ◌||◌, Option, none, some, List, [], ◌∷◌, ◌++◌, ◌⊎◌, inl, inr,
  if◌then◌else◌, is_empty,
}
use azoth.Base.Results.{◌>>=◌, traverse}
use azoth.Base.Text.{Text, codes, text_eq}
use azoth.Base.Utf8.{trim_space}
use azoth.Message.{
  PartType, text_part, image_part, document_part, other_part, MessagePart, Message,
  filter_for_request,
}
use azoth.ToolCall.{ToolCall}

pub data ResultContent : Type 0 where
  result_text : Text → ResultContent
  -- the data and the media type
  result_image : Text → Text → ResultContent

-- `ContentBlockParamUnion`; `J` is a decoded JSON value.
pub data BlockParam (J : Type 0) : Type 0 where
  text_block : Text → BlockParam J
  -- the media type and the data
  image_base64 : Text → Text → BlockParam J
  image_url : Text → BlockParam J
  document_base64 : Text → Text → BlockParam J
  document_url : Text → BlockParam J
  -- the id, the input and the name
  tool_use_block : Text → J → Text → BlockParam J
  -- `NewToolResultBlock(id, content, false)`
  text_result : Text → Text → BlockParam J
  -- a `ToolResultBlockParam`
  tool_result : Text → List ResultContent → BlockParam J

pub data ParamRole : Type 0 where
  user_role assistant_role : ParamRole

pub record MessageParam (J : Type 0) : Type 0 where
  pub role : ParamRole
  pub content : List (BlockParam J)

pub data ParamError (X : Type 0) : Type 0 where
  unsupported_role : Text → ParamError X
  no_data_or_uri : PartType → ParamError X
  unknown_part : Text → ParamError X
  arguments_not_json : Text → X → ParamError X
  result_without_data : ParamError X
  result_unsupported : PartType → ParamError X

-- The system texts and the messages.
pub record Split (J : Type 0) : Type 0 where
  pub system : List Text
  pub messages : List (MessageParam J)

abbrev pub role_is : Message → Text → Bool
role_is m r = text_eq m.role r

abbrev pub leading_text : {J : Type 0} → Text → List (BlockParam J)
leading_text t = if is_empty t then [] else text_block t ∷ []

-- The text parts of a system message that are not empty.
abbrev pub system_part : PartType → Text → List Text
system_part text_part t = if is_empty t then [] else t ∷ []
system_part image_part t = []
system_part document_part t = []
system_part (other_part x) t = []

abbrev pub system_parts : List MessagePart → List Text
system_parts [] = []
system_parts (p ∷ ps) = system_part p.kind p.text ++ system_parts ps

abbrev pub system_texts : Message → List Text
system_texts m = (if is_empty m.content then [] else m.content ∷ []) ++ system_parts m.parts

module _ {X : Type 0} (encode_string : List ℕ → Text) where
  abbrev pub result_for : PartType → MessagePart → ParamError X ⊎ ResultContent
  result_for text_part p = inr (result_text p.text)
  result_for image_part p =
      if is_empty p.data_bytes
      then inl result_without_data
      else inr (result_image (encode_string p.data_bytes) p.mime_type)
  result_for document_part p = inl (result_unsupported document_part)
  result_for (other_part t) p = inl (result_unsupported (other_part t))

  abbrev pub result_part : MessagePart → ParamError X ⊎ ResultContent
  result_part p = result_for p.kind p

module _ {X J : Type 0} (encode_string : List ℕ → Text) where
  -- Inline data goes before a URI.
  abbrev pub media_block :
      MessagePart → (Text → BlockParam J) → (Text → BlockParam J) → ParamError X ⊎ BlockParam J
  media_block p inline by_uri =
      if not (is_empty p.data_bytes)
      then inr (inline (encode_string p.data_bytes))
      else if not (is_empty p.uri)
      then inr (by_uri p.uri)
      else inl (no_data_or_uri p.kind)

  abbrev pub block_for : PartType → MessagePart → ParamError X ⊎ BlockParam J
  block_for text_part p = inr (text_block p.text)
  block_for image_part p = media_block p (image_base64 p.mime_type) image_url
  block_for document_part p = media_block p (document_base64 (codes "application/pdf")) document_url
  block_for (other_part t) p = inl (unknown_part t)

  unfoldable pub content_block : MessagePart → ParamError X ⊎ BlockParam J
  content_block p = block_for p.kind p

  -- Without parts, `leading_text` is the one block or none.
  unfoldable pub user_message_blocks : Message → ParamError X ⊎ List (BlockParam J)
  unfolding content_block
  user_message_blocks m =
      if is_empty m.parts
      then inr (leading_text m.content)
      else (do bs ← traverse content_block m.parts; inr (leading_text m.content ++ bs))

  unfoldable pub tool_result_block : Message → ParamError X ⊎ BlockParam J
  tool_result_block m = if is_empty m.parts then inr (text_result m.tool_call_id m.content) else (do
    cs ← traverse (result_part encode_string) m.parts
    inr (
        tool_result m.tool_call_id
          ((if is_empty m.content then [] else result_text m.content ∷ []) ++ cs)))

  module _ (unmarshal : Text → X ⊎ J) (empty_object : J) where
    abbrev pub named : Text → X ⊎ J → ParamError X ⊎ J
    named name (inl e) = inl (arguments_not_json name e)
    named name (inr j) = inr j

    abbrev pub call_input : ToolCall → ParamError X ⊎ J
    call_input tc =
        let args = trim_space tc.function.arguments in
        if is_empty args then inr empty_object else named tc.function.name (unmarshal args)

    abbrev pub call_block : ToolCall → ParamError X ⊎ BlockParam J
    call_block tc = do j ← call_input tc; inr (tool_use_block tc.id j tc.function.name)

    unfoldable pub assistant_blocks : Message → ParamError X ⊎ List (BlockParam J)
    unfolding content_block trim_space
    assistant_blocks m = do
      bs ← traverse content_block m.parts
      cs ← traverse call_block m.tool_calls
      inr (leading_text m.content ++ (bs ++ cs))

    -- A message without blocks is skipped.
    abbrev pub turn_of : ParamRole → List (BlockParam J) → Split J
    turn_of r [] = record { system = []; messages = [] }
    turn_of r (b ∷ bs) = record {
      system = [];
      messages = record { role = r; content = b ∷ bs } ∷ [];
    }

    -- What one message adds to the system texts and to the messages.
    unfoldable pub split_message : Message → ParamError X ⊎ Split J
    unfolding user_message_blocks assistant_blocks tool_result_block text_eq
    split_message m =
        if role_is m (codes "system")
        then inr (record { system = system_texts m; messages = [] })
        else if role_is m (codes "user")
        then (do bs ← user_message_blocks m; inr (turn_of user_role bs))
        else if role_is m (codes "assistant")
        then (do bs ← assistant_blocks m; inr (turn_of assistant_role bs))
        else if role_is m (codes "tool")
        then (do
          b ← tool_result_block m
          inr (record {
            system = [];
            messages = record { role = user_role; content = b ∷ [] } ∷ [];
          }))
        else inl (unsupported_role m.role)

    abbrev pub join : Split J → Split J → Split J
    join a b = record { system = a.system ++ b.system; messages = a.messages ++ b.messages }

    -- The loop returns at the first error.
    unfoldable pub split_system : List Message → ParamError X ⊎ Split J
    unfolding split_message
    split_system [] = inr (record { system = []; messages = [] })
    split_system (m ∷ ms) = do one ← split_message m; rest ← split_system ms; inr (join one rest)
