-- ===== src/Bedrock/Request.antt =====
-- The messages of a Converse request: the loop of `buildConverseInput` and what it calls. The JSON decoder
-- is a parameter.
pub mod Grouping
use azoth.Base.{
  ℕ, zero, suc, ◌+◌, ◌-◌, ◌%◌, ◌^◌, Bool, true, false, not, ◌&&◌, ◌||◌, Option, none, some, List,
  [], ◌∷◌, ◌++◌, ◌⊎◌, inl, inr, leb, ltb, min, if◌then◌else◌, is_empty, map, length, get_elem?, set,
}
use azoth.Base.Int.{ℤ, pos, negsuc, ltb_ℤ, leb_ℤ, eqb_ℤ, wrap64, wrap32, ◌-ℤ◌}
use azoth.Base.Results.{◌>>=◌, traverse}
use azoth.Base.Text.{Text, codes, text_eq}
use azoth.Base.Utf8.{trim_space, lower_is}
use azoth.Message.{
  PartType, text_part, image_part, document_part, other_part, MessagePart, Message,
  filter_for_request,
}
use azoth.ToolCall.{ToolCall}

pub data ImageFormat : Type 0 where
  png jpeg gif webp : ImageFormat

pub data ResultContent : Type 0 where
  result_text : Text → ResultContent
  result_image : ImageFormat → List ℕ → ResultContent

-- `types.ContentBlock`; `J` is a decoded JSON value.
pub data ContentBlock (J : Type 0) : Type 0 where
  text_block : Text → ContentBlock J
  image_block : ImageFormat → List ℕ → ContentBlock J
  -- the id, the name and the input
  tool_use : Text → Text → J → ContentBlock J
  tool_result : Text → List ResultContent → ContentBlock J
  cache_point : ContentBlock J

pub data ConverseRole : Type 0 where
  user_role assistant_role : ConverseRole

pub record ConverseMessage (J : Type 0) : Type 0 where
  pub role : ConverseRole
  pub content : List (ContentBlock J)

pub data RequestError (X : Type 0) : Type 0 where
  model_required : RequestError X
  no_inline_bytes : RequestError X
  unsupported_mime : Text → RequestError X
  document_unsupported : RequestError X
  unknown_part : Text → RequestError X
  bad_arguments : Text → X → RequestError X
  result_unsupported : PartType → RequestError X

module _ {X : Type 0} where
  unfoldable pub image_format : Text → RequestError X ⊎ ImageFormat
  unfolding trim_space lower_is
  image_format mime =
      let m = trim_space mime in
      if lower_is m (codes "image/png")
      then inr png
      else if lower_is m (codes "image/jpeg") || lower_is m (codes "image/jpg")
      then inr jpeg
      else if lower_is m (codes "image/gif")
      then inr gif
      else if lower_is m (codes "image/webp")
      then inr webp
      else inl (unsupported_mime mime)

  abbrev pub image_of : {A : Type 0} → MessagePart → (ImageFormat → List ℕ → A) → RequestError X ⊎ A
  image_of p f =
      if is_empty p.data_bytes
      then inl no_inline_bytes
      else (do fmt ← image_format p.mime_type; inr (f fmt p.data_bytes))

  abbrev pub result_for : PartType → MessagePart → RequestError X ⊎ ResultContent
  result_for text_part p = inr (result_text p.text)
  result_for image_part p = image_of p result_image
  result_for document_part p = inl (result_unsupported document_part)
  result_for (other_part t) p = inl (result_unsupported (other_part t))

  abbrev pub result_part : MessagePart → RequestError X ⊎ ResultContent
  result_part p = result_for p.kind p

  unfoldable pub tool_result_content : Message → RequestError X ⊎ List ResultContent
  unfolding image_format
  tool_result_content m = if is_empty m.parts then inr (result_text m.content ∷ []) else (do
    cs ← traverse result_part m.parts
    inr ((if is_empty m.content then [] else result_text m.content ∷ []) ++ cs))

abbrev pub leading_text : {J : Type 0} → Text → List (ContentBlock J)
leading_text t = if is_empty t then [] else text_block t ∷ []

module _ {X J : Type 0} where
  abbrev pub block_for : PartType → MessagePart → RequestError X ⊎ ContentBlock J
  block_for text_part p = inr (text_block p.text)
  block_for image_part p = image_of p image_block
  block_for document_part p = inl document_unsupported
  block_for (other_part t) p = inl (unknown_part t)

  unfoldable pub content_block : MessagePart → RequestError X ⊎ ContentBlock J
  unfolding image_format
  content_block p = block_for p.kind p

  unfoldable pub user_content : Message → RequestError X ⊎ List (ContentBlock J)
  unfolding content_block
  user_content m =
      if is_empty m.parts
      then inr (leading_text m.content)
      else (do bs ← traverse content_block m.parts; inr (leading_text m.content ++ bs))

-- The variables of the loop.
pub record Building (J : Type 0) : Type 0 where
  pub system : List Text
  pub messages : List (ConverseMessage J)
  pub pending : List (ContentBlock J)

abbrev pub nothing_built : {J : Type 0} → Building J
nothing_built = record { system = []; messages = []; pending = [] }

-- `flushToolResults`
unfoldable pub flush_results : {J : Type 0} → Building J → Building J
flush_results b = if is_empty b.pending then b else record b {
  messages = b.messages ++ (record { role = user_role; content = b.pending } ∷ []);
  pending = [];
}

-- A message without content is skipped.
abbrev pub add_message :
    {J : Type 0} → ConverseRole → List (ContentBlock J) → Building J → Building J
add_message r [] b = b
add_message r (c ∷ cs) b = record b {
  messages = b.messages ++ (record { role = r; content = c ∷ cs } ∷ []);
}

module _ {X J : Type 0} (unmarshal : Text → X ⊎ J) (empty_object : J) where
  abbrev pub argument_of : Text → X ⊎ J → RequestError X ⊎ J
  argument_of name (inl e) = inl (bad_arguments name e)
  argument_of name (inr j) = inr j

  abbrev pub call_block : ToolCall → RequestError X ⊎ ContentBlock J
  call_block tc = do
    j ←
        (if is_empty tc.function.arguments
          then inr empty_object
          else argument_of tc.function.name (unmarshal tc.function.arguments))
    inr (tool_use tc.id tc.function.name j)

  unfoldable pub assistant_content : Message → RequestError X ⊎ List (ContentBlock J)
  unfolding content_block
  assistant_content m = do
    bs ← traverse content_block m.parts
    cs ← traverse call_block m.tool_calls
    inr (leading_text m.content ++ (bs ++ cs))

  -- One round of the loop; a message of another role is passed over.
  unfoldable pub build_message : Message → Building J → RequestError X ⊎ Building J
  unfolding user_content assistant_content tool_result_content flush_results text_eq
  build_message m b =
      if text_eq m.role (codes "system")
      then inr
          (if is_empty m.content then b else record b { system = b.system ++ (m.content ∷ []) })
      else if text_eq m.role (codes "user")
      then (do cs ← user_content m; inr (add_message user_role cs (flush_results b)))
      else if text_eq m.role (codes "assistant")
      then (do cs ← assistant_content m; inr (add_message assistant_role cs (flush_results b)))
      else if text_eq m.role (codes "tool")
      then (do
        cs ← tool_result_content m
        inr (record b { pending = b.pending ++ (tool_result m.tool_call_id cs ∷ []) }))
      else inr b

  unfoldable pub build_messages : List Message → Building J → RequestError X ⊎ Building J
  unfolding build_message
  build_messages [] b = inr (flush_results b)
  build_messages (m ∷ ms) b = build_message m b >>= build_messages ms
