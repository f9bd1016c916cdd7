-- ===== src/Vertex/Parts.antt =====
-- The parts of a message as Gemini takes them: `vertexPart`, `vertexUserParts`,
-- `vertexFunctionResponseImageParts`, and the payload of a tool's result.
use azoth.Base.{
  ℕ, Bool, true, false, not, Option, none, some, List, [], ◌∷◌, ◌++◌, ◌⊎◌, inl, inr, if◌then◌else◌,
  is_empty,
}
use azoth.Base.Results.{◌>>=◌, traverse}
use azoth.Base.Text.{Text}
use azoth.Message.{PartType, text_part, image_part, document_part, other_part, MessagePart, Message}

-- The response that is sent for a tool: an object, another value under "content", the text itself under
-- "content", or an empty object.
pub data Payload (O J : Type 0) : Type 0 where
  object : O → Payload O J
  under_content : J → Payload O J
  text_content : Text → Payload O J
  empty_payload : Payload O J

-- `genai.FunctionResponsePart`
pub record Blob : Type 0 where
  pub data_bytes : List ℕ
  pub mime_type : Text

-- `genai.Part`, by the constructors that the adapter calls; `O` is a decoded JSON object.
pub data GenPart (O J : Type 0) : Type 0 where
  from_text : Text → GenPart O J
  from_bytes : List ℕ → Text → GenPart O J
  from_uri : Text → Text → GenPart O J
  from_function_call : Text → O → GenPart O J
  -- the name, the response and its media
  from_function_response : Text → Payload O J → List Blob → GenPart O J

pub data VertexRequestError (X : Type 0) : Type 0 where
  no_mime_type : PartType → VertexRequestError X
  no_data_or_uri : PartType → VertexRequestError X
  unknown_part_type : Text → VertexRequestError X
  result_without_bytes : VertexRequestError X
  result_without_mime_type : VertexRequestError X
  call_arguments : Text → X → VertexRequestError X

module _ {O J : Type 0} where
  abbrev pub leading_part : Text → List (GenPart O J)
  leading_part t = if is_empty t then [] else from_text t ∷ []

  abbrev pub wrapped : Text → Option (O ⊎ J) → Payload O J
  wrapped t none = text_content t
  wrapped t (some (inl o)) = object o
  wrapped t (some (inr v)) = under_content v

module _ {X O J : Type 0} where
  abbrev pub media_part : MessagePart → VertexRequestError X ⊎ GenPart O J
  media_part p =
      if not (is_empty p.data_bytes)
      then (if is_empty p.mime_type
          then inl (no_mime_type p.kind)
          else inr (from_bytes p.data_bytes p.mime_type))
      else if not (is_empty p.uri)
      then inr (from_uri p.uri p.mime_type)
      else inl (no_data_or_uri p.kind)

  abbrev pub part_for : PartType → MessagePart → VertexRequestError X ⊎ GenPart O J
  part_for text_part p = inr (from_text p.text)
  part_for image_part p = media_part p
  part_for document_part p = media_part p
  part_for (other_part t) p = inl (unknown_part_type t)

  unfoldable pub vertex_part : MessagePart → VertexRequestError X ⊎ GenPart O J
  vertex_part p = part_for p.kind p

  unfoldable pub user_parts : Message → VertexRequestError X ⊎ List (GenPart O J)
  unfolding vertex_part
  user_parts m =
      if is_empty m.parts
      then inr (leading_part m.content)
      else (do ps ← traverse vertex_part m.parts; inr (leading_part m.content ++ ps))

abbrev pub is_media : PartType → Bool
is_media text_part = false
is_media image_part = true
is_media document_part = true
is_media (other_part t) = false

module _ {X : Type 0} where
  abbrev pub blob_of : MessagePart → VertexRequestError X ⊎ Blob
  blob_of p =
      if is_empty p.data_bytes
      then inl result_without_bytes
      else if is_empty p.mime_type
      then inl result_without_mime_type
      else inr (record { data_bytes = p.data_bytes; mime_type = p.mime_type })

  unfoldable pub response_media : List MessagePart → VertexRequestError X ⊎ List Blob
  response_media [] = inr []
  response_media (p ∷ ps) =
      let rest = response_media ps in
      if not (is_media p.kind) then rest else (do b ← blob_of p; bs ← rest; inr (b ∷ bs))
