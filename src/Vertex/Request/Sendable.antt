-- ===== src/Vertex/Request/Sendable.antt =====
-- Which histories the request can be built of.
use azoth.Base.{
  ◌≡◌, refl, ◌∙◌, Bool, true, false, not, ◌&&◌, ◌||◌, Bool-cases, Option, List, [], ◌∷◌, ◌⊎◌, inl,
  inr, arith, if◌then◌else◌, is_empty,
}
use azoth.Base.Results.{
  traverse, is_ok, every, is_ok-both, is_ok-then, is_ok-traverse, is_ok-last, is_ok-or_empty,
}
use azoth.Base.Text.{Text, codes, text_eq}
use azoth.Message.{PartType, text_part, image_part, document_part, other_part, MessagePart, Message}
use azoth.Registry.TextMap.{Table}
use azoth.ToolCall.{ToolCall}
use azoth.Vertex.Parts.{
  media_part, part_for, vertex_part, leading_part, user_parts, is_media, blob_of, response_media,
}
use azoth.Vertex.Request.{
  Collected, args_of, function_call_part, model_parts, response_part, collect_message,
  collect_messages,
}

-- Bytes with a media type, or no bytes and a URI.
abbrev pub is_resolved : MessagePart → Bool
is_resolved p = if is_empty p.data_bytes then not (is_empty p.uri) else not (is_empty p.mime_type)

abbrev pub can_be_part : PartType → MessagePart → Bool
can_be_part text_part p = true
can_be_part image_part p = is_resolved p
can_be_part document_part p = is_resolved p
can_be_part (other_part t) p = false

-- A part of a tool's result: an image or a document needs bytes and a media type, any other part is left out.
abbrev pub can_be_in_result : MessagePart → Bool
can_be_in_result p =
    not (is_media p.kind) || (not (is_empty p.data_bytes) && not (is_empty p.mime_type))

media_part-is_ok :
    (X O J : Type 0) (p : MessagePart)
    → is_ok (media_part {X = X} {O = O} {J = J} p) ≡ is_resolved p
media_part-is_ok X O J p = ground arith

part_for-is_ok :
    (X O J : Type 0) (k : PartType) (p : MessagePart)
    → is_ok (part_for {X = X} {O = O} {J = J} k p) ≡ can_be_part k p
part_for-is_ok X O J text_part p = refl
part_for-is_ok X O J image_part p = media_part-is_ok X O J p
part_for-is_ok X O J document_part p = media_part-is_ok X O J p
part_for-is_ok X O J (other_part t) p = refl

parts-is_ok :
    (X O J : Type 0) (ps : List MessagePart)
    → is_ok (traverse (vertex_part {X = X} {O = O} {J = J}) ps)
      ≡ every (λ p. can_be_part p.kind p) ps
unfolding vertex_part
parts-is_ok X O J ps = is_ok-traverse _ _ ps (λ p. part_for-is_ok X O J p.kind p)

user_parts-is_ok :
    (X O J : Type 0) (m : Message)
    → is_ok (user_parts {X = X} {O = O} {J = J} m) ≡ every (λ p. can_be_part p.kind p) m.parts
unfolding user_parts
user_parts-is_ok X O J m =
    is_ok-or_empty vertex_part m.parts (leading_part m.content) _ ∙ parts-is_ok X O J m.parts

blob_of-is_ok :
    (X : Type 0) (p : MessagePart)
    → is_ok (blob_of {X = X} p) ≡ (not (is_empty p.data_bytes) && not (is_empty p.mime_type))
blob_of-is_ok X p = ground arith

response_media-is_ok :
    (X : Type 0) (ps : List MessagePart)
    → is_ok (response_media {X = X} ps) ≡ every can_be_in_result ps
unfolding response_media
response_media-is_ok X [] = refl
response_media-is_ok X (p ∷ ps) = elim (Bool-cases (is_media p.kind)) [
  | inl e ↦ rw e (
      is_ok-both (blob_of p) (response_media ps) _
      ∙ rw (blob_of-is_ok X p, response_media-is_ok X ps) refl)
  | inr e ↦ rw e (response_media-is_ok X ps)
]

module _ {X O J : Type 0} (unmarshal : Text → X ⊎ O) (no_args : O)
    (parse : Text → Option (O ⊎ J)) where
  abbrev pub has_arguments : ToolCall → Bool
  has_arguments tc = is_empty tc.function.arguments || is_ok (unmarshal tc.function.arguments)

  -- What a message of each role must be; a message of any other role is passed over.
  abbrev pub translatable : Message → Bool
  translatable m =
      if text_eq m.role (codes "system")
      then true
      else if text_eq m.role (codes "user")
      then every (λ p. can_be_part p.kind p) m.parts
      else if text_eq m.role (codes "assistant")
      then every (λ p. can_be_part p.kind p) m.parts && every has_arguments m.tool_calls
      else if text_eq m.role (codes "tool")
      then every can_be_in_result m.parts
      else true

  args_of-is_ok :
      (name : Text) (r : X ⊎ O) → is_ok (args_of unmarshal no_args parse name r) ≡ is_ok r
  args_of-is_ok name (inl e) = refl
  args_of-is_ok name (inr o) = refl

  function_call_part-is_ok :
      (tc : ToolCall) → is_ok (function_call_part unmarshal no_args parse tc) ≡ has_arguments tc
  function_call_part-is_ok tc = elim (Bool-cases (is_empty tc.function.arguments)) [
    | inl e ↦ rw e refl
    | inr e ↦ rw e (
        is_ok-last
          (args_of unmarshal no_args parse tc.function.name (unmarshal tc.function.arguments)) _
        ∙ args_of-is_ok tc.function.name (unmarshal tc.function.arguments))
  ]

  model_parts-is_ok :
      (m : Message)
      → is_ok (model_parts unmarshal no_args parse m)
        ≡ (every (λ p. can_be_part p.kind p) m.parts && every has_arguments m.tool_calls)
  unfolding model_parts
  model_parts-is_ok m =
      is_ok-both (traverse vertex_part m.parts)
        (traverse (function_call_part unmarshal no_args parse) m.tool_calls) _
      ∙ rw
          (
            parts-is_ok X O J m.parts,
            is_ok-traverse (function_call_part unmarshal no_args parse) _ m.tool_calls
                function_call_part-is_ok,
          )
          refl

  response_part-is_ok :
      (names : Table Text) (m : Message)
      → is_ok (response_part unmarshal no_args parse names m) ≡ every can_be_in_result m.parts
  unfolding response_part
  response_part-is_ok names m =
      is_ok-last (response_media m.parts) _ ∙ response_media-is_ok X m.parts

  collect_message-is_ok :
      (names : Table Text) (m : Message) (c : Collected O J)
      → is_ok (collect_message unmarshal no_args parse names m c) ≡ translatable m
  unfolding collect_message
  collect_message-is_ok names m c = elim (Bool-cases (text_eq m.role (codes "system"))) [
    | inl w ↦ rw w refl
    | inr w ↦ rw w (elim (Bool-cases (text_eq m.role (codes "user"))) [
      | inl x ↦ rw x (is_ok-last (user_parts m) _ ∙ user_parts-is_ok X O J m)
      | inr x ↦ rw x (elim (Bool-cases (text_eq m.role (codes "assistant"))) [
        | inl y ↦ rw y (is_ok-last (model_parts unmarshal no_args parse m) _ ∙ model_parts-is_ok m)
        | inr y ↦ rw y (elim (Bool-cases (text_eq m.role (codes "tool"))) [
          | inl z ↦ rw z (
              is_ok-last (response_part unmarshal no_args parse names m) _
              ∙ response_part-is_ok names m)
          | inr z ↦ rw z refl
        ])
      ])
    ])
  ]

  -- The contents of a request cannot be built exactly when some message does not translate: a part of a
  -- user or an assistant that is of another type, that has neither bytes nor a URI, or that has bytes
  -- but no media type; a call whose arguments are not empty and do not decode; a tool's image or
  -- document without bytes or without a media type. A system message and one of another role never fail.
  pub collect_messages-translatable :
      (names : Table Text) (ms : List Message) (c : Collected O J)
      → is_ok (collect_messages unmarshal no_args parse names ms c) ≡ every translatable ms
  unfolding collect_messages
  collect_messages-translatable names [] c = refl
  collect_messages-translatable names (m ∷ ms) c =
      is_ok-then (collect_message unmarshal no_args parse names m c) _ (every translatable ms)
        (collect_messages-translatable names ms)
      ∙ rw (collect_message-is_ok names m c) refl
