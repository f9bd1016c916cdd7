-- ===== src/Anthropic/Messages/Sendable.antt =====
-- Which histories can be sent, and that no message of a request is empty.
use azoth.Base.{
  ℕ, ◌≡◌, refl, ◌∙◌, Bool, true, false, not, ◌&&◌, ◌||◌, Bool-cases, List, [], ◌∷◌, ◌⊎◌, inl, inr,
  arith, if◌then◌else◌, is_empty,
}
use azoth.Base.Results.{
  traverse, is_ok, every, is_ok-both, is_ok-traverse, is_ok-last, is_ok-or_empty,
}
use azoth.Base.Text.{Text, codes}
use azoth.Base.Utf8.{trim_space}
use azoth.Message.{PartType, text_part, image_part, document_part, other_part, MessagePart, Message}
use azoth.ToolCall.{ToolCall}
use azoth.Anthropic.Messages.{
  BlockParam, image_base64, image_url, document_base64, document_url, text_result, role_is,
  leading_text, media_block, block_for, content_block, user_message_blocks, result_for, result_part,
  tool_result_block, named, call_input, call_block, assistant_blocks, split_message, join,
  split_system,
}

abbrev pub has_media : MessagePart → Bool
has_media p = not (is_empty p.data_bytes) || not (is_empty p.uri)

-- Text, or an image or document with bytes or a URI.
abbrev pub can_be_block : PartType → MessagePart → Bool
can_be_block text_part p = true
can_be_block image_part p = has_media p
can_be_block document_part p = has_media p
can_be_block (other_part t) p = false

-- Text, or an image with bytes.
abbrev pub can_be_result : PartType → MessagePart → Bool
can_be_result text_part p = true
can_be_result image_part p = not (is_empty p.data_bytes)
can_be_result document_part p = false
can_be_result (other_part t) p = false

module _ {X J : Type 0} (encode_string : List ℕ → Text) (unmarshal : Text → X ⊎ J)
    (empty_object : J) where
  abbrev pub can_be_called : ToolCall → Bool
  can_be_called tc =
      is_empty (trim_space tc.function.arguments)
      || is_ok (unmarshal (trim_space tc.function.arguments))

  -- What a message of each role must be; any other role cannot be sent.
  abbrev pub sendable : Message → Bool
  sendable m =
      if role_is m (codes "system")
      then true
      else if role_is m (codes "user")
      then every (λ p. can_be_block p.kind p) m.parts
      else if role_is m (codes "assistant")
      then every (λ p. can_be_block p.kind p) m.parts && every can_be_called m.tool_calls
      else if role_is m (codes "tool")
      then every (λ p. can_be_result p.kind p) m.parts
      else false

  media_block-is_ok :
      (p : MessagePart) (f g : Text → BlockParam J)
      → is_ok (media_block {X = X} encode_string p f g) ≡ has_media p
  media_block-is_ok p f g = ground arith

  block_for-is_ok :
      (k : PartType) (p : MessagePart)
      → is_ok (block_for {X = X} {J = J} encode_string k p) ≡ can_be_block k p
  block_for-is_ok text_part p = refl
  block_for-is_ok image_part p = media_block-is_ok p (image_base64 p.mime_type) image_url
  block_for-is_ok document_part p =
      media_block-is_ok p (document_base64 (codes "application/pdf")) document_url
  block_for-is_ok (other_part t) p = refl

  content_block-is_ok :
      (p : MessagePart)
      → is_ok (content_block {X = X} {J = J} encode_string p) ≡ can_be_block p.kind p
  unfolding content_block
  content_block-is_ok p = block_for-is_ok p.kind p

  result_for-is_ok :
      (k : PartType) (p : MessagePart)
      → is_ok (result_for {X = X} encode_string k p) ≡ can_be_result k p
  result_for-is_ok text_part p = refl
  result_for-is_ok image_part p = ground arith
  result_for-is_ok document_part p = refl
  result_for-is_ok (other_part t) p = refl

  named-is_ok :
      (name : Text) (r : X ⊎ J)
      → is_ok (named encode_string unmarshal empty_object name r) ≡ is_ok r
  named-is_ok name (inl e) = refl
  named-is_ok name (inr j) = refl

  call_block-is_ok :
      (tc : ToolCall)
      → is_ok (call_block encode_string unmarshal empty_object tc) ≡ can_be_called tc
  call_block-is_ok tc =
      let args = trim_space tc.function.arguments in
      is_ok-last (call_input encode_string unmarshal empty_object tc) _
      ∙ elim (Bool-cases (is_empty args)) [
        | inl e ↦ rw e refl
        | inr e ↦ rw e (named-is_ok tc.function.name (unmarshal args))
      ]

  user_message_blocks-is_ok :
      (m : Message)
      → is_ok (user_message_blocks {X = X} {J = J} encode_string m)
        ≡ every (λ p. can_be_block p.kind p) m.parts
  unfolding user_message_blocks
  user_message_blocks-is_ok m =
      is_ok-or_empty (content_block {X = X} {J = J} encode_string) m.parts (leading_text m.content)
        _
      ∙ is_ok-traverse (content_block {X = X} {J = J} encode_string) _ m.parts content_block-is_ok

  tool_result_block-is_ok :
      (m : Message)
      → is_ok (tool_result_block {X = X} {J = J} encode_string m)
        ≡ every (λ p. can_be_result p.kind p) m.parts
  unfolding tool_result_block
  tool_result_block-is_ok m =
      is_ok-or_empty (result_part {X = X} encode_string) m.parts
        (text_result m.tool_call_id m.content) _
      ∙ is_ok-traverse (result_part {X = X} encode_string) _ m.parts
          (λ p. result_for-is_ok p.kind p)

  assistant_blocks-is_ok :
      (m : Message)
      → is_ok (assistant_blocks encode_string unmarshal empty_object m)
        ≡ (every (λ p. can_be_block p.kind p) m.parts && every can_be_called m.tool_calls)
  unfolding assistant_blocks
  assistant_blocks-is_ok m =
      is_ok-both (traverse (content_block encode_string) m.parts) _ _
      ∙ rw
          (
            is_ok-traverse (content_block {X = X} {J = J} encode_string) _ m.parts
                content_block-is_ok,
            is_ok-traverse (call_block encode_string unmarshal empty_object) _ m.tool_calls
                call_block-is_ok,
          )
          refl

  split_message-is_ok :
      (m : Message) → is_ok (split_message encode_string unmarshal empty_object m) ≡ sendable m
  unfolding split_message
  split_message-is_ok m = elim (Bool-cases (role_is m (codes "system"))) [
    | inl a ↦ rw a refl
    | inr a ↦ rw a (elim (Bool-cases (role_is m (codes "user"))) [
      | inl b ↦ rw b (
          is_ok-last (user_message_blocks {X = X} {J = J} encode_string m) _
          ∙ user_message_blocks-is_ok m)
      | inr b ↦ rw b (elim (Bool-cases (role_is m (codes "assistant"))) [
        | inl c ↦ rw c (
            is_ok-last (assistant_blocks encode_string unmarshal empty_object m) _
            ∙ assistant_blocks-is_ok m)
        | inr c ↦ rw c (elim (Bool-cases (role_is m (codes "tool"))) [
          | inl d ↦ rw d (
              is_ok-last (tool_result_block {X = X} {J = J} encode_string m) _
              ∙ tool_result_block-is_ok m)
          | inr d ↦ rw d refl
        ])
      ])
    ])
  ]

  -- `splitSystem` returns an error exactly when some message cannot be sent: one of another role, a
  -- part that fits no block of its message, or a call whose arguments are neither blank nor JSON.
  pub split_system-sendable :
      (ms : List Message)
      → is_ok (split_system encode_string unmarshal empty_object ms) ≡ every sendable ms
  unfolding split_system
  split_system-sendable [] = refl
  split_system-sendable (m ∷ ms) =
      is_ok-both (split_message encode_string unmarshal empty_object m) _
        (join encode_string unmarshal empty_object)
      ∙ rw (split_message-is_ok m, split_system-sendable ms) refl
