-- ===== src/Message/Tests.antt =====
-- Messages that cross the wire, and the theorems at them.
use azoth.Base.{ℕ, ◌≡◌, refl, inl, true, false, Option, some, List, [], ◌∷◌}
use azoth.Base.Text.{Text, codes}
use azoth.Message.{Message, image_part, bytes_part, new_text_part, marshal, unmarshal}
use azoth.Message.RoundTrip.{unmarshal-marshal, plain_text, plain_image}

-- A stand-in for base64 that can be undone.
abbrev encode_string : List ℕ → Text
encode_string b = b

abbrev decode_string : Text → Option (List ℕ)
decode_string t = some t

abbrev fresh : Message
fresh = record {
  role = [];
  content = [];
  parts = [];
  tool_calls = [];
  tool_call_id = [];
  name = [];
  synthetic = false;
  ignored = false;
  reasoning = [];
}

abbrev with_image : Message
with_image = record fresh {
  role = codes "user";
  content = codes "what is this?";
  parts = bytes_part image_part (codes "a/b") (137 ∷ 80 ∷ []) ∷ new_text_part (codes "look") ∷ [];
}

unmarshal-marshal_example :
    unmarshal encode_string decode_string fresh (marshal encode_string decode_string with_image)
    ≡ record with_image { synthetic = false; ignored = false; reasoning = [] }
unmarshal-marshal_example =
    unmarshal-marshal encode_string decode_string fresh with_image
      (
        plain_image (codes "a/b") (137 ∷ 80 ∷ []) refl (refl, (refl, (refl, tt))) refl refl,
        (plain_text (codes "look"), tt),
      )
      (inl refl)

abbrev note : Message
note = record fresh { ignored = true }
