-- ===== src/Message.antt =====
-- llm/messages.go: messages, their parts, and the two JSON shapes of their content. A wire message
-- is the struct that `encoding/json` writes and reads; base64 is a parameter.
pub mod DataUrl
pub mod Filter
pub mod RoundTrip
pub mod Usage
mod Tests
use azoth.Base.{
  ℕ, zero, suc, ◌+◌, ◌≡◌, refl, Bool, true, false, not, ◌&&◌, ◌||◌, Option, none, some, List, [],
  ◌∷◌, ◌++◌, if◌then◌else◌, is_empty, length, drop,
}
use azoth.Base.Text.{Text, codes, text_eq, has_prefix}
use azoth.ToolCall.{ToolCall}

-- `MessagePart.Type`.
pub data PartType : Type 0 where
  text_part image_part document_part : PartType
  other_part : Text → PartType

pub record MessagePart : Type 0 where
  pub kind : PartType
  pub text : Text
  pub mime_type : Text
  pub data_bytes : List ℕ
  pub uri : Text

pub record Message : Type 0 where
  pub role : Text
  pub content : Text
  pub parts : List MessagePart
  pub tool_calls : List ToolCall
  pub tool_call_id : Text
  pub name : Text
  -- not on the wire
  pub synthetic : Bool
  pub ignored : Bool
  pub reasoning : Text

abbrev pub any_ignored : List Message → Bool
any_ignored [] = false
any_ignored (m ∷ ms) = if m.ignored then true else any_ignored ms

abbrev pub skip_ignored : List Message → List Message
skip_ignored [] = []
skip_ignored (m ∷ ms) = if m.ignored then skip_ignored ms else m ∷ skip_ignored ms

unfoldable pub filter_for_request : List Message → List Message
filter_for_request msgs = if not (any_ignored msgs) then msgs else skip_ignored msgs

abbrev pub new_text_part : Text → MessagePart
new_text_part t = record { kind = text_part; text = t; mime_type = []; data_bytes = []; uri = [] }

abbrev pub bytes_part : PartType → Text → List ℕ → MessagePart
bytes_part k mime bytes = record {
  kind = k;
  text = [];
  mime_type = mime;
  data_bytes = bytes;
  uri = [];
}

abbrev pub uri_part : PartType → Text → MessagePart
uri_part k uri = record { kind = k; text = []; mime_type = []; data_bytes = []; uri = uri }

pub record FileBlock : Type 0 where
  pub file_data : Text
  pub file_id : Text

pub data BlockType : Type 0 where
  text_block image_url_block file_block : BlockType
  other_block : Text → BlockType

pub record Block : Type 0 where
  pub kind : BlockType
  pub text : Text
  pub image_url : Option Text
  pub file : Option FileBlock

-- What the `content` key holds.
pub data Content : Type 0 where
  absent : Content
  null : Content
  string : Text → Content
  blocks : List Block → Content

pub record Wire : Type 0 where
  pub role : Text
  pub content : Content
  pub tool_calls : List ToolCall
  pub tool_call_id : Text
  pub name : Text

-- `strings.CutPrefix` and `strings.Cut`.
unfoldable pub cut_prefix : Text → Text → Option Text
cut_prefix s p = if has_prefix s p then some (drop (length p) s) else none

abbrev pub behind : ℕ → Option (Text × Text) → Option (Text × Text)
behind c none = none
behind c (some (before, after)) = some (c ∷ before, after)

unfoldable pub cut : Text → Text → Option (Text × Text)
unfolding has_prefix
cut [] sep = if has_prefix [] sep then some ([], []) else none
cut (c ∷ s) sep =
    if has_prefix (c ∷ s) sep then some ([], drop (length sep) (c ∷ s)) else behind c (cut s sep)

abbrev pub block_of_text : Text → Block
block_of_text t = record { kind = text_block; text = t; image_url = none; file = none }

abbrev pub block_of_url : Text → Block
block_of_url url = record { kind = image_url_block; text = []; image_url = some url; file = none }

abbrev pub block_of_file : FileBlock → Block
block_of_file f = record { kind = file_block; text = []; image_url = none; file = some f }

abbrev pub data_prefix : Text
data_prefix = codes "data:"

abbrev pub base64_mark : Text
base64_mark = codes ";base64,"

module _ (encode_string : List ℕ → Text) (decode_string : Text → Option (List ℕ)) where
  unfoldable pub data_url : MessagePart → Text
  data_url p =
      if is_empty p.data_bytes || is_empty p.mime_type
      then []
      else data_prefix ++ (p.mime_type ++ (base64_mark ++ encode_string p.data_bytes))

  unfoldable pub marshal_part : PartType → MessagePart → List Block
  unfolding data_url
  marshal_part text_part p = block_of_text p.text ∷ []
  marshal_part image_part p = block_of_url (if is_empty p.uri then data_url p else p.uri) ∷ []
  marshal_part document_part p =
      block_of_file (
        if is_empty p.uri
        then record { file_data = data_url p; file_id = [] }
        else record { file_data = []; file_id = p.uri })
      ∷ []
  marshal_part (other_part t) p = []

  unfoldable pub marshal_parts : List MessagePart → List Block
  unfolding marshal_part
  marshal_parts [] = []
  marshal_parts (p ∷ ps) = marshal_part p.kind p ++ marshal_parts ps

  abbrev pub wire_with : Message → Content → Wire
  wire_with m c = record {
    role = m.role;
    content = c;
    tool_calls = m.tool_calls;
    tool_call_id = m.tool_call_id;
    name = m.name;
  }

  -- `Message.MarshalJSON` with `marshalMultimodalJSON`.
  unfoldable pub marshal : Message → Wire
  unfolding marshal_parts text_eq
  marshal m =
      if not (is_empty m.parts)
      then wire_with m (
          blocks (
            (if is_empty m.content then [] else block_of_text m.content ∷ [])
            ++ marshal_parts m.parts))
      else if text_eq m.role (codes "assistant")
          && is_empty m.content
          && not (is_empty m.tool_calls)
      then wire_with m absent
      else wire_with m (string m.content)

  abbrev pub decoded_part : PartType → Text → Text → Option (List ℕ) → MessagePart
  decoded_part k url mime none = uri_part k url
  decoded_part k url mime (some bytes) = bytes_part k mime bytes

  abbrev pub cut_part : PartType → Text → Option (Text × Text) → MessagePart
  cut_part k url none = uri_part k url
  cut_part k url (some (mime, enc)) = decoded_part k url mime (decode_string enc)

  abbrev pub url_part : PartType → Text → Option Text → MessagePart
  url_part k url none = uri_part k url
  url_part k url (some rest) = cut_part k url (cut rest base64_mark)

  unfoldable pub part_from_url : PartType → Text → MessagePart
  unfolding cut cut_prefix
  part_from_url k url = url_part k url (cut_prefix url data_prefix)

  abbrev pub file_part : FileBlock → MessagePart
  file_part f =
      if not (is_empty f.file_id)
      then uri_part document_part f.file_id
      else part_from_url document_part f.file_data

  abbrev pub image_parts : Option Text → List MessagePart
  image_parts none = []
  image_parts (some url) = part_from_url image_part url ∷ []

  abbrev pub file_parts : Option FileBlock → List MessagePart
  file_parts none = []
  file_parts (some f) = file_part f ∷ []

  -- What a block that is not the leading text adds to the parts.
  unfoldable pub unmarshal_block : BlockType → Block → List MessagePart
  unfolding part_from_url
  unmarshal_block text_block b = new_text_part b.text ∷ []
  unmarshal_block image_url_block b = image_parts b.image_url
  unmarshal_block file_block b = file_parts b.file
  unmarshal_block (other_block t) b = []

  unfoldable pub unmarshal_blocks : List Block → List MessagePart
  unfolding unmarshal_block
  unmarshal_blocks [] = []
  unmarshal_blocks (b ∷ bs) = unmarshal_block b.kind b ++ unmarshal_blocks bs

  abbrev pub split_first : BlockType → Block → List Block → Text × List MessagePart
  split_first text_block b bs = (b.text, unmarshal_blocks bs)
  split_first image_url_block b bs = ([], unmarshal_block image_url_block b ++ unmarshal_blocks bs)
  split_first file_block b bs = ([], unmarshal_block file_block b ++ unmarshal_blocks bs)
  split_first (other_block t) b bs = ([], unmarshal_blocks bs)

  -- The content and the parts.
  abbrev pub split_blocks : List Block → Text × List MessagePart
  split_blocks [] = ([], [])
  split_blocks (b ∷ bs) = split_first b.kind b bs

  abbrev pub read_content : Content → Text × List MessagePart
  read_content absent = ([], [])
  read_content null = ([], [])
  read_content (string t) = (t, [])
  read_content (blocks bs) = split_blocks bs

  -- `Message.UnmarshalJSON`, into a message whose other fields stay.
  unfoldable pub unmarshal : Message → Wire → Message
  unfolding unmarshal_blocks
  unmarshal m w =
      let (content, parts) = read_content w.content in
      record m {
        role = w.role;
        content = content;
        parts = parts;
        tool_calls = w.tool_calls;
        tool_call_id = w.tool_call_id;
        name = w.name;
      }
