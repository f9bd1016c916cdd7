-- ===== src/Message/RoundTrip.antt =====
-- A message that crosses the wire comes back as it was.
use azoth.Base.{
  ℕ, ◌≡◌, ◌≢◌, refl, ap, ◌∙◌, ◌⊎◌, inl, inr, Bool, true, false, not, ◌&&◌, Option, some, List, [],
  ◌∷◌, ◌++◌, arith, if◌then◌else◌, is_empty, All, if_true, if_false, Bool-cases, subst,
}
use azoth.Base.Text.{Text, codes, text_eq, has_prefix}
use azoth.Message.{
  MessagePart, text_part, image_part, document_part, Message, new_text_part, bytes_part, uri_part,
  Block, Content, data_prefix, marshal_part, marshal_parts, wire_with, marshal, unmarshal_block,
  unmarshal_blocks, split_blocks, read_content, unmarshal, block_of_text, absent, string, blocks,
}
use azoth.Message.DataUrl.{NoSemicolon, part_from_url-data_url, part_from_url-plain}

is_empty-nil : (xs : Text) → is_empty xs ≡ true → [] ≡ xs
is_empty-nil [] h = refl
is_empty-nil (x ∷ xs) h = absurd cc

middle : (a b c : Bool) → (a && b && c) ≡ true → b ≡ true
middle a b c h = ground arith

module _ (encode_string : List ℕ → Text) (decode_string : Text → Option (List ℕ)) where
  -- Bytes that base64 brings back.
  abbrev pub Decodes : List ℕ → Type 0
  Decodes bytes = decode_string (encode_string bytes) ≡ some bytes

  -- The parts that come back, of those that the constructors of the source make.
  pub data IsPlain : MessagePart → Type 0 where
    plain_text : (t : Text) → IsPlain (new_text_part t)
    plain_image :
        (mime : Text) (bytes : List ℕ)
        → Decodes bytes
        → NoSemicolon mime
        → is_empty mime ≡ false
        → is_empty bytes ≡ false
        → IsPlain (bytes_part image_part mime bytes)
    plain_document :
        (mime : Text) (bytes : List ℕ)
        → Decodes bytes
        → NoSemicolon mime
        → is_empty mime ≡ false
        → is_empty bytes ≡ false
        → IsPlain (bytes_part document_part mime bytes)
    plain_image_uri :
        (c : ℕ) (uri : Text)
        → has_prefix (c ∷ uri) data_prefix ≡ false
        → IsPlain (uri_part image_part (c ∷ uri))
    plain_document_uri : (c : ℕ) (uri : Text) → IsPlain (uri_part document_part (c ∷ uri))

  unmarshal-marshal_part :
      (p : MessagePart)
      → IsPlain p
      → (rest : List Block)
      → unmarshal_blocks encode_string decode_string
          (marshal_part encode_string decode_string p.kind p ++ rest)
        ≡ p ∷ unmarshal_blocks encode_string decode_string rest
  unfolding unmarshal_blocks unmarshal_block marshal_part
  unmarshal-marshal_part _ (plain_text t) rest = refl
  unmarshal-marshal_part _ (plain_image mime bytes d s m b) rest =
      ap (λ q. q ∷ unmarshal_blocks encode_string decode_string rest)
        (part_from_url-data_url encode_string decode_string image_part mime bytes d s m b)
  unmarshal-marshal_part _ (plain_document mime bytes d s m b) rest =
      ap (λ q. q ∷ unmarshal_blocks encode_string decode_string rest)
        (part_from_url-data_url encode_string decode_string document_part mime bytes d s m b)
  unmarshal-marshal_part _ (plain_image_uri c uri h) rest =
      ap (λ q. q ∷ unmarshal_blocks encode_string decode_string rest)
        (part_from_url-plain encode_string decode_string image_part (c ∷ uri) h)
  unmarshal-marshal_part _ (plain_document_uri c uri) rest = refl

  unmarshal-marshal_parts :
      (ps : List MessagePart)
      → All IsPlain ps
      → unmarshal_blocks encode_string decode_string (marshal_parts encode_string decode_string ps)
        ≡ ps
  unfolding marshal_parts unmarshal_blocks
  unmarshal-marshal_parts [] h = refl
  unmarshal-marshal_parts (p ∷ ps) h =
      unmarshal-marshal_part p h.0 (marshal_parts encode_string decode_string ps)
      ∙ ap (◌∷◌ p) (unmarshal-marshal_parts ps h.1)

  -- Where there are parts, a text in front of them is the content.
  abbrev pub Leads : Text → List MessagePart → Type 0
  Leads content [] = Unit
  Leads content (p ∷ ps) = (is_empty content ≡ false) ⊎ (p.kind ≢ text_part)

  split_parts :
      (p : MessagePart) (ps : List MessagePart)
      → IsPlain p
      → All IsPlain ps
      → p.kind ≢ text_part
      → split_blocks encode_string decode_string
          (marshal_parts encode_string decode_string (p ∷ ps))
        ≡ ([], p ∷ ps)
  unfolding marshal_parts marshal_part unmarshal_blocks
  split_parts _ ps (plain_text t) g h = absurd (h refl)
  split_parts _ ps (plain_image mime bytes d s m b) g h =
      ap (λ x. ([], x)) (unmarshal-marshal_parts _ (plain_image mime bytes d s m b, g))
  split_parts _ ps (plain_document mime bytes d s m b) g h =
      ap (λ x. ([], x)) (unmarshal-marshal_parts _ (plain_document mime bytes d s m b, g))
  split_parts _ ps (plain_image_uri c uri q) g h =
      ap (λ x. ([], x)) (unmarshal-marshal_parts _ (plain_image_uri c uri q, g))
  split_parts _ ps (plain_document_uri c uri) g h =
      ap (λ x. ([], x)) (unmarshal-marshal_parts _ (plain_document_uri c uri, g))

  -- What a message with these parts is on the wire, and how it is read.
  Crosses : Message → Text → List MessagePart → Type 0
  Crosses m content ps =
      (c : Content) × (marshal encode_string decode_string m
        ≡ wire_with encode_string decode_string m c)
      × (read_content encode_string decode_string c ≡ (content, ps))

  -- The blocks of a content and parts.
  abbrev lead_blocks : Text → List MessagePart → List Block
  lead_blocks content ps =
      (if is_empty content then [] else block_of_text content ∷ [])
      ++ marshal_parts encode_string decode_string ps

  marshal_with_parts :
      (m : Message) (content : Text) (p : MessagePart) (ps : List MessagePart)
      → m.content ≡ content
      → m.parts ≡ p ∷ ps
      → marshal encode_string decode_string m
        ≡ wire_with encode_string decode_string m (blocks (lead_blocks content (p ∷ ps)))
  unfolding marshal
  marshal_with_parts m content p ps e f =
      if_true _ _ (ap (λ x. not (is_empty x)) f)
      ∙ ap (λ x. wire_with encode_string decode_string m (blocks (lead_blocks x m.parts))) e
      ∙ ap (λ x. wire_with encode_string decode_string m (blocks (lead_blocks content x))) f

  marshal_without_parts : (m : Message) → m.parts ≡ [] → Crosses m m.content []
  unfolding marshal Crosses
  marshal_without_parts m f =
      let delegates : Bool =
        text_eq m.role (codes "assistant") && is_empty m.content && not (is_empty m.tool_calls) in
      let bare = if_false _ _ (ap (λ (x : List MessagePart). not (is_empty x)) f) in
      elim (Bool-cases delegates) [
        | inl e ↦ (
          absent,
          bare ∙ if_true _ _ e,
          ap (λ x. (x, [])) (is_empty-nil m.content (middle _ _ _ e)),
        )
        | inr e ↦ (string m.content, bare ∙ if_false _ _ e, refl)
      ]

  crosses :
      (m : Message) (content : Text) (ps : List MessagePart)
      → m.content ≡ content
      → m.parts ≡ ps
      → All IsPlain ps
      → Leads content ps
      → Crosses m content ps
  unfolding marshal Crosses
  crosses m content [] e f h l = subst (λ x. Crosses m x []) e (marshal_without_parts m f)
  crosses m [] (p ∷ ps) e f h (inl x) = absurd cc
  crosses m [] (p ∷ ps) e f h (inr x) = (
    blocks (lead_blocks [] (p ∷ ps)),
    marshal_with_parts m [] p ps e f,
    split_parts p ps h.0 h.1 x,
  )
  crosses m (c ∷ cs) (p ∷ ps) e f h l = (
    blocks (lead_blocks (c ∷ cs) (p ∷ ps)),
    marshal_with_parts m (c ∷ cs) p ps e f,
    ap (λ x. (c ∷ cs, x)) (unmarshal-marshal_parts (p ∷ ps) h),
  )

  -- A message is read back from the wire as it was under these conditions. Each part is one that a
  -- constructor makes: a text; an image or a document with bytes that are not empty and that base64
  -- brings back, under a type that is not empty and has no semicolon; an image with an address alone,
  -- which is not empty and is no `data:` URL; or a document with an address alone, which is not empty.
  -- The first part is no text where the content is empty. The fields that the wire has not are those of the receiver.
  pub unmarshal-marshal :
      (r m : Message)
      → All IsPlain m.parts
      → Leads m.content m.parts
      → unmarshal encode_string decode_string r (marshal encode_string decode_string m)
        ≡ record m { synthetic = r.synthetic; ignored = r.ignored; reasoning = r.reasoning }
  unfolding unmarshal Crosses
  unmarshal-marshal r m h l =
      let (c, wire, back) = crosses m m.content m.parts refl refl h l in
      ap (unmarshal encode_string decode_string r) wire
      ∙ ap
          (λ (x : Text × List MessagePart). record m {
            content = x.0;
            parts = x.1;
            synthetic = r.synthetic;
            ignored = r.ignored;
            reasoning = r.reasoning;
          })
          back
