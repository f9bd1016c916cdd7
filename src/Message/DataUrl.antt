-- ===== src/Message/DataUrl.antt =====
-- `partFromURL` undoes `dataURL`.
use azoth.Base.{
  ℕ, ◌≡◌, refl, ap, ◌∙◌, false, ◌&&◌, ◌||◌, Option, some, List, [], ◌∷◌, ◌++◌, arith, ◌==◌,
  is_empty, length, drop, All, if_true, if_false,
}
use azoth.Base.Text.{Text, codes, has_prefix, has_prefix-append}
use azoth.Message.{
  PartType, bytes_part, uri_part, cut_prefix, behind, cut, data_prefix, base64_mark, data_url,
  decoded_part, cut_part, url_part, part_from_url,
}

pub drop-append : {A : Type 0} (p xs : List A) → drop (length p) (p ++ xs) ≡ xs
drop-append [] xs = refl
drop-append (x ∷ p) xs = drop-append p xs

-- Without a semicolon the mark is not met in front of its place.
abbrev pub NoSemicolon : Text → Type 0
NoSemicolon s = All (λ c. (c == b';') ≡ false) s

cut_mark :
    (mime enc : Text)
    → NoSemicolon mime
    → cut (mime ++ (base64_mark ++ enc)) base64_mark ≡ some (mime, enc)
unfolding cut
cut_mark [] enc h =
    if_true (some ([], enc)) (behind b';' (cut (codes "base64," ++ enc) base64_mark))
      (has_prefix-append base64_mark enc)
cut_mark (c ∷ mime) enc h =
    if_false _ _ (ap (λ b. b && has_prefix (mime ++ (base64_mark ++ enc)) (codes "base64,")) h.0)
    ∙ ap (behind c) (cut_mark mime enc h.1)

cut_prefix-append : (p xs : Text) → cut_prefix (p ++ xs) p ≡ some xs
unfolding cut_prefix
cut_prefix-append p xs = if_true _ _ (has_prefix-append p xs) ∙ ap some (drop-append p xs)

module _ (encode_string : List ℕ → Text) (decode_string : Text → Option (List ℕ)) where
  pub part_from_url-data_url :
      (k : PartType) (mime : Text) (bytes : List ℕ)
      → decode_string (encode_string bytes) ≡ some bytes
      → NoSemicolon mime
      → is_empty mime ≡ false
      → is_empty bytes ≡ false
      → part_from_url encode_string decode_string k
          (data_url encode_string decode_string (bytes_part k mime bytes))
        ≡ bytes_part k mime bytes
  unfolding part_from_url data_url
  part_from_url-data_url k mime bytes d s m b =
      let rest : Text = mime ++ (base64_mark ++ encode_string bytes) in
      let full : (is_empty bytes || is_empty mime) ≡ false = ground arith in
      ap (part_from_url encode_string decode_string k) (if_false [] (data_prefix ++ rest) full)
      ∙ ap (url_part encode_string decode_string k (data_prefix ++ rest))
          (cut_prefix-append data_prefix rest)
      ∙ ap (cut_part encode_string decode_string k (data_prefix ++ rest))
          (cut_mark mime (encode_string bytes) s)
      ∙ ap (decoded_part encode_string decode_string k (data_prefix ++ rest) mime) d

  -- An address that is no `data:` URL stays one.
  pub part_from_url-plain :
      (k : PartType) (url : Text)
      → has_prefix url data_prefix ≡ false
      → part_from_url encode_string decode_string k url ≡ uri_part k url
  unfolding part_from_url cut_prefix
  part_from_url-plain k url h = ap (url_part encode_string decode_string k url) (if_false _ _ h)
