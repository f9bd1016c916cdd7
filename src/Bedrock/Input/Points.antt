-- ===== src/Bedrock/Input/Points.antt =====
-- The cache points of a Converse request: how many there are, and that they change nothing else.
use azoth.Base.{ℕ, ◌+◌, ◌-◌, ◌≤◌, ◌≡◌, refl, ap, List, [], ◌∷◌, ◌++◌, arith, min, map}
use azoth.Base.Trailing.{one_if, one_if-le, total, update_trailing-total, update_trailing-view}
use azoth.Bedrock.Request.{
  ContentBlock, text_block, image_block, tool_use, tool_result, cache_point, ConverseRole,
  ConverseMessage,
}
use azoth.Bedrock.Input.{
  Tool, tool_spec, tool_cache_point, SystemBlock, system_text, system_cache_point, ConverseInput,
  end_point, add_point, apply_cache_points,
}

-- The elements of a slice that are no cache points, and their number.
abbrev pub system_texts : List SystemBlock → List SystemBlock
system_texts [] = []
system_texts (system_text t ∷ bs) = system_text t ∷ system_texts bs
system_texts (system_cache_point ∷ bs) = system_texts bs

abbrev pub system_points : List SystemBlock → ℕ
system_points [] = 0
system_points (system_text t ∷ bs) = system_points bs
system_points (system_cache_point ∷ bs) = 1 + system_points bs

module _ {J : Type 0} where
  abbrev pub tool_specs : List (Tool J) → List (Tool J)
  tool_specs [] = []
  tool_specs (tool_spec n d s ∷ ts) = tool_spec n d s ∷ tool_specs ts
  tool_specs (tool_cache_point ∷ ts) = tool_specs ts

  abbrev pub tool_points : List (Tool J) → ℕ
  tool_points [] = 0
  tool_points (tool_spec n d s ∷ ts) = tool_points ts
  tool_points (tool_cache_point ∷ ts) = 1 + tool_points ts

  abbrev pub blocks : List (ContentBlock J) → List (ContentBlock J)
  blocks [] = []
  blocks (cache_point ∷ bs) = blocks bs
  blocks (text_block t ∷ bs) = text_block t ∷ blocks bs
  blocks (image_block f d ∷ bs) = image_block f d ∷ blocks bs
  blocks (tool_use i n j ∷ bs) = tool_use i n j ∷ blocks bs
  blocks (tool_result i cs ∷ bs) = tool_result i cs ∷ blocks bs

  abbrev pub points : List (ContentBlock J) → ℕ
  points [] = 0
  points (cache_point ∷ bs) = 1 + points bs
  points (text_block t ∷ bs) = points bs
  points (image_block f d ∷ bs) = points bs
  points (tool_use i n j ∷ bs) = points bs
  points (tool_result i cs ∷ bs) = points bs

  abbrev pub message_points : ConverseMessage J → ℕ
  message_points m = points m.content

  abbrev pub message_blocks : ConverseMessage J → ConverseRole × List (ContentBlock J)
  message_blocks m = (m.role, blocks m.content)

  abbrev pub all_points : {G : Type 0} → ConverseInput G J → ℕ
  all_points i = system_points i.system + tool_points i.tools + total message_points i.messages

system_end :
    (bs : List SystemBlock)
    → (system_points (end_point system_cache_point bs) ≤ system_points bs + one_if bs)
      × (system_texts (end_point system_cache_point bs) ≡ system_texts bs)
system_end [] = (omega arith, refl)
system_end (b ∷ bs) = last (b ∷ bs)
  where
    last :
        (bs : List SystemBlock)
        → (system_points (bs ++ (system_cache_point ∷ [])) ≤ system_points bs + 1)
          × (system_texts (bs ++ (system_cache_point ∷ [])) ≡ system_texts bs)
    last [] = (omega arith, refl)
    last (system_text t ∷ bs) = let (h, k) = last bs in (h, ap (λ xs. system_text t ∷ xs) k)
    last (system_cache_point ∷ bs) = let (h, k) = last bs in (omega (arith, h), k)

module _ {J : Type 0} where
  tool_end :
      (ts : List (Tool J))
      → (tool_points (end_point tool_cache_point ts) ≤ tool_points ts + one_if ts)
        × (tool_specs (end_point tool_cache_point ts) ≡ tool_specs ts)
  tool_end [] = (omega arith, refl)
  tool_end (b ∷ bs) = last (b ∷ bs)
    where
      last :
          (ts : List (Tool J))
          → (tool_points (ts ++ (tool_cache_point ∷ [])) ≤ tool_points ts + 1)
            × (tool_specs (ts ++ (tool_cache_point ∷ [])) ≡ tool_specs ts)
      last [] = (omega arith, refl)
      last (tool_spec n d s ∷ ts) = let (h, k) = last ts in (h, ap (λ xs. tool_spec n d s ∷ xs) k)
      last (tool_cache_point ∷ ts) = let (h, k) = last ts in (omega (arith, h), k)

  block_end :
      (bs : List (ContentBlock J))
      → (points (bs ++ (cache_point ∷ [])) ≤ points bs + 1)
        × (blocks (bs ++ (cache_point ∷ [])) ≡ blocks bs)
  block_end [] = (omega arith, refl)
  block_end (cache_point ∷ bs) = let (h, k) = block_end bs in (omega (arith, h), k)
  block_end (text_block t ∷ bs) = let (h, k) = block_end bs in (h, ap (λ xs. text_block t ∷ xs) k)
  block_end (image_block f d ∷ bs) =
      let (h, k) = block_end bs in (h, ap (λ xs. image_block f d ∷ xs) k)
  block_end (tool_use i n j ∷ bs) =
      let (h, k) = block_end bs in (h, ap (λ xs. tool_use i n j ∷ xs) k)
  block_end (tool_result i cs ∷ bs) =
      let (h, k) = block_end bs in (h, ap (λ xs. tool_result i cs ∷ xs) k)

  -- The cache points are at most the four that the API permits, and leave the texts, the tools and the
  -- messages as they were.
  pub apply_cache_points_bounded :
      {G : Type 0} (i : ConverseInput G J)
      → (all_points (apply_cache_points i) ≤ all_points i + 4)
        × (system_texts (apply_cache_points i).system ≡ system_texts i.system)
        × (tool_specs (apply_cache_points i).tools ≡ tool_specs i.tools)
        × (map message_blocks (apply_cache_points i).messages ≡ map message_blocks i.messages)
  unfolding apply_cache_points
  apply_cache_points_bounded i =
      let rounds = min (4 - (one_if i.system + one_if i.tools)) 2 in
      let (a, same) = system_end i.system in
      let (b, same') = tool_end i.tools in
      let c =
        update_trailing-total add_point message_points (λ m. (block_end m.content).0) rounds 0
          i.messages in
      let d = one_if-le i.system in
      let e = one_if-le i.tools in
      (
        ground (arith, a, b, c, d, e),
        same,
        same',
        update_trailing-view add_point message_blocks
            (λ m. ap (λ bs. (m.role, bs)) (block_end m.content).1) rounds 0 i.messages,
      )
