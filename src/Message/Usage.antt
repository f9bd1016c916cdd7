-- ===== src/Message/Usage.antt =====
-- `MessageUsage` of llm/messages.go: token counts, which the providers add up in different ways.
use azoth.Base.{ℕ, ◌+◌, ◌^◌, ◌<◌, ◌≡◌, Bool, ◌&&◌, arith, if◌then◌else◌}
use azoth.Base.Int.{ℤ, pos, ◌+ℤ◌, ◌-ℤ◌, ltb_ℤ, leb_ℤ, eqb_ℤ, wrap64}

pub record MessageUsage : Type 0 where
  pub input_tokens : ℤ
  pub output_tokens : ℤ
  pub cache_read_tokens : ℤ
  pub cache_write_tokens : ℤ
  pub reasoning_tokens : ℤ
  pub total_tokens : ℤ

unfoldable pub effective_input_tokens : MessageUsage → ℤ
unfolding ◌+ℤ◌ ◌-ℤ◌
effective_input_tokens u =
    if ltb_ℤ (pos 0) u.total_tokens && leb_ℤ u.output_tokens u.total_tokens
    then wrap64 (u.total_tokens -ℤ u.output_tokens)
    else wrap64 (wrap64 (u.input_tokens +ℤ u.cache_read_tokens) +ℤ u.cache_write_tokens)

unfoldable pub empty_usage : MessageUsage → Bool
empty_usage u =
    eqb_ℤ u.input_tokens (pos 0)
    && eqb_ℤ u.output_tokens (pos 0)
    && eqb_ℤ u.cache_read_tokens (pos 0)
    && eqb_ℤ u.cache_write_tokens (pos 0)
    && eqb_ℤ u.reasoning_tokens (pos 0)
    && eqb_ℤ u.total_tokens (pos 0)

-- The counts of one turn: `total` is what the provider reports.
abbrev pub usage : ℕ → ℕ → ℕ → ℕ → ℕ → ℕ → MessageUsage
usage i o read write reasoning total = record {
  input_tokens = pos i;
  output_tokens = pos o;
  cache_read_tokens = pos read;
  cache_write_tokens = pos write;
  reasoning_tokens = pos reasoning;
  total_tokens = pos total;
}

-- For counts below 2^63 in sum, with an input or an output: where the total adds the cache up with
-- the input (Anthropic) the prompt is all three; where the input has the cache in it (OpenAI) it
-- is the input alone; without a total it is the sum of the three.
pub effective_input_tokens-shapes :
    (i o read write reasoning : ℕ)
    → 0 < i + o
    → i + o + read + write < 2 ^ 63
    → (effective_input_tokens (usage i o read write reasoning (i + o + read + write))
        ≡ pos (i + read + write))
      × (effective_input_tokens (usage i o read write reasoning (i + o)) ≡ pos i)
      × (effective_input_tokens (usage i o read write reasoning 0) ≡ pos (i + read + write))
unfolding effective_input_tokens wrap64
effective_input_tokens-shapes i o read write reasoning h b =
    (ground arith, ground arith, ground arith)
