-- ===== src/Anthropic/Stream/Usage.antt =====
-- The token counts that the two adapters report, as the rest of the program reads them.
use azoth.Base.{ℕ, ◌+◌, ◌^◌, ◌<◌, ◌≡◌, arith}
use azoth.Base.Int.{pos, ◌+ℤ◌, ◌-ℤ◌, wrap64}
use azoth.Message.Usage.{effective_input_tokens}
use azoth.Anthropic.Stream.{anthropic_usage_from}

-- For counts below 2^63 in sum, of which the fresh input or the output is not 0: the prompt of a turn
-- that `anthropicUsageFrom` reports is the fresh input with what was read from and written to the cache.
pub effective_input_tokens-anthropic_usage_from :
    (input output read write : ℕ)
    → 0 < input + output
    → input + output + read + write < 2 ^ 63
    → effective_input_tokens (anthropic_usage_from (pos input) (pos output) (pos read) (pos write))
      ≡ pos (input + read + write)
unfolding effective_input_tokens anthropic_usage_from wrap64 ◌+ℤ◌ ◌-ℤ◌
effective_input_tokens-anthropic_usage_from input output read write h b = ground arith
