-- ===== src/Anthropic/Params/Budget.antt =====
-- The limits that the thinking budget keeps.
use azoth.Base.{ℕ, ◌≡◌, ◌<◌, ◌^◌, arith, true, ltb}
use azoth.Base.Int.{ℤ, pos, negsuc, ltb_ℤ, leb_ℤ, wrap64, ◌-ℤ◌, ◌+ℤ◌}
use azoth.Anthropic.Params.{thinking_budget}

-- Whatever budget is configured, the budget asked for is below `max_tokens`; it reaches the API's
-- minimum of 1024 exactly if `max_tokens` is more than 1024.
pub thinking_budget_range :
    (configured : ℤ) (max_tokens : ℕ)
    → 0 < max_tokens
    → max_tokens < 2 ^ 63
    → (ltb_ℤ (thinking_budget configured (pos max_tokens)) (pos max_tokens) ≡ true)
      × (leb_ℤ (pos 1024) (thinking_budget configured (pos max_tokens)) ≡ ltb 1024 max_tokens)
unfolding thinking_budget wrap64 ◌-ℤ◌ ◌+ℤ◌
thinking_budget_range (pos n) max_tokens h b = (ground arith, ground arith)
thinking_budget_range (negsuc n) max_tokens h b = (ground arith, ground arith)
